-- ===== src/Agent/Desired/Converges.antt =====
-- `from_records` of the services' scale against its specification, and its independence of order.
-- crates/jiji-agent/src/desired.rs, `apply`, `from_records`.
use jiji.Common.{
  ◌≡◌, refl, sym, ap, ◌∙◌, inl, inr, none, some, Option, List, [], ◌∷◌, ◌++◌, String, ok, ok_inj,
  >>=-eq-ok, subst, In, ◌↔◌, contains, ℕ,
}
use jiji.Common.Map.{lookup}
use jiji.Agent.Membership.{MembershipView, RecordProvenance}
use jiji.Agent.Desired.{
  DesiredStateRecord, DesiredStateView, DesiredApply, DesiredError, apply, apply_all, from_records,
  empty_view, verify,
}
use jiji.Agent.Desired.Merge.{Represents, IsGreatest, NotAbove-antisym, merge-Represents}

abbrev pub records_of : List (DesiredStateRecord × RecordProvenance) → List DesiredStateRecord
records_of [] = []
records_of (p ∷ ps) = p.0 ∷ records_of ps

swapped :
    (r x : DesiredStateRecord) (seen xs : List DesiredStateRecord)
    → In x (xs ++ (r ∷ seen))
    → In x (r ∷ (xs ++ seen))
swapped r x seen [] i = i
swapped r x seen (y ∷ xs) (inl e) = inr (inl e)
swapped r x seen (y ∷ xs) (inr i) = elim (swapped r x seen xs i) [
  | inl e ↦ inl e
  | inr j ↦ inr (inr j)
]

swapped_back :
    (r x : DesiredStateRecord) (seen xs : List DesiredStateRecord)
    → In x (r ∷ (xs ++ seen))
    → In x (xs ++ (r ∷ seen))
swapped_back r x seen [] i = i
swapped_back r x seen (y ∷ xs) (inl e) = inr (swapped_back r x seen xs (inl e))
swapped_back r x seen (y ∷ xs) (inr (inl e)) = inl e
swapped_back r x seen (y ∷ xs) (inr (inr i)) = inr (swapped_back r x seen xs (inr i))

append_nil : (r : DesiredStateRecord) (xs : List DesiredStateRecord) → In r (xs ++ []) ↔ In r xs
append_nil r [] = (λ i. i, λ i. i)
append_nil r (x ∷ xs) =
    let rest = append_nil r xs in
    (
      λ i. elim i [ inl e ↦ inl e | inr j ↦ inr (rest.0 j) ],
      λ i. elim i [ inl e ↦ inl e | inr j ↦ inr (rest.1 j) ],
    )

module _ (hash : DesiredStateRecord → String) (known_records : List DesiredStateRecord)
    (injective : (r c : DesiredStateRecord)
      → In r known_records
      → In c known_records
      → hash r ≡ hash c
      → r ≡ c) where
  apply-Represents :
      (seen : List DesiredStateRecord) (v : DesiredStateView) (r : DesiredStateRecord)
      (provenance : RecordProvenance) (project_id : String) (recovery_epoch : ℕ)
      (membership : MembershipView) (p : DesiredStateView × DesiredApply)
      → Represents hash known_records injective seen v
      → In r known_records
      → apply hash v r provenance project_id recovery_epoch membership ≡ ok p
      → Represents hash known_records injective (r ∷ seen) p.0
  unfolding apply
  apply-Represents seen v r provenance project_id recovery_epoch membership p h mine e =
      let done = >>=-eq-ok (verify r provenance project_id recovery_epoch membership) _ e in
      subst (λ q. Represents hash known_records injective (r ∷ seen) q.0)
        (ok_inj {E = DesiredError} _ p done.2)
        (merge-Represents hash known_records injective seen v r h mine)

  Represents-same :
      (xs ys : List DesiredStateRecord) (v : DesiredStateView)
      → ((r : DesiredStateRecord) → In r xs ↔ In r ys)
      → Represents hash known_records injective xs v
      → Represents hash known_records injective ys v
  Represents-same xs ys v same h = record {
    held = λ k w at.
        let g = h.held k w at in
        record {
          member = (same w).0 g.member;
          of_service = g.of_service;
          greatest = λ r i. g.greatest r ((same r).1 i);
        };
    known = λ r i. h.known r ((same r).1 i);
    ids = λ r i e. (same r).0 (h.ids r i e);
  }

  apply_all-Represents :
      (seen : List DesiredStateRecord) (v v' : DesiredStateView)
      (rs : List (DesiredStateRecord × RecordProvenance)) (project_id : String) (recovery_epoch : ℕ)
      (membership : MembershipView)
      → Represents hash known_records injective seen v
      → ((r : DesiredStateRecord) → In r (records_of rs) → In r known_records)
      → apply_all hash v rs project_id recovery_epoch membership ≡ ok v'
      → Represents hash known_records injective (records_of rs ++ seen) v'
  unfolding apply_all
  apply_all-Represents seen v v' [] project_id recovery_epoch membership h all e =
      subst (Represents hash known_records injective seen) (ok_inj {E = DesiredError} v v' e) h
  apply_all-Represents seen v v' ((r, q) ∷ rs) project_id recovery_epoch membership h all e =
      let first = >>=-eq-ok (apply hash v r q project_id recovery_epoch membership) _ e in
      let one =
        apply-Represents seen v r q project_id recovery_epoch membership first.0 h
          (all r (inl refl)) first.1 in
      Represents-same (records_of rs ++ (r ∷ seen)) (r ∷ (records_of rs ++ seen)) v'
        (λ x. (swapped r x seen (records_of rs), swapped_back r x seen (records_of rs)))
        (apply_all-Represents (r ∷ seen) first.0.0 v' rs project_id recovery_epoch membership one
          (λ x i. all x (inr i)) first.2)

  nothing_seen : Represents hash known_records injective [] empty_view
  unfolding lookup contains
  nothing_seen = record { held = λ k w at. cc; known = λ r i. elim i [ ]; ids = λ r i e. cc }

-- A view that `from_records` builds from a history holds for a service exactly the record of that
-- service in the history that no other one stands above in `order`: greatest revision first, then
-- greatest content hash. No two records of the history have the same content hash.
pub from_records-IsGreatest :
    (hash : DesiredStateRecord → String) (rs : List (DesiredStateRecord × RecordProvenance))
    (injective : (r c : DesiredStateRecord)
      → In r (records_of rs)
      → In c (records_of rs)
      → hash r ≡ hash c
      → r ≡ c)
    (project_id : String) (recovery_epoch : ℕ) (membership : MembershipView) (v : DesiredStateView)
    (k : String) (w : DesiredStateRecord)
    → from_records hash rs project_id recovery_epoch membership ≡ ok v
    → (lookup k v.records ≡ some w) ↔ IsGreatest hash (records_of rs) k w
unfolding from_records
from_records-IsGreatest hash rs injective project_id recovery_epoch membership v k w e =
    (built.held k w, back)
  where
    built : Represents hash (records_of rs) injective (records_of rs) v
    built =
        Represents-same hash (records_of rs) injective (records_of rs ++ []) (records_of rs) v
          (λ x. append_nil x (records_of rs))
          (apply_all-Represents hash (records_of rs) injective [] empty_view v rs project_id
            recovery_epoch membership (nothing_seen hash (records_of rs) injective) (λ r i. i) e)

    back : IsGreatest hash (records_of rs) k w → lookup k v.records ≡ some w
    back g =
        let at = built.known w g.member in
        let there = subst (λ j. lookup j v.records ≡ some at.0) g.of_service at.1 in
        let winner = built.held k at.0 there in
        there
        ∙ ap some (
            NotAbove-antisym hash at.0 w (injective at.0 w winner.member g.member)
              (g.greatest at.0 winner.member winner.of_service)
              (winner.greatest w g.member g.of_service))

over :
    (hash : DesiredStateRecord → String) (xs ys : List DesiredStateRecord) (k : String)
    (w : DesiredStateRecord)
    → ((r : DesiredStateRecord) → In r xs ↔ In r ys)
    → IsGreatest hash xs k w
    → IsGreatest hash ys k w
over hash xs ys k w s g = record {
  member = (s w).0 g.member;
  of_service = g.of_service;
  greatest = λ r i. g.greatest r ((s r).1 i);
}

-- Two histories of the same records, in whatever order and however often each is repeated, leave the
-- same winner for every service: replicas that have received the same records agree. No two of
-- the records have the same content hash.
pub from_records-converges :
    (hash : DesiredStateRecord → String) (rs qs : List (DesiredStateRecord × RecordProvenance))
    (project_id : String) (recovery_epoch : ℕ) (membership : MembershipView)
    (v u : DesiredStateView)
    → ((r c : DesiredStateRecord)
        → In r (records_of rs)
        → In c (records_of rs)
        → hash r ≡ hash c
        → r ≡ c)
    → ((r : DesiredStateRecord) → In r (records_of rs) ↔ In r (records_of qs))
    → from_records hash rs project_id recovery_epoch membership ≡ ok v
    → from_records hash qs project_id recovery_epoch membership ≡ ok u
    → (k : String) → lookup k v.records ≡ lookup k u.records
from_records-converges hash rs qs project_id recovery_epoch membership v u injective same e f k =
    agree (lookup k v.records) (lookup k u.records) refl refl
  where
    in_rs :
        (w : DesiredStateRecord)
        → (lookup k v.records ≡ some w) ↔ IsGreatest hash (records_of rs) k w
    in_rs w = from_records-IsGreatest hash rs injective project_id recovery_epoch membership v k w e

    in_qs :
        (w : DesiredStateRecord)
        → (lookup k u.records ≡ some w) ↔ IsGreatest hash (records_of qs) k w
    in_qs w =
        from_records-IsGreatest hash qs (λ r c i j. injective r c ((same r).1 i) ((same c).1 j))
          project_id recovery_epoch membership u k w f

    forth : (w : DesiredStateRecord) → lookup k v.records ≡ some w → lookup k u.records ≡ some w
    forth w at = (in_qs w).1 (over hash (records_of rs) (records_of qs) k w same ((in_rs w).0 at))

    back : (w : DesiredStateRecord) → lookup k u.records ≡ some w → lookup k v.records ≡ some w
    back w at = (in_rs w).1 (
        over hash (records_of qs) (records_of rs) k w (λ r. ((same r).1, (same r).0))
          ((in_qs w).0 at))

    agree :
        (o p : Option DesiredStateRecord)
        → lookup k v.records ≡ o
        → lookup k u.records ≡ p
        → lookup k v.records ≡ lookup k u.records
    agree none none h j = h ∙ sym j
    agree (some w) p h j = h ∙ sym (forth w h)
    agree none (some w) h j = back w j ∙ sym j
