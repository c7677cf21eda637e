-- ===== src/Agent/Desired/Merge.antt =====
-- The view of the services' scale against its specification: the greatest record of each service.
-- crates/jiji-agent/src/desired.rs, `apply`, `from_records`, `order`.
use text.Mathlib.TextPositions.{eq_refl}
use jiji.Common.{
  ◌≡◌, refl, sym, ◌∙◌, ◌⊎◌, inl, inr, true, false, none, some, Option, some_inj, List, ◌∷◌, String,
  subst, arith, eq_iff, Bool-cases, str_eq, is_le, is_le_trans, Chains-then, Chains-compare,
  Chains-compare_str, flip-compare_str, In, contains, include, if◌then◌else◌,
}
use jiji.Common.Map.{lookup, insert, lookup-insert}
use jiji.Agent.Desired.{DesiredStateRecord, DesiredStateView, DesiredApply, order, loses, merge}

contains-include :
    (a b : String) (xs : List String)
    → contains a (include b xs) ≡ true
    → (a ≡ b) ⊎ (contains a xs ≡ true)
unfolding include
contains-include a b xs h = ground (arith, eq_iff a b)

module _ (hash : DesiredStateRecord → String) where
  abbrev pub NotAbove : DesiredStateRecord → DesiredStateRecord → Type 0
  NotAbove c d = is_le (order c (hash c) d (hash d)) ≡ true

  NotAbove-refl : (c : DesiredStateRecord) → NotAbove c c
  unfolding order
  NotAbove-refl c = ground (arith, eq_refl (hash c))

  NotAbove-trans : (c d e : DesiredStateRecord) → NotAbove c d → NotAbove d e → NotAbove c e
  unfolding order
  NotAbove-trans c d e = is_le_trans _ _ _ (
      Chains-then _ _ _ _ _ _ (Chains-compare c.revision d.revision e.revision)
        (Chains-compare_str (hash c) (hash d) (hash e)))

  pub NotAbove-antisym :
      (c d : DesiredStateRecord) → (hash c ≡ hash d → c ≡ d) → NotAbove c d → NotAbove d c → c ≡ d
  unfolding order
  NotAbove-antisym c d injective h k =
      injective ((eq_iff (hash c) (hash d)).0 (ground (arith, flip-compare_str (hash c) (hash d))))

  NotAbove-total :
      (c d : DesiredStateRecord) → is_le (order c (hash c) d (hash d)) ≡ false → NotAbove d c
  unfolding order
  NotAbove-total c d h = ground (arith, flip-compare_str (hash c) (hash d))

  -- The record `w` of `seen` that stands above every other record of the service.
  pub record IsGreatest (seen : List DesiredStateRecord) (service : String) (w : DesiredStateRecord)
      : Type 0 where
    pub member : In w seen
    pub of_service : w.service ≡ service
    pub greatest : (r : DesiredStateRecord) → In r seen → r.service ≡ service → NotAbove r w

  -- A record that the view has seen before, or that loses, changes no winner.
  keep-Greatest :
      (seen : List DesiredStateRecord) (r w : DesiredStateRecord) (k : String)
      → IsGreatest seen k w
      → (r.service ≡ k → NotAbove r w)
      → IsGreatest (r ∷ seen) k w
  keep-Greatest seen r w k g below = record {
    member = inr g.member;
    of_service = g.of_service;
    greatest = λ x i e. beside x i e;
  }
    where
      beside : (x : DesiredStateRecord) → In x (r ∷ seen) → x.service ≡ k → NotAbove x w
      beside x (inl s) e = rw s (below (subst (λ y. y.service ≡ k) s e))
      beside x (inr i) e = g.greatest x i e

module _ (hash : DesiredStateRecord → String) (known_records : List DesiredStateRecord)
    (injective : (r c : DesiredStateRecord)
      → In r known_records
      → In c known_records
      → hash r ≡ hash c
      → r ≡ c) where
  -- The view holds, for each service of `seen`, its greatest record, and nothing else.
  pub record Represents (seen : List DesiredStateRecord) (v : DesiredStateView) : Type 0 where
    pub held :
        (k : String) (w : DesiredStateRecord)
        → lookup k v.records ≡ some w
        → IsGreatest hash seen k w
    pub known :
        (r : DesiredStateRecord)
        → In r seen
        → (w : DesiredStateRecord) × (lookup r.service v.records ≡ some w)
    pub ids :
        (r : DesiredStateRecord)
        → In r known_records
        → contains (hash r) v.record_ids ≡ true
        → In r seen

  ids-include :
      (seen : List DesiredStateRecord) (v : DesiredStateView) (r x : DesiredStateRecord)
      → Represents seen v
      → In r known_records
      → In x known_records
      → contains (hash x) (include (hash r) v.record_ids) ≡ true
      → In x (r ∷ seen)
  ids-include seen v r x h i j e = elim (contains-include (hash x) (hash r) v.record_ids e) [
    | inl same ↦ inl (injective x r j i same)
    | inr old ↦ inr (h.ids x j old)
  ]

  duplicate-Represents :
      (seen : List DesiredStateRecord) (v : DesiredStateView) (r : DesiredStateRecord)
      → Represents seen v
      → In r seen
      → Represents (r ∷ seen) v
  duplicate-Represents seen v r h i = record {
    held = λ k w at.
        keep-Greatest hash seen r w k (h.held k w at) (λ e. (h.held k w at).greatest r i e);
    known = λ x j. found x j;
    ids = λ x i e. inr (h.ids x i e);
  }
    where
      found :
          (x : DesiredStateRecord)
          → In x (r ∷ seen)
          → (w : DesiredStateRecord) × (lookup x.service v.records ≡ some w)
      found x (inl e) = rw e (h.known r i)
      found x (inr j) = h.known x j

  superseded-Represents :
      (seen : List DesiredStateRecord) (v v' : DesiredStateView) (r c : DesiredStateRecord)
      → Represents seen v
      → In r known_records
      → lookup r.service v.records ≡ some c
      → NotAbove hash r c
      → v' ≡ record v { record_ids = include (hash r) v.record_ids }
      → Represents (r ∷ seen) v'
  superseded-Represents seen v v' r c h mine at below e = rw e (record {
    held = λ k w there. keep-Greatest hash seen r w k (h.held k w there) (λ s.
        subst (λ x. NotAbove hash r x)
          (some_inj c w (sym at ∙ subst (λ j. lookup j v.records ≡ some w) (sym s) there)) below);
    known = λ x j. found x j;
    ids = λ x. ids-include seen v r x h mine;
  })
    where
      found :
          (x : DesiredStateRecord)
          → In x (r ∷ seen)
          → (w : DesiredStateRecord) × (lookup x.service v.records ≡ some w)
      found x (inl same) = rw same (c, at)
      found x (inr j) = h.known x j

  stored-Represents :
      (seen : List DesiredStateRecord) (v v' : DesiredStateView) (r : DesiredStateRecord)
      → Represents seen v
      → In r known_records
      → ((c : DesiredStateRecord) → lookup r.service v.records ≡ some c → NotAbove hash c r)
      → v' ≡ record {
        records = insert r.service r v.records;
        record_ids = include (hash r) v.record_ids;
      }
      → Represents (r ∷ seen) v'
  stored-Represents seen v v' r h mine above e = rw e (record {
    held = λ k w there. held k w (sym (lookup-insert k r.service r v.records) ∙ there);
    known = λ x j. found x j (Bool-cases (str_eq x.service r.service));
    ids = λ x. ids-include seen v r x h mine;
  })
    where
      below : (x : DesiredStateRecord) → In x seen → x.service ≡ r.service → NotAbove hash x r
      below x i same =
          let old = h.known x i in
          NotAbove-trans hash x old.0 r ((h.held x.service old.0 old.1).greatest x i refl)
            (above old.0 (subst (λ k. lookup k v.records ≡ some old.0) same old.1))

      new : (x : DesiredStateRecord) → In x (r ∷ seen) → x.service ≡ r.service → NotAbove hash x r
      new x (inl same) s = rw same (NotAbove-refl hash r)
      new x (inr i) s = below x i s

      found :
          (x : DesiredStateRecord)
          → In x (r ∷ seen)
          → (str_eq x.service r.service ≡ true) ⊎ (str_eq x.service r.service ≡ false)
          → (w : DesiredStateRecord) × (lookup x.service (insert r.service r v.records) ≡ some w)
      found x j (inl t) = (r, rw (lookup-insert x.service r.service r v.records, t) refl)
      found x (inl same) (inr f) = (r, ground (arith, same, f, eq_iff x.service r.service))
      found x (inr i) (inr f) = rw (lookup-insert x.service r.service r v.records, f) (h.known x i)

      winner : (w : DesiredStateRecord) → r ≡ w → IsGreatest hash (r ∷ seen) r.service w
      winner w e =
          subst (λ x. IsGreatest hash (r ∷ seen) r.service x) e
            (record { member = inl refl; of_service = refl; greatest = new })

      held :
          (k : String) (w : DesiredStateRecord)
          → (if str_eq k r.service then some r else lookup k v.records) ≡ some w
          → IsGreatest hash (r ∷ seen) k w
      held k w there = elim (Bool-cases (str_eq k r.service)) [
        | inl t ↦
            subst (λ j. IsGreatest hash (r ∷ seen) j w) (sym ((eq_iff k r.service).0 t))
              (winner w (some_inj r w (rw t at there)))
        | inr f ↦
            keep-Greatest hash seen r w k (h.held k w (rw f at there))
              (λ s. absurd (ground (arith, s, f, eq_iff k r.service)))
      ]

  pub merge-Represents :
      (seen : List DesiredStateRecord) (v : DesiredStateView) (r : DesiredStateRecord)
      → Represents seen v
      → In r known_records
      → Represents (r ∷ seen) (merge hash v r).0
  unfolding merge
  merge-Represents seen v r h mine = elim (Bool-cases (contains (hash r) v.record_ids)) [
    | inl t ↦ rw t (duplicate-Represents seen v r h (h.ids r mine t))
    | inr f ↦ rw f (fresh (lookup r.service v.records) refl)
  ]
    where
      fresh :
          (o : Option DesiredStateRecord)
          → lookup r.service v.records ≡ o
          → Represents
              (r ∷ seen)
              (if◌then◌else◌ {A = DesiredStateView × DesiredApply}
                (loses hash r o)
                (record v { record_ids = include (hash r) v.record_ids }, DesiredApply.superseded)
                (
                  record {
                    records = insert r.service r v.records;
                    record_ids = include (hash r) v.record_ids;
                  },
                  DesiredApply.applied,
                )).0
      fresh none at = stored-Represents seen v _ r h mine (λ c e. cc) refl
      fresh (some c) at = elim (Bool-cases (is_le (order r (hash r) c (hash c)))) [
        | inl t ↦ rw t (superseded-Represents seen v _ r c h mine at t refl)
        | inr f ↦ rw f (
            stored-Represents seen v _ r h mine
              (λ d e.
                subst (λ x. NotAbove hash x r) (some_inj c d (sym at ∙ e))
                  (NotAbove-total hash r c f))
              refl)
      ]
