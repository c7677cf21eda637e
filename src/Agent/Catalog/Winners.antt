-- ===== src/Agent/Catalog/Winners.antt =====
-- The records that DNS answers from: crates/jiji-agent/src/catalog.rs, `active_healthy`.
use text.Mathlib.TextPositions.{eq_refl}
use jiji.Common.{
  ◌≡◌, refl, sym, ◌∙◌, subst, inl, inr, true, false, ◌&&◌, some, some_inj, List, [], ◌∷◌, arith,
  eq_iff, Bool-cases, Option-cases, str_eq, is_le, is_gt, is_le_trans, In, if◌then◌else◌,
}
use jiji.Common.Map.{
  Map, lookup, insert, lookup-insert, values, lookup-In, AllPairs, AllPairs-insert, AllPairs-lookup,
  Ascending, insert-Ascending, In-lookup,
}
use jiji.Agent.Catalog.{
  CatalogRecord, CatalogView, record_order, is_active_healthy, replaces, elect, active_healthy,
  active_healthy_winners,
}
use jiji.Agent.Catalog.Fences.{Chains-order, le_of_gt}

abbrev turn : Map CatalogRecord → CatalogRecord → Map CatalogRecord
turn winners r =
    if is_active_healthy r && replaces r (lookup r.replica_id winners)
    then insert r.replica_id r winners
    else winners

-- The winner of the replica of `r` is not below it.
abbrev Covers : CatalogRecord → Map CatalogRecord → Type 0
Covers r winners =
    (w : CatalogRecord) × (lookup r.replica_id winners ≡ some w) × (is_le (record_order r w) ≡ true)

record_order_refl : (r : CatalogRecord) → is_le (record_order r r) ≡ true
unfolding record_order
record_order_refl r = ground (arith, eq_refl r.deployment_id)

-- The record that a turn puts in place, if it does.
record_order_trans :
    (r c d : CatalogRecord)
    → is_le (record_order r c) ≡ true
    → is_le (record_order c d) ≡ true
    → is_le (record_order r d) ≡ true
unfolding record_order
record_order_trans r c d =
    is_le_trans _ _ _ (Chains-order r c d r.deployment_id c.deployment_id d.deployment_id)

record_order-le_of_gt :
    (r c : CatalogRecord) → is_gt (record_order r c) ≡ true → is_le (record_order c r) ≡ true
unfolding record_order
record_order-le_of_gt r c h = le_of_gt r c r.deployment_id c.deployment_id h

le_of_not_gt :
    (r c : CatalogRecord) → is_gt (record_order r c) ≡ false → is_le (record_order r c) ≡ true
le_of_not_gt r c h = ground arith

insert-Covers :
    (winners : Map CatalogRecord) (r : CatalogRecord) → Covers r (insert r.replica_id r winners)
insert-Covers winners r =
    (r, rw (lookup-insert, (eq_iff r.replica_id r.replica_id).1 refl) refl, record_order_refl r)

turn-Covers :
    (winners : Map CatalogRecord) (r : CatalogRecord)
    → is_active_healthy r ≡ true
    → Covers r (turn winners r)
turn-Covers winners r h = elim (Option-cases (lookup r.replica_id winners)) [
  | inl e ↦ rw (h, e) (insert-Covers winners r)
  | inr (c, e) ↦ elim (Bool-cases (is_gt (record_order r c))) [
    | inl t ↦ rw (h, e, t) (insert-Covers winners r)
    | inr f ↦ rw (h, e, f) (c, e, le_of_not_gt r c f)
  ]
]

insert-Covers_other :
    (winners : Map CatalogRecord) (r x w : CatalogRecord)
    → lookup r.replica_id winners ≡ some w
    → is_le (record_order r w) ≡ true
    → replaces x (lookup x.replica_id winners) ≡ true
    → Covers r (insert x.replica_id x winners)
insert-Covers_other winners r x w at le over =
    elim (Bool-cases (str_eq r.replica_id x.replica_id)) [
      | inl t ↦
          let same = (eq_iff r.replica_id x.replica_id).0 t in
          let there = subst (λ k. lookup k winners ≡ some w) same at in
          let above = record_order-le_of_gt x w (rw there at over) in
          (x, rw (lookup-insert, t) refl, record_order_trans r w x le above)
      | inr f ↦ (w, rw (lookup-insert, f) at, le)
    ]

turn-Covers_other :
    (winners : Map CatalogRecord) (r x : CatalogRecord)
    → Covers r winners
    → Covers r (turn winners x)
turn-Covers_other winners r x (w, at, le) =
    elim (Bool-cases (is_active_healthy x && replaces x (lookup x.replica_id winners))) [
      | inl t ↦ rw t (insert-Covers_other winners r x w at le (ground arith))
      | inr f ↦ rw f (w, at, le)
    ]

elect-Covers_other :
    (winners : Map CatalogRecord) (rs : List CatalogRecord) (r : CatalogRecord)
    → Covers r winners
    → Covers r (elect winners rs)
unfolding elect
elect-Covers_other winners [] r h = h
elect-Covers_other winners (x ∷ rs) r h =
    elect-Covers_other (turn winners x) rs r (turn-Covers_other winners r x h)

elect-Covers :
    (winners : Map CatalogRecord) (rs : List CatalogRecord) (r : CatalogRecord)
    → In r rs
    → is_active_healthy r ≡ true
    → Covers r (elect winners rs)
unfolding elect
elect-Covers winners [] r i h = elim i [ ]
elect-Covers winners (x ∷ rs) r (inl e) h =
    elect-Covers_other (turn winners x) rs r (rw e (turn-Covers winners x (rw e at h)))
elect-Covers winners (x ∷ rs) r (inr i) h = elect-Covers (turn winners x) rs r i h

-- What holds of the table of winners at every turn.
record Elected (all : List CatalogRecord) (winners : Map CatalogRecord) : Type 0 where
  ascending : Ascending winners
  keyed : AllPairs (λ k w. w.replica_id ≡ k) winners
  live : AllPairs (λ k w. (is_active_healthy w ≡ true) × In w all) winners

turn-Elected :
    (all : List CatalogRecord) (winners : Map CatalogRecord) (x : CatalogRecord)
    → In x all
    → Elected all winners
    → Elected all (turn winners x)
turn-Elected all winners x i h =
    elim (Bool-cases (is_active_healthy x && replaces x (lookup x.replica_id winners))) [
      | inl t ↦ rw t (record {
        ascending = insert-Ascending x.replica_id x winners h.ascending;
        keyed = AllPairs-insert (λ k w. w.replica_id ≡ k) x.replica_id x winners refl h.keyed;
        live =
            AllPairs-insert (λ k w. (is_active_healthy w ≡ true) × In w all) x.replica_id x winners
              (ground arith, i) h.live;
      })
      | inr f ↦ rw f h
    ]

elect-Elected :
    (all : List CatalogRecord) (winners : Map CatalogRecord) (rs : List CatalogRecord)
    → ((x : CatalogRecord) → In x rs → In x all)
    → Elected all winners
    → Elected all (elect winners rs)
unfolding elect
elect-Elected all winners [] sub h = h
elect-Elected all winners (x ∷ rs) sub h =
    elect-Elected all (turn winners x) rs (λ y i. sub y (inr i))
      (turn-Elected all winners x (sub x (inl refl)) h)

-- `active_healthy` answers with records of the view that are active and healthy, with one record at
-- most for each replica, and for every active and healthy record of the view with one of the same
-- replica that is not below it in epoch, revision and deployment id.
pub record IsAnswer (all answers : List CatalogRecord) : Type 0 where
  pub sound : (w : CatalogRecord) → In w answers → In w all × (is_active_healthy w ≡ true)
  pub single :
      (w x : CatalogRecord) → In w answers → In x answers → w.replica_id ≡ x.replica_id → w ≡ x
  pub complete :
      (r : CatalogRecord)
      → In r all
      → is_active_healthy r ≡ true
      → (w : CatalogRecord) × In w answers
        × (w.replica_id ≡ r.replica_id)
        × (is_le (record_order r w) ≡ true)

elect-IsAnswer : (all : List CatalogRecord) → IsAnswer all (values (elect [] all))
elect-IsAnswer all = record {
  sound = λ w i.
      let p =
        AllPairs-lookup (λ k w. (is_active_healthy w ≡ true) × In w all) w.replica_id result w
          elected.live (found w i) in
      (p.1, p.0);
  single = λ w x i j e. some_inj w x (sym (found w i) ∙ (rw e (found x j)));
  complete = λ r i h.
      let c = elect-Covers [] all r i h in
      (
        c.0,
        lookup-In r.replica_id result c.0 c.1,
        AllPairs-lookup (λ k w. w.replica_id ≡ k) r.replica_id result c.0 elected.keyed c.1,
        c.2,
      );
}
  where
    result : Map CatalogRecord
    result = elect [] all

    elected : Elected all result
    elected = elect-Elected all [] all (λ x i. i) (record { ascending = tt; keyed = tt; live = tt })

    found : (w : CatalogRecord) → In w (values result) → lookup w.replica_id result ≡ some w
    found w i = In-lookup (λ w. w.replica_id) result w elected.ascending elected.keyed i

-- `active_healthy` is such an answer from the records of the view.
pub active_healthy-IsAnswer : (v : CatalogView) → IsAnswer (values v.records) (active_healthy v)
unfolding active_healthy
active_healthy-IsAnswer v = elect-IsAnswer (values v.records)

-- `active_healthy_winners` is such an answer from the records of the list.
pub active_healthy_winners-IsAnswer :
    (rs : List CatalogRecord) → IsAnswer rs (active_healthy_winners rs)
unfolding active_healthy_winners
active_healthy_winners-IsAnswer rs = elect-IsAnswer rs
