-- ===== src/Network/Buckets/Loops.antt =====
-- The loops over the identities and over their buckets: crates/jiji-network/src/planner.rs, `allocate_bucketed`.
use native.Mathlib.Nat.{mul-le-mul_right, mod-lt}
use jiji.Common.{
  ok_inj, is_some, Ordering, compare, ℕ, suc, ◌+◌, ◌*◌, ◌%◌, ◌^◌, ◌≤◌, ◌<◌, ◌≡◌, refl, sym, ap,
  subst, inl, inr, Bool, true, List, [], ◌∷◌, ◌++◌, String, ok, err, arith, Bool-cases, ltb, ◌==◌,
  length, keep, All, All-append, In,
}
use jiji.Common.Map.{AllPairs, Ascending, Map, lookup}
use jiji.Common.NumMap.{NumMap, lookup_num, insert_num, lookup_num-insert_num}
use jiji.Network.Cidr.{NetworkPlanError, bucket_exhausted}
use jiji.Network.Buckets.{sort, members, assign, group, assign_all, allocate_bucketed}
use jiji.Network.Buckets.Slots.{
  length-sort, In-sort, IsBelow, IsBelow-weaken, assign-IsBelow, assign-kept, assign-In, sort-All,
  assign-AllPairs, assign-Ascending,
}

-- Buckets in the order of their numbers, from `first` on and below `count`.
abbrev pub Between : ℕ → ℕ → NumMap (List String) → Type 0
Between first count [] = first ≤ count
Between first count ((b, ids) ∷ buckets) = (first ≤ b) × (b < count) × Between (suc b) count buckets

lower :
    (a b count : ℕ) (buckets : NumMap (List String))
    → a ≤ b
    → Between b count buckets
    → Between a count buckets
lower a b count [] le h = omega arith
lower a b count ((c, ids) ∷ buckets) le h = (omega (arith, h.0), h.1, h.2)

insert_num-Between :
    (first count k : ℕ) (v : List String) (buckets : NumMap (List String))
    → first ≤ k
    → k < count
    → Between first count buckets
    → Between first count (insert_num k v buckets)
unfolding insert_num
insert_num-Between first count k v [] le lt h = (le, lt, omega arith)
insert_num-Between first count k v ((b, ids) ∷ buckets) le lt h =
    placed (λ above. insert_num-Between (suc b) count k v buckets above lt h.2) (compare k b) refl
  where
    placed :
        (suc b ≤ k → Between (suc b) count (insert_num k v buckets))
        → (o : Ordering) → compare k b ≡ o
        → Between first count (elim o [
          | Ordering.lt ↦ (k, v) ∷ (b, ids) ∷ buckets
          | Ordering.eq ↦ (k, v) ∷ buckets
          | Ordering.gt ↦ (b, ids) ∷ insert_num k v buckets
        ])
    placed later Ordering.lt e = (le, lt, (ground arith, h.1, h.2))
    placed later Ordering.eq e = (le, lt, lower (suc k) (suc b) count buckets (ground arith) h.2)
    placed later Ordering.gt e = (h.0, h.1, later (ground arith))

pub group-Between :
    (stable_hash : String → ℕ) (count : ℕ) (ids : List String) (buckets : NumMap (List String))
    → 0 < count
    → Between 0 count buckets
    → Between 0 count (group stable_hash count ids buckets)
unfolding group
group-Between stable_hash count [] buckets pos h = h
group-Between stable_hash count (id ∷ ids) buckets pos h =
    group-Between stable_hash count ids _ pos
      (insert_num-Between 0 count _ _ buckets (omega arith) (mod-lt (stable_hash id) pos) h)

module _ (cap count : ℕ) (kind : String) (fits : count * cap < 2 ^ 64) where
  pub assign_all-IsBelow :
      (first : ℕ) (buckets : NumMap (List String)) (m out : Map ℕ)
      → Between first count buckets
      → IsBelow m (first * cap)
      → assign_all cap kind buckets m ≡ ok out
      → IsBelow out (count * cap)
  unfolding assign_all
  assign_all-IsBelow first [] m out h b e =
      subst (λ (n : Map ℕ). IsBelow n (count * cap)) (ok_inj _ _ e)
        (IsBelow-weaken m (first * cap) (count * cap) (mul-le-mul_right cap h) b)
  assign_all-IsBelow first ((n, ids) ∷ buckets) m out h b e =
      elim (Bool-cases (ltb cap (length (sort ids)))) [
        | inl over ↦ absurd (ground (arith, over))
        | inr within ↦
            let room : length (sort ids) ≤ cap = ground (arith, within) in
            let start = mul-le-mul_right cap h.0 in
            let end = mul-le-mul_right cap h.1 in
            assign_all-IsBelow (suc n) buckets _ out h.2
              (IsBelow-weaken _ (n * cap + 0 + length (sort ids)) (suc n * cap) (omega arith) (
                assign-IsBelow (n * cap) 0 (sort ids) m (omega arith)
                  (IsBelow-weaken m (first * cap) (n * cap + 0) (omega arith) b)))
              (ground (arith, within))
      ]

  assign_all-kept :
      (buckets : NumMap (List String)) (m out : Map ℕ) (a : String)
      → assign_all cap kind buckets m ≡ ok out
      → is_some (lookup a m) ≡ true
      → is_some (lookup a out) ≡ true
  unfolding assign_all
  assign_all-kept [] m out a e h = rw (← ok_inj _ _ e) h
  assign_all-kept ((n, ids) ∷ buckets) m out a e h =
      elim (Bool-cases (ltb cap (length (sort ids)))) [
        | inl over ↦ absurd (ground (arith, over))
        | inr within ↦
            assign_all-kept buckets _ out a (ground (arith, within))
              (assign-kept (n * cap) 0 (sort ids) m a h)
      ]

  pub assign_all-covers :
      (bucket : ℕ) (buckets : NumMap (List String)) (m out : Map ℕ) (a : String)
      → assign_all cap kind buckets m ≡ ok out
      → In a (members bucket buckets)
      → is_some (lookup a out) ≡ true
  unfolding assign_all members lookup_num
  assign_all-covers bucket [] m out a e i = elim i [ ]
  assign_all-covers bucket ((n, ids) ∷ buckets) m out a e i =
      elim (Bool-cases (ltb cap (length (sort ids)))) [
        | inl over ↦ absurd (ground (arith, over))
        | inr within ↦
            let rest : assign_all cap kind buckets (assign (n * cap) 0 (sort ids) m) ≡ ok out =
              ground (arith, within) in
            elim (Bool-cases (bucket == n)) [
              | inl same ↦
                  let here : members bucket ((n, ids) ∷ buckets) ≡ ids = ground (arith, same) in
                  assign_all-kept buckets _ out a rest
                    (assign-In (n * cap) 0 (sort ids) m a (In-sort a ids (subst (In a) here i)))
              | inr other ↦
                  let there : members bucket ((n, ids) ∷ buckets) ≡ members bucket buckets =
                    ground (arith, other) in
                  assign_all-covers bucket buckets _ out a rest (subst (In a) there i)
            ]
      ]

  pub assign_all-room :
      (bucket : ℕ) (buckets : NumMap (List String)) (m out : Map ℕ)
      → assign_all cap kind buckets m ≡ ok out
      → length (members bucket buckets) ≤ cap
  unfolding assign_all members lookup_num
  assign_all-room bucket [] m out e = omega arith
  assign_all-room bucket ((n, ids) ∷ buckets) m out e =
      elim (Bool-cases (ltb cap (length (sort ids)))) [
        | inl over ↦ absurd (ground (arith, over))
        | inr within ↦
            let rest =
              assign_all-room bucket buckets (assign (n * cap) 0 (sort ids) m) out
                (ground (arith, within)) in
            ground (arith, rest, within, length-sort ids)
      ]

  pub assign_all-exhausted :
      (first : ℕ) (buckets : NumMap (List String)) (m : Map ℕ) (e : NetworkPlanError)
      → Between first count buckets
      → assign_all cap kind buckets m ≡ err e
      → (bucket : ℕ) × (first ≤ bucket)
        × (e ≡ bucket_exhausted kind bucket cap)
        × (cap < length (members bucket buckets))
  unfolding assign_all members lookup_num
  assign_all-exhausted first [] m e h r = absurd (ground (arith, r))
  assign_all-exhausted first ((n, ids) ∷ buckets) m e h r =
      elim (Bool-cases (ltb cap (length (sort ids)))) [
        | inl over ↦ (n, h.0, ground (arith, over), ground (arith, over, length-sort ids))
        | inr within ↦
            let rest =
              assign_all-exhausted (suc n) buckets (assign (n * cap) 0 (sort ids) m) e h.2
                (ground (arith, within)) in
            (rest.0, omega (arith, rest.1, h.0), rest.2, ground (arith, rest.1, rest.3))
      ]

append_assoc : (xs ys zs : List String) → (xs ++ ys) ++ zs ≡ xs ++ (ys ++ zs)
append_assoc [] ys zs = refl
append_assoc (x ∷ xs) ys zs = ap (λ l. x ∷ l) (append_assoc xs ys zs)

append_nil : (xs : List String) → xs ++ [] ≡ xs
append_nil [] = refl
append_nil (x ∷ xs) = ap (λ l. x ∷ l) (append_nil xs)

module _ (stable_hash : String → ℕ) (count : ℕ) where
  abbrev pub hashed_to : ℕ → String → Bool
  hashed_to bucket identity = stable_hash identity % count == bucket

  pub group-members :
      (bucket : ℕ) (ids : List String) (buckets : NumMap (List String))
      → members bucket (group stable_hash count ids buckets)
        ≡ members bucket buckets ++ keep (hashed_to bucket) ids
  unfolding group members keep
  group-members bucket [] buckets = sym (append_nil (members bucket buckets))
  group-members bucket (id ∷ ids) buckets = ground (
    arith,
    group-members bucket ids (
        insert_num (stable_hash id % count) (members (stable_hash id % count) buckets ++ (id ∷ []))
          buckets),
    lookup_num-insert_num bucket (stable_hash id % count)
        (members (stable_hash id % count) buckets ++ (id ∷ [])) buckets,
    append_assoc (members bucket buckets) (id ∷ []) (keep (hashed_to bucket) ids),
  )

-- What holds of every identity in a bucket.
abbrev Each : (String → Type 0) → NumMap (List String) → Type 0
Each P [] = Unit
Each P ((b, ids) ∷ buckets) = All P ids × Each P buckets

Each-members :
    (P : String → Type 0) (bucket : ℕ) (buckets : NumMap (List String))
    → Each P buckets
    → All P (members bucket buckets)
unfolding members lookup_num
Each-members P bucket [] h = tt
Each-members P bucket ((b, ids) ∷ buckets) h = elim (Bool-cases (bucket == b)) [
  | inl t ↦
      let e : ids ≡ members bucket ((b, ids) ∷ buckets) = ground (arith, t) in subst (All P) e h.0
  | inr f ↦
      let e : members bucket buckets ≡ members bucket ((b, ids) ∷ buckets) = ground (arith, f) in
      subst (All P) e (Each-members P bucket buckets h.1)
]

Each-insert_num :
    (P : String → Type 0) (k : ℕ) (v : List String) (buckets : NumMap (List String))
    → All P v
    → Each P buckets
    → Each P (insert_num k v buckets)
unfolding insert_num
Each-insert_num P k v [] p h = (p, tt)
Each-insert_num P k v ((b, ids) ∷ buckets) p h =
    placed (Each-insert_num P k v buckets p h.1) (compare k b)
  where
    placed :
        Each P (insert_num k v buckets)
        → (o : Ordering)
        → Each P (elim o [
          | Ordering.lt ↦ (k, v) ∷ (b, ids) ∷ buckets
          | Ordering.eq ↦ (k, v) ∷ buckets
          | Ordering.gt ↦ (b, ids) ∷ insert_num k v buckets
        ])
    placed later Ordering.lt = (p, h)
    placed later Ordering.eq = (p, h.1)
    placed later Ordering.gt = (h.0, later)

group-Each :
    (P : String → Type 0) (stable_hash : String → ℕ) (count : ℕ) (ids : List String)
    (buckets : NumMap (List String))
    → All P ids
    → Each P buckets
    → Each P (group stable_hash count ids buckets)
unfolding group
group-Each P stable_hash count [] buckets p h = h
group-Each P stable_hash count (id ∷ ids) buckets p h =
    let bucket = stable_hash id % count in
    group-Each P stable_hash count ids _ p.1 (
      Each-insert_num P bucket _ buckets
        (All-append P (members bucket buckets) (id ∷ []) (Each-members P bucket buckets h)
          (p.0, tt))
        h)

assign_all-keys :
    (P : String → Type 0) (cap : ℕ) (kind : String) (buckets : NumMap (List String)) (m out : Map ℕ)
    → Each P buckets
    → AllPairs (λ i k. P i) m
    → Ascending m
    → assign_all cap kind buckets m ≡ ok out
    → AllPairs (λ i k. P i) out × Ascending out
unfolding assign_all
assign_all-keys P cap kind [] m out h k a e = rw (← ok_inj _ _ e) (k, a)
assign_all-keys P cap kind ((n, ids) ∷ buckets) m out h k a e =
    elim (Bool-cases (ltb cap (length (sort ids)))) [
      | inl over ↦ absurd (ground (arith, over))
      | inr within ↦
          assign_all-keys P cap kind buckets _ out h.1
            (assign-AllPairs P (n * cap) 0 (sort ids) m (sort-All P ids h.0) k)
            (assign-Ascending (n * cap) 0 (sort ids) m a) (ground (arith, within))
    ]

-- What holds of every identity holds of all that an allocation gives a slot, in the order of their
-- names.
pub allocate_bucketed-keys :
    (P : String → Type 0) (stable_hash : String → ℕ) (ids : List String) (total_slots capacity : ℕ)
    (kind : String) (out : Map ℕ)
    → All P ids
    → allocate_bucketed stable_hash ids total_slots capacity kind ≡ ok out
    → AllPairs (λ i k. P i) out × Ascending out
unfolding allocate_bucketed
allocate_bucketed-keys P stable_hash [] total capacity kind out p e = rw (← ok_inj _ _ e) (tt, tt)
allocate_bucketed-keys P stable_hash (id ∷ ids) total capacity kind out p e =
    assign_all-keys P _ kind _ [] out (group-Each P stable_hash _ (id ∷ ids) [] p tt) tt tt e
