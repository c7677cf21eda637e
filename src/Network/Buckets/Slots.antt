-- ===== src/Network/Buckets/Slots.antt =====
-- The slots that identities get: crates/jiji-network/src/planner.rs, `allocate_bucketed`.
use jiji.Common.{
  is_some, ℕ, suc, ◌+◌, ◌^◌, ◌≤◌, ◌<◌, ◌≡◌, refl, inl, inr, true, some, List, [], ◌∷◌, String,
  arith, eq_iff, if_either, length, All, In,
}
use jiji.Common.Map.{
  AllPairs, AllPairs-insert, Ascending, insert-Ascending, Map, lookup, insert, lookup-insert,
}
use jiji.Network.Cidr.{u64}
use jiji.Network.Buckets.{put_in_order, sort, assign}

length-put : (s : String) (ts : List String) → length (put_in_order s ts) ≡ suc (length ts)
unfolding put_in_order
length-put s [] = refl
length-put s (t ∷ ts) = ground (arith, length-put s ts)

pub length-sort : (ss : List String) → length (sort ss) ≡ length ss
unfolding sort
length-sort [] = refl
length-sort (s ∷ ss) = ground (arith, length-sort ss, length-put s (sort ss))

In-put : (a s : String) (ts : List String) → In a (s ∷ ts) → In a (put_in_order s ts)
unfolding put_in_order
In-put a s [] i = i
In-put a s (t ∷ ts) i =
    if_either (In a) _ (t ∷ put_in_order s ts) (s ∷ t ∷ ts)
      (λ g. elim i [
        | inl e ↦ inr (In-put a s ts (inl e))
        | inr later ↦ elim later [ inl e ↦ inl e | inr j ↦ inr (In-put a s ts (inr j)) ]
      ])
      (λ f. i)

pub In-sort : (a : String) (ss : List String) → In a ss → In a (sort ss)
unfolding sort
In-sort a [] i = i
In-sort a (s ∷ ss) i =
    In-put a s (sort ss) (elim i [ inl e ↦ inl e | inr j ↦ inr (In-sort a ss j) ])

-- Slots below a bound, no two of them alike.
pub record IsBelow (m : Map ℕ) (bound : ℕ) : Type 0 where
  pub below : (i : String) (k : ℕ) → lookup i m ≡ some k → k < bound
  pub apart : (i j : String) (k : ℕ) → lookup i m ≡ some k → lookup j m ≡ some k → i ≡ j

insert-IsBelow :
    (m : Map ℕ) (bound slot : ℕ) (id : String)
    → IsBelow m bound
    → bound ≤ slot
    → IsBelow (insert id slot m) (suc slot)
insert-IsBelow m bound slot id b le = record {
  below = λ i k h. ground (arith, lookup-insert i id slot m, b.below i k);
  apart = λ i j k h g. ground (
    arith,
    lookup-insert i id slot m,
    lookup-insert j id slot m,
    eq_iff i id,
    eq_iff j id,
    b.below i k,
    b.below j k,
    b.apart i j k,
  );
}

pub IsBelow-weaken : (m : Map ℕ) (a b : ℕ) → a ≤ b → IsBelow m a → IsBelow m b
IsBelow-weaken m a b le h = record {
  below = λ i k e. omega (arith, h.below i k e);
  apart = h.apart;
}

pub assign-IsBelow :
    (base offset : ℕ) (ids : List String) (m : Map ℕ)
    → base + offset + length ids < 2 ^ 64
    → IsBelow m (base + offset)
    → IsBelow (assign base offset ids m) (base + offset + length ids)
unfolding assign
assign-IsBelow base offset [] m fits b = IsBelow-weaken m _ _ (omega arith) b
assign-IsBelow base offset (id ∷ ids) m fits b =
    let slot = u64 (u64 base + offset) in
    let exact : slot ≡ base + offset = omega arith in
    let put = insert-IsBelow m (base + offset) slot id b (omega arith) in
    IsBelow-weaken _ (base + suc offset + length ids) _ (omega arith) (
      assign-IsBelow base (suc offset) ids (insert id slot m) (omega arith)
        (IsBelow-weaken _ (suc slot) _ (omega arith) put))

-- A slot is kept for whoever has one.
pub assign-kept :
    (base offset : ℕ) (ids : List String) (m : Map ℕ) (a : String)
    → is_some (lookup a m) ≡ true
    → is_some (lookup a (assign base offset ids m)) ≡ true
unfolding assign
assign-kept base offset [] m a h = h
assign-kept base offset (id ∷ ids) m a h =
    assign-kept base (suc offset) ids _ a
      (ground (arith, lookup-insert a id (u64 (u64 base + offset)) m))

pub assign-In :
    (base offset : ℕ) (ids : List String) (m : Map ℕ) (a : String)
    → In a ids
    → is_some (lookup a (assign base offset ids m)) ≡ true
unfolding assign
assign-In base offset [] m a i = elim i [ ]
assign-In base offset (id ∷ ids) m a (inl e) =
    assign-kept base (suc offset) ids _ a
      (ground (arith, lookup-insert a id (u64 (u64 base + offset)) m, eq_iff a id))
assign-In base offset (id ∷ ids) m a (inr i) = assign-In base (suc offset) ids _ a i

put-All :
    (P : String → Type 0) (s : String) (ts : List String)
    → P s
    → All P ts
    → All P (put_in_order s ts)
unfolding put_in_order
put-All P s [] p h = (p, tt)
put-All P s (t ∷ ts) p h =
    let rest = put-All P s ts p h.1 in
    if_either (All P) _ (t ∷ put_in_order s ts) (s ∷ t ∷ ts) (λ g. (h.0, rest)) (λ f. (p, h))

pub sort-All : (P : String → Type 0) (ss : List String) → All P ss → All P (sort ss)
unfolding sort
sort-All P [] h = tt
sort-All P (s ∷ ss) h = put-All P s (sort ss) h.0 (sort-All P ss h.1)

-- What holds of the identities holds of all that have a slot.
pub assign-AllPairs :
    (P : String → Type 0) (base offset : ℕ) (ids : List String) (m : Map ℕ)
    → All P ids
    → AllPairs (λ i k. P i) m
    → AllPairs (λ i k. P i) (assign base offset ids m)
unfolding assign
assign-AllPairs P base offset [] m h k = k
assign-AllPairs P base offset (id ∷ ids) m h k =
    assign-AllPairs P base (suc offset) ids _ h.1 (AllPairs-insert (λ i n. P i) id _ m h.0 k)

pub assign-Ascending :
    (base offset : ℕ) (ids : List String) (m : Map ℕ)
    → Ascending m
    → Ascending (assign base offset ids m)
unfolding assign
assign-Ascending base offset [] m h = h
assign-Ascending base offset (id ∷ ids) m h =
    assign-Ascending base (suc offset) ids _ (insert-Ascending id _ m h)
