-- ===== src/Network/Buckets/Outcome.antt =====
-- What the allocation of slots comes to: crates/jiji-network/src/planner.rs, `allocate_bucketed`.
use native.Mathlib.Nat.{le-div_iff_mul-le, div-mul-le_self}
use jiji.Common.{
  is_some, ℕ, ◌*◌, ◌/◌, ◌%◌, ◌^◌, ◌≤◌, ◌<◌, ◌≡◌, refl, sym, subst, true, List, [], ◌∷◌, String,
  Result, ok, err, arith, min, length, keep, In, In-keep,
}
use jiji.Common.Map.{Map, lookup}
use jiji.Common.NumMap.{NumMap, lookup_num}
use jiji.Network.Cidr.{NetworkPlanError, bucket_exhausted}
use jiji.Network.Buckets.{members, group, allocate_bucketed}
use jiji.Network.Buckets.Slots.{IsBelow, IsBelow-weaken}
use jiji.Network.Buckets.Loops.{
  hashed_to, Between, group-Between, group-members, assign_all-IsBelow, assign_all-covers,
  assign_all-room, assign_all-exhausted,
}

-- Every identity has a slot below `total_slots`, and no two of them have the same.
pub record Allocated (ids : List String) (total_slots : ℕ) (m : Map ℕ) : Type 0 where
  pub covers : (a : String) → In a ids → is_some (lookup a m) ≡ true
  pub slots : IsBelow m total_slots

-- What an allocation has done, by its result.
pub data Outcome (stable_hash : String → ℕ) (ids : List String) (total_slots count cap : ℕ)
    (kind : String) : Result NetworkPlanError (Map ℕ) → Type 0 where
  allocated :
      (m : Map ℕ)
      → Allocated ids total_slots m
      → ((bucket : ℕ) → length (keep (hashed_to stable_hash count bucket) ids) ≤ cap)
      → Outcome stable_hash ids total_slots count cap kind (ok m)
  exhausted :
      (bucket : ℕ)
      → cap < length (keep (hashed_to stable_hash count bucket) ids)
      → Outcome stable_hash ids total_slots count cap kind (err (bucket_exhausted kind bucket cap))

hashed-In :
    (stable_hash : String → ℕ) (count : ℕ) (ids : List String) (a : String)
    → In a ids
    → In a (keep (hashed_to stable_hash count (stable_hash a % count)) ids)
hashed-In stable_hash count ids a i = In-keep _ ids a i (ground arith)

module _ (stable_hash : String → ℕ) (identity : String) (rest : List String)
    (total_slots capacity : ℕ) (kind : String) (some_slots : 0 < total_slots)
    (machine : total_slots < 2 ^ 64) (some_room : 0 < capacity) where
  abbrev cap : ℕ
  cap = min capacity total_slots

  abbrev count : ℕ
  count = total_slots / cap

  abbrev ids : List String
  ids = identity ∷ rest

  abbrev buckets : NumMap (List String)
  buckets = group stable_hash count ids []

  abbrev call : Result NetworkPlanError (Map ℕ)
  call = allocate_bucketed stable_hash ids total_slots capacity kind

  cap_pos : 0 < cap
  cap_pos = ground arith

  fits : count * cap ≤ total_slots
  fits = div-mul-le_self total_slots cap

  count_pos : 0 < count
  count_pos =
      let whole : 1 * cap ≤ total_slots = ground arith in
      (le-div_iff_mul-le {k = cap} {x = 1} cap_pos).1 whole

  between : Between 0 count buckets
  between = group-Between stable_hash count ids [] count_pos (omega arith)

  in_bucket : (bucket : ℕ) → members bucket buckets ≡ keep (hashed_to stable_hash count bucket) ids
  unfolding members lookup_num
  in_bucket bucket = group-members stable_hash count bucket ids []

  empty-IsBelow : IsBelow [] (0 * cap)
  unfolding lookup
  empty-IsBelow = record {
    below = λ i k h. absurd (ground (arith, h));
    apart = λ i j k h g. absurd (ground (arith, h));
  }

  -- The allocation gives every identity a slot of its own below `total_slots`, or it fails for a bucket to
  -- which more identities hash than it has slots; it fails in no other case.
  pub allocate_bucketed-Outcome : Outcome stable_hash ids total_slots count cap kind call
  unfolding allocate_bucketed
  allocate_bucketed-Outcome = by_result call refl
    where
      by_result :
          (r : Result NetworkPlanError (Map ℕ))
          → call ≡ r
          → Outcome stable_hash ids total_slots count cap kind r
      by_result (err e) h =
          let full =
            assign_all-exhausted cap count kind (omega (arith, fits)) 0 buckets [] e between h in
          rw (full.2) (
            exhausted full.0
              (subst (λ (l : List String). cap < length l) (in_bucket full.0) full.3))
      by_result (ok m) h =
          allocated m
            (record {
              covers = λ a i.
                  assign_all-covers cap count kind (omega (arith, fits)) (stable_hash a % count)
                    buckets [] m a h
                    (subst (In a) (sym (in_bucket _)) (hashed-In stable_hash count ids a i));
              slots = IsBelow-weaken m _ _ fits (
                  assign_all-IsBelow cap count kind (omega (arith, fits)) 0 buckets [] m between
                    empty-IsBelow h);
            })
            (λ bucket.
              subst (λ (l : List String). length l ≤ cap) (in_bucket bucket)
                (assign_all-room cap count kind (omega (arith, fits)) bucket buckets [] m h))
