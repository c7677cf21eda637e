-- ===== src/Network/Buckets.antt =====
-- crates/jiji-network/src/planner.rs, `allocate_bucketed`. The first eight bytes of the SHA-256 of a
-- text, `stable_hash`, are a parameter. A `usize` has 64 bits.
pub mod Slots
pub mod Loops
pub mod Outcome
use Prim.Native.Nat.{Ordering}
use jiji.Common.{
  ℕ, suc, ◌+◌, ◌*◌, ◌/◌, ◌%◌, Option, none, some, List, [], ◌∷◌, ◌++◌, String, compare_str, is_gt,
  Result, ok, err, ◌>>=◌, ◌>>◌, refuse_if, if◌then◌else◌, ltb, length, min,
}
use jiji.Common.Map.{Map, insert}
use jiji.Common.NumMap.{NumMap, lookup_num, insert_num}
use jiji.Network.Cidr.{NetworkPlanError, bucket_exhausted, u64}

-- `sort_unstable`, as an insertion sort.
unfoldable pub put_in_order : String → List String → List String
put_in_order s [] = s ∷ []
put_in_order s (t ∷ ts) =
    let rest = put_in_order s ts in if is_gt (compare_str s t) then t ∷ rest else s ∷ t ∷ ts

unfoldable pub sort : List String → List String
unfolding put_in_order
sort [] = []
sort (s ∷ ss) = put_in_order s (sort ss)

-- `buckets.entry(bucket).or_default()`
unfoldable pub members : ℕ → NumMap (List String) → List String
unfolding lookup_num
members bucket buckets = elim (lookup_num bucket buckets) [ none ↦ [] | some ids ↦ ids ]

-- `for (offset, identity) in bucket_identities.into_iter().enumerate()`
unfoldable pub assign : ℕ → ℕ → List String → Map ℕ → Map ℕ
unfolding insert
assign base offset [] assignments = assignments
assign base offset (identity ∷ ids) assignments =
    assign base (suc offset) ids (insert identity (u64 (u64 base + offset)) assignments)

module _ (stable_hash : String → ℕ) where
  -- The loop over the identities.
  unfoldable pub group : ℕ → List String → NumMap (List String) → NumMap (List String)
  unfolding members insert_num
  group bucket_count [] buckets = buckets
  group bucket_count (identity ∷ ids) buckets =
      let bucket = stable_hash identity % bucket_count in
      group bucket_count ids (insert_num bucket (members bucket buckets ++ (identity ∷ [])) buckets)

-- The loop over the buckets.
unfoldable pub assign_all :
    ℕ → String → NumMap (List String) → Map ℕ → Result NetworkPlanError (Map ℕ)
unfolding sort assign
assign_all bucket_capacity kind [] assignments = ok assignments
assign_all bucket_capacity kind ((bucket, identities) ∷ buckets) assignments = do
  let sorted = sort identities
  refuse_if (ltb bucket_capacity (length sorted)) (bucket_exhausted kind bucket bucket_capacity)
  assign_all bucket_capacity kind buckets (assign (bucket * bucket_capacity) 0 sorted assignments)

unfoldable pub allocate_bucketed :
    (String → ℕ) → List String → ℕ → ℕ → String → Result NetworkPlanError (Map ℕ)
unfolding group assign_all
allocate_bucketed stable_hash [] total_slots desired_bucket_capacity kind = ok []
allocate_bucketed stable_hash (identity ∷ ids) total_slots desired_bucket_capacity kind =
    let bucket_capacity = min desired_bucket_capacity total_slots in
    let bucket_count = total_slots / bucket_capacity in
    assign_all bucket_capacity kind (group stable_hash bucket_count (identity ∷ ids) []) []
