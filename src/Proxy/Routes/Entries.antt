-- ===== src/Proxy/Routes/Entries.antt =====
-- What `apply` and `remove` do to the routes of a host: crates/jiji-proxy/src/route_manager.rs.
use jiji.Common.{
  ◌≡◌, ◌≢◌, refl, false, not, Option, none, some, List, [], is_some, ◌≤◌, ◌==◌, ◌∷◌, ◌++◌, String,
  arith, if◌then◌else◌, if_either, find, keep, length, ◌==◌, All, All-append, All-keep,
}
use jiji.Proxy.Routes.{
  RouteEntry, has_prefix, same_prefix, put_in_order, sort_by_prefix_length_descending,
}
use jiji.Proxy.Routes.Order.{Ordered, Distinct, same_prefix_iff, find-sort}

module _ {Balancer : Type 0} where
  abbrev pub others : Option String → List (RouteEntry Balancer) → List (RouteEntry Balancer)
  others p = keep (λ e. not (has_prefix p e))

  pub find-others :
      (p q : Option String) (xs : List (RouteEntry Balancer))
      → find (has_prefix q) (others p xs)
        ≡ (if same_prefix q p then none else find (has_prefix q) xs)
  unfolding find keep
  find-others p q [] = ground arith
  find-others p q (x ∷ xs) = ground (
    arith,
    find-others p q xs,
    same_prefix_iff x.path_prefix p,
    same_prefix_iff x.path_prefix q,
    same_prefix_iff q p,
  )

  pub others-Distinct :
      (p : Option String) (xs : List (RouteEntry Balancer)) → Distinct xs → Distinct (others p xs)
  unfolding keep
  others-Distinct p [] h = tt
  others-Distinct p (x ∷ xs) h =
      let rest = others-Distinct p xs h.1 in
      if_either Distinct _ (x ∷ others p xs) (others p xs) (λ t. (All-keep _ _ xs h.0, rest))
        (λ f. rest)

  pub others-Ordered :
      (p : Option String) (xs : List (RouteEntry Balancer)) → Ordered xs → Ordered (others p xs)
  unfolding keep
  others-Ordered p [] h = tt
  others-Ordered p (x ∷ xs) h =
      let rest = others-Ordered p xs h.1 in
      if_either Ordered _ (x ∷ others p xs) (others p xs) (λ t. (All-keep _ _ xs h.0, rest))
        (λ f. rest)

  -- The routes of a host with a new one in the place of that of its prefix.
  abbrev pub replaced :
      RouteEntry Balancer → List (RouteEntry Balancer) → List (RouteEntry Balancer)
  replaced entry xs = sort_by_prefix_length_descending (others entry.path_prefix xs ++ (entry ∷ []))

  snoc-Distinct :
      (xs : List (RouteEntry Balancer)) (entry : RouteEntry Balancer)
      → Distinct xs
      → All (λ x. has_prefix x.path_prefix entry ≡ false) xs
      → Distinct (xs ++ (entry ∷ []))
  snoc-Distinct [] entry h k = (tt, tt)
  snoc-Distinct (x ∷ xs) entry h k =
      (All-append _ xs (entry ∷ []) h.0 (k.0, tt), snoc-Distinct xs entry h.1 k.1)

  others_apart :
      (entry : RouteEntry Balancer) (xs : List (RouteEntry Balancer))
      → All (λ x. has_prefix x.path_prefix entry ≡ false) (others entry.path_prefix xs)
  unfolding keep
  others_apart entry [] = tt
  others_apart entry (x ∷ xs) =
      let rest = others_apart entry xs in
      if_either (All _) _ (x ∷ others entry.path_prefix xs) (others entry.path_prefix xs)
        (λ t. (
          ground (
            arith,
            same_prefix_iff x.path_prefix entry.path_prefix,
            same_prefix_iff entry.path_prefix x.path_prefix,
          ),
          rest,
        ))
        (λ f. rest)

  pub replaced-Distinct :
      (entry : RouteEntry Balancer) (xs : List (RouteEntry Balancer))
      → Distinct xs
      → Distinct (others entry.path_prefix xs ++ (entry ∷ []))
  replaced-Distinct entry xs h =
      snoc-Distinct _ entry (others-Distinct entry.path_prefix xs h) (others_apart entry xs)

  find-snoc :
      (q : Option String) (xs : List (RouteEntry Balancer)) (entry : RouteEntry Balancer)
      → find (has_prefix q) (xs ++ (entry ∷ [])) ≡ elim (find (has_prefix q) xs) [
        | some e ↦ some e
        | none ↦ if has_prefix q entry then some entry else none
      ]
  unfolding find
  find-snoc q [] entry = refl
  find-snoc q (x ∷ xs) entry = ground (arith, find-snoc q xs entry)

  pub find-replaced :
      (q : Option String) (entry : RouteEntry Balancer) (xs : List (RouteEntry Balancer))
      → Distinct xs
      → find (has_prefix q) (replaced entry xs)
        ≡ (if same_prefix q entry.path_prefix then some entry else find (has_prefix q) xs)
  find-replaced q entry xs h = ground (
    arith,
    find-sort q _ (replaced-Distinct entry xs h),
    find-snoc q (others entry.path_prefix xs) entry,
    find-others entry.path_prefix q xs,
    same_prefix_iff q entry.path_prefix,
    same_prefix_iff entry.path_prefix q,
  )

  put_some : (x : RouteEntry Balancer) (ys : List (RouteEntry Balancer)) → put_in_order x ys ≢ []
  unfolding put_in_order
  put_some x [] h = cc
  put_some x (y ∷ ys) h = ground arith

  sort_some :
      (xs : List (RouteEntry Balancer)) (entry : RouteEntry Balancer)
      → sort_by_prefix_length_descending (xs ++ (entry ∷ [])) ≢ []
  unfolding sort_by_prefix_length_descending
  sort_some [] entry = put_some entry []
  sort_some (x ∷ xs) entry = put_some x (sort_by_prefix_length_descending (xs ++ (entry ∷ [])))

  pub replaced_some :
      (entry : RouteEntry Balancer) (xs : List (RouteEntry Balancer)) → replaced entry xs ≢ []
  replaced_some entry xs = sort_some (others entry.path_prefix xs) entry

  others-length-le :
      (p : Option String) (xs : List (RouteEntry Balancer)) → length (others p xs) ≤ length xs
  unfolding keep
  others-length-le p [] = omega arith
  others-length-le p (x ∷ xs) = ground (arith, others-length-le p xs)

  -- Something is left out exactly if there was a route of the prefix.
  pub others-length :
      (p : Option String) (xs : List (RouteEntry Balancer))
      → not (length (others p xs) == length xs) ≡ is_some (find (has_prefix p) xs)
  unfolding keep find
  others-length p [] = refl
  others-length p (x ∷ xs) = ground (arith, others-length p xs, others-length-le p xs)
