-- ===== src/Proxy/Routes/Order.antt =====
-- The order of the routes of a host: crates/jiji-proxy/src/route_manager.rs,
-- `sort_by_prefix_length_descending`.
use Prim.Native.String.{len}
use jiji.Common.{
  ℕ, suc, ◌≤◌, ◌≡◌, ◌↔◌, refl, ap, inl, inr, Option-cases, ◌≢◌, true, false, Option, none, some,
  List, [], ◌∷◌, String, arith, eq_iff, if◌then◌else◌, if_either, is_gt, ◌∙◌, find, All, All-map,
}
use jiji.Common.Map.{lookup as get, AllPairs, AllPairs-lookup, Ascending}
use jiji.Proxy.Routes.{
  RouteManager, entries_of, RouteEntry, same_prefix, has_prefix, longest_first, put_in_order,
  sort_by_prefix_length_descending,
}

-- How long a prefix is, with the catch-all below all of them.
abbrev pub rank : Option String → ℕ
rank none = 0
rank (some p) = suc (len p)

pub same_prefix_iff : (p q : Option String) → (same_prefix p q ≡ true) ↔ (p ≡ q)
same_prefix_iff none none = ground arith
same_prefix_iff none (some q) = ground arith
same_prefix_iff (some p) none = ground arith
same_prefix_iff (some p) (some q) = ground (arith, eq_iff p q)

gt-rank : (p q : Option String) → is_gt (longest_first p q) ≡ true → rank p ≤ rank q
unfolding longest_first
gt-rank none none h = cc
gt-rank none (some q) h = omega arith
gt-rank (some p) none h = cc
gt-rank (some p) (some q) h = ground arith

not_gt-rank : (p q : Option String) → is_gt (longest_first p q) ≡ false → rank q ≤ rank p
unfolding longest_first
not_gt-rank none none h = omega arith
not_gt-rank none (some q) h = cc
not_gt-rank (some p) none h = omega arith
not_gt-rank (some p) (some q) h = ground arith

module _ {Balancer : Type 0} where
  -- No entry stands before one with a longer prefix.
  abbrev pub Ordered : List (RouteEntry Balancer) → Type 0
  Ordered [] = Unit
  Ordered (x ∷ xs) =
      All (λ (y : RouteEntry Balancer). rank y.path_prefix ≤ rank x.path_prefix) xs × Ordered xs

  abbrev pub Apart : RouteEntry Balancer → List (RouteEntry Balancer) → Type 0
  Apart x = All (λ y. has_prefix x.path_prefix y ≡ false)

  -- No two entries have the same prefix.
  abbrev pub Distinct : List (RouteEntry Balancer) → Type 0
  Distinct [] = Unit
  Distinct (x ∷ xs) = Apart x xs × Distinct xs

  put-All :
      (P : RouteEntry Balancer → Type 0) (x : RouteEntry Balancer) (ys : List (RouteEntry Balancer))
      → P x
      → All P ys
      → All P (put_in_order x ys)
  unfolding put_in_order
  put-All P x [] p h = (p, tt)
  put-All P x (y ∷ ys) p h =
      let rest = put-All P x ys p h.1 in
      if_either (All P) _ (y ∷ put_in_order x ys) (x ∷ y ∷ ys) (λ t. (h.0, rest)) (λ f. (p, h))

  pub sort-All :
      (P : RouteEntry Balancer → Type 0) (xs : List (RouteEntry Balancer))
      → All P xs
      → All P (sort_by_prefix_length_descending xs)
  unfolding sort_by_prefix_length_descending
  sort-All P [] h = tt
  sort-All P (x ∷ xs) h = put-All P x _ h.0 (sort-All P xs h.1)

  put-Ordered :
      (x : RouteEntry Balancer) (ys : List (RouteEntry Balancer))
      → Ordered ys
      → Ordered (put_in_order x ys)
  unfolding put_in_order
  put-Ordered x [] h = (tt, tt)
  put-Ordered x (y ∷ ys) h =
      let rest = put-Ordered x ys h.1 in
      if_either Ordered _ (y ∷ put_in_order x ys) (x ∷ y ∷ ys)
        (λ t. (put-All _ x ys (gt-rank x.path_prefix y.path_prefix t) h.0, rest))
        (λ f.
          let longer = not_gt-rank x.path_prefix y.path_prefix f in
          ((longer, All-map _ _ ys (λ z le. omega arith) h.0), h))

  pub sort-Ordered :
      (xs : List (RouteEntry Balancer)) → Ordered (sort_by_prefix_length_descending xs)
  unfolding sort_by_prefix_length_descending
  sort-Ordered [] = tt
  sort-Ordered (x ∷ xs) = put-Ordered x _ (sort-Ordered xs)

  apart_sym :
      (x y : RouteEntry Balancer)
      → has_prefix x.path_prefix y ≡ false
      → has_prefix y.path_prefix x ≡ false
  apart_sym x y h = ground (
    arith,
    same_prefix_iff x.path_prefix y.path_prefix,
    same_prefix_iff y.path_prefix x.path_prefix,
  )

  put-Distinct :
      (x : RouteEntry Balancer) (ys : List (RouteEntry Balancer))
      → Apart x ys
      → Distinct ys
      → Distinct (put_in_order x ys)
  unfolding put_in_order
  put-Distinct x [] a h = (tt, tt)
  put-Distinct x (y ∷ ys) a h =
      let rest = put-Distinct x ys a.1 h.1 in
      if_either Distinct _ (y ∷ put_in_order x ys) (x ∷ y ∷ ys)
        (λ t.
          (put-All (λ z. has_prefix y.path_prefix z ≡ false) x ys (apart_sym x y a.0) h.0, rest))
        (λ f. (a, h))

  pub sort-Distinct :
      (xs : List (RouteEntry Balancer))
      → Distinct xs
      → Distinct (sort_by_prefix_length_descending xs)
  unfolding sort_by_prefix_length_descending
  sort-Distinct [] h = tt
  sort-Distinct (x ∷ xs) h = put-Distinct x _ (sort-All _ xs h.0) (sort-Distinct xs h.1)

  find-put :
      (p : Option String) (x : RouteEntry Balancer) (ys : List (RouteEntry Balancer))
      → Apart x ys
      → find (has_prefix p) (put_in_order x ys)
        ≡ (if has_prefix p x then some x else find (has_prefix p) ys)
  unfolding put_in_order find
  find-put p x [] h = refl
  find-put p x (y ∷ ys) h = ground (
    arith,
    find-put p x ys h.1,
    h.0,
    same_prefix_iff x.path_prefix p,
    same_prefix_iff y.path_prefix p,
    same_prefix_iff y.path_prefix x.path_prefix,
  )

  -- Sorting does not change what stands under a prefix.
  pub find-sort :
      (p : Option String) (xs : List (RouteEntry Balancer))
      → Distinct xs
      → find (has_prefix p) (sort_by_prefix_length_descending xs) ≡ find (has_prefix p) xs
  unfolding sort_by_prefix_length_descending find
  find-sort p [] h = refl
  find-sort p (x ∷ xs) h =
      find-put p x _ (sort-All _ xs h.0)
      ∙ ap (λ o. if has_prefix p x then some x else o) (find-sort p xs h.1)

  abbrev pub IsHost : List (RouteEntry Balancer) → Type 0
  IsHost entries = Distinct entries × Ordered entries

  -- What `apply` and `remove` keep: the hosts in the order of their names, and under each of them some
  -- routes, of distinct prefixes, the longer ones first.
  pub record IsTable (m : RouteManager Balancer) : Type 0 where
    pub sorted : Ascending m.routes
    pub hosts : AllPairs (λ host entries. IsHost entries × (entries ≢ [])) m.routes

  pub entries_of-IsHost :
      (m : RouteManager Balancer) (host : String) → IsTable m → IsHost (entries_of m host)
  unfolding entries_of
  entries_of-IsHost m host t = elim (Option-cases (get host m.routes)) [
    | inl n ↦ rw (entries_of, n) (tt, tt)
    | inr e ↦ rw (entries_of, e.1) (AllPairs-lookup _ host m.routes e.0 t.hosts e.1).0
  ]
