-- ===== src/Proxy/Routes/Tables.antt =====
-- What `apply` and `remove` do to the table of routes: crates/jiji-proxy/src/route_manager.rs.
use jiji.Common.{
  is_some, ℕ, ◌≡◌, refl, sym, ap, subst, inl, inr, Bool, ◌&&◌, Option, none, some, List, [], ◌∷◌,
  String, str_eq, Result, ok, ok_inj, map_err, arith, eq_iff, Option-cases, if◌then◌else◌, find,
  keep, map_err-eq-ok, >>=-eq-ok,
}
use jiji.Common.Map.{
  lookup as get, insert, remove as remove_key, AllPairs-lookup, AllPairs-insert, AllPairs-remove,
  insert-Ascending, remove-Ascending, lookup-insert, lookup-remove,
}
use jiji.Proxy.Routes.{
  RouteEntry, RouteManager, RouteError, discovery, LoadBalancing, HealthCheckSpec, SocketAddr,
  has_prefix, same_prefix, entries_of, exact_entry, new_entry, remove,
}
use jiji.Proxy.Routes.Upkeep.{start_balancer, apply}
use jiji.Proxy.Routes.Order.{
  Ordered, Distinct, IsTable, entries_of-IsHost, sort-Ordered, sort-Distinct,
}
use jiji.Proxy.Routes.Entries.{
  others-length, others, replaced, find-others, others-Distinct, others-Ordered, replaced-Distinct,
  find-replaced, replaced_some,
}

module _ {Balancer : Type 0} where
  -- The table with one route put in.
  abbrev put_route : RouteManager Balancer → String → RouteEntry Balancer → RouteManager Balancer
  put_route m host entry = record m {
    routes = insert host (replaced entry (entries_of m host)) m.routes;
  }

  exact_entry-find :
      (m : RouteManager Balancer) (host : String) (q : Option String)
      → exact_entry m host q ≡ find (has_prefix q) (entries_of m host)
  unfolding exact_entry entries_of find
  exact_entry-find m host q = ground arith

  put_route-entries_of :
      (m : RouteManager Balancer) (host : String) (entry : RouteEntry Balancer) (host' : String)
      → entries_of (put_route m host entry) host'
        ≡ (if str_eq host' host then replaced entry (entries_of m host) else entries_of m host')
  unfolding entries_of
  put_route-entries_of m host entry host' =
      ground (arith, lookup-insert host' host (replaced entry (entries_of m host)) m.routes)

  put_route-exact_entry :
      (m : RouteManager Balancer) (host : String) (entry : RouteEntry Balancer)
      → IsTable m
      → (host' : String) (q : Option String)
      → exact_entry (put_route m host entry) host' q ≡ (
          if str_eq host' host && same_prefix q entry.path_prefix
          then some entry
          else exact_entry m host' q)
  put_route-exact_entry m host entry t host' q = ground (
    arith,
    exact_entry-find (put_route m host entry) host' q,
    exact_entry-find m host' q,
    put_route-entries_of m host entry host',
    eq_iff host' host,
    find-replaced q entry (entries_of m host) (entries_of-IsHost m host t).0,
  )

  put_route-IsTable :
      (m : RouteManager Balancer) (host : String) (entry : RouteEntry Balancer)
      → IsTable m
      → IsTable (put_route m host entry)
  put_route-IsTable m host entry t = record {
    sorted = insert-Ascending host _ m.routes t.sorted;
    hosts =
        AllPairs-insert _ host _ m.routes
          (
            (
              sort-Distinct _ (replaced-Distinct entry _ (entries_of-IsHost m host t).0),
              sort-Ordered _,
            ),
            replaced_some entry (entries_of m host),
          )
          t.hosts;
  }

module _ {Balancer Failure : Type 0} (pingora : LoadBalancing Balancer Failure)
    (m : RouteManager Balancer) (host : String) (path_prefix : Option String)
    (dns_server : SocketAddr) (name : String) (port secs : ℕ) (tls : Bool)
    (health_check : Option HealthCheckSpec) (now : ℕ) where
  abbrev applied : Result (RouteError Failure) (RouteManager Balancer)
  applied = apply pingora m host path_prefix dns_server name port secs tls health_check now

  abbrev made : Balancer → RouteEntry Balancer
  made lb = new_entry path_prefix dns_server name port secs tls health_check now lb

  apply-put :
      (m' : RouteManager Balancer)
      → applied ≡ ok m'
      → (lb : Balancer) × (start_balancer pingora dns_server name port health_check ≡ ok lb)
        × (put_route m host (made lb) ≡ m')
  unfolding apply
  apply-put m' h =
      let first =
        >>=-eq-ok (map_err discovery (start_balancer pingora dns_server name port health_check)) _
          h in
      (first.0, map_err-eq-ok discovery _ first.0 first.1, ok_inj _ _ first.2)

  -- A successful `apply` keeps the table in order: hosts by name, each with some routes, of distinct
  -- prefixes, the longer ones first.
  pub apply-IsTable : (m' : RouteManager Balancer) → IsTable m → applied ≡ ok m' → IsTable m'
  apply-IsTable m' t h =
      let put = apply-put m' h in rw (← put.2) (put_route-IsTable m host (made put.0) t)

  -- A successful `apply` leaves, under its host and prefix, a route with the balancer that was started for
  -- it, every other route as it was, and the TCP routes as they were.
  pub apply-exact_entry :
      (m' : RouteManager Balancer)
      → IsTable m
      → applied ≡ ok m'
      → (lb : Balancer) × (start_balancer pingora dns_server name port health_check ≡ ok lb)
        × (m'.tcp_routes ≡ m.tcp_routes)
        × ((host' : String) (q : Option String)
            → exact_entry m' host' q ≡ (
                if str_eq host' host && same_prefix q path_prefix
                then some (made lb)
                else exact_entry m host' q))
  apply-exact_entry m' t h =
      let put = apply-put m' h in
      (
        put.0,
        put.1,
        ap (λ (n : RouteManager Balancer). n.tcp_routes) (sym put.2),
        λ host' q. rw (← put.2) (put_route-exact_entry m host (made put.0) t host' q),
      )

module _ {Balancer : Type 0} (m : RouteManager Balancer) (host : String) (p : Option String) where
  remove-entries_of :
      (host' : String)
      → entries_of (remove m host p).0 host'
        ≡ (if str_eq host' host then others p (entries_of m host) else entries_of m host')
  unfolding entries_of remove keep
  remove-entries_of host' = elim (Option-cases (get host m.routes)) [
    | inl n ↦ ground (arith, n, eq_iff host' host)
    | inr e ↦ left e.0 e.1 (others p e.0) refl
  ]
    where
      left :
          (es : List (RouteEntry Balancer))
          → get host m.routes ≡ some es
          → (l : List (RouteEntry Balancer)) → others p es ≡ l
          → entries_of (remove m host p).0 host'
            ≡ (if str_eq host' host then others p (entries_of m host) else entries_of m host')
      left es e [] k = ground (arith, e, k, lookup-remove host' host m.routes, eq_iff host' host)
      left es e (x ∷ l) k =
          ground (arith, e, k, lookup-insert host' host (x ∷ l) m.routes, eq_iff host' host)

  remove-flag : (remove m host p).1 ≡ is_some (exact_entry m host p)
  unfolding remove exact_entry find keep
  remove-flag = elim (Option-cases (get host m.routes)) [
    | inl n ↦ ground (arith, n)
    | inr e ↦ ground (arith, e.1, others-length p e.0)
  ]

  -- `remove` says whether there was a route of the host and the prefix, and leaves none there and every
  -- other route as it was.
  pub remove-exact_entry :
      IsTable m
      → ((remove m host p).1 ≡ is_some (exact_entry m host p))
        × ((host' : String) (q : Option String)
            → exact_entry (remove m host p).0 host' q
              ≡ (if str_eq host' host && same_prefix q p then none else exact_entry m host' q))
  remove-exact_entry t = (
    remove-flag,
    λ host' q. ground (
      arith,
      exact_entry-find (remove m host p).0 host' q,
      exact_entry-find m host' q,
      remove-entries_of host',
      eq_iff host' host,
      find-others p q (entries_of m host),
    ),
  )

  -- `remove` keeps the table in order, and no host without routes.
  pub remove-IsTable : IsTable m → IsTable (remove m host p).0
  unfolding remove keep
  remove-IsTable t = elim (Option-cases (get host m.routes)) [
    | inl n ↦ subst IsTable (let same : m ≡ (remove m host p).0 = ground (arith, n) in same) t
    | inr e ↦ left e.0 e.1 (others p e.0) refl
  ]
    where
      left :
          (es : List (RouteEntry Balancer))
          → get host m.routes ≡ some es
          → (l : List (RouteEntry Balancer)) → others p es ≡ l
          → IsTable (remove m host p).0
      left es e [] k =
          let same : record m { routes = remove_key host m.routes } ≡ (remove m host p).0 =
            ground (arith, e, k) in
          subst IsTable same (record {
            sorted = remove-Ascending host m.routes t.sorted;
            hosts = AllPairs-remove _ host m.routes t.hosts;
          })
      left es e (x ∷ l) k =
          let same : record m { routes = insert host (x ∷ l) m.routes } ≡ (remove m host p).0 =
            ground (arith, e, k) in
          let v = AllPairs-lookup _ host m.routes es t.hosts e in
          subst IsTable same (record {
            sorted = insert-Ascending host _ m.routes t.sorted;
            hosts =
                AllPairs-insert _ host _ m.routes
                  (
                    (
                      subst Distinct k (others-Distinct p es v.0.0),
                      subst Ordered k (others-Ordered p es v.0.1),
                    ),
                    (λ none_left. absurd (ground (arith, none_left))),
                  )
                  t.hosts;
          })
