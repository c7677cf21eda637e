-- ===== src/Proxy/Routes/Tcp.antt =====
-- The TCP routes: crates/jiji-proxy/src/route_manager.rs,
-- `tcp_apply`, `tcp_remove`.
use jiji.Common.{
  ℕ, ◌≡◌, ◌≢◌, refl, sym, ap, ◌∙◌, subst, inl, inr, true, Option, none, some, String, str_eq,
  Result, ok, err, arith, eq_iff, Bool-cases, Option-cases, some_inj, is_some, if◌then◌else◌, ◌==◌,
}
use jiji.Common.NumMap.{insert_num, lookup_num-insert_num, lookup_num-remove_num}
use jiji.Proxy.Routes.{
  TcpRouteEntry, RouteManager, RouteError, listen_port_in_use, discovery, LoadBalancing,
  HealthCheckSpec, SocketAddr, new_tcp_entry, tcp_remove, tcp_entry,
}
use jiji.Proxy.Routes.Upkeep.{start_balancer, tcp_apply}

module _ {Balancer Failure : Type 0} (pingora : LoadBalancing Balancer Failure)
    (m : RouteManager Balancer) (listen_port : ℕ) (dns_server : SocketAddr) (name : String)
    (port secs : ℕ) (health_check : Option HealthCheckSpec) (now : ℕ) where
  -- What `tcp_apply` has done, by its result.
  pub data TcpApplied : Result (RouteError Failure) (RouteManager Balancer) → Type 0 where
    taken :
        (held : TcpRouteEntry Balancer)
        → tcp_entry m listen_port ≡ some held
        → held.name ≢ name
        → TcpApplied (err (listen_port_in_use listen_port held.name))
    failed :
        (f : Failure)
        → ((held : TcpRouteEntry Balancer) → tcp_entry m listen_port ≡ some held → held.name ≡ name)
        → start_balancer pingora dns_server name port health_check ≡ err f
        → TcpApplied (err (discovery f))
    served :
        (m' : RouteManager Balancer) (lb : Balancer)
        → ((held : TcpRouteEntry Balancer) → tcp_entry m listen_port ≡ some held → held.name ≡ name)
        → start_balancer pingora dns_server name port health_check ≡ ok lb
        → m'.routes ≡ m.routes
        → ((other : ℕ)
            → tcp_entry m' other ≡ (
                if other == listen_port
                then some (new_tcp_entry listen_port dns_server name port secs health_check now lb)
                else tcp_entry m other))
        → TcpApplied (ok m')

  abbrev call : Result (RouteError Failure) (RouteManager Balancer)
  call = tcp_apply pingora m listen_port dns_server name port secs health_check now

  abbrev made : Balancer → TcpRouteEntry Balancer
  made lb = new_tcp_entry listen_port dns_server name port secs health_check now lb

  abbrev Free : Type 0
  Free = (held : TcpRouteEntry Balancer) → tcp_entry m listen_port ≡ some held → held.name ≡ name

  proceeds :
      (start : Result Failure Balancer)
      → start_balancer pingora dns_server name port health_check ≡ start
      → Free
      → (elim (tcp_entry m listen_port) [ none ↦ true | some e ↦ str_eq e.name name ]) ≡ true
      → TcpApplied call
  unfolding tcp_apply tcp_entry
  proceeds (err f) e free passes =
      subst TcpApplied (let same : err (discovery f) ≡ call = ground (arith, e, passes) in same)
        (failed f free e)
  proceeds (ok lb) e free passes =
      subst TcpApplied
        (let same : ok (record m { tcp_routes = insert_num listen_port (made lb) m.tcp_routes })
              ≡ call =
            ground (arith, e, passes) in
          same)
        (served _ lb free e refl
          (λ other. lookup_num-insert_num other listen_port (made lb) m.tcp_routes))

  -- `tcp_apply` refuses a port that a route of another name holds; else it fails as the discovery
  -- does, or leaves under the port a route with the balancer that was started, and every other route
  -- as it was.
  pub tcp_apply-TcpApplied : TcpApplied call
  unfolding tcp_apply tcp_entry
  tcp_apply-TcpApplied = elim (Option-cases (tcp_entry m listen_port)) [
    | inl n ↦ proceeds _ refl (λ held e. absurd (ground (arith, e, n))) (ground (arith, n))
    | inr held ↦ elim (Bool-cases (str_eq held.0.name name)) [
      | inl same ↦
          proceeds _ refl
            (λ other e.
              let name_of : other.name ≡ held.0.name =
                ap (λ (r : TcpRouteEntry Balancer). r.name) (some_inj _ _ (sym e ∙ held.1)) in
              name_of ∙ (eq_iff _ _).0 same)
            (ground (arith, held.1, same))
      | inr differs ↦
          subst TcpApplied
            (let same : err (listen_port_in_use listen_port held.0.name) ≡ call =
                ground (arith, held.1, differs) in
              same)
            (taken held.0 held.1 (ground (arith, differs, eq_iff held.0.name name)))
    ]
  ]

-- `tcp_remove` says whether the port had a route, and leaves none there and every other route as it
-- was.
pub tcp_remove-tcp_entry :
    {Balancer : Type 0} (m : RouteManager Balancer) (listen_port : ℕ)
    → ((tcp_remove m listen_port).1 ≡ is_some (tcp_entry m listen_port))
      × ((other : ℕ)
          → tcp_entry (tcp_remove m listen_port).0 other
            ≡ (if other == listen_port then none else tcp_entry m other))
unfolding tcp_remove tcp_entry
tcp_remove-tcp_entry m listen_port =
    (ground arith, λ other. lookup_num-remove_num other listen_port m.tcp_routes)
