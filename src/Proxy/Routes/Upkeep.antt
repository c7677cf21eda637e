-- ===== src/Proxy/Routes/Upkeep.antt =====
-- What changes the routes: crates/jiji-proxy/src/route_manager.rs, `apply`, `tcp_apply`,
-- `refresh_due_routes`.
use jiji.Common.{
  ℕ, Bool, not, Option, none, some, List, [], ◌∷◌, ◌++◌, map, String, str_eq, Result, ok, ◌>>=◌,
  ◌>>◌, refuse_if, map_err, if◌then◌else◌, keep,
}
use jiji.Common.Map.{insert}
use jiji.Common.NumMap.{lookup_num, insert_num}
use jiji.Proxy.Routes.{
  SocketAddr, HealthCheckSpec, LoadBalancing, RouteEntry, TcpRouteEntry, RouteManager, RouteError,
  is_due, sort_by_prefix_length_descending, has_prefix, entries_of, new_entry, new_tcp_entry,
  listen_port_in_use, discovery,
}

module _ {Balancer Failure : Type 0} (pingora : LoadBalancing Balancer Failure) where
  -- The balancer of a new route, discovered and checked once.
  unfoldable pub start_balancer :
      SocketAddr → String → ℕ → Option HealthCheckSpec → Result Failure Balancer
  start_balancer dns_server name port none = do
    lb ← pingora.from_discovery dns_server name port
    ok (pingora.update lb)
  start_balancer dns_server name port (some spec) = do
    lb ← pingora.from_discovery dns_server name port
    ok (pingora.run_health_check (pingora.update (pingora.set_health_check name spec lb)))

  unfoldable pub apply :
      RouteManager Balancer
      → String
      → Option String
      → SocketAddr
      → String
      → ℕ
      → ℕ
      → Bool
      → Option HealthCheckSpec
      → ℕ
      → Result (RouteError Failure) (RouteManager Balancer)
  unfolding start_balancer entries_of insert keep sort_by_prefix_length_descending
  apply m host path_prefix dns_server name port refresh_interval_secs tls health_check now_millis =
      do
        lb ← map_err discovery (start_balancer dns_server name port health_check)
        let entry =
            new_entry path_prefix dns_server name port refresh_interval_secs tls health_check
              now_millis lb
        let kept = keep (λ e. not (has_prefix path_prefix e)) (entries_of m host)
        ok (record m {
          routes = insert host (sort_by_prefix_length_descending (kept ++ (entry ∷ []))) m.routes;
        })

  unfoldable pub tcp_apply :
      RouteManager Balancer
      → ℕ
      → SocketAddr
      → String
      → ℕ
      → ℕ
      → Option HealthCheckSpec
      → ℕ
      → Result (RouteError Failure) (RouteManager Balancer)
  unfolding start_balancer lookup_num insert_num
  tcp_apply m listen_port dns_server name port refresh_interval_secs health_check now_millis = do
    elim (lookup_num listen_port m.tcp_routes) [
      | none ↦ ok tt
      | some existing ↦
          refuse_if (not (str_eq existing.name name)) (listen_port_in_use listen_port existing.name)
    ]
    lb ← map_err discovery (start_balancer dns_server name port health_check)
    ok (record m {
      tcp_routes =
          insert_num listen_port
            (new_tcp_entry listen_port dns_server name port refresh_interval_secs health_check
              now_millis lb)
            m.tcp_routes;
    })

  unfoldable pub refresh : ℕ → RouteEntry Balancer → RouteEntry Balancer
  refresh now entry =
      let updated : RouteEntry Balancer =
        if is_due now entry.last_refresh_millis entry.refresh_interval
        then record entry { lb = pingora.update entry.lb; last_refresh_millis = now }
        else entry in
      elim entry.health_check_interval [
        | none ↦ updated
        | some interval ↦
            if is_due now entry.last_health_check_millis interval
            then record updated {
              lb = pingora.run_health_check updated.lb;
              last_health_check_millis = now;
            }
            else updated
      ]

  unfoldable pub tcp_refresh : ℕ → TcpRouteEntry Balancer → TcpRouteEntry Balancer
  tcp_refresh now entry =
      let updated : TcpRouteEntry Balancer =
        if is_due now entry.last_refresh_millis entry.refresh_interval
        then record entry { lb = pingora.update entry.lb; last_refresh_millis = now }
        else entry in
      elim entry.health_check_interval [
        | none ↦ updated
        | some interval ↦
            if is_due now entry.last_health_check_millis interval
            then record updated {
              lb = pingora.run_health_check updated.lb;
              last_health_check_millis = now;
            }
            else updated
      ]

  -- The loops over the snapshots of both tables, whose entries the tables share.
  unfoldable pub refresh_due_routes : RouteManager Balancer → ℕ → RouteManager Balancer
  unfolding refresh tcp_refresh
  refresh_due_routes m now = record {
    routes =
        map (λ (p : String × List (RouteEntry Balancer)). (p.0, map (refresh now) p.1)) m.routes;
    tcp_routes = map (λ (p : ℕ × TcpRouteEntry Balancer). (p.0, tcp_refresh now p.1)) m.tcp_routes;
  }
