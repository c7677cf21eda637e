-- ===== src/Examples/Routes.antt =====
-- Tests of the proxy's routes and instances of their theorems: crates/jiji-proxy/src/route_manager.rs.
use jiji.Common.{
  ℕ, ◌<◌, ◌≡◌, ◌↔◌, refl, Bool, true, false, ◌&&◌, Option, some, none, ok, [], ◌∷◌, String, str_eq,
  arith, In, is_some, if◌then◌else◌,
}
use jiji.Proxy.Wildcard.{is_wildcard_host}
use jiji.Proxy.Routes.{
  LoadBalancing, RouteEntry, RouteManager, same_prefix, new_entry, new_tcp_entry, HealthCheckSpec,
  from_secs, exact_entry, entries_of, routed, tls_hosts, tcp_entry, remove, Duration, as_millis,
  is_due,
}
use jiji.Proxy.Routes.Upkeep.{apply, tcp_apply, refresh_due_routes, start_balancer}
use jiji.Proxy.Routes.Order.{IsTable}
use jiji.Proxy.Routes.Lookup.{Served, routed-Served}
use jiji.Proxy.Routes.Tables.{apply-IsTable, apply-exact_entry, remove-exact_entry}
use jiji.Proxy.Routes.Tcp.{TcpApplied, tcp_apply-TcpApplied}
use jiji.Proxy.Routes.Certificates.{tls_hosts_iff}
use jiji.Proxy.Routes.Refreshed.{refresh_due_routes-rested}
use jiji.Proxy.Routes.Ticked.{Follows, Ticked, TcpTicked, refresh_due_routes-Ticked}

-- Balancers that are the ports they balance.
abbrev counting : LoadBalancing ℕ String
counting = record {
  from_discovery = λ dns_server name port. ok port;
  set_health_check = λ name spec lb. lb;
  update = λ lb. lb;
  run_health_check = λ lb. lb;
}

abbrev route : Option String → ℕ → Bool → RouteEntry ℕ
route prefix port tls = new_entry prefix "10.0.0.1:53" "web.jiji" port 30 tls none 1000 port

abbrev table : RouteManager ℕ
table = record {
  routes =
      ("*.example.com", route none 3 true ∷ [])
      ∷ ("a.example.com", route (some "/api") 2 true ∷ route none 1 false ∷ [])
      ∷ [];
  tcp_routes = [];
}

table-IsTable : IsTable table
table-IsTable = record {
  sorted = ((refl, tt), (tt, tt));
  hosts = (
    (((tt, tt), (tt, tt)), (λ e. absurd (ground (arith, e)))),
    (
      ((((refl, tt), (tt, tt)), ((omega arith, tt), (tt, tt))), (λ e. absurd (ground (arith, e)))),
      tt,
    ),
  );
}

longest_prefix : routed table "a.example.com" "/api/v1" ≡ some (route (some "/api") 2 true)
unfolding routed
longest_prefix = refl

wildcard_fallback : routed table "b.example.com" "/" ≡ some (route none 3 true)
unfolding routed
wildcard_fallback = refl

routed-Served_example : Served table "b.example.com" "/" (routed table "b.example.com" "/")
routed-Served_example = routed-Served table "b.example.com" "/" table-IsTable

abbrev with_v2 : RouteManager ℕ
with_v2 = record {
  routes =
      ("*.example.com", route none 3 true ∷ [])
      ∷ (
        "a.example.com",
        route (some "/api/v2") 4 false ∷ route (some "/api") 2 true ∷ route none 1 false ∷ [],
      )
      ∷ [];
  tcp_routes = [];
}

v2_applied :
    apply counting table "a.example.com"
      (some "/api/v2")
      "10.0.0.1:53"
      "web.jiji"
      4
      30
      false
      none
      1000
    ≡ ok with_v2
unfolding apply
v2_applied = refl

apply-IsTable_example : IsTable with_v2
apply-IsTable_example =
    apply-IsTable counting table "a.example.com" (some "/api/v2") "10.0.0.1:53" "web.jiji" 4 30
      false none 1000 with_v2 table-IsTable v2_applied

apply-exact_entry_example :
    (lb : ℕ) × (start_balancer counting "10.0.0.1:53" "web.jiji" 4 none ≡ ok lb)
    × (with_v2.tcp_routes ≡ table.tcp_routes)
    × ((host : String) (q : Option String)
        → exact_entry with_v2 host q ≡ (
            if str_eq host "a.example.com" && same_prefix q (some "/api/v2")
            then some (new_entry (some "/api/v2") "10.0.0.1:53" "web.jiji" 4 30 false none 1000 lb)
            else exact_entry table host q))
apply-exact_entry_example =
    apply-exact_entry counting table "a.example.com" (some "/api/v2") "10.0.0.1:53" "web.jiji" 4 30
      false none 1000 with_v2 table-IsTable v2_applied

remove-exact_entry_example :
    ((remove table "a.example.com" none).1 ≡ is_some (exact_entry table "a.example.com" none))
    × ((host : String) (q : Option String)
        → exact_entry (remove table "a.example.com" none).0 host q ≡ (
            if str_eq host "a.example.com" && same_prefix q none
            then none
            else exact_entry table host q))
remove-exact_entry_example = remove-exact_entry table "a.example.com" none table-IsTable

tcp_apply-TcpApplied_example :
    TcpApplied counting table 5432 "10.0.0.1:53" "db.jiji" 5432 30 none 1000
      (tcp_apply counting table 5432 "10.0.0.1:53" "db.jiji" 5432 30 none 1000)
tcp_apply-TcpApplied_example =
    tcp_apply-TcpApplied counting table 5432 "10.0.0.1:53" "db.jiji" 5432 30 none 1000

tls_hosts_iff_example : In "a.example.com" (tls_hosts table) ↔ (
    (is_wildcard_host "a.example.com" ≡ false)
    × ((e : RouteEntry ℕ) × In e (entries_of table "a.example.com") × (e.tls ≡ true)))
tls_hosts_iff_example = tls_hosts_iff table "a.example.com" table-IsTable

one_certificate : tls_hosts table ≡ "a.example.com" ∷ []
unfolding tls_hosts
one_certificate = refl

abbrev five_seconds : HealthCheckSpec
five_seconds = record {
  path = none;
  interval = from_secs 5;
  timeout = from_secs 1;
  consecutive_success = 1;
  consecutive_failure = 2;
}

-- A table with a TCP route, of which the health is checked every five seconds.
abbrev with_tcp : RouteManager ℕ
with_tcp = record table {
  tcp_routes =
      (5432, new_tcp_entry 5432 "10.0.0.1:53" "db.jiji" 5432 30 (some five_seconds) 1000 5432) ∷ [];
}

refresh_due_routes-Ticked_example :
    Follows
      (Ticked counting 31001)
      (routed with_tcp "a.example.com" "/api")
      (routed (refresh_due_routes counting with_tcp 31001) "a.example.com" "/api")
    × Follows
        (TcpTicked counting 31001)
        (tcp_entry with_tcp 5432)
        (tcp_entry (refresh_due_routes counting with_tcp 31001) 5432)
refresh_due_routes-Ticked_example =
    refresh_due_routes-Ticked counting 31001 with_tcp "a.example.com" "/api" 5432

abbrev refreshed : RouteEntry ℕ
refreshed = record (route (some "/api") 2 true) { last_refresh_millis = 31001 }

refresh_due :
    routed (refresh_due_routes counting table 31001) "a.example.com" "/api" ≡ some refreshed
unfolding routed refresh_due_routes
refresh_due = refl

refresh_due_routes-rested_example :
    (0 < as_millis refreshed.refresh_interval
      → is_due 31001 refreshed.last_refresh_millis refreshed.refresh_interval ≡ false)
    × ((i : Duration)
        → refreshed.health_check_interval ≡ some i
        → 0 < as_millis i
        → is_due 31001 refreshed.last_health_check_millis i ≡ false)
refresh_due_routes-rested_example =
    refresh_due_routes-rested counting table 31001 "a.example.com" "/api" refreshed refresh_due
