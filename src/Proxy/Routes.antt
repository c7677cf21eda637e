-- ===== src/Proxy/Routes.antt =====
-- crates/jiji-proxy/src/route_manager.rs: the two route tables, which tasks share under a lock. A
-- `SocketAddr` is its text, a `Duration` its nanoseconds. The order of a `HashMap` is that of its
-- keys. The load balancer of pingora and its discovery are parameters.
pub mod Upkeep
pub mod Order
pub mod Lookup
mod Entries
pub mod Tables
pub mod Tcp
pub mod Certificates
pub mod Refreshed
pub mod Ticked
use Prim.Native.Nat.{Ordering, compare}
use Prim.Native.String.{len}
use text.Mathlib.Text.{starts_with}
use jiji.Common.{
  ℕ, ◌-◌, ◌*◌, ◌/◌, ◌%◌, ◌^◌, Bool, true, false, ◌&&◌, not, Option, none, some, List, [], ◌∷◌, ◌++◌,
  map, String, str_eq, ◌==◌, Result, ok, err, ◌>>=◌, ◌>>◌, refuse_if, map_err, if◌then◌else◌, ltb,
  leb, length, find, keep, any, is_gt,
}
use jiji.Common.Map.{Map, lookup as get, insert, remove as remove_key}
use jiji.Common.NumMap.{NumMap, lookup_num, insert_num, remove_num}
use jiji.Proxy.Wildcard.{parent_wildcard_key, is_wildcard_host}

abbrev pub SocketAddr : Type 0
SocketAddr = String

abbrev pub Duration : Type 0
Duration = ℕ

-- `Duration::from_secs`
abbrev pub from_secs : ℕ → Duration
from_secs n = n * 1000000000

-- `Duration::as_millis`, cast to `u64`
abbrev pub as_millis : Duration → ℕ
as_millis d = d / 1000000 % 2 ^ 64

pub record HealthCheckSpec : Type 0 where
  pub path : Option String
  pub interval : Duration
  pub timeout : Duration
  pub consecutive_success : ℕ
  pub consecutive_failure : ℕ

-- What the code calls of pingora: `JijiDnsDiscovery::new` with `LoadBalancer::from_backends`,
-- `set_health_check` of what `build_health_check` makes, `update` and `run_health_check`, of which
-- the table keeps the balancer that they leave.
pub record LoadBalancing (Balancer Failure : Type 0) : Type 0 where
  pub from_discovery : SocketAddr → String → ℕ → Result Failure Balancer
  pub set_health_check : String → HealthCheckSpec → Balancer → Balancer
  pub update : Balancer → Balancer
  pub run_health_check : Balancer → Balancer

pub record RouteEntry (Balancer : Type 0) : Type 0 where
  pub lb : Balancer
  pub dns_server : SocketAddr
  pub name : String
  pub port : ℕ
  pub path_prefix : Option String
  pub tls : Bool
  pub refresh_interval : Duration
  pub last_refresh_millis : ℕ
  pub health_check_interval : Option Duration
  pub last_health_check_millis : ℕ

pub record TcpRouteEntry (Balancer : Type 0) : Type 0 where
  pub lb : Balancer
  pub dns_server : SocketAddr
  pub name : String
  pub port : ℕ
  pub listen_port : ℕ
  pub refresh_interval : Duration
  pub last_refresh_millis : ℕ
  pub health_check_interval : Option Duration
  pub last_health_check_millis : ℕ

pub record RouteManager (Balancer : Type 0) : Type 0 where
  pub routes : Map (List (RouteEntry Balancer))
  pub tcp_routes : NumMap (TcpRouteEntry Balancer)

pub data RouteError (Failure : Type 0) : Type 0 where
  -- The port and the name of the route that holds it.
  listen_port_in_use : ℕ → String → RouteError Failure
  discovery : Failure → RouteError Failure

-- `==` on `Option<&str>`
abbrev pub same_prefix : Option String → Option String → Bool
same_prefix none none = true
same_prefix (some p) (some q) = str_eq p q
same_prefix _ _ = false

-- The comparison that `sort_by_prefix_length_descending` sorts by.
unfoldable pub longest_first : Option String → Option String → Ordering
longest_first (some p) (some q) = compare (len q) (len p)
longest_first (some p) none = Ordering.lt
longest_first none (some q) = Ordering.gt
longest_first none none = Ordering.eq

abbrev pub interval_of : Option HealthCheckSpec → Option Duration
interval_of none = none
interval_of (some spec) = some spec.interval

abbrev pub seconds : ℕ → Duration
seconds n = from_secs (if n == 0 then 1 else n)

-- `now.saturating_sub(last) >= interval`
abbrev pub is_due : ℕ → ℕ → Duration → Bool
is_due now last interval = leb (as_millis interval) (now - last)

module _ {Balancer : Type 0} where
  -- The stable `sort_by`, as an insertion sort.
  unfoldable pub put_in_order :
      RouteEntry Balancer → List (RouteEntry Balancer) → List (RouteEntry Balancer)
  unfolding longest_first
  put_in_order x [] = x ∷ []
  put_in_order x (y ∷ ys) =
      let rest = put_in_order x ys in
      if is_gt (longest_first x.path_prefix y.path_prefix) then y ∷ rest else x ∷ y ∷ ys

  unfoldable pub sort_by_prefix_length_descending :
      List (RouteEntry Balancer) → List (RouteEntry Balancer)
  unfolding put_in_order
  sort_by_prefix_length_descending [] = []
  sort_by_prefix_length_descending (x ∷ xs) = put_in_order x (sort_by_prefix_length_descending xs)

  abbrev pub claims : String → RouteEntry Balancer → Bool
  claims path entry = elim entry.path_prefix [ none ↦ true | some p ↦ starts_with path p ]

  abbrev pub has_prefix : Option String → RouteEntry Balancer → Bool
  has_prefix p entry = same_prefix entry.path_prefix p

  unfoldable pub select_entry : List (RouteEntry Balancer) → String → Option (RouteEntry Balancer)
  unfolding find
  select_entry entries path = find (claims path) entries

  unfoldable pub entries_of : RouteManager Balancer → String → List (RouteEntry Balancer)
  unfolding get
  entries_of m host = elim (get host m.routes) [ none ↦ [] | some entries ↦ entries ]

  -- The entry that serves a request.
  unfoldable pub routed : RouteManager Balancer → String → String → Option (RouteEntry Balancer)
  unfolding get select_entry parent_wildcard_key
  routed m host path =
      let fallback : Option (RouteEntry Balancer) = elim (parent_wildcard_key host) [
        | none ↦ none
        | some key ↦ elim (get key m.routes) [
          | none ↦ none
          | some entries ↦ select_entry entries path
        ]
      ] in
      elim (get host m.routes) [
        | none ↦ fallback
        | some entries ↦ elim (select_entry entries path) [
          | none ↦ fallback
          | some entry ↦ some entry
        ]
      ]

  unfoldable pub lookup : RouteManager Balancer → String → String → Option Balancer
  unfolding routed
  lookup m host path = elim (routed m host path) [ none ↦ none | some entry ↦ some entry.lb ]

  -- The entry of exactly one host and prefix, which `route_tls` and `backend_status` read.
  unfoldable pub exact_entry :
      RouteManager Balancer → String → Option String → Option (RouteEntry Balancer)
  unfolding get find
  exact_entry m host path_prefix = elim (get host m.routes) [
    | none ↦ none
    | some entries ↦ find (has_prefix path_prefix) entries
  ]

  unfoldable pub route_tls : RouteManager Balancer → String → Option String → Option Bool
  unfolding exact_entry
  route_tls m host path_prefix = elim (exact_entry m host path_prefix) [
    | none ↦ none
    | some entry ↦ some entry.tls
  ]

  -- The entry of which `tcp_lookup` returns the balancer.
  unfoldable pub tcp_entry : RouteManager Balancer → ℕ → Option (TcpRouteEntry Balancer)
  unfolding lookup_num
  tcp_entry m listen_port = lookup_num listen_port m.tcp_routes

  unfoldable pub remove :
      RouteManager Balancer → String → Option String → RouteManager Balancer × Bool
  unfolding get insert keep
  remove m host path_prefix = elim (get host m.routes) [
    | none ↦ (m, false)
    | some entries ↦
        let left = keep (λ e. not (has_prefix path_prefix e)) entries in
        let removed = not (length left == length entries) in
        (
          record m {
            routes = elim left [
              | [] ↦ remove_key host m.routes
              | e ∷ es ↦ insert host (e ∷ es) m.routes
            ];
          },
          removed,
        )
  ]

  unfoldable pub tcp_remove : RouteManager Balancer → ℕ → RouteManager Balancer × Bool
  unfolding lookup_num remove_num
  tcp_remove m listen_port = (
    record m { tcp_routes = remove_num listen_port m.tcp_routes },
    elim (lookup_num listen_port m.tcp_routes) [ none ↦ false | some e ↦ true ],
  )

  unfoldable pub tls_hosts : RouteManager Balancer → List String
  unfolding is_wildcard_host keep any
  tls_hosts m =
      map (λ (p : String × List (RouteEntry Balancer)). p.0)
        (keep (λ p. not (is_wildcard_host p.0) && any (λ (e : RouteEntry Balancer). e.tls) p.1)
          m.routes)

  abbrev pub new_entry :
      Option String
      → SocketAddr
      → String
      → ℕ
      → ℕ
      → Bool
      → Option HealthCheckSpec
      → ℕ
      → Balancer
      → RouteEntry Balancer
  new_entry path_prefix dns_server name port refresh_interval_secs tls health_check now_millis lb =
      record {
        lb = lb;
        dns_server = dns_server;
        name = name;
        port = port;
        path_prefix = path_prefix;
        tls = tls;
        refresh_interval = seconds refresh_interval_secs;
        last_refresh_millis = now_millis;
        health_check_interval = interval_of health_check;
        last_health_check_millis = now_millis;
      }

  abbrev pub new_tcp_entry :
      ℕ
      → SocketAddr
      → String
      → ℕ
      → ℕ
      → Option HealthCheckSpec
      → ℕ
      → Balancer
      → TcpRouteEntry Balancer
  new_tcp_entry listen_port dns_server name port refresh_interval_secs health_check now_millis lb =
      record {
        lb = lb;
        dns_server = dns_server;
        name = name;
        port = port;
        listen_port = listen_port;
        refresh_interval = seconds refresh_interval_secs;
        last_refresh_millis = now_millis;
        health_check_interval = interval_of health_check;
        last_health_check_millis = now_millis;
      }
