-- ===== src/Proxy/Routes/Refreshed.antt =====
-- The tick of the proxy: crates/jiji-proxy/src/route_manager.rs, `refresh_due_routes`.
use jiji.Common.{
  ℕ, ◌<◌, ◌≡◌, refl, false, Option, none, some, List, [], ◌∷◌, String, arith, inl, inr,
  Option-cases, some_inj, find, map,
}
use jiji.Common.Map.{Map, lookup as get}
use jiji.Proxy.Wildcard.{parent_wildcard_key}
use jiji.Proxy.Routes.{
  RouteEntry, RouteManager, LoadBalancing, Duration, as_millis, is_due, claims, select_entry,
  entries_of, routed,
}
use jiji.Proxy.Routes.Upkeep.{refresh, refresh_due_routes}

abbrev pub mapped : {A B : Type 0} → (A → B) → Option A → Option B
mapped f none = none
mapped f (some a) = some (f a)

module _ {Balancer Failure : Type 0} (pingora : LoadBalancing Balancer Failure)
    (m : RouteManager Balancer) (now : ℕ) where
  get-refreshed :
      (host : String) (t : Map (List (RouteEntry Balancer)))
      → get host (
          map (λ (p : String × List (RouteEntry Balancer)). (p.0, map (refresh pingora now) p.1)) t)
        ≡ mapped (map (refresh pingora now)) (get host t)
  unfolding get
  get-refreshed host [] = refl
  get-refreshed host (p ∷ t) = ground (arith, get-refreshed host t)

  refresh-claims :
      (path : String) (e : RouteEntry Balancer)
      → claims path (refresh pingora now e) ≡ claims path e
  unfolding refresh
  refresh-claims path e = ground arith

  select-refreshed :
      (path : String) (es : List (RouteEntry Balancer))
      → select_entry (map (refresh pingora now) es) path
        ≡ mapped (refresh pingora now) (select_entry es path)
  unfolding select_entry find
  select-refreshed path [] = refl
  select-refreshed path (e ∷ es) = ground (arith, refresh-claims path e, select-refreshed path es)

  entries_of-refreshed :
      (host : String)
      → entries_of (refresh_due_routes pingora m now) host
        ≡ map (refresh pingora now) (entries_of m host)
  unfolding entries_of refresh_due_routes
  entries_of-refreshed host = ground (arith, get-refreshed host m.routes)

  routed-entries :
      (n : RouteManager Balancer) (host path : String)
      → routed n host path ≡ elim (select_entry (entries_of n host) path) [
        | some e ↦ some e
        | none ↦ elim (parent_wildcard_key host) [
          | none ↦ none
          | some key ↦ select_entry (entries_of n key) path
        ]
      ]
  unfolding routed entries_of select_entry find
  routed-entries n host path = ground arith

  -- A tick changes no route that a request takes: it is served by the route that served it before, as
  -- refreshed.
  pub refresh_due_routes-routed :
      (host path : String)
      → routed (refresh_due_routes pingora m now) host path
        ≡ mapped (refresh pingora now) (routed m host path)
  refresh_due_routes-routed host path = elim (Option-cases (parent_wildcard_key host)) [
    | inl n ↦ ground (arith, n, steps)
    | inr key ↦ ground (
      arith,
      key.1,
      steps,
      entries_of-refreshed key.0,
      select-refreshed path (entries_of m key.0),
    )
  ]
    where
      steps :
          (routed (refresh_due_routes pingora m now) host path
            ≡ elim (select_entry (map (refresh pingora now) (entries_of m host)) path) [
              | some e ↦ some e
              | none ↦ elim (parent_wildcard_key host) [
                | none ↦ none
                | some key ↦ select_entry (entries_of (refresh_due_routes pingora m now) key) path
              ]
            ])
          × (select_entry (map (refresh pingora now) (entries_of m host)) path
              ≡ mapped (refresh pingora now) (select_entry (entries_of m host) path))
          × (routed m host path ≡ elim (select_entry (entries_of m host) path) [
            | some e ↦ some e
            | none ↦ elim (parent_wildcard_key host) [
              | none ↦ none
              | some key ↦ select_entry (entries_of m key) path
            ]
          ])
      steps = (
        rw (← entries_of-refreshed host)
            (routed-entries (refresh_due_routes pingora m now) host path),
        select-refreshed path (entries_of m host),
        routed-entries m host path,
      )

  refresh-rested :
      (e : RouteEntry Balancer)
      → (0 < as_millis (refresh pingora now e).refresh_interval
          → is_due now
              (refresh pingora now e).last_refresh_millis
              (refresh pingora now e).refresh_interval
            ≡ false)
        × ((i : Duration)
            → (refresh pingora now e).health_check_interval ≡ some i
            → 0 < as_millis i
            → is_due now (refresh pingora now e).last_health_check_millis i ≡ false)
  unfolding refresh
  refresh-rested e = (λ h. ground arith, λ i k h. ground arith)

  -- After a tick no route that serves a request is due for a refresh, nor for a health check, if its
  -- intervals are a millisecond at least.
  pub refresh_due_routes-rested :
      (host path : String) (e : RouteEntry Balancer)
      → routed (refresh_due_routes pingora m now) host path ≡ some e
      → (0 < as_millis e.refresh_interval
          → is_due now e.last_refresh_millis e.refresh_interval ≡ false)
        × ((i : Duration)
            → e.health_check_interval ≡ some i
            → 0 < as_millis i
            → is_due now e.last_health_check_millis i ≡ false)
  refresh_due_routes-rested host path e h = elim (Option-cases (routed m host path)) [
    | inl n ↦ absurd (ground (arith, n, refresh_due_routes-routed host path))
    | inr old ↦
        let same : refresh pingora now old.0 ≡ e =
          some_inj _ _ (ground (arith, old.1, refresh_due_routes-routed host path)) in
        rw (← same) (refresh-rested old.0)
  ]
