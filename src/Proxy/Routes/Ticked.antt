-- ===== src/Proxy/Routes/Ticked.antt =====
-- What a tick of the proxy does to the balancers: crates/jiji-proxy/src/route_manager.rs,
-- `refresh_due_routes`.
use jiji.Common.{
  ℕ, ◌-◌, ◌≤◌, ◌≡◌, ◌⊎◌, refl, inl, inr, Bool, true, not, Option, none, some, [], ◌∷◌, map, String,
  subst, arith, Bool-cases,
}
use jiji.Common.NumMap.{NumMap, lookup_num}
use jiji.Proxy.Routes.{
  RouteEntry, TcpRouteEntry, RouteManager, LoadBalancing, Duration, as_millis, is_due, routed,
  tcp_entry,
}
use jiji.Proxy.Routes.Upkeep.{refresh, tcp_refresh, refresh_due_routes}
use jiji.Proxy.Routes.Refreshed.{mapped, refresh_due_routes-routed}

module _ (now : ℕ) where
  -- The interval has passed since a time.
  abbrev pub HasPassed : Duration → ℕ → Type 0
  HasPassed interval last = as_millis interval ≤ now - last

  abbrev pub CheckPassed : Option Duration → ℕ → Type 0
  CheckPassed health_check last =
      (interval : Duration) × (health_check ≡ some interval) × HasPassed interval last

  -- No check is due: a check is due only after an interval.
  unchecked : Option Duration → ℕ → Bool
  unchecked none last = true
  unchecked (some i) last = not (is_due now last i)

  check_cases :
      (health_check : Option Duration) (last : ℕ)
      → ((i : Duration) × (health_check ≡ some i) × HasPassed i last)
        ⊎ ((¬ CheckPassed health_check last) × (unchecked health_check last ≡ true))
  unfolding unchecked
  check_cases none last = inr (λ c. absurd (ground (arith, c.1)), refl)
  check_cases (some i) last = elim (Bool-cases (is_due now last i)) [
    | inl t ↦ inl (i, refl, ground (arith, t))
    | inr f ↦ inr (λ c. ground (arith, f, c.1, c.2), ground (arith, f))
  ]

-- An entry stands where one stood, and its ticked entry only there.
abbrev pub Follows : {A : Type 0} → (A → A → Type 0) → Option A → Option A → Type 0
Follows R none none = Unit
Follows R none (some a) = ⊥
Follows R (some a) none = ⊥
Follows R (some a) (some b) = R a b

mapped-Follows :
    {A : Type 0} (R : A → A → Type 0) (f : A → A)
    → ((a : A) → R a (f a))
    → (o : Option A) → Follows R o (mapped f o)
mapped-Follows R f h none = tt
mapped-Follows R f h (some a) = h a

module _ {Balancer Failure : Type 0} (pingora : LoadBalancing Balancer Failure) (now : ℕ) where
  -- What a tick leaves of a balancer and the times of its last refresh and check.
  pub data Ticks (interval : Duration) (health_check : Option Duration) (lb : Balancer)
      (refreshed checked : ℕ) : Balancer → ℕ → ℕ → Type 0 where
    rested :
        ¬ HasPassed now interval refreshed
        → ¬ CheckPassed now health_check checked
        → Ticks interval health_check lb refreshed checked lb refreshed checked
    renewed :
        HasPassed now interval refreshed
        → ¬ CheckPassed now health_check checked
        → Ticks interval health_check lb refreshed checked (pingora.update lb) now checked
    probed :
        ¬ HasPassed now interval refreshed
        → CheckPassed now health_check checked
        → Ticks interval health_check lb refreshed checked
            (pingora.run_health_check lb)
            refreshed
            now
    renewed_and_probed :
        HasPassed now interval refreshed
        → CheckPassed now health_check checked
        → Ticks interval health_check lb refreshed checked
            (pingora.run_health_check (pingora.update lb))
            now
            now

  -- The route is the same but for its balancer and the two times, which have ticked.
  abbrev pub Ticked : RouteEntry Balancer → RouteEntry Balancer → Type 0
  Ticked e e' =
      Ticks e.refresh_interval e.health_check_interval e.lb e.last_refresh_millis
        e.last_health_check_millis e'.lb e'.last_refresh_millis e'.last_health_check_millis
      × (e' ≡ record e {
        lb = e'.lb;
        last_refresh_millis = e'.last_refresh_millis;
        last_health_check_millis = e'.last_health_check_millis;
      })

  abbrev pub TcpTicked : TcpRouteEntry Balancer → TcpRouteEntry Balancer → Type 0
  TcpTicked e e' =
      Ticks e.refresh_interval e.health_check_interval e.lb e.last_refresh_millis
        e.last_health_check_millis e'.lb e'.last_refresh_millis e'.last_health_check_millis
      × (e' ≡ record e {
        lb = e'.lb;
        last_refresh_millis = e'.last_refresh_millis;
        last_health_check_millis = e'.last_health_check_millis;
      })

  refresh-Ticked : (e : RouteEntry Balancer) → Ticked e (refresh pingora now e)
  unfolding refresh unchecked
  refresh-Ticked e =
      let due = is_due now e.last_refresh_millis e.refresh_interval in
      elim (Bool-cases due) [
        | inl t ↦ elim (check_cases now e.health_check_interval e.last_health_check_millis) [
          | inl c ↦
              let same : record e {
                lb = pingora.run_health_check (pingora.update e.lb);
                last_refresh_millis = now;
                last_health_check_millis = now;
              }
                  ≡ refresh pingora now e =
                ground (arith, t, c.1, c.2) in
              subst (Ticked e) same (renewed_and_probed (ground (arith, t)) c, refl)
          | inr n ↦
              let same : record e { lb = pingora.update e.lb; last_refresh_millis = now }
                  ≡ refresh pingora now e =
                ground (arith, t, n.1) in
              subst (Ticked e) same (renewed (ground (arith, t)) n.0, refl)
        ]
        | inr f ↦ elim (check_cases now e.health_check_interval e.last_health_check_millis) [
          | inl c ↦
              let same : record e {
                lb = pingora.run_health_check e.lb;
                last_health_check_millis = now;
              }
                  ≡ refresh pingora now e =
                ground (arith, f, c.1, c.2) in
              subst (Ticked e) same (probed (λ d. absurd (ground (arith, f, d))) c, refl)
          | inr n ↦
              let same : e ≡ refresh pingora now e = ground (arith, f, n.1) in
              subst (Ticked e) same (rested (λ d. absurd (ground (arith, f, d))) n.0, refl)
        ]
      ]

  tcp_refresh-TcpTicked : (e : TcpRouteEntry Balancer) → TcpTicked e (tcp_refresh pingora now e)
  unfolding tcp_refresh unchecked
  tcp_refresh-TcpTicked e =
      let due = is_due now e.last_refresh_millis e.refresh_interval in
      elim (Bool-cases due) [
        | inl t ↦ elim (check_cases now e.health_check_interval e.last_health_check_millis) [
          | inl c ↦
              let same : record e {
                lb = pingora.run_health_check (pingora.update e.lb);
                last_refresh_millis = now;
                last_health_check_millis = now;
              }
                  ≡ tcp_refresh pingora now e =
                ground (arith, t, c.1, c.2) in
              subst (TcpTicked e) same (renewed_and_probed (ground (arith, t)) c, refl)
          | inr n ↦
              let same : record e { lb = pingora.update e.lb; last_refresh_millis = now }
                  ≡ tcp_refresh pingora now e =
                ground (arith, t, n.1) in
              subst (TcpTicked e) same (renewed (ground (arith, t)) n.0, refl)
        ]
        | inr f ↦ elim (check_cases now e.health_check_interval e.last_health_check_millis) [
          | inl c ↦
              let same : record e {
                lb = pingora.run_health_check e.lb;
                last_health_check_millis = now;
              }
                  ≡ tcp_refresh pingora now e =
                ground (arith, f, c.1, c.2) in
              subst (TcpTicked e) same (probed (λ d. absurd (ground (arith, f, d))) c, refl)
          | inr n ↦
              let same : e ≡ tcp_refresh pingora now e = ground (arith, f, n.1) in
              subst (TcpTicked e) same (rested (λ d. absurd (ground (arith, f, d))) n.0, refl)
        ]
      ]

  lookup_num-ticked :
      (port : ℕ) (t : NumMap (TcpRouteEntry Balancer))
      → lookup_num port
          (map (λ (p : ℕ × TcpRouteEntry Balancer). (p.0, tcp_refresh pingora now p.1)) t)
        ≡ mapped (tcp_refresh pingora now) (lookup_num port t)
  unfolding lookup_num
  lookup_num-ticked port [] = refl
  lookup_num-ticked port (p ∷ t) = ground (arith, lookup_num-ticked port t)

  -- A tick leaves a request, and a TCP port, a route exactly where it had one, and the same route but for
  -- the balancer and the two times. The balancer is refreshed, and the time of the refresh now, exactly
  -- if the interval has passed since the last refresh; it is then checked, and the time of the check
  -- now, exactly if the route has a health check whose interval has passed since the last check.
  pub refresh_due_routes-Ticked :
      (m : RouteManager Balancer) (host path : String) (port : ℕ)
      → Follows Ticked (routed m host path) (routed (refresh_due_routes pingora m now) host path)
        × Follows TcpTicked (tcp_entry m port) (tcp_entry (refresh_due_routes pingora m now) port)
  unfolding tcp_entry refresh_due_routes
  refresh_due_routes-Ticked m host path port = (
    rw (refresh_due_routes-routed pingora m now host path)
        (mapped-Follows Ticked (refresh pingora now) refresh-Ticked (routed m host path)),
    rw (lookup_num-ticked port m.tcp_routes) (
        mapped-Follows TcpTicked (tcp_refresh pingora now) tcp_refresh-TcpTicked
          (lookup_num port m.tcp_routes)),
  )
