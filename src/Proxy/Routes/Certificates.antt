-- ===== src/Proxy/Routes/Certificates.antt =====
-- The hosts that want a certificate: crates/jiji-proxy/src/route_manager.rs, `tls_hosts`.
use jiji.Common.{
  subst, ◌≡◌, ◌↔◌, refl, inl, inr, Bool, true, false, ◌&&◌, not, List, [], ◌∷◌, String, arith,
  Bool-cases, Option-cases, any, In,
}
use jiji.Common.Keys.{keys-lookup}
use jiji.Common.Map.{lookup as get}
use jiji.Proxy.Wildcard.{is_wildcard_host}
use jiji.Proxy.Routes.{RouteEntry, RouteManager, entries_of, tls_hosts}
use jiji.Proxy.Routes.Order.{IsTable}

any-In :
    {A : Type 0} (p : A → Bool) (xs : List A)
    → (any p xs ≡ true) ↔ ((e : A) × In e xs × (p e ≡ true))
unfolding any
any-In p [] = (λ h. absurd (ground (arith, h)), λ e. elim e.1 [ ])
any-In p (x ∷ xs) = (
  λ h. elim (Bool-cases (p x)) [
    | inl t ↦ (x, inl refl, t)
    | inr f ↦ let later = (any-In p xs).0 (ground (arith, f)) in (later.0, inr later.1, later.2)
  ],
  λ e. elim e.1 [
    | inl same ↦ rw (← same, e.2) refl
    | inr i ↦ ground (arith, (any-In p xs).1 (e.0, i, e.2))
  ],
)

-- A host wants a certificate exactly if it is no wildcard and some route of it asks for TLS.
pub tls_hosts_iff :
    {Balancer : Type 0} (m : RouteManager Balancer) (host : String)
    → IsTable m
    → In host (tls_hosts m) ↔ (
        (is_wildcard_host host ≡ false)
        × ((e : RouteEntry Balancer) × In e (entries_of m host) × (e.tls ≡ true)))
unfolding tls_hosts entries_of
tls_hosts_iff {Balancer = Balancer} m host t =
    let keyed =
      keys-lookup (λ p. not (is_wildcard_host p.0) && any (λ (e : RouteEntry Balancer). e.tls) p.1)
        host m.routes t.sorted in
    (
      λ i.
          let found = keyed.0 i in
          let asking =
            (any-In (λ (e : RouteEntry Balancer). e.tls) found.0).0 (ground (arith, found.2)) in
          (ground (arith, found.2), (asking.0, rw (entries_of, found.1) (asking.1), asking.2)),
      λ w. keyed.1 (elim (Option-cases (get host m.routes)) [
        | inl n ↦
            let empty : entries_of m host ≡ [] = ground (arith, n) in
            absurd (subst (In w.1.0) empty w.1.1)
        | inr es ↦
            let same : entries_of m host ≡ es.0 = ground (arith, es.1) in
            let asking =
              (any-In (λ (e : RouteEntry Balancer). e.tls) es.0).1
                (w.1.0, subst (In w.1.0) same w.1.1, w.1.2) in
            (es.0, es.1, ground (arith, w.0, asking))
      ]),
    )
