-- ===== src/Proxy/Routes/Lookup.antt =====
-- Which route serves a request: crates/jiji-proxy/src/route_manager.rs, `select_entry`, `lookup`.
use native.Mathlib.Decide.{dec_lt}
use Prim.Native.String.{len, slice}
use text.Mathlib.Text.{starts_with}
use jiji.Common.{
  subst, ◌≤◌, ◌<◌, ◌≡◌, ◌⊎◌, refl, sym, ap, ◌∙◌, inl, inr, Bool, true, false, Option, none, some,
  List, [], ◌∷◌, String, arith, eq_iff, Bool-cases, Option-cases, some_inj, find, In, All, All-In,
}
use jiji.Proxy.Wildcard.{parent_wildcard_key}
use jiji.Proxy.Routes.{RouteEntry, RouteManager, claims, select_entry, entries_of, routed}
use jiji.Proxy.Routes.Order.{IsTable, entries_of-IsHost, rank, Ordered, Distinct, same_prefix_iff}

abbrev prefix_claims : String → Option String → Bool
prefix_claims path p = elim p [ none ↦ true | some t ↦ starts_with path t ]

-- Two prefixes of one path that differ have different lengths.
shorter :
    (path : String) (p q : Option String)
    → prefix_claims path p ≡ true
    → prefix_claims path q ≡ true
    → rank q ≤ rank p
    → (q ≡ p → ⊥)
    → rank q < rank p
shorter path none none h k le ne = absurd (ne refl)
shorter path none (some q) h k le ne = absurd (omega arith)
shorter path (some p) none h k le ne = omega arith
shorter path (some p) (some q) h k le ne = elim (dec_lt (len q) (len p)) [
  | yes below ↦ omega arith
  | no same ↦
      let e : len q ≡ len p = omega arith in
      let equal : q ≡ p = sym ((eq_iff _ q).0 k) ∙ ap (λ n. slice path 0 n) e ∙ (eq_iff _ p).0 h in
      absurd (ne (ap some equal))
]

module _ {Balancer : Type 0} where
  -- The entry of the longest prefix that the path starts with.
  pub record Longest (entries : List (RouteEntry Balancer)) (path : String)
      (e : RouteEntry Balancer) : Type 0 where
    pub present : In e entries
    pub claiming : claims path e ≡ true
    pub above :
        (o : RouteEntry Balancer)
        → In o entries
        → claims path o ≡ true
        → (o ≡ e) ⊎ (rank o.path_prefix < rank e.path_prefix)

  abbrev pub Unclaimed : List (RouteEntry Balancer) → String → Type 0
  Unclaimed entries path = All (λ e. claims path e ≡ false) entries

  find-Longest :
      (path : String) (es : List (RouteEntry Balancer)) (e : RouteEntry Balancer)
      → Ordered es
      → Distinct es
      → find (claims path) es ≡ some e
      → Longest es path e
  unfolding find
  find-Longest path [] e o d h = cc
  find-Longest path (x ∷ xs) e o d h = elim (Bool-cases (claims path x)) [
    | inl t ↦
        let is : x ≡ e = some_inj _ _ (ground (arith, t)) in
        rw (← is) (record {
          present = inl refl;
          claiming = t;
          above = λ y i c. elim i [
            | inl same ↦ inl same
            | inr j ↦ inr (
                shorter path x.path_prefix y.path_prefix t c (All-In _ xs y o.0 j) (λ same. absurd (
                  ground (
                    arith,
                    All-In _ xs y d.0 j,
                    (same_prefix_iff y.path_prefix x.path_prefix).1 same,
                  ))))
          ];
        })
    | inr f ↦
        let rest = find-Longest path xs e o.1 d.1 (ground (arith, f)) in
        record {
          present = inr rest.present;
          claiming = rest.claiming;
          above = λ y i c. elim i [
            | inl same ↦ absurd (ground (arith, f, ap (λ z. claims path z) same))
            | inr j ↦ rest.above y j c
          ];
        }
  ]

  find-Unclaimed :
      (path : String) (es : List (RouteEntry Balancer))
      → find (claims path) es ≡ none
      → Unclaimed es path
  unfolding find
  find-Unclaimed path [] h = tt
  find-Unclaimed path (x ∷ xs) h = elim (Bool-cases (claims path x)) [
    | inl t ↦ absurd (ground (arith, t))
    | inr f ↦ (f, find-Unclaimed path xs (ground (arith, f)))
  ]

  -- How a request is served: by the longest prefix of its host that claims the path; if the host has
  -- none, by that of the wildcard one label above; or by no route.
  pub data Served (m : RouteManager Balancer) (host path : String)
      : Option (RouteEntry Balancer) → Type 0 where
    exact :
        (e : RouteEntry Balancer) → Longest (entries_of m host) path e → Served m host path (some e)
    wildcard :
        (key : String) (e : RouteEntry Balancer)
        → Unclaimed (entries_of m host) path
        → parent_wildcard_key host ≡ some key
        → Longest (entries_of m key) path e
        → Served m host path (some e)
    unserved :
        Unclaimed (entries_of m host) path
        → ((key : String) → parent_wildcard_key host ≡ some key → Unclaimed (entries_of m key) path)
        → Served m host path none

  found_in :
      (m : RouteManager Balancer) (host path : String)
      → IsTable m
      → (e : RouteEntry Balancer) → select_entry (entries_of m host) path ≡ some e
      → Longest (entries_of m host) path e
  unfolding select_entry
  found_in m host path t e h =
      let v = entries_of-IsHost m host t in find-Longest path (entries_of m host) e v.1 v.0 h

  missing_in :
      (m : RouteManager Balancer) (host path : String)
      → select_entry (entries_of m host) path ≡ none
      → Unclaimed (entries_of m host) path
  unfolding select_entry
  missing_in m host path h = find-Unclaimed path (entries_of m host) h

  routed_exact :
      (m : RouteManager Balancer) (host path : String) (e : RouteEntry Balancer)
      → select_entry (entries_of m host) path ≡ some e
      → routed m host path ≡ some e
  unfolding routed entries_of select_entry find
  routed_exact m host path e h = ground (arith, h)

  routed_wildcard :
      (m : RouteManager Balancer) (host path key : String)
      → select_entry (entries_of m host) path ≡ none
      → parent_wildcard_key host ≡ some key
      → routed m host path ≡ select_entry (entries_of m key) path
  unfolding routed entries_of select_entry find
  routed_wildcard m host path key h k = ground (arith, h, k)

  routed-none :
      (m : RouteManager Balancer) (host path : String)
      → select_entry (entries_of m host) path ≡ none
      → parent_wildcard_key host ≡ none
      → routed m host path ≡ none
  unfolding routed entries_of select_entry find
  routed-none m host path h k = ground (arith, h, k)

  -- On a table of distinct and ordered routes, `lookup` serves a request by the route of its host with
  -- the longest prefix of the path, else by that of the wildcard one label above the host, and
  -- refuses it only if neither has a route that claims the path.
  pub routed-Served :
      (m : RouteManager Balancer) (host path : String)
      → IsTable m
      → Served m host path (routed m host path)
  routed-Served m host path t = elim (Option-cases (select_entry (entries_of m host) path)) [
    | inr e ↦ rw (routed_exact m host path e.0 e.1) (exact e.0 (found_in m host path t e.0 e.1))
    | inl n ↦ elim (Option-cases (parent_wildcard_key host)) [
      | inl none_above ↦
          rw (routed-none m host path n none_above)
            (unserved (missing_in m host path n) (λ key k. absurd (ground (arith, k, none_above))))
      | inr key ↦
          rw (routed_wildcard m host path key.0 n key.1)
            (elim (Option-cases (select_entry (entries_of m key.0) path)) [
              | inr e ↦ rw (e.1) (
                  wildcard key.0 e.0 (missing_in m host path n) key.1
                    (found_in m key.0 path t e.0 e.1))
              | inl miss ↦ rw miss (
                  unserved (missing_in m host path n) (λ k e.
                    subst (λ (j : String). Unclaimed (entries_of m j) path)
                      (some_inj _ _ (sym key.1 ∙ e)) (missing_in m key.0 path miss)))
            ])
    ]
  ]
