-- ===== src/Network/Planner/Select/Filters.antt =====
-- The hosts and the endpoints that filters select: crates/jiji-network/src/planner.rs, `select_hosts`,
-- `select_endpoints`.
use jiji.Common.{◌≡◌, ◌↔◌, ◌⊎◌, inl, inr, true, List, ◌∷◌, String, codes, arith, Bool-cases}
use jiji.Common.Map.{Ascending}
use jiji.Core.Pattern.{matches_pattern}
use jiji.Core.Pattern.Language.{Fits, matches_pattern_iff}
use jiji.Network.Cidr.{unmatched_host_filter, unmatched_service_filter}
use jiji.Network.Planner.{NetworkPlan, ServerPlan, ServiceEndpointPlan}
use jiji.Network.Planner.Select.{host_test, endpoint_test, select_hosts, select_endpoints}
use jiji.Network.Planner.Select.Outcome.{Selected, Selected-along}
use jiji.Network.Planner.Select.Chosen.{select-Selected, Passes}

-- The text is one that the pattern describes.
abbrev pub Describes : String → String → Type 0
Describes pattern value = Fits (codes value) (codes pattern)

-- A filter is for a server if it describes the server's name or its public host.
abbrev pub HostFits : String → String → ServerPlan → Type 0
HostFits filter name server = Describes filter name ⊎ Describes filter server.public_host

-- A filter is for an endpoint if it describes the name of the endpoint's service.
abbrev pub EndpointFits : String → String → ServiceEndpointPlan → Type 0
EndpointFits filter id endpoint = Describes filter endpoint.service

host_test_iff :
    (filter name : String) (server : ServerPlan)
    → (host_test filter (name, server) ≡ true) ↔ HostFits filter name server
host_test_iff filter name server =
    let by_name = matches_pattern_iff name filter in
    let by_host = matches_pattern_iff server.public_host filter in
    (
      λ h. elim (Bool-cases (matches_pattern name filter)) [
        | inl t ↦ inl (by_name.0 t)
        | inr f ↦ inr (by_host.0 (ground (arith, f, h)))
      ],
      λ s. elim s [ inl n ↦ ground (arith, by_name.1 n) | inr n ↦ ground (arith, by_host.1 n) ],
    )

-- Over servers and endpoints that are named once each, a selection by at least one filter fails at the
-- first filter that fits nothing, exactly if there is one, and answers else with exactly the items that
-- some filter fits: of `select_hosts`, the servers whose name or public host the filter describes;
-- of `select_endpoints`, the endpoints whose service it describes.
pub select_hosts-Selected :
    (plan : NetworkPlan) (filter : String) (filters : List String)
    → Ascending plan.servers
    → Ascending plan.endpoints
    → Selected unmatched_host_filter plan.servers
        (filter ∷ filters)
        HostFits
        (select_hosts plan (filter ∷ filters))
      × Selected unmatched_service_filter plan.endpoints
          (filter ∷ filters)
          EndpointFits
          (select_endpoints plan (filter ∷ filters))
unfolding select_hosts select_endpoints
select_hosts-Selected plan filter filters a b = (
  Selected-along unmatched_host_filter plan.servers (filter ∷ filters)
      (Passes host_test unmatched_host_filter plan.servers) HostFits host_test_iff _
      (select-Selected host_test unmatched_host_filter plan.servers filter filters a),
  Selected-along unmatched_service_filter plan.endpoints (filter ∷ filters)
      (Passes endpoint_test unmatched_service_filter plan.endpoints) EndpointFits
      (λ f id e. matches_pattern_iff e.service f) _
      (select-Selected endpoint_test unmatched_service_filter plan.endpoints filter filters b),
)
