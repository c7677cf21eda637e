-- ===== src/Network/Planner/Select.antt =====
-- Which servers and endpoints a command is for: crates/jiji-network/src/planner.rs, `select_hosts`,
-- `select_endpoints`. A `BTreeSet<String>` is the map of its elements to nothing.
pub mod Outcome
mod Chosen
pub mod Filters
use jiji.Common.{
  Result-cases, some_inj, sym, ◌∙◌, subst, ◌≡◌, ◌↔◌, ◌⊎◌, refl, inl, inr, Bool, true, false, ◌||◌,
  Option, none, some, List, [], ◌∷◌, map, String, str_eq, eq_iff, Result, ok, err, ok_inj, arith,
  Bool-cases, Option-cases, is_some, if◌then◌else◌, keep, any, In,
}
use jiji.Common.Map.{Ascending, Map, lookup, insert, lookup-insert, values}
use jiji.Common.Keys.{keys-lookup}
use jiji.Core.Pattern.{matches_pattern}
use jiji.Network.Cidr.{NetworkPlanError, unmatched_host_filter, unmatched_service_filter}
use jiji.Network.Planner.{NetworkPlan, ServerPlan, ServiceEndpointPlan}

abbrev pub Names : Type 0
Names = Map (Unit {0})

-- `extend`
unfoldable pub extend : List String → Names → Names
unfolding insert
extend [] selected = selected
extend (name ∷ names) selected = extend names (insert name tt selected)

module _ {V : Type 0} (test : String → String × V → Bool) (unmatched : String → NetworkPlanError)
    (items : Map V) where
  abbrev pub matching : String → List String
  matching filter = map (λ (p : String × V). p.0) (keep (test filter) items)

  -- The loop over the filters.
  unfoldable pub select_names : List String → Names → Result NetworkPlanError Names
  unfolding extend keep
  select_names [] selected = ok selected
  select_names (filter ∷ filters) selected = elim (matching filter) [
    | [] ↦ err (unmatched filter)
    | name ∷ names ↦ select_names filters (extend (name ∷ names) selected)
  ]

  -- `selected.iter().filter_map(…)`
  unfoldable pub picked : Names → List V
  unfolding lookup
  picked [] = []
  picked ((name, none_of) ∷ names) =
      let rest = picked names in elim (lookup name items) [ none ↦ rest | some v ↦ v ∷ rest ]

  unfoldable pub select : List String → Result NetworkPlanError (List V)
  unfolding select_names picked
  select [] = ok (values items)
  select (filter ∷ filters) = elim (select_names (filter ∷ filters) []) [
    | err e ↦ err e
    | ok selected ↦ ok (picked selected)
  ]

abbrev pub host_test : String → String × ServerPlan → Bool
host_test filter p = matches_pattern p.0 filter || matches_pattern p.1.public_host filter

abbrev pub endpoint_test : String → String × ServiceEndpointPlan → Bool
endpoint_test filter p = matches_pattern p.1.service filter

unfoldable pub select_hosts : NetworkPlan → List String → Result NetworkPlanError (List ServerPlan)
unfolding select matches_pattern
select_hosts plan filters = select host_test unmatched_host_filter plan.servers filters

unfoldable pub select_endpoints :
    NetworkPlan → List String → Result NetworkPlanError (List ServiceEndpointPlan)
unfolding select matches_pattern
select_endpoints plan filters = select endpoint_test unmatched_service_filter plan.endpoints filters
