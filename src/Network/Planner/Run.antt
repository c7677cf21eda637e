-- ===== src/Network/Planner/Run.antt =====
-- How `plan` runs: crates/jiji-network/src/planner.rs.
use jiji.Common.{
  Result-cases, ℕ, ◌^◌, ◌<◌, ◌≡◌, ◌≢◌, sym, ◌∙◌, inl, inr, List, [], ◌∷◌, String, ok, err, ok_inj,
  map_err, map_err-eq-ok, >>=-eq-ok, arith, All,
}
use jiji.Common.Map.{Map, values, AllPairs, Ascending}
use jiji.Network.Cidr.{Ipv4Cidr}
use jiji.Network.Cidr.Range.{network_end, size-pos, size-le, size-split}
use jiji.Network.Cidr.Read.{from_str-IsCidr}
use jiji.Network.Buckets.Outcome.{Allocated}
use jiji.Network.Planner.{
  Config, ServerPlan, NetworkPlan, refused, panicked, plan_servers, populate_server_networks,
}
use jiji.Network.Planner.Plan.{
  management_range, container_range, server_slot_assignments, plan_endpoints, shared_of, plan,
}
use jiji.Network.Planner.Servers.{IsRanges, IsServer, IsPlanned, Covers, plan_servers-IsPlanned}
use jiji.Network.Planner.Assigned.{
  identities, IsAssigned, assignments-IsAssigned, ranges, allocation, knows,
}
use jiji.Network.Planner.Peers.{meshed, map_values, populate_server_networks-meshed}

module _ (stable_hash : String → ℕ) (digest : List String → String) (config : Config)
    (sorted : Ascending config.servers) where
  -- What a run of `plan` goes through, up to the peers.
  pub record IsRun (m c : Ipv4Cidr) (assignments : Map ℕ) : Type 0 where
    pub assigned : IsAssigned stable_hash config m c assignments
    pub ranged : IsRanges m c assigned.total
    pub allocated : Allocated (identities stable_hash config) assigned.total assignments
    pub base : Map ServerPlan
    pub ran :
        plan_servers config m c (shared_of stable_hash config.project) assignments [] ≡ ok base
    pub planned :
        IsPlanned config m c
          (shared_of stable_hash config.project)
          assigned.total
          ranged
          assignments
          base
    pub covered :
        Covers config m c
          (shared_of stable_hash config.project)
          assigned.total
          ranged
          assignments
          assignments
          []
          base

  small_addresses :
      (m c : Ipv4Cidr) (assignments : Map ℕ) (total : ℕ) (r : IsRanges m c total)
      (base : Map ServerPlan)
      → AllPairs
          (IsServer config m c (shared_of stable_hash config.project) total r assignments)
          base
      → All (λ (o : ServerPlan). o.management_address < 2 ^ 32) (values base)
  small_addresses m c assignments total r [] h = tt
  small_addresses m c assignments total r ((name, server) ∷ base) h = (
    rw (h.0.plan_is) (omega (arith, h.0.small, r.room, network_end m r.management_range)),
    small_addresses m c assignments total r base h.1,
  )

  run :
      (m c : Ipv4Cidr) (assignments : Map ℕ)
      → management_range stable_hash config ≡ ok m
      → container_range stable_hash config ≡ ok c
      → server_slot_assignments stable_hash config m c ≡ ok assignments
      → IsRun m c assignments
  unfolding management_range container_range
  run m c assignments hm hc ha =
      let assigned = assignments-IsAssigned stable_hash config m c assignments ha in
      let ranged =
        ranges stable_hash config m c assigned.total (from_str-IsCidr _ m hm)
          (from_str-IsCidr _ c hc) assigned.counted assigned.room in
      let split = size-split c.prefix 21 ranged.wide (omega arith) in
      let alloc =
        allocation stable_hash config (identities stable_hash config) assigned.total assignments
          (omega (arith, ranged.slots, split, size-pos c.prefix))
          (omega (arith, ranged.slots, split, size-le c.prefix ranged.container_range.short))
          assigned.made in
      let loop =
        plan_servers-IsPlanned config m c (shared_of stable_hash config.project) assigned.total
          ranged assignments assignments []
          (knows stable_hash config m c assignments assigned ranged sorted alloc)
          (record { each = tt; sorted = tt }) in
      record {
        assigned = assigned;
        ranged = ranged;
        allocated = alloc;
        base = loop.0;
        ran = loop.1;
        planned = loop.2;
        covered = loop.3;
      }

  rest_of_plan :
      (m c : Ipv4Cidr) (assignments : Map ℕ)
      → (r : IsRun m c assignments)
      → populate_server_networks r.base ≡ ok (map_values (meshed (values r.base)) r.base)
  rest_of_plan m c assignments r =
      populate_server_networks-meshed r.base
        (small_addresses m c assignments r.assigned.total r.ranged r.base r.planned.each)

  -- `plan` fails with an error that it reports, and with no `expect`.
  pub plan-safe : plan stable_hash digest config ≢ err panicked
  unfolding plan
  plan-safe h = elim (Result-cases (management_range stable_hash config)) [
    | inl e ↦ absurd (ground (arith, e.1))
    | inr m ↦ elim (Result-cases (container_range stable_hash config)) [
      | inl e ↦ absurd (ground (arith, m.1, e.1))
      | inr c ↦ elim (Result-cases (server_slot_assignments stable_hash config m.0 c.0)) [
        | inl e ↦ absurd (ground (arith, m.1, c.1, e.1))
        | inr a ↦
            let r = run m.0 c.0 a.0 m.1 c.1 a.1 in
            elim (Result-cases (plan_endpoints config r.base)) [
              | inl e ↦ absurd (ground (arith, m.1, c.1, a.1, r.ran, e.1))
              | inr e ↦
                  absurd (ground (arith, m.1, c.1, a.1, r.ran, e.1, rest_of_plan m.0 c.0 a.0 r))
            ]
      ]
    ]
  ]

  -- What a plan is made of.
  pub record IsMade (p : NetworkPlan) : Type 0 where
    pub m : Ipv4Cidr
    pub c : Ipv4Cidr
    pub assignments : Map ℕ
    pub r : IsRun m c assignments
    pub ranges_are : (p.management_cidr ≡ m) × (p.container_cidr ≡ c)
    pub servers_are : p.servers ≡ map_values (meshed (values r.base)) r.base

  pub made : (p : NetworkPlan) → plan stable_hash digest config ≡ ok p → IsMade p
  unfolding plan
  made p h =
      let m = >>=-eq-ok (map_err refused (management_range stable_hash config)) _ h in
      let hm = map_err-eq-ok refused _ m.0 m.1 in
      let c = >>=-eq-ok (map_err refused (container_range stable_hash config)) _ m.2 in
      let hc = map_err-eq-ok refused _ c.0 c.1 in
      let a =
        >>=-eq-ok (map_err refused (server_slot_assignments stable_hash config m.0 c.0)) _ c.2 in
      let ha = map_err-eq-ok refused _ a.0 a.1 in
      let r = run m.0 c.0 a.0 hm hc ha in
      let b =
        >>=-eq-ok (plan_servers config m.0 c.0 (shared_of stable_hash config.project) a.0 []) _
          a.2 in
      let same_base : r.base ≡ b.0 = ok_inj _ _ (sym r.ran ∙ b.1) in
      let e = >>=-eq-ok (map_err refused (plan_endpoints config b.0)) _ b.2 in
      let s = >>=-eq-ok (populate_server_networks b.0) _ e.2 in
      let meshing = rest_of_plan m.0 c.0 a.0 r in
      record {
        m = m.0;
        c = c.0;
        assignments = a.0;
        r = r;
        ranges_are = (ground (arith, s.2), ground (arith, s.2));
        servers_are = ground (arith, s.2, s.1, meshing, same_base);
      }
