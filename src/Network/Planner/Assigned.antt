-- ===== src/Network/Planner/Assigned.antt =====
-- The slots that a plan draws on: crates/jiji-network/src/planner.rs, `plan` up to the loop over the assignments.
use jiji.Common.{
  ℕ, ◌-◌, ◌^◌, ◌≤◌, ◌<◌, ◌≡◌, refl, subst, inl, inr, false, some, List, [], ◌∷◌, String, Result, ok,
  ok_inj, arith, Bool-cases, Option-cases, map, ltb, All,
}
use jiji.Common.Map.{Map, lookup, AllPairs, AllPairs-map, AllPairs-zip, Ascending, lookup-AllPairs}
use jiji.Network.Cidr.{Ipv4Cidr, NetworkPlanError, overlaps, subnet_count, address_count}
use jiji.Network.Cidr.Range.{IsCidr, size-le, size-split}
use jiji.Network.Buckets.{allocate_bucketed}
use jiji.Network.Buckets.Loops.{allocate_bucketed-keys}
use jiji.Network.Buckets.Outcome.{
  Allocated, Outcome, allocated, exhausted, allocate_bucketed-Outcome,
}
use jiji.Network.Planner.{Config, NamedServer, identity_of}
use jiji.Network.Planner.Plan.{server_slot_assignments, shared_of}
use jiji.Network.Planner.Servers.{IsRanges, IsKnown}

Outcome-Allocated :
    (stable_hash : String → ℕ) (ids : List String) (total count cap : ℕ)
    (r : Result NetworkPlanError (Map ℕ)) (m : Map ℕ)
    → Outcome stable_hash ids total count cap "servers" r
    → r ≡ ok m
    → Allocated ids total m
Outcome-Allocated stable_hash ids total count cap r m (allocated n al room) e =
    rw (← ok_inj n m e) al
Outcome-Allocated stable_hash ids total count cap r m (exhausted bucket over) e = cc

module _ (stable_hash : String → ℕ) (config : Config) where
  abbrev pub identities : List String
  identities = map (λ (p : String × NamedServer). identity_of config.project p.0) config.servers

  -- What the assignments are made under.
  pub record IsAssigned (m c : Ipv4Cidr) (assignments : Map ℕ) : Type 0 where
    pub total : ℕ
    pub counted : subnet_count c 21 ≡ some total
    pub room : total ≤ address_count m - 2
    pub apart : overlaps m c ≡ false
    pub made : allocate_bucketed stable_hash identities total 8 "servers" ≡ ok assignments

  pub assignments-IsAssigned :
      (m c : Ipv4Cidr) (assignments : Map ℕ)
      → server_slot_assignments stable_hash config m c ≡ ok assignments
      → IsAssigned m c assignments
  unfolding server_slot_assignments
  assignments-IsAssigned m c assignments h = elim (Bool-cases (overlaps m c)) [
    | inl t ↦ absurd (ground (arith, t))
    | inr apart ↦ elim (Option-cases (subnet_count c 21)) [
      | inl n ↦ absurd (ground (arith, apart, n))
      | inr count ↦ elim (Bool-cases (ltb (address_count m - 2) count.0)) [
        | inl t ↦ absurd (ground (arith, apart, count.1, t))
        | inr room ↦ record {
          total = count.0;
          counted = count.1;
          room = ground (arith, room);
          apart = apart;
          made = ground (arith, apart, count.1, room);
        }
      ]
    ]
  ]

  pub ranges :
      (m c : Ipv4Cidr) (total : ℕ)
      → IsCidr m
      → IsCidr c
      → subnet_count c 21 ≡ some total
      → total ≤ address_count m - 2
      → IsRanges m c total
  unfolding subnet_count address_count
  ranges m c total vm vc counted room =
      let wide : c.prefix ≤ 21 = ground arith in
      let split = size-split c.prefix 21 wide (omega arith) in
      let bound = size-le c.prefix vc.short in
      record {
        management_range = vm;
        container_range = vc;
        wide = wide;
        slots = ground (arith, split, bound);
        room = ground (arith, room, size-le m.prefix vm.short);
      }

  pub allocation :
      (ids : List String) (total : ℕ) (assignments : Map ℕ)
      → 0 < total
      → total < 2 ^ 64
      → allocate_bucketed stable_hash ids total 8 "servers" ≡ ok assignments
      → Allocated ids total assignments
  unfolding allocate_bucketed lookup
  allocation [] total assignments pos fits h = rw (← ok_inj _ _ h) (record {
    covers = λ a i. elim i [ ];
    slots = record {
      below = λ i k e. absurd (ground (arith, e));
      apart = λ i j k e g. absurd (ground (arith, e));
    };
  })
  allocation (identity ∷ ids) total assignments pos fits h =
      Outcome-Allocated stable_hash (identity ∷ ids) total _ _ (ok assignments) assignments
        (subst (Outcome stable_hash (identity ∷ ids) total _ _ "servers") h (
          allocate_bucketed-Outcome stable_hash identity ids total 8 "servers" pos fits
            (omega arith)))
        refl

  abbrev Configured : String → Type 0
  Configured identity =
      (name : String) × (server : NamedServer) × (identity ≡ identity_of config.project name)
      × (lookup name config.servers ≡ some server)

  identities-Configured :
      (servers : Map NamedServer)
      → AllPairs (λ k v. lookup k config.servers ≡ some v) servers
      → All Configured (map (λ (p : String × NamedServer). identity_of config.project p.0) servers)
  identities-Configured [] h = tt
  identities-Configured ((name, server) ∷ servers) h =
      ((name, server, refl, h.0), identities-Configured servers h.1)

  pub knows :
      (m c : Ipv4Cidr) (assignments : Map ℕ) (a : IsAssigned m c assignments)
      (r : IsRanges m c a.total)
      → Ascending config.servers
      → Allocated identities a.total assignments
      → AllPairs
          (IsKnown config m c (shared_of stable_hash config.project) a.total r assignments)
          assignments
  knows m c assignments a r sorted al =
      let keys =
        allocate_bucketed-keys Configured stable_hash identities a.total 8 "servers" assignments
          (identities-Configured config.servers (lookup-AllPairs config.servers sorted)) a.made in
      AllPairs-map _ _ assignments
        (λ i k both. record {
          name = both.0.0;
          server = both.0.1;
          is = both.0.2;
          configured = both.0.3;
          small = al.slots.below i k both.1;
          assigned = both.1;
        })
        (AllPairs-zip _ _ assignments keys.0 (lookup-AllPairs assignments keys.1))
