-- ===== src/Agent/Leases.antt =====
-- crates/jiji-agent/src/leases.rs, and the table of address leases of crates/jiji-agent/src/store.rs.
-- A row's `created_at` is never read. No query depends on the order of the rows. The JSON of an
-- observation's labels is not decoded here: its label `jiji.deployment` is a parameter. A time beyond
-- the 63 bits of an SQLite integer, which rusqlite refuses, is left out.
pub mod Exclusive
pub mod Allocation
pub mod Hosts
use jiji.Common.{
  ℕ, suc, zero, ◌+◌, ◌-◌, ◌^◌, Bool, true, false, ◌&&◌, ◌||◌, not, Option, none, some, List, [],
  ◌∷◌, ◌++◌, String, str_eq, Result, ok, err, ◌>>=◌, ltb, leb, ◌==◌, if◌then◌else◌, keep, any, find,
  length, contains,
}
use jiji.Network.Cidr as Cidr
use jiji.Network.Cidr.{Ipv4Addr, Ipv4Cidr, address, address_count}

abbrev pub default_quarantine_seconds : ℕ
default_quarantine_seconds = 30

pub record AddressLease : Type 0 where
  pub deployment_id : String
  pub replica_id : String
  pub address : Ipv4Addr
  pub state : String
  pub quarantine_until : Option ℕ

-- What the allocator reads and writes of the store; `discovered`: `last_discovery_at` is set.
pub record LeaseStore (Observation : Type 0) : Type 0 where
  pub leases : List AddressLease
  pub discovered : Bool
  pub observations : List Observation

pub data LeaseError : Type 0 where
  exhausted : Ipv4Cidr → LeaseError
  -- The constraint `UNIQUE` of the column `address`
  address_taken : LeaseError
  -- `expect("a successful claim must be readable")`
  unreadable : LeaseError

abbrev pub of_deployment : String → AddressLease → Bool
of_deployment id lease = str_eq lease.deployment_id id

abbrev pub holds : Ipv4Addr → List Ipv4Addr → Bool
holds a taken = any (λ b. b == a) taken

abbrev pub addresses : List AddressLease → List Ipv4Addr
addresses [] = []
addresses (l ∷ ls) = l.address ∷ addresses ls

abbrev pub is_quarantined_until : ℕ → AddressLease → Bool
is_quarantined_until timestamp lease =
    str_eq lease.state "quarantined"
    && elim lease.quarantine_until [ none ↦ false | some t ↦ leb t timestamp ]

abbrev pub update :
    (AddressLease → Bool) → (AddressLease → AddressLease) → List AddressLease → List AddressLease
update p f [] = []
update p f (l ∷ ls) = (if p l then f l else l) ∷ update p f ls

abbrev pub expired_ids : ℕ → List AddressLease → List String
expired_ids timestamp [] = []
expired_ids timestamp (l ∷ ls) =
    let rest = expired_ids timestamp ls in
    if is_quarantined_until timestamp l then l.deployment_id ∷ rest else rest

-- The deletions of `collect_expired_address_leases`.
unfoldable pub sweep : ℕ → List String → List String → List AddressLease → List AddressLease
sweep timestamp claimed [] leases = leases
sweep timestamp claimed (id ∷ ids) leases = sweep timestamp claimed ids (
    if contains id claimed
    then leases
    else keep (λ l. not (of_deployment id l && is_quarantined_until timestamp l)) leases)

abbrev pub saturating_add : ℕ → ℕ → ℕ
saturating_add a b = if leb (2 ^ 64) (a + b) then 2 ^ 64 - 1 else a + b

abbrev pub active_lease : String → String → Ipv4Addr → AddressLease
active_lease deployment_id replica_id a = record {
  deployment_id = deployment_id;
  replica_id = replica_id;
  address = a;
  state = "active";
  quarantine_until = none;
}

module _ {O : Type 0} where
  unfoldable pub address_lease : LeaseStore O → String → Option AddressLease
  unfolding find
  address_lease store deployment_id = find (of_deployment deployment_id) store.leases

  unfoldable pub claim_address_lease :
      LeaseStore O → String → String → Ipv4Addr → Result LeaseError (LeaseStore O × Bool)
  claim_address_lease store deployment_id replica_id a = elim (address_lease store deployment_id) [
    | some lease ↦ ok (store, str_eq lease.replica_id replica_id && lease.address == a)
    | none ↦
        if holds a (addresses store.leases)
        then err address_taken
        else ok
            (record store { leases = active_lease deployment_id replica_id a ∷ store.leases }, true)
  ]

  unfoldable pub recover_address_lease :
      LeaseStore O → String → String → Ipv4Addr → LeaseStore O × Bool
  recover_address_lease store deployment_id replica_id a =
      elim (address_lease store deployment_id) [
        | some lease ↦
            if not (str_eq lease.replica_id replica_id) || not (lease.address == a)
            then (store, false)
            else (
              record store {
                leases =
                    update (of_deployment deployment_id)
                      (λ l. record l { state = "active"; quarantine_until = none }) store.leases;
              },
              true,
            )
        | none ↦ if holds a (addresses store.leases) then (store, false) else (
          record store { leases = active_lease deployment_id replica_id a ∷ store.leases },
          true,
        )
      ]

  unfoldable pub quarantine_address_lease : LeaseStore O → String → ℕ → LeaseStore O × Bool
  quarantine_address_lease store deployment_id quarantine_until = (
    record store {
      leases =
          update (of_deployment deployment_id)
            (λ l. record l { state = "quarantined"; quarantine_until = some quarantine_until })
            store.leases;
    },
    any (of_deployment deployment_id) store.leases,
  )

  module _ (deployment_label : O → Option String) where
    abbrev pub claimed_deployments : List O → List String
    claimed_deployments [] = []
    claimed_deployments (o ∷ os) =
        let rest = claimed_deployments os in
        elim (deployment_label o) [
          | none ↦ rest
          | some id ↦ if str_eq id "" then rest else id ∷ rest
        ]

    abbrev pub swept : LeaseStore O → ℕ → List AddressLease
    swept store timestamp =
        sweep timestamp (claimed_deployments store.observations)
          (expired_ids timestamp store.leases) store.leases

    unfoldable pub collect_expired_address_leases : LeaseStore O → ℕ → LeaseStore O × ℕ
    collect_expired_address_leases store timestamp =
        if store.discovered
        then (
          record store { leases = swept store timestamp },
          length store.leases - length (swept store timestamp),
        )
        else (store, 0)

pub record AddressAllocator : Type 0 where
  pub subnet : Ipv4Cidr
  pub reserved : List Ipv4Addr

unfoldable pub new : Ipv4Cidr → List Ipv4Addr → AddressAllocator
new subnet reserved = record {
  subnet = subnet;
  reserved = elim (address subnet (address_count subnet - 1)) [
    | none ↦ subnet.network ∷ reserved
    | some broadcast ↦ broadcast ∷ subnet.network ∷ reserved
  ];
}

module _ {O : Type 0} (deployment_label : O → Option String) (allocator : AddressAllocator) where
  -- The loop of `allocate`, with `left` offsets still to try.
  unfoldable pub attempt :
      LeaseStore O
      → String
      → String
      → List Ipv4Addr
      → ℕ
      → ℕ
      → Result LeaseError (LeaseStore O × AddressLease)
  attempt store deployment_id replica_id used offset zero = err (exhausted allocator.subnet)
  attempt store deployment_id replica_id used offset (suc left) =
      let next : LeaseStore O → Result LeaseError (LeaseStore O × AddressLease) =
        λ s. attempt s deployment_id replica_id used (suc offset) left in
      elim (address allocator.subnet offset) [
        | none ↦ next store
        | some a ↦
            if holds a allocator.reserved || holds a used
            then next store
            else claim_address_lease store deployment_id replica_id a >>= λ p.
                if p.1
                then elim (address_lease p.0 deployment_id) [
                  | none ↦ err unreadable
                  | some lease ↦ ok (p.0, lease)
                ]
                else next p.0
      ]

  unfoldable pub allocate :
      LeaseStore O → String → String → ℕ → Result LeaseError (LeaseStore O × AddressLease)
  allocate store deployment_id replica_id timestamp =
      let collected = (collect_expired_address_leases deployment_label store timestamp).0 in
      elim (address_lease collected deployment_id) [
        | some existing ↦ ok (collected, existing)
        | none ↦
            attempt collected deployment_id replica_id (addresses collected.leases) 1
              (address_count allocator.subnet - 1 - 1)
      ]

  unfoldable pub release : LeaseStore O → String → ℕ → ℕ → LeaseStore O × Bool
  release store deployment_id timestamp quarantine_seconds =
      quarantine_address_lease store deployment_id (saturating_add timestamp quarantine_seconds)
