-- ===== src/Agent/Leases/Hosts.antt =====
-- The addresses that `AddressAllocator::allocate` gives out. crates/jiji-agent/src/leases.rs.
use jiji.Common.{
  ℕ, ◌+◌, ◌-◌, ◌<◌, ◌≡◌, inl, inr, false, Option, none, some, List, String, ok, arith, Option-cases,
  any,
}
use jiji.Network.Cidr.{Ipv4Addr, Ipv4Cidr, address, address_count}
use jiji.Network.Cidr.Range.{IsCidr, size, address_lem, size-le}
use jiji.Agent.Leases.{
  AddressLease, LeaseStore, new, holds, addresses, address_lease, collect_expired_address_leases,
  allocate,
}
use jiji.Agent.Leases.Allocation.{existing, leased, allocate-Allocated, free-holds}

address_count-size : (c : Ipv4Cidr) → IsCidr c → address_count c ≡ size c.prefix
unfolding address_count
address_count-size c v = ground (arith, size-le c.prefix)

address-host :
    (c : Ipv4Cidr) (offset : ℕ) (a : Ipv4Addr)
    → IsCidr c
    → offset < size c.prefix
    → address c offset ≡ some a
    → a ≡ c.network + offset
address-host c offset a v place at = ground (arith, address_lem c offset v)

new-reserved :
    (subnet : Ipv4Cidr) (reserved : List Ipv4Addr) (a : Ipv4Addr)
    → holds a (new subnet reserved).reserved ≡ false
    → holds a reserved ≡ false
unfolding new any
new-reserved subnet reserved a h = elim (Option-cases (address subnet (address_count subnet - 1))) [
  | inl e ↦ ground (arith, e)
  | inr b ↦ ground (arith, b.1)
]

module _ {O : Type 0} (label : O → Option String) where
  -- A lease that `allocate` newly makes has a host address of the subnet: above the network address,
  -- below the broadcast address, none of the reserved ones, and none that any lease, active or
  -- in quarantine, still held.
  pub allocate-IsHost :
      (subnet : Ipv4Cidr) (reserved : List Ipv4Addr) (deployment_id replica_id : String)
      (s s' : LeaseStore O) (l : AddressLease) (timestamp : ℕ)
      → IsCidr subnet
      → allocate label (new subnet reserved) s deployment_id replica_id timestamp ≡ ok (s', l)
      → address_lease (collect_expired_address_leases label s timestamp).0 deployment_id ≡ none
      → (subnet.network < l.address)
        × (l.address + 1 < subnet.network + size subnet.prefix)
        × (holds l.address reserved ≡ false)
        × (holds l.address (addresses (collect_expired_address_leases label s timestamp).0.leases)
            ≡ false)
  unfolding new
  allocate-IsHost subnet reserved deployment_id replica_id s s' l timestamp v h fresh =
      elim (allocate-Allocated label (new subnet reserved) deployment_id replica_id s s' l timestamp
        h) [
          | existing there same ↦ absurd (ground arith)
          | leased a n free made same ↦
              let offset = free.0 in
              let count = address_count-size subnet v in
              let place : offset < size subnet.prefix = omega (arith, free.2, count) in
              let free_now =
                free-holds label (new subnet reserved) deployment_id replica_id _ a free.4 in
              let mine : l.address ≡ a = ground (arith, made) in
              let here : a ≡ subnet.network + offset =
                address-host subnet offset a v place free.3 in
              (
                omega (arith, mine, here, free.1),
                omega (arith, mine, here, free.2, count),
                rw mine (new-reserved subnet reserved a free_now.0),
                rw mine free_now.1,
              )
        ]
