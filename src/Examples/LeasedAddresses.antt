-- ===== src/Examples/LeasedAddresses.antt =====
-- Instances of the theorems on address leases: crates/jiji-agent/src/leases.rs and store.rs.
use jiji.Common.{
  ◌+◌, ◌-◌, ◌<◌, ◌≡◌, refl, true, false, none, some, Option, [], ◌∷◌, ok, err, String, find, keep,
  any, contains, arith,
}
use jiji.Network.Cidr.{Ipv4Cidr, address, address_count}
use jiji.Network.Cidr.Range.{IsCidr, size}
use jiji.Agent.Leases.{
  AddressLease, LeaseStore, exhausted, new, active_lease, holds, addresses, address_lease,
  claim_address_lease, collect_expired_address_leases, sweep, attempt, allocate,
}
use jiji.Agent.Leases.Exclusive.{Exclusive}
use jiji.Agent.Leases.Allocation.{answer, first_free, allocate-answer, allocate-Exclusive}
use jiji.Agent.Leases.Hosts.{allocate-IsHost}

-- 10.0.0.0/29, whose first host address is the gateway's.
abbrev eight : Ipv4Cidr
eight = record { network = 167772160; prefix = 29 }

eight-IsCidr : IsCidr eight
eight-IsCidr = record { short = omega arith; fits = omega arith; aligned = refl }

-- 10.0.0.0/30, whose two host addresses are the gateway's and the DNS server's.
abbrev four : Ipv4Cidr
four = record { network = 167772160; prefix = 30 }

abbrev no_label : String → Option String
no_label o = none

abbrev empty : LeaseStore String
empty = record { leases = []; discovered = true; observations = [] }

abbrev leased_two : AddressLease
leased_two = active_lease "dep-1" "rep-1" 167772162

abbrev one_lease : LeaseStore String
one_lease = record { leases = leased_two ∷ []; discovered = true; observations = [] }

abbrev quarantined : LeaseStore String
quarantined = record {
  leases = record leased_two { state = "quarantined"; quarantine_until = some 130 } ∷ [];
  discovered = true;
  observations = [];
}

first_lease :
    allocate no_label (new eight (167772161 ∷ [])) empty "dep-1" "rep-1" 100
    ≡ ok (one_lease, leased_two)
unfolding allocate attempt new address address_count claim_address_lease address_lease
    collect_expired_address_leases sweep find any
first_lease = refl

-- The address in quarantine is kept from the next deployment until its time is over.
in_quarantine :
    allocate no_label (new four (167772161 ∷ [])) quarantined "dep-2" "rep-2" 129
    ≡ err (exhausted four)
unfolding allocate attempt new address address_count claim_address_lease address_lease
    collect_expired_address_leases sweep find any keep contains
in_quarantine = refl

after_quarantine :
    allocate no_label (new four (167772161 ∷ [])) quarantined "dep-2" "rep-2" 130
    ≡ ok (
      record {
        leases = active_lease "dep-2" "rep-2" 167772162 ∷ [];
        discovered = true;
        observations = [];
      },
      active_lease "dep-2" "rep-2" 167772162,
    )
unfolding allocate attempt new address address_count claim_address_lease address_lease
    collect_expired_address_leases sweep find any keep contains
after_quarantine = refl

claimed_two : claim_address_lease empty "dep-1" "rep-1" 167772162 ≡ ok (one_lease, true)
unfolding claim_address_lease address_lease find any
claimed_two = refl

allocate-answer_example :
    allocate no_label (new eight (167772161 ∷ [])) quarantined "dep-2" "rep-2" 129
    ≡ elim (address_lease (collect_expired_address_leases no_label quarantined 129).0 "dep-2") [
      | some existing ↦ ok ((collect_expired_address_leases no_label quarantined 129).0, existing)
      | none ↦
          answer no_label
            (new eight (167772161 ∷ []))
            "dep-2"
            "rep-2"
            (collect_expired_address_leases no_label quarantined 129).0
            (first_free
              (new eight (167772161 ∷ []))
              (collect_expired_address_leases no_label quarantined 129).0.leases
              1
              (address_count (new eight (167772161 ∷ [])).subnet - 1 - 1))
    ]
allocate-answer_example =
    allocate-answer no_label (new eight (167772161 ∷ [])) "dep-2" "rep-2" quarantined 129

allocate-Exclusive_example : Exclusive one_lease.leases
allocate-Exclusive_example =
    allocate-Exclusive no_label (new eight (167772161 ∷ [])) "dep-1" "rep-1" empty one_lease
      leased_two 100 tt first_lease

last_host : address (new four (167772161 ∷ [])).subnet 2 ≡ some 167772162
unfolding address address_count new
last_host = refl

four-host : 2 < address_count (new four (167772161 ∷ [])).subnet - 1
unfolding address_count new
four-host = omega arith

no_lease_yet : address_lease (collect_expired_address_leases no_label empty 100).0 "dep-1" ≡ none
unfolding address_lease collect_expired_address_leases sweep find
no_lease_yet = refl

allocate-IsHost_example :
    (167772160 < 167772162)
    × (167772162 + 1 < 167772160 + size 29)
    × (holds 167772162 (167772161 ∷ []) ≡ false)
    × (holds 167772162 (addresses (collect_expired_address_leases no_label empty 100).0.leases)
        ≡ false)
allocate-IsHost_example =
    allocate-IsHost no_label eight (167772161 ∷ []) "dep-1" "rep-1" empty one_lease leased_two 100
      eight-IsCidr first_lease no_lease_yet
