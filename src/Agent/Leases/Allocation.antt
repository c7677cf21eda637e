-- ===== src/Agent/Leases/Allocation.antt =====
-- `AddressAllocator::allocate` against its specification: the first free address of the subnet.
-- crates/jiji-agent/src/leases.rs.
use jiji.Common.{
  ℕ, suc, zero, ◌+◌, ◌-◌, ◌≤◌, ◌<◌, ◌≡◌, refl, sym, ap, ◌∙◌, inl, inr, Bool, true, false, not, ◌||◌,
  Option, none, some, List, ◌∷◌, String, ok, err, Result, subst, arith, Bool-cases, Option-cases,
  some_inj, ==_iff, if◌then◌else◌, find, ◌==◌,
}
use text.Mathlib.TextPositions.{eq_refl}
use jiji.Network.Cidr.{Ipv4Addr, address, address_count}
use jiji.Agent.Leases.{
  AddressLease, LeaseStore, LeaseError, exhausted, AddressAllocator, of_deployment, holds,
  addresses, address_lease, active_lease, claim_address_lease, collect_expired_address_leases,
  attempt, allocate,
}
use jiji.Agent.Leases.Exclusive.{Exclusive, Apart-new, collect-Exclusive}

-- An address that the loop may claim: neither reserved nor leased.
abbrev pub is_free : AddressAllocator → List AddressLease → Ipv4Addr → Bool
is_free allocator leases a = not (holds a allocator.reserved || holds a (addresses leases))

-- The first free address among the `left` offsets from `offset` on.
unfoldable pub first_free : AddressAllocator → List AddressLease → ℕ → ℕ → Option Ipv4Addr
first_free allocator leases offset zero = none
first_free allocator leases offset (suc left) =
    let later = first_free allocator leases (suc offset) left in
    elim (address allocator.subnet offset) [
      | none ↦ later
      | some a ↦ if is_free allocator leases a then some a else later
    ]

abbrev pub IsFirst : AddressAllocator → List AddressLease → ℕ → ℕ → Ipv4Addr → Type 0
IsFirst allocator leases offset left a =
    (n : ℕ) × (offset ≤ n)
    × (n < offset + left)
    × (address allocator.subnet n ≡ some a)
    × (is_free allocator leases a ≡ true)

first_free-some :
    (allocator : AddressAllocator) (leases : List AddressLease) (offset left : ℕ) (a : Ipv4Addr)
    → first_free allocator leases offset left ≡ some a
    → IsFirst allocator leases offset left a
unfolding first_free
first_free-some allocator leases offset zero a h = cc
first_free-some allocator leases offset (suc left) a h =
    let rest = first_free-some allocator leases (suc offset) left a in
    elim (Option-cases (address allocator.subnet offset)) [
      | inl e ↦ later rest (ground (arith, e))
      | inr b ↦ elim (Bool-cases (is_free allocator leases b.0)) [
        | inl t ↦
            let same : b.0 ≡ a = ground (arith, b.1, t) in
            (
              offset,
              omega arith,
              omega arith,
              b.1 ∙ ap some same,
              subst (λ x. is_free allocator leases x ≡ true) same t,
            )
        | inr f ↦ later rest (ground (arith, b.1, f))
      ]
    ]
  where
    later :
        (first_free allocator leases (suc offset) left ≡ some a
          → IsFirst allocator leases (suc offset) left a)
        → first_free allocator leases (suc offset) left ≡ some a
        → IsFirst allocator leases offset (suc left) a
    later rest e = let r = rest e in (r.0, omega (arith, r.1), omega (arith, r.2), r.3, r.4)

first_free-none :
    (allocator : AddressAllocator) (leases : List AddressLease) (offset left n : ℕ) (a : Ipv4Addr)
    → first_free allocator leases offset left ≡ none
    → offset ≤ n
    → n < offset + left
    → address allocator.subnet n ≡ some a
    → is_free allocator leases a ≡ false
unfolding first_free
first_free-none allocator leases offset zero n a h low high at = absurd (omega arith)
first_free-none allocator leases offset (suc left) n a h low high at =
    let later = first_free-none allocator leases (suc offset) left n a in
    elim (Option-cases (address allocator.subnet offset)) [
      | inl e ↦ elim (Bool-cases (offset == n)) [
        | inl t ↦ absurd (
            let same : offset ≡ n = (==_iff offset n).0 t in
            let both : none ≡ some a =
              sym e ∙ subst (λ m. address allocator.subnet m ≡ some a) (sym same) at in
            cc)
        | inr f ↦ later (ground (arith, e)) (ground arith) (omega arith) at
      ]
      | inr b ↦ elim (Bool-cases (offset == n)) [
        | inl t ↦
            let same : offset ≡ n = (==_iff offset n).0 t in
            let both : b.0 ≡ a =
              some_inj b.0 a
                (sym b.1 ∙ subst (λ m. address allocator.subnet m ≡ some a) (sym same) at) in
            subst (λ x. is_free allocator leases x ≡ false) both (ground (arith, b.1))
        | inr f ↦ later (ground (arith, b.1)) (ground arith) (omega arith) at
      ]
    ]

module _ {O : Type 0} (label : O → Option String) (allocator : AddressAllocator)
    (deployment_id replica_id : String) where
  abbrev pub answer :
      LeaseStore O → Option Ipv4Addr → Result LeaseError (LeaseStore O × AddressLease)
  answer s none = err (exhausted allocator.subnet)
  answer s (some a) = ok (
    record s { leases = active_lease deployment_id replica_id a ∷ s.leases },
    active_lease deployment_id replica_id a,
  )

  attempt-answer :
      (s : LeaseStore O) (offset left : ℕ)
      → address_lease s deployment_id ≡ none
      → attempt label allocator s deployment_id replica_id (addresses s.leases) offset left
        ≡ answer s (first_free allocator s.leases offset left)
  unfolding attempt first_free claim_address_lease address_lease find
  attempt-answer s offset zero h = refl
  attempt-answer s offset (suc left) h =
      let later = attempt-answer s (suc offset) left h in
      elim (Option-cases (address allocator.subnet offset)) [
        | inl e ↦ ground (arith, e, later)
        | inr b ↦ elim (Bool-cases (is_free allocator s.leases b.0)) [
          | inl t ↦ ground (arith, b.1, t, eq_refl deployment_id)
          | inr f ↦ ground (arith, b.1, f, later)
        ]
      ]

  -- `allocate` returns the lease that the deployment still has once expired leases are collected;
  -- else it leases to it the first free address between the network and the broadcast address, and
  -- it is exhausted exactly if there is none. Neither the constraint of the table nor the
  -- `expect` of the readback can fail.
  pub allocate-answer :
      (s : LeaseStore O) (timestamp : ℕ)
      → let collected = (collect_expired_address_leases label s timestamp).0 in
        allocate label allocator s deployment_id replica_id timestamp
        ≡ elim (address_lease collected deployment_id) [
          | some existing ↦ ok (collected, existing)
          | none ↦
              answer collected
                (first_free allocator collected.leases 1 (address_count allocator.subnet - 1 - 1))
        ]
  unfolding allocate
  allocate-answer s timestamp =
      let collected = (collect_expired_address_leases label s timestamp).0 in
      elim (Option-cases (address_lease collected deployment_id)) [
        | inr l ↦ ground (arith, l.1)
        | inl n ↦
            ground (arith, n, attempt-answer collected 1 (address_count allocator.subnet - 1 - 1) n)
      ]

  -- What a successful `allocate` has done: found the deployment's lease, or added one.
  pub data Allocated (s s' : LeaseStore O) (l : AddressLease) : Type 0 where
    existing : address_lease s deployment_id ≡ some l → s ≡ s' → Allocated s s' l
    leased :
        (a : Ipv4Addr)
        → address_lease s deployment_id ≡ none
        → IsFirst allocator s.leases 1 (address_count allocator.subnet - 1 - 1) a
        → l ≡ active_lease deployment_id replica_id a
        → record s { leases = active_lease deployment_id replica_id a ∷ s.leases } ≡ s'
        → Allocated s s' l

  pub allocate-Allocated :
      (s s' : LeaseStore O) (l : AddressLease) (timestamp : ℕ)
      → allocate label allocator s deployment_id replica_id timestamp ≡ ok (s', l)
      → Allocated (collect_expired_address_leases label s timestamp).0 s' l
  allocate-Allocated s s' l timestamp h =
      let said = sym (allocate-answer s timestamp) ∙ h in
      elim (Option-cases (address_lease collected deployment_id)) [
        | inr m ↦ existing (ground (arith, m.1)) (ground (arith, m.1))
        | inl m ↦ elim (Option-cases (first_free allocator collected.leases 1 hosts)) [
          | inl none_free ↦ absurd (ground (arith, m, none_free))
          | inr b ↦
              leased b.0 m (first_free-some allocator collected.leases 1 hosts b.0 b.1)
                (ground (arith, m, b.1)) (ground (arith, m, b.1))
        ]
      ]
    where
      collected : LeaseStore O
      collected = (collect_expired_address_leases label s timestamp).0

      hosts : ℕ
      hosts = address_count allocator.subnet - 1 - 1

  pub free-holds :
      (leases : List AddressLease) (a : Ipv4Addr)
      → is_free allocator leases a ≡ true
      → (holds a allocator.reserved ≡ false) × (holds a (addresses leases) ≡ false)
  free-holds leases a h = ground arith

  lease-none :
      (s : LeaseStore O)
      → address_lease s deployment_id ≡ none
      → find (of_deployment deployment_id) s.leases ≡ none
  unfolding address_lease
  lease-none s h = h

  -- Rows without a common deployment or address stay so over a successful `allocate`.
  pub allocate-Exclusive :
      (s s' : LeaseStore O) (l : AddressLease) (timestamp : ℕ)
      → Exclusive s.leases
      → allocate label allocator s deployment_id replica_id timestamp ≡ ok (s', l)
      → Exclusive s'.leases
  allocate-Exclusive s s' l timestamp h e =
      let clean = collect-Exclusive label s timestamp h in
      elim (allocate-Allocated s s' l timestamp e) [
        | existing there same ↦ subst (λ (t : LeaseStore O). Exclusive t.leases) same clean
        | leased a n free made same ↦
            subst (λ (t : LeaseStore O). Exclusive t.leases) same
              (
                Apart-new (active_lease deployment_id replica_id a) _ (lease-none _ n)
                    (free-holds _ a free.4).1,
                clean,
              )
      ]

  -- Where `allocate` fails, every host address of the subnet is reserved, or leased
  -- by a row that was not collected.
  pub allocate-exhausted :
      (s : LeaseStore O) (timestamp n : ℕ) (a : Ipv4Addr) (e : LeaseError)
      → allocate label allocator s deployment_id replica_id timestamp ≡ err e
      → 1 ≤ n
      → n < address_count allocator.subnet - 1
      → address allocator.subnet n ≡ some a
      → is_free allocator (collect_expired_address_leases label s timestamp).0.leases a ≡ false
  allocate-exhausted s timestamp n a e h low high at =
      let collected = (collect_expired_address_leases label s timestamp).0 in
      let said = sym (allocate-answer s timestamp) ∙ h in
      elim (Option-cases (address_lease collected deployment_id)) [
        | inr l ↦ absurd (ground (arith, l.1))
        | inl m ↦
            elim (Option-cases
              (first_free allocator collected.leases 1 (address_count allocator.subnet - 1 - 1))) [
                | inr b ↦ absurd (ground (arith, m, b.1))
                | inl none_free ↦
                    first_free-none allocator collected.leases 1
                      (address_count allocator.subnet - 1 - 1) n a none_free low (omega arith) at
              ]
      ]
