-- ===== src/Agent/Leases/Exclusive.antt =====
-- No deployment has two leases and no address is leased twice, whatever operation runs.
-- crates/jiji-agent/src/store.rs and leases.rs.
use jiji.Common.{
  ℕ, ◌≡◌, ◌≢◌, refl, inl, inr, Bool, true, false, not, ◌||◌, ◌⊎◌, Option, none, some, List, [], ◌∷◌,
  String, str_eq, ok, subst, arith, eq_iff, Bool-cases, Option-cases, if◌then◌else◌, keep, any,
  find, contains, All, ◌==◌,
}
use jiji.Network.Cidr.{Ipv4Addr}
use jiji.Agent.Leases.{
  AddressLease, LeaseStore, of_deployment, holds, addresses, update, sweep, address_lease,
  active_lease, claim_address_lease, recover_address_lease, quarantine_address_lease,
  collect_expired_address_leases, swept,
}

abbrev pub Apart : AddressLease → AddressLease → Type 0
Apart l m = (m.deployment_id ≢ l.deployment_id) × (m.address ≢ l.address)

-- Two rows differ in their deployment and in their address.
abbrev pub Exclusive : List AddressLease → Type 0
Exclusive [] = Unit
Exclusive (l ∷ ls) = All (Apart l) ls × Exclusive ls

pub Apart-new :
    (l : AddressLease) (ls : List AddressLease)
    → find (of_deployment l.deployment_id) ls ≡ none
    → holds l.address (addresses ls) ≡ false
    → All (Apart l) ls
unfolding find any
Apart-new l [] h k = tt
Apart-new l (m ∷ ls) h k = (
  ground (arith, eq_iff m.deployment_id l.deployment_id),
  Apart-new l ls (ground arith) (ground arith),
)

All-keep :
    (P : AddressLease → Type 0) (p : AddressLease → Bool) (ls : List AddressLease)
    → All P ls
    → All P (keep p ls)
unfolding keep
All-keep P p [] h = tt
All-keep P p (l ∷ ls) h = elim (Bool-cases (p l)) [
  | inl t ↦ rw t (h.0, All-keep P p ls h.1)
  | inr f ↦ rw f (All-keep P p ls h.1)
]

Exclusive-keep :
    (p : AddressLease → Bool) (ls : List AddressLease) → Exclusive ls → Exclusive (keep p ls)
unfolding keep
Exclusive-keep p [] h = tt
Exclusive-keep p (l ∷ ls) h = elim (Bool-cases (p l)) [
  | inl t ↦ rw t (All-keep (Apart l) p ls h.0, Exclusive-keep p ls h.1)
  | inr f ↦ rw f (Exclusive-keep p ls h.1)
]

module _ (p : AddressLease → Bool) (f : AddressLease → AddressLease)
    (same_deployment : (l : AddressLease) → (f l).deployment_id ≡ l.deployment_id)
    (same_address : (l : AddressLease) → (f l).address ≡ l.address) where
  kept : (b : Bool) (l m : AddressLease) → Apart l m → Apart l (if b then f m else m)
  kept true l m h = rw (same_deployment m, same_address m) h
  kept false l m h = h

  kept_first : (b : Bool) (l m : AddressLease) → Apart l m → Apart (if b then f l else l) m
  kept_first true l m h = rw (same_deployment l, same_address l) h
  kept_first false l m h = h

  Apart-update :
      (b : Bool) (l : AddressLease) (ls : List AddressLease)
      → All (Apart l) ls
      → All (Apart (if b then f l else l)) (update p f ls)
  Apart-update b l [] h = tt
  Apart-update b l (m ∷ ls) h =
      (kept (p m) (if b then f l else l) m (kept_first b l m h.0), Apart-update b l ls h.1)

  Exclusive-update : (ls : List AddressLease) → Exclusive ls → Exclusive (update p f ls)
  Exclusive-update [] h = tt
  Exclusive-update (l ∷ ls) h = (Apart-update (p l) l ls h.0, Exclusive-update ls h.1)

Exclusive-sweep :
    (timestamp : ℕ) (claimed ids : List String) (ls : List AddressLease)
    → Exclusive ls
    → Exclusive (sweep timestamp claimed ids ls)
unfolding sweep
Exclusive-sweep timestamp claimed [] ls h = h
Exclusive-sweep timestamp claimed (id ∷ ids) ls h = elim (Bool-cases (contains id claimed)) [
  | inl t ↦ rw t (Exclusive-sweep timestamp claimed ids ls h)
  | inr f ↦ rw f (Exclusive-sweep timestamp claimed ids _ (Exclusive-keep _ ls h))
]

abbrev reactivated : AddressLease → AddressLease
reactivated l = record l { state = "active"; quarantine_until = none }

module _ {O : Type 0} where
  -- Rows without a common deployment or address stay so over a successful claim.
  pub claim-Exclusive :
      (s s' : LeaseStore O) (deployment_id replica_id : String) (a : Ipv4Addr) (b : Bool)
      → Exclusive s.leases
      → claim_address_lease s deployment_id replica_id a ≡ ok (s', b)
      → Exclusive s'.leases
  unfolding claim_address_lease address_lease
  claim-Exclusive s s' deployment_id replica_id a b h e =
      elim (Option-cases (find (of_deployment deployment_id) s.leases)) [
        | inr l ↦
            subst (λ (t : LeaseStore O). Exclusive t.leases)
              (let done : s ≡ s' = ground (arith, l.1) in done) h
        | inl n ↦ elim (Bool-cases (holds a (addresses s.leases))) [
          | inl t ↦ absurd (ground (arith, n))
          | inr f ↦
              subst (λ (t : LeaseStore O). Exclusive t.leases)
                (let done : record s { leases = active_lease deployment_id replica_id a ∷ s.leases }
                      ≡ s' =
                    ground (arith, n) in
                  done)
                (Apart-new (active_lease deployment_id replica_id a) s.leases n f, h)
        ]
      ]

  -- A recovery changes nothing, makes the deployment's lease active, or adds one.
  recover-leases :
      (s : LeaseStore O) (deployment_id replica_id : String) (a : Ipv4Addr)
      → ((recover_address_lease s deployment_id replica_id a).0.leases ≡ s.leases)
        ⊎ (((recover_address_lease s deployment_id replica_id a).0.leases
              ≡ update (of_deployment deployment_id) reactivated s.leases)
            ⊎ (((recover_address_lease s deployment_id replica_id a).0.leases
                  ≡ active_lease deployment_id replica_id a ∷ s.leases)
                × (find (of_deployment deployment_id) s.leases ≡ none)
                × (holds a (addresses s.leases) ≡ false)))
  unfolding recover_address_lease address_lease
  recover-leases s deployment_id replica_id a =
      elim (Option-cases (find (of_deployment deployment_id) s.leases)) [
        | inr l ↦
            elim (Bool-cases (not (str_eq l.0.replica_id replica_id) || not (l.0.address == a))) [
              | inl t ↦ inl (ground (arith, l.1, t))
              | inr f ↦ inr (inl (ground (arith, l.1, f)))
            ]
        | inl n ↦ elim (Bool-cases (holds a (addresses s.leases))) [
          | inl t ↦ inl (ground (arith, n, t))
          | inr f ↦ inr (inr (ground (arith, n, f), n, f))
        ]
      ]

  -- Rows without a common deployment or address stay so over a recovery, whatever its result.
  pub recover-Exclusive :
      (s : LeaseStore O) (deployment_id replica_id : String) (a : Ipv4Addr)
      → Exclusive s.leases
      → Exclusive (recover_address_lease s deployment_id replica_id a).0.leases
  recover-Exclusive s deployment_id replica_id a h =
      elim (recover-leases s deployment_id replica_id a) [
        | inl e ↦ rw e h
        | inr (inl e) ↦ rw e (Exclusive-update _ reactivated (λ l. refl) (λ l. refl) s.leases h)
        | inr (inr e) ↦
            rw (e.0) (Apart-new (active_lease deployment_id replica_id a) s.leases e.1 e.2, h)
      ]

  pub quarantine-Exclusive :
      (s : LeaseStore O) (deployment_id : String) (until : ℕ)
      → Exclusive s.leases
      → Exclusive (quarantine_address_lease s deployment_id until).0.leases
  unfolding quarantine_address_lease
  quarantine-Exclusive s deployment_id until h =
      Exclusive-update (of_deployment deployment_id)
        (λ l. record l { state = "quarantined"; quarantine_until = some until }) (λ l. refl)
        (λ l. refl) s.leases h

  module _ (label : O → Option String) where
    pub collect-Exclusive :
        (s : LeaseStore O) (timestamp : ℕ)
        → Exclusive s.leases
        → Exclusive (collect_expired_address_leases label s timestamp).0.leases
    unfolding collect_expired_address_leases
    collect-Exclusive s timestamp h = collected (s.discovered) refl
      where
        collected :
            (b : Bool)
            → s.discovered ≡ b
            → Exclusive (collect_expired_address_leases label s timestamp).0.leases
        collected true e =
            subst (λ (t : LeaseStore O). Exclusive t.leases)
              (let done : record s { leases = swept label s timestamp }
                    ≡ (collect_expired_address_leases label s timestamp).0 =
                  ground (arith, e) in
                done)
              (Exclusive-sweep timestamp _ _ s.leases h)
        collected false e =
            subst (λ (t : LeaseStore O). Exclusive t.leases)
              (let done : s ≡ (collect_expired_address_leases label s timestamp).0 =
                  ground (arith, e) in
                done)
              h
