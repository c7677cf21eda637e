-- ===== src/Agent/Catalog/Fences.antt =====
-- The record of a deployment only moves forward, a tombstone fences its owner epoch, and no record
-- is stored below the epoch of its replica: crates/jiji-agent/src/catalog.rs, `apply`, `order`.
use text.Mathlib.TextPositions.{eq_refl}
use jiji.Common.{
  ℕ, ◌≤◌, ◌<◌, ◌≡◌, refl, inl, inr, true, false, Option, some, List, [], ◌∷◌, String, ok, arith,
  eq_iff, Bool-cases, str_eq, is_le, is_gt, is_le_trans, Chains, Chains-then, Chains-compare,
  Chains-compare_str, flip-compare_str, In, subst,
}
use jiji.Common.Map.{lookup, insert, lookup-insert, values, lookup-In}
use jiji.Agent.Membership.{
  MembershipRecord, MembershipView, RecordProvenance, admit, peer, SocketAddr, authenticate, v4,
}
use jiji.Agent.Membership.Senders.{authenticate-ok}
use jiji.Network.Cidr.{Ipv4Addr}
use jiji.Agent.Catalog.{
  CatalogRecord, CatalogView, CatalogApply, applied, is_tombstoned, order, tombstone_rank,
  against_current, verdict, replica_owner_epoch, below_epoch, max_with, apply, apply_all, verify,
}
use jiji.Agent.Catalog.Steps.{
  Effect, kept, stored, apply-Effect, apply-verify, apply-admit, apply_all_induction,
}

-- The comparisons of three records by `order`, under any ids.
pub Chains-order :
    (r c d : CatalogRecord) (i j k : String)
    → Chains (order r i c j) (order c j d k) (order r i d k)
unfolding order
Chains-order r c d i j k =
    Chains-then _ _ _ _ _ _ (Chains-compare r.owner_epoch c.owner_epoch d.owner_epoch) (
      Chains-then _ _ _ _ _ _ (Chains-compare r.revision c.revision d.revision) (
        Chains-then _ _ _ _ _ _
          (Chains-compare (tombstone_rank r) (tombstone_rank c) (tombstone_rank d))
          (Chains-compare_str i j k)))

pub le_of_gt :
    (r c : CatalogRecord) (i j : String)
    → is_gt (order r i c j) ≡ true
    → is_le (order c j r i) ≡ true
unfolding order
le_of_gt r c i j h = ground (arith, flip-compare_str i j)

module _ (hash : CatalogRecord → String) where
  -- `c` is not above `d` in the order in which records win.
  abbrev pub NotAbove : CatalogRecord → CatalogRecord → Type 0
  NotAbove c d = is_le (order c (hash c) d (hash d)) ≡ true

  NotAbove-refl : (c : CatalogRecord) → NotAbove c c
  unfolding order
  NotAbove-refl c = ground (arith, eq_refl (hash c))

  NotAbove-trans : (c d e : CatalogRecord) → NotAbove c d → NotAbove d e → NotAbove c e
  NotAbove-trans c d e = is_le_trans _ _ _ (Chains-order c d e (hash c) (hash d) (hash e))

  NotAbove-epoch : (c d : CatalogRecord) → NotAbove c d → c.owner_epoch ≤ d.owner_epoch
  unfolding order
  NotAbove-epoch c d h = ground arith

  -- What may take the place of the record `c`.
  pub record Advances (c d : CatalogRecord) : Type 0 where
    pub forward : NotAbove c d
    pub fence : is_tombstoned c ≡ true → is_tombstoned d ≡ false → c.owner_epoch < d.owner_epoch

  Advances-refl : (c : CatalogRecord) → Advances c c
  Advances-refl c = record { forward = NotAbove-refl c; fence = λ a b. cc }

  Advances-trans : (c d e : CatalogRecord) → Advances c d → Advances d e → Advances c e
  Advances-trans c d e h k = record {
    forward = NotAbove-trans c d e h.forward k.forward;
    fence = λ a b. elim (Bool-cases (is_tombstoned d)) [
      | inl t ↦ omega (arith, k.fence t b, NotAbove-epoch c d h.forward)
      | inr f ↦ omega (arith, h.fence a f, NotAbove-epoch d e k.forward)
    ];
  }

  admit-Advances :
      (r c : CatalogRecord) → against_current r (hash r) c (hash c) ≡ admit → Advances c r
  unfolding against_current order
  admit-Advances r c h = record {
    forward = ground (arith, flip-compare_str (hash c) (hash r));
    fence = ground arith;
  }

  -- The deployment `k` is known by a record that advances `c`.
  abbrev pub Holds : String → CatalogRecord → CatalogView → Type 0
  Holds k c v = (d : CatalogRecord) × (lookup k v.records ≡ some d) × Advances c d

  verdict-admit :
      (v : CatalogView) (r c : CatalogRecord)
      → verdict hash v r ≡ admit
      → lookup r.deployment_id v.records ≡ some c
      → against_current r (hash r) c (hash c) ≡ admit
  unfolding verdict
  verdict-admit v r c h at = ground arith

  insert-Holds :
      (k : String) (c d : CatalogRecord) (v v' : CatalogView) (r : CatalogRecord)
      → verdict hash v r ≡ admit
      → v'.records ≡ insert r.deployment_id r v.records
      → lookup k v.records ≡ some d
      → Advances c d
      → Holds k c v'
  insert-Holds k c d v v' r a e at w = elim (Bool-cases (str_eq k r.deployment_id)) [
    | inl t ↦
        let same = (eq_iff k r.deployment_id).0 t in
        let next = admit-Advances r d (verdict-admit v r d a (rw same at at)) in
        (r, rw (e, lookup-insert, t) refl, Advances-trans c d r w next)
    | inr f ↦ (d, rw (e, lookup-insert, f) at, w)
  ]

  module _ (project_id : String) (epoch : ℕ) (members : MembershipView) where
    Holds-apply :
        (k : String) (c : CatalogRecord)
        → (v v' : CatalogView) (r : CatalogRecord) (provenance : RecordProvenance)
          (o : CatalogApply)
        → Holds k c v
        → apply hash v r provenance project_id epoch members ≡ ok (v', o)
        → Holds k c v'
    Holds-apply k c v v' r provenance o (d, at, w) h =
        effect (apply-Effect hash v r provenance project_id epoch members v' o h)
      where
        effect : Effect hash v r v' → Holds k c v'
        effect (kept e) = (d, rw e at, w)
        effect (stored a e) = insert-Holds k c d v v' r a e at w

    -- Whatever records are applied, a known deployment stays known, its record never goes back in
    -- the order of epoch, revision, tombstone and id, and from a tombstone only a higher owner
    -- epoch leads back to another state.
    pub catalog_fence :
        (v v' : CatalogView) (rs : List (CatalogRecord × RecordProvenance))
        → (k : String) (c : CatalogRecord) → lookup k v.records ≡ some c
        → apply_all hash v rs project_id epoch members ≡ ok v'
        → Holds k c v'
    catalog_fence v v' rs k c at h =
        apply_all_induction hash project_id epoch members (Holds k c) (Holds-apply k c) v v' rs
          (c, at, Advances-refl c) h

-- A record that is not below the epoch of its replica is not below that of any of its records.
max_with-epoch :
    (n e : ℕ) (rest : Option ℕ)
    → below_epoch n (max_with e rest) ≡ false
    → (e ≤ n) × (below_epoch n rest ≡ false)
max_with-epoch n e rest h = ground arith

replica_epoch-le :
    (n : ℕ) (id : String) (cs : List CatalogRecord) (c : CatalogRecord)
    → below_epoch n (replica_owner_epoch id cs) ≡ false
    → In c cs
    → c.replica_id ≡ id
    → c.owner_epoch ≤ n
unfolding replica_owner_epoch
replica_epoch-le n id [] c h i e = elim i [ ]
replica_epoch-le n id (d ∷ cs) c h (inl s) e =
    let same = (eq_iff d.replica_id id).1 (subst (λ x. x.replica_id ≡ id) s e) in
    let first = max_with-epoch n d.owner_epoch (replica_owner_epoch id cs) (rw same at h) in
    rw s first.0
replica_epoch-le n id (d ∷ cs) c h (inr m) e = elim (Bool-cases (str_eq d.replica_id id)) [
  | inl t ↦
      let first = max_with-epoch n d.owner_epoch (replica_owner_epoch id cs) (rw t at h) in
      replica_epoch-le n id cs c first.1 m e
  | inr f ↦ replica_epoch-le n id cs c (rw f at h) m e
]

verdict-epoch :
    (hash : CatalogRecord → String) (v : CatalogView) (r : CatalogRecord)
    → verdict hash v r ≡ admit
    → below_epoch r.owner_epoch (replica_owner_epoch r.replica_id (values v.records)) ≡ false
unfolding verdict
verdict-epoch hash v r h = ground arith

-- A record that enters the table has at least the owner epoch of every record of its replica.
pub applied_not_stale :
    (hash : CatalogRecord → String) (v v' : CatalogView) (r : CatalogRecord)
    (provenance : RecordProvenance) (project_id : String) (epoch : ℕ) (members : MembershipView)
    → (k : String) (c : CatalogRecord)
    → apply hash v r provenance project_id epoch members ≡ ok (v', applied)
    → lookup k v.records ≡ some c
    → c.replica_id ≡ r.replica_id
    → c.owner_epoch ≤ r.owner_epoch
applied_not_stale hash v v' r provenance project_id epoch members k c h at same =
    replica_epoch-le r.owner_epoch r.replica_id (values v.records) c
      (verdict-epoch hash v r (apply-admit hash v r provenance project_id epoch members v' h))
      (lookup-In k v.records c at) same

verify-authenticate :
    (r : CatalogRecord) (provenance : RecordProvenance) (project_id : String) (epoch : ℕ)
    (members : MembershipView)
    → verify r provenance project_id epoch members ≡ ok tt
    → authenticate members provenance r.owner_node_id ≡ ok tt
unfolding verify
verify-authenticate r provenance project_id epoch members h = ground arith

-- What a peer sends is accepted only if it came from the management address of the member that the
-- record names as its owner.
pub peer_owns_record :
    (hash : CatalogRecord → String) (v v' : CatalogView) (r : CatalogRecord) (source : SocketAddr)
    (project_id : String) (epoch : ℕ) (members : MembershipView) (o : CatalogApply)
    → apply hash v r (peer source) project_id epoch members ≡ ok (v', o)
    → (a : Ipv4Addr) × (m : MembershipRecord) × (source.ip ≡ v4 a)
      × In m (values members.records)
      × (m.management_address ≡ a)
      × (m.node_id ≡ r.owner_node_id)
peer_owns_record hash v v' r source project_id epoch members o h =
    authenticate-ok members source r.owner_node_id (
      verify-authenticate r (peer source) project_id epoch members
        (apply-verify hash v r (peer source) project_id epoch members (v', o) h))
