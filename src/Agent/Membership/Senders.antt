-- ===== src/Agent/Membership/Senders.antt =====
-- Who a peer's records are attributed to: crates/jiji-agent/src/membership.rs, `authenticate` and
-- `find_by_management_address`.
use jiji.Common.{
  ℕ, ◌≡◌, ◌≢◌, refl, sym, inl, inr, Bool, true, false, some, some_inj, List, [], ◌∷◌, String,
  Ordering, compare_str, flip-compare_str, ok, err, arith, eq_iff, ==_iff, ◌==◌, In, find,
  Option-cases, contains, include, Bool-cases,
}
use jiji.Common.Map.{lookup, insert, values}
use jiji.Network.Cidr.{Ipv4Addr}
use jiji.Agent.Membership.{
  MembershipRecord, MembershipView, MembershipScope, applied, is_active, SocketAddr, IpAddr, v4, v6,
  peer, not_owner, authenticate, find_by_management_address, sender, validate, verdict,
  against_current, settle, conclude, apply, reject_claim_collisions,
}

find-some :
    {A : Type 0} (p : A → Bool) (xs : List A) (a : A) → find p xs ≡ some a → In a xs × (p a ≡ true)
unfolding find
find-some p [] a h = cc
find-some p (x ∷ xs) a h = elim (Bool-cases (p x)) [
  | inl t ↦ let e = some_inj x a (rw t at h) in (inl (sym e), rw (← e) t)
  | inr f ↦ let later = find-some p xs a (rw f at h) in (inr later.0, later.1)
]

sender-some :
    (v : MembershipView) (ip : IpAddr) (r : MembershipRecord)
    → sender v ip ≡ some r
    → (a : Ipv4Addr) × (ip ≡ v4 a) × (find_by_management_address v a ≡ some r)
unfolding sender
sender-some v (v4 a) r h = (a, refl, h)
sender-some v (v6 a) r h = cc

-- A peer's record that is let through came over IPv4 from the management address of a known
-- member, and that member is the owner that the record claims.
pub authenticate-ok :
    (v : MembershipView) (source : SocketAddr) (owner : String)
    → authenticate v (peer source) owner ≡ ok tt
    → (a : Ipv4Addr) × (r : MembershipRecord) × (source.ip ≡ v4 a)
      × In r (values v.records)
      × (r.management_address ≡ a)
      × (r.node_id ≡ owner)
unfolding authenticate
authenticate-ok v source owner h =
    let found = attributed in
    let origin = sender-some v source.ip found.0 found.1 in
    let known =
      find-some (λ r. r.management_address == origin.0) (values v.records) found.0
        (unfold find_by_management_address in origin.2) in
    (origin.0, found.0, origin.1, known.0, (==_iff _ _).0 known.1, found.2)
  where
    attributed : (r : MembershipRecord) × (sender v source.ip ≡ some r) × (r.node_id ≡ owner)
    attributed = elim (Option-cases (sender v source.ip)) [
      | inl no_one ↦ absurd (ground arith)
      | inr (r, e) ↦ (r, e, ground (arith, eq_iff r.node_id owner))
    ]

-- A tombstoned member keeps its management address. Where a valid record of a new node takes that address
-- over, its id comes later and its content hash is another than the tombstone's, the view admits
-- the node, refuses what it sends as its own, and lets it speak for the node that was removed.
pub replaced_node_refused :
    (hash : MembershipRecord → String) (scope : MembershipScope) (old r : MembershipRecord)
    (port : ℕ)
    → is_active old ≡ false
    → compare_str old.node_id r.node_id ≡ Ordering.lt
    → r.management_address ≡ old.management_address
    → validate r ≡ ok tt
    → r.project_id ≡ scope.project_id
    → r.recovery_epoch ≡ scope.recovery_epoch
    → hash r ≢ hash old
    → let v : MembershipView = record {
      records = (old.node_id, old) ∷ [];
      record_ids = hash old ∷ [];
    } in
      let source : SocketAddr = record { ip = v4 r.management_address; port = port } in
      (v' : MembershipView) × (apply hash v r scope ≡ ok (v', applied))
      × (authenticate v' (peer source) r.node_id ≡ err not_owner)
      × (authenticate v' (peer source) old.node_id ≡ ok tt)
unfolding apply verdict against_current conclude settle reject_claim_collisions include insert
    lookup authenticate contains find_by_management_address
replaced_node_refused hash scope old r port gone lt address fine project epoch fresh = (
  record {
    records = (old.node_id, old) ∷ (r.node_id, r) ∷ [];
    record_ids = hash r ∷ hash old ∷ [];
  },
  ground (
    arith,
    flip-compare_str old.node_id r.node_id,
    eq_iff r.node_id old.node_id,
    eq_iff r.project_id scope.project_id,
    eq_iff (hash r) (hash old),
  ),
  ground (arith, eq_iff r.node_id old.node_id, eq_iff old.node_id r.node_id),
  ground (arith, eq_iff old.node_id old.node_id),
)
