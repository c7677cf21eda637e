-- ===== src/Agent/Store/Scales.antt =====
-- The log of the scale: what its replay asks of the authors of every record in it.
-- crates/jiji-agent/src/store.rs, `apply_desired`; crates/jiji-agent/src/desired.rs, `verify`.
use jiji.Common.{
  ℕ, ◌≡◌, inl, inr, false, some, List, [], ◌∷◌, String, arith, ok, >>=-eq-ok, map_err-eq-ok,
  map_err, In, Option-cases,
}
use jiji.Agent.Membership.{MembershipRecord, MembershipView, RecordProvenance, verified, get}
use jiji.Agent.Desired as Desired
use jiji.Agent.Desired.{
  DesiredStateRecord, DesiredStateView, DesiredApply, validate, verify, apply_all, from_records,
  empty_view,
}
use jiji.Agent.Store.{
  AgentStore, recorded, contents, apply_desired, as_verified, ensure_replication_capacity,
  desired_refused,
}

-- The author of the record is a member, in the owner epoch that the record names.
pub record IsCurrentAuthor (members : MembershipView) (r : DesiredStateRecord) : Type 0 where
  pub author : MembershipRecord
  pub known : get members r.author_node_id ≡ some author
  pub epoch : author.owner_epoch ≡ r.author_epoch

module _ (hash : DesiredStateRecord → String) (project_id : String) (epoch : ℕ)
    (members : MembershipView) where
  verify-IsCurrentAuthor :
      (r : DesiredStateRecord) (q : RecordProvenance)
      → verify r q project_id epoch members ≡ ok tt
      → IsCurrentAuthor members r
  unfolding verify
  verify-IsCurrentAuthor r q h = elim (Option-cases (get members r.author_node_id)) [
    | inl e ↦ absurd (ground (arith, e))
    | inr a ↦ record { author = a.0; known = a.1; epoch = ground (arith, a.1) }
  ]

  apply-IsCurrentAuthor :
      (v : DesiredStateView) (r : DesiredStateRecord) (q : RecordProvenance)
      (p : DesiredStateView × DesiredApply)
      → Desired.apply hash v r q project_id epoch members ≡ ok p
      → IsCurrentAuthor members r
  unfolding Desired.apply
  apply-IsCurrentAuthor v r q p h = verify-IsCurrentAuthor r q (ground arith)

  apply_all-IsCurrentAuthor :
      (v w : DesiredStateView) (rs : List DesiredStateRecord) (r : DesiredStateRecord)
      → apply_all hash v (as_verified rs) project_id epoch members ≡ ok w
      → In r rs
      → IsCurrentAuthor members r
  unfolding apply_all
  apply_all-IsCurrentAuthor v w [] r h i = elim i [ ]
  apply_all-IsCurrentAuthor v w (x ∷ rs) r h i =
      let first = >>=-eq-ok (Desired.apply hash v x verified project_id epoch members) _ h in
      let later = apply_all-IsCurrentAuthor first.0.0 w rs r first.2 in
      elim i [ inl e ↦ rw e (apply-IsCurrentAuthor v x verified first.0 first.1) | inr j ↦ later j ]

  replay-IsCurrentAuthor :
      (w : DesiredStateView) (rs : List DesiredStateRecord) (r : DesiredStateRecord)
      → from_records hash (as_verified rs) project_id epoch members ≡ ok w
      → In r rs
      → IsCurrentAuthor members r
  unfolding from_records
  replay-IsCurrentAuthor w rs r h i = apply_all-IsCurrentAuthor empty_view w rs r h i

  -- A record that the log does not hold yet is accepted only if its author, and the author of every
  -- record that the log holds, is a member in the very owner epoch that the record names: the
  -- replay of the log verifies the records of the past against the members of the present.
  pub apply_desired-IsCurrentAuthor :
      (usage : AgentStore → ℕ) (store : AgentStore) (r : DesiredStateRecord) (q : RecordProvenance)
      (p : AgentStore × DesiredApply) (x : DesiredStateRecord)
      → apply_desired usage hash store r q project_id epoch members ≡ ok p
      → recorded (hash r) store.desired.operations ≡ false
      → In x (r ∷ contents store.desired.operations)
      → IsCurrentAuthor members x
  unfolding apply_desired
  apply_desired-IsCurrentAuthor usage store r q p x h f i =
      let room = >>=-eq-ok (ensure_replication_capacity usage store) _ (rw f at h) in
      let replay =
        >>=-eq-ok
          (map_err desired_refused (
            from_records hash (as_verified (contents store.desired.operations)) project_id epoch
              members))
          _ room.2 in
      let step =
        >>=-eq-ok
          (map_err desired_refused (Desired.apply hash replay.0 r q project_id epoch members)) _
          replay.2 in
      elim i [
        | inl e ↦
            rw e
              (apply-IsCurrentAuthor replay.0 r q step.0 (map_err-eq-ok desired_refused _ _ step.1))
        | inr j ↦
            replay-IsCurrentAuthor replay.0 (contents store.desired.operations) x
              (map_err-eq-ok desired_refused _ _ replay.1) j
      ]
