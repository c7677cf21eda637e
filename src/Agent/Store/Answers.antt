-- ===== src/Agent/Store/Answers.antt =====
-- Every answer of `apply_membership`, and what it leaves: crates/jiji-agent/src/store.rs.
use jiji.Common.{
  ℕ, ◌≤◌, ◌<◌, ◌≡◌, ◌⊎◌, ◌↔◌, refl, inl, inr, true, false, some, List, [], ◌∷◌, ◌++◌, map, String,
  str_eq, eq_iff, Result, ok, err, arith, subst, sym, Bool-cases, Option-cases, Result-cases, any,
  In, leb,
}
use jiji.Common.Map.{lookup}
use jiji.Agent.Membership as Membership
use jiji.Agent.Membership.{
  MembershipRecord, MembershipScope, MembershipApply, MembershipView, MembershipError, from_records,
}
use jiji.Agent.Store.{
  Row, Log, AgentStore, StoreError, recorded, contents, apply_membership, members_won,
  ensure_replication_capacity, membership_refused, quota_exceeded,
}
use jiji.Agent.Store.Replays.{commit-eq-none}
use jiji.Agent.Store.Members.{IsRebuilt, row_of, row, finish, commit-replays, apply_membership-view}

module _ {R : Type 0} where
  abbrev pub ids : List (Row R) → List String
  ids rows = map (λ (row : Row R). row.operation_id) rows

  recorded_iff : (id : String) (rows : List (Row R)) → (recorded id rows ≡ true) ↔ In id (ids rows)
  unfolding recorded any
  recorded_iff id [] = (λ h. ground (arith, h), λ i. elim i [ ])
  recorded_iff id (x ∷ rows) =
      let later = recorded_iff id rows in
      (
        λ h. elim (Bool-cases (str_eq x.operation_id id)) [
          | inl t ↦ inl (sym ((eq_iff x.operation_id id).0 t))
          | inr f ↦ inr (later.0 (ground (arith, f, h)))
        ],
        λ i. elim i [
          | inl e ↦ ground (arith, (eq_iff x.operation_id id).1 (sym e))
          | inr j ↦ ground (arith, later.1 j)
        ],
      )

module _ (hash : MembershipRecord → String) (scope : MembershipScope) (usage : AgentStore → ℕ)
    (store : AgentStore) (r : MembershipRecord) (view : MembershipView) where
  -- The database is below its soft quota, if it has one.
  abbrev pub HasRoom : Type 0
  HasRoom = (quota : ℕ) → store.soft_quota_bytes ≡ some quota → usage store < quota

  -- The answers, each with the condition under which it is given.
  pub data Answered : Result StoreError (AgentStore × MembershipApply) → Type 0 where
    repeated :
        In (hash r) (ids store.membership.operations)
        → Answered (ok (store, MembershipApply.duplicate))
    over_quota :
        (quota : ℕ)
        → ¬ (In (hash r) (ids store.membership.operations))
        → store.soft_quota_bytes ≡ some quota
        → quota ≤ usage store
        → Answered (err (quota_exceeded (usage store) quota))
    refused :
        (e : MembershipError)
        → ¬ (In (hash r) (ids store.membership.operations))
        → HasRoom
        → Membership.apply hash view r scope ≡ err e
        → Answered (err (membership_refused e))
    recorded_in :
        (log : Log MembershipRecord) (view' : MembershipView) (o : MembershipApply)
        → ¬ (In (hash r) (ids store.membership.operations))
        → HasRoom
        → Membership.apply hash view r scope ≡ ok (view', o)
        → log.operations ≡ store.membership.operations ++ (row hash scope r ∷ [])
        → from_records hash (contents log.operations) scope ≡ ok view'
        → ((k : String) → lookup k log.winners ≡ row_of hash scope (lookup k view'.records))
        → Answered (ok (record store { membership = log }, o))

  missing :
      recorded (hash r) store.membership.operations ≡ false
      → ¬ (In (hash r) (ids store.membership.operations))
  missing f i = ground (arith, f, (recorded_iff (hash r) store.membership.operations).1 i)

  room_cases :
      ((quota : ℕ) × (store.soft_quota_bytes ≡ some quota)
        × (quota ≤ usage store)
        × (ensure_replication_capacity usage store ≡ err (quota_exceeded (usage store) quota)))
      ⊎ (HasRoom × (ensure_replication_capacity usage store ≡ ok tt))
  unfolding ensure_replication_capacity
  room_cases = elim (Option-cases store.soft_quota_bytes) [
    | inl n ↦ inr (λ quota h. ground (arith, n, h), ground (arith, n))
    | inr q ↦ elim (Bool-cases (leb q.0 (usage store))) [
      | inl t ↦ inl (q.0, q.1, ground (arith, t), ground (arith, q.1, t))
      | inr f ↦ inr (λ quota h. ground (arith, q.1, h, f), ground (arith, q.1, f))
    ]
  ]

module _ (hash : MembershipRecord → String) (scope : MembershipScope) (usage : AgentStore → ℕ)
    (store : AgentStore) (r : MembershipRecord) (b : IsRebuilt hash scope store.membership) where
  Answer : Result StoreError (AgentStore × MembershipApply) → Type 0
  Answer = Answered hash scope usage store r b.view

  finish-Answered :
      (p : MembershipView × MembershipApply)
      → recorded (hash r) store.membership.operations ≡ false
      → HasRoom hash scope usage store r b.view
      → Membership.apply hash b.view r scope ≡ ok p
      → Answer (finish hash scope usage store r p)
  unfolding Answer
  finish-Answered p f room a =
      let done = commit-eq-none store.membership r.node_id (row hash scope r) (members_won p.1) f in
      let after = commit-replays hash scope store.membership _ r b p a done in
      rw (finish, done)
        (recorded_in _ p.0 p.1 (missing hash scope usage store r b.view f) room a refl after.0
          after.1)

  -- On a membership log that replays to a view, which its table of winners mirrors, `apply_membership` of
  -- a record answers: that it is a duplicate, exactly if an operation of the log has its id; else that the
  -- quota is exceeded, exactly if there is one that the usage has reached; else the error of the
  -- view's `apply`; else what that `apply` answers, and then the log has one more row, the record's,
  -- replays to the new view, and its table of winners mirrors that view. The rest of the store stays.
  pub apply_membership-Answered :
      Answered hash scope usage store r b.view (apply_membership usage hash store r scope)
  unfolding Answer
  apply_membership-Answered =
      subst Answer (sym (apply_membership-view hash scope usage store r b))
        (elim (Bool-cases (recorded (hash r) store.membership.operations)) [
          | inl t ↦ rw t (repeated ((recorded_iff (hash r) store.membership.operations).0 t))
          | inr f ↦ rw f (elim (room_cases hash scope usage store r b.view) [
            | inl q ↦ rw (q.3) (over_quota q.0 (missing hash scope usage store r b.view f) q.1 q.2)
            | inr room ↦ rw (room.1) (elim (Result-cases (Membership.apply hash b.view r scope)) [
              | inl e ↦
                  rw (e.1) (refused e.0 (missing hash scope usage store r b.view f) room.0 e.1)
              | inr p ↦ rw (p.1) (finish-Answered p.0 f room.0 p.1)
            ])
          ])
        ])
