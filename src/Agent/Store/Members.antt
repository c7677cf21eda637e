-- ===== src/Agent/Store/Members.antt =====
-- The log of the members: its replay never fails, and gives the table of the winners.
-- crates/jiji-agent/src/store.rs, `apply_membership`.
use jiji.Common.{
  ℕ, ◌≡◌, refl, inl, inr, Bool, true, false, Option, none, some, List, [], ◌∷◌, ◌++◌, String, arith,
  ok, Result, >>=-eq-ok, subst, if◌then◌else◌, Bool-cases, Option-cases, ◌>>=◌, map_err,
  map_err-eq-ok,
}
use jiji.Common.Map.{Map, lookup, insert, lookup-insert}
use jiji.Agent.Membership as Membership
use jiji.Agent.Membership.{
  MembershipRecord, MembershipScope, MembershipApply, MembershipView, MembershipError, apply_all,
  from_records, empty_view, Verdict, verdict, settle, conclude,
}
use jiji.Agent.Store.{
  Row, Log, AgentStore, StoreError, recorded, contents, commit, apply_membership, members_won,
  ensure_replication_capacity, membership_refused,
}
use jiji.Agent.Store.Replays.{contents-append, commit-eq-some}

module _ (hash : MembershipRecord → String) (scope : MembershipScope) where
  abbrev pub row_of : Option MembershipRecord → Option (Row MembershipRecord)
  row_of none = none
  row_of (some r) = some record { operation_id = hash r; content = r }

  -- The replay of the operations succeeds, and the table of the winners holds what the view holds.
  pub record IsRebuilt (log : Log MembershipRecord) : Type 0 where
    pub view : MembershipView
    pub replays : from_records hash (contents log.operations) scope ≡ ok view
    pub same : (k : String) → lookup k log.winners ≡ row_of (lookup k view.records)

  conclude-won :
      (v v' : MembershipView) (r : MembershipRecord) (d : Verdict MembershipError)
      (o : MembershipApply)
      → conclude hash v r d ≡ ok (v', o)
      → v'.records ≡ (if members_won o then insert r.node_id r v.records else v.records)
  unfolding conclude settle
  conclude-won v v' r d o h = ground arith

  apply-won :
      (v v' : MembershipView) (r : MembershipRecord) (o : MembershipApply)
      → Membership.apply hash v r scope ≡ ok (v', o)
      → v'.records ≡ (if members_won o then insert r.node_id r v.records else v.records)
  unfolding Membership.apply
  apply-won v v' r o h = ground (arith, conclude-won v v' r (verdict hash v r) o)

  apply_all-append :
      (v w : MembershipView) (rs : List MembershipRecord) (r : MembershipRecord)
      (p : MembershipView × MembershipApply)
      → apply_all hash v rs scope ≡ ok w
      → Membership.apply hash w r scope ≡ ok p
      → apply_all hash v (rs ++ (r ∷ [])) scope ≡ ok p.0
  unfolding apply_all
  apply_all-append v w [] r p h e = ground arith
  apply_all-append v w (x ∷ rs) r p h e =
      let first = >>=-eq-ok (Membership.apply hash v x scope) _ h in
      rw (first.1) (apply_all-append first.0.0 w rs r p first.2 e)

  same-won :
      (winners : Map (Row MembershipRecord)) (m : Map MembershipRecord) (r : MembershipRecord)
      (won : Bool) (k : String)
      → lookup k winners ≡ row_of (lookup k m)
      → lookup k (
          if won
          then insert r.node_id record { operation_id = hash r; content = r } winners
          else winners)
        ≡ row_of (lookup k (if won then insert r.node_id r m else m))
  same-won winners m r true k h =
      rw (lookup-insert k r.node_id _ winners, lookup-insert k r.node_id r m) (ground arith)
  same-won winners m r false k h = h

  replayed :
      (rs : List MembershipRecord) (view : MembershipView) (r : MembershipRecord)
      (p : MembershipView × MembershipApply)
      → from_records hash rs scope ≡ ok view
      → Membership.apply hash view r scope ≡ ok p
      → from_records hash (rs ++ (r ∷ [])) scope ≡ ok p.0
  unfolding from_records
  replayed rs view r p h a = apply_all-append empty_view view rs r p h a

  abbrev pub row : MembershipRecord → Row MembershipRecord
  row r = record { operation_id = hash r; content = r }

  pub commit-replays :
      (log log' : Log MembershipRecord) (r : MembershipRecord) (b : IsRebuilt log)
      (p : MembershipView × MembershipApply)
      → Membership.apply hash b.view r scope ≡ ok p
      → commit log r.node_id (row r) (members_won p.1) ≡ some log'
      → (from_records hash (contents log'.operations) scope ≡ ok p.0)
        × ((k : String) → lookup k log'.winners ≡ row_of (lookup k p.0.records))
  commit-replays log log' r b p a h =
      let won = apply-won b.view p.0 r p.1 a in
      rw (commit-eq-some log log' r.node_id (row r) (members_won p.1) h) (
        rw (contents-append log.operations (row r))
            (replayed (contents log.operations) b.view r p b.replays a),
        λ k. rw won (same-won log.winners b.view.records r (members_won p.1) k (b.same k)),
      )

  commit-IsRebuilt :
      (log log' : Log MembershipRecord) (r : MembershipRecord) (b : IsRebuilt log)
      (p : MembershipView × MembershipApply)
      → Membership.apply hash b.view r scope ≡ ok p
      → commit log r.node_id (row r) (members_won p.1) ≡ some log'
      → IsRebuilt log'
  commit-IsRebuilt log log' r b p a h =
      let c = commit-replays log log' r b p a h in record { view = p.0; replays = c.0; same = c.1 }

  module _ (usage : AgentStore → ℕ) (store : AgentStore) (r : MembershipRecord) where
    abbrev pub finish :
        MembershipView × MembershipApply → Result StoreError (AgentStore × MembershipApply)
    finish p = elim (commit store.membership r.node_id (row r) (members_won p.1)) [
      | none ↦ ok (store, MembershipApply.duplicate)
      | some log ↦ ok (record store { membership = log }, p.1)
    ]

    -- On a log that replays to a view, `apply_membership` is that view's `apply` behind the tests for
    -- a repeated record and of the quota, for every record and every outcome.
    pub apply_membership-view :
        (b : IsRebuilt store.membership)
        → apply_membership usage hash store r scope ≡ (
            if recorded (hash r) store.membership.operations
            then ok (store, MembershipApply.duplicate)
            else (ensure_replication_capacity usage store >>= λ _.
                map_err membership_refused (Membership.apply hash b.view r scope) >>= finish))
    unfolding apply_membership
    apply_membership-view b = rw (b.replays) refl

    finish-IsRebuilt :
        (store' : AgentStore) (o : MembershipApply) (b : IsRebuilt store.membership)
        (p : MembershipView × MembershipApply)
        → Membership.apply hash b.view r scope ≡ ok p
        → finish p ≡ ok (store', o)
        → IsRebuilt store'.membership
    finish-IsRebuilt store' o b p a h =
        elim (Option-cases (commit store.membership r.node_id (row r) (members_won p.1))) [
          | inl e ↦
              subst (λ (s : AgentStore). IsRebuilt s.membership)
                (let done : store ≡ store' = ground arith in done) b
          | inr c ↦
              subst (λ (s : AgentStore). IsRebuilt s.membership)
                (let done : record store { membership = c.0 } ≡ store' = ground arith in done)
                (commit-IsRebuilt store.membership c.0 r b p a c.1)
        ]

    -- A log that replays to its table of winners still does after any successful call of
    -- `apply_membership`.
    pub apply_membership-IsRebuilt :
        (store' : AgentStore) (o : MembershipApply)
        → IsRebuilt store.membership
        → apply_membership usage hash store r scope ≡ ok (store', o)
        → IsRebuilt store'.membership
    apply_membership-IsRebuilt store' o b h =
        elim (Bool-cases (recorded (hash r) store.membership.operations)) [
          | inl t ↦
              subst (λ (s : AgentStore). IsRebuilt s.membership)
                (let e = rw (apply_membership-view b, t) at h in
                  let done : store ≡ store' = ground arith in done)
                b
          | inr f ↦ fresh (rw (apply_membership-view b, f) at h)
        ]
      where
        fresh :
            (ensure_replication_capacity usage store >>= λ _.
            map_err membership_refused (Membership.apply hash b.view r scope) >>= finish)
              ≡ ok (store', o)
            → IsRebuilt store'.membership
        fresh e =
            let room = >>=-eq-ok (ensure_replication_capacity usage store) _ e in
            let step =
              >>=-eq-ok (map_err membership_refused (Membership.apply hash b.view r scope)) finish
                room.2 in
            finish-IsRebuilt store' o b step.0
              (map_err-eq-ok membership_refused (Membership.apply hash b.view r scope) step.0
                step.1)
              step.2
