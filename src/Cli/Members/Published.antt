-- ===== src/Cli/Members/Published.antt =====
-- What the agents make of the records that the CLI publishes: none of them comes too late.
-- crates/jiji-cli/src/commands/network/membership.rs against crates/jiji-agent/src/membership.rs.
use jiji.Common.{
  ℕ, ◌+◌, ◌<◌, ◌^◌, ◌≡◌, refl, inl, inr, Bool, true, false, Option, none, some, List, [], ◌∷◌,
  String, arith, Bool-cases, Option-cases, subst, ◌∙◌, ◌⊎◌, In, keep, contains, if◌then◌else◌,
}
use jiji.Common.Map.{lookup, values, AllPairs, Ascending, In-lookup}
use jiji.Agent.Membership.{
  MembershipRecord, MembershipView, admit, verdict, against_current, is_active,
}
use jiji.Network.Cidr.{u64}
use jiji.Cli.Members.{reconcile_record, tombstoned, all_tombstoned, compute_decommissions}

u64-small : (n : ℕ) → n < 2 ^ 64 → u64 n ≡ n
u64-small n h = omega arith

-- The record that follows `c` for the same node is active, and stands in a later owner epoch, or in
-- the same one of an active record with a later revision.
reconciled :
    (c r candidate : MembershipRecord)
    → reconcile_record (some c) candidate ≡ some r
    → c.owner_epoch + 1 < 2 ^ 64
    → c.revision + 1 < 2 ^ 64
    → (is_active r ≡ true)
      × (r.node_id ≡ candidate.node_id)
      × ((r.owner_epoch ≡ c.owner_epoch + 1)
          ⊎ ((r.owner_epoch ≡ c.owner_epoch)
              × (r.revision ≡ c.revision + 1)
              × (is_active c ≡ true)))
unfolding reconcile_record
reconciled c r candidate h e v =
    ground (arith, u64-small (c.owner_epoch + 1) e, u64-small (c.revision + 1) v)

later_epoch :
    (c r : MembershipRecord) (i j : String)
    → r.owner_epoch ≡ c.owner_epoch + 1
    → against_current r i c j ≡ admit
unfolding against_current
later_epoch c r i j h = ground arith

later_revision :
    (c r : MembershipRecord) (i j : String)
    → r.owner_epoch ≡ c.owner_epoch
    → r.revision ≡ c.revision + 1
    → (is_active c ≡ false → is_active r ≡ false)
    → against_current r i c j ≡ admit
unfolding against_current
later_revision c r i j h k a = ground arith

module _ (hash : MembershipRecord → String) where
  verdict-known :
      (v : MembershipView) (r c : MembershipRecord)
      → lookup r.node_id v.records ≡ some c
      → verdict hash v r ≡ against_current r (hash r) c (hash c)
  unfolding verdict
  verdict-known v r c h = rw h refl

  verdict-unknown :
      (v : MembershipView) (r : MembershipRecord)
      → lookup r.node_id v.records ≡ none
      → verdict hash v r ≡ admit
  unfolding verdict
  verdict-unknown v r h = rw h refl

  reconciled-admit :
      (v : MembershipView) (c r candidate : MembershipRecord)
      → lookup r.node_id v.records ≡ some c
      → reconcile_record (some c) candidate ≡ some r
      → c.owner_epoch + 1 < 2 ^ 64
      → c.revision + 1 < 2 ^ 64
      → verdict hash v r ≡ admit
  reconciled-admit v c r candidate at h e w =
      let next = reconciled c r candidate h e w in
      verdict-known v r c at ∙ elim next.2 [
        | inl epoch ↦ later_epoch c r (hash r) (hash c) epoch
        | inr same ↦
            later_revision c r (hash r) (hash c) same.0 same.1
              (λ f. absurd (ground (arith, same.2)))
      ]

  reconciled-node :
      (r candidate : MembershipRecord) (o : Option MembershipRecord)
      → reconcile_record o candidate ≡ some r
      → r.node_id ≡ candidate.node_id
  unfolding reconcile_record
  reconciled-node r candidate none h = ground arith
  reconciled-node r candidate (some c) h = ground arith

  -- What `reconcile_record` publishes over the record that a view holds of the node is admitted by
  -- that view's `apply`: it is not stale, does not lose, and resurrects nothing in its epoch. The
  -- epoch and the revision of the record that it follows are below their last value.
  pub reconcile_record-admit :
      (v : MembershipView) (r candidate : MembershipRecord)
      → reconcile_record (lookup candidate.node_id v.records) candidate ≡ some r
      → ((c : MembershipRecord)
          → lookup candidate.node_id v.records ≡ some c
          → (c.owner_epoch + 1 < 2 ^ 64) × (c.revision + 1 < 2 ^ 64))
      → verdict hash v r ≡ admit
  reconcile_record-admit v r candidate h bounds =
      let node = reconciled-node r candidate (lookup candidate.node_id v.records) h in
      elim (Option-cases (lookup candidate.node_id v.records)) [
        | inl e ↦ verdict-unknown v r (rw node e)
        | inr c ↦
            reconciled-admit v c.0 r candidate (rw node c.1)
              (subst (λ o. reconcile_record o candidate ≡ some r) c.1 h) (bounds c.0 c.1).0
              (bounds c.0 c.1).1
      ]

decommissioned :
    (rs : List MembershipRecord) (p : MembershipRecord → Bool) (r : MembershipRecord)
    → In r (all_tombstoned (keep p rs))
    → (c : MembershipRecord) × In c rs × (p c ≡ true) × (r ≡ tombstoned c)
unfolding keep
decommissioned [] p r i = elim i [ ]
decommissioned (x ∷ rs) p r i = elim (Bool-cases (p x)) [
  | inl t ↦
      first (decommissioned rs p r) t
        (subst (λ b. In r (all_tombstoned (if b then x ∷ keep p rs else keep p rs))) t i)
  | inr f ↦ later (
      decommissioned rs p r
        (subst (λ b. In r (all_tombstoned (if b then x ∷ keep p rs else keep p rs))) f i))
]
  where
    later :
        ((c : MembershipRecord) × In c rs × (p c ≡ true) × (r ≡ tombstoned c))
        → (c : MembershipRecord) × In c (x ∷ rs) × (p c ≡ true) × (r ≡ tombstoned c)
    later h = (h.0, inr h.1, h.2, h.3)

    first :
        (In r (all_tombstoned (keep p rs))
          → (c : MembershipRecord) × In c rs × (p c ≡ true) × (r ≡ tombstoned c))
        → p x ≡ true
        → In r (all_tombstoned (x ∷ keep p rs))
        → (c : MembershipRecord) × In c (x ∷ rs) × (p c ≡ true) × (r ≡ tombstoned c)
    first h t (inl e) = (x, inl refl, t, e)
    first h t (inr j) = later (h j)

-- `compute_decommissions` publishes only tombstones of active members whose server the
-- configuration does not name, and the view that they were computed from admits each of them. The
-- view's table is in the order of its keys, each record under its node, and the revision of the
-- member is below its last value.
pub compute_decommissions-admit :
    (hash : MembershipRecord → String) (configured : List String) (v : MembershipView)
    (r : MembershipRecord)
    → Ascending v.records
    → AllPairs (λ k c. c.node_id ≡ k) v.records
    → ((c : MembershipRecord) → In c (values v.records) → c.revision + 1 < 2 ^ 64)
    → In r (compute_decommissions configured v)
    → (c : MembershipRecord) × (lookup c.node_id v.records ≡ some c)
      × (is_active c ≡ true)
      × (contains c.server_name configured ≡ false)
      × (r ≡ tombstoned c)
      × (verdict hash v r ≡ admit)
unfolding compute_decommissions
compute_decommissions-admit hash configured v r order keyed bound i =
    let found = decommissioned (values v.records) _ r i in
    let c = found.0 in
    let at = In-lookup (λ x. x.node_id) v.records c order keyed found.1 in
    (
      c,
      at,
      ground (arith, found.2),
      ground (arith, found.2),
      found.3,
      rw (found.3) (
          verdict-known hash v (tombstoned c) c at
          ∙ later_revision c (tombstoned c) _ _ refl (u64-small (c.revision + 1) (bound c found.1))
              (λ f. refl)),
    )
