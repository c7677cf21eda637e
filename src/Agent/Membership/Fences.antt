-- ===== src/Agent/Membership/Fences.antt =====
-- The winning record of a node only moves forward, and a tombstone fences its owner epoch.
-- crates/jiji-agent/src/membership.rs, `apply` and `order`.
use text.Mathlib.TextPositions.{eq_refl}
use jiji.Common.{
  ◌≤◌, ◌<◌, ◌≡◌, refl, inl, inr, true, false, some, List, String, ok, arith, eq_iff, Bool-cases,
  str_eq, is_le, is_le_trans, Chains-then, Chains-compare, Chains-compare_str, flip-compare_str,
}
use jiji.Common.Map.{lookup, insert, lookup-insert}
use jiji.Agent.Membership.{
  MembershipRecord, MembershipView, MembershipScope, MembershipApply, is_active, record_order,
  tombstone_rank, against_current, admit, verdict, apply, apply_all,
}
use jiji.Agent.Membership.Steps.{Effect, kept, stored, apply-Effect, apply_all_induction}

module _ (hash : MembershipRecord → String) where
  -- `c` is not above `d` in the order in which records win.
  abbrev pub NotAbove : MembershipRecord → MembershipRecord → Type 0
  NotAbove c d = is_le (record_order c (hash c) d (hash d)) ≡ true

  NotAbove-refl : (c : MembershipRecord) → NotAbove c c
  unfolding record_order
  NotAbove-refl c = ground (arith, eq_refl (hash c))

  NotAbove-trans : (c d e : MembershipRecord) → NotAbove c d → NotAbove d e → NotAbove c e
  unfolding record_order
  NotAbove-trans c d e = is_le_trans _ _ _ (
      Chains-then _ _ _ _ _ _ (Chains-compare c.owner_epoch d.owner_epoch e.owner_epoch) (
        Chains-then _ _ _ _ _ _ (Chains-compare c.revision d.revision e.revision) (
          Chains-then _ _ _ _ _ _
            (Chains-compare (tombstone_rank c.state) (tombstone_rank d.state)
              (tombstone_rank e.state))
            (Chains-compare_str (hash c) (hash d) (hash e)))))

  NotAbove-epoch : (c d : MembershipRecord) → NotAbove c d → c.owner_epoch ≤ d.owner_epoch
  unfolding record_order
  NotAbove-epoch c d h = ground arith

  -- What may take the place of the record `c`.
  pub record Advances (c d : MembershipRecord) : Type 0 where
    pub forward : NotAbove c d
    pub fence : is_active c ≡ false → is_active d ≡ true → c.owner_epoch < d.owner_epoch

  Advances-refl : (c : MembershipRecord) → Advances c c
  Advances-refl c = record { forward = NotAbove-refl c; fence = λ a b. cc }

  Advances-trans : (c d e : MembershipRecord) → Advances c d → Advances d e → Advances c e
  Advances-trans c d e h k = record {
    forward = NotAbove-trans c d e h.forward k.forward;
    fence = λ a b. elim (Bool-cases (is_active d)) [
      | inl t ↦ omega (arith, h.fence a t, NotAbove-epoch d e k.forward)
      | inr f ↦ omega (arith, k.fence f b, NotAbove-epoch c d h.forward)
    ];
  }

  -- A record that is admitted against `c` advances it.
  admit-Advances :
      (r c : MembershipRecord) → against_current r (hash r) c (hash c) ≡ admit → Advances c r
  unfolding against_current record_order
  admit-Advances r c h = record {
    forward = ground (arith, flip-compare_str (hash c) (hash r));
    fence = ground arith;
  }

  -- The node `k` is known by a record that advances `c`.
  abbrev pub Holds : String → MembershipRecord → MembershipView → Type 0
  Holds k c v = (d : MembershipRecord) × (lookup k v.records ≡ some d) × Advances c d

  verdict-admit :
      (v : MembershipView) (r c : MembershipRecord)
      → verdict hash v r ≡ admit
      → lookup r.node_id v.records ≡ some c
      → Advances c r
  unfolding verdict
  verdict-admit v r c h at = admit-Advances r c (rw at at h)

  insert-Holds :
      (k : String) (c d : MembershipRecord) (v v' : MembershipView) (r : MembershipRecord)
      → verdict hash v r ≡ admit
      → v'.records ≡ insert r.node_id r v.records
      → lookup k v.records ≡ some d
      → Advances c d
      → Holds k c v'
  insert-Holds k c d v v' r a e at w = elim (Bool-cases (str_eq k r.node_id)) [
    | inl t ↦
        let same = (eq_iff k r.node_id).0 t in
        (
          r,
          rw (e, lookup-insert, t) refl,
          Advances-trans c d r w (verdict-admit v r d a (rw same at at)),
        )
    | inr f ↦ (d, rw (e, lookup-insert, f) at, w)
  ]

  Holds-apply :
      (scope : MembershipScope) (k : String) (c : MembershipRecord)
      → (v v' : MembershipView) (r : MembershipRecord) (o : MembershipApply) → Holds k c v
      → apply hash v r scope ≡ ok (v', o)
      → Holds k c v'
  Holds-apply scope k c v v' r o (d, at, w) h = effect (apply-Effect hash v r scope v' o h)
    where
      effect : Effect hash v r v' → Holds k c v'
      effect (kept e) = (d, rw e at, w)
      effect (stored a free e) = insert-Holds k c d v v' r a e at w

  -- Whatever records are applied, a known node stays known, its record never goes back in the
  -- order of epoch, revision, tombstone and id, and from a tombstone only a higher owner epoch
  -- leads back to an active record.
  pub apply_all-Advances :
      (scope : MembershipScope) (v v' : MembershipView) (rs : List MembershipRecord)
      → (k : String) (c : MembershipRecord) → lookup k v.records ≡ some c
      → apply_all hash v rs scope ≡ ok v'
      → Holds k c v'
  apply_all-Advances scope v v' rs k c at h =
      apply_all_induction hash scope (Holds k c) (Holds-apply scope k c) v v' rs
        (c, at, Advances-refl c) h
