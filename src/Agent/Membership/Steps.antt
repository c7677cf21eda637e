-- ===== src/Agent/Membership/Steps.antt =====
-- What a successful `apply` has done to the table of members.
use jiji.Common.{
  ◌≡◌, refl, ◌⊎◌, inl, inr, true, String, ok, ok_inj, >>=-eq-ok, subst, List, [], ◌∷◌, arith,
}
use jiji.Common.Map.{insert}
use jiji.Agent.Membership.{
  MembershipRecord, MembershipView, MembershipScope, MembershipApply, MembershipError, is_active,
  Verdict, admit, late, refuse, verdict, settle, conclude, apply, apply_all, duplicate,
  reject_claim_collisions,
}

pub data Effect (hash : MembershipRecord → String) (v : MembershipView) (r : MembershipRecord)
    (v' : MembershipView) : Type 0 where
  kept : v'.records ≡ v.records → Effect hash v r v'
  stored :
      verdict hash v r ≡ admit
      → (is_active r ≡ true → reject_claim_collisions v r ≡ ok tt)
      → v'.records ≡ insert r.node_id r v.records
      → Effect hash v r v'

module _ (hash : MembershipRecord → String) (v : MembershipView) (r : MembershipRecord) where
  settle-Effect :
      (v' : MembershipView) (o : MembershipApply)
      → verdict hash v r ≡ admit
      → settle hash v r ≡ ok (v', o)
      → Effect hash v r v'
  unfolding settle
  settle-Effect v' o a h = stored a (ground arith) (ground arith)

  conclude-Effect :
      (d : Verdict MembershipError) (v' : MembershipView) (o : MembershipApply)
      → verdict hash v r ≡ d
      → conclude hash v r d ≡ ok (v', o)
      → Effect hash v r v'
  unfolding conclude
  conclude-Effect admit v' o a h = settle-Effect v' o a h
  conclude-Effect late v' o a h = kept (ground arith)
  conclude-Effect (refuse e) v' o a h = cc

  -- A record that passes the checks is known already, or is concluded upon.
  passed :
      (scope : MembershipScope) (p : MembershipView × MembershipApply)
      → apply hash v r scope ≡ ok p
      → (p ≡ (v, duplicate)) ⊎ (conclude hash v r (verdict hash v r) ≡ ok p)
  unfolding apply
  passed scope p h = ground arith

  pub apply-Effect :
      (scope : MembershipScope) (v' : MembershipView) (o : MembershipApply)
      → apply hash v r scope ≡ ok (v', o)
      → Effect hash v r v'
  apply-Effect scope v' o h = elim (passed scope (v', o) h) [
    | inl known ↦ kept (ground arith)
    | inr fresh ↦ conclude-Effect (verdict hash v r) v' o refl fresh
  ]

-- A property that every accepted record keeps holds of the view that a list of them builds.
module _ (hash : MembershipRecord → String) (scope : MembershipScope) (P : MembershipView → Type 0)
    (step : (v v' : MembershipView) (r : MembershipRecord) (o : MembershipApply)
      → P v
      → apply hash v r scope ≡ ok (v', o)
      → P v') where
  pub apply_all_induction :
      (v v' : MembershipView) (rs : List MembershipRecord)
      → P v
      → apply_all hash v rs scope ≡ ok v'
      → P v'
  unfolding apply_all
  apply_all_induction v v' [] h e = subst P (ok_inj v v' e) h
  apply_all_induction v v' (r ∷ rs) h e =
      let first = >>=-eq-ok (apply hash v r scope) _ e in
      apply_all_induction (first.0).0 v' rs (step v (first.0).0 r (first.0).1 h first.1) first.2
