-- ===== src/Agent/Catalog/Steps.antt =====
-- What a successful `apply` has done to the table of deployments.
use jiji.Common.{
  ◌≡◌, refl, ◌⊎◌, inl, inr, List, [], ◌∷◌, String, ℕ, ok, ok_inj, >>=-eq-ok, subst, arith,
}
use jiji.Common.Map.{insert}
use jiji.Agent.Membership.{MembershipView, RecordProvenance, Verdict, admit, late, refuse}
use jiji.Agent.Catalog.{
  CatalogRecord, CatalogView, CatalogApply, CatalogError, applied, duplicate, verify, verdict,
  conclude, apply, apply_all,
}

pub data Effect (hash : CatalogRecord → String) (v : CatalogView) (r : CatalogRecord)
    (v' : CatalogView) : Type 0 where
  kept : v'.records ≡ v.records → Effect hash v r v'
  stored :
      verdict hash v r ≡ admit
      → v'.records ≡ insert r.deployment_id r v.records
      → Effect hash v r v'

module _ (hash : CatalogRecord → String) (v : CatalogView) (r : CatalogRecord) where
  conclude-Effect :
      (d : Verdict CatalogError) (v' : CatalogView) (o : CatalogApply)
      → verdict hash v r ≡ d
      → conclude hash v r d ≡ ok (v', o)
      → Effect hash v r v'
  unfolding conclude
  conclude-Effect admit v' o a h = stored a (ground arith)
  conclude-Effect late v' o a h = kept (ground arith)
  conclude-Effect (refuse e) v' o a h = cc

  module _ (provenance : RecordProvenance) (project_id : String) (epoch : ℕ)
      (members : MembershipView) where
    passed :
        (p : CatalogView × CatalogApply)
        → apply hash v r provenance project_id epoch members ≡ ok p
        → (p ≡ (v, duplicate)) ⊎ (conclude hash v r (verdict hash v r) ≡ ok p)
    unfolding apply
    passed p h = ground arith

    -- Whatever `apply` accepts was verified.
    pub apply-verify :
        (p : CatalogView × CatalogApply)
        → apply hash v r provenance project_id epoch members ≡ ok p
        → verify r provenance project_id epoch members ≡ ok tt
    unfolding apply
    apply-verify p h = ground arith

    conclude-applied :
        (d : Verdict CatalogError) (v' : CatalogView)
        → conclude hash v r d ≡ ok (v', applied)
        → d ≡ admit
    unfolding conclude
    conclude-applied d v' h = ground arith

    -- Only an admitted record is reported as applied.
    pub apply-admit :
        (v' : CatalogView)
        → apply hash v r provenance project_id epoch members ≡ ok (v', applied)
        → verdict hash v r ≡ admit
    apply-admit v' h = elim (passed (v', applied) h) [
      | inl known ↦ absurd (ground arith)
      | inr fresh ↦ conclude-applied (verdict hash v r) v' fresh
    ]

    pub apply-Effect :
        (v' : CatalogView) (o : CatalogApply)
        → apply hash v r provenance project_id epoch members ≡ ok (v', o)
        → Effect hash v r v'
    apply-Effect v' o h = elim (passed (v', o) h) [
      | inl known ↦ kept (ground arith)
      | inr fresh ↦ conclude-Effect (verdict hash v r) v' o refl fresh
    ]

-- A property that every accepted record keeps holds of the view that a list of them builds.
module _ (hash : CatalogRecord → String) (project_id : String) (epoch : ℕ)
    (members : MembershipView) (P : CatalogView → Type 0)
    (step : (v v' : CatalogView) (r : CatalogRecord) (provenance : RecordProvenance)
        (o : CatalogApply)
      → P v
      → apply hash v r provenance project_id epoch members ≡ ok (v', o)
      → P v') where
  pub apply_all_induction :
      (v v' : CatalogView) (rs : List (CatalogRecord × RecordProvenance))
      → P v
      → apply_all hash v rs project_id epoch members ≡ ok v'
      → P v'
  unfolding apply_all
  apply_all_induction v v' [] h e = subst P (ok_inj v v' e) h
  apply_all_induction v v' ((r, provenance) ∷ rs) h e =
      let first = >>=-eq-ok (apply hash v r provenance project_id epoch members) _ e in
      apply_all_induction (first.0).0 v' rs (step v (first.0).0 r provenance (first.0).1 h first.1)
        first.2
