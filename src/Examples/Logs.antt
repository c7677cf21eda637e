-- ===== src/Examples/Logs.antt =====
-- Instances of the theorems on the operation logs: crates/jiji-agent/src/store.rs.
use jiji.Common.{
  ℕ, ◌≡◌, refl, false, some, [], ◌∷◌, ok, String, any, keep, contains, include, inl, inr,
}
use jiji.Common.Map.{lookup, insert}
use jiji.Network.Cidr.{new, prefix_mask}
use jiji.Network.Cidr.Parse.{
  from_str, split_once, parse_address, parse_octet, parse_u8, byte_digits,
}
use jiji.Agent.Membership as Membership
use jiji.Agent.Membership.{
  MembershipRecord, MembershipApply, verified, is_blank, authenticate, get, active_members,
  reject_claims, reject_claim_collisions, claim_conflict,
}
use jiji.Agent.Catalog as Catalog
use jiji.Agent.Catalog.{CatalogRecord, CatalogApply, replica_owner_epoch}
use jiji.Agent.Desired as Desired
use jiji.Agent.Desired.{DesiredStateRecord, DesiredApply}
use jiji.Agent.Store.{
  Row, Log, AgentStore, recorded, commit, ensure_replication_capacity, apply_membership,
  apply_catalog, apply_desired,
}
use jiji.Agent.Store.Members.{IsRebuilt, apply_membership-IsRebuilt}
use jiji.Agent.Store.Answers.{Answered, apply_membership-Answered}
use jiji.Agent.Store.Deployments.{IsReplayed, apply_catalog-IsReplayed}
use jiji.Agent.Store.Scales.{IsCurrentAuthor, apply_desired-IsCurrentAuthor}
use jiji.Examples.Members as Data
use jiji.Examples.Members.{a, scope, view_ab}
use jiji.Examples.Deployments as Deployed
use jiji.Examples.Deployments.{d}
use jiji.Examples.Scales as Scaled
use jiji.Examples.Scales.{three, back}

abbrev no_rows : {R : Type 0} → Log R
no_rows = record { operations = []; winners = [] }

abbrev fresh : AgentStore
fresh = record {
  soft_quota_bytes = some 1000;
  membership = no_rows;
  catalog = no_rows;
  desired = no_rows;
}

abbrev usage : AgentStore → ℕ
usage store = 400

abbrev row : {R : Type 0} → String → R → Row R
row id content = record { operation_id = id; content = content }

abbrev with_member : AgentStore
with_member = record fresh {
  membership = record { operations = row "a" a ∷ []; winners = ("a", row "a" a) ∷ [] };
}

abbrev with_deployment : AgentStore
with_deployment = record fresh {
  catalog = record { operations = row "dep-1" d ∷ []; winners = ("dep-1", row "dep-1" d) ∷ [] };
}

abbrev with_scale : AgentStore
with_scale = record fresh {
  desired = record { operations = row "some" three ∷ []; winners = ("web", row "some" three) ∷ [] };
}

abbrev with_back : AgentStore
with_back = record fresh {
  desired = record {
    operations = row "some" three ∷ row "none" back ∷ [];
    winners = ("web", row "none" back) ∷ [];
  };
}

no_members : IsRebuilt Data.hash scope no_rows
unfolding Membership.from_records Membership.apply_all lookup
no_members = record { view = Membership.empty_view; replays = refl; same = λ k. refl }

no_deployments : IsReplayed Deployed.hash "shop" 1 no_rows
unfolding Catalog.from_records Catalog.apply_all lookup
no_deployments = record { view = Catalog.empty_view; replays = λ members. refl; same = λ k. refl }

member_recorded :
    apply_membership usage Data.hash fresh a scope ≡ ok (with_member, MembershipApply.applied)
unfolding apply_membership recorded any commit ensure_replication_capacity Membership.from_records
    Membership.apply_all Membership.apply Membership.validate is_blank from_str split_once
    parse_address parse_octet parse_u8 byte_digits new prefix_mask Membership.verdict
    Membership.conclude Membership.settle reject_claim_collisions reject_claims claim_conflict
    active_members keep contains include insert lookup
member_recorded = refl

deployment_recorded :
    apply_catalog usage Deployed.hash fresh d verified "shop" 1 view_ab
    ≡ ok (with_deployment, CatalogApply.applied)
unfolding apply_catalog recorded any commit ensure_replication_capacity Catalog.from_records
    Catalog.apply_all Catalog.apply Catalog.verify Catalog.validate authenticate Catalog.verdict
    replica_owner_epoch Catalog.conclude contains include insert lookup
deployment_recorded = refl

scale_recorded :
    apply_desired usage Scaled.hash with_scale back verified "shop" 1 view_ab
    ≡ ok (with_back, DesiredApply.applied)
unfolding apply_desired recorded any commit ensure_replication_capacity Desired.from_records
    Desired.apply_all Desired.apply Desired.verify Desired.validate authenticate get Desired.merge
    Desired.order contains include insert lookup
scale_recorded = refl

back_unrecorded : recorded (Scaled.hash back) with_scale.desired.operations ≡ false
unfolding recorded any
back_unrecorded = refl

apply_membership-IsRebuilt_example : IsRebuilt Data.hash scope with_member.membership
apply_membership-IsRebuilt_example =
    apply_membership-IsRebuilt Data.hash scope usage fresh a with_member MembershipApply.applied
      no_members member_recorded

apply_membership-Answered_example :
    Answered Data.hash scope usage fresh a no_members.view
      (apply_membership usage Data.hash fresh a scope)
apply_membership-Answered_example =
    apply_membership-Answered Data.hash scope usage fresh a no_members

apply_catalog-IsReplayed_example : IsReplayed Deployed.hash "shop" 1 with_deployment.catalog
apply_catalog-IsReplayed_example =
    apply_catalog-IsReplayed Deployed.hash "shop" 1 usage fresh d verified view_ab with_deployment
      CatalogApply.applied no_deployments deployment_recorded

apply_desired-IsCurrentAuthor_example : IsCurrentAuthor view_ab three
apply_desired-IsCurrentAuthor_example =
    apply_desired-IsCurrentAuthor Scaled.hash "shop" 1 view_ab usage with_scale back verified
      (with_back, DesiredApply.applied) three scale_recorded back_unrecorded (inr (inl refl))
