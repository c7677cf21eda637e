-- ===== src/Examples/Scales.antt =====
-- Instances of the theorems on the services' scale: crates/jiji-agent/src/desired.rs.
use jiji.Common.{
  ℕ, ◌≡◌, ◌↔◌, refl, none, some, Option, [], ◌∷◌, ok, String, contains, include, arith, eq_iff, In,
  inl, inr,
}
use jiji.Common.Map.{lookup, insert}
use jiji.Agent.Membership.{verified, authenticate, get}
use jiji.Agent.Desired.{
  DesiredStateRecord, DesiredStateView, validate, verify, order, merge, apply, apply_all,
  from_records,
}
use jiji.Agent.Desired.Merge.{IsGreatest}
use jiji.Agent.Desired.Converges.{from_records-IsGreatest, from_records-converges}
use jiji.Examples.Members.{view_ab}

abbrev pub scale : ℕ → Option ℕ → DesiredStateRecord
scale revision replicas = record {
  project_id = "shop";
  recovery_epoch = 1;
  protocol_version = 1;
  schema_version = 2;
  service = "web";
  scale_override = replicas;
  revision = revision;
  author_node_id = "a";
  author_epoch = 1;
}

abbrev pub three : DesiredStateRecord
three = scale 1 (some 3)

abbrev pub back : DesiredStateRecord
back = scale 2 none

-- It tells these records apart.
abbrev pub hash : DesiredStateRecord → String
hash r = elim r.scale_override [ none ↦ "none" | some n ↦ "some" ]

abbrev forward_view : DesiredStateView
forward_view = record { records = ("web", back) ∷ []; record_ids = "none" ∷ "some" ∷ [] }

abbrev backward_view : DesiredStateView
backward_view = record { records = ("web", back) ∷ []; record_ids = "some" ∷ "none" ∷ [] }

forward :
    from_records hash ((three, verified) ∷ (back, verified) ∷ []) "shop" 1 view_ab ≡ ok forward_view
unfolding from_records apply_all apply verify validate authenticate get merge order contains include
    insert lookup
forward = refl

backward :
    from_records hash ((back, verified) ∷ (three, verified) ∷ []) "shop" 1 view_ab
    ≡ ok backward_view
unfolding from_records apply_all apply verify validate authenticate get merge order contains include
    insert lookup
backward = refl

told_apart :
    (r c : DesiredStateRecord)
    → In r (three ∷ back ∷ [])
    → In c (three ∷ back ∷ [])
    → hash r ≡ hash c
    → r ≡ c
told_apart r c (inl p) (inl q) h = rw (p, q) refl
told_apart r c (inl p) (inr (inl q)) h =
    absurd (let e : "some" ≡ "none" = rw (p, q) at h in ground (arith, eq_iff "some" "none"))
told_apart r c (inr (inl p)) (inl q) h =
    absurd (let e : "none" ≡ "some" = rw (p, q) at h in ground (arith, eq_iff "none" "some"))
told_apart r c (inr (inl p)) (inr (inl q)) h = rw (p, q) refl
told_apart r c (inr (inr x)) i h = elim x [ ]
told_apart r c i (inr (inr x)) h = elim x [ ]

same_records : (r : DesiredStateRecord) → In r (three ∷ back ∷ []) ↔ In r (back ∷ three ∷ [])
same_records r = (
  λ i. elim i [ inl p ↦ inr (inl p) | inr (inl p) ↦ inl p | inr (inr x) ↦ elim x [ ] ],
  λ i. elim i [ inl p ↦ inr (inl p) | inr (inl p) ↦ inl p | inr (inr x) ↦ elim x [ ] ],
)

from_records-IsGreatest_example :
    (lookup "web" forward_view.records ≡ some back) ↔ IsGreatest hash (three ∷ back ∷ []) "web" back
from_records-IsGreatest_example =
    from_records-IsGreatest hash ((three, verified) ∷ (back, verified) ∷ []) told_apart "shop" 1
      view_ab forward_view "web" back forward

from_records-converges_example :
    lookup "web" forward_view.records ≡ lookup "web" backward_view.records
from_records-converges_example =
    from_records-converges hash ((three, verified) ∷ (back, verified) ∷ [])
      ((back, verified) ∷ (three, verified) ∷ []) "shop" 1 view_ab forward_view backward_view
      told_apart same_records forward backward "web"
