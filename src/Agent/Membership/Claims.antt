-- ===== src/Agent/Membership/Claims.antt =====
-- The claims of the active members: server names, management addresses, container subnets and
-- WireGuard keys. crates/jiji-agent/src/membership.rs, `reject_claim_collisions`.
use jiji.Common.{
  ◌≡◌, ◌≢◌, refl, sym, ◌∙◌, inl, inr, true, none, some, List, [], ◌∷◌, String, ok, arith, eq_iff,
  In, In-keep, Bool-cases, str_eq, ◌⊎◌, false, if◌then◌else◌,
}
use jiji.Common.Map.{
  lookup, insert, AllPairs, AllPairs-insert, AllPairs-lookup, lookup-insert, lookup-In,
}
use jiji.Agent.Membership.{
  MembershipRecord, MembershipView, MembershipScope, MembershipApply, is_active, empty_view,
  active_members, claim_conflict, reject_claims, reject_claim_collisions, apply, from_records,
}
use jiji.Agent.Membership.Steps.{Effect, kept, stored, apply-Effect, apply_all_induction}

pub record Apart (a b : MembershipRecord) : Type 0 where
  pub names : a.server_name ≢ b.server_name
  pub addresses : a.management_address ≢ b.management_address
  pub subnets : a.container_subnet ≢ b.container_subnet
  pub keys : a.wireguard_public_key ≢ b.wireguard_public_key

pub record IsView (v : MembershipView) : Type 0 where
  pub keyed : AllPairs (λ k r. r.node_id ≡ k) v.records
  pub apart :
      (j k : String) (a b : MembershipRecord)
      → lookup j v.records ≡ some a
      → lookup k v.records ≡ some b
      → is_active a ≡ true
      → is_active b ≡ true
      → j ≢ k
      → Apart a b

claim_conflict-Apart :
    (r c : MembershipRecord) → claim_conflict r c ≡ none → c.node_id ≢ r.node_id → Apart c r
unfolding claim_conflict
claim_conflict-Apart r c h ne = ground (
  arith,
  eq_iff c.node_id r.node_id,
  eq_iff c.server_name r.server_name,
  eq_iff c.container_subnet r.container_subnet,
  eq_iff c.wireguard_public_key r.wireguard_public_key,
)

reject_claims-none :
    (r : MembershipRecord) (cs : List MembershipRecord) (c : MembershipRecord)
    → reject_claims r cs ≡ ok tt
    → In c cs
    → claim_conflict r c ≡ none
unfolding reject_claims
reject_claims-none r [] c h m = elim m [ ]
reject_claims-none r (d ∷ cs) c h (inl e) = rw e (ground arith)
reject_claims-none r (d ∷ cs) c h (inr m) = reject_claims-none r cs c (ground arith) m

Apart-sym : (a b : MembershipRecord) → Apart a b → Apart b a
Apart-sym a b h = record {
  names = λ e. h.names (sym e);
  addresses = λ e. h.addresses (sym e);
  subnets = λ e. h.subnets (sym e);
  keys = λ e. h.keys (sym e);
}

module _ (v : MembershipView) (r : MembershipRecord) (w : IsView v) where
  fresh-Apart :
      (k : String) (c : MembershipRecord)
      → reject_claim_collisions v r ≡ ok tt
      → lookup k v.records ≡ some c
      → is_active c ≡ true
      → r.node_id ≢ k
      → Apart c r
  unfolding reject_claim_collisions active_members
  fresh-Apart k c free at live ne =
      let named = AllPairs-lookup (λ k r. r.node_id ≡ k) k v.records c w.keyed at in
      claim_conflict-Apart r c
        (reject_claims-none r _ c free (In-keep is_active _ c (lookup-In k v.records c at) live))
        (λ e. ne (sym e ∙ named))

  -- An entry of the new table is the record just stored, or was there before.
  entry :
      (v' : MembershipView)
      → v'.records ≡ insert r.node_id r v.records
      → (j : String) (a : MembershipRecord) → lookup j v'.records ≡ some a
      → ((j ≡ r.node_id) × (a ≡ r)) ⊎ ((r.node_id ≢ j) × (lookup j v.records ≡ some a))
  entry v' e j a h = split (Bool-cases (str_eq j r.node_id)) (rw (e, lookup-insert) at h)
    where
      split :
          (str_eq j r.node_id ≡ true) ⊎ (str_eq j r.node_id ≡ false)
          → (if str_eq j r.node_id then some r else lookup j v.records) ≡ some a
          → ((j ≡ r.node_id) × (a ≡ r)) ⊎ ((r.node_id ≢ j) × (lookup j v.records ≡ some a))
      split (inl t) g = inl ((eq_iff _ _).0 t, ground arith)
      split (inr f) g = inr (ground (arith, eq_iff j r.node_id), ground arith)

  stored-IsView :
      (v' : MembershipView)
      → (is_active r ≡ true → reject_claim_collisions v r ≡ ok tt)
      → v'.records ≡ insert r.node_id r v.records
      → IsView v'
  stored-IsView v' free e = record {
    keyed = rw e (AllPairs-insert (λ k r. r.node_id ≡ k) r.node_id r v.records refl w.keyed);
    apart = λ j k a b ha hb. apart_at j k a b (entry v' e j a ha) (entry v' e k b hb);
  }
    where
      apart_at :
          (j k : String) (a b : MembershipRecord)
          → ((j ≡ r.node_id) × (a ≡ r)) ⊎ ((r.node_id ≢ j) × (lookup j v.records ≡ some a))
          → ((k ≡ r.node_id) × (b ≡ r)) ⊎ ((r.node_id ≢ k) × (lookup k v.records ≡ some b))
          → is_active a ≡ true
          → is_active b ≡ true
          → j ≢ k
          → Apart a b
      apart_at j k a b (inl p) (inl q) la lb ne = absurd (ne (p.0 ∙ sym q.0))
      apart_at j k a b (inl p) (inr q) la lb ne =
          rw (p.1) (Apart-sym b r (fresh-Apart k b (free (rw p.1 at la)) q.1 lb q.0))
      apart_at j k a b (inr p) (inl q) la lb ne =
          rw (q.1) (fresh-Apart j a (free (rw q.1 at lb)) p.1 la p.0)
      apart_at j k a b (inr p) (inr q) la lb ne = w.apart j k a b p.1 q.1 la lb ne

-- Every record that `apply` accepts leaves the table keyed by the nodes' ids, and the claims of
-- any two active members apart.
pub apply-IsView :
    (hash : MembershipRecord → String) (v v' : MembershipView) (r : MembershipRecord)
    (scope : MembershipScope) (o : MembershipApply)
    → IsView v
    → apply hash v r scope ≡ ok (v', o)
    → IsView v'
apply-IsView hash v v' r scope o w h = effect (apply-Effect hash v r scope v' o h)
  where
    effect : Effect hash v r v' → IsView v'
    effect (kept e) = record {
      keyed = rw e w.keyed;
      apart = λ j k a b ha hb. w.apart j k a b (rw e at ha) (rw e at hb);
    }
    effect (stored _ free e) = stored-IsView v r w v' free e

empty-IsView : IsView empty_view
unfolding lookup
empty-IsView = record { keyed = tt; apart = λ j k a b ha hb. cc }

-- The same of the view that is rebuilt from any list of records.
pub from_records-IsView :
    (hash : MembershipRecord → String) (rs : List MembershipRecord) (scope : MembershipScope)
    (v : MembershipView)
    → from_records hash rs scope ≡ ok v
    → IsView v
unfolding from_records
from_records-IsView hash rs scope v h =
    apply_all_induction hash scope IsView (λ v v' r o. apply-IsView hash v v' r scope o) empty_view
      v rs empty-IsView h
