-- ===== src/Cli/Members.antt =====
-- crates/jiji-cli/src/commands/network/membership.rs: the records that the CLI publishes for a server
-- that it has set up, and for the servers that the configuration no longer names. `u64` additions
-- wrap, as in a release build.
pub mod Published
use jiji.Common.{
  ℕ, suc, ◌+◌, Bool, true, false, ◌&&◌, ◌||◌, not, Option, none, some, List, [], ◌∷◌, String,
  str_eq, ◌==◌, if◌then◌else◌, keep, contains,
}
use jiji.Common.Map.{values}
use jiji.Network.Cidr.{u64}
use jiji.Agent.Membership.{
  MembershipRecord, MembershipState, MembershipView, SocketAddr, IpAddr, v4, v6, is_active,
}

-- The derived `==` of the types of `endpoints`.
abbrev same_ip : IpAddr → IpAddr → Bool
same_ip (v4 a) (v4 b) = a == b
same_ip (v6 a) (v6 b) = a == b
same_ip _ _ = false

abbrev same_endpoints : List SocketAddr → List SocketAddr → Bool
same_endpoints [] [] = true
same_endpoints (a ∷ xs) (b ∷ ys) = same_ip a.ip b.ip && a.port == b.port && same_endpoints xs ys
same_endpoints _ _ = false

unfoldable pub reconcile_record :
    Option MembershipRecord → MembershipRecord → Option MembershipRecord
reconcile_record none candidate =
    some (record candidate { owner_epoch = 1; revision = 1; state = MembershipState.active })
reconcile_record (some current) candidate =
    let key_changed = not (str_eq current.wireguard_public_key candidate.wireguard_public_key) in
    let endpoint_changed = not (same_endpoints current.endpoints candidate.endpoints) in
    let wxstombstoned = not (is_active current) in
    if not key_changed && not endpoint_changed && not wxstombstoned
    then none
    else if key_changed || wxstombstoned
    then some (record candidate {
      owner_epoch = u64 (current.owner_epoch + 1);
      revision = 1;
      state = MembershipState.active;
    })
    else some (record candidate {
      owner_epoch = current.owner_epoch;
      revision = u64 (current.revision + 1);
      state = MembershipState.active;
    })

abbrev pub tombstoned : MembershipRecord → MembershipRecord
tombstoned r = record r { revision = u64 (r.revision + 1); state = MembershipState.tombstoned }

abbrev pub all_tombstoned : List MembershipRecord → List MembershipRecord
all_tombstoned [] = []
all_tombstoned (r ∷ rs) = tombstoned r ∷ all_tombstoned rs

unfoldable pub compute_decommissions : List String → MembershipView → List MembershipRecord
unfolding keep
compute_decommissions configured v =
    all_tombstoned
      (keep (λ r. is_active r && not (contains r.server_name configured)) (values v.records))
