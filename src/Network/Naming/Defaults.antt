-- ===== src/Network/Naming/Defaults.antt =====
-- The defaults of a project: crates/jiji-network/src/naming.rs.
use Prim.Native.String.{len}
use text.Mathlib.TextPositions.{len-append}
use native.Mathlib.Nat.{pow-suc}
use jiji.Network.Cidr.Bits.{bit_and-le}
use jiji.Common.{
  ℕ, zero, suc, ◌+◌, ◌-◌, ◌/◌, ◌%◌, ◌^◌, ◌≤◌, ◌<◌, ◌≡◌, refl, ap, ◌∙◌, Bool, true, false, ◌&&◌, not,
  none, some, String, ok, err, Result, arith, ◌==◌, leb, passes_under, passes_under-test,
}
use jiji.Network.Cidr.{
  new, contains, Ipv4Cidr, overlaps, subnet_count, address_count, NetworkPlanError, prefix_mask,
  u32,
}
use jiji.Network.Cidr.Parse.{
  from_str, split_once, parse_octet, parse_u8, parse_address, byte_digits,
}
use jiji.Network.Cidr.Display.{digit, show_byte}
use jiji.Network.Naming.{
  slot_cidrs, hex_digits, show_hex, salted_hash, project_cidrs, wireguard_interface_name,
  bridge_interface_name, wireguard_port, catalog_replication_port,
}

digits_table : passes_under (λ n. len (digit n) == 1) 16 ≡ true
unfolding passes_under
digits_table = refl

len-show_hex : (width n : ℕ) → n < 16 ^ width → len (show_hex width n) ≡ width
unfolding show_hex hex_digits
len-show_hex zero n small = let none_left : n ≡ 0 = omega (arith, small) in rw none_left refl
len-show_hex (suc width) n small = ground (
  arith,
  len-append (show_hex width (n / 16)) (digit (n % 16)),
  len-show_hex width (n / 16) (omega (arith, small, pow-suc 16 width)),
  passes_under-test (λ k. len (digit k) == 1) 16 (n % 16) (omega arith) digits_table,
)

-- The two ranges are read, apart, and of 32 servers' size.
usable : Result NetworkPlanError Ipv4Cidr → Result NetworkPlanError Ipv4Cidr → Bool
unfolding overlaps subnet_count address_count
usable (err e) s = false
usable (ok m) (err e) = false
usable (ok m) (ok c) =
    not (overlaps m c)
    && (elim (subnet_count c 21) [ none ↦ false | some n ↦ n == 32 ]
        && leb 32 (address_count m - 2))

abbrev slot_usable : ℕ → Bool
slot_usable slot = usable (from_str (slot_cidrs slot).0) (from_str (slot_cidrs slot).1)

slots_table : passes_under slot_usable 64 ≡ true
unfolding passes_under usable from_str split_once parse_octet parse_u8 parse_address byte_digits
    show_byte prefix_mask new overlaps contains subnet_count address_count
slots_table = refl

abbrev pub Usable : Result NetworkPlanError Ipv4Cidr → Result NetworkPlanError Ipv4Cidr → Type 0
Usable r s =
    (m c : Ipv4Cidr) × (r ≡ ok m)
    × (s ≡ ok c)
    × (overlaps m c ≡ false)
    × (subnet_count c 21 ≡ some 32)
    × (32 ≤ address_count m - 2)

usable-Usable : (r s : Result NetworkPlanError Ipv4Cidr) → usable r s ≡ true → Usable r s
unfolding usable
usable-Usable (err e) s h = cc
usable-Usable (ok m) (err e) h = cc
usable-Usable (ok m) (ok c) h =
    (m, c, refl, refl, ground (arith, h), ground (arith, h), ground (arith, h))

module _ (stable_hash : String → ℕ) (project : String) where
  -- The names of both interfaces have 12 of the 15 bytes that Linux takes, whatever the hash; the
  -- WireGuard port is below 55820, the replication port from 58000 on, both within 16 bits.
  pub names_fit :
      (len (wireguard_interface_name stable_hash project) ≡ 12)
      × (len (bridge_interface_name stable_hash project) ≡ 12)
      × (wireguard_port stable_hash project < 55820)
      × (58000 ≤ catalog_replication_port stable_hash project)
      × (catalog_replication_port stable_hash project < 2 ^ 16)
  unfolding wireguard_interface_name bridge_interface_name wireguard_port catalog_replication_port
  names_fit = (
    len-append "jiji" _ ∙ ap (λ (n : ℕ). 4 + n) (len-show_hex 8 _ (omega arith)),
    len-append "jijib" _
        ∙ ap (λ (n : ℕ). 5 + n)
            (len-show_hex 7 _
              (omega (arith, bit_and-le (u32 (salted_hash stable_hash "br" project)) 268435455))),
    omega arith,
    omega arith,
    omega arith,
  )

  -- The ranges that a project takes where its configuration names none are ranges, share no address, and
  -- hold 32 servers: as many subnets of 21 bits, and as many management addresses at least.
  pub project_cidrs-Usable :
      Usable
        (from_str (project_cidrs stable_hash project).0)
        (from_str (project_cidrs stable_hash project).1)
  unfolding project_cidrs
  project_cidrs-Usable = usable-Usable _ _ (
      passes_under-test slot_usable 64 (salted_hash stable_hash "cidr" project % 64) (omega arith)
        slots_table)
