-- ===== src/Network/Naming.antt =====
-- crates/jiji-network/src/naming.rs: what a project calls its interfaces, and the ranges and ports it
-- takes where its configuration names none. `stable_hash`, the first 64 bits of the SHA-256 of a
-- text, is a parameter.
pub mod Defaults
use Prim.Native.Char.{Char, code}
use Prim.Native.Nat.{bit_and}
use Prim.Native.String.{◌++◌, slice, char_at}
use jiji.Common.{
  ℕ, zero, suc, ◌+◌, ◌-◌, ◌/◌, ◌%◌, ◌^◌, Bool, true, false, ◌&&◌, ◌||◌, not, String, str_eq, ◌==◌,
  leb, if◌then◌else◌,
}
use jiji.Network.Cidr.{u32}
use jiji.Network.Cidr.Display.{digit, show_byte}

-- `{:x}`, but nothing for zero; on fuel, which is 16 for the 16 digits of a `u64`.
unfoldable pub hex_digits : ℕ → ℕ → String
hex_digits zero n = ""
hex_digits (suc fuel) n =
    let rest = hex_digits fuel (n / 16) in if n == 0 then "" else rest ++ digit (n % 16)

-- `{:0…x}`: at least `width` hexadecimal digits, and all of a longer number.
unfoldable pub show_hex : ℕ → ℕ → String
unfolding hex_digits
show_hex zero n = hex_digits 16 n
show_hex (suc width) n = show_hex width (n / 16) ++ digit (n % 16)

abbrev is_upper : ℕ → Bool
is_upper c = leb b'A' c && leb c b'Z'

-- `char::to_ascii_lowercase`
abbrev to_ascii_lowercase : Char → Char
to_ascii_lowercase c =
    if is_upper (code c) then char_at "abcdefghijklmnopqrstuvwxyz" (code c - b'A') else c

-- `char::is_ascii_alphanumeric`
abbrev is_ascii_alphanumeric : ℕ → Bool
is_ascii_alphanumeric c = (leb b'0' c && leb c b'9') || (is_upper c || (leb b'a' c && leb c b'z'))

-- `ends_with('-')`
unfoldable pub ends_with_dash : String → Bool
ends_with_dash String.[] = false
ends_with_dash (String.◌∷◌ c String.[]) = code c == b'-'
ends_with_dash (String.◌∷◌ c (String.◌∷◌ d s)) = ends_with_dash (String.◌∷◌ d s)

-- `while slug.ends_with('-') { slug.pop(); }`
unfoldable pub trim_dashes : String → String
trim_dashes String.[] = ""
trim_dashes (String.◌∷◌ c s) =
    let rest = trim_dashes s in if str_eq rest "" && code c == b'-' then "" else String.◌∷◌ c rest

-- The loop over the characters of the project.
unfoldable pub slug_of : String → String → String
unfolding ends_with_dash
slug_of String.[] slug = slug
slug_of (String.◌∷◌ ch rest) slug =
    let lower = to_ascii_lowercase ch in
    slug_of rest (
      if is_ascii_alphanumeric (code lower)
      then slug ++ String.◌∷◌ lower ""
      else if not (ends_with_dash slug) && not (str_eq slug "")
      then slug ++ "-"
      else slug)

-- The two ranges at one of the 64 slots.
abbrev pub slot_cidrs : ℕ → String × String
slot_cidrs slot =
    let container_second = 64 + slot in
    (
      show_byte 198 ++ ("." ++ (show_byte 18 ++ ("." ++ (show_byte slot ++ ".0/24")))),
      show_byte 100 ++ ("." ++ (show_byte container_second ++ ".0.0/16")),
    )

module _ (stable_hash : String → ℕ) where
  unfoldable pub salted_hash : String → String → ℕ
  salted_hash salt project = stable_hash (salt ++ (":" ++ project))

  unfoldable pub project_cidrs : String → String × String
  unfolding salted_hash
  project_cidrs project = slot_cidrs (salted_hash "cidr" project % 64)

  unfoldable pub wireguard_interface_name : String → String
  unfolding salted_hash
  wireguard_interface_name project = "jiji" ++ show_hex 8 (u32 (salted_hash "wg" project))

  unfoldable pub bridge_interface_name : String → String
  unfolding salted_hash
  bridge_interface_name project =
      "jijib" ++ show_hex 7 (bit_and (u32 (salted_hash "br" project)) 268435455)

  unfoldable pub project_slug : String → String
  unfolding slug_of trim_dashes
  project_slug project =
      let slug = trim_dashes (slice (trim_dashes (slug_of project "")) 0 20) in
      let hash = show_hex 8 (u32 (stable_hash project)) in
      if str_eq slug "" then hash else slug ++ ("-" ++ hash)

  unfoldable pub bridge_network_name : String → String
  unfolding project_slug
  bridge_network_name project = "jiji-" ++ project_slug project

  abbrev pub systemd_unit_slug : String → String
  systemd_unit_slug project = project_slug project

  -- The casts to `u16` wrap.
  unfoldable pub wireguard_port : String → ℕ
  unfolding salted_hash
  wireguard_port project = 51820 + salted_hash "port" project % 4000 % 2 ^ 16

  unfoldable pub catalog_replication_port : String → ℕ
  unfolding salted_hash
  catalog_replication_port project =
      58000 + salted_hash "replication-catalog" project % 2000 % 2 ^ 16
