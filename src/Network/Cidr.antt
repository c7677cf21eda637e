-- ===== src/Network/Cidr.antt =====
-- crates/jiji-network/src/cidr.rs. An `Ipv4Addr` is its number below 2 ^ 32. The machine operations
-- wrap at their width: `u32` at 2 ^ 32, `u64` at 2 ^ 64.
pub mod Bits
pub mod Range
pub mod Subnets
pub mod Parse
pub mod Display
pub mod Printed
pub mod Read
use Prim.Native.Nat.{bit_and}
use jiji.Common.{
  ℕ, ◌+◌, ◌-◌, ◌*◌, ◌%◌, ◌^◌, Bool, ◌||◌, Option, none, some, Result, ok, err, ◌>>=◌, ◌>>◌,
  refuse_if, String, ltb, leb, ◌==◌, not, if◌then◌else◌,
}

abbrev pub Ipv4Addr : Type 0
Ipv4Addr = ℕ

abbrev pub u32 : ℕ → ℕ
u32 n = n % 2 ^ 32

abbrev pub u64 : ℕ → ℕ
u64 n = n % 2 ^ 64

pub record Ipv4Cidr : Type 0 where
  pub network : Ipv4Addr
  pub prefix : ℕ

-- The text that an error quotes: `{network}/{prefix}`, or the input.
pub data CidrValue : Type 0 where
  parts : Ipv4Addr → ℕ → CidrValue
  input : String → CidrValue

pub data Reason : Type 0 where
  prefix_out_of_range host_bits_set expected_notation bad_address bad_prefix : Reason

pub data NetworkPlanError : Type 0 where
  invalid_cidr : CidrValue → Reason → NetworkPlanError
  overlapping_address_spaces : Ipv4Cidr → Ipv4Cidr → NetworkPlanError
  container_range_too_small : Ipv4Cidr → ℕ → NetworkPlanError
  management_range_too_small : Ipv4Cidr → ℕ → ℕ → NetworkPlanError
  bucket_exhausted : String → ℕ → ℕ → NetworkPlanError
  duplicate_service_server : String → String → NetworkPlanError
  unknown_service_server : String → String → NetworkPlanError
  unmatched_host_filter : String → NetworkPlanError
  unmatched_service_filter : String → NetworkPlanError

unfoldable pub prefix_mask : ℕ → ℕ
prefix_mask prefix = if prefix == 0 then 0 else u32 (4294967295 * 2 ^ (32 - prefix))

unfoldable pub new : Ipv4Addr → ℕ → Result NetworkPlanError Ipv4Cidr
new network prefix = do
  refuse_if (ltb 32 prefix) (invalid_cidr (parts network prefix) prefix_out_of_range)
  let mask = prefix_mask prefix
  refuse_if (not (bit_and network mask == network))
      (invalid_cidr (parts network prefix) host_bits_set)
  ok (record { network = network; prefix = prefix })

unfoldable pub address_count : Ipv4Cidr → ℕ
address_count c = u64 (2 ^ (32 - c.prefix))

unfoldable pub address : Ipv4Cidr → ℕ → Option Ipv4Addr
address c offset =
    if leb (address_count c) offset then none else some (u32 (c.network + u32 offset))

unfoldable pub contains : Ipv4Cidr → Ipv4Addr → Bool
contains c a = bit_and a (prefix_mask c.prefix) == c.network

unfoldable pub overlaps : Ipv4Cidr → Ipv4Cidr → Bool
overlaps c d = contains c d.network || contains d c.network

unfoldable pub subnet_count : Ipv4Cidr → ℕ → Option ℕ
subnet_count c new_prefix =
    if ltb new_prefix c.prefix || ltb 32 new_prefix
    then none
    else some (u64 (2 ^ (new_prefix - c.prefix)))

-- `Result::ok`
abbrev accepted : Result NetworkPlanError Ipv4Cidr → Option Ipv4Cidr
accepted (ok c) = some c
accepted (err e) = none

unfoldable pub subnet : Ipv4Cidr → ℕ → ℕ → Option Ipv4Cidr
subnet c new_prefix index = elim (subnet_count c new_prefix) [
  | none ↦ none
  | some count ↦
      if leb count index
      then none
      else elim (address c (u64 (index * u64 (2 ^ (32 - new_prefix))))) [
        | none ↦ none
        | some a ↦ accepted (new a new_prefix)
      ]
]
