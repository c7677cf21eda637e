-- ===== src/Examples/Ranges.antt =====
-- Instances of the theorems on address ranges: crates/jiji-network/src/cidr.rs.
use jiji.Common.{◌≡◌, refl, true, some, ok, arith}
use jiji.Network.Cidr.{
  Ipv4Cidr, new, contains, address, subnet, subnet_count, prefix_mask, address_count,
}
use jiji.Network.Cidr.Range.{IsCidr}
use jiji.Network.Cidr.Subnets.{block}

-- 10.0.0.0/16 and 10.0.2.0/24
abbrev wide : Ipv4Cidr
wide = record { network = 167772160; prefix = 16 }

abbrev narrow : Ipv4Cidr
narrow = record { network = 167772672; prefix = 24 }

wide-IsCidr : IsCidr wide
wide-IsCidr = record { short = omega arith; fits = omega arith; aligned = refl }

narrow-IsCidr : IsCidr narrow
narrow-IsCidr = record { short = omega arith; fits = omega arith; aligned = refl }

narrow_accepted : new 167772672 24 ≡ ok narrow
unfolding new prefix_mask
narrow_accepted = refl

second_subnet : subnet wide 24 2 ≡ some narrow
unfolding subnet subnet_count address address_count new prefix_mask
second_subnet = refl

third_subnet : subnet wide 24 3 ≡ some (block wide 24 3)
unfolding subnet subnet_count address address_count new prefix_mask
third_subnet = refl

in_narrow : contains narrow 167772680 ≡ true
unfolding contains prefix_mask
in_narrow = refl
