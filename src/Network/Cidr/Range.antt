-- ===== src/Network/Cidr/Range.antt =====
-- The addresses of a range: crates/jiji-network/src/cidr.rs, `new`, `contains` and `address`.
use Prim.Native.Nat.{bit_and}
use native.Mathlib.Nat.{
  add-zero, add-suc, pow-suc, div-add-mod', mod-lt, div-eq_of_lt-le, mul-le-mul_right,
}
use native.Mathlib.Decide.{dec_lt}
use jiji.Common.{
  ℕ, zero, suc, ◌+◌, ◌-◌, ◌*◌, ◌/◌, ◌^◌, ◌≤◌, ◌<◌, ◌≡◌, ◌↔◌, refl, true, some, none, ok, arith,
  ==_iff, ◌==◌, passes_under, passes_under-test, sym, ltb, ap, ◌∙◌, if◌then◌else◌,
}
use jiji.Network.Cidr.{Ipv4Addr, Ipv4Cidr, prefix_mask, new, address_count, address, contains}
use jiji.Network.Cidr.Bits.{bit_and-high, two_pow_pos}

-- The number of addresses below a prefix.
abbrev pub size : ℕ → ℕ
size prefix = 2 ^ (32 - prefix)

-- What `new` guarantees: the network is a multiple of the size, within the 32 bits.
pub record IsCidr (c : Ipv4Cidr) : Type 0 where
  pub short : c.prefix ≤ 32
  pub fits : c.network < 2 ^ 32
  pub aligned : c.network / size c.prefix * size c.prefix ≡ c.network

two_pow-add : (j k : ℕ) → 2 ^ j * 2 ^ k ≡ 2 ^ (j + k)
two_pow-add j zero = rw (add-zero j) (omega arith)
two_pow-add j (suc k) =
    rw (add-suc j k, pow-suc 2 (j + k), pow-suc 2 k) (omega (arith, two_pow-add j k))

pub size-split : (p q : ℕ) → p ≤ q → q ≤ 32 → 2 ^ (q - p) * size q ≡ size p
size-split p q h k =
    let e : (q - p) + (32 - q) ≡ 32 - p = omega arith in
    two_pow-add (q - p) (32 - q) ∙ ap (λ n. 2 ^ n) e

mask_table : passes_under (λ p. prefix_mask p == (2 ^ p - 1) * size p) 33 ≡ true
unfolding passes_under prefix_mask
mask_table = refl

prefix_mask-high : (p : ℕ) → p ≤ 32 → prefix_mask p ≡ (2 ^ p - 1) * size p
prefix_mask-high p h = (==_iff _ _).0 (passes_under-test _ 33 p (omega arith) mask_table)

-- The prefix and the rest make the 32 bits.
pub whole : (p : ℕ) → p ≤ 32 → 2 ^ p * size p ≡ 2 ^ 32
whole p h = let e : p + (32 - p) ≡ 32 = omega arith in two_pow-add p (32 - p) ∙ ap (λ n. 2 ^ n) e

-- Masking an address clears its bits below the prefix.
pub bit_and-prefix_mask :
    (a p : ℕ) → a < 2 ^ 32 → p ≤ 32 → bit_and a (prefix_mask p) ≡ a / size p * size p
bit_and-prefix_mask a p h k =
    rw (prefix_mask-high p k) (bit_and-high (32 - p) p a (omega (arith, whole p k)))

-- Rounding down to a multiple of `n` gives `b` exactly within the `n` numbers from `b`.
round_down_iff : (n a b : ℕ) → 0 < n → b / n * n ≡ b → (a / n * n ≡ b) ↔ ((b ≤ a) × (a < b + n))
round_down_iff n a b h e = (
  λ r. omega (arith, div-add-mod' a n, mod-lt a h),
  λ r. rw (div-eq_of_lt-le {k = b / n} n {m = a} (omega arith) (grind (arith, r, e))) e,
)

-- A range holds exactly the `size` addresses from its network on.
pub contains_iff :
    (c : Ipv4Cidr) (a : Ipv4Addr)
    → IsCidr c
    → a < 2 ^ 32
    → (contains c a ≡ true) ↔ ((c.network ≤ a) × (a < c.network + size c.prefix))
unfolding contains
contains_iff c a v h =
    let round = round_down_iff (size c.prefix) a c.network (two_pow_pos _) v.aligned in
    let mask = bit_and-prefix_mask a c.prefix h v.short in
    (λ t. round.0 (sym mask ∙ (==_iff _ _).0 t), λ t. (==_iff _ _).1 (mask ∙ round.1 t))

pub size-pos : (p : ℕ) → 0 < size p
size-pos p = two_pow_pos (32 - p)

pub size-le : (p : ℕ) → p ≤ 32 → size p ≤ 2 ^ 32
size-le p h = grind (arith, whole p h, two_pow_pos p)

next_multiple : (n q m : ℕ) → q * n < m * n → q * n + n ≤ m * n
next_multiple n q m h = elim (dec_lt q m) [
  | yes below ↦ omega (arith, mul-le-mul_right n below)
  | no above ↦ absurd (omega (arith, mul-le-mul_right {m = m} {n = q} n (omega arith)))
]

-- The last address of a range does not pass the 32 bits.
pub network_end : (c : Ipv4Cidr) → IsCidr c → c.network + size c.prefix ≤ 2 ^ 32
network_end c v = omega (
  arith,
  next_multiple (size c.prefix) (c.network / size c.prefix) (2 ^ c.prefix),
  whole c.prefix v.short,
  v.aligned,
)

-- `address` gives the addresses of the range in order, with no wrap, and nothing past its end.
pub address_lem :
    (c : Ipv4Cidr) (offset : ℕ)
    → IsCidr c
    → address c offset ≡ (if ltb offset (size c.prefix) then some (c.network + offset) else none)
unfolding address address_count
address_lem c offset v = ground (arith, network_end c v, two_pow_pos (32 - c.prefix))

-- `new` accepts exactly the network addresses of a prefix, and keeps them.
pub new_iff :
    (network prefix : ℕ) (c : Ipv4Cidr)
    → network < 2 ^ 32
    → (new network prefix ≡ ok c) ↔ ((c ≡ record { network = network; prefix = prefix }) × IsCidr c)
unfolding new
new_iff network prefix c h = (
  λ e. ground (arith, bit_and-prefix_mask network prefix h),
  λ v. ground (arith, bit_and-prefix_mask network prefix h),
)
