-- ===== src/Network/Cidr/Parse.antt =====
-- crates/jiji-network/src/cidr.rs, `Ipv4Cidr::from_str`, over the code points of the text. The
-- parsers of `Ipv4Addr` and `u8` are the standard library's, written out here.
use jiji.Common.{
  ℕ, ◌+◌, ◌-◌, ◌*◌, ◌≡◌, refl, Bool, ◌&&◌, Option, none, some, List, [], ◌∷◌, String, codes, Result,
  ok, ◌>>=◌, ok_or, leb, ltb, ◌==◌, if◌then◌else◌,
}
use jiji.Network.Cidr.{
  Ipv4Cidr, NetworkPlanError, invalid_cidr, input, expected_notation, bad_address, bad_prefix, new,
  prefix_mask,
}

abbrev is_digit : ℕ → Bool
is_digit c = leb b'0' c && leb c b'9'

-- `str::split_once` at one character
unfoldable pub split_once : ℕ → List ℕ → Option (List ℕ × List ℕ)
split_once d [] = none
split_once d (c ∷ s) =
    if c == d
    then some ([], s)
    else elim (split_once d s) [ none ↦ none | some (a, b) ↦ some (c ∷ a, b) ]

-- Decimal digits to a number that fits a byte.
unfoldable pub byte_digits : ℕ → List ℕ → Option ℕ
byte_digits n [] = some n
byte_digits n (c ∷ s) =
    let n' = n * 10 + (c - b'0') in
    let rest = byte_digits n' s in if is_digit c && ltb n' 256 then rest else none

-- `u8::from_str`: a plus sign may stand in front, and there is a digit.
unfoldable pub parse_u8 : List ℕ → Option ℕ
unfolding byte_digits
parse_u8 [] = none
parse_u8 (c ∷ []) = byte_digits 0 (c ∷ [])
parse_u8 (c ∷ d ∷ s) = if c == b'+' then byte_digits 0 (d ∷ s) else byte_digits 0 (c ∷ d ∷ s)

-- One part of a dotted address: at most three digits, and no zero in front of another digit.
unfoldable pub parse_octet : List ℕ → Option ℕ
unfolding byte_digits
parse_octet [] = none
parse_octet (c ∷ []) = byte_digits 0 (c ∷ [])
parse_octet (c ∷ d ∷ []) = if c == b'0' then none else byte_digits 0 (c ∷ d ∷ [])
parse_octet (c ∷ d ∷ e ∷ []) = if c == b'0' then none else byte_digits 0 (c ∷ d ∷ e ∷ [])
parse_octet (c ∷ d ∷ e ∷ f ∷ s) = none

abbrev pub bind : {A B : Type 0} → Option A → (A → Option B) → Option B
bind none f = none
bind (some a) f = f a

-- `Ipv4Addr::from_str`
unfoldable pub parse_address : List ℕ → Option ℕ
unfolding split_once parse_octet
parse_address s = bind (split_once b'.' s) λ p. bind (split_once b'.' p.1) λ q.
    bind (split_once b'.' q.1) λ r. bind (parse_octet p.0) λ a. bind (parse_octet q.0) λ b.
      bind (parse_octet r.0)
        λ c. bind (parse_octet r.1) λ d. some (((a * 256 + b) * 256 + c) * 256 + d)

unfoldable pub from_str : String → Result NetworkPlanError Ipv4Cidr
unfolding split_once parse_address parse_u8 new prefix_mask
from_str value = do
  halves ← ok_or (split_once b'/' (codes value)) (invalid_cidr (input value) expected_notation)
  address ← ok_or (parse_address halves.0) (invalid_cidr (input value) bad_address)
  prefix ← ok_or (parse_u8 halves.1) (invalid_cidr (input value) bad_prefix)
  new address prefix

from_str_sixteen : from_str "10.0.0.0/16" ≡ ok (record { network = 167772160; prefix = 16 })
unfolding from_str
from_str_sixteen = refl
