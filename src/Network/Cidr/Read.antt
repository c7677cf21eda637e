-- ===== src/Network/Cidr/Read.antt =====
-- What the parser of ranges accepts: crates/jiji-network/src/cidr.rs, `FromStr`.
use jiji.Common.{
  ℕ, ◌+◌, ◌-◌, some_inj, ◌*◌, ◌^◌, ◌<◌, ◌≡◌, refl, Option, none, some, List, [], ◌∷◌, String, codes,
  ok, inl, inr, Option-cases, arith,
}
use jiji.Network.Cidr.{Ipv4Cidr}
use jiji.Network.Cidr.Range.{IsCidr, new_iff}
use jiji.Network.Cidr.Parse.{
  bind, split_once, parse_octet, parse_u8, parse_address, from_str, byte_digits,
}

byte_digits-lt : (n : ℕ) (s : List ℕ) (k : ℕ) → n < 256 → byte_digits n s ≡ some k → k < 256
unfolding byte_digits
byte_digits-lt n [] k h e = ground (arith, some_inj n k e)
byte_digits-lt n (c ∷ s) k h e = ground (arith, byte_digits-lt (n * 10 + (c - b'0')) s k)

parse_octet-lt : (s : List ℕ) (k : ℕ) → parse_octet s ≡ some k → k < 256
unfolding parse_octet
parse_octet-lt [] k e = cc
parse_octet-lt (c ∷ []) k e = byte_digits-lt 0 (c ∷ []) k (omega arith) e
parse_octet-lt (c ∷ d ∷ []) k e = ground (arith, byte_digits-lt 0 (c ∷ d ∷ []) k)
parse_octet-lt (c ∷ d ∷ e ∷ []) k h = ground (arith, byte_digits-lt 0 (c ∷ d ∷ e ∷ []) k)
parse_octet-lt (c ∷ d ∷ e ∷ f ∷ s) k h = cc

bind-some :
    {A B : Type 0} (o : Option A) (f : A → Option B) (r : B)
    → bind o f ≡ some r
    → (a : A) × (o ≡ some a) × (f a ≡ some r)
bind-some none f r h = cc
bind-some (some a) f r h = (a, refl, h)

IsByte : Option ℕ → Type 0
IsByte o = (k : ℕ) → o ≡ some k → k < 256

four_bytes :
    (a b c d : Option ℕ) (r : ℕ)
    → IsByte a
    → IsByte b
    → IsByte c
    → IsByte d
    → (bind a λ w. bind b λ x. bind c λ y. bind d λ z. some (((w * 256 + x) * 256 + y) * 256 + z))
      ≡ some r
    → r < 2 ^ 32
unfolding IsByte
four_bytes a b c d r ha hb hc hd h =
    let w = bind-some a _ r h in
    let x = bind-some b _ r w.2 in
    let y = bind-some c _ r x.2 in
    let z = bind-some d _ r y.2 in
    omega (arith, ha w.0 w.1, hb x.0 x.1, hc y.0 y.1, hd z.0 z.1, some_inj _ r z.2)

parse_address-lt : (s : List ℕ) (r : ℕ) → parse_address s ≡ some r → r < 2 ^ 32
unfolding parse_address IsByte
parse_address-lt s r h =
    let p = bind-some (split_once b'.' s) _ r h in
    let q = bind-some (split_once b'.' p.0.1) _ r p.2 in
    let t = bind-some (split_once b'.' q.0.1) _ r q.2 in
    four_bytes (parse_octet p.0.0) (parse_octet q.0.0) (parse_octet t.0.0) (parse_octet t.0.1) r
      (parse_octet-lt p.0.0) (parse_octet-lt q.0.0) (parse_octet-lt t.0.0) (parse_octet-lt t.0.1)
      t.2

-- What is read is a range that `new` can return.
pub from_str-IsCidr : (value : String) (c : Ipv4Cidr) → from_str value ≡ ok c → IsCidr c
unfolding from_str
from_str-IsCidr value c h = elim (Option-cases (split_once b'/' (codes value))) [
  | inl n ↦ absurd (ground (arith, n))
  | inr halves ↦ elim (Option-cases (parse_address halves.0.0)) [
    | inl n ↦ absurd (ground (arith, halves.1, n))
    | inr a ↦ elim (Option-cases (parse_u8 halves.0.1)) [
      | inl n ↦ absurd (ground (arith, halves.1, a.1, n))
      | inr prefix ↦
          ((new_iff a.0 prefix.0 c (parse_address-lt halves.0.0 a.0 a.1)).0
            (ground (arith, halves.1, a.1, prefix.1))).1
    ]
  ]
]
