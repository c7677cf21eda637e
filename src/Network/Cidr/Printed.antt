-- ===== src/Network/Cidr/Printed.antt =====
-- Ranges printed and read back: crates/jiji-network/src/cidr.rs, `Display` and `FromStr`.
use Prim.Native.String.{◌++◌ as join}
use Prim.Native.String.append as append_lem
use jiji.Common.{
  ℕ, ◌+◌, ◌*◌, ◌/◌, ◌%◌, ◌^◌, ◌<◌, ◌≡◌, refl, ap, Bool, true, false, ◌&&◌, not, none, some, List,
  [], ◌∷◌, ◌++◌, String, codes, ok, arith, any, ◌==◌, passes_under, passes_under-test,
}
use jiji.Network.Cidr.{Ipv4Cidr}
use jiji.Network.Cidr.Range.{IsCidr, new_iff}
use jiji.Network.Cidr.Parse.{
  split_once, parse_octet, parse_u8, parse_address, from_str, byte_digits,
}
use jiji.Network.Cidr.Display.{show_byte, show_address, to_string}

codes-join : (s t : String) → codes (join s t) ≡ codes s ++ codes t
codes-join String.[] t = rw (append_lem.nil t) refl
codes-join (String.◌∷◌ c s) t = rw (append_lem.cons c s t, codes-join s t) refl

-- The code points of a text have no `d`.
abbrev free_of : ℕ → List ℕ → Bool
free_of d s = not (any (λ c. c == d) s)

split_once-first :
    (d : ℕ) (a b : List ℕ) → free_of d a ≡ true → split_once d (a ++ (d ∷ b)) ≡ some (a, b)
unfolding split_once any
split_once-first d [] b h = ground arith
split_once-first d (c ∷ a) b h = ground (arith, split_once-first d a b)

abbrev reads_back : ℕ → Bool
reads_back n =
    let s = codes (show_byte n) in
    elim (parse_octet s) [ none ↦ false | some k ↦ k == n ]
    && (elim (parse_u8 s) [ none ↦ false | some k ↦ k == n ] && (free_of b'.' s && free_of b'/' s))

bytes_table : passes_under reads_back 256 ≡ true
unfolding passes_under parse_octet parse_u8 show_byte any byte_digits
bytes_table = refl

module _ (n : ℕ) (byte : n < 256) where
  byte_codes : List ℕ
  byte_codes = codes (show_byte n)

  passed : reads_back n ≡ true
  passed = passes_under-test reads_back 256 n byte bytes_table

  parse_octet-show : parse_octet (codes (show_byte n)) ≡ some n
  parse_octet-show = ground (arith, passed)

  parse_u8-show : parse_u8 (codes (show_byte n)) ≡ some n
  parse_u8-show = ground (arith, passed)

  dot_free : free_of b'.' (codes (show_byte n)) ≡ true
  dot_free = ground (arith, passed)

  slash_free : free_of b'/' (codes (show_byte n)) ≡ true
  slash_free = ground (arith, passed)

free_of-append :
    (d : ℕ) (a b : List ℕ) → free_of d a ≡ true → free_of d b ≡ true → free_of d (a ++ b) ≡ true
unfolding any
free_of-append d [] b h k = k
free_of-append d (c ∷ a) b h k = ground (arith, free_of-append d a b)

joined :
    (s t : List ℕ)
    → free_of b'/' s ≡ true
    → free_of b'/' t ≡ true
    → free_of b'/' (s ++ (b'.' ∷ t)) ≡ true
unfolding any
joined s t h k = free_of-append b'/' s (b'.' ∷ t) h (ground (arith, k))

-- Four texts between dots.
abbrev dotted : List ℕ → List ℕ → List ℕ → List ℕ → List ℕ
dotted a b c d = a ++ (b'.' ∷ (b ++ (b'.' ∷ (c ++ (b'.' ∷ d)))))

codes-after :
    (s : String) (mark : String) (t : String)
    → codes (join s (join mark t)) ≡ codes s ++ (codes mark ++ codes t)
codes-after s mark t = rw (codes-join s (join mark t), codes-join mark t) refl

codes-dots :
    (a b c d : String)
    → codes (join a (join "." (join b (join "." (join c (join "." d))))))
      ≡ dotted (codes a) (codes b) (codes c) (codes d)
codes-dots a b c d =
    rw
      (
        codes-after a "." (join b (join "." (join c (join "." d)))),
        codes-after b "." (join c (join "." d)),
        codes-after c "." d,
      )
      refl

abbrev bytes : ℕ → ℕ → ℕ → ℕ → List ℕ
bytes a b c d =
    dotted (codes (show_byte a)) (codes (show_byte b)) (codes (show_byte c)) (codes (show_byte d))

codes-show_address :
    (a : ℕ)
    → codes (show_address a) ≡ bytes (a / 16777216) (a / 65536 % 256) (a / 256 % 256) (a % 256)
unfolding show_address
codes-show_address a =
    codes-dots (show_byte (a / 16777216)) (show_byte (a / 65536 % 256)) (show_byte (a / 256 % 256))
      (show_byte (a % 256))

module _ (a b c d : ℕ) (ha : a < 256) (hb : b < 256) (hc : c < 256) (hd : d < 256) where
  parse_address-bytes : parse_address (bytes a b c d) ≡ some (((a * 256 + b) * 256 + c) * 256 + d)
  unfolding parse_address
  parse_address-bytes = ground (
    arith,
    split_once-first b'.' (codes (show_byte a))
        (codes (show_byte b) ++ (b'.' ∷ (codes (show_byte c) ++ (b'.' ∷ codes (show_byte d)))))
        (dot_free a ha),
    split_once-first b'.' (codes (show_byte b))
        (codes (show_byte c) ++ (b'.' ∷ codes (show_byte d))) (dot_free b hb),
    split_once-first b'.' (codes (show_byte c)) (codes (show_byte d)) (dot_free c hc),
    parse_octet-show a ha,
    parse_octet-show b hb,
    parse_octet-show c hc,
    parse_octet-show d hd,
  )

  slash_free-bytes : free_of b'/' (bytes a b c d) ≡ true
  slash_free-bytes = joined (codes (show_byte a)) _ (slash_free a ha) (
      joined (codes (show_byte b)) _ (slash_free b hb)
        (joined (codes (show_byte c)) _ (slash_free c hc) (slash_free d hd)))

pub parse_address-show : (a : ℕ) → a < 2 ^ 32 → parse_address (codes (show_address a)) ≡ some a
parse_address-show a h =
    rw
      (
        codes-show_address a,
        parse_address-bytes (a / 16777216) (a / 65536 % 256) (a / 256 % 256) (a % 256) (omega arith)
            (omega arith) (omega arith) (omega arith),
      )
      (ap some (omega arith))

slash_free-address : (a : ℕ) → a < 2 ^ 32 → free_of b'/' (codes (show_address a)) ≡ true
slash_free-address a h = rw (codes-show_address a) (
    slash_free-bytes (a / 16777216) (a / 65536 % 256) (a / 256 % 256) (a % 256) (omega arith)
      (omega arith) (omega arith) (omega arith))

-- A range that `new` can return is read back from its text.
pub from_str-to_string : (c : Ipv4Cidr) → IsCidr c → from_str (to_string c) ≡ ok c
unfolding from_str to_string
from_str-to_string c v = ground (
  arith,
  codes-after (show_address c.network) "/" (show_byte c.prefix),
  split_once-first b'/' (codes (show_address c.network)) (codes (show_byte c.prefix))
      (slash_free-address c.network v.fits),
  parse_address-show c.network v.fits,
  parse_u8-show c.prefix (omega (arith, v.short)),
  (new_iff c.network c.prefix c v.fits).1 (refl, v),
)
