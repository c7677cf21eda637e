-- ===== src/Network/Cidr/Subnets.antt =====
-- Ranges beside one another: crates/jiji-network/src/cidr.rs, `overlaps`, `subnet_count`, `subnet`.
use native.Mathlib.Nat.{mul-div_left, mul-le-mul_right}
use native.Mathlib.Decide.{dec_le}
use jiji.Common.{
  some_inj, ℕ, sym, ◌∙◌, Bool, ap, ◌+◌, ◌-◌, ◌*◌, ◌/◌, ◌^◌, ◌≤◌, ◌<◌, ◌≡◌, ◌≢◌, ◌↔◌, inl, inr, refl,
  ◌||◌, true, false, some, arith, Bool-cases,
}
use jiji.Network.Cidr.{Ipv4Addr, Ipv4Cidr, contains, overlaps, subnet_count, subnet}
use jiji.Network.Cidr.Bits.{two_pow_pos}
use jiji.Network.Cidr.Range.{
  size, IsCidr, contains_iff, size-le, size-split, network_end, address_lem, new_iff,
}

or_right : (a : Bool) {b : Bool} → b ≡ true → (a || b) ≡ true
or_right a h = ground arith

-- The network address lies in its own range.
pub contains-network : (c : Ipv4Cidr) → IsCidr c → contains c c.network ≡ true
contains-network c v =
    (contains_iff c c.network v v.fits).1 (omega (arith, two_pow_pos (32 - c.prefix)))

-- `overlaps` is true exactly if some address lies in both ranges.
overlaps_iff :
    (c d : Ipv4Cidr)
    → IsCidr c
    → IsCidr d
    → (overlaps c d ≡ true)
      ↔ ((a : Ipv4Addr) × (a < 2 ^ 32) × (contains c a ≡ true) × (contains d a ≡ true))
unfolding overlaps
overlaps_iff c d v w = (shared, meet)
  where
    shared :
        overlaps c d ≡ true
        → (a : Ipv4Addr) × (a < 2 ^ 32) × (contains c a ≡ true) × (contains d a ≡ true)
    shared h = elim (Bool-cases (contains c d.network)) [
      | inl t ↦ (d.network, w.fits, t, contains-network d w)
      | inr f ↦ (c.network, v.fits, contains-network c v, rw f at h)
    ]

    meet :
        (a : Ipv4Addr) × (a < 2 ^ 32) × (contains c a ≡ true) × (contains d a ≡ true)
        → overlaps c d ≡ true
    meet (a, fits, p, q) =
        let inc = (contains_iff c a v fits).0 p in
        let ind = (contains_iff d a w fits).0 q in
        elim (dec_le c.network d.network) [
          | yes le ↦ rw ((contains_iff c d.network v w.fits).1 (omega arith)) refl
          | no gt ↦
              or_right (contains c d.network) ((contains_iff d c.network w v.fits).1 (omega arith))
        ]

-- The range of the prefix `q` at place `i` of `c`.
abbrev pub block : Ipv4Cidr → ℕ → ℕ → Ipv4Cidr
block c q i = record { network = c.network + i * size q; prefix = q }

-- The size of a range is a power of two that divides that of a wider one.
module _ (c : Ipv4Cidr) (q i : ℕ) (v : IsCidr c) (h : c.prefix ≤ q) (k : q ≤ 32)
    (below : i < 2 ^ (q - c.prefix)) where
  pub offset_bound : i * size q + size q ≤ size c.prefix
  offset_bound = omega (arith, mul-le-mul_right (size q) below, size-split c.prefix q h k)

  subnet-aligned : (c.network + i * size q) / size q * size q ≡ c.network + i * size q
  subnet-aligned =
      let block = c.network / size c.prefix * 2 ^ (q - c.prefix) + i in
      let e : c.network + i * size q ≡ block * size q = omega (
        arith,
        v.aligned,
        ap (λ (n : ℕ). c.network / size c.prefix * n) (size-split c.prefix q h k),
      ) in
      rw e (ap (λ n. n * size q) (mul-div_left block (two_pow_pos (32 - q))))

  pub subnet-IsCidr : IsCidr (block c q i)
  subnet-IsCidr = record {
    short = k;
    fits = omega (arith, offset_bound, network_end c v, two_pow_pos (32 - q));
    aligned = subnet-aligned;
  }

  count_bound : 2 ^ (q - c.prefix) ≤ 2 ^ 32
  count_bound =
      grind (arith, size-split c.prefix q h k, size-le c.prefix v.short, two_pow_pos (32 - q))

  -- Every index below `subnet_count` gives the block of its size at that place.
  pub subnet_lem : subnet c q i ≡ some (block c q i)
  unfolding subnet subnet_count
  subnet_lem = ground (
    arith,
    address_lem c (i * size q) v,
    offset_bound,
    count_bound,
    size-le q k,
    size-le c.prefix v.short,
    two_pow_pos (32 - q),
    (new_iff (c.network + i * size q) q (block c q i) subnet-IsCidr.fits).1 (refl, subnet-IsCidr),
  )

block_apart : (n i j a b : ℕ) → i < j → a < b + i * n + n → b + j * n ≤ a → ⊥
block_apart n i j a b h p q = omega (arith, mul-le-mul_right n h)

module _ (c : Ipv4Cidr) (q i j : ℕ) (v : IsCidr c) (h : c.prefix ≤ q) (k : q ≤ 32)
    (bi : i < 2 ^ (q - c.prefix)) (bj : j < 2 ^ (q - c.prefix)) where
  pub blocks_disjoint : i ≢ j → overlaps (block c q i) (block c q j) ≡ false
  blocks_disjoint ne = elim (Bool-cases (overlaps (block c q i) (block c q j))) [
    | inr f ↦ f
    | inl t ↦ meet ((overlaps_iff _ _ vi vj).0 t)
  ]
    where
      vi : IsCidr (block c q i)
      vi = subnet-IsCidr c q i v h k bi

      vj : IsCidr (block c q j)
      vj = subnet-IsCidr c q j v h k bj

      meet :
          (a : Ipv4Addr) × (a < 2 ^ 32)
            × (contains (block c q i) a ≡ true)
            × (contains (block c q j) a ≡ true)
          → overlaps (block c q i) (block c q j) ≡ false
      meet (a, fits, p, r) =
          let ini = (contains_iff _ a vi fits).0 p in
          let inj = (contains_iff _ a vj fits).0 r in
          absurd (elim (dec_le i j) [
            | yes le ↦ block_apart (size q) i j a c.network (omega arith) ini.1 inj.0
            | no gt ↦ block_apart (size q) j i a c.network (omega arith) inj.1 ini.0
          ])

  -- The blocks at two places share no address.
  pub subnet_disjoint :
      i ≢ j
      → (s t : Ipv4Cidr) → subnet c q i ≡ some s
      → subnet c q j ≡ some t
      → overlaps s t ≡ false
  subnet_disjoint ne s t es et =
      rw
        (
          some_inj _ _ (sym es ∙ subnet_lem c q i v h k bi),
          some_inj _ _ (sym et ∙ subnet_lem c q j v h k bj),
        )
        (blocks_disjoint ne)

-- Every address of a block lies in the range that it is taken from.
pub subnet-within :
    (c : Ipv4Cidr) (q i : ℕ)
    → IsCidr c
    → c.prefix ≤ q
    → q ≤ 32
    → i < 2 ^ (q - c.prefix)
    → (s : Ipv4Cidr) (a : Ipv4Addr) → subnet c q i ≡ some s
    → a < 2 ^ 32
    → contains s a ≡ true
    → contains c a ≡ true
subnet-within c q i v h k bi s a es fits t =
    let e = some_inj _ _ (sym es ∙ subnet_lem c q i v h k bi) in
    let inside = (contains_iff _ a (subnet-IsCidr c q i v h k bi) fits).0 (rw e at t) in
    (contains_iff c a v fits).1 (omega (arith, offset_bound c q i v h k bi, inside))
