-- ===== src/Update/Suffix.antt =====
-- internal/update/ipv6.go: the address that a record gets, from the public one and a suffix.
use ddns_updater_beget.Common.{
  ℕ, ◌-◌, ◌/◌, ◌≤◌, ◌≡◌, refl, true, false, not, ◌||◌, [], ◌∷◌, ◌++◌, Option, none, some, Bytes,
  length, take, drop, ltb, if◌then◌else◌, arith, length-append, zero, suc,
}
use ddns_updater_beget.Net.{
  Addr, v4, v6, Prefix, no_prefix, prefix, is_valid, is6, is_valid_prefix, prefix_bits, prefix_addr,
  as_slice, addr_from_slice, IsAddr,
}

-- The bytes that come from the public address.
abbrev pub prefix_length : Prefix → ℕ
prefix_length p = (128 - prefix_bits p) / 8

-- `none` is a panic: a slice beyond its bounds, or the one after netip.AddrFromSlice.
unfoldable pub ipv6_with_suffix : Addr → Prefix → Option Addr
ipv6_with_suffix public_ip suffix =
    if not (is_valid public_ip) || not (is6 public_ip) || not (is_valid_prefix suffix)
    then some public_ip
    else if ltb (length (as_slice public_ip)) (prefix_length suffix)
    then none
    else if ltb (length (as_slice (prefix_addr suffix))) (prefix_length suffix)
    then none
    else addr_from_slice (
        take (prefix_length suffix) (as_slice public_ip)
        ++ drop (prefix_length suffix) (as_slice (prefix_addr suffix)))

-- A suffix setting that the code means: none, or IPv6 with at most 128 bits.
abbrev pub IsSuffix : Prefix → Type 0
IsSuffix no_prefix = Unit {0}
IsSuffix (prefix a bits) = (is6 a ≡ true) × IsAddr a × (bits ≤ 128)

length-take : (n : ℕ) (bs : Bytes) → n ≤ length bs → length (take n bs) ≡ n
length-take zero bs h = refl
length-take (suc n) [] h = absurd (omega arith)
length-take (suc n) (b ∷ bs) h = omega (arith, length-take n bs (omega arith))

length-drop : (n : ℕ) (bs : Bytes) → length (drop n bs) ≡ length bs - n
length-drop zero bs = omega arith
length-drop (suc n) [] = omega arith
length-drop (suc n) (b ∷ bs) = omega (arith, length-drop n bs)

length-merged :
    (n : ℕ) (bs cs : Bytes)
    → length bs ≡ 16
    → length cs ≡ 16
    → n ≤ 16
    → length (take n bs ++ drop n cs) ≡ 16
length-merged n bs cs hb hc hn =
    omega (
      arith,
      length-append (take n bs) (drop n cs),
      length-take n bs (omega arith),
      length-drop n cs,
    )

-- With an IPv6 suffix of `bits` bits, the address made from an IPv6 address has the first
-- (128 - bits) / 8 bytes of the public address and then those of the suffix, and there is no panic.
pub ipv6_with_suffix_merges :
    (bs zone cs zone' : Bytes) (bits : ℕ)
    → length bs ≡ 16
    → length cs ≡ 16
    → bits ≤ 128
    → ipv6_with_suffix (v6 bs zone) (prefix (v6 cs zone') bits)
      ≡ some (v6 (take ((128 - bits) / 8) bs ++ drop ((128 - bits) / 8) cs) [])
unfolding ipv6_with_suffix is_valid is6 is_valid_prefix prefix_bits prefix_addr as_slice
    addr_from_slice
ipv6_with_suffix_merges bs zone cs zone' bits hb hc hn =
    ground (arith, length-merged ((128 - bits) / 8) bs cs hb hc (omega arith))

-- The guard: an address that is not IPv6 is left alone, whatever the suffix.
pub ipv6_with_suffix_not_v6 :
    (a : Addr) (p : Prefix) → is6 a ≡ false → ipv6_with_suffix a p ≡ some a
unfolding ipv6_with_suffix
ipv6_with_suffix_not_v6 a p h = ground arith

-- A setting `ipv6_suffix` that is a valid IPv4 prefix makes every update to an IPv6 address panic:
-- the slice of its 4 bytes begins beyond their end.
pub ipv6_with_suffix_v4_panics :
    (bs zone cs : Bytes) (bits : ℕ)
    → length bs ≡ 16
    → length cs ≡ 4
    → bits ≤ 32
    → ipv6_with_suffix (v6 bs zone) (prefix (v4 cs) bits) ≡ none
unfolding ipv6_with_suffix is_valid is6 is_valid_prefix prefix_bits prefix_addr as_slice
ipv6_with_suffix_v4_panics bs zone cs bits hb hc hn = ground arith
