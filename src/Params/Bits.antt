-- ===== src/Params/Bits.antt =====
-- What the older variable IPV6_PREFIX does to an IPv6 address: from its text in internal/params/retro.go
-- to the address of internal/update/ipv6.go.
use ddns_updater_beget.Common.{
  [], ℕ, ◌≡◌, ◌≤◌, ◌-◌, ◌/◌, refl, ◌++◌, inl, Option, none, some, Bytes, arith, take, drop, length,
  codes, trim_prefix,
}
use ddns_updater_beget.Net.{v6, Prefix, prefix}
use ddns_updater_beget.Update.Suffix.{ipv6_with_suffix, ipv6_with_suffix_merges}
use ddns_updater_beget.Params.Settings.{parse_uint8, suffix_of_bits, make_ipv6_suffix, zero_bytes}

abbrev IsBitSuffix : ℕ → Prefix → Type 0
IsBitSuffix k suffix = (k ≤ 128) × (suffix ≡ prefix (v6 zero_bytes []) (128 - k))

suffix_of_bits-inl :
    {E : Type 0} (n : Option ℕ) {suffix : Prefix}
    → suffix_of_bits {E = E} n ≡ inl suffix
    → (k : ℕ) × (n ≡ some k) × IsBitSuffix k suffix
unfolding suffix_of_bits
suffix_of_bits-inl none h = cc
suffix_of_bits-inl (some k) h = (k, refl, ground arith)

-- A text that IPV6_PREFIX accepts is a number k of at most 128 bits, after a slash if any, and an IPv6
-- address with its suffix, for which there is no panic, keeps its first k / 8 bytes and is zero after
-- them.
pub make_ipv6_suffix-merges :
    {E : Type 0} (value : Bytes) (suffix : Prefix) (bs zone : Bytes)
    → make_ipv6_suffix {E = E} value ≡ inl suffix
    → length bs ≡ 16
    → (k : ℕ) × (parse_uint8 (trim_prefix value (codes "/")) ≡ some k)
      × (k ≤ 128)
      × (ipv6_with_suffix (v6 bs zone) suffix
          ≡ some (v6 (take (k / 8) bs ++ drop (k / 8) zero_bytes) []))
unfolding make_ipv6_suffix
make_ipv6_suffix-merges value suffix bs zone h long =
    let (k, number, (low, same)) =
      suffix_of_bits-inl (parse_uint8 (trim_prefix value (codes "/"))) h in
    let back : 128 - (128 - k) ≡ k = omega (arith, low) in
    (
      k,
      number,
      low,
      rw
          (
            same,
            ipv6_with_suffix_merges bs zone zero_bytes [] (128 - k) long refl (omega arith),
            back,
          )
          refl,
    )
