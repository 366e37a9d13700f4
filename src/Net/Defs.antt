-- ===== src/Net/Defs.antt =====
-- netip.Addr, netip.Prefix and net.IP as far as the program uses them.
use ddns_updater_beget.Common.{
  ℕ, ◌≡◌, ◌<◌, Bool, true, false, ◌&&◌, [], ◌∷◌, ◌++◌, Option, none, some, compare, Ordering, Bytes,
  length, drop, take, leb, ◌==◌, beq, All, if◌then◌else◌,
}

-- netip.Addr. `invalid` is the zero Addr; a v6 address has 16 bytes and a zone, mostly empty.
pub data Addr : Type 0 where
  invalid : Addr
  v4 : Bytes → Addr
  v6 : Bytes → Bytes → Addr

-- The addresses that the package can build: 4 or 16 bytes.
abbrev pub IsBytes : ℕ → Bytes → Type 0
IsBytes n bs = (length bs ≡ n) × All (λ b. b < 256) bs

abbrev pub IsAddr : Addr → Type 0
IsAddr invalid = Unit
IsAddr (v4 bs) = IsBytes 4 bs
IsAddr (v6 bs zone) = IsBytes 16 bs

unfoldable pub is_valid : Addr → Bool
is_valid invalid = false
is_valid (v4 bs) = true
is_valid (v6 bs zone) = true

unfoldable pub is4 : Addr → Bool
is4 invalid = false
is4 (v4 bs) = true
is4 (v6 bs zone) = false

-- True of an IPv4-mapped IPv6 address too.
unfoldable pub is6 : Addr → Bool
is6 invalid = false
is6 (v4 bs) = false
is6 (v6 bs zone) = true

unfoldable pub as_slice : Addr → Bytes
as_slice invalid = []
as_slice (v4 bs) = bs
as_slice (v6 bs zone) = bs

-- netip.AddrFromSlice: none is its `ok == false`.
unfoldable pub addr_from_slice : Bytes → Option Addr
addr_from_slice bs =
    if length bs == 4 then some (v4 bs) else if length bs == 16 then some (v6 bs []) else none

unfoldable pub then_compare : Ordering → Ordering → Ordering
then_compare Ordering.lt next = Ordering.lt
then_compare Ordering.eq next = next
then_compare Ordering.gt next = Ordering.gt

-- The order of two byte strings: that of the numbers that they spell, where the lengths agree.
unfoldable pub compare_bytes : Bytes → Bytes → Ordering
unfolding then_compare
compare_bytes [] [] = Ordering.eq
compare_bytes [] (d ∷ t) = Ordering.lt
compare_bytes (c ∷ s) [] = Ordering.gt
compare_bytes (c ∷ s) (d ∷ t) = then_compare (compare c d) (compare_bytes s t)

-- Addr.Compare: by bit length, then by value, then by zone.
unfoldable pub compare_addr : Addr → Addr → Ordering
unfolding compare_bytes
compare_addr invalid invalid = Ordering.eq
compare_addr invalid (v4 bs) = Ordering.lt
compare_addr invalid (v6 bs zone) = Ordering.lt
compare_addr (v4 bs) invalid = Ordering.gt
compare_addr (v4 bs) (v4 cs) = compare_bytes bs cs
compare_addr (v4 bs) (v6 cs zone) = Ordering.lt
compare_addr (v6 bs zone) invalid = Ordering.gt
compare_addr (v6 bs zone) (v4 cs) = Ordering.gt
compare_addr (v6 bs zone) (v6 cs other) =
    then_compare (compare_bytes bs cs) (compare_bytes zone other)

-- a.Compare(b) == 0
unfoldable pub same_addr : Addr → Addr → Bool
unfolding compare_addr
same_addr a b = elim (compare_addr a b) [ Ordering.eq ↦ true | _ ↦ false ]

-- netip.Prefix: the zero Prefix, or an address with a number of bits.
pub data Prefix : Type 0 where
  no_prefix : Prefix
  prefix : Addr → ℕ → Prefix

-- The bits of an address: 32, 128, or 0 for the zero Addr.
unfoldable pub bit_len : Addr → ℕ
bit_len invalid = 0
bit_len (v4 bs) = 32
bit_len (v6 bs zone) = 128

-- Prefix.IsValid: netip.PrefixFrom makes an invalid prefix of an invalid address or of too many bits.
unfoldable pub is_valid_prefix : Prefix → Bool
unfolding is_valid bit_len
is_valid_prefix no_prefix = false
is_valid_prefix (prefix a bits) = is_valid a && leb bits (bit_len a)

unfoldable pub prefix_bits : Prefix → ℕ
prefix_bits no_prefix = 0
prefix_bits (prefix a bits) = bits

unfoldable pub prefix_addr : Prefix → Addr
prefix_addr no_prefix = invalid
prefix_addr (prefix a bits) = a

-- net.IP is a byte slice; `none` is the nil slice.
abbrev pub NetIp : Type 0
NetIp = Option Bytes

-- The first 12 bytes of an IPv4 address in 16-byte form.
abbrev pub v4_in_v6 : Bytes
v4_in_v6 = 0 ∷ 0 ∷ 0 ∷ 0 ∷ 0 ∷ 0 ∷ 0 ∷ 0 ∷ 0 ∷ 0 ∷ 255 ∷ 255 ∷ []

-- IP.To4: nil for what is no IPv4 address.
unfoldable pub to4 : Bytes → Option Bytes
to4 bs =
    if length bs == 4
    then some bs
    else if length bs == 16 && beq (take 12 bs) v4_in_v6
    then some (drop 12 bs)
    else none

-- IP.To16
unfoldable pub to16 : Bytes → Option Bytes
to16 bs =
    if length bs == 4 then some (v4_in_v6 ++ bs) else if length bs == 16 then some bs else none
