-- ===== src/Extract.antt =====
-- pkg/ipextract/ipextract.go: the IP addresses in a text. netip.ParseAddr is the parameter `parse`.
pub mod Tokens
pub mod Members
use ddns_updater_beget.Common.{
  ℕ, zero, suc, ◌+◌, ◌-◌, Bool, true, false, ◌||◌, List, [], ◌∷◌, ◌++◌, Option, none, some, Bytes,
  codes, length, take, drop, ◌==◌, if◌then◌else◌,
}
use ddns_updater_beget.Net.{Addr, same_addr}

-- strings.ContainsRune, at a byte
unfoldable pub has_byte : Bytes → ℕ → Bool
has_byte [] c = false
has_byte (d ∷ a) c = d == c || has_byte a c

-- Whether an address is among those seen: the code's map has the addresses of the list as its keys.
unfoldable pub mem_addr : Addr → List Addr → Bool
unfolding same_addr
mem_addr ip [] = false
mem_addr ip (a ∷ as') = same_addr ip a || mem_addr ip as'

-- The inner loop: `end` after the bytes of the alphabet. Its second argument is the text from `end` on.
unfoldable pub scan : Bytes → Bytes → ℕ → ℕ
unfolding has_byte
scan alphabet [] end = end
scan alphabet (c ∷ s) end = if has_byte alphabet c then scan alphabet s (end + 1) else end

unfoldable pub add_address : Option Addr → List Addr → List Addr
unfolding mem_addr
add_address none addrs = addrs
add_address (some ip) addrs = if mem_addr ip addrs then addrs else addrs ++ ip ∷ []

module _ (parse : Bytes → Option Addr) where
  -- The outer loop with `fuel` rounds, from `start` on; `none` if the rounds do not suffice.
  unfoldable pub extract_from : ℕ → Bytes → Bytes → ℕ → List Addr → Option (List Addr)
  unfolding scan add_address
  extract_from zero alphabet text start addrs = none
  extract_from (suc fuel) alphabet text start addrs =
      let end = scan alphabet (drop start text) start in
      let found = add_address (parse (take (end - start) (drop start text))) addrs in
      let more = extract_from fuel alphabet text (end + 1) found in
      if end == length text then some found else more

  -- A round consumes a byte at least, but for the last.
  unfoldable pub extract : Bytes → Bytes → Option (List Addr)
  unfolding extract_from
  extract text alphabet = extract_from (suc (length text)) alphabet text 0 []

  -- IPv4
  unfoldable pub extract_ipv4 : Bytes → Option (List Addr)
  unfolding extract
  extract_ipv4 text = extract text (codes "0123456789.")

  -- IPv6
  unfoldable pub extract_ipv6 : Bytes → Option (List Addr)
  unfolding extract
  extract_ipv6 text = extract text (codes "0123456789abcdefABCDEF:")
