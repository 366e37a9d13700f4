-- ===== src/Providers/Texts.antt =====
-- Tests on domains, owners and tokens that the providers of goip, duckdns and namecheap make: their
-- regular expressions, and the older form of a domain.
use ddns_updater_beget.Common.{
  ℕ, ◌+◌, ◌-◌, Bool, true, false, not, ◌&&◌, ◌||◌, List, [], ◌∷◌, ◌++◌, Option, none, some, Bytes,
  codes, length, take, drop, last?, ltb, leb, ◌==◌, beq, split, join, if◌then◌else◌,
}
use ddns_updater_beget.Extract.{has_byte}

-- ^.+\.TLD$, where the first part has no line feed.
unfoldable pub is_under : Bytes → Bytes → Bool
unfolding beq has_byte
is_under tld s =
    let n = length s - (length tld + 1) in
    ltb (length tld + 1) (length s) && beq (drop n s) (b'.' ∷ tld) && not (has_byte (take n s) 10)

-- strings.Count(s, ".")
unfoldable pub count_dots : Bytes → ℕ
count_dots [] = 0
count_dots (c ∷ s) = (if c == b'.' then 1 else 0) + count_dots s

-- [a-f0-9]*
unfoldable pub is_hex : Bytes → Bool
is_hex [] = true
is_hex (c ∷ s) = (leb b'a' c && leb c b'f' || leb b'0' c && leb c b'9') && is_hex s

-- Groups of [a-f0-9] of the given lengths, with hyphens between them.
unfoldable pub hex_groups : List ℕ → Bytes → Bool
unfolding is_hex beq
hex_groups [] s = false
hex_groups (n ∷ []) s = length s == n && is_hex s
hex_groups (n ∷ m ∷ ns) s =
    is_hex (take n s) && beq (take 1 (drop n s)) (codes "-") && hex_groups (m ∷ ns) (drop (n + 1) s)

or_empty : Option Bytes → Bytes
or_empty none = []
or_empty (some s) = s

-- A root domain and an owner in the older form: the last label of the owner becomes a part of the
-- domain, and `@` stands for an owner of one label.
unfoldable pub under_root : Bytes → Bytes → Bytes × Bytes
unfolding split join or_empty
under_root domain owner =
    let parts = split b'.' owner in
    (
      or_empty (last? parts) ++ b'.' ∷ domain,
      if ltb 1 (length parts) then join (codes ".") (take (length parts - 1) parts) else codes "@",
    )
