-- ===== src/IpVersion.antt =====
-- pkg/publicip/ipversion: the IP versions that a record or a fetcher is set to.
use ddns_updater_beget.Common.{
  ℕ, ◌+◌, ◌≡◌, refl, ◌&&◌, [], ◌∷◌, Option, none, some, Bytes, codes, leb, beq, if◌then◌else◌,
}

-- The constants of the type IPVersion; another value of its uint8 is never made.
pub data IpVersion : Type 0 where
  ip4or6 ip4 ip6 : IpVersion

pub IpVersion-discrete : Discrete IpVersion
IpVersion-discrete = hlevel

-- strings.ToLower at one byte of an ASCII text. A letter beyond ASCII, which a reply may have, is kept
-- as it is, where the code changes it to its small letter.
lower : ℕ → ℕ
lower c = if leb b'A' c && leb c b'Z' then c + 32 else c

unfoldable pub to_lower : Bytes → Bytes
unfolding lower
to_lower [] = []
to_lower (c ∷ s) = lower c ∷ to_lower s

-- IPVersion.String
unfoldable pub show : IpVersion → Bytes
show ip4or6 = codes "ipv4 or ipv6"
show ip4 = codes "ipv4"
show ip6 = codes "ipv6"

-- `none` is ErrInvalidIPVersion.
unfoldable pub parse : Bytes → Option IpVersion
unfolding to_lower beq
parse s =
    if beq (to_lower s) (codes "ipv4 or ipv6")
    then some ip4or6
    else if beq (to_lower s) (codes "ipv4")
    then some ip4
    else if beq (to_lower s) (codes "ipv6")
    then some ip6
    else none

-- Each version is read back from its text.
pub parse-show : (v : IpVersion) → parse (show v) ≡ some v
unfolding parse show
parse-show ip4or6 = refl
parse-show ip4 = refl
parse-show ip6 = refl
