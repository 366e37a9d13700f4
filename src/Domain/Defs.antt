-- ===== src/Domain/Defs.antt =====
-- CheckDomain, BuildDomainName and BuildURLQueryHostname. An error of CheckDomain is the package
-- error that it wraps; its text, which quotes the domain, is only printed.
use ddns_updater_beget.Common.{
  ℕ, ◌+◌, ◌-◌, Bool, ◌&&◌, ◌||◌, [], ◌∷◌, ◌++◌, Option, none, some, Bytes, codes, length, get_elem?,
  ltb, leb, ◌==◌, beq, replace_byte, if◌then◌else◌,
}

pub data DomainError : Type 0 where
  domain_not_set domain_too_long label_too_long invalid_character tld_missing : DomainError

abbrev pub dot : ℕ
dot = b'.'

abbrev pub hyphen : ℕ
hyphen = b'-'

abbrev or_zero : Option ℕ → ℕ
or_zero none = 0
or_zero (some c) = c

-- s[i], which the code reads inside the bounds only.
unfoldable pub byte_at : Bytes → ℕ → ℕ
byte_at s i = or_zero (get_elem? s i)

-- A letter, a digit or a hyphen. The code reads runes: one beyond ASCII, or a byte that is no UTF-8,
-- fails the test at its first byte, as it does here.
unfoldable pub is_label_char : ℕ → Bool
is_label_char c =
    leb b'a' c && leb c b'z' || leb b'0' c && leb c b'9' || c == hyphen || leb b'A' c && leb c b'Z'

-- The switch at a dot: the label goes from `start` to `i`.
unfoldable pub check_label : Bytes → ℕ → ℕ → Option DomainError
check_label s start i =
    if i == start
    then some invalid_character
    else if ltb 63 (i - start)
    then some label_too_long
    else if byte_at s start == hyphen
    then some invalid_character
    else if byte_at s (i - 1) == hyphen
    then some invalid_character
    else none

-- The switch after the loop: the top level label goes from `start` to the end.
unfoldable pub check_tld : Bytes → ℕ → Option DomainError
check_tld s start =
    if start == length s
    then some tld_missing
    else if ltb 63 (length s - start)
    then some label_too_long
    else if byte_at s start == hyphen
    then some invalid_character
    else if byte_at s (length s - 1) == hyphen
    then some invalid_character
    else if leb b'0' (byte_at s start) && leb (byte_at s start) b'9'
    then some invalid_character
    else none

-- The loop at offset `i`, with the bytes from there on, and what follows it.
unfoldable pub check_from : Bytes → Bytes → ℕ → ℕ → Option DomainError
check_from s [] i start = check_tld s start
check_from s (c ∷ rest) i start =
    let next_label = check_from s rest (i + 1) (i + 1) in
    let same_label = check_from s rest (i + 1) start in
    if c == dot
    then elim (check_label s start i) [ some e ↦ some e | none ↦ next_label ]
    else if is_label_char c
    then same_label
    else some invalid_character

-- `none` is a nil error.
unfoldable pub check_domain : Bytes → Option DomainError
unfolding check_from check_label check_tld is_label_char byte_at
check_domain s =
    if length s == 0
    then some domain_not_set
    else if ltb 255 (length s)
    then some domain_too_long
    else check_from s s 0 0

-- `owner` with each `*` as `any`, before the domain; `@` is the domain itself.
unfoldable pub build_domain_name : Bytes → Bytes → Bytes
unfolding beq replace_byte
build_domain_name owner domain =
    if beq owner (codes "@") then domain else replace_byte b'*' (codes "any") owner ++ dot ∷ domain

unfoldable pub build_url_query_hostname : Bytes → Bytes → Bytes
unfolding beq
build_url_query_hostname owner domain =
    if beq owner (codes "@") then domain else owner ++ dot ∷ domain
