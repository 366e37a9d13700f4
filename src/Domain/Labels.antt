-- ===== src/Domain/Labels.antt =====
-- What a domain name is, with no offsets: dot-separated labels.
use ddns_updater_beget.Common.{
  ℕ, Bool, true, false, not, ◌&&◌, List, [], ◌∷◌, Bytes, length, ltb, leb, ◌==◌, split,
}
use ddns_updater_beget.Domain.Defs.{dot, hyphen, is_label_char, byte_at}

unfoldable pub all_label_chars : Bytes → Bool
unfolding is_label_char
all_label_chars [] = true
all_label_chars (c ∷ s) = is_label_char c && all_label_chars s

unfoldable pub last_byte : Bytes → ℕ
last_byte [] = 0
last_byte (c ∷ []) = c
last_byte (c ∷ d ∷ s) = last_byte (d ∷ s)

-- 1 to 63 bytes, with no hyphen at either end.
unfoldable pub has_label_shape : Bytes → Bool
has_label_shape p =
    not (length p == 0)
    && not (ltb 63 (length p))
    && not (byte_at p 0 == hyphen)
    && not (last_byte p == hyphen)

starts_with_digit : Bytes → Bool
starts_with_digit p = leb b'0' (byte_at p 0) && leb (byte_at p 0) b'9'

-- The last label does not begin with a digit.
unfoldable pub has_tld_shape : Bytes → Bool
unfolding has_label_shape starts_with_digit
has_tld_shape p = has_label_shape p && not (starts_with_digit p)

unfoldable pub are_labels : List Bytes → Bool
unfolding all_label_chars has_tld_shape last_byte byte_at
are_labels [] = false
are_labels (p ∷ []) = all_label_chars p && has_tld_shape p
are_labels (p ∷ q ∷ ps) = (all_label_chars p && has_label_shape p) && are_labels (q ∷ ps)

-- At most 255 bytes that are labels between dots.
unfoldable pub is_domain : Bytes → Bool
unfolding are_labels split
is_domain s = not (ltb 255 (length s)) && are_labels (split dot s)
