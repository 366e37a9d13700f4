-- ===== src/Domain/Check.antt =====
-- CheckDomain accepts exactly the domain names of Labels.
use ddns_updater_beget.Common.{
  ℕ, zero, suc, ◌+◌, ◌-◌, ◌≡◌, ◌≢◌, ◌↔◌, refl, sym, ap, ◌∙◌, inl, inr, Bool, true, false, ◌&&◌,
  List, [], ◌∷◌, ◌++◌, Option, none, some, Bytes, length, ltb, ◌==◌, split, arith, append_assoc,
  append-nil, length-append, Bool-cases,
}
use ddns_updater_beget.Domain.Defs.{
  DomainError, dot, is_label_char, byte_at, check_label, check_tld, check_from, check_domain,
}
use ddns_updater_beget.Domain.Labels.{
  all_label_chars, last_byte, has_label_shape, has_tld_shape, are_labels, is_domain,
}

abbrev is_nil : Option DomainError → Bool
is_nil none = true
is_nil (some e) = false

is_nil_iff : (o : Option DomainError) → (is_nil o ≡ true) ↔ (o ≡ none)
is_nil_iff none = (λ h. refl, λ h. refl)
is_nil_iff (some e) = (λ h. cc, λ h. cc)

byte_at-append : (xs ys : Bytes) (i k : ℕ) → k ≡ length xs + i → byte_at (xs ++ ys) k ≡ byte_at ys i
unfolding byte_at
byte_at-append [] ys i k e = let e' : k ≡ i = omega arith in rw e'
byte_at-append (x ∷ xs) ys i zero e = absurd (omega arith)
byte_at-append (x ∷ xs) ys i (suc k) e = byte_at-append xs ys i k (omega arith)

byte_at_first : (c : ℕ) (xs : Bytes) → byte_at (c ∷ xs) 0 ≡ c
unfolding byte_at
byte_at_first c xs = refl

byte_at_last :
    (c : ℕ) (cur rest : Bytes) (k : ℕ)
    → k ≡ length cur
    → byte_at (c ∷ cur ++ rest) k ≡ last_byte (c ∷ cur)
unfolding byte_at last_byte
byte_at_last c [] rest zero e = refl
byte_at_last c [] rest (suc k) e = absurd (omega arith)
byte_at_last c (d ∷ cur) rest zero e = absurd (omega arith)
byte_at_last c (d ∷ cur) rest (suc k) e = byte_at_last d cur rest k (omega arith)

-- The text read so far is `past`, then the label's bytes `cur`; the rest is unread.
module _ (past : Bytes) where
  -- The switch at a dot sees the label alone.
  check_label-shape :
      (cur rest : Bytes) (start i : ℕ)
      → start ≡ length past
      → i ≡ length past + length cur
      → is_nil (check_label (past ++ (cur ++ rest)) start i) ≡ has_label_shape cur
  unfolding check_label has_label_shape
  check_label-shape [] rest start i hs hi = ground arith
  check_label-shape (c ∷ cur) rest start i hs hi =
      let first : byte_at (past ++ (c ∷ cur ++ rest)) start ≡ c =
        byte_at-append past (c ∷ cur ++ rest) 0 start (omega arith)
        ∙ byte_at_first c (cur ++ rest) in
      let last : byte_at (past ++ (c ∷ cur ++ rest)) (i - 1) ≡ last_byte (c ∷ cur) =
        byte_at-append past (c ∷ cur ++ rest) (length cur) (i - 1) (omega arith)
        ∙ byte_at_last c cur rest (length cur) refl in
      rw (first, last) (ground (arith, byte_at_first c cur))

  length_past : (cur : Bytes) → length (past ++ (cur ++ [])) ≡ length past + length cur
  length_past cur = rw (append-nil cur) (length-append past cur)

  check_tld-shape :
      (cur : Bytes) (start : ℕ)
      → start ≡ length past
      → is_nil (check_tld (past ++ (cur ++ [])) start) ≡ has_tld_shape cur
  unfolding check_tld has_tld_shape
  check_tld-shape [] start hs = rw (length_past []) (ground arith)
  check_tld-shape (c ∷ cur) start hs =
      let size : length (past ++ (c ∷ cur ++ [])) ≡ length past + suc (length cur) =
        length_past (c ∷ cur) in
      let first : byte_at (past ++ (c ∷ cur ++ [])) start ≡ c =
        byte_at-append past (c ∷ cur ++ []) 0 start (omega arith) ∙ byte_at_first c (cur ++ []) in
      let last : byte_at (past ++ (c ∷ cur ++ [])) (length past + suc (length cur) - 1)
          ≡ last_byte (c ∷ cur) =
        byte_at-append past (c ∷ cur ++ []) (length cur) (length past + suc (length cur) - 1)
          (omega arith)
        ∙ byte_at_last c cur [] (length cur) refl in
      rw (size, first, last) (ground (arith, byte_at_first c cur))

all_label_chars-append :
    (p q : Bytes) → all_label_chars (p ++ q) ≡ all_label_chars p && all_label_chars q
unfolding all_label_chars
all_label_chars-append [] q = refl
all_label_chars-append (c ∷ p) q = ground (arith, all_label_chars-append p q)

-- The first label of the rest continues the label read so far.
abbrev prepend : Bytes → List Bytes → List Bytes
prepend cur [] = []
prepend cur (p ∷ ps) = (cur ++ p) ∷ ps

prepend-nil : (ps : List Bytes) → prepend [] ps ≡ ps
prepend-nil [] = refl
prepend-nil (p ∷ ps) = refl

split-ne-nil : (sep : ℕ) (s : Bytes) → split sep s ≢ []
unfolding split
split-ne-nil sep [] = cc
split-ne-nil sep (c ∷ s) = ground (arith, split-ne-nil sep s)

split_at_sep : (sep c : ℕ) (s : Bytes) → (c == sep) ≡ true → split sep (c ∷ s) ≡ [] ∷ split sep s
unfolding split
split_at_sep sep c s h = ground (arith, split-ne-nil sep s)

split_in_part :
    (sep c : ℕ) (s : Bytes)
    → (c == sep) ≡ false
    → split sep (c ∷ s) ≡ prepend (c ∷ []) (split sep s)
unfolding split
split_in_part sep c s h = ground (arith, split-ne-nil sep s)

prepend-prepend :
    (xs ys : Bytes) (ps : List Bytes) → prepend xs (prepend ys ps) ≡ prepend (xs ++ ys) ps
prepend-prepend xs ys [] = refl
prepend-prepend xs ys (p ∷ ps) = rw append_assoc

are_labels-bad :
    (p : Bytes) (ps : List Bytes) → all_label_chars p ≡ false → are_labels (prepend p ps) ≡ false
unfolding are_labels
are_labels-bad p [] h = refl
are_labels-bad p (q ∷ []) h = rw (all_label_chars-append p q, h)
are_labels-bad p (q ∷ r ∷ ps) h = rw (all_label_chars-append p q, h)

-- A finished label, and the labels after it.
label_done :
    (cur : Bytes) (ps : List Bytes)
    → ps ≢ []
    → all_label_chars cur ≡ true
    → are_labels (prepend cur ([] ∷ ps)) ≡ has_label_shape cur && are_labels ps
unfolding are_labels
label_done cur [] ne h = absurd (ne refl)
label_done cur (p ∷ ps) ne h = rw (append-nil cur, h)

check_from_at_dot :
    (s rest : Bytes) (c i start : ℕ)
    → (c == dot) ≡ true
    → is_nil (check_from s (c ∷ rest) i start)
      ≡ is_nil (check_label s start i) && is_nil (check_from s rest (i + 1) (i + 1))
unfolding check_from
check_from_at_dot s rest c i start h = ground arith

check_from_in_label :
    (s rest : Bytes) (c i start : ℕ)
    → (c == dot) ≡ false
    → is_nil (check_from s (c ∷ rest) i start)
      ≡ is_label_char c && is_nil (check_from s rest (i + 1) start)
unfolding check_from
check_from_in_label s rest c i start h = ground arith

all_label_chars_nil : all_label_chars [] ≡ true
unfolding all_label_chars
all_label_chars_nil = refl

all_label_chars_single : (c : ℕ) → all_label_chars (c ∷ []) ≡ is_label_char c
unfolding all_label_chars
all_label_chars_single c = ground arith

read_on :
    (past cur rest : Bytes) (c : ℕ) → past ++ (cur ++ c ∷ rest) ≡ (past ++ (cur ++ c ∷ [])) ++ rest
read_on past cur rest c = simp append_assoc

length_read :
    (past cur : Bytes) (c : ℕ) → length (past ++ (cur ++ c ∷ [])) ≡ length past + length cur + 1
length_read past cur c =
    omega (arith, length-append past (cur ++ c ∷ []), length-append cur (c ∷ []))

check_from-labels :
    (rest past cur s : Bytes) (i start : ℕ)
    → s ≡ past ++ (cur ++ rest)
    → start ≡ length past
    → i ≡ length past + length cur
    → all_label_chars cur ≡ true
    → is_nil (check_from s rest i start) ≡ are_labels (prepend cur (split dot rest))
check_from-labels [] past cur s i start es hs hi hc = rw es (
    unfold check_from split are_labels in
    rw (check_tld-shape past cur start hs) (rw (append-nil cur, hc)))
check_from-labels (c ∷ rest) past cur s i start es hs hi hc = elim (Bool-cases (c == dot)) [
  | inl d ↦
      rw (check_from_at_dot s rest c i start d, split_at_sep dot c rest d)
        (rw (label_done cur (split dot rest) (split-ne-nil dot rest) hc) (
          cc (
            es,
            check_label-shape past cur (c ∷ rest) start i hs hi,
            prepend-nil (split dot rest),
            check_from-labels rest (past ++ (cur ++ c ∷ [])) [] s (i + 1) (i + 1)
                (es ∙ read_on past cur rest c) (omega (arith, length_read past cur c))
                (omega (arith, length_read past cur c)) all_label_chars_nil,
          )))
  | inr d ↦
      rw (check_from_in_label s rest c i start d, split_in_part dot c rest d)
        (rw (prepend-prepend cur (c ∷ []) (split dot rest)) (elim (Bool-cases (is_label_char c)) [
          | inl good ↦ rw good (
              check_from-labels rest past (cur ++ c ∷ []) s (i + 1) start
                (es ∙ ap (◌++◌ past) (sym (append_assoc cur (c ∷ []) rest))) hs
                (omega (arith, length-append cur (c ∷ [])))
                (rw (all_label_chars-append cur (c ∷ []), all_label_chars_single c, good, hc)))
          | inr bad ↦ rw bad (
              sym (
                are_labels-bad (cur ++ c ∷ []) (split dot rest)
                  (rw (all_label_chars-append cur (c ∷ []), all_label_chars_single c, bad, hc))))
        ]))
]

length_test : (n : ℕ) → (suc n == 0) ≡ false
length_test n = ground arith

is_nil-check_domain : (s : Bytes) → is_nil (check_domain s) ≡ is_domain s
is_nil-check_domain [] = unfold check_domain is_domain in refl
is_nil-check_domain (c ∷ s) =
    let agree : is_nil (check_from (c ∷ s) (c ∷ s) 0 0) ≡ are_labels (split dot (c ∷ s)) =
      check_from-labels (c ∷ s) [] [] (c ∷ s) 0 0 refl refl refl all_label_chars_nil
      ∙ ap are_labels (prepend-nil (split dot (c ∷ s))) in
    elim (Bool-cases (ltb 255 (suc (length s)))) [
      | inl long ↦ unfold check_domain is_domain in rw (length_test, long)
      | inr short ↦ unfold check_domain is_domain in rw (length_test, short) agree
    ]

-- CheckDomain returns a nil error exactly on texts of at most 255 bytes that are labels between
-- dots, each of 1 to 63 letters, digits and hyphens with no hyphen at its ends, the last of which
-- does not begin with a digit.
pub check_domain-is_domain : (s : Bytes) → (check_domain s ≡ none) ↔ (is_domain s ≡ true)
check_domain-is_domain s =
    let (to, from) = is_nil_iff (check_domain s) in
    let agree = is_nil-check_domain s in (λ h. sym agree ∙ from h, λ h. to (agree ∙ h))
