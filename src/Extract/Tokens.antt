-- ===== src/Extract/Tokens.antt =====
-- The extraction visits the maximal runs of the alphabet, and ends.
use ddns_updater_beget.Common.{
  ℕ, zero, suc, ◌+◌, ◌-◌, ◌≤◌, ◌<◌, ◌≡◌, refl, sym, ap, ◌∙◌, List, [], ◌∷◌, Option, some, Bytes,
  length, take, drop, ◌==◌, if◌then◌else◌, arith, Bool-cases, inl, inr,
}
use ddns_updater_beget.Net.{Addr}
use ddns_updater_beget.Extract.{has_byte, scan, add_address, extract_from, extract}

abbrev extend : ℕ → List Bytes → List Bytes
extend c [] = []
extend c (t ∷ ts) = (c ∷ t) ∷ ts

-- The text split at each byte that is not in the alphabet.
unfoldable pub tokens : Bytes → Bytes → List Bytes
tokens alphabet [] = [] ∷ []
tokens alphabet (c ∷ s) =
    let rest = tokens alphabet s in if has_byte alphabet c then extend c rest else [] ∷ rest

-- How many bytes from the first on are in the alphabet.
unfoldable run : Bytes → Bytes → ℕ
run alphabet [] = 0
run alphabet (c ∷ s) = let rest = run alphabet s in if has_byte alphabet c then suc rest else 0

scan-run : (alphabet s : Bytes) (end : ℕ) → scan alphabet s end ≡ end + run alphabet s
unfolding scan run
scan-run alphabet [] end = omega arith
scan-run alphabet (c ∷ s) end = ground (arith, scan-run alphabet s (end + 1))

run_le : (alphabet s : Bytes) → run alphabet s ≤ length s
unfolding run
run_le alphabet [] = omega arith
run_le alphabet (c ∷ s) = ground (arith, run_le alphabet s)

-- The tokens after the first.
unfoldable later : Bytes → Bytes → List Bytes
later alphabet [] = []
later alphabet (c ∷ s) =
    let rest = later alphabet s in if has_byte alphabet c then rest else tokens alphabet s

tokens-first : (alphabet s : Bytes) → tokens alphabet s ≡ take (run alphabet s) s ∷ later alphabet s
unfolding tokens run later
tokens-first alphabet [] = refl
tokens-first alphabet (c ∷ s) = elim (Bool-cases (has_byte alphabet c)) [
  | inl inside ↦ rw (inside, tokens-first alphabet s)
  | inr other ↦ rw other
]

later-end : (alphabet s : Bytes) → run alphabet s ≡ length s → later alphabet s ≡ []
unfolding run later
later-end alphabet [] h = refl
later-end alphabet (c ∷ s) h = ground (arith, later-end alphabet s)

later-more :
    (alphabet s : Bytes)
    → run alphabet s < length s
    → later alphabet s ≡ tokens alphabet (drop (suc (run alphabet s)) s)
unfolding run later
later-more alphabet [] h = absurd (omega arith)
later-more alphabet (c ∷ s) h = ground (arith, later-more alphabet s)

drop-nil : (n : ℕ) → drop {A = ℕ} n [] ≡ []
drop-nil zero = refl
drop-nil (suc n) = refl

drop-drop : (m n : ℕ) (s : Bytes) → drop (m + n) s ≡ drop n (drop m s)
drop-drop zero n s = ap (λ k. drop k s) (omega arith)
drop-drop (suc m) n [] = drop-nil (suc m + n) ∙ sym (drop-nil n)
drop-drop (suc m) n (c ∷ s) =
    let e : suc m + n ≡ suc (m + n) = omega arith in rw e (drop-drop m n s)

length-drop : (n : ℕ) (s : Bytes) → length (drop n s) ≡ length s - n
length-drop zero s = omega arith
length-drop (suc n) [] = omega arith
length-drop (suc n) (c ∷ s) = omega (arith, length-drop n s)

-- Each token in turn.
unfoldable pub add_tokens : (Bytes → Option Addr) → List Bytes → List Addr → List Addr
add_tokens parse [] addrs = addrs
add_tokens parse (t ∷ ts) addrs = add_tokens parse ts (add_address (parse t) addrs)

add_tokens-cons :
    (parse : Bytes → Option Addr) (t : Bytes) (ts : List Bytes) (addrs : List Addr)
    → add_tokens parse (t ∷ ts) addrs ≡ add_tokens parse ts (add_address (parse t) addrs)
unfolding add_tokens
add_tokens-cons parse t ts addrs = refl

module _ (parse : Bytes → Option Addr) (alphabet text : Bytes) where
  -- A round, where `rest` is the text from `start` on.
  round :
      (fuel start : ℕ) (addrs : List Addr)
      → let rest = drop start text in
        let found = add_address (parse (take (run alphabet rest) rest)) addrs in
        extract_from parse (suc fuel) alphabet text start addrs ≡ (
          if start + run alphabet rest == length text
          then some found
          else extract_from parse fuel alphabet text (start + run alphabet rest + 1) found)
  unfolding extract_from
  round fuel start addrs =
      let s = scan-run alphabet (drop start text) start in
      let size : start + run alphabet (drop start text) - start ≡ run alphabet (drop start text) =
        omega arith in
      rw (s, size)

  extract_from-tokens :
      (fuel start : ℕ) (addrs : List Addr)
      → start ≤ length text
      → length text - start < fuel
      → extract_from parse fuel alphabet text start addrs
        ≡ some (add_tokens parse (tokens alphabet (drop start text)) addrs)
  extract_from-tokens zero start addrs le lt = absurd (omega arith)
  extract_from-tokens (suc fuel) start addrs le lt =
      let rest = drop start text in
      let n = run alphabet rest in
      let size = length-drop start text in
      let bound = run_le alphabet rest in
      round fuel start addrs ∙ elim (Bool-cases (start + n == length text)) [
        | inl done ↦
            let last = later-end alphabet rest (ground (arith, size, done)) in
            rw (done, tokens-first alphabet rest, last) (unfold add_tokens in refl)
        | inr more ↦
            let lt' : n < length rest = ground (arith, size, more, bound) in
            let next =
              extract_from-tokens fuel (start + n + 1) (add_address (parse (take n rest)) addrs)
                (omega (arith, lt', size)) (omega (arith, lt', size)) in
            let there : drop (start + n + 1) text ≡ drop (suc n) rest =
              ap (λ k. drop k text) (omega arith) ∙ drop-drop start (suc n) text in
            rw (more, tokens-first alphabet rest, later-more alphabet rest lt')
              (rw
                (
                  add_tokens-cons parse (take n rest) (tokens alphabet (drop (suc n) rest)) addrs,
                  ← there,
                )
                next)
      ]

-- The extraction ends, whatever the text, after the parse of each maximal run of bytes of the alphabet
-- in turn, empty runs included.
pub extract-tokens :
    (parse : Bytes → Option Addr) (text alphabet : Bytes)
    → extract parse text alphabet ≡ some (add_tokens parse (tokens alphabet text) [])
unfolding extract
extract-tokens parse text alphabet =
    extract_from-tokens parse alphabet text (suc (length text)) 0 [] (omega arith) (omega arith)
