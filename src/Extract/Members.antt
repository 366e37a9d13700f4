-- ===== src/Extract/Members.antt =====
-- Which addresses are extracted.
use ddns_updater_beget.Common.{
  ◌≡◌, refl, sym, ◌∙◌, Bool, true, false, ◌||◌, List, [], ◌∷◌, ◌++◌, Option, none, some, Bytes,
  arith, Bool-cases, inl, inr,
}
use ddns_updater_beget.Net.{Addr, same_addr}
use ddns_updater_beget.Net.Laws.{same_addr_iff}
use ddns_updater_beget.Extract.{mem_addr, add_address, extract}
use ddns_updater_beget.Extract.Tokens.{tokens, add_tokens, extract-tokens}

-- No address twice.
abbrev pub IsDistinct : List Addr → Type 0
IsDistinct [] = Unit
IsDistinct (a ∷ as') = (mem_addr a as' ≡ false) × IsDistinct as'

-- Whether a token is the text of the address.
unfoldable pub is_parsed : Option Addr → Addr → Bool
is_parsed none ip = false
is_parsed (some a) ip = same_addr ip a

unfoldable pub any_parsed : (Bytes → Option Addr) → List Bytes → Addr → Bool
unfolding is_parsed
any_parsed parse [] ip = false
any_parsed parse (t ∷ ts) ip = is_parsed (parse t) ip || any_parsed parse ts ip

mem_addr-append :
    (ip a : Addr) (addrs : List Addr)
    → mem_addr ip (addrs ++ a ∷ []) ≡ (mem_addr ip addrs || same_addr ip a)
unfolding mem_addr
mem_addr-append ip a [] = ground arith
mem_addr-append ip a (b ∷ addrs) = ground (arith, mem_addr-append ip a addrs)

mem_addr-add_address :
    (o : Option Addr) (ip : Addr) (addrs : List Addr)
    → mem_addr ip (add_address o addrs) ≡ (mem_addr ip addrs || is_parsed o ip)
unfolding add_address is_parsed
mem_addr-add_address none ip addrs = ground arith
mem_addr-add_address (some a) ip addrs = elim (Bool-cases (mem_addr a addrs)) [
  | inl seen ↦ rw seen (kept (same_addr ip a) refl seen)
  | inr fresh ↦ rw fresh (mem_addr-append ip a addrs)
]
  where
    kept :
        (b : Bool)
        → same_addr ip a ≡ b
        → mem_addr a addrs ≡ true
        → mem_addr ip addrs ≡ (mem_addr ip addrs || b)
    kept true e seen = let eq = (same_addr_iff ip a).0 e in rw (eq, seen)
    kept false e seen = ground arith

same_addr_sym : (a b : Addr) → same_addr a b ≡ same_addr b a
same_addr_sym a b = both (same_addr a b) (same_addr b a) refl refl
  where
    both : (x y : Bool) → same_addr a b ≡ x → same_addr b a ≡ y → x ≡ y
    both true true e f = refl
    both false false e f = refl
    both true false e f =
        let same = (same_addr_iff a b).0 e in cc ((same_addr_iff b a).1 (sym same))
    both false true e f =
        let same = (same_addr_iff b a).0 f in cc ((same_addr_iff a b).1 (sym same))

mem_addr-cons :
    (ip a : Addr) (addrs : List Addr)
    → mem_addr ip (a ∷ addrs) ≡ false
    → (same_addr ip a ≡ false) × (mem_addr ip addrs ≡ false)
unfolding mem_addr
mem_addr-cons ip a addrs h = ground arith

IsDistinct-append :
    (addrs : List Addr) (a : Addr)
    → IsDistinct addrs
    → mem_addr a addrs ≡ false
    → IsDistinct (addrs ++ a ∷ [])
IsDistinct-append [] a h ne = (unfold mem_addr in refl, tt)
IsDistinct-append (b ∷ addrs) a h ne =
    let (other, fresh) = mem_addr-cons a b addrs ne in
    (
      mem_addr-append b a addrs ∙ ground (arith, h.0, same_addr_sym b a),
      IsDistinct-append addrs a h.1 fresh,
    )

IsDistinct-add_address :
    (o : Option Addr) (addrs : List Addr) → IsDistinct addrs → IsDistinct (add_address o addrs)
unfolding add_address
IsDistinct-add_address none addrs h = h
IsDistinct-add_address (some a) addrs h = elim (Bool-cases (mem_addr a addrs)) [
  | inl seen ↦ rw seen h
  | inr fresh ↦ rw fresh (IsDistinct-append addrs a h fresh)
]

IsDistinct-add_tokens :
    (parse : Bytes → Option Addr) (ts : List Bytes) (addrs : List Addr)
    → IsDistinct addrs
    → IsDistinct (add_tokens parse ts addrs)
unfolding add_tokens
IsDistinct-add_tokens parse [] addrs h = h
IsDistinct-add_tokens parse (t ∷ ts) addrs h =
    IsDistinct-add_tokens parse ts (add_address (parse t) addrs)
      (IsDistinct-add_address (parse t) addrs h)

mem_addr-add_tokens :
    (parse : Bytes → Option Addr) (ts : List Bytes) (ip : Addr) (addrs : List Addr)
    → mem_addr ip (add_tokens parse ts addrs) ≡ (mem_addr ip addrs || any_parsed parse ts ip)
unfolding add_tokens any_parsed
mem_addr-add_tokens parse [] ip addrs = ground arith
mem_addr-add_tokens parse (t ∷ ts) ip addrs = ground (
  arith,
  mem_addr-add_tokens parse ts ip (add_address (parse t) addrs),
  mem_addr-add_address (parse t) ip addrs,
)

-- The extraction of a text ends. Its result has no address twice, and has exactly the addresses that
-- some maximal run of bytes of the alphabet is the text of.
pub extract-IsDistinct :
    (parse : Bytes → Option Addr) (text alphabet : Bytes)
    → (addrs : List Addr) × (extract parse text alphabet ≡ some addrs)
      × IsDistinct addrs
      × ((ip : Addr) → mem_addr ip addrs ≡ any_parsed parse (tokens alphabet text) ip)
extract-IsDistinct parse text alphabet = (
  add_tokens parse (tokens alphabet text) [],
  extract-tokens parse text alphabet,
  IsDistinct-add_tokens parse (tokens alphabet text) [] tt,
  λ ip. mem_addr-add_tokens parse (tokens alphabet text) ip [] ∙ (unfold mem_addr in refl),
)
