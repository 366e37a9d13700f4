-- ===== src/Common/Failure.antt =====
-- Go errors and panics. An error is seen through `errors.Is`, which asks for a sentinel that it
-- wraps, and through its text.
use mathlib.Core.Bool.{Bool, true, false}
use mathlib.Core.Logic.{ite, ◌⊎◌, inl, inr}
use mathlib.Core.Path.{◌≡◌, refl}
use mathlib.Core.Option.{Option, none, some}
use mathlib.Core.List.{List, [], ◌∷◌, ◌++◌}
use ddns_updater_beget.Common.Text.{Bytes}

-- The package-level errors that some code asks for by `errors.Is`, or that a result here wraps.
pub data Sentinel : Type 0 where
  err_banned_abuse err_ipv6_not_supported err_record_not_found err_banned : Sentinel
  err_record_update_failed err_record_ip_not_set err_lookup_mismatch : Sentinel

pub Sentinel-discrete : Discrete Sentinel
Sentinel-discrete = hlevel

pub record Error : Type 0 where
  pub wrapped : List Sentinel
  pub text : Bytes

unfoldable pub same_sentinel : Sentinel → Sentinel → Bool
unfolding Sentinel-discrete
same_sentinel a b = ite (Sentinel-discrete a b) true false

unfoldable pub wraps : List Sentinel → Sentinel → Bool
unfolding same_sentinel
wraps [] s = false
wraps (t ∷ ts) s = elim (same_sentinel t s) [ true ↦ true | false ↦ wraps ts s ]

pub wraps-err_banned_abuse :
    (ss : List Sentinel) → wraps (err_banned_abuse ∷ ss) err_banned_abuse ≡ true
unfolding wraps Sentinel-discrete
wraps-err_banned_abuse ss = refl

-- errors.Is(err, sentinel)
unfoldable pub is_error : Error → Sentinel → Bool
unfolding wraps
is_error e s = wraps e.wrapped s

-- fmt.Errorf("%s: %w", prefix, err)
unfoldable pub prefixed : Bytes → Error → Error
prefixed p e = record e { text = p ++ b':' ∷ b' ' ∷ e.text }

-- A computation that may panic is an Option, whose `none` is the panic; `do` blocks chain them.
infixl 5 ◌>>=◌
abbrev pub ◌>>=◌ {ℓ κ} : {A : Type ℓ} {B : Type κ} → Option A → (A → Option B) → Option B
none >>= f = none
some a >>= f = f a

-- The parts of a chain that ends without a panic.
pub >>=-eq-some {ℓ κ} :
    {A : Type ℓ} {B : Type κ} (m : Option A) (f : A → Option B) {b : B}
    → (m >>= f) ≡ some b
    → (a : A) × (m ≡ some a) × (f a ≡ some b)
>>=-eq-some none f h = cc
>>=-eq-some (some a) f h = (a, refl, h)

-- A chain does not panic if its parts do not.
pub >>=-ne-none {ℓ κ} :
    {A : Type ℓ} {B : Type κ} (m : Option A) (f : A → Option B)
    → (m ≡ none → ⊥)
    → ((a : A) → m ≡ some a → f a ≡ none → ⊥)
    → (m >>= f) ≡ none
    → ⊥
>>=-ne-none none f hm hf h = hm refl
>>=-ne-none (some a) f hm hf h = hf a refl h

-- What follows a call that returns an error beside its value: an error is returned as it is.
abbrev pub and_then {ℓ κ μ} : {A : Type ℓ} {B : Type κ} {E : Type μ} → A ⊎ E → (A → B ⊎ E) → B ⊎ E
and_then (inl a) f = f a
and_then (inr e) f = inr e

-- The parts of a chain that ends without an error.
pub and_then-eq-inl {ℓ κ μ} :
    {A : Type ℓ} {B : Type κ} {E : Type μ} (x : A ⊎ E) (f : A → B ⊎ E) {b : B}
    → and_then x f ≡ inl b
    → (a : A) × (x ≡ inl a) × (f a ≡ inl b)
and_then-eq-inl (inl a) f h = (a, refl, h)
and_then-eq-inl (inr e) f h = cc
