-- ===== src/PublicIp/Cycling.antt =====
-- pkg/publicip/publicip.go and subfetcher.go: the fetcher that takes its kinds in turn.
use ddns_updater_beget.Common.{
  ℕ, ◌+◌, ◌%◌, ◌^◌, ◌≡◌, ◌≢◌, Bool, true, false, ◌⊎◌, inl, inr, List, [], ◌∷◌, Option, none, some,
  length, get_elem?, ltb, arith, if◌then◌else◌, ◌>>=◌,
}

pub data Kind : Type 0 where
  kind_dns kind_http : Kind

-- The counter is a uint32.
pub record Fetcher : Type 0 where
  pub fetchers : List Kind
  pub counter : ℕ

-- NewFetcher, with the kinds that are enabled and can be made; `none` is ErrNoFetchTypeSpecified.
unfoldable pub new_fetcher : Bool → Bool → Option Fetcher
new_fetcher true true = some (record { fetchers = kind_dns ∷ kind_http ∷ []; counter = 0 })
new_fetcher true false = some (record { fetchers = kind_dns ∷ []; counter = 0 })
new_fetcher false true = some (record { fetchers = kind_http ∷ []; counter = 0 })
new_fetcher false false = none

-- getSubFetcher; `none` is a panic, an index out of range.
unfoldable pub get_sub_fetcher : Fetcher → Option (Fetcher × Kind)
get_sub_fetcher f = do
  first ← get_elem? f.fetchers 0
  if ltb 1 (length f.fetchers)
      then (do
        kind ← get_elem? f.fetchers ((f.counter + 1) % 2 ^ 32 % length f.fetchers)
        some (record f { counter = (f.counter + 1) % 2 ^ 32 }, kind))
      else some (f, first)

abbrev both_at : ℕ → Fetcher
both_at counter = record { fetchers = kind_dns ∷ kind_http ∷ []; counter = counter }

get_sub_fetcher-even :
    (counter : ℕ)
    → (counter + 1) % 2 ^ 32 % 2 ≡ 0
    → get_sub_fetcher (both_at counter) ≡ some (both_at ((counter + 1) % 2 ^ 32), kind_dns)
unfolding get_sub_fetcher
get_sub_fetcher-even counter h = rw h

get_sub_fetcher-odd :
    (counter : ℕ)
    → (counter + 1) % 2 ^ 32 % 2 ≡ 1
    → get_sub_fetcher (both_at counter) ≡ some (both_at ((counter + 1) % 2 ^ 32), kind_http)
unfolding get_sub_fetcher
get_sub_fetcher-odd counter h = rw h

parity : (n : ℕ) → (n % 2 ≡ 0) ⊎ (n % 2 ≡ 1)
parity n = ground arith

-- With both kinds enabled two calls in a row take one of each, also where the counter wraps around.
pub get_sub_fetcher_alternates :
    (counter : ℕ)
    → (f : Fetcher) × (g : Fetcher) × (k : Kind) × (l : Kind) × (get_sub_fetcher (both_at counter)
        ≡ some (f, k))
      × (get_sub_fetcher f ≡ some (g, l))
      × (k ≢ l)
get_sub_fetcher_alternates counter =
    let next = (counter + 1) % 2 ^ 32 in
    elim (parity next) [
      | inl even ↦ (
        both_at next,
        both_at ((next + 1) % 2 ^ 32),
        kind_dns,
        kind_http,
        get_sub_fetcher-even counter even,
        get_sub_fetcher-odd next (omega (arith, even)),
        λ e. cc,
      )
      | inr odd ↦ (
        both_at next,
        both_at ((next + 1) % 2 ^ 32),
        kind_http,
        kind_dns,
        get_sub_fetcher-odd counter odd,
        get_sub_fetcher-even next (omega (arith, odd)),
        λ e. cc,
      )
    ]
