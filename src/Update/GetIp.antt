-- ===== src/Update/GetIp.antt =====
-- internal/update/getip.go: up to three tries at the public address.
use mathlib.Core.List.{map}
use ddns_updater_beget.Common.{
  ℕ, zero, suc, ◌+◌, Bool, true, false, List, [], ◌∷◌, ◌++◌, Option, none, some, Bytes, codes,
  Error, Sentinel, err_ipv6_not_supported, contains, join, itoa, if◌then◌else◌,
}
use ddns_updater_beget.Net.{Addr, invalid}
use ddns_updater_beget.IpVersion.{IpVersion, show}

-- What a call for the public address returns: both values, as in Go.
abbrev pub Fetched : Type 0
Fetched = Addr × Option Error

abbrev pub tries : ℕ
tries = 3

-- joinedErrors.Error
unfoldable pub joined_text : List Error → Bytes
joined_text errs = join (codes ", ") (map (λ e. e.text) errs)

-- joinedErrors.Unwrap: what errors.Is finds in any of them.
all_wrapped : List Error → List Sentinel
all_wrapped [] = []
all_wrapped (e ∷ es) = e.wrapped ++ all_wrapped es

unfoldable pub says_not_supported : Error → Bool
unfolding contains
says_not_supported e = contains e.text (codes "connect: cannot assign requested address")

-- The loop over the errors.
unfoldable pub all_not_supported : List Error → Bool
all_not_supported [] = true
all_not_supported (e ∷ es) = elim (says_not_supported e) [
  | true ↦ all_not_supported es
  | false ↦ false
]

unfoldable pub tries_failed : IpVersion → List Error → Error
unfolding joined_text all_wrapped all_not_supported
tries_failed version errs =
    let report =
      codes ": after " ++ (itoa tries ++ (codes " tries, errors were: " ++ joined_text errs)) in
    if all_not_supported errs
    then record {
      wrapped = err_ipv6_not_supported ∷ all_wrapped errs;
      text = codes "IPv6 is not supported on this system" ++ report;
    }
    else record {
      wrapped = all_wrapped errs;
      text = codes "obtaining " ++ (show version ++ (codes " address" ++ report));
    }

-- The loop with `left` tries left. `fetch n` is the answer to try n, and `last` the address that the
-- try before returned.
unfoldable pub try_from : (ℕ → Fetched) → IpVersion → ℕ → ℕ → List Error → Addr → Fetched
try_from fetch version zero try errs last = (last, some (tries_failed version errs))
try_from fetch version (suc left) try errs last =
    let (ip, failure) = fetch try in
    elim failure [
      | none ↦ (ip, none)
      | some e ↦ try_from fetch version left (try + 1) (errs ++ e ∷ []) ip
    ]

-- tryAndRepeatGettingIP
unfoldable pub try_and_repeat_getting_ip : (ℕ → Fetched) → IpVersion → Fetched
unfolding try_from tries_failed
try_and_repeat_getting_ip fetch version = try_from fetch version tries 0 [] invalid
