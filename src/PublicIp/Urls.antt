-- ===== src/PublicIp/Urls.antt =====
-- pkg/publicip/http/providers.go: the providers that echo an address, and their URLs.
use ddns_updater_beget.Common.{
  ℕ, ◌++◌, ◌≡◌, ◌≢◌, refl, Bool, true, false, inl, inr, List, [], ◌∷◌, Option, none, some, Bytes,
  codes, beq, has_prefix, trim_prefix, if◌then◌else◌, All, arith, Bool-cases,
}
use ddns_updater_beget.IpVersion.{IpVersion, ip4or6, ip4, ip6}

-- ListProviders. A Provider is its name.
abbrev pub list_providers : List Bytes
list_providers =
    codes "google"
    ∷ codes "ifconfig"
    ∷ codes "ipify"
    ∷ codes "ipinfo"
    ∷ codes "spdyn"
    ∷ codes "ipleak"
    ∷ codes "icanhazip"
    ∷ codes "ident"
    ∷ codes "nnev"
    ∷ codes "wtfismyip"
    ∷ codes "seeip"
    ∷ codes "changeip"
    ∷ []

-- A case of the switch by name, with what follows it.
unfoldable pub when_named : Bytes → Bytes → Bytes → Bytes → Bytes
unfolding beq
when_named provider name url otherwise = if beq provider name then url else otherwise

-- The switch of Provider.url; the empty URL is that of no case.
unfoldable pub known_url : IpVersion → Bytes → Bytes
unfolding when_named
known_url ip4 p = when_named p (codes "ipify") (codes "https://api.ipify.org") (
    when_named p (codes "ipleak") (codes "https://ipv4.ipleak.net/json") (
      when_named p (codes "icanhazip") (codes "https://ipv4.icanhazip.com") (
        when_named p (codes "ident") (codes "https://v4.ident.me") (
          when_named p (codes "nnev") (codes "https://ip4.nnev.de") (
            when_named p (codes "wtfismyip") (codes "https://ipv4.wtfismyip.com/text")
              (when_named p (codes "seeip") (codes "https://ipv4.seeip.org") []))))))
known_url ip6 p = when_named p (codes "ipify") (codes "https://api6.ipify.org") (
    when_named p (codes "ipleak") (codes "https://ipv6.ipleak.net/json") (
      when_named p (codes "icanhazip") (codes "https://ipv6.icanhazip.com") (
        when_named p (codes "ident") (codes "https://v6.ident.me") (
          when_named p (codes "nnev") (codes "https://ip6.nnev.de") (
            when_named p (codes "wtfismyip") (codes "https://ipv6.wtfismyip.com/text")
              (when_named p (codes "seeip") (codes "https://ipv6.seeip.org") []))))))
known_url ip4or6 p = when_named p (codes "ipify") (codes "https://api64.ipify.org") (
    when_named p (codes "google") (codes "https://domains.google.com/checkip") (
      when_named p (codes "ifconfig") (codes "https://ifconfig.io/ip") (
        when_named p (codes "ipinfo") (codes "https://ipinfo.io/ip") (
          when_named p (codes "spdyn") (codes "https://checkip.spdyn.de") (
            when_named p (codes "ipleak") (codes "https://ipleak.net/json") (
              when_named p (codes "icanhazip") (codes "https://icanhazip.com") (
                when_named p (codes "ident") (codes "https://ident.me") (
                  when_named p (codes "nnev") (codes "https://ip.nnev.de") (
                    when_named p (codes "wtfismyip") (codes "https://wtfismyip.com/text") (
                      when_named p (codes "seeip") (codes "https://api.seeip.org") (
                        when_named p (codes "changeip") (codes "https://ip.changeip.com")
                          [])))))))))))

-- An empty URL is none.
unfoldable pub some_url : Bytes → Option Bytes
some_url [] = none
some_url (c ∷ s) = some (c ∷ s)

-- Provider.url
unfoldable pub url : Bytes → IpVersion → Option Bytes
unfolding some_url known_url has_prefix trim_prefix
url provider version = some_url (
    if has_prefix provider (codes "url:")
    then trim_prefix provider (codes "url:")
    else known_url version provider)

is_some : Option Bytes → Bool
is_some none = false
is_some (some s) = true

-- SupportsVersion
unfoldable pub supports_version : Bytes → IpVersion → Bool
unfolding is_some
supports_version provider version = is_some (url provider version)

unfoldable pub supporting : IpVersion → List Bytes → List Bytes
unfolding supports_version url
supporting version [] = []
supporting version (p ∷ ps) =
    if supports_version p version then p ∷ supporting version ps else supporting version ps

-- ListProvidersForVersion
unfoldable pub list_providers_for_version : IpVersion → List Bytes
unfolding supporting
list_providers_for_version version = supporting version list_providers

pub data ProviderError : Type 0 where
  unknown_provider provider_ip_version : ProviderError

-- The loop of ValidateProvider.
unfoldable pub validate_among : Bytes → IpVersion → List Bytes → Option ProviderError
unfolding supports_version url beq
validate_among provider version [] = some unknown_provider
validate_among provider version (p ∷ ps) =
    let rest = validate_among provider version ps in
    if beq provider p
    then (if supports_version provider version then none else some provider_ip_version)
    else rest

-- ValidateProvider; `none` is a nil error.
unfoldable pub validate_provider : Bytes → IpVersion → Option ProviderError
unfolding validate_among has_prefix
validate_provider provider version =
    if has_prefix provider (codes "url:https://")
    then none
    else validate_among provider version list_providers

-- Each provider that is listed for a version is accepted for it.
pub validate_provider-listed :
    (version : IpVersion)
    → All (λ p. validate_provider p version ≡ none) (list_providers_for_version version)
unfolding validate_provider list_providers_for_version
validate_provider-listed ip4or6 = (
  refl,
  (refl, (refl, (refl, (refl, (refl, (refl, (refl, (refl, (refl, (refl, (refl, tt))))))))))),
)
validate_provider-listed ip4 = (refl, (refl, (refl, (refl, (refl, (refl, (refl, tt)))))))
validate_provider-listed ip6 = (refl, (refl, (refl, (refl, (refl, (refl, (refl, tt)))))))

validate_among-url :
    (p : Bytes) (version : IpVersion) (ps : List Bytes)
    → validate_among p version ps ≡ none
    → url p version ≢ none
unfolding validate_among supports_version is_some
validate_among-url p version [] h = cc
validate_among-url p version (q ∷ ps) h = ground (arith, validate_among-url p version ps)

has_prefix-longer :
    (s p q : Bytes) (d : ℕ)
    → has_prefix s (p ++ d ∷ q) ≡ true
    → (has_prefix s p ≡ true) × (trim_prefix s p ≢ [])
unfolding has_prefix trim_prefix
has_prefix-longer [] [] q d h = cc
has_prefix-longer (c ∷ s) [] q d h = (refl, λ e. cc)
has_prefix-longer [] (b ∷ p) q d h = cc
has_prefix-longer (c ∷ s) (b ∷ p) q d h = ground (arith, has_prefix-longer s p q d)

some_url-ne-none : (s : Bytes) → s ≢ [] → some_url s ≢ none
unfolding some_url
some_url-ne-none [] h = absurd (h refl)
some_url-ne-none (c ∷ s) h = λ e. cc

https_url :
    (p : Bytes) (version : IpVersion)
    → has_prefix p (codes "url:https://") ≡ true
    → url p version ≢ none
unfolding url
https_url p version h =
    let (custom, rest) = has_prefix-longer p (codes "url:") (codes "ttps://") b'h' h in
    rw custom (some_url-ne-none (trim_prefix p (codes "url:")) rest)

-- A provider that ValidateProvider accepts for a version has a URL for it.
pub validate_provider-url :
    (p : Bytes) (version : IpVersion) → validate_provider p version ≡ none → url p version ≢ none
unfolding validate_provider
validate_provider-url p version h = elim (Bool-cases (has_prefix p (codes "url:https://"))) [
  | inl custom ↦ https_url p version custom
  | inr other ↦ validate_among-url p version list_providers (rw other at h)
]
