-- ===== src/Params/Settings.antt =====
-- internal/params/json.go: makeSettingsFromObject, extractAllSettings and JSONProviders, and
-- internal/params/retro.go. What is not of the package is a parameter: encoding/json, os, provider.New.
pub mod Config
pub mod Spaces
pub mod Reload
use ddns_updater_beget.Common.{
  ℕ, zero, suc, ◌+◌, ◌-◌, ◌*◌, Bool, true, false, not, ◌&&◌, ◌||◌, ◌⊎◌, inl, inr, List, [], ◌∷◌,
  ◌++◌, Option, none, some, Bytes, and_then, codes, Error, beq, split, trim_prefix, get_elem?, ltb,
  leb, ◌==◌, if◌then◌else◌,
}
use ddns_updater_beget.Net.{v6, Prefix, no_prefix, prefix, is_valid_prefix}
use ddns_updater_beget.IpVersion.{IpVersion, ip4, show, parse}
use ddns_updater_beget.Params.{
  CommonSettings, ParamsError, no_longer_supported, ip_version_not_valid, provider_not_made,
  ipv6_prefix_format, not_unmarshalled, query_hostnames, extract_from_domain_field,
}

-- strconv.ParseUint in base 10, as far as the digits go.
unfoldable pub decimal_from : ℕ → Bytes → Option ℕ
decimal_from n [] = some n
decimal_from n (c ∷ s) = elim (leb b'0' c && leb c b'9') [
  | true ↦ decimal_from (n * 10 + (c - b'0')) s
  | false ↦ none
]

-- strconv.ParseUint(s, 10, 8): `none` is its error.
unfoldable pub parse_uint8 : Bytes → Option ℕ
unfolding decimal_from
parse_uint8 [] = none
parse_uint8 (c ∷ s) = elim (decimal_from 0 (c ∷ s)) [
  | none ↦ none
  | some n ↦ if ltb 255 n then none else some n
]

abbrev pub zero_bytes : Bytes
zero_bytes = 0 ∷ 0 ∷ 0 ∷ 0 ∷ 0 ∷ 0 ∷ 0 ∷ 0 ∷ 0 ∷ 0 ∷ 0 ∷ 0 ∷ 0 ∷ 0 ∷ 0 ∷ 0 ∷ []

unfoldable pub suffix_of_bits : {E : Type 0} → Option ℕ → Prefix ⊎ ParamsError E
suffix_of_bits none = inr ipv6_prefix_format
suffix_of_bits (some n) =
    if ltb 128 n then inr ipv6_prefix_format else inl (prefix (v6 zero_bytes []) (128 - n))

-- makeIPv6Suffix
unfoldable pub make_ipv6_suffix : {E : Type 0} → Bytes → Prefix ⊎ ParamsError E
unfolding parse_uint8 suffix_of_bits trim_prefix
make_ipv6_suffix s = suffix_of_bits (parse_uint8 (trim_prefix s (codes "/")))

-- getRetroIPv6Suffix, from the value of IPV6_PREFIX
unfoldable pub get_retro_ipv6_suffix : {E : Type 0} → Bytes → Prefix ⊎ ParamsError E
unfolding make_ipv6_suffix beq
get_retro_ipv6_suffix value = if beq value [] then inl no_prefix else make_ipv6_suffix value

-- The warnings, by what their texts say.
pub data Warning : Type 0 where
  owner_in_domain : Bytes → List Bytes → Warning
  suffix_of_ipv4 : Prefix → Warning
  provider_ip_unused : Bytes → IpVersion → Warning

is_space : ℕ → Bool
is_space c = c == 32 || leb 9 c && leb c 13

unfoldable pub trim_left : Bytes → Bytes
unfolding is_space
trim_left [] = []
trim_left (c ∷ s) = elim (is_space c) [ true ↦ trim_left s | false ↦ c ∷ s ]

unfoldable pub trim_right : Bytes → Bytes
unfolding is_space
trim_right [] = []
trim_right (c ∷ s) = elim (trim_right s) [
  | [] ↦ if is_space c then [] else c ∷ []
  | d ∷ t ↦ c ∷ d ∷ t
]

-- strings.TrimSpace of an ASCII text
unfoldable pub trim_space : Bytes → Bytes
unfolding trim_left trim_right
trim_space s = trim_right (trim_left s)

-- ipversion.Parse, where the empty text stands for either version.
unfoldable pub version_of : {E : Type 0} → Bytes → IpVersion ⊎ ParamsError E
unfolding parse show beq
version_of s = elim (parse (if beq s [] then codes "ipv4 or ipv6" else s)) [
  | none ↦ inr ip_version_not_valid
  | some version ↦ inl version
]

-- The suffix of the object, or the one that IPV6_PREFIX stands for.
unfoldable pub suffix_of : CommonSettings → Prefix → Prefix
unfolding is_valid_prefix
suffix_of common retro = if is_valid_prefix common.ipv6_suffix then common.ipv6_suffix else retro

is_ip4 : IpVersion → Bool
is_ip4 ip4 = true
is_ip4 _ = false

-- The domain, the owners and the warning of the retro-compatible field.
unfoldable pub names_of :
    {E : Type 0}
    → (Bytes → Bytes ⊎ Error)
    → CommonSettings
    → (Bytes × List Bytes × List Warning) ⊎ ParamsError E
unfolding beq split query_hostnames extract_from_domain_field
names_of effective common =
    let owner = if beq common.owner [] then common.host else common.owner in
    if not (beq owner [])
    then inl (
      common.domain,
      split b',' owner,
      owner_in_domain owner (query_hostnames common.domain (split b',' owner)) ∷ [],
    )
    else and_then (extract_from_domain_field effective common.domain) (λ x. inl (x.0, x.1, []))

unfoldable pub warnings_of : CommonSettings → Bytes → IpVersion → Prefix → List Warning
unfolding is_ip4 is_valid_prefix
warnings_of common domain version suffix =
    (if is_ip4 version && is_valid_prefix suffix then suffix_of_ipv4 suffix ∷ [] else [])
    ++ (if common.has_provider_ip then provider_ip_unused domain version ∷ [] else [])

-- What a reading of settings returns; no providers are the nil slice.
pub record Made (P E : Type 0) : Type 0 where
  pub providers : List P
  pub warnings : List Warning
  pub error : Option (ParamsError E)

-- What is outside of the package: provider.New, EffectiveTLDPlusOne, the decodings of the settings by
-- encoding/json, json.Indent, the value of IPV6_PREFIX, and how reads and writes of the file fail.
pub record Outside (P E Raw : Type 0) : Type 0 where
  pub new : Bytes → Raw → Bytes → Bytes → IpVersion → Prefix → P ⊎ E
  pub effective : Bytes → Bytes ⊎ Error
  pub unmarshal_common : Bytes → List CommonSettings ⊎ Error
  pub unmarshal_raw : Bytes → List Raw ⊎ Error
  pub indent : Bytes → Bytes ⊎ Error
  pub ipv6_prefix : Bytes
  pub read_error : Option Error
  pub write_error : Option Error

module _ {P E : Type 0} where
  unfoldable pub failed : List Warning → ParamsError E → Made P E
  failed ws e = record { providers = []; warnings = ws; error = some e }

  -- The loop over the owners.
  unfoldable pub make_each : (Bytes → P ⊎ E) → List Bytes → List P ⊎ ParamsError E
  unfolding trim_space
  make_each new [] = inl []
  make_each new (o ∷ os) = elim (new (trim_space o)) [
    | inr e ↦ inr (provider_not_made e)
    | inl p ↦ and_then (make_each new os) (λ ps. inl (p ∷ ps))
  ]

module _ {P E Raw : Type 0} where
  make_with :
      Outside P E Raw
      → CommonSettings
      → Raw
      → Prefix
      → Bytes × List Bytes × List Warning
      → IpVersion ⊎ ParamsError E
      → Made P E
  unfolding failed make_each warnings_of suffix_of
  make_with o common raw retro (domain, owners, ws) (inr e) = failed [] e
  make_with o common raw retro (domain, owners, ws) (inl version) =
      let suffix = suffix_of common retro in
      let ws' = ws ++ warnings_of common domain version suffix in
      elim (make_each (λ owner. o.new common.provider raw domain owner version suffix) owners) [
        | inr e ↦ failed ws' e
        | inl ps ↦ record { providers = ps; warnings = ws'; error = none }
      ]

  -- makeSettingsFromObject
  unfoldable pub make_settings_from_object :
      Outside P E Raw → CommonSettings → Raw → Prefix → Made P E
  unfolding make_with failed names_of version_of beq
  make_settings_from_object o common raw retro =
      if beq common.provider (codes "google")
      then failed [] (no_longer_supported common.provider)
      else elim (names_of o.effective common) [
        | inr e ↦ failed [] e
        | inl names ↦ make_with o common raw retro names (version_of common.ip_version)
      ]

  -- The loop over the objects; `none` is the panic of an index out of range.
  unfoldable pub extract_each :
      Outside P E Raw
      → Prefix
      → List CommonSettings
      → List Raw
      → List P
      → List Warning
      → Option (Made P E)
  unfolding make_settings_from_object failed
  extract_each o retro [] raws ps ws = some (record { providers = ps; warnings = ws; error = none })
  extract_each o retro (c ∷ cs) [] ps ws = none
  extract_each o retro (c ∷ cs) (raw ∷ raws) ps ws =
      let m = make_settings_from_object o c raw retro in
      elim m.error [
        | some e ↦ some (failed (ws ++ m.warnings) e)
        | none ↦ extract_each o retro cs raws (ps ++ m.providers) (ws ++ m.warnings)
      ]

  unfoldable pub extract_parts :
      Outside P E Raw
      → List CommonSettings ⊎ Error
      → List Raw ⊎ Error
      → Prefix ⊎ ParamsError E
      → Option (Made P E)
  unfolding extract_each failed
  extract_parts o (inr e) raws retro = some (failed [] (not_unmarshalled e))
  extract_parts o (inl commons) (inr e) retro = some (failed [] (not_unmarshalled e))
  extract_parts o (inl commons) (inl raws) (inr e) = some (failed [] e)
  extract_parts o (inl commons) (inl raws) (inl retro) = extract_each o retro commons raws [] []

  -- extractAllSettings
  unfoldable pub extract_all_settings : Outside P E Raw → Bytes → Option (Made P E)
  unfolding extract_parts get_retro_ipv6_suffix
  extract_all_settings o content =
      extract_parts o (o.unmarshal_common content) (o.unmarshal_raw content)
        (get_retro_ipv6_suffix o.ipv6_prefix)
