-- ===== src/Providers/Custom.antt =====
-- internal/provider/providers/custom/provider.go: the settings, and Update, which writes the URL of the
-- provider. net/url and regexp are parameters: the raw query of a URL is of a type of its own.
pub mod Stale
use ddns_updater_beget.Common.{
  ℕ, Bool, true, false, not, ◌⊎◌, inl, inr, List, [], ◌∷◌, ◌++◌, Option, none, some, Bytes, codes,
  Error, prefixed, beq, ◌==◌, if◌then◌else◌,
}
use ddns_updater_beget.Net.{Addr, Prefix, is6}
use ddns_updater_beget.IpVersion.{IpVersion}
use ddns_updater_beget.PublicIp.Http.{to_single_line}
use ddns_updater_beget.Providers.Errors.{
  Fault, caused, passed_on, Setting, SettingError, refused, url_not_set, url_not_https,
  ipv4_key_not_set, ipv6_key_not_set, success_regex_not_set, unknown_response,
}
use ddns_updater_beget.Providers.Client.{
  Exchange, Outcome, switch, fails_with, fails_by_status, exchanged, read_all,
}
use ddns_updater_beget.Providers.Settings.{
  Base, Described, described, anchor, checked_domain, refuses, NewError, not_decoded, validated,
}

-- url.Values: the values of each key, each key once.
abbrev pub Values : Type 0
Values = List (Bytes × List Bytes)

-- Values.Set
unfoldable pub set_value : Bytes → Bytes → Values → Values
unfolding beq
set_value k v [] = (k, v ∷ []) ∷ []
set_value k v ((q, vs) ∷ values) =
    if beq k q then (k, v ∷ []) ∷ values else (q, vs) ∷ set_value k v values

-- The values of a key, none for a missing one.
unfoldable pub get_value : Bytes → Values → List Bytes
unfolding beq
get_value k [] = []
get_value k ((q, vs) ∷ values) = if beq k q then vs else get_value k values

-- url.URL, as far as the provider uses it: its String as New finds it, its scheme, its Hostname, and
-- its query.
pub record Url (Q : Type 0) : Type 0 where
  pub text : Bytes
  pub scheme : Bytes
  pub hostname : Bytes
  pub raw_query : Q

-- regexp.Regexp: its String, and what it matches.
pub record Regex : Type 0 where
  pub pattern_text : Bytes
  pub matches : Bytes → Bool

-- The struct decoded; encoding/json compiles the expression.
pub record CustomSettings : Type 0 where
  pub url : Bytes
  pub ipv4_key : Bytes
  pub ipv6_key : Bytes
  pub success_regex : Regex

-- The type Provider.
pub record CustomProvider (Q : Type 0) : Type 0 where
  pub base : Base
  pub url : Url Q
  pub ipv4_key : Bytes
  pub ipv6_key : Bytes
  pub success_regex : Regex

module _ {Q : Type 0} where
  -- validateSettings
  unfoldable pub validate_settings : Bytes → Url Q → Bytes → Bytes → Regex → Option SettingError
  unfolding checked_domain refuses beq
  validate_settings domain url ipv4_key ipv6_key success_regex = checked_domain domain (
      (beq url.text [], refuses url_not_set)
      ∷ (not (beq url.scheme (codes "https")), refused url_not_https url.scheme)
      ∷ (beq ipv4_key [], refuses ipv4_key_not_set)
      ∷ (beq ipv6_key [], refuses ipv6_key_not_set)
      ∷ (beq success_regex.pattern_text [], refuses success_regex_not_set)
      ∷ [])

  made_of : Base → CustomSettings → Url Q ⊎ Error → CustomProvider Q ⊎ NewError
  unfolding validate_settings validated
  made_of b extra (inr e) = inr (not_decoded (prefixed (codes "parsing URL") e))
  made_of b extra (inl url) =
      validated (validate_settings b.domain url extra.ipv4_key extra.ipv6_key extra.success_regex)
        (record {
          base = b;
          url = url;
          ipv4_key = extra.ipv4_key;
          ipv6_key = extra.ipv6_key;
          success_regex = extra.success_regex;
        })

  -- New, from what encoding/json returns; `parse_url` is url.Parse.
  unfoldable pub new :
      (Bytes → Url Q ⊎ Error)
      → CustomSettings ⊎ Error
      → Bytes
      → Bytes
      → IpVersion
      → Prefix
      → CustomProvider Q ⊎ NewError
  unfolding made_of
  new parse_url (inr e) domain owner version suffix =
      inr (not_decoded (prefixed (codes "JSON decoding provider specific settings") e))
  new parse_url (inl extra) domain owner version suffix =
      made_of
        (record { domain = domain; owner = owner; ip_version = version; ipv6_suffix = suffix })
        extra (parse_url extra.url)

  -- The key of the version of the address.
  unfoldable pub ip_key : CustomProvider Q → Addr → Bytes
  unfolding is6
  ip_key p ip = if is6 ip then p.ipv6_key else p.ipv4_key

  -- What Update makes of a reply.
  unfoldable pub interpret : CustomProvider Q → Addr → ℕ → Bytes ⊎ Error → Outcome
  unfolding read_all switch fails_with fails_by_status to_single_line
  interpret p ip code body = read_all body (λ s.
      switch
        ((not (code == 200), fails_by_status code (to_single_line s))
          ∷ (p.success_regex.matches s, inl ip)
          ∷ [])
        (fails_with unknown_response (to_single_line s)))

  -- The accessors; the link is of the host of the URL.
  unfoldable pub describe : CustomProvider Q → Described
  unfolding described anchor
  describe p = described p.base (codes "custom") (
      anchor (codes "https://" ++ (p.url.hostname ++ codes "/"))
        (codes "custom: " ++ p.url.hostname))

module _ {Q : Type 0} (parse_query : Q → Values ⊎ Error) (encode : Values → Q) (show : Addr → Bytes)
    (client : Url Q → Exchange) where
  update_with : CustomProvider Q → Addr → Values ⊎ Error → Outcome × CustomProvider Q
  unfolding exchanged interpret set_value ip_key
  update_with p ip (inr e) = (inr (caused (codes "parsing URL query") e), p)
  update_with p ip (inl values) =
      let query = encode (set_value (ip_key p ip) (show ip) values) in
      let p' = record p { url = record (p.url) { raw_query = query } } in
      (exchanged passed_on (client p'.url) (interpret p' ip), p')

  -- Update, with the provider that it leaves.
  unfoldable pub update : CustomProvider Q → Addr → Outcome × CustomProvider Q
  unfolding update_with
  update p ip = update_with p ip (parse_query p.url.raw_query)
