-- ===== src/Providers/Dynv6.antt =====
-- internal/provider/providers/dynv6/provider.go: the settings, the request of an update, and
-- what its reply gives.
use ddns_updater_beget.Common.{
  ℕ, ◌⊎◌, inl, inr, [], ◌∷◌, Option, none, Bytes, codes, Error, beq, ◌==◌, if◌then◌else◌,
}
use ddns_updater_beget.Net.{Addr, Prefix, is4}
use ddns_updater_beget.IpVersion.{IpVersion}
use ddns_updater_beget.Domain.{build_url_query_hostname}
use ddns_updater_beget.Providers.Errors.{passed_on, SettingError, owner_wildcard, token_not_set}
use ddns_updater_beget.Providers.Client.{
  Request, Client, Outcome, user_agent, switch, fails_by_status, exchanged, doing_request,
  body_to_single_line,
}
use ddns_updater_beget.Providers.Settings.{
  Base, OnlyToken, Described, described, anchor, checked_domain, refuses, NewError, not_decoded,
  validated,
}

-- The type Provider.
pub record Dynv6Provider : Type 0 where
  pub base : Base
  pub token : Bytes

-- validateSettings
unfoldable pub validate_settings : Bytes → Bytes → Bytes → Option SettingError
unfolding beq refuses checked_domain
validate_settings domain owner token =
    checked_domain domain
      ((beq owner (codes "*"), refuses owner_wildcard) ∷ (beq token [], refuses token_not_set) ∷ [])

-- New, from what encoding/json returns
unfoldable pub new :
    OnlyToken ⊎ Error → Bytes → Bytes → IpVersion → Prefix → Dynv6Provider ⊎ NewError
unfolding validate_settings validated
new (inr e) domain owner version suffix = inr (not_decoded e)
new (inl extra) domain owner version suffix =
    validated (validate_settings domain owner extra.token) (record {
      base = record { domain = domain; owner = owner; ip_version = version; ipv6_suffix = suffix };
      token = extra.token;
    })

-- The accessors.
unfoldable pub describe : Dynv6Provider → Described
unfolding described anchor
describe p =
    described p.base (codes "dynv6") (anchor (codes "https://dynv6.com/") (codes "DynV6 DNS"))

-- The request of Update.
unfoldable pub request : (Addr → Bytes) → Dynv6Provider → Addr → Request
unfolding build_url_query_hostname is4
request show p ip = record {
  host = if is4 ip then codes "ipv4.dynv6.com" else codes "ipv6.dynv6.com";
  path = codes "/api/update";
  user = none;
  query =
      (codes "token", p.token)
      ∷ (codes "zone", build_url_query_hostname p.base.owner p.base.domain)
      ∷ (if is4 ip then codes "ipv4" else codes "ipv6", show ip)
      ∷ [];
  headers = user_agent ∷ [];
}

-- What Update makes of a reply.
unfoldable pub interpret : Addr → ℕ → Bytes ⊎ Error → Outcome
unfolding switch fails_by_status body_to_single_line
interpret ip code body =
    switch ((code == 200, inl ip) ∷ []) (fails_by_status code (body_to_single_line body))

-- Update
unfoldable pub update : (Addr → Bytes) → Client → Dynv6Provider → Addr → Outcome
unfolding request interpret exchanged doing_request
update show client p ip = exchanged passed_on (client (request show p ip)) (interpret ip)
