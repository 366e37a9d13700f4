-- ===== src/Providers/Strato.antt =====
-- internal/provider/providers/strato/provider.go: the settings, the request of an update, and
-- what its reply gives.
use ddns_updater_beget.Common.{
  ℕ, not, ◌||◌, ◌⊎◌, inl, inr, [], ◌∷◌, Option, some, Bytes, codes, Error, beq, has_prefix, ◌==◌,
}
use ddns_updater_beget.Net.{Addr, Prefix}
use ddns_updater_beget.IpVersion.{IpVersion}
use ddns_updater_beget.Domain.{build_url_query_hostname}
use ddns_updater_beget.Providers.Errors.{
  SettingError, owner_wildcard, password_not_set, auth, bad_request, banned_abuse,
  hostname_not_exists, unknown_response,
}
use ddns_updater_beget.Providers.Client.{
  Request, Client, Outcome, user_agent, notfqdn, abuse, switch, fails, fails_with, fails_by_status,
  exchanged, doing_request, read_all,
}
use ddns_updater_beget.Providers.Settings.{
  Base, OnlyPassword, Described, described, anchor, checked_domain, refuses, NewError, not_decoded,
  validated,
}

-- The type Provider.
pub record StratoProvider : Type 0 where
  pub base : Base
  pub password : Bytes

-- validateSettings
unfoldable pub validate_settings : Bytes → Bytes → Bytes → Option SettingError
unfolding beq refuses checked_domain
validate_settings domain owner password = checked_domain domain (
    (beq owner (codes "*"), refuses owner_wildcard)
    ∷ (beq password [], refuses password_not_set)
    ∷ [])

-- New, from what encoding/json returns
unfoldable pub new :
    OnlyPassword ⊎ Error → Bytes → Bytes → IpVersion → Prefix → StratoProvider ⊎ NewError
unfolding validate_settings validated
new (inr e) domain owner version suffix = inr (not_decoded e)
new (inl extra) domain owner version suffix =
    validated (validate_settings domain owner extra.password) (record {
      base = record { domain = domain; owner = owner; ip_version = version; ipv6_suffix = suffix };
      password = extra.password;
    })

-- The accessors.
unfoldable pub describe : StratoProvider → Described
unfolding described anchor
describe p =
    described p.base (codes "strato") (anchor (codes "https://strato.com/") (codes "Strato DNS"))

-- The request of Update.
unfoldable pub request : (Addr → Bytes) → StratoProvider → Addr → Request
unfolding build_url_query_hostname
request show p ip = record {
  host = codes "dyndns.strato.com";
  path = codes "/nic/update";
  user = some (p.base.domain, p.password);
  query =
      (codes "hostname", build_url_query_hostname p.base.owner p.base.domain)
      ∷ (codes "myip", show ip)
      ∷ [];
  headers = user_agent ∷ [];
}

-- The case of the authentication compares with the literal "constants.Badauth", as the code does.
unfoldable pub interpret : Addr → ℕ → Bytes ⊎ Error → Outcome
unfolding switch read_all fails fails_with fails_by_status has_prefix
interpret ip code body = read_all body (λ s.
    switch
      ((not (code == 200), fails_by_status code s)
        ∷ (has_prefix s notfqdn, fails hostname_not_exists)
        ∷ (has_prefix s abuse, fails banned_abuse)
        ∷ (has_prefix s (codes "badrequest"), fails bad_request)
        ∷ (has_prefix s (codes "constants.Badauth"), fails auth)
        ∷ (has_prefix s (codes "good") || has_prefix s (codes "nochg"), inl ip)
        ∷ [])
      (fails_with unknown_response s))

-- Update
unfoldable pub update : (Addr → Bytes) → Client → StratoProvider → Addr → Outcome
unfolding request interpret exchanged doing_request
update show client p ip = exchanged doing_request (client (request show p ip)) (interpret ip)
