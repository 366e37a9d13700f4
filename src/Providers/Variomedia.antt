-- ===== src/Providers/Variomedia.antt =====
-- internal/provider/providers/variomedia/provider.go: the settings, the request of an update, and
-- what its reply gives.
use ddns_updater_beget.Common.{
  ℕ, not, ◌⊎◌, inl, inr, [], ◌∷◌, Option, some, Bytes, codes, Error, beq, has_prefix, ◌==◌,
  if◌then◌else◌,
}
use ddns_updater_beget.Net.{Addr, Prefix, is6}
use ddns_updater_beget.IpVersion.{IpVersion}
use ddns_updater_beget.Domain.{build_url_query_hostname}
use ddns_updater_beget.PublicIp.Http.{to_single_line}
use ddns_updater_beget.Providers.Errors.{
  SettingError, owner_wildcard, password_not_set, email_not_set, bad_request, hostname_not_exists,
  unknown_response,
}
use ddns_updater_beget.Providers.Client.{
  Request, Client, Outcome, user_agent, notfqdn, switch, fails, fails_with, fails_by_status,
  exchanged, doing_request, read_all,
}
use ddns_updater_beget.Providers.Settings.{
  Base, Described, described, anchor, checked_domain, refuses, NewError, not_decoded, validated,
}

-- The type Provider.
pub record VariomediaProvider : Type 0 where
  pub base : Base
  pub email : Bytes
  pub password : Bytes

-- The struct decoded.
pub record VariomediaSettings : Type 0 where
  pub email : Bytes
  pub password : Bytes

-- validateSettings
unfoldable pub validate_settings : Bytes → Bytes → Bytes → Bytes → Option SettingError
unfolding beq refuses checked_domain
validate_settings domain owner email password = checked_domain domain (
    (beq owner (codes "*"), refuses owner_wildcard)
    ∷ (beq email [], refuses email_not_set)
    ∷ (beq password [], refuses password_not_set)
    ∷ [])

-- New, from what encoding/json returns
unfoldable pub new :
    VariomediaSettings ⊎ Error → Bytes → Bytes → IpVersion → Prefix → VariomediaProvider ⊎ NewError
unfolding validate_settings validated
new (inr e) domain owner version suffix = inr (not_decoded e)
new (inl extra) domain owner version suffix =
    validated (validate_settings domain owner extra.email extra.password) (record {
      base = record { domain = domain; owner = owner; ip_version = version; ipv6_suffix = suffix };
      email = extra.email;
      password = extra.password;
    })

-- The accessors.
unfoldable pub describe : VariomediaProvider → Described
unfolding described anchor
describe p =
    described p.base (codes "variomedia")
      (anchor (codes "https://variomedia.de/") (codes "Variomedia"))

-- The request of Update.
unfoldable pub request : (Addr → Bytes) → VariomediaProvider → Addr → Request
unfolding build_url_query_hostname is6
request show p ip = record {
  host = if is6 ip then codes "dyndns6.variomedia.de" else codes "dyndns4.variomedia.de";
  path = codes "/nic/update";
  user = some (p.email, p.password);
  query =
      (codes "hostname", build_url_query_hostname p.base.owner p.base.domain)
      ∷ (codes "myip", show ip)
      ∷ [];
  headers = user_agent ∷ [];
}

-- What Update makes of a reply.
unfoldable pub interpret : Addr → ℕ → Bytes ⊎ Error → Outcome
unfolding switch read_all fails fails_with fails_by_status to_single_line has_prefix
interpret ip code body = read_all body (λ s.
    switch
      ((not (code == 200), fails_by_status code (to_single_line s))
        ∷ (has_prefix s notfqdn, fails hostname_not_exists)
        ∷ (has_prefix s (codes "badrequest"), fails bad_request)
        ∷ (has_prefix s (codes "good"), inl ip)
        ∷ [])
      (fails_with unknown_response s))

-- Update
unfoldable pub update : (Addr → Bytes) → Client → VariomediaProvider → Addr → Outcome
unfolding request interpret exchanged doing_request
update show client p ip = exchanged doing_request (client (request show p ip)) (interpret ip)
