-- ===== src/Providers/Dyn.antt =====
-- internal/provider/providers/dyn/provider.go: the settings, the request of an update, and
-- what its reply gives.
use ddns_updater_beget.Common.{
  ℕ, not, ◌⊎◌, inl, inr, [], ◌∷◌, Option, some, Bytes, codes, Error, beq, has_prefix, ◌==◌,
  if◌then◌else◌,
}
use ddns_updater_beget.Net.{Addr, Prefix}
use ddns_updater_beget.IpVersion.{IpVersion}
use ddns_updater_beget.Domain.{build_url_query_hostname}
use ddns_updater_beget.PublicIp.Http.{to_single_line}
use ddns_updater_beget.Providers.Errors.{
  passed_on, SettingError, username_not_set, password_not_set, bad_request, hostname_not_exists,
  unknown_response,
}
use ddns_updater_beget.Providers.Client.{
  Request, Client, Outcome, user_agent, notfqdn, switch, fails, fails_with, fails_by_status,
  exchanged, doing_request, read_all,
}
use ddns_updater_beget.Providers.Settings.{
  Base, Described, described, anchor, checked_domain, refuses, NewError, not_decoded, validated,
}

-- The type Provider.
pub record DynProvider : Type 0 where
  pub base : Base
  pub username : Bytes
  pub client_key : Bytes

-- The struct decoded; `password` is the older name of the client key.
pub record DynSettings : Type 0 where
  pub username : Bytes
  pub password : Bytes
  pub client_key : Bytes

unfoldable pub client_key_of : DynSettings → Bytes
unfolding beq
client_key_of extra = if beq extra.client_key [] then extra.password else extra.client_key

-- validateSettings
unfoldable pub validate_settings : Bytes → Bytes → Bytes → Option SettingError
unfolding beq refuses checked_domain
validate_settings domain username client_key = checked_domain domain (
    (beq username [], refuses username_not_set)
    ∷ (beq client_key [], refuses password_not_set)
    ∷ [])

-- New, from what encoding/json returns
unfoldable pub new :
    DynSettings ⊎ Error → Bytes → Bytes → IpVersion → Prefix → DynProvider ⊎ NewError
unfolding validate_settings validated client_key_of
new (inr e) domain owner version suffix = inr (not_decoded e)
new (inl extra) domain owner version suffix =
    let client_key = client_key_of extra in
    validated (validate_settings domain extra.username client_key) (record {
      base = record { domain = domain; owner = owner; ip_version = version; ipv6_suffix = suffix };
      username = extra.username;
      client_key = client_key;
    })

-- The accessors.
unfoldable pub describe : DynProvider → Described
unfolding described anchor
describe p = described p.base (codes "dyn") (anchor (codes "https://dyn.com/") (codes "Dyn DNS"))

-- The request of Update.
unfoldable pub request : (Addr → Bytes) → DynProvider → Addr → Request
unfolding build_url_query_hostname
request show p ip = record {
  host = codes "members.dyndns.org";
  path = codes "/v3/update";
  user = some (p.username, p.client_key);
  query =
      (codes "hostname", build_url_query_hostname p.base.owner p.base.domain)
      ∷ (codes "myip", show ip)
      ∷ [];
  headers = user_agent ∷ [];
}

-- What Update makes of a reply.
unfoldable pub interpret : Addr → ℕ → Bytes ⊎ Error → Outcome
unfolding switch read_all fails fails_with fails_by_status to_single_line has_prefix
interpret ip code body = read_all body (λ s.
    switch
      ((not (code == 200), fails_by_status code (to_single_line s))
        ∷ (has_prefix s notfqdn, fails hostname_not_exists)
        ∷ (has_prefix s (codes "badrequest"), fails bad_request)
        ∷ (has_prefix s (codes "good"), inl ip)
        ∷ [])
      (fails_with unknown_response s))

-- Update
unfoldable pub update : (Addr → Bytes) → Client → DynProvider → Addr → Outcome
unfolding request interpret exchanged doing_request
update show client p ip = exchanged passed_on (client (request show p ip)) (interpret ip)
