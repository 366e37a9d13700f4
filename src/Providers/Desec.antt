-- ===== src/Providers/Desec.antt =====
-- internal/provider/providers/desec/provider.go: the settings, the request of an update, and
-- what its reply gives.
use ddns_updater_beget.Common.{
  ℕ, not, ◌⊎◌, inl, inr, [], ◌∷◌, Option, some, Bytes, codes, Error, beq, has_prefix, ◌==◌,
  if◌then◌else◌,
}
use ddns_updater_beget.Net.{Addr, Prefix}
use ddns_updater_beget.IpVersion.{IpVersion}
use ddns_updater_beget.Domain.{build_domain_name, build_url_query_hostname}
use ddns_updater_beget.PublicIp.Http.{to_single_line}
use ddns_updater_beget.Providers.Errors.{
  passed_on, SettingError, token_not_set, auth, bad_request, hostname_not_exists, unknown_response,
}
use ddns_updater_beget.Providers.Client.{
  Request, Client, Outcome, user_agent, notfqdn, switch, fails, fails_with, fails_by_status,
  exchanged, doing_request, read_all,
}
use ddns_updater_beget.Providers.Settings.{
  Base, OnlyToken, Described, described, anchor, checked_domain, refuses, NewError, not_decoded,
  validated,
}

-- The type Provider.
pub record DesecProvider : Type 0 where
  pub base : Base
  pub token : Bytes

-- validateSettings
unfoldable pub validate_settings : Bytes → Bytes → Option SettingError
unfolding beq refuses checked_domain
validate_settings domain token = checked_domain domain ((beq token [], refuses token_not_set) ∷ [])

-- New, from what encoding/json returns
unfoldable pub new :
    OnlyToken ⊎ Error → Bytes → Bytes → IpVersion → Prefix → DesecProvider ⊎ NewError
unfolding validate_settings validated beq
new (inr e) domain owner version suffix = inr (not_decoded e)
new (inl extra) domain owner version suffix =
    let owner' = if beq owner [] then codes "@" else owner in
    validated (validate_settings domain extra.token) (record {
      base = record { domain = domain; owner = owner'; ip_version = version; ipv6_suffix = suffix };
      token = extra.token;
    })

-- The accessors.
unfoldable pub describe : DesecProvider → Described
unfolding described anchor
describe p = described p.base (codes "desec") (anchor (codes "https://desec.io/") (codes "deSEC"))

-- The request of Update.
unfoldable pub request : (Addr → Bytes) → DesecProvider → Addr → Request
unfolding build_url_query_hostname build_domain_name
request show p ip = record {
  host = codes "update.dedyn.io";
  path = codes "/nic/update";
  user = some (build_domain_name p.base.owner p.base.domain, p.token);
  query =
      (codes "hostname", build_url_query_hostname p.base.owner p.base.domain)
      ∷ (codes "myip", show ip)
      ∷ [];
  headers = user_agent ∷ [];
}

-- What Update makes of a reply.
unfoldable pub interpret : Addr → ℕ → Bytes ⊎ Error → Outcome
unfolding switch read_all fails fails_with fails_by_status to_single_line has_prefix
interpret ip code body = read_all body (λ s.
    switch
      ((code == 401, fails_with auth (to_single_line s))
        ∷ (code == 404, fails_with hostname_not_exists (to_single_line s))
        ∷ (not (code == 200), fails_by_status code (to_single_line s))
        ∷ (has_prefix s notfqdn, fails hostname_not_exists)
        ∷ (has_prefix s (codes "badrequest"), fails bad_request)
        ∷ (has_prefix s (codes "good"), inl ip)
        ∷ [])
      (fails_with unknown_response (to_single_line s)))

-- Update
unfoldable pub update : (Addr → Bytes) → Client → DesecProvider → Addr → Outcome
unfolding request interpret exchanged doing_request
update show client p ip = exchanged passed_on (client (request show p ip)) (interpret ip)
