-- ===== src/Providers/Selfhostde.antt =====
-- internal/provider/providers/selfhostde/provider.go: the settings, the request of an update, and
-- what its reply gives.
use ddns_updater_beget.Common.{
  ℕ, not, ◌||◌, ◌⊎◌, inl, inr, [], ◌∷◌, Option, some, Bytes, codes, Error, beq, has_prefix, ◌==◌,
}
use ddns_updater_beget.Net.{Addr, Prefix}
use ddns_updater_beget.IpVersion.{IpVersion}
use ddns_updater_beget.Domain.{build_url_query_hostname}
use ddns_updater_beget.Providers.Errors.{
  SettingError, owner_wildcard, username_not_set, password_not_set, account_inactive, auth,
  bad_request, banned_abuse, dns_server_side, hostname_not_exists, ip_sent_malformed,
  private_ip_sent, unknown_response, zone_not_found,
}
use ddns_updater_beget.Providers.Client.{
  Request, Client, Outcome, user_agent, notfqdn, switch, fails, fails_with, fails_by_status,
  exchanged, doing_request, read_all, body_to_single_line,
}
use ddns_updater_beget.Providers.Settings.{
  Base, UserPassword, Described, described, anchor, checked_domain, refuses, NewError, not_decoded,
  validated,
}

-- The type Provider.
pub record SelfhostdeProvider : Type 0 where
  pub base : Base
  pub username : Bytes
  pub password : Bytes

-- validateSettings
unfoldable pub validate_settings : Bytes → Bytes → Bytes → Bytes → Option SettingError
unfolding beq refuses checked_domain
validate_settings domain owner username password = checked_domain domain (
    (beq owner (codes "*"), refuses owner_wildcard)
    ∷ (beq username [], refuses username_not_set)
    ∷ (beq password [], refuses password_not_set)
    ∷ [])

-- New, from what encoding/json returns
unfoldable pub new :
    UserPassword ⊎ Error → Bytes → Bytes → IpVersion → Prefix → SelfhostdeProvider ⊎ NewError
unfolding validate_settings validated
new (inr e) domain owner version suffix = inr (not_decoded e)
new (inl extra) domain owner version suffix =
    validated (validate_settings domain owner extra.username extra.password) (record {
      base = record { domain = domain; owner = owner; ip_version = version; ipv6_suffix = suffix };
      username = extra.username;
      password = extra.password;
    })

-- The accessors.
unfoldable pub describe : SelfhostdeProvider → Described
unfolding described anchor
describe p =
    described p.base (codes "selfhost.de")
      (anchor (codes "https://selfhost.de/") (codes "Selfhost.de"))

-- The request of Update.
unfoldable pub request : (Addr → Bytes) → SelfhostdeProvider → Addr → Request
unfolding build_url_query_hostname
request show p ip = record {
  host = codes "carol.selfhost.de";
  path = codes "/nic/update";
  user = some (p.username, p.password);
  query =
      (codes "hostname", build_url_query_hostname p.base.owner p.base.domain)
      ∷ (codes "myip", show ip)
      ∷ [];
  headers = user_agent ∷ [];
}

-- What Update makes of a reply.
unfoldable pub interpret : (Addr → Bytes) → Addr → ℕ → Bytes ⊎ Error → Outcome
unfolding switch read_all fails fails_with fails_by_status body_to_single_line has_prefix
interpret show ip code body =
    switch
      ((code == 204, inl ip)
        ∷ (code == 401, fails auth)
        ∷ (code == 409, fails zone_not_found)
        ∷ (code == 410, fails account_inactive)
        ∷ (code == 411, fails_with ip_sent_malformed (show ip))
        ∷ (code == 412, fails_with private_ip_sent (show ip))
        ∷ (code == 503, fails dns_server_side)
        ∷ (not (code == 200), fails_by_status code (body_to_single_line body))
        ∷ [])
      (read_all body (λ s.
        switch
          ((has_prefix s notfqdn, fails hostname_not_exists)
            ∷ (has_prefix s (codes "abuse"), fails banned_abuse)
            ∷ (has_prefix s (codes "badrequest"), fails bad_request)
            ∷ (has_prefix s (codes "good") || has_prefix s (codes "nochg"), inl ip)
            ∷ [])
          (fails_with unknown_response s)))

-- Update
unfoldable pub update : (Addr → Bytes) → Client → SelfhostdeProvider → Addr → Outcome
unfolding request interpret exchanged doing_request
update show client p ip = exchanged doing_request (client (request show p ip)) (interpret show ip)
