-- ===== src/Providers/Easydns.antt =====
-- internal/provider/providers/easydns/provider.go: the settings, the request of an update, and
-- what its reply gives.
use ddns_updater_beget.Common.{
  ℕ, not, ◌||◌, ◌⊎◌, inl, inr, [], ◌∷◌, Option, some, Bytes, codes, Error, beq, contains, ◌==◌,
  if◌then◌else◌,
}
use ddns_updater_beget.Net.{Addr, Prefix}
use ddns_updater_beget.IpVersion.{IpVersion}
use ddns_updater_beget.Domain.{build_url_query_hostname}
use ddns_updater_beget.PublicIp.Http.{to_single_line}
use ddns_updater_beget.Providers.Errors.{
  passed_on, SettingError, username_not_set, token_not_set, auth, banned_abuse, no_service,
  received_no_result, unknown_response,
}
use ddns_updater_beget.Providers.Client.{
  Request, Client, Outcome, user_agent, switch, fails, fails_with, fails_by_status, exchanged,
  doing_request, read_all,
}
use ddns_updater_beget.Providers.Settings.{
  Base, UserToken, Described, described, anchor, checked_domain, refuses, NewError, not_decoded,
  validated,
}

-- The type Provider.
pub record EasydnsProvider : Type 0 where
  pub base : Base
  pub username : Bytes
  pub token : Bytes

-- validateSettings
unfoldable pub validate_settings : Bytes → Bytes → Bytes → Option SettingError
unfolding beq refuses checked_domain
validate_settings domain username token =
    checked_domain domain
      ((beq username [], refuses username_not_set) ∷ (beq token [], refuses token_not_set) ∷ [])

-- New, from what encoding/json returns
unfoldable pub new :
    UserToken ⊎ Error → Bytes → Bytes → IpVersion → Prefix → EasydnsProvider ⊎ NewError
unfolding validate_settings validated
new (inr e) domain owner version suffix = inr (not_decoded e)
new (inl extra) domain owner version suffix =
    validated (validate_settings domain extra.username extra.token) (record {
      base = record { domain = domain; owner = owner; ip_version = version; ipv6_suffix = suffix };
      username = extra.username;
      token = extra.token;
    })

-- The accessors.
unfoldable pub describe : EasydnsProvider → Described
unfolding described anchor
describe p =
    described p.base (codes "easydns") (anchor (codes "https://easydns.com") (codes "EasyDNS"))

-- The request of Update.
unfoldable pub request : (Addr → Bytes) → EasydnsProvider → Addr → Request
unfolding build_url_query_hostname beq
request show p ip = record {
  host = codes "api.cp.easydns.com";
  path = codes "dyn/generic.php";
  user = some (p.username, p.token);
  query =
      (codes "hostname", build_url_query_hostname p.base.owner p.base.domain)
      ∷ (codes "myip", show ip)
      ∷ (if beq p.base.owner (codes "*") then (codes "wildcard", codes "ON") ∷ [] else []);
  headers = user_agent ∷ [];
}

-- What Update makes of a reply.
unfoldable pub interpret : Addr → ℕ → Bytes ⊎ Error → Outcome
unfolding switch read_all fails fails_with fails_by_status to_single_line beq contains
interpret ip code body = read_all body (λ s.
    switch
      ((not (code == 200), fails_by_status code (to_single_line s))
        ∷ (beq s [], fails received_no_result)
        ∷ (contains s (codes "NO_SERVICE"), fails no_service)
        ∷ (contains s (codes "NO_ACCESS"), fails auth)
        ∷ (contains s (codes "ILLEGAL_INPUT") || contains s (codes "TOO_SOON"), fails banned_abuse)
        ∷ (contains s (codes "NO_ERROR") || contains s (codes "OK"), inl ip)
        ∷ [])
      (fails_with unknown_response (to_single_line s)))

-- Update
unfoldable pub update : (Addr → Bytes) → Client → EasydnsProvider → Addr → Outcome
unfolding request interpret exchanged doing_request
update show client p ip = exchanged passed_on (client (request show p ip)) (interpret ip)
