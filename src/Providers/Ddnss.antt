-- ===== src/Providers/Ddnss.antt =====
-- internal/provider/providers/ddnss/provider.go: the settings, the request of an update, and
-- what its reply gives.
use ddns_updater_beget.Common.{
  ℕ, Bool, not, ◌&&◌, ◌⊎◌, inl, inr, [], ◌∷◌, Option, none, Bytes, codes, Error, beq, contains,
  ◌==◌, if◌then◌else◌,
}
use ddns_updater_beget.Net.{Addr, Prefix, is6}
use ddns_updater_beget.IpVersion.{IpVersion}
use ddns_updater_beget.Domain.{build_url_query_hostname}
use ddns_updater_beget.PublicIp.Http.{to_single_line}
use ddns_updater_beget.Providers.Errors.{
  passed_on, SettingError, owner_wildcard, username_not_set, password_not_set, auth,
  hostname_not_exists, system_param_not_valid, unknown_response,
}
use ddns_updater_beget.Providers.Client.{
  Request, Client, Outcome, user_agent, badauth, notfqdn, switch, fails, fails_with,
  fails_by_status, exchanged, doing_request, read_all,
}
use ddns_updater_beget.Providers.Settings.{
  Base, Described, described, anchor, checked_domain, refuses, NewError, not_decoded, validated,
}

-- The type Provider.
pub record DdnssProvider : Type 0 where
  pub base : Base
  pub username : Bytes
  pub password : Bytes
  pub dual_stack : Bool

-- The struct decoded.
pub record DdnssSettings : Type 0 where
  pub username : Bytes
  pub password : Bytes
  pub dual_stack : Bool

-- validateSettings
unfoldable pub validate_settings : Bytes → Bytes → Bytes → Bytes → Option SettingError
unfolding beq refuses checked_domain
validate_settings domain owner username password = checked_domain domain (
    (beq owner (codes "*"), refuses owner_wildcard)
    ∷ (beq username [], refuses username_not_set)
    ∷ (beq password [], refuses password_not_set)
    ∷ [])

-- New, from what encoding/json returns
unfoldable pub new :
    DdnssSettings ⊎ Error → Bytes → Bytes → IpVersion → Prefix → DdnssProvider ⊎ NewError
unfolding validate_settings validated
new (inr e) domain owner version suffix = inr (not_decoded e)
new (inl extra) domain owner version suffix =
    validated (validate_settings domain owner extra.username extra.password) (record {
      base = record { domain = domain; owner = owner; ip_version = version; ipv6_suffix = suffix };
      username = extra.username;
      password = extra.password;
      dual_stack = extra.dual_stack;
    })

-- The accessors.
unfoldable pub describe : DdnssProvider → Described
unfolding described anchor
describe p =
    described p.base (codes "ddnss") (anchor (codes "https://ddnss.de/") (codes "DDNSS.de"))

-- The request of Update.
unfoldable pub request : (Addr → Bytes) → DdnssProvider → Addr → Request
unfolding build_url_query_hostname is6
request show p ip = record {
  host = codes "www.ddnss.de";
  path = codes "/upd.php";
  user = none;
  query =
      (codes "user", p.username)
      ∷ (codes "pwd", p.password)
      ∷ (codes "host", build_url_query_hostname p.base.owner p.base.domain)
      ∷ (if p.dual_stack && is6 ip then codes "ip6" else codes "ip", show ip)
      ∷ [];
  headers = user_agent ∷ [];
}

-- What Update makes of a reply.
unfoldable pub interpret : Addr → ℕ → Bytes ⊎ Error → Outcome
unfolding switch read_all fails fails_with fails_by_status to_single_line contains
interpret ip code body = read_all body (λ s.
    switch
      ((not (code == 200), fails_by_status code (to_single_line s))
        ∷ (contains s (codes "badysys"), fails system_param_not_valid)
        ∷ (contains s badauth, fails auth)
        ∷ (contains s notfqdn, fails hostname_not_exists)
        ∷ (contains s (codes "Updated 1 hostname"), inl ip)
        ∷ [])
      (fails_with unknown_response s))

-- Update
unfoldable pub update : (Addr → Bytes) → Client → DdnssProvider → Addr → Outcome
unfolding request interpret exchanged doing_request
update show client p ip = exchanged passed_on (client (request show p ip)) (interpret ip)
