-- ===== src/Providers/Allinkl.antt =====
-- internal/provider/providers/allinkl/provider.go: the settings, the request of an update, and
-- what its reply gives.
use ddns_updater_beget.Common.{
  ℕ, not, ◌&&◌, ◌⊎◌, inl, inr, [], ◌∷◌, Option, some, Bytes, codes, Error, beq, contains, ◌==◌,
  if◌then◌else◌,
}
use ddns_updater_beget.Net.{Addr, Prefix, is6}
use ddns_updater_beget.IpVersion.{IpVersion}
use ddns_updater_beget.Domain.{build_url_query_hostname}
use ddns_updater_beget.PublicIp.Http.{to_single_line}
use ddns_updater_beget.Providers.Errors.{
  SettingError, owner_wildcard, username_not_set, password_not_set, auth, banned_abuse,
  banned_user_agent, dns_server_side, feature_unavailable, hostname_not_exists, received_no_result,
  unknown_response,
}
use ddns_updater_beget.Providers.Client.{
  Request, Client, Outcome, user_agent, badauth, nohost, badagent, abuse, nineoneone, switch, fails,
  fails_with, fails_by_status, exchanged, doing_request, read_all, extracted,
}
use ddns_updater_beget.Providers.Settings.{
  Base, UserPassword, Described, described, anchor, checked_domain, refuses, NewError, not_decoded,
  validated,
}

-- The type Provider.
pub record AllinklProvider : Type 0 where
  pub base : Base
  pub username : Bytes
  pub password : Bytes

-- validateSettings
unfoldable pub validate_settings : Bytes → Bytes → Bytes → Bytes → Option SettingError
unfolding beq refuses checked_domain
validate_settings domain owner username password = checked_domain domain (
    (beq owner (codes "*"), refuses owner_wildcard)
    ∷ (beq username [], refuses username_not_set)
    ∷ (beq password [], refuses password_not_set)
    ∷ [])

-- New, from what encoding/json returns
unfoldable pub new :
    UserPassword ⊎ Error → Bytes → Bytes → IpVersion → Prefix → AllinklProvider ⊎ NewError
unfolding validate_settings validated
new (inr e) domain owner version suffix = inr (not_decoded e)
new (inl extra) domain owner version suffix =
    validated (validate_settings domain owner extra.username extra.password) (record {
      base = record { domain = domain; owner = owner; ip_version = version; ipv6_suffix = suffix };
      username = extra.username;
      password = extra.password;
    })

-- The accessors.
unfoldable pub describe : AllinklProvider → Described
unfolding described anchor
describe p =
    described p.base (codes "allinkl")
      (anchor (codes "https://all-inkl.com/") (codes "ALL-INKL.com"))

-- The request of Update.
unfoldable pub request : (Addr → Bytes) → AllinklProvider → Addr → Request
unfolding build_url_query_hostname is6
request show p ip = record {
  host = codes "dyndns.kasserver.com";
  path = codes "/";
  user = some (p.username, p.password);
  query =
      (codes "host", build_url_query_hostname p.base.owner p.base.domain)
      ∷ (if is6 ip then codes "myip6" else codes "myip", show ip)
      ∷ [];
  headers = user_agent ∷ [];
}

-- What Update makes of a reply.
unfoldable pub interpret :
    (Addr → Bytes) → (Bytes → Option Addr) → Addr → ℕ → Bytes ⊎ Error → Outcome
unfolding switch read_all fails fails_with fails_by_status extracted to_single_line beq contains
interpret show parse ip code body = read_all body (λ s.
    switch
      ((not (code == 200), fails_by_status code (to_single_line s))
        ∷ (beq s [], fails received_no_result)
        ∷ (beq s nineoneone, fails dns_server_side)
        ∷ (beq s abuse, fails banned_abuse)
        ∷ (beq s (codes "!donator"), fails feature_unavailable)
        ∷ (beq s badagent, fails banned_user_agent)
        ∷ (beq s badauth, fails auth)
        ∷ (beq s nohost, fails hostname_not_exists)
        ∷ (
          not (contains s (codes "nochg")) && not (contains s (codes "good")),
          fails_with unknown_response s,
        )
        ∷ [])
      (extracted show parse ip s))

-- Update
unfoldable pub update :
    (Addr → Bytes) → (Bytes → Option Addr) → Client → AllinklProvider → Addr → Outcome
unfolding request interpret exchanged doing_request
update show parse client p ip =
    exchanged doing_request (client (request show p ip)) (interpret show parse ip)
