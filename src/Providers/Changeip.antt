-- ===== src/Providers/Changeip.antt =====
-- internal/provider/providers/changeip/provider.go: the settings, the request of an update, and
-- what its reply gives.
use ddns_updater_beget.Common.{
  ℕ, not, ◌⊎◌, inl, inr, [], ◌∷◌, Option, none, some, Bytes, codes, Error, prefixed, beq, ◌==◌,
}
use ddns_updater_beget.Net.{Addr, Prefix}
use ddns_updater_beget.IpVersion.{IpVersion}
use ddns_updater_beget.Domain.{build_url_query_hostname}
use ddns_updater_beget.Providers.Errors.{
  caused, SettingError, owner_not_set, username_not_set, password_not_set,
}
use ddns_updater_beget.Providers.Client.{
  Request, Client, Outcome, user_agent, switch, fails_by_status, exchanged, doing_request,
  body_to_single_line,
}
use ddns_updater_beget.Providers.Settings.{
  Base, UserPassword, Described, described, anchor, checked_domain, refuses, NewError, not_decoded,
  validated,
}

-- The type Provider.
pub record ChangeipProvider : Type 0 where
  pub base : Base
  pub username : Bytes
  pub password : Bytes

-- validateSettings
unfoldable pub validate_settings : Bytes → Bytes → Bytes → Bytes → Option SettingError
unfolding beq refuses checked_domain
validate_settings domain owner username password = checked_domain domain (
    (beq owner [], refuses owner_not_set)
    ∷ (beq username [], refuses username_not_set)
    ∷ (beq password [], refuses password_not_set)
    ∷ [])

-- New, from what encoding/json returns
unfoldable pub new :
    UserPassword ⊎ Error → Bytes → Bytes → IpVersion → Prefix → ChangeipProvider ⊎ NewError
unfolding validate_settings validated
new (inr e) domain owner version suffix =
    inr (not_decoded (prefixed (codes "json decoding provider specific settings") e))
new (inl extra) domain owner version suffix =
    validated (validate_settings domain owner extra.username extra.password) (record {
      base = record { domain = domain; owner = owner; ip_version = version; ipv6_suffix = suffix };
      username = extra.username;
      password = extra.password;
    })

-- The accessors.
unfoldable pub describe : ChangeipProvider → Described
unfolding described anchor
describe p =
    described p.base (codes "changeip")
      (anchor (codes "https://www.changeip.com") (codes "changeip.com"))

-- The request of Update. The user is set by request.SetBasicAuth.
unfoldable pub request : (Addr → Bytes) → ChangeipProvider → Addr → Request
unfolding build_url_query_hostname
request show p ip = record {
  host = codes "nic.ChangeIP.com";
  path = codes "/nic/update";
  user = some (p.username, p.password);
  query =
      (codes "hostname", build_url_query_hostname p.base.owner p.base.domain)
      ∷ (codes "ip", show ip)
      ∷ [];
  headers = user_agent ∷ [];
}

-- What Update makes of a reply.
unfoldable pub interpret : Option Error → Addr → ℕ → Bytes ⊎ Error → Outcome
unfolding switch fails_by_status body_to_single_line
interpret close ip code body =
    switch ((not (code == 200), fails_by_status code (body_to_single_line body)) ∷ [])
      (elim close [ none ↦ inl ip | some e ↦ inr (caused (codes "closing response body") e) ])

-- Update, where `close` is how the body is closed
unfoldable pub update : (Addr → Bytes) → Client → Option Error → ChangeipProvider → Addr → Outcome
unfolding request interpret exchanged doing_request
update show client close p ip =
    exchanged doing_request (client (request show p ip)) (interpret close ip)
