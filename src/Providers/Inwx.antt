-- ===== src/Providers/Inwx.antt =====
-- internal/provider/providers/inwx/provider.go: the settings, the request of an update, and
-- what its reply gives.
use ddns_updater_beget.Common.{
  ℕ, not, ◌&&◌, ◌⊎◌, inl, inr, [], ◌∷◌, Option, some, Bytes, codes, Error, prefixed, beq,
  has_prefix, ◌==◌, if◌then◌else◌,
}
use ddns_updater_beget.Net.{Addr, Prefix, is4}
use ddns_updater_beget.IpVersion.{IpVersion}
use ddns_updater_beget.Domain.{build_url_query_hostname}
use ddns_updater_beget.Providers.Errors.{
  SettingError, username_not_set, password_not_set, unknown_response,
}
use ddns_updater_beget.Providers.Client.{
  Request, Client, Outcome, user_agent, switch, fails_with, fails_by_status, exchanged,
  doing_request, read_all,
}
use ddns_updater_beget.Providers.Settings.{
  Base, UserPassword, Described, described, anchor, checked_domain, refuses, NewError, not_decoded,
  validated,
}

-- The type Provider.
pub record InwxProvider : Type 0 where
  pub base : Base
  pub username : Bytes
  pub password : Bytes

-- validateSettings
unfoldable pub validate_settings : Bytes → Bytes → Bytes → Option SettingError
unfolding beq refuses checked_domain
validate_settings domain username password =
    checked_domain domain (
      (beq username [], refuses username_not_set)
      ∷ (beq password [], refuses password_not_set)
      ∷ [])

-- New, from what encoding/json returns
unfoldable pub new :
    UserPassword ⊎ Error → Bytes → Bytes → IpVersion → Prefix → InwxProvider ⊎ NewError
unfolding validate_settings validated
new (inr e) domain owner version suffix =
    inr (not_decoded (prefixed (codes "decoding inwx extra settings") e))
new (inl extra) domain owner version suffix =
    validated (validate_settings domain extra.username extra.password) (record {
      base = record { domain = domain; owner = owner; ip_version = version; ipv6_suffix = suffix };
      username = extra.username;
      password = extra.password;
    })

-- The accessors.
unfoldable pub describe : InwxProvider → Described
unfolding described anchor
describe p = described p.base (codes "inwx") (anchor (codes "https://inwx.com/") (codes "INWX"))

-- The request of Update.
unfoldable pub request : (Addr → Bytes) → InwxProvider → Addr → Request
unfolding build_url_query_hostname is4
request show p ip = record {
  host = codes "dyndns.inwx.com";
  path = codes "/nic/update";
  user = some (p.username, p.password);
  query =
      (codes "hostname", build_url_query_hostname p.base.owner p.base.domain)
      ∷ (if is4 ip then codes "myip" else codes "myipv6", show ip)
      ∷ [];
  headers = user_agent ∷ [];
}

-- What Update makes of a reply.
unfoldable pub interpret : Addr → ℕ → Bytes ⊎ Error → Outcome
unfolding switch read_all fails_with fails_by_status has_prefix
interpret ip code body = read_all body (λ s.
    switch
      ((not (code == 200), fails_by_status code s)
        ∷ (
          not (has_prefix s (codes "good")) && not (has_prefix s (codes "nochg")),
          fails_with unknown_response s,
        )
        ∷ [])
      (inl ip))

-- Update
unfoldable pub update : (Addr → Bytes) → Client → InwxProvider → Addr → Outcome
unfolding request interpret exchanged doing_request
update show client p ip = exchanged doing_request (client (request show p ip)) (interpret ip)
