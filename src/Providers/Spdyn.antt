-- ===== src/Providers/Spdyn.antt =====
-- internal/provider/providers/spdyn/provider.go: the settings, the request of an update, and
-- what its reply gives.
use ddns_updater_beget.Common.{
  ℕ, Bool, true, false, not, ◌&&◌, ◌⊎◌, inl, inr, List, [], ◌∷◌, Option, none, Bytes, codes, Error,
  beq, has_prefix, ◌==◌, if◌then◌else◌,
}
use ddns_updater_beget.Net.{Addr, Prefix}
use ddns_updater_beget.IpVersion.{IpVersion}
use ddns_updater_beget.Domain.{build_url_query_hostname}
use ddns_updater_beget.PublicIp.Http.{to_single_line}
use ddns_updater_beget.Providers.Errors.{
  SettingError, owner_wildcard, username_not_set, password_not_set, auth, bad_request, banned_abuse,
  hostname_not_exists, unknown_response,
}
use ddns_updater_beget.Providers.Client.{
  Request, Client, Outcome, user_agent, badauth, notfqdn, abuse, switch, fails, fails_with,
  fails_by_status, exchanged, doing_request, read_all,
}
use ddns_updater_beget.Providers.Settings.{
  Base, Described, described, anchor, checked_domain, refuses, NewError, not_decoded, validated,
}

-- The type Provider.
pub record SpdynProvider : Type 0 where
  pub base : Base
  pub user : Bytes
  pub password : Bytes
  pub token : Bytes

-- The struct decoded.
pub record SpdynSettings : Type 0 where
  pub user : Bytes
  pub password : Bytes
  pub token : Bytes

-- isAny
unfoldable pub is_any : Bytes → List Bytes → Bool
unfolding beq
is_any s [] = false
is_any s (value ∷ values) = if beq s value then true else is_any s values

-- validateSettings
unfoldable pub validate_settings : Bytes → Bytes → Bytes → Bytes → Bytes → Option SettingError
unfolding beq refuses checked_domain
validate_settings domain owner token user password = checked_domain domain (
    (beq owner (codes "*"), refuses owner_wildcard)
    ∷ (beq token [] && beq user [], refuses username_not_set)
    ∷ (beq token [] && beq password [], refuses password_not_set)
    ∷ [])

-- New, from what encoding/json returns
unfoldable pub new :
    SpdynSettings ⊎ Error → Bytes → Bytes → IpVersion → Prefix → SpdynProvider ⊎ NewError
unfolding validate_settings validated
new (inr e) domain owner version suffix = inr (not_decoded e)
new (inl extra) domain owner version suffix =
    validated (validate_settings domain owner extra.token extra.user extra.password) (record {
      base = record { domain = domain; owner = owner; ip_version = version; ipv6_suffix = suffix };
      user = extra.user;
      password = extra.password;
      token = extra.token;
    })

-- The accessors.
unfoldable pub describe : SpdynProvider → Described
unfolding described anchor
describe p =
    described p.base (codes "spdyn") (anchor (codes "https://spdyn.com/") (codes "Spdyn DNS"))

-- The request of Update.
unfoldable pub request : (Addr → Bytes) → SpdynProvider → Addr → Request
unfolding build_url_query_hostname beq
request show p ip = record {
  host = codes "update.spdyn.de";
  path = codes "/nic/update";
  user = none;
  query =
      (codes "hostname", build_url_query_hostname p.base.owner p.base.domain)
      ∷ (codes "myip", show ip)
      ∷ (
        codes "user",
        if beq p.token [] then p.user else build_url_query_hostname p.base.owner p.base.domain,
      )
      ∷ (codes "pass", if beq p.token [] then p.password else p.token)
      ∷ [];
  headers = user_agent ∷ [];
}

-- What Update makes of a reply.
unfoldable pub interpret : Addr → ℕ → Bytes ⊎ Error → Outcome
unfolding switch read_all fails fails_with fails_by_status to_single_line beq has_prefix is_any
interpret ip code body = read_all body (λ s.
    switch
      ((not (code == 200), fails_by_status code (to_single_line s))
        ∷ (is_any s (abuse ∷ codes "numhost" ∷ []), fails banned_abuse)
        ∷ (is_any s (badauth ∷ codes "!yours" ∷ []), fails auth)
        ∷ (has_prefix s (codes "good"), inl ip)
        ∷ (beq s notfqdn, fails_with bad_request (codes "not fqdn"))
        ∷ (has_prefix s (codes "nochg"), inl ip)
        ∷ (is_any s (codes "nohost" ∷ codes "fatal" ∷ []), fails hostname_not_exists)
        ∷ [])
      (fails_with unknown_response s))

-- Update
unfoldable pub update : (Addr → Bytes) → Client → SpdynProvider → Addr → Outcome
unfolding request interpret exchanged doing_request
update show client p ip = exchanged doing_request (client (request show p ip)) (interpret ip)
