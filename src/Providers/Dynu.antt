-- ===== src/Providers/Dynu.antt =====
-- internal/provider/providers/dynu/provider.go: the settings, the request of an update, and
-- what its reply gives.
use ddns_updater_beget.Common.{
  ℕ, not, ◌⊎◌, inl, inr, [], ◌∷◌, Option, none, Bytes, codes, Error, beq, contains, ◌==◌,
  if◌then◌else◌,
}
use ddns_updater_beget.Net.{Addr, Prefix, is6}
use ddns_updater_beget.IpVersion.{IpVersion}
use ddns_updater_beget.Domain.{build_domain_name}
use ddns_updater_beget.PublicIp.Http.{to_single_line}
use ddns_updater_beget.Providers.Errors.{
  SettingError, owner_wildcard, username_not_set, password_not_set, auth, banned_abuse,
  hostname_not_exists, unknown_response,
}
use ddns_updater_beget.Providers.Client.{
  Request, Client, Outcome, user_agent, badauth, notfqdn, abuse, switch, fails, fails_with,
  fails_by_status, exchanged, doing_request, read_all,
}
use ddns_updater_beget.Providers.Settings.{
  Base, Described, described, anchor, checked_domain, refuses, NewError, not_decoded, validated,
}

-- The type Provider.
pub record DynuProvider : Type 0 where
  pub base : Base
  pub group : Bytes
  pub username : Bytes
  pub password : Bytes

-- The struct decoded.
pub record DynuSettings : Type 0 where
  pub username : Bytes
  pub password : Bytes
  pub group : Bytes

-- validateSettings
unfoldable pub validate_settings : Bytes → Bytes → Bytes → Bytes → Option SettingError
unfolding beq refuses checked_domain
validate_settings domain owner username password = checked_domain domain (
    (beq owner (codes "*"), refuses owner_wildcard)
    ∷ (beq username [], refuses username_not_set)
    ∷ (beq password [], refuses password_not_set)
    ∷ [])

-- New, from what encoding/json returns
unfoldable pub new :
    DynuSettings ⊎ Error → Bytes → Bytes → IpVersion → Prefix → DynuProvider ⊎ NewError
unfolding validate_settings validated beq
new (inr e) domain owner version suffix = inr (not_decoded e)
new (inl extra) domain owner version suffix =
    let owner' = if beq owner [] then codes "@" else owner in
    validated (validate_settings domain owner' extra.username extra.password) (record {
      base = record { domain = domain; owner = owner'; ip_version = version; ipv6_suffix = suffix };
      group = extra.group;
      username = extra.username;
      password = extra.password;
    })

-- The accessors.
unfoldable pub describe : DynuProvider → Described
unfolding described anchor
describe p = described p.base (codes "dynu") (anchor (codes "https://dynu.com/") (codes "Dynu"))

-- The request of Update.
unfoldable pub request : (Addr → Bytes) → DynuProvider → Addr → Request
unfolding build_domain_name is6
request show p ip = record {
  host = codes "api.dynu.com";
  path = codes "/nic/update";
  user = none;
  query =
      (codes "username", p.username)
      ∷ (codes "password", p.password)
      ∷ (codes "location", p.group)
      ∷ (codes "hostname", build_domain_name p.base.owner p.base.domain)
      ∷ (if is6 ip then codes "myipv6" else codes "myip", show ip)
      ∷ [];
  headers = user_agent ∷ [];
}

-- What Update makes of a reply.
unfoldable pub interpret : Addr → ℕ → Bytes ⊎ Error → Outcome
unfolding switch read_all fails fails_with fails_by_status to_single_line contains
interpret ip code body = read_all body (λ s.
    switch
      ((not (code == 200), fails_by_status code (to_single_line s))
        ∷ (contains s badauth, fails auth)
        ∷ (contains s notfqdn, fails hostname_not_exists)
        ∷ (contains s abuse, fails banned_abuse)
        ∷ (contains s (codes "good"), inl ip)
        ∷ (contains s (codes "nochg"), inl ip)
        ∷ [])
      (fails_with unknown_response (to_single_line s)))

-- Update
unfoldable pub update : (Addr → Bytes) → Client → DynuProvider → Addr → Outcome
unfolding request interpret exchanged doing_request
update show client p ip = exchanged doing_request (client (request show p ip)) (interpret ip)
