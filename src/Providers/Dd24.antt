-- ===== src/Providers/Dd24.antt =====
-- internal/provider/providers/dd24/provider.go: the settings, the request of an update, and
-- what its reply gives.
use ddns_updater_beget.Common.{
  ℕ, not, ◌||◌, ◌⊎◌, inl, inr, [], ◌∷◌, Option, none, Bytes, codes, Error, beq, contains, ◌==◌,
}
use ddns_updater_beget.Net.{Addr, Prefix}
use ddns_updater_beget.IpVersion.{IpVersion, to_lower}
use ddns_updater_beget.Domain.{build_domain_name}
use ddns_updater_beget.PublicIp.Http.{to_single_line}
use ddns_updater_beget.Providers.Errors.{
  passed_on, SettingError, password_not_set, auth, unknown_response,
}
use ddns_updater_beget.Providers.Client.{
  Request, Client, Outcome, user_agent, switch, fails, fails_with, fails_by_status, exchanged,
  doing_request, read_all,
}
use ddns_updater_beget.Providers.Settings.{
  Base, OnlyPassword, Described, described, anchor, checked_domain, refuses, NewError, not_decoded,
  validated,
}

-- The type Provider.
pub record Dd24Provider : Type 0 where
  pub base : Base
  pub password : Bytes

-- validateSettings
unfoldable pub validate_settings : Bytes → Bytes → Option SettingError
unfolding beq refuses checked_domain
validate_settings domain password =
    checked_domain domain ((beq password [], refuses password_not_set) ∷ [])

-- New, from what encoding/json returns
unfoldable pub new :
    OnlyPassword ⊎ Error → Bytes → Bytes → IpVersion → Prefix → Dd24Provider ⊎ NewError
unfolding validate_settings validated
new (inr e) domain owner version suffix = inr (not_decoded e)
new (inl extra) domain owner version suffix =
    validated (validate_settings domain extra.password) (record {
      base = record { domain = domain; owner = owner; ip_version = version; ipv6_suffix = suffix };
      password = extra.password;
    })

-- The accessors.
unfoldable pub describe : Dd24Provider → Described
unfolding described anchor
describe p =
    described p.base (codes "dd24")
      (anchor (codes "https://www.domaindiscount24.com/") (codes "DD24"))

-- The request of Update.
unfoldable pub request : (Addr → Bytes) → Dd24Provider → Addr → Request
unfolding build_domain_name
request show p ip = record {
  host = codes "dynamicdns.key-systems.net";
  path = codes "/update.php";
  user = none;
  query =
      (codes "hostname", build_domain_name p.base.owner p.base.domain)
      ∷ (codes "password", p.password)
      ∷ (codes "ip", show ip)
      ∷ [];
  headers = user_agent ∷ [];
}

-- What Update makes of a reply.
unfoldable pub interpret : Addr → ℕ → Bytes ⊎ Error → Outcome
unfolding switch read_all fails fails_with fails_by_status to_single_line to_lower beq contains
interpret ip code body = read_all body (λ raw.
    let s = to_lower raw in
    switch
      ((not (code == 200), fails_by_status code (to_single_line raw))
        ∷ (contains s (codes "authorization failed"), fails auth)
        ∷ (beq s [] || contains s (codes "success"), inl ip)
        ∷ [])
      (fails_with unknown_response s))

-- Update
unfoldable pub update : (Addr → Bytes) → Client → Dd24Provider → Addr → Outcome
unfolding request interpret exchanged doing_request
update show client p ip = exchanged passed_on (client (request show p ip)) (interpret ip)
