-- ===== src/Providers/He.antt =====
-- internal/provider/providers/he/provider.go: the settings, the request of an update, and
-- what its reply gives.
use ddns_updater_beget.Common.{
  ℕ, not, ◌&&◌, ◌⊎◌, inl, inr, [], ◌∷◌, Option, some, Bytes, codes, Error, beq, contains,
}
use ddns_updater_beget.Net.{Addr, Prefix}
use ddns_updater_beget.IpVersion.{IpVersion}
use ddns_updater_beget.Domain.{build_domain_name}
use ddns_updater_beget.Providers.Errors.{SettingError, password_not_set, auth, unknown_response}
use ddns_updater_beget.Providers.Client.{
  Request, Client, Outcome, user_agent, badauth, switch, fails, fails_with, fails_by_status,
  exchanged, doing_request, read_all, extracted,
}
use ddns_updater_beget.Providers.Settings.{
  Base, OnlyPassword, Described, described, anchor, checked_domain, refuses, NewError, not_decoded,
  validated,
}

-- The type Provider.
pub record HeProvider : Type 0 where
  pub base : Base
  pub password : Bytes

-- validateSettings
unfoldable pub validate_settings : Bytes → Bytes → Option SettingError
unfolding beq refuses checked_domain
validate_settings domain password =
    checked_domain domain ((beq password [], refuses password_not_set) ∷ [])

-- New, from what encoding/json returns
unfoldable pub new :
    OnlyPassword ⊎ Error → Bytes → Bytes → IpVersion → Prefix → HeProvider ⊎ NewError
unfolding validate_settings validated
new (inr e) domain owner version suffix = inr (not_decoded e)
new (inl extra) domain owner version suffix =
    validated (validate_settings domain extra.password) (record {
      base = record { domain = domain; owner = owner; ip_version = version; ipv6_suffix = suffix };
      password = extra.password;
    })

-- The accessors.
unfoldable pub describe : HeProvider → Described
unfolding described anchor
describe p = described p.base (codes "he") (anchor (codes "https://dns.he.net/") (codes "he.net"))

-- The request of Update.
unfoldable pub request : (Addr → Bytes) → HeProvider → Addr → Request
unfolding build_domain_name
request show p ip = record {
  host = codes "dyn.dns.he.net";
  path = codes "/nic/update";
  user = some (build_domain_name p.base.owner p.base.domain, p.password);
  query =
      (codes "hostname", build_domain_name p.base.owner p.base.domain)
      ∷ (codes "myip", show ip)
      ∷ [];
  headers = user_agent ∷ [];
}

-- The status code is in an error text only: the code does not look at it otherwise.
unfoldable pub interpret :
    (Addr → Bytes) → (Bytes → Option Addr) → Addr → ℕ → Bytes ⊎ Error → Outcome
unfolding switch read_all fails fails_with fails_by_status extracted beq contains
interpret show parse ip code body = read_all body (λ s.
    switch
      ((beq s [], fails_by_status code s)
        ∷ (beq s badauth, fails auth)
        ∷ (
          not (contains s (codes "nochg")) && not (contains s (codes "good")),
          fails_with unknown_response s,
        )
        ∷ [])
      (extracted show parse ip s))

-- Update
unfoldable pub update :
    (Addr → Bytes) → (Bytes → Option Addr) → Client → HeProvider → Addr → Outcome
unfolding request interpret exchanged doing_request
update show parse client p ip =
    exchanged doing_request (client (request show p ip)) (interpret show parse ip)
