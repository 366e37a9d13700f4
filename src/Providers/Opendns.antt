-- ===== src/Providers/Opendns.antt =====
-- internal/provider/providers/opendns/provider.go: the settings, the request of an update, and
-- what its reply gives.
use ddns_updater_beget.Common.{
  ℕ, not, ◌⊎◌, inl, inr, [], ◌∷◌, Option, none, some, Bytes, codes, Error, beq, has_prefix,
  trim_prefix, ◌==◌, if◌then◌else◌,
}
use ddns_updater_beget.Net.{Addr, Prefix, same_addr}
use ddns_updater_beget.IpVersion.{IpVersion}
use ddns_updater_beget.Domain.{build_url_query_hostname}
use ddns_updater_beget.Providers.Errors.{
  SettingError, owner_wildcard, username_not_set, password_not_set, ip_received_malformed,
  unknown_response,
}
use ddns_updater_beget.Providers.Client.{
  Request, Client, Outcome, user_agent, switch, fails, fails_with, fails_by_status, exchanged,
  doing_request, read_all, mismatch,
}
use ddns_updater_beget.Providers.Settings.{
  Base, UserPassword, Described, described, anchor, checked_domain, refuses, NewError, not_decoded,
  validated,
}

-- The type Provider.
pub record OpendnsProvider : Type 0 where
  pub base : Base
  pub username : Bytes
  pub password : Bytes

-- validateSettings
unfoldable pub validate_settings : Bytes → Bytes → Bytes → Bytes → Option SettingError
unfolding beq refuses checked_domain
validate_settings domain owner username password = checked_domain domain (
    (beq owner (codes "*"), refuses owner_wildcard)
    ∷ (beq username [], refuses username_not_set)
    ∷ (beq password [], refuses password_not_set)
    ∷ [])

-- New, from what encoding/json returns
unfoldable pub new :
    UserPassword ⊎ Error → Bytes → Bytes → IpVersion → Prefix → OpendnsProvider ⊎ NewError
unfolding validate_settings validated
new (inr e) domain owner version suffix = inr (not_decoded e)
new (inl extra) domain owner version suffix =
    validated (validate_settings domain owner extra.username extra.password) (record {
      base = record { domain = domain; owner = owner; ip_version = version; ipv6_suffix = suffix };
      username = extra.username;
      password = extra.password;
    })

-- The accessors.
unfoldable pub describe : OpendnsProvider → Described
unfolding described anchor
describe p =
    described p.base (codes "opendns") (anchor (codes "https://opendns.com/") (codes "Opendns DNS"))

-- The request of Update.
unfoldable pub request : (Addr → Bytes) → OpendnsProvider → Addr → Request
unfolding build_url_query_hostname
request show p ip = record {
  host = codes "updates.opendns.com";
  path = codes "/nic/update";
  user = some (p.username, p.password);
  query =
      (codes "hostname", build_url_query_hostname p.base.owner p.base.domain)
      ∷ (codes "myip", show ip)
      ∷ [];
  headers = user_agent ∷ [];
}

-- The parsed address, compared; netip's error is left out of the text.
unfoldable pub received : (Addr → Bytes) → Addr → Option Addr → Outcome
unfolding same_addr mismatch fails
received show ip none = fails ip_received_malformed
received show ip (some new_ip) = if same_addr new_ip ip then inl ip else mismatch show ip new_ip

-- What Update makes of a reply.
unfoldable pub interpret :
    (Addr → Bytes) → (Bytes → Option Addr) → Addr → ℕ → Bytes ⊎ Error → Outcome
unfolding switch read_all fails_with fails_by_status has_prefix trim_prefix received
interpret show parse ip code body = read_all body (λ s.
    switch
      ((not (code == 200), fails_by_status code s)
        ∷ (not (has_prefix s (codes "good ")), fails_with unknown_response s)
        ∷ [])
      (received show ip (parse (trim_prefix s (codes "good ")))))

-- Update
unfoldable pub update :
    (Addr → Bytes) → (Bytes → Option Addr) → Client → OpendnsProvider → Addr → Outcome
unfolding request interpret exchanged doing_request
update show parse client p ip =
    exchanged doing_request (client (request show p ip)) (interpret show parse ip)
