-- ===== src/Providers/Infomaniak.antt =====
-- internal/provider/providers/infomaniak/provider.go: the settings, the request of an update, and
-- what its reply gives.
use ddns_updater_beget.Common.{
  ℕ, ◌&&◌, ◌⊎◌, inl, inr, List, [], ◌∷◌, ◌++◌, Option, none, some, Bytes, codes, Error, beq,
  has_prefix, trim_prefix, ◌==◌, if◌then◌else◌,
}
use ddns_updater_beget.Net.{Addr, Prefix}
use ddns_updater_beget.IpVersion.{IpVersion}
use ddns_updater_beget.Domain.{build_url_query_hostname}
use ddns_updater_beget.Providers.Errors.{
  SettingError, owner_wildcard, username_not_set, password_not_set, auth, hostname_not_exists,
  ip_received_malformed, unknown_response,
}
use ddns_updater_beget.Providers.Client.{
  Request, Client, Outcome, user_agent, badauth, nohost, switch, fails, fails_with, fails_by_status,
  exchanged, doing_request, read_all, compared,
}
use ddns_updater_beget.Providers.Settings.{
  Base, UserPassword, Described, described, anchor, checked_domain, refuses, NewError, not_decoded,
  validated,
}

-- The type Provider.
pub record InfomaniakProvider : Type 0 where
  pub base : Base
  pub username : Bytes
  pub password : Bytes

-- The prefixes of the loop; the last two are the older ones.
abbrev pub known_prefixes : List Bytes
known_prefixes =
    codes "successfully_changed" ∷ codes "no_change" ∷ codes "good" ∷ codes "nochg" ∷ []

-- The loop, with the empty text if no prefix is found.
unfoldable pub prefix_found : Bytes → List Bytes → Bytes
unfolding has_prefix
prefix_found s [] = []
prefix_found s (prefix ∷ prefixes) = if has_prefix s prefix then prefix else prefix_found s prefixes

-- validateSettings
unfoldable pub validate_settings : Bytes → Bytes → Bytes → Bytes → Option SettingError
unfolding beq refuses checked_domain
validate_settings domain owner username password = checked_domain domain (
    (beq owner (codes "*"), refuses owner_wildcard)
    ∷ (beq username [], refuses username_not_set)
    ∷ (beq password [], refuses password_not_set)
    ∷ [])

-- New, from what encoding/json returns
unfoldable pub new :
    UserPassword ⊎ Error → Bytes → Bytes → IpVersion → Prefix → InfomaniakProvider ⊎ NewError
unfolding validate_settings validated
new (inr e) domain owner version suffix = inr (not_decoded e)
new (inl extra) domain owner version suffix =
    validated (validate_settings domain owner extra.username extra.password) (record {
      base = record { domain = domain; owner = owner; ip_version = version; ipv6_suffix = suffix };
      username = extra.username;
      password = extra.password;
    })

-- The accessors.
unfoldable pub describe : InfomaniakProvider → Described
unfolding described anchor
describe p =
    described p.base (codes "infomaniak")
      (anchor (codes "https://www.infomaniak.com/") (codes "Infomaniak"))

-- The request of Update.
unfoldable pub request : (Addr → Bytes) → InfomaniakProvider → Addr → Request
unfolding build_url_query_hostname
request show p ip = record {
  host = codes "infomaniak.com";
  path = codes "/nic/update";
  user = some (p.username, p.password);
  query =
      (codes "hostname", build_url_query_hostname p.base.owner p.base.domain)
      ∷ (codes "myip", show ip)
      ∷ [];
  headers = user_agent ∷ [];
}

-- The parsed address, compared; netip's error is left out of the text.
unfoldable pub received : (Addr → Bytes) → Addr → Bytes → Option Addr → Outcome
unfolding compared fails_with
received show ip ip_string none =
    fails_with ip_received_malformed (codes "for response " ++ 34 ∷ (ip_string ++ 34 ∷ []))
received show ip ip_string (some new_ip) = compared show ip new_ip

-- From the prefix found on.
unfoldable pub by_prefix : (Addr → Bytes) → (Bytes → Option Addr) → Addr → Bytes → Bytes → Outcome
unfolding received fails_with trim_prefix beq
by_prefix show parse ip s prefix =
    let ip_string = trim_prefix s (prefix ++ codes " ") in
    if beq prefix []
    then fails_with unknown_response s
    else received show ip ip_string (parse ip_string)

-- What Update makes of a reply.
unfoldable pub interpret :
    (Addr → Bytes) → (Bytes → Option Addr) → Addr → ℕ → Bytes ⊎ Error → Outcome
unfolding switch read_all fails fails_by_status beq by_prefix prefix_found
interpret show parse ip code body = read_all body (λ s.
    switch
      ((code == 200, by_prefix show parse ip s (prefix_found s known_prefixes))
        ∷ (code == 400 && beq s nohost, fails hostname_not_exists)
        ∷ (code == 400 && beq s badauth, fails auth)
        ∷ [])
      (fails_by_status code s))

-- Update
unfoldable pub update :
    (Addr → Bytes) → (Bytes → Option Addr) → Client → InfomaniakProvider → Addr → Outcome
unfolding request interpret exchanged doing_request
update show parse client p ip =
    exchanged doing_request (client (request show p ip)) (interpret show parse ip)
