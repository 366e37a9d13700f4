-- ===== src/Providers/Nowdns.antt =====
-- internal/provider/providers/nowdns/provider.go: the settings, the request of an update, and
-- what its reply gives.
use ddns_updater_beget.Common.{
  ℕ, ◌&&◌, ◌⊎◌, inl, inr, [], ◌∷◌, ◌++◌, Option, none, some, Bytes, codes, Error, beq, contains,
  ◌==◌, if◌then◌else◌,
}
use ddns_updater_beget.Net.{Addr, Prefix, same_addr}
use ddns_updater_beget.IpVersion.{IpVersion}
use ddns_updater_beget.Providers.Errors.{
  SettingError, username_not_set, password_not_set, auth, hostname_not_exists,
  ip_received_malformed, received_no_result, unknown_response,
}
use ddns_updater_beget.Providers.Client.{
  Request, Client, Outcome, user_agent, badauth, nohost, switch, fails, fails_with, fails_by_status,
  exchanged, doing_request, read_all, mismatch,
}
use ddns_updater_beget.Providers.Settings.{
  Base, UserPassword, Described, described, anchor, checked_domain, refuses, NewError, not_decoded,
  validated,
}

-- The type Provider.
pub record NowdnsProvider : Type 0 where
  pub base : Base
  pub username : Bytes
  pub password : Bytes

-- validateSettings
unfoldable pub validate_settings : Bytes → Bytes → Bytes → Option SettingError
unfolding beq refuses checked_domain
validate_settings domain username password =
    checked_domain domain (
      (beq username [], refuses username_not_set)
      ∷ (beq password [], refuses password_not_set)
      ∷ [])

-- New, from what encoding/json returns
unfoldable pub new : UserPassword ⊎ Error → Bytes → IpVersion → Prefix → NowdnsProvider ⊎ NewError
unfolding validate_settings validated
new (inr e) domain version suffix = inr (not_decoded e)
new (inl extra) domain version suffix =
    validated (validate_settings domain extra.username extra.password) (record {
      base = record {
        domain = domain;
        owner = codes "@";
        ip_version = version;
        ipv6_suffix = suffix;
      };
      username = extra.username;
      password = extra.password;
    })

-- The accessors: the owner is always `@`, and the name is the domain.
unfoldable pub describe : NowdnsProvider → Described
unfolding described anchor
describe p =
    described p.base (codes "nowdns") (anchor (codes "https://www.now-dns.com/") (codes "Now-DNS"))

-- The request of Update.
unfoldable pub request : (Addr → Bytes) → NowdnsProvider → Addr → Request
request show p ip = record {
  host = codes "now-dns.com";
  path = codes "/update";
  user = some (p.username, p.password);
  query = (codes "hostname", p.base.domain) ∷ (codes "myip", show ip) ∷ [];
  headers = user_agent ∷ [];
}

-- The code parses the text of the address that it sent; netip's error is left out of the text, and
-- quotes are around `s` as it is.
unfoldable pub parsed : (Addr → Bytes) → Addr → Outcome → Option Addr → Outcome
unfolding same_addr mismatch
parsed show ip failed none = failed
parsed show ip failed (some new_ip) =
    if same_addr ip new_ip then inl ip else mismatch show ip new_ip

-- What Update makes of a reply.
unfoldable pub interpret :
    (Addr → Bytes) → (Bytes → Option Addr) → Addr → ℕ → Bytes ⊎ Error → Outcome
unfolding switch read_all fails fails_with fails_by_status beq contains parsed
interpret show parse ip code body = read_all body (λ s.
    switch
      ((
        code == 200 && contains s (codes "good"),
        parsed show ip (fails ip_received_malformed) (parse (show ip)),
      )
        ∷ (
          code == 200 && contains s (codes "nochg"),
          parsed show ip
              (fails_with received_no_result (codes "in response " ++ 34 ∷ (s ++ 34 ∷ [])))
              (parse (show ip)),
        )
        ∷ (code == 200, fails_with unknown_response s)
        ∷ (code == 400 && beq s nohost, fails hostname_not_exists)
        ∷ (code == 400 && beq s badauth, fails auth)
        ∷ (code == 400, fails_with unknown_response s)
        ∷ [])
      (fails_by_status code s))

-- Update
unfoldable pub update :
    (Addr → Bytes) → (Bytes → Option Addr) → Client → NowdnsProvider → Addr → Outcome
unfolding request interpret exchanged doing_request
update show parse client p ip =
    exchanged doing_request (client (request show p ip)) (interpret show parse ip)
