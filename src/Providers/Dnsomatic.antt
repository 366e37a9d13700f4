-- ===== src/Providers/Dnsomatic.antt =====
-- internal/provider/providers/dnsomatic/provider.go: the settings, the request of an update, and
-- what its reply gives.
use ddns_updater_beget.Common.{
  ℕ, not, ◌&&◌, ◌||◌, ◌⊎◌, inl, inr, [], ◌∷◌, Option, some, Bytes, codes, Error, beq, contains,
  ◌==◌, if◌then◌else◌,
}
use ddns_updater_beget.Net.{Addr, Prefix}
use ddns_updater_beget.IpVersion.{IpVersion}
use ddns_updater_beget.Domain.{build_url_query_hostname}
use ddns_updater_beget.Providers.Errors.{
  passed_on, SettingError, username_not_set, password_not_set, auth, banned_abuse,
  banned_user_agent, dns_server_side, hostname_not_exists, unknown_response,
}
use ddns_updater_beget.Providers.Client.{
  Request, Client, Outcome, user_agent, badauth, nohost, notfqdn, badagent, abuse, nineoneone,
  switch, fails, fails_with, fails_by_status, exchanged, doing_request, read_all, extracted,
}
use ddns_updater_beget.Providers.Settings.{
  Base, UserPassword, Described, described, anchor, checked_domain, refuses, NewError, not_decoded,
  validated,
}

-- The type Provider.
pub record DnsomaticProvider : Type 0 where
  pub base : Base
  pub username : Bytes
  pub password : Bytes

-- validateSettings
unfoldable pub validate_settings : Bytes → Bytes → Bytes → Option SettingError
unfolding beq refuses checked_domain
validate_settings domain username password =
    checked_domain domain (
      (beq username [], refuses username_not_set)
      ∷ (beq password [], refuses password_not_set)
      ∷ [])

-- New, from what encoding/json returns
unfoldable pub new :
    UserPassword ⊎ Error → Bytes → Bytes → IpVersion → Prefix → DnsomaticProvider ⊎ NewError
unfolding validate_settings validated
new (inr e) domain owner version suffix = inr (not_decoded e)
new (inl extra) domain owner version suffix =
    validated (validate_settings domain extra.username extra.password) (record {
      base = record { domain = domain; owner = owner; ip_version = version; ipv6_suffix = suffix };
      username = extra.username;
      password = extra.password;
    })

-- The accessors. Dnsomatic's owner `all` counts as proxied.
unfoldable pub describe : DnsomaticProvider → Described
unfolding described anchor beq
describe p =
    let d =
      described p.base (codes "dnsomatic")
        (anchor (codes "https://www.dnsomatic.com/") (codes "dnsomatic")) in
    record d { accessors = record (d.accessors) { proxied = beq p.base.owner (codes "all") } }

-- The request of Update.
unfoldable pub request : (Addr → Bytes) → DnsomaticProvider → Addr → Request
unfolding build_url_query_hostname beq
request show p ip = record {
  host = codes "updates.dnsomatic.com";
  path = codes "/nic/update";
  user = some (p.username, p.password);
  query =
      (codes "myip", show ip)
      ∷ (codes "wildcard", if beq p.base.owner (codes "*") then codes "ON" else codes "NOCHG")
      ∷ (
        codes "hostname",
        if beq p.base.owner (codes "*")
            then p.base.domain
            else build_url_query_hostname p.base.owner p.base.domain,
      )
      ∷ (codes "mx", codes "NOCHG")
      ∷ (codes "backmx", codes "NOCHG")
      ∷ [];
  headers = user_agent ∷ [];
}

-- What Update makes of a reply.
unfoldable pub interpret :
    (Addr → Bytes) → (Bytes → Option Addr) → Addr → ℕ → Bytes ⊎ Error → Outcome
unfolding switch read_all fails fails_with fails_by_status extracted beq contains
interpret show parse ip code body = read_all body (λ s.
    switch
      ((not (code == 200), fails_by_status code s)
        ∷ (beq s nohost || beq s notfqdn, fails hostname_not_exists)
        ∷ (beq s badauth, fails auth)
        ∷ (beq s badagent, fails banned_user_agent)
        ∷ (beq s abuse, fails banned_abuse)
        ∷ (beq s (codes "dnserr") || beq s nineoneone, fails_with dns_server_side s)
        ∷ (
          not (contains s (codes "nochg")) && not (contains s (codes "good")),
          fails_with unknown_response s,
        )
        ∷ [])
      (extracted show parse ip s))

-- Update
unfoldable pub update :
    (Addr → Bytes) → (Bytes → Option Addr) → Client → DnsomaticProvider → Addr → Outcome
unfolding request interpret exchanged doing_request
update show parse client p ip =
    exchanged passed_on (client (request show p ip)) (interpret show parse ip)
