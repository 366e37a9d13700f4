-- ===== src/Providers/Duckdns.antt =====
-- internal/provider/providers/duckdns/provider.go: the settings, the request of an update, and
-- what its reply gives.
use ddns_updater_beget.Common.{
  ℕ, Bool, not, ◌||◌, ◌⊎◌, inl, inr, [], ◌∷◌, Option, none, Bytes, codes, Error, beq, length, take,
  ltb, ◌==◌, if◌then◌else◌,
}
use ddns_updater_beget.Net.{Addr, Prefix, is6}
use ddns_updater_beget.IpVersion.{IpVersion}
use ddns_updater_beget.Domain.{build_domain_name}
use ddns_updater_beget.Extract.{extract_ipv4, extract_ipv6}
use ddns_updater_beget.PublicIp.Http.{to_single_line}
use ddns_updater_beget.Providers.Errors.{
  passed_on, SettingError, refused, domain_not_valid, owner_wildcard, token_not_valid, auth,
  response_too_short, unknown_response,
}
use ddns_updater_beget.Providers.Client.{
  Request, Client, Outcome, user_agent, switch, fails, fails_with, fails_by_status, exchanged,
  doing_request, read_all, first_compared,
}
use ddns_updater_beget.Providers.Texts.{is_under, count_dots, hex_groups, under_root}
use ddns_updater_beget.Providers.Settings.{
  Base, OnlyToken, Described, described, anchor, first_refusal, refuses, NewError, not_decoded,
  validated,
}

-- The type Provider.
pub record DuckdnsProvider : Type 0 where
  pub base : Base
  pub token : Bytes

-- The older form of the domain, and no domain, taken to the form of today.
unfoldable pub retro_compatible : Bytes → Bytes → Bytes × Bytes
unfolding under_root beq
retro_compatible domain owner =
    if beq domain [] || beq domain (codes "duckdns.org")
    then under_root (codes "duckdns.org") owner
    else (domain, owner)

-- The regular expression of the token.
unfoldable pub is_token : Bytes → Bool
unfolding hex_groups
is_token s = hex_groups (8 ∷ 4 ∷ 4 ∷ 4 ∷ 12 ∷ []) s

-- validateSettings
unfoldable pub validate_settings : Bytes → Bytes → Bytes → Option SettingError
unfolding beq refuses first_refusal is_under count_dots is_token
validate_settings domain owner token = first_refusal (
    (not (is_under (codes "duckdns.org") domain), refused domain_not_valid domain)
    ∷ (ltb 2 (count_dots owner), refused domain_not_valid domain)
    ∷ (beq owner (codes "*"), refused owner_wildcard owner)
    ∷ (not (is_token token), refused token_not_valid token)
    ∷ [])

-- New, from what encoding/json returns
unfoldable pub new :
    OnlyToken ⊎ Error → Bytes → Bytes → IpVersion → Prefix → DuckdnsProvider ⊎ NewError
unfolding validate_settings validated retro_compatible
new (inr e) domain owner version suffix = inr (not_decoded e)
new (inl extra) domain owner version suffix =
    let (domain', owner') = retro_compatible domain owner in
    validated (validate_settings domain' owner' extra.token) (record {
      base = record {
        domain = domain';
        owner = owner';
        ip_version = version;
        ipv6_suffix = suffix;
      };
      token = extra.token;
    })

-- The accessors.
unfoldable pub describe : DuckdnsProvider → Described
unfolding described anchor
describe p =
    described p.base (codes "duckdns") (anchor (codes "https://www.duckdns.org/") (codes "DuckDNS"))

-- The request of Update.
unfoldable pub request : (Addr → Bytes) → DuckdnsProvider → Addr → Request
unfolding build_domain_name is6
request show p ip = record {
  host = codes "www.duckdns.org";
  path = codes "/update";
  user = none;
  query =
      (codes "verbose", codes "true")
      ∷ (codes "domains", build_domain_name p.base.owner p.base.domain)
      ∷ (codes "token", p.token)
      ∷ (if is6 ip then codes "ipv6" else codes "ip", show ip)
      ∷ [];
  headers = user_agent ∷ [];
}

-- What Update makes of a reply.
unfoldable pub interpret :
    (Addr → Bytes) → (Bytes → Option Addr) → Addr → ℕ → Bytes ⊎ Error → Outcome
unfolding switch read_all fails fails_with fails_by_status first_compared extract_ipv4 extract_ipv6
    to_single_line beq is6
interpret show parse ip code body = read_all body (λ s.
    switch
      ((not (code == 200), fails_by_status code (to_single_line s))
        ∷ (ltb (length s) 2, fails_with response_too_short s)
        ∷ (beq (take 2 s) (codes "KO"), fails auth)
        ∷ (
          beq (take 2 s) (codes "OK"),
          first_compared show ip (if is6 ip then extract_ipv6 parse s else extract_ipv4 parse s),
        )
        ∷ [])
      (fails_with unknown_response s))

-- Update
unfoldable pub update :
    (Addr → Bytes) → (Bytes → Option Addr) → Client → DuckdnsProvider → Addr → Outcome
unfolding request interpret exchanged doing_request
update show parse client p ip =
    exchanged passed_on (client (request show p ip)) (interpret show parse ip)
