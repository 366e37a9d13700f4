-- ===== src/Providers/Zoneedit.antt =====
-- internal/provider/providers/zoneedit/provider.go: the settings, the request of an update, and
-- what its reply gives.
use Prim.Native.String.{String}
use ddns_updater_beget.Common.{
  ℕ, not, ◌||◌, ◌⊎◌, inl, inr, List, [], ◌∷◌, ◌++◌, Option, some, Bytes, codes, Error, beq,
  contains, ◌==◌, if◌then◌else◌,
}
use ddns_updater_beget.Net.{Addr, Prefix}
use ddns_updater_beget.IpVersion.{IpVersion, to_lower}
use ddns_updater_beget.Domain.{build_url_query_hostname}
use ddns_updater_beget.Extract.{extract_ipv4}
use ddns_updater_beget.PublicIp.Http.{to_single_line}
use ddns_updater_beget.Providers.Errors.{
  SettingError, username_not_set, token_not_set, auth, banned_abuse, received_no_result,
  unknown_response,
}
use ddns_updater_beget.Providers.Client.{
  Request, Client, Outcome, user_agent, switch, fails, fails_with, fails_by_status, exchanged,
  doing_request, read_all, compared,
}
use ddns_updater_beget.Providers.Settings.{
  Base, UserToken, Described, described, anchor, checked_domain, refuses, NewError, not_decoded,
  validated,
}

-- The type Provider.
pub record ZoneeditProvider : Type 0 where
  pub base : Base
  pub username : Bytes
  pub token : Bytes

-- key"value", with the quotes around the value
abbrev quoted : String → String → Bytes
quoted key value = codes key ++ 34 ∷ (codes value ++ 34 ∷ [])

-- validateSettings
unfoldable pub validate_settings : Bytes → Bytes → Bytes → Option SettingError
unfolding beq refuses checked_domain
validate_settings domain username token =
    checked_domain domain
      ((beq username [], refuses username_not_set) ∷ (beq token [], refuses token_not_set) ∷ [])

-- New, from what encoding/json returns
unfoldable pub new :
    UserToken ⊎ Error → Bytes → Bytes → IpVersion → Prefix → ZoneeditProvider ⊎ NewError
unfolding validate_settings validated
new (inr e) domain owner version suffix = inr (not_decoded e)
new (inl extra) domain owner version suffix =
    validated (validate_settings domain extra.username extra.token) (record {
      base = record { domain = domain; owner = owner; ip_version = version; ipv6_suffix = suffix };
      username = extra.username;
      token = extra.token;
    })

-- The accessors.
unfoldable pub describe : ZoneeditProvider → Described
unfolding described anchor
describe p =
    described p.base (codes "zoneedit")
      (anchor (codes "https://www.zoneedit.com/") (codes "Zoneedit"))

-- The request of Update.
unfoldable pub request : (Addr → Bytes) → ZoneeditProvider → Addr → Request
unfolding build_url_query_hostname beq
request show p ip = record {
  host = codes "api.cp.zoneedit.com";
  path = codes "dyn/generic.php";
  user = some (p.username, p.token);
  query =
      (codes "hostname", build_url_query_hostname p.base.owner p.base.domain)
      ∷ (codes "myip", show ip)
      ∷ (if beq p.base.owner (codes "*") then (codes "wildcard", codes "ON") ∷ [] else []);
  headers = user_agent ∷ [];
}

-- Of exactly two addresses the second is compared; the extraction is for IPv4 at either version.
unfoldable pub second_compared : (Addr → Bytes) → Addr → Option (List Addr) → Outcome
unfolding compared
second_compared show ip (some (a ∷ new_ip ∷ [])) = compared show ip new_ip
second_compared show ip _ = inl ip

-- What Update makes of a reply.
unfoldable pub interpret :
    (Addr → Bytes) → (Bytes → Option Addr) → ZoneeditProvider → Addr → ℕ → Bytes ⊎ Error → Outcome
unfolding switch read_all fails fails_with fails_by_status extract_ipv4 to_single_line to_lower beq
    contains second_compared
interpret show parse p ip code body = read_all body (λ raw.
    let s = to_lower raw in
    switch
      ((not (code == 200), fails_by_status code (to_single_line raw))
        ∷ (
          contains s (quoted "success_code=" "200"),
          second_compared show ip (extract_ipv4 parse s),
        )
        ∷ (beq s [], fails received_no_result)
        ∷ (
          contains s (quoted "error code=" "702")
              || contains s (codes "minimum 600 seconds between requests"),
          fails_with banned_abuse (codes "zoneedit requires 10 minutes between each request"),
        )
        ∷ (
          contains s (quoted "error code=" "709") || contains s (codes "invalid hostname"),
          fails_with banned_abuse (codes "invalid request sent"),
        )
        ∷ (
          contains s (quoted "error code=" "708") || contains s (codes "failed login"),
          fails_with auth (codes "for user " ++ p.username),
        )
        ∷ [])
      (fails_with unknown_response (to_single_line s)))

-- Update
unfoldable pub update :
    (Addr → Bytes) → (Bytes → Option Addr) → Client → ZoneeditProvider → Addr → Outcome
unfolding request interpret exchanged doing_request
update show parse client p ip =
    exchanged doing_request (client (request show p ip)) (interpret show parse p ip)
