-- ===== src/Providers/Goip.antt =====
-- internal/provider/providers/goip/provider.go: the settings, the request of an update, and
-- what its reply gives.
use ddns_updater_beget.Common.{
  ℕ, not, ◌||◌, ◌⊎◌, inl, inr, [], ◌∷◌, ◌++◌, Option, some, Bytes, codes, Error, beq, has_prefix,
  ltb, ◌==◌, if◌then◌else◌,
}
use ddns_updater_beget.Net.{Addr, Prefix, is4}
use ddns_updater_beget.IpVersion.{IpVersion, to_lower}
use ddns_updater_beget.Domain.{build_domain_name}
use ddns_updater_beget.PublicIp.Http.{to_single_line}
use ddns_updater_beget.Providers.Errors.{
  SettingError, refused, domain_not_valid, owner_wildcard, username_not_set, password_not_set, auth,
  unknown_response,
}
use ddns_updater_beget.Providers.Client.{
  Request, Client, Outcome, user_agent, switch, fails, fails_with, fails_by_status, exchanged,
  doing_request, read_all, body_to_single_line,
}
use ddns_updater_beget.Providers.Texts.{is_under, count_dots, under_root}
use ddns_updater_beget.Providers.Settings.{
  Base, UserPassword, Described, described, to_string, anchor, first_refusal, refuses, NewError,
  not_decoded, validated,
}

-- The type Provider.
pub record GoipProvider : Type 0 where
  pub base : Base
  pub username : Bytes
  pub password : Bytes

-- The older form of the domain, and no domain, taken to the form of today.
unfoldable pub retro_compatible : Bytes → Bytes → Bytes × Bytes
unfolding under_root beq
retro_compatible domain owner =
    if beq domain [] || beq domain (codes "goip.de") || beq domain (codes "goip.it")
    then under_root (if beq domain [] then codes "goip.de" else domain) owner
    else (domain, owner)

-- validateSettings
unfoldable pub validate_settings : Bytes → Bytes → Bytes → Bytes → Option SettingError
unfolding beq refuses first_refusal is_under count_dots
validate_settings domain owner username password = first_refusal (
    (beq username [], refuses username_not_set)
    ∷ (beq password [], refuses password_not_set)
    ∷ (
      not (is_under (codes "goip.de") domain || is_under (codes "goip.it") domain),
      refused domain_not_valid domain,
    )
    ∷ (ltb 2 (count_dots owner), refused domain_not_valid domain)
    ∷ (beq owner (codes "*"), refused owner_wildcard owner)
    ∷ [])

-- New, from what encoding/json returns
unfoldable pub new :
    UserPassword ⊎ Error → Bytes → Bytes → IpVersion → Prefix → GoipProvider ⊎ NewError
unfolding validate_settings validated retro_compatible
new (inr e) domain owner version suffix = inr (not_decoded e)
new (inl extra) domain owner version suffix =
    let (domain', owner') = retro_compatible domain owner in
    validated (validate_settings domain' owner' extra.username extra.password) (record {
      base = record {
        domain = domain';
        owner = owner';
        ip_version = version;
        ipv6_suffix = suffix;
      };
      username = extra.username;
      password = extra.password;
    })

-- String passes the owner and the domain in the other order than the rest; the link is of the domain.
unfoldable pub describe : GoipProvider → Described
unfolding described to_string anchor
describe p =
    let link = anchor (codes "https://www." ++ (p.base.domain ++ codes "/")) p.base.domain in
    record (described p.base (codes "goip") link) {
      name = to_string p.base.owner p.base.domain (codes "goip") p.base.ip_version;
    }

-- The request of Update.
unfoldable pub request : (Addr → Bytes) → GoipProvider → Addr → Request
unfolding build_domain_name is4
request show p ip = record {
  host = codes "www.goip.de";
  path = codes "/setip";
  user = some (p.username, p.password);
  query =
      (codes "subdomain", build_domain_name p.base.owner p.base.domain)
      ∷ (codes "username", p.username)
      ∷ (codes "password", p.password)
      ∷ (codes "shortResponse", codes "true")
      ∷ (if is4 ip then codes "ip" else codes "ip6", show ip)
      ∷ [];
  headers = user_agent ∷ [];
}

-- What Update makes of a reply.
unfoldable pub interpret : (Addr → Bytes) → GoipProvider → Addr → ℕ → Bytes ⊎ Error → Outcome
unfolding switch read_all fails fails_with fails_by_status to_single_line body_to_single_line
    to_lower has_prefix build_domain_name
interpret show p ip code body =
    switch ((not (code == 200), fails_by_status code (body_to_single_line body)) ∷ []) (
      read_all body (λ s.
        switch
          ((
            has_prefix s (
                build_domain_name p.base.owner p.base.domain
                ++ (codes " (" ++ (show ip ++ codes ")"))),
            inl ip,
          )
            ∷ (has_prefix (to_lower s) (codes "zugriff verweigert"), fails auth)
            ∷ [])
          (fails_with unknown_response (to_single_line s))))

-- Update
unfoldable pub update : (Addr → Bytes) → Client → GoipProvider → Addr → Outcome
unfolding request interpret exchanged doing_request
update show client p ip = exchanged doing_request (client (request show p ip)) (interpret show p ip)
