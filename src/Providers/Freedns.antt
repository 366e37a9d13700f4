-- ===== src/Providers/Freedns.antt =====
-- internal/provider/providers/freedns/provider.go: the settings, the request of an update, and
-- what its reply gives.
use ddns_updater_beget.Common.{
  ℕ, not, ◌||◌, ◌⊎◌, inl, inr, [], ◌∷◌, ◌++◌, Option, none, Bytes, codes, Error, beq, has_prefix,
  ◌==◌, if◌then◌else◌,
}
use ddns_updater_beget.Net.{Addr, Prefix, is6}
use ddns_updater_beget.IpVersion.{IpVersion, to_lower}
use ddns_updater_beget.PublicIp.Http.{to_single_line}
use ddns_updater_beget.Providers.Errors.{
  SettingError, token_not_set, received_no_result, unknown_response,
}
use ddns_updater_beget.Providers.Client.{
  Request, Client, Outcome, user_agent, switch, fails, fails_with, fails_by_status, exchanged,
  doing_request, read_all,
}
use ddns_updater_beget.Providers.Settings.{
  Base, OnlyToken, Described, described, anchor, checked_domain, refuses, NewError, not_decoded,
  validated,
}

-- The type Provider.
pub record FreednsProvider : Type 0 where
  pub base : Base
  pub token : Bytes

-- validateSettings
unfoldable pub validate_settings : Bytes → Bytes → Option SettingError
unfolding beq refuses checked_domain
validate_settings domain token = checked_domain domain ((beq token [], refuses token_not_set) ∷ [])

-- New, from what encoding/json returns
unfoldable pub new :
    OnlyToken ⊎ Error → Bytes → Bytes → IpVersion → Prefix → FreednsProvider ⊎ NewError
unfolding validate_settings validated
new (inr e) domain owner version suffix = inr (not_decoded e)
new (inl extra) domain owner version suffix =
    validated (validate_settings domain extra.token) (record {
      base = record { domain = domain; owner = owner; ip_version = version; ipv6_suffix = suffix };
      token = extra.token;
    })

-- The accessors.
unfoldable pub describe : FreednsProvider → Described
unfolding described anchor
describe p =
    described p.base (codes "freedns")
      (anchor (codes "https://freedns.afraid.org/") (codes "FreeDNS"))

-- The request of Update.
unfoldable pub request : FreednsProvider → Addr → Request
unfolding is6
request p ip = record {
  host = (if is6 ip then codes "v6." else []) ++ codes "sync.afraid.org";
  path = codes "/u/" ++ (p.token ++ codes "/");
  user = none;
  query = [];
  headers = user_agent ∷ [];
}

-- What Update makes of a reply.
unfoldable pub interpret : Addr → ℕ → Bytes ⊎ Error → Outcome
unfolding switch read_all fails fails_with fails_by_status to_single_line to_lower beq has_prefix
interpret ip code body = read_all body (λ s.
    let lowered = to_lower s in
    switch
      ((not (code == 200), fails_by_status code s)
        ∷ (beq lowered [], fails received_no_result)
        ∷ (
          has_prefix lowered (codes "no ip change detected")
              || has_prefix lowered (codes "updated "),
          inl ip,
        )
        ∷ [])
      (fails_with unknown_response (to_single_line s)))

-- Update
unfoldable pub update : Client → FreednsProvider → Addr → Outcome
unfolding request interpret exchanged doing_request
update client p ip = exchanged doing_request (client (request p ip)) (interpret ip)
