-- ===== src/Providers/Namecheap.antt =====
-- internal/provider/providers/namecheap/provider.go: the settings, the request of an update, and what
-- its reply gives.
use ddns_updater_beget.Common.{
  ℕ, Bool, not, ◌&&◌, ◌⊎◌, inl, inr, [], ◌∷◌, Option, none, some, Bytes, codes, Error, beq, length,
  ◌==◌,
}
use ddns_updater_beget.Net.{Addr, no_prefix}
use ddns_updater_beget.IpVersion.{ip4}
use ddns_updater_beget.Providers.Errors.{
  caused, SettingError, refused, password_not_valid, ip_received_malformed, unsuccessful,
}
use ddns_updater_beget.Providers.Client.{
  Request, Client, Outcome, user_agent, accept, switch, fails, fails_with, fails_by_status,
  exchanged, doing_request, body_to_single_line, compared,
}
use ddns_updater_beget.Providers.Settings.{
  OnlyPassword, Described, described, anchor, checked_domain, NewError, not_decoded, validated,
}
use ddns_updater_beget.Providers.Texts.{is_hex}

-- The type Provider, which has no version of its own.
pub record NamecheapProvider : Type 0 where
  pub domain : Bytes
  pub owner : Bytes
  pub password : Bytes

-- What encoding/xml decodes the body to.
pub record Parsed : Type 0 where
  pub errors : Bytes
  pub ip : Bytes

unfoldable pub is_password : Bytes → Bool
unfolding is_hex
is_password s = length s == 32 && is_hex s

-- validateSettings
unfoldable pub validate_settings : Bytes → Bytes → Option SettingError
unfolding checked_domain is_password
validate_settings domain password =
    checked_domain domain ((not (is_password password), refused password_not_valid password) ∷ [])

-- New, from what encoding/json returns
unfoldable pub new : OnlyPassword ⊎ Error → Bytes → Bytes → NamecheapProvider ⊎ NewError
unfolding validate_settings validated
new (inr e) domain owner = inr (not_decoded e)
new (inl extra) domain owner =
    validated (validate_settings domain extra.password)
      (record { domain = domain; owner = owner; password = extra.password })

-- The accessors: IPv4 always, and no suffix.
unfoldable pub describe : NamecheapProvider → Described
unfolding described anchor
describe p =
    described
      (record { domain = p.domain; owner = p.owner; ip_version = ip4; ipv6_suffix = no_prefix })
      (codes "namecheap") (anchor (codes "https://namecheap.com") (codes "Namecheap"))

-- The request of Update, with setHeaders.
unfoldable pub request : (Addr → Bytes) → NamecheapProvider → Addr → Request
request show p ip = record {
  host = codes "dynamicdns.park-your-domain.com";
  path = codes "/update";
  user = none;
  query =
      (codes "host", p.owner)
      ∷ (codes "domain", p.domain)
      ∷ (codes "password", p.password)
      ∷ (codes "ip", show ip)
      ∷ [];
  headers = user_agent ∷ accept (codes "application/xml") ∷ [];
}

-- The parsed address, compared; netip's error is left out of the text.
unfoldable pub received : (Addr → Bytes) → Addr → Option Addr → Outcome
unfolding compared fails
received show ip none = fails ip_received_malformed
received show ip (some new_ip) = compared show ip new_ip

unfoldable pub decoded : (Addr → Bytes) → (Bytes → Option Addr) → Addr → Parsed ⊎ Error → Outcome
unfolding switch fails_with received beq
decoded show parse ip (inr e) = inr (caused (codes "xml decoding response body") e)
decoded show parse ip (inl x) =
    switch ((not (beq x.errors []), fails_with unsuccessful x.errors) ∷ (beq x.ip [], inl ip) ∷ [])
      (received show ip (parse x.ip))

-- What Update makes of a reply; `decode` is the decoder of encoding/xml on the body's reader.
unfoldable pub interpret :
    (Addr → Bytes)
    → (Bytes → Option Addr)
    → (Bytes ⊎ Error → Parsed ⊎ Error)
    → Addr
    → ℕ
    → Bytes ⊎ Error
    → Outcome
unfolding switch fails_by_status body_to_single_line decoded
interpret show parse decode ip code body =
    switch ((not (code == 200), fails_by_status code (body_to_single_line body)) ∷ [])
      (decoded show parse ip (decode body))

-- Update
unfoldable pub update :
    (Addr → Bytes)
    → (Bytes → Option Addr)
    → (Bytes ⊎ Error → Parsed ⊎ Error)
    → Client
    → NamecheapProvider
    → Addr
    → Outcome
unfolding request interpret exchanged doing_request
update show parse decode client p ip =
    exchanged doing_request (client (request show p ip)) (interpret show parse decode ip)
