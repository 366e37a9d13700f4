-- ===== src/Providers/Accepted.antt =====
-- Which replies a successful update of a modelled provider can come from.
use ddns_updater_beget.Common.{
  ℕ, Bool, true, false, ◌||◌, ◌⊎◌, inl, inr, Bytes, Error, ◌≡◌, refl, arith, ◌==◌,
}
use ddns_updater_beget.Net.{Addr}
use ddns_updater_beget.Providers.Client.{
  Outcome, switch, fails, fails_with, fails_by_status, read_all, answered,
}
use ddns_updater_beget.Providers.Allinkl
use ddns_updater_beget.Providers.Changeip
use ddns_updater_beget.Providers.Dd24
use ddns_updater_beget.Providers.Ddnss
use ddns_updater_beget.Providers.Desec
use ddns_updater_beget.Providers.Dnsomatic
use ddns_updater_beget.Providers.Duckdns
use ddns_updater_beget.Providers.Dyn
use ddns_updater_beget.Providers.Dynu
use ddns_updater_beget.Providers.Dynv6
use ddns_updater_beget.Providers.Easydns
use ddns_updater_beget.Providers.Freedns
use ddns_updater_beget.Providers.Goip
use ddns_updater_beget.Providers.He
use ddns_updater_beget.Providers.Infomaniak
use ddns_updater_beget.Providers.Inwx
use ddns_updater_beget.Providers.Namecheap
use ddns_updater_beget.Providers.Noip
use ddns_updater_beget.Providers.Nowdns
use ddns_updater_beget.Providers.Opendns
use ddns_updater_beget.Providers.Selfhostde
use ddns_updater_beget.Providers.Spdyn
use ddns_updater_beget.Providers.Strato
use ddns_updater_beget.Providers.Variomedia
use ddns_updater_beget.Providers.Zoneedit
use ddns_updater_beget.Providers.Any.{
  AnyProvider, Outside, request_any, interpret_any, update_any, allinkl, changeip, dd24, ddnss,
  desec, dnsomatic, duckdns, dyn, dynu, dynv6, easydns, freedns, goip, he, infomaniak, inwx,
  namecheap, noip, nowdns, opendns, selfhostde, spdyn, strato, variomedia, zoneedit,
}
use ddns_updater_beget.Providers.Replies.{update_any-cases}

-- The status codes of a success: 200, with 204 for selfhost.de, and any code for he.net.
unfoldable pub is_accepted : AnyProvider → ℕ → Bool
is_accepted (he p) code = true
is_accepted (selfhostde p) code = code == 200 || code == 204
is_accepted _ code = code == 200

unfoldable pub is_success : Outcome → Bool
is_success (inl a) = true
is_success (inr f) = false

interpret_any-is_accepted :
    (o : Outside) (p : AnyProvider) (ip : Addr) (code : ℕ) (body : Bytes ⊎ Error)
    → is_success (interpret_any o p ip code body) ≡ true
    → is_accepted p code ≡ true
unfolding interpret_any is_success is_accepted switch read_all fails fails_with fails_by_status
    Allinkl.interpret Changeip.interpret Dd24.interpret Ddnss.interpret Desec.interpret
    Dnsomatic.interpret Duckdns.interpret Dyn.interpret Dynu.interpret Dynv6.interpret
    Easydns.interpret Freedns.interpret Goip.interpret He.interpret Infomaniak.interpret
    Inwx.interpret Namecheap.interpret Noip.interpret Nowdns.interpret Opendns.interpret
    Selfhostde.interpret Spdyn.interpret Strato.interpret Variomedia.interpret Zoneedit.interpret
interpret_any-is_accepted o (allinkl p) ip code (inl s) h = ground arith
interpret_any-is_accepted o (allinkl p) ip code (inr e) h = ground arith
interpret_any-is_accepted o (changeip p) ip code (inl s) h = ground arith
interpret_any-is_accepted o (changeip p) ip code (inr e) h = ground arith
interpret_any-is_accepted o (dd24 p) ip code (inl s) h = ground arith
interpret_any-is_accepted o (dd24 p) ip code (inr e) h = ground arith
interpret_any-is_accepted o (ddnss p) ip code (inl s) h = ground arith
interpret_any-is_accepted o (ddnss p) ip code (inr e) h = ground arith
interpret_any-is_accepted o (desec p) ip code (inl s) h = ground arith
interpret_any-is_accepted o (desec p) ip code (inr e) h = ground arith
interpret_any-is_accepted o (dnsomatic p) ip code (inl s) h = ground arith
interpret_any-is_accepted o (dnsomatic p) ip code (inr e) h = ground arith
interpret_any-is_accepted o (duckdns p) ip code (inl s) h = ground arith
interpret_any-is_accepted o (duckdns p) ip code (inr e) h = ground arith
interpret_any-is_accepted o (dyn p) ip code (inl s) h = ground arith
interpret_any-is_accepted o (dyn p) ip code (inr e) h = ground arith
interpret_any-is_accepted o (dynu p) ip code (inl s) h = ground arith
interpret_any-is_accepted o (dynu p) ip code (inr e) h = ground arith
interpret_any-is_accepted o (dynv6 p) ip code (inl s) h = ground arith
interpret_any-is_accepted o (dynv6 p) ip code (inr e) h = ground arith
interpret_any-is_accepted o (easydns p) ip code (inl s) h = ground arith
interpret_any-is_accepted o (easydns p) ip code (inr e) h = ground arith
interpret_any-is_accepted o (freedns p) ip code (inl s) h = ground arith
interpret_any-is_accepted o (freedns p) ip code (inr e) h = ground arith
interpret_any-is_accepted o (goip p) ip code (inl s) h = ground arith
interpret_any-is_accepted o (goip p) ip code (inr e) h = ground arith
interpret_any-is_accepted o (he p) ip code body h = refl
interpret_any-is_accepted o (infomaniak p) ip code (inl s) h = ground arith
interpret_any-is_accepted o (infomaniak p) ip code (inr e) h = ground arith
interpret_any-is_accepted o (inwx p) ip code (inl s) h = ground arith
interpret_any-is_accepted o (inwx p) ip code (inr e) h = ground arith
interpret_any-is_accepted o (namecheap p) ip code body h = ground arith
interpret_any-is_accepted o (noip p) ip code (inl s) h = ground arith
interpret_any-is_accepted o (noip p) ip code (inr e) h = ground arith
interpret_any-is_accepted o (nowdns p) ip code (inl s) h = ground arith
interpret_any-is_accepted o (nowdns p) ip code (inr e) h = ground arith
interpret_any-is_accepted o (opendns p) ip code (inl s) h = ground arith
interpret_any-is_accepted o (opendns p) ip code (inr e) h = ground arith
interpret_any-is_accepted o (selfhostde p) ip code (inl s) h = ground arith
interpret_any-is_accepted o (selfhostde p) ip code (inr e) h = ground arith
interpret_any-is_accepted o (spdyn p) ip code (inl s) h = ground arith
interpret_any-is_accepted o (spdyn p) ip code (inr e) h = ground arith
interpret_any-is_accepted o (strato p) ip code (inl s) h = ground arith
interpret_any-is_accepted o (strato p) ip code (inr e) h = ground arith
interpret_any-is_accepted o (variomedia p) ip code (inl s) h = ground arith
interpret_any-is_accepted o (variomedia p) ip code (inr e) h = ground arith
interpret_any-is_accepted o (zoneedit p) ip code (inl s) h = ground arith
interpret_any-is_accepted o (zoneedit p) ip code (inr e) h = ground arith

-- A successful update of any of the providers had a reply, and one of a status that the provider
-- accepts.
pub update_any-is_accepted :
    (o : Outside) (p : AnyProvider) (ip a : Addr)
    → update_any o p ip ≡ inl a
    → (code : ℕ) × (body : Bytes ⊎ Error) × (o.client (request_any o.show p ip)
        ≡ answered code body)
      × (is_accepted p code ≡ true)
unfolding is_success
update_any-is_accepted o p ip a h = elim (update_any-cases o p ip) [
  | inl (f, e, own, lost) ↦ cc
  | inr (code, body, asked, e) ↦
      (code, body, asked, interpret_any-is_accepted o p ip code body (rw (← e, h) refl))
]
