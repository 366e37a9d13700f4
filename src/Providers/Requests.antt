-- ===== src/Providers/Requests.antt =====
-- What the request of an update carries.
use ddns_updater_beget.Common.{
  Bool, true, false, List, [], ◌∷◌, Bytes, ◌≡◌, arith, beq, beq_refl, if◌then◌else◌,
}
use ddns_updater_beget.Net.{Addr}
use ddns_updater_beget.Providers.Allinkl
use ddns_updater_beget.Providers.Changeip
use ddns_updater_beget.Providers.Dd24
use ddns_updater_beget.Providers.Ddnss
use ddns_updater_beget.Providers.Desec
use ddns_updater_beget.Providers.Dnsomatic
use ddns_updater_beget.Providers.Duckdns
use ddns_updater_beget.Providers.Dyn
use ddns_updater_beget.Providers.Dynu
use ddns_updater_beget.Providers.Dynv6
use ddns_updater_beget.Providers.Easydns
use ddns_updater_beget.Providers.Freedns
use ddns_updater_beget.Providers.Goip
use ddns_updater_beget.Providers.He
use ddns_updater_beget.Providers.Infomaniak
use ddns_updater_beget.Providers.Inwx
use ddns_updater_beget.Providers.Namecheap
use ddns_updater_beget.Providers.Noip
use ddns_updater_beget.Providers.Nowdns
use ddns_updater_beget.Providers.Opendns
use ddns_updater_beget.Providers.Selfhostde
use ddns_updater_beget.Providers.Spdyn
use ddns_updater_beget.Providers.Strato
use ddns_updater_beget.Providers.Variomedia
use ddns_updater_beget.Providers.Zoneedit
use ddns_updater_beget.Providers.Any.{
  AnyProvider, request_any, allinkl, changeip, dd24, ddnss, desec, dnsomatic, duckdns, dyn, dynu,
  dynv6, easydns, freedns, goip, he, infomaniak, inwx, namecheap, noip, nowdns, opendns, selfhostde,
  spdyn, strato, variomedia, zoneedit,
}

-- Whether the text is the value of a key.
unfoldable pub has_value : Bytes → List (Bytes × Bytes) → Bool
unfolding beq
has_value v [] = false
has_value v ((k, w) ∷ pairs) = if beq v w then true else has_value v pairs

-- Freedns sends no address: its server takes that of the connection.
unfoldable pub sends_address : AnyProvider → Bool
sends_address (freedns p) = false
sends_address _ = true

-- The request of an update holds the address as the value of a key of its query, whichever of the
-- providers it is but freedns.
pub request_any-has_value :
    (show : Addr → Bytes) (p : AnyProvider) (ip : Addr)
    → sends_address p ≡ true
    → has_value (show ip) (request_any show p ip).query ≡ true
unfolding request_any has_value sends_address Allinkl.request Changeip.request Dd24.request
    Ddnss.request Desec.request Dnsomatic.request Duckdns.request Dyn.request Dynu.request
    Dynv6.request Easydns.request Freedns.request Goip.request He.request Infomaniak.request
    Inwx.request Namecheap.request Noip.request Nowdns.request Opendns.request Selfhostde.request
    Spdyn.request Strato.request Variomedia.request Zoneedit.request
request_any-has_value show (allinkl p) ip h = ground (arith, beq_refl (show ip))
request_any-has_value show (changeip p) ip h = ground (arith, beq_refl (show ip))
request_any-has_value show (dd24 p) ip h = ground (arith, beq_refl (show ip))
request_any-has_value show (ddnss p) ip h = ground (arith, beq_refl (show ip))
request_any-has_value show (desec p) ip h = ground (arith, beq_refl (show ip))
request_any-has_value show (dnsomatic p) ip h = ground (arith, beq_refl (show ip))
request_any-has_value show (duckdns p) ip h = ground (arith, beq_refl (show ip))
request_any-has_value show (dyn p) ip h = ground (arith, beq_refl (show ip))
request_any-has_value show (dynu p) ip h = ground (arith, beq_refl (show ip))
request_any-has_value show (dynv6 p) ip h = ground (arith, beq_refl (show ip))
request_any-has_value show (easydns p) ip h = ground (arith, beq_refl (show ip))
request_any-has_value show (freedns p) ip h = cc
request_any-has_value show (goip p) ip h = ground (arith, beq_refl (show ip))
request_any-has_value show (he p) ip h = ground (arith, beq_refl (show ip))
request_any-has_value show (infomaniak p) ip h = ground (arith, beq_refl (show ip))
request_any-has_value show (inwx p) ip h = ground (arith, beq_refl (show ip))
request_any-has_value show (namecheap p) ip h = ground (arith, beq_refl (show ip))
request_any-has_value show (noip p) ip h = ground (arith, beq_refl (show ip))
request_any-has_value show (nowdns p) ip h = ground (arith, beq_refl (show ip))
request_any-has_value show (opendns p) ip h = ground (arith, beq_refl (show ip))
request_any-has_value show (selfhostde p) ip h = ground (arith, beq_refl (show ip))
request_any-has_value show (spdyn p) ip h = ground (arith, beq_refl (show ip))
request_any-has_value show (strato p) ip h = ground (arith, beq_refl (show ip))
request_any-has_value show (variomedia p) ip h = ground (arith, beq_refl (show ip))
request_any-has_value show (zoneedit p) ip h = ground (arith, beq_refl (show ip))
