-- ===== src/Providers/Any.antt =====
-- internal/provider/provider.go: the interface Provider over the modelled providers, which are
-- those that answer by one request, and New.
use ddns_updater_beget.Common.{◌⊎◌, Option, Bytes, Error, ℕ}
use ddns_updater_beget.Net.{Addr}
use ddns_updater_beget.Providers.Client.{Request, Client, Outcome}
use ddns_updater_beget.Providers.Settings.{Described}
use ddns_updater_beget.Providers.Allinkl
use ddns_updater_beget.Providers.Changeip
use ddns_updater_beget.Providers.Dd24
use ddns_updater_beget.Providers.Ddnss
use ddns_updater_beget.Providers.Desec
use ddns_updater_beget.Providers.Dnsomatic
use ddns_updater_beget.Providers.Duckdns
use ddns_updater_beget.Providers.Dyn
use ddns_updater_beget.Providers.Dynu
use ddns_updater_beget.Providers.Dynv6
use ddns_updater_beget.Providers.Easydns
use ddns_updater_beget.Providers.Freedns
use ddns_updater_beget.Providers.Goip
use ddns_updater_beget.Providers.He
use ddns_updater_beget.Providers.Infomaniak
use ddns_updater_beget.Providers.Inwx
use ddns_updater_beget.Providers.Namecheap
use ddns_updater_beget.Providers.Noip
use ddns_updater_beget.Providers.Nowdns
use ddns_updater_beget.Providers.Opendns
use ddns_updater_beget.Providers.Selfhostde
use ddns_updater_beget.Providers.Spdyn
use ddns_updater_beget.Providers.Strato
use ddns_updater_beget.Providers.Variomedia
use ddns_updater_beget.Providers.Zoneedit
use ddns_updater_beget.Providers.Allinkl.{AllinklProvider}
use ddns_updater_beget.Providers.Changeip.{ChangeipProvider}
use ddns_updater_beget.Providers.Dd24.{Dd24Provider}
use ddns_updater_beget.Providers.Ddnss.{DdnssProvider, DdnssSettings}
use ddns_updater_beget.Providers.Desec.{DesecProvider}
use ddns_updater_beget.Providers.Dnsomatic.{DnsomaticProvider}
use ddns_updater_beget.Providers.Duckdns.{DuckdnsProvider}
use ddns_updater_beget.Providers.Dyn.{DynProvider, DynSettings}
use ddns_updater_beget.Providers.Dynu.{DynuProvider, DynuSettings}
use ddns_updater_beget.Providers.Dynv6.{Dynv6Provider}
use ddns_updater_beget.Providers.Easydns.{EasydnsProvider}
use ddns_updater_beget.Providers.Freedns.{FreednsProvider}
use ddns_updater_beget.Providers.Goip.{GoipProvider}
use ddns_updater_beget.Providers.He.{HeProvider}
use ddns_updater_beget.Providers.Infomaniak.{InfomaniakProvider}
use ddns_updater_beget.Providers.Inwx.{InwxProvider}
use ddns_updater_beget.Providers.Namecheap.{NamecheapProvider, Parsed}
use ddns_updater_beget.Providers.Noip.{NoipProvider}
use ddns_updater_beget.Providers.Nowdns.{NowdnsProvider}
use ddns_updater_beget.Providers.Opendns.{OpendnsProvider}
use ddns_updater_beget.Providers.Selfhostde.{SelfhostdeProvider}
use ddns_updater_beget.Providers.Spdyn.{SpdynProvider, SpdynSettings}
use ddns_updater_beget.Providers.Strato.{StratoProvider}
use ddns_updater_beget.Providers.Variomedia.{VariomediaProvider, VariomediaSettings}
use ddns_updater_beget.Providers.Zoneedit.{ZoneeditProvider}

-- The values of the interface Provider.
pub data AnyProvider : Type 0 where
  allinkl : AllinklProvider → AnyProvider
  changeip : ChangeipProvider → AnyProvider
  dd24 : Dd24Provider → AnyProvider
  ddnss : DdnssProvider → AnyProvider
  desec : DesecProvider → AnyProvider
  dnsomatic : DnsomaticProvider → AnyProvider
  duckdns : DuckdnsProvider → AnyProvider
  dyn : DynProvider → AnyProvider
  dynu : DynuProvider → AnyProvider
  dynv6 : Dynv6Provider → AnyProvider
  easydns : EasydnsProvider → AnyProvider
  freedns : FreednsProvider → AnyProvider
  goip : GoipProvider → AnyProvider
  he : HeProvider → AnyProvider
  infomaniak : InfomaniakProvider → AnyProvider
  inwx : InwxProvider → AnyProvider
  namecheap : NamecheapProvider → AnyProvider
  noip : NoipProvider → AnyProvider
  nowdns : NowdnsProvider → AnyProvider
  opendns : OpendnsProvider → AnyProvider
  selfhostde : SelfhostdeProvider → AnyProvider
  spdyn : SpdynProvider → AnyProvider
  strato : StratoProvider → AnyProvider
  variomedia : VariomediaProvider → AnyProvider
  zoneedit : ZoneeditProvider → AnyProvider

-- What is outside of the providers: netip's texts, the HTTP client, the decoder of encoding/xml, and
-- how the body is closed.
pub record Outside : Type 0 where
  pub show : Addr → Bytes
  pub parse : Bytes → Option Addr
  pub client : Client
  pub decode : Bytes ⊎ Error → Parsed ⊎ Error
  pub close : Option Error

unfoldable pub describe_any : AnyProvider → Described
unfolding Allinkl.describe Changeip.describe Dd24.describe Ddnss.describe Desec.describe
    Dnsomatic.describe Duckdns.describe Dyn.describe Dynu.describe Dynv6.describe Easydns.describe
    Freedns.describe Goip.describe He.describe Infomaniak.describe Inwx.describe Namecheap.describe
    Noip.describe Nowdns.describe Opendns.describe Selfhostde.describe Spdyn.describe
    Strato.describe Variomedia.describe Zoneedit.describe
describe_any (allinkl p) = Allinkl.describe p
describe_any (changeip p) = Changeip.describe p
describe_any (dd24 p) = Dd24.describe p
describe_any (ddnss p) = Ddnss.describe p
describe_any (desec p) = Desec.describe p
describe_any (dnsomatic p) = Dnsomatic.describe p
describe_any (duckdns p) = Duckdns.describe p
describe_any (dyn p) = Dyn.describe p
describe_any (dynu p) = Dynu.describe p
describe_any (dynv6 p) = Dynv6.describe p
describe_any (easydns p) = Easydns.describe p
describe_any (freedns p) = Freedns.describe p
describe_any (goip p) = Goip.describe p
describe_any (he p) = He.describe p
describe_any (infomaniak p) = Infomaniak.describe p
describe_any (inwx p) = Inwx.describe p
describe_any (namecheap p) = Namecheap.describe p
describe_any (noip p) = Noip.describe p
describe_any (nowdns p) = Nowdns.describe p
describe_any (opendns p) = Opendns.describe p
describe_any (selfhostde p) = Selfhostde.describe p
describe_any (spdyn p) = Spdyn.describe p
describe_any (strato p) = Strato.describe p
describe_any (variomedia p) = Variomedia.describe p
describe_any (zoneedit p) = Zoneedit.describe p

unfoldable pub request_any : (Addr → Bytes) → AnyProvider → Addr → Request
unfolding Allinkl.request Changeip.request Dd24.request Ddnss.request Desec.request
    Dnsomatic.request Duckdns.request Dyn.request Dynu.request Dynv6.request Easydns.request
    Freedns.request Goip.request He.request Infomaniak.request Inwx.request Namecheap.request
    Noip.request Nowdns.request Opendns.request Selfhostde.request Spdyn.request Strato.request
    Variomedia.request Zoneedit.request
request_any show (allinkl p) ip = Allinkl.request show p ip
request_any show (changeip p) ip = Changeip.request show p ip
request_any show (dd24 p) ip = Dd24.request show p ip
request_any show (ddnss p) ip = Ddnss.request show p ip
request_any show (desec p) ip = Desec.request show p ip
request_any show (dnsomatic p) ip = Dnsomatic.request show p ip
request_any show (duckdns p) ip = Duckdns.request show p ip
request_any show (dyn p) ip = Dyn.request show p ip
request_any show (dynu p) ip = Dynu.request show p ip
request_any show (dynv6 p) ip = Dynv6.request show p ip
request_any show (easydns p) ip = Easydns.request show p ip
request_any show (freedns p) ip = Freedns.request p ip
request_any show (goip p) ip = Goip.request show p ip
request_any show (he p) ip = He.request show p ip
request_any show (infomaniak p) ip = Infomaniak.request show p ip
request_any show (inwx p) ip = Inwx.request show p ip
request_any show (namecheap p) ip = Namecheap.request show p ip
request_any show (noip p) ip = Noip.request show p ip
request_any show (nowdns p) ip = Nowdns.request show p ip
request_any show (opendns p) ip = Opendns.request show p ip
request_any show (selfhostde p) ip = Selfhostde.request show p ip
request_any show (spdyn p) ip = Spdyn.request show p ip
request_any show (strato p) ip = Strato.request show p ip
request_any show (variomedia p) ip = Variomedia.request show p ip
request_any show (zoneedit p) ip = Zoneedit.request show p ip

-- What Update makes of a reply.
unfoldable pub interpret_any : Outside → AnyProvider → Addr → ℕ → Bytes ⊎ Error → Outcome
unfolding Allinkl.interpret Changeip.interpret Dd24.interpret Ddnss.interpret Desec.interpret
    Dnsomatic.interpret Duckdns.interpret Dyn.interpret Dynu.interpret Dynv6.interpret
    Easydns.interpret Freedns.interpret Goip.interpret He.interpret Infomaniak.interpret
    Inwx.interpret Namecheap.interpret Noip.interpret Nowdns.interpret Opendns.interpret
    Selfhostde.interpret Spdyn.interpret Strato.interpret Variomedia.interpret Zoneedit.interpret
interpret_any o (allinkl p) ip code body = Allinkl.interpret o.show o.parse ip code body
interpret_any o (changeip p) ip code body = Changeip.interpret o.close ip code body
interpret_any o (dd24 p) ip code body = Dd24.interpret ip code body
interpret_any o (ddnss p) ip code body = Ddnss.interpret ip code body
interpret_any o (desec p) ip code body = Desec.interpret ip code body
interpret_any o (dnsomatic p) ip code body = Dnsomatic.interpret o.show o.parse ip code body
interpret_any o (duckdns p) ip code body = Duckdns.interpret o.show o.parse ip code body
interpret_any o (dyn p) ip code body = Dyn.interpret ip code body
interpret_any o (dynu p) ip code body = Dynu.interpret ip code body
interpret_any o (dynv6 p) ip code body = Dynv6.interpret ip code body
interpret_any o (easydns p) ip code body = Easydns.interpret ip code body
interpret_any o (freedns p) ip code body = Freedns.interpret ip code body
interpret_any o (goip p) ip code body = Goip.interpret o.show p ip code body
interpret_any o (he p) ip code body = He.interpret o.show o.parse ip code body
interpret_any o (infomaniak p) ip code body = Infomaniak.interpret o.show o.parse ip code body
interpret_any o (inwx p) ip code body = Inwx.interpret ip code body
interpret_any o (namecheap p) ip code body =
    Namecheap.interpret o.show o.parse o.decode ip code body
interpret_any o (noip p) ip code body = Noip.interpret o.show o.parse ip code body
interpret_any o (nowdns p) ip code body = Nowdns.interpret o.show o.parse ip code body
interpret_any o (opendns p) ip code body = Opendns.interpret o.show o.parse ip code body
interpret_any o (selfhostde p) ip code body = Selfhostde.interpret o.show ip code body
interpret_any o (spdyn p) ip code body = Spdyn.interpret ip code body
interpret_any o (strato p) ip code body = Strato.interpret ip code body
interpret_any o (variomedia p) ip code body = Variomedia.interpret ip code body
interpret_any o (zoneedit p) ip code body = Zoneedit.interpret o.show o.parse p ip code body

-- Update
unfoldable pub update_any : Outside → AnyProvider → Addr → Outcome
unfolding Allinkl.update Changeip.update Dd24.update Ddnss.update Desec.update Dnsomatic.update
    Duckdns.update Dyn.update Dynu.update Dynv6.update Easydns.update Freedns.update Goip.update
    He.update Infomaniak.update Inwx.update Namecheap.update Noip.update Nowdns.update
    Opendns.update Selfhostde.update Spdyn.update Strato.update Variomedia.update Zoneedit.update
update_any o (allinkl p) ip = Allinkl.update o.show o.parse o.client p ip
update_any o (changeip p) ip = Changeip.update o.show o.client o.close p ip
update_any o (dd24 p) ip = Dd24.update o.show o.client p ip
update_any o (ddnss p) ip = Ddnss.update o.show o.client p ip
update_any o (desec p) ip = Desec.update o.show o.client p ip
update_any o (dnsomatic p) ip = Dnsomatic.update o.show o.parse o.client p ip
update_any o (duckdns p) ip = Duckdns.update o.show o.parse o.client p ip
update_any o (dyn p) ip = Dyn.update o.show o.client p ip
update_any o (dynu p) ip = Dynu.update o.show o.client p ip
update_any o (dynv6 p) ip = Dynv6.update o.show o.client p ip
update_any o (easydns p) ip = Easydns.update o.show o.client p ip
update_any o (freedns p) ip = Freedns.update o.client p ip
update_any o (goip p) ip = Goip.update o.show o.client p ip
update_any o (he p) ip = He.update o.show o.parse o.client p ip
update_any o (infomaniak p) ip = Infomaniak.update o.show o.parse o.client p ip
update_any o (inwx p) ip = Inwx.update o.show o.client p ip
update_any o (namecheap p) ip = Namecheap.update o.show o.parse o.decode o.client p ip
update_any o (noip p) ip = Noip.update o.show o.parse o.client p ip
update_any o (nowdns p) ip = Nowdns.update o.show o.parse o.client p ip
update_any o (opendns p) ip = Opendns.update o.show o.parse o.client p ip
update_any o (selfhostde p) ip = Selfhostde.update o.show o.client p ip
update_any o (spdyn p) ip = Spdyn.update o.show o.client p ip
update_any o (strato p) ip = Strato.update o.show o.client p ip
update_any o (variomedia p) ip = Variomedia.update o.show o.client p ip
update_any o (zoneedit p) ip = Zoneedit.update o.show o.parse o.client p ip
