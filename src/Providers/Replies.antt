-- ===== src/Providers/Replies.antt =====
-- How an update of a modelled provider ends: without a reply, or by what is made of the reply.
use ddns_updater_beget.Common.{ℕ, Bool, true, false, ◌⊎◌, inl, inr, Bytes, Error, ◌≡◌, refl}
use ddns_updater_beget.Net.{Addr}
use ddns_updater_beget.Providers.Errors.{Fault, bare, detailed, caused, passed_on}
use ddns_updater_beget.Providers.Client.{
  Exchange, Outcome, answered, create_failed, do_failed, exchanged, doing_request,
}
use ddns_updater_beget.Providers.Allinkl
use ddns_updater_beget.Providers.Changeip
use ddns_updater_beget.Providers.Dd24
use ddns_updater_beget.Providers.Ddnss
use ddns_updater_beget.Providers.Desec
use ddns_updater_beget.Providers.Dnsomatic
use ddns_updater_beget.Providers.Duckdns
use ddns_updater_beget.Providers.Dyn
use ddns_updater_beget.Providers.Dynu
use ddns_updater_beget.Providers.Dynv6
use ddns_updater_beget.Providers.Easydns
use ddns_updater_beget.Providers.Freedns
use ddns_updater_beget.Providers.Goip
use ddns_updater_beget.Providers.He
use ddns_updater_beget.Providers.Infomaniak
use ddns_updater_beget.Providers.Inwx
use ddns_updater_beget.Providers.Namecheap
use ddns_updater_beget.Providers.Noip
use ddns_updater_beget.Providers.Nowdns
use ddns_updater_beget.Providers.Opendns
use ddns_updater_beget.Providers.Selfhostde
use ddns_updater_beget.Providers.Spdyn
use ddns_updater_beget.Providers.Strato
use ddns_updater_beget.Providers.Variomedia
use ddns_updater_beget.Providers.Zoneedit
use ddns_updater_beget.Providers.Any.{
  AnyProvider, Outside, request_any, interpret_any, update_any, allinkl, changeip, dd24, ddnss,
  desec, dnsomatic, duckdns, dyn, dynu, dynv6, easydns, freedns, goip, he, infomaniak, inwx,
  namecheap, noip, nowdns, opendns, selfhostde, spdyn, strato, variomedia, zoneedit,
}

-- A kind of error of the providers' own.
unfoldable pub is_own : Fault → Bool
is_own (bare k) = true
is_own (detailed k t) = true
is_own (caused t e) = false
is_own (passed_on e) = false

unfoldable pub is_answered : Exchange → Bool
is_answered (create_failed e) = false
is_answered (do_failed e) = false
is_answered (answered code body) = true

abbrev pub IsUnanswered : Exchange → Outcome → Type 0
IsUnanswered x r = (f : Fault) × (r ≡ inr f) × (is_own f ≡ false) × (is_answered x ≡ false)

exchanged-cases :
    (doing : Error → Fault) (x : Exchange) (read : ℕ → Bytes ⊎ Error → Outcome)
    → ((e : Error) → is_own (doing e) ≡ false)
    → IsUnanswered x (exchanged doing x read)
      ⊎ ((code : ℕ) × (body : Bytes ⊎ Error) × (x ≡ answered code body)
          × (exchanged doing x read ≡ read code body))
unfolding exchanged is_own is_answered
exchanged-cases doing (create_failed e) read h = inl (_, refl, refl, refl)
exchanged-cases doing (do_failed e) read h = inl (_, refl, h e, refl)
exchanged-cases doing (answered code body) read h = inr (code, body, refl, refl)

pub update_any-cases :
    (o : Outside) (p : AnyProvider) (ip : Addr)
    → IsUnanswered (o.client (request_any o.show p ip)) (update_any o p ip)
      ⊎ ((code : ℕ) × (body : Bytes ⊎ Error) × (o.client (request_any o.show p ip)
            ≡ answered code body)
          × (update_any o p ip ≡ interpret_any o p ip code body))
unfolding update_any request_any interpret_any is_own doing_request Allinkl.update Changeip.update
    Dd24.update Ddnss.update Desec.update Dnsomatic.update Duckdns.update Dyn.update Dynu.update
    Dynv6.update Easydns.update Freedns.update Goip.update He.update Infomaniak.update Inwx.update
    Namecheap.update Noip.update Nowdns.update Opendns.update Selfhostde.update Spdyn.update
    Strato.update Variomedia.update Zoneedit.update
update_any-cases o (allinkl p) ip = exchanged-cases doing_request _ _ (λ e. refl)
update_any-cases o (changeip p) ip = exchanged-cases doing_request _ _ (λ e. refl)
update_any-cases o (dd24 p) ip = exchanged-cases passed_on _ _ (λ e. refl)
update_any-cases o (ddnss p) ip = exchanged-cases passed_on _ _ (λ e. refl)
update_any-cases o (desec p) ip = exchanged-cases passed_on _ _ (λ e. refl)
update_any-cases o (dnsomatic p) ip = exchanged-cases passed_on _ _ (λ e. refl)
update_any-cases o (duckdns p) ip = exchanged-cases passed_on _ _ (λ e. refl)
update_any-cases o (dyn p) ip = exchanged-cases passed_on _ _ (λ e. refl)
update_any-cases o (dynu p) ip = exchanged-cases doing_request _ _ (λ e. refl)
update_any-cases o (dynv6 p) ip = exchanged-cases passed_on _ _ (λ e. refl)
update_any-cases o (easydns p) ip = exchanged-cases passed_on _ _ (λ e. refl)
update_any-cases o (freedns p) ip = exchanged-cases doing_request _ _ (λ e. refl)
update_any-cases o (goip p) ip = exchanged-cases doing_request _ _ (λ e. refl)
update_any-cases o (he p) ip = exchanged-cases doing_request _ _ (λ e. refl)
update_any-cases o (infomaniak p) ip = exchanged-cases doing_request _ _ (λ e. refl)
update_any-cases o (inwx p) ip = exchanged-cases doing_request _ _ (λ e. refl)
update_any-cases o (namecheap p) ip = exchanged-cases doing_request _ _ (λ e. refl)
update_any-cases o (noip p) ip = exchanged-cases doing_request _ _ (λ e. refl)
update_any-cases o (nowdns p) ip = exchanged-cases doing_request _ _ (λ e. refl)
update_any-cases o (opendns p) ip = exchanged-cases doing_request _ _ (λ e. refl)
update_any-cases o (selfhostde p) ip = exchanged-cases doing_request _ _ (λ e. refl)
update_any-cases o (spdyn p) ip = exchanged-cases doing_request _ _ (λ e. refl)
update_any-cases o (strato p) ip = exchanged-cases doing_request _ _ (λ e. refl)
update_any-cases o (variomedia p) ip = exchanged-cases doing_request _ _ (λ e. refl)
update_any-cases o (zoneedit p) ip = exchanged-cases doing_request _ _ (λ e. refl)
