-- ===== src/Providers/Confirm.antt =====
-- That an update of the modelled providers returns no other address than the one it was for.
use ddns_updater_beget.Common.{
  ℕ, Bool, true, ◌⊎◌, inl, inr, List, [], ◌∷◌, ◌++◌, Option, none, some, Bytes, codes, Error, ◌≡◌,
  refl, sym, trim_prefix, arith, if_either, beq,
}
use ddns_updater_beget.Net.{Addr, same_addr}
use ddns_updater_beget.Net.Laws.{same_addr_refl, same_addr→eq}
use ddns_updater_beget.IpVersion.{to_lower}
use ddns_updater_beget.Extract.{extract_ipv4, extract_ipv6}
use ddns_updater_beget.Providers.Errors.{ip_received_malformed, received_no_result}
use ddns_updater_beget.Providers.Client.{
  Outcome, switch, fails, fails_with, fails_by_status, read_all, compared, mismatch, first_compared,
  extracted,
}
use ddns_updater_beget.Providers.Allinkl
use ddns_updater_beget.Providers.Changeip
use ddns_updater_beget.Providers.Dd24
use ddns_updater_beget.Providers.Ddnss
use ddns_updater_beget.Providers.Desec
use ddns_updater_beget.Providers.Dnsomatic
use ddns_updater_beget.Providers.Duckdns
use ddns_updater_beget.Providers.Dyn
use ddns_updater_beget.Providers.Dynu
use ddns_updater_beget.Providers.Dynv6
use ddns_updater_beget.Providers.Easydns
use ddns_updater_beget.Providers.Freedns
use ddns_updater_beget.Providers.Goip
use ddns_updater_beget.Providers.He
use ddns_updater_beget.Providers.Infomaniak
use ddns_updater_beget.Providers.Inwx
use ddns_updater_beget.Providers.Namecheap
use ddns_updater_beget.Providers.Noip
use ddns_updater_beget.Providers.Nowdns
use ddns_updater_beget.Providers.Opendns
use ddns_updater_beget.Providers.Selfhostde
use ddns_updater_beget.Providers.Spdyn
use ddns_updater_beget.Providers.Strato
use ddns_updater_beget.Providers.Variomedia
use ddns_updater_beget.Providers.Zoneedit
use ddns_updater_beget.Providers.Any.{
  AnyProvider, Outside, interpret_any, update_any, allinkl, changeip, dd24, ddnss, desec, dnsomatic,
  duckdns, dyn, dynu, dynv6, easydns, freedns, goip, he, infomaniak, inwx, namecheap, noip, nowdns,
  opendns, selfhostde, spdyn, strato, variomedia, zoneedit,
}
use ddns_updater_beget.Providers.Replies.{update_any-cases}

-- No other address than this one is in the result.
unfoldable pub confirms : Addr → Outcome → Bool
unfolding same_addr
confirms ip (inl a) = same_addr ip a
confirms ip (inr f) = true

module _ (show : Addr → Bytes) (ip : Addr) where
  pub confirms-compared : (new_ip : Addr) → confirms ip (compared show ip new_ip) ≡ true
  unfolding confirms compared mismatch fails_with
  confirms-compared new_ip = ground arith

  pub confirms-first_compared :
      (ips : Option (List Addr)) → confirms ip (first_compared show ip ips) ≡ true
  unfolding confirms first_compared fails
  confirms-first_compared none = refl
  confirms-first_compared (some []) = refl
  confirms-first_compared (some (a ∷ ips)) = confirms-compared a

  pub confirms-extracted :
      (parse : Bytes → Option Addr) (s : Bytes) → confirms ip (extracted show parse ip s) ≡ true
  unfolding extracted
  confirms-extracted parse s = confirms-first_compared _

  confirms-second_compared :
      (ips : Option (List Addr)) → confirms ip (Zoneedit.second_compared show ip ips) ≡ true
  unfolding confirms Zoneedit.second_compared
  confirms-second_compared none = same_addr_refl ip
  confirms-second_compared (some []) = same_addr_refl ip
  confirms-second_compared (some (a ∷ [])) = same_addr_refl ip
  confirms-second_compared (some (a ∷ b ∷ [])) = confirms-compared b
  confirms-second_compared (some (a ∷ b ∷ c ∷ ips)) = same_addr_refl ip

  confirms-opendns : (found : Option Addr) → confirms ip (Opendns.received show ip found) ≡ true
  unfolding confirms Opendns.received mismatch fails fails_with
  confirms-opendns none = refl
  confirms-opendns (some a) = ground (arith, same_addr_refl ip)

  confirms-received :
      (s : Bytes) (found : Option Addr) → confirms ip (Infomaniak.received show ip s found) ≡ true
  unfolding confirms Infomaniak.received fails_with
  confirms-received s none = refl
  confirms-received s (some a) = confirms-compared a

  confirms-by_prefix :
      (parse : Bytes → Option Addr) (s prefix : Bytes)
      → confirms ip (Infomaniak.by_prefix show parse ip s prefix) ≡ true
  unfolding confirms Infomaniak.by_prefix fails_with
  confirms-by_prefix parse s prefix =
      if_either (λ r. confirms ip r ≡ true) (beq prefix []) refl
        (confirms-received _ (parse (trim_prefix s (prefix ++ codes " "))))

  confirms-parsed :
      (failed : Outcome) (found : Option Addr)
      → confirms ip failed ≡ true
      → confirms ip (Nowdns.parsed show ip failed found) ≡ true
  unfolding confirms Nowdns.parsed mismatch fails_with
  confirms-parsed failed none h = h
  confirms-parsed failed (some a) h = ground (arith, same_addr_refl ip)

  confirms-namecheap : (found : Option Addr) → confirms ip (Namecheap.received show ip found) ≡ true
  unfolding confirms Namecheap.received fails
  confirms-namecheap none = refl
  confirms-namecheap (some a) = confirms-compared a

  confirms-decoded :
      (parse : Bytes → Option Addr) (x : Namecheap.Parsed ⊎ Error)
      → confirms ip (Namecheap.decoded show parse ip x) ≡ true
  unfolding confirms Namecheap.decoded switch fails fails_with
  confirms-decoded parse (inr e) = refl
  confirms-decoded parse (inl x) =
      ground (arith, same_addr_refl ip, confirms-namecheap (parse x.ip))

pub interpret_any-confirms :
    (o : Outside) (p : AnyProvider) (ip : Addr) (code : ℕ) (body : Bytes ⊎ Error)
    → confirms ip (interpret_any o p ip code body) ≡ true
unfolding interpret_any confirms switch read_all fails fails_with fails_by_status Allinkl.interpret
    Changeip.interpret Dd24.interpret Ddnss.interpret Desec.interpret Dnsomatic.interpret
    Duckdns.interpret Dyn.interpret Dynu.interpret Dynv6.interpret Easydns.interpret
    Freedns.interpret Goip.interpret He.interpret Infomaniak.interpret Inwx.interpret
    Namecheap.interpret Noip.interpret Nowdns.interpret Opendns.interpret Selfhostde.interpret
    Spdyn.interpret Strato.interpret Variomedia.interpret Zoneedit.interpret
interpret_any-confirms o (allinkl p) ip code (inl s) =
    ground (arith, confirms-extracted o.show ip o.parse s)
interpret_any-confirms o (allinkl p) ip code (inr e) = refl
interpret_any-confirms o (changeip p) ip code (inl s) = ground (arith, same_addr_refl ip)
interpret_any-confirms o (changeip p) ip code (inr e) = ground (arith, same_addr_refl ip)
interpret_any-confirms o (dd24 p) ip code (inl s) = ground (arith, same_addr_refl ip)
interpret_any-confirms o (dd24 p) ip code (inr e) = refl
interpret_any-confirms o (ddnss p) ip code (inl s) = ground (arith, same_addr_refl ip)
interpret_any-confirms o (ddnss p) ip code (inr e) = refl
interpret_any-confirms o (desec p) ip code (inl s) = ground (arith, same_addr_refl ip)
interpret_any-confirms o (desec p) ip code (inr e) = refl
interpret_any-confirms o (dnsomatic p) ip code (inl s) =
    ground (arith, confirms-extracted o.show ip o.parse s)
interpret_any-confirms o (dnsomatic p) ip code (inr e) = refl
interpret_any-confirms o (duckdns p) ip code (inl s) = ground (
  arith,
  confirms-first_compared o.show ip (extract_ipv6 o.parse s),
  confirms-first_compared o.show ip (extract_ipv4 o.parse s),
)
interpret_any-confirms o (duckdns p) ip code (inr e) = refl
interpret_any-confirms o (dyn p) ip code (inl s) = ground (arith, same_addr_refl ip)
interpret_any-confirms o (dyn p) ip code (inr e) = refl
interpret_any-confirms o (dynu p) ip code (inl s) = ground (arith, same_addr_refl ip)
interpret_any-confirms o (dynu p) ip code (inr e) = refl
interpret_any-confirms o (dynv6 p) ip code (inl s) = ground (arith, same_addr_refl ip)
interpret_any-confirms o (dynv6 p) ip code (inr e) = ground (arith, same_addr_refl ip)
interpret_any-confirms o (easydns p) ip code (inl s) = ground (arith, same_addr_refl ip)
interpret_any-confirms o (easydns p) ip code (inr e) = refl
interpret_any-confirms o (freedns p) ip code (inl s) = ground (arith, same_addr_refl ip)
interpret_any-confirms o (freedns p) ip code (inr e) = refl
interpret_any-confirms o (goip p) ip code (inl s) = ground (arith, same_addr_refl ip)
interpret_any-confirms o (goip p) ip code (inr e) = ground (arith, same_addr_refl ip)
interpret_any-confirms o (he p) ip code (inl s) =
    ground (arith, confirms-extracted o.show ip o.parse s)
interpret_any-confirms o (he p) ip code (inr e) = refl
interpret_any-confirms o (infomaniak p) ip code (inl s) =
    ground (arith, confirms-by_prefix o.show ip o.parse s)
interpret_any-confirms o (infomaniak p) ip code (inr e) = refl
interpret_any-confirms o (inwx p) ip code (inl s) = ground (arith, same_addr_refl ip)
interpret_any-confirms o (inwx p) ip code (inr e) = refl
interpret_any-confirms o (namecheap p) ip code body =
    ground (arith, confirms-decoded o.show ip o.parse (o.decode body))
interpret_any-confirms o (noip p) ip code (inl s) =
    ground (arith, confirms-extracted o.show ip o.parse s)
interpret_any-confirms o (noip p) ip code (inr e) = refl
interpret_any-confirms o (nowdns p) ip code (inl s) = ground (
  arith,
  confirms-parsed o.show ip (fails ip_received_malformed) (o.parse (o.show ip)) refl,
  confirms-parsed o.show ip (fails_with received_no_result _) (o.parse (o.show ip)) refl,
)
interpret_any-confirms o (nowdns p) ip code (inr e) = refl
interpret_any-confirms o (opendns p) ip code (inl s) =
    ground (arith, confirms-opendns o.show ip (o.parse (trim_prefix s (codes "good "))))
interpret_any-confirms o (opendns p) ip code (inr e) = refl
interpret_any-confirms o (selfhostde p) ip code (inl s) = ground (arith, same_addr_refl ip)
interpret_any-confirms o (selfhostde p) ip code (inr e) = ground (arith, same_addr_refl ip)
interpret_any-confirms o (spdyn p) ip code (inl s) = ground (arith, same_addr_refl ip)
interpret_any-confirms o (spdyn p) ip code (inr e) = refl
interpret_any-confirms o (strato p) ip code (inl s) = ground (arith, same_addr_refl ip)
interpret_any-confirms o (strato p) ip code (inr e) = refl
interpret_any-confirms o (variomedia p) ip code (inl s) = ground (arith, same_addr_refl ip)
interpret_any-confirms o (variomedia p) ip code (inr e) = refl
interpret_any-confirms o (zoneedit p) ip code (inl s) =
    ground (arith, confirms-second_compared o.show ip (extract_ipv4 o.parse (to_lower s)))
interpret_any-confirms o (zoneedit p) ip code (inr e) = refl

update_any-agrees :
    (o : Outside) (p : AnyProvider) (ip : Addr) → confirms ip (update_any o p ip) ≡ true
unfolding confirms
update_any-agrees o p ip = elim (update_any-cases o p ip) [
  | inl (f, e, own, lost) ↦ rw e refl
  | inr (code, body, asked, e) ↦ rw e (interpret_any-confirms o p ip code body)
]

returned : (ip a : Addr) {r : Outcome} → confirms ip r ≡ true → r ≡ inl a → a ≡ ip
unfolding confirms
returned ip a h e = sym (same_addr→eq ip a (rw e at h))

-- A successful update of any of the providers returns the address that it was for.
pub update_any-confirms :
    (o : Outside) (p : AnyProvider) (ip a : Addr) → update_any o p ip ≡ inl a → a ≡ ip
update_any-confirms o p ip a h = returned ip a (update_any-agrees o p ip) h
