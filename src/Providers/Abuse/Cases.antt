-- ===== src/Providers/Abuse/Cases.antt =====
-- What each provider makes of a reply is an error of an abuse if the reply reports one.
use ddns_updater_beget.Common.{
  ℕ, Bool, true, false, ◌&&◌, ◌||◌, ◌⊎◌, inl, inr, List, [], ◌∷◌, ◌++◌, Option, Bytes, codes, Error,
  ◌≡◌, refl, trim_prefix, arith, not, ◌==◌, ==_iff, beq, beq→eq, has_prefix, contains, Bool-cases,
}
use ddns_updater_beget.Net.{Addr}
use ddns_updater_beget.Extract.{extract_ipv4, extract_ipv6}
use ddns_updater_beget.IpVersion.{to_lower}
use ddns_updater_beget.PublicIp.Http.{to_single_line}
use ddns_updater_beget.Providers.Errors.{
  banned_abuse, ip_received_malformed, received_no_result, auth, unknown_response,
}
use ddns_updater_beget.Providers.Client.{
  Outcome, switch, fails, fails_with, fails_by_status, read_all, answered, abuse, nohost, badagent,
  notfqdn, badauth, nineoneone,
}
use ddns_updater_beget.Providers.Allinkl
use ddns_updater_beget.Providers.Changeip
use ddns_updater_beget.Providers.Dd24
use ddns_updater_beget.Providers.Ddnss
use ddns_updater_beget.Providers.Desec
use ddns_updater_beget.Providers.Dnsomatic
use ddns_updater_beget.Providers.Duckdns
use ddns_updater_beget.Providers.Dyn
use ddns_updater_beget.Providers.Dynu
use ddns_updater_beget.Providers.Dynv6
use ddns_updater_beget.Providers.Easydns
use ddns_updater_beget.Providers.Freedns
use ddns_updater_beget.Providers.Goip
use ddns_updater_beget.Providers.He
use ddns_updater_beget.Providers.Infomaniak
use ddns_updater_beget.Providers.Inwx
use ddns_updater_beget.Providers.Namecheap
use ddns_updater_beget.Providers.Noip
use ddns_updater_beget.Providers.Nowdns
use ddns_updater_beget.Providers.Opendns
use ddns_updater_beget.Providers.Selfhostde
use ddns_updater_beget.Providers.Spdyn
use ddns_updater_beget.Providers.Strato
use ddns_updater_beget.Providers.Variomedia
use ddns_updater_beget.Providers.Zoneedit
use ddns_updater_beget.Providers.Any.{
  AnyProvider, Outside, interpret_any, allinkl, changeip, dd24, ddnss, desec, dnsomatic, duckdns,
  dyn, dynu, dynv6, easydns, freedns, goip, he, infomaniak, inwx, namecheap, noip, nowdns, opendns,
  selfhostde, spdyn, strato, variomedia, zoneedit,
}
use ddns_updater_beget.Providers.Abuse.Defs.{
  is_banned_abuse, is_abuse, quoted, says, says_abuse, reports_abuse,
}
use ddns_updater_beget.Providers.Abuse.Quiet.{
  is_abuse-first_compared, is_abuse-extracted, is_abuse-second_compared, is_abuse-opendns,
  is_abuse-by_prefix, is_abuse-parsed, is_abuse-decoded,
}

-- A text is one of two different ones at most.
beq_apart : (s t u : Bytes) → beq t u ≡ false → beq s t ≡ true → beq s u ≡ false
beq_apart s t u h e = rw (beq→eq s t e) h

-- The empty text contains no other.
beq-contains : (s t : Bytes) → beq t [] ≡ false → beq s [] ≡ true → contains s t ≡ false
unfolding beq contains has_prefix
beq-contains [] [] h e = cc
beq-contains [] (d ∷ t) h e = refl
beq-contains (c ∷ s) t h e = cc

quiet_if_empty :
    (s : Bytes)
    → beq s [] ≡ true
    → (says s "702" "minimum 600 seconds between requests" || says s "709" "invalid hostname")
      ≡ false
unfolding says beq
quiet_if_empty s e =
    rw
      (
        beq-contains s (quoted "error code=" "702") refl e,
        beq-contains s (codes "minimum 600 seconds between requests") refl e,
        beq-contains s (quoted "error code=" "709") refl e,
        beq-contains s (codes "invalid hostname") refl e,
      )
      refl

-- The cases of Zoneedit, whose outcomes are an abuse at the fourth and the fifth only.
is_abuse-switch :
    (c found empty short bad login : Bool) (r r' r'' r3 : Outcome) (t t' : Bytes)
    → is_abuse r ≡ false
    → is_abuse r' ≡ false
    → is_abuse r'' ≡ false
    → is_abuse r3 ≡ false
    → (empty ≡ true → (short || bad) ≡ false)
    → is_abuse (
        switch
          ((not c, r)
            ∷ (found, r')
            ∷ (empty, fails received_no_result)
            ∷ (short, fails_with banned_abuse t)
            ∷ (bad, fails_with banned_abuse t')
            ∷ (login, r'')
            ∷ [])
          r3)
      ≡ (c && ((short || bad) && not found))
unfolding is_abuse is_banned_abuse switch fails fails_with
is_abuse-switch c found empty short bad login r r' r'' r3 t t' h h' h'' h3 q = ground arith

module _ (show : Addr → Bytes) (ip : Addr) (code : ℕ) (user s : Bytes) where
  zoneedit_is_abuse :
      (ips : Option (List Addr))
      → is_abuse (
          switch
            ((not (code == 200), fails_by_status code (to_single_line s))
              ∷ (
                contains (to_lower s) (quoted "success_code=" "200"),
                Zoneedit.second_compared show ip ips,
              )
              ∷ (beq (to_lower s) [], fails received_no_result)
              ∷ (
                says (to_lower s) "702" "minimum 600 seconds between requests",
                fails_with banned_abuse (codes "zoneedit requires 10 minutes between each request"),
              )
              ∷ (
                says (to_lower s) "709" "invalid hostname",
                fails_with banned_abuse (codes "invalid request sent"),
              )
              ∷ (
                says (to_lower s) "708" "failed login",
                fails_with auth (codes "for user " ++ user),
              )
              ∷ [])
            (fails_with unknown_response (to_single_line (to_lower s))))
        ≡ (code == 200
            && ((says (to_lower s) "702" "minimum 600 seconds between requests"
                  || says (to_lower s) "709" "invalid hostname")
                && not (contains (to_lower s) (quoted "success_code=" "200"))))
  unfolding is_abuse is_banned_abuse fails_by_status fails_with
  zoneedit_is_abuse ips =
      is_abuse-switch (code == 200) _ _ _ _ _ _ _ _ _ _ _ refl
        (is_abuse-second_compared show ip ips) refl refl (quiet_if_empty (to_lower s))

module _ (show : Addr → Bytes) (ip : Addr) (s : Bytes) where
  selfhostde_at_ok :
      is_abuse (Selfhostde.interpret show ip 200 (inl s))
      ≡ (has_prefix s abuse && not (has_prefix s notfqdn))
  unfolding Selfhostde.interpret is_abuse is_banned_abuse switch read_all fails fails_with
  selfhostde_at_ok = ground arith

  selfhostde_otherwise :
      (code : ℕ)
      → (code == 200) ≡ false
      → is_abuse (Selfhostde.interpret show ip code (inl s)) ≡ false
  unfolding Selfhostde.interpret is_abuse is_banned_abuse switch read_all fails fails_with
      fails_by_status
  selfhostde_otherwise code h = rw h (ground arith)

  selfhostde_is_abuse :
      (code : ℕ)
      → is_abuse (Selfhostde.interpret show ip code (inl s))
        ≡ (code == 200 && (has_prefix s abuse && not (has_prefix s notfqdn)))
  selfhostde_is_abuse code = elim (Bool-cases (code == 200)) [
    | inl h ↦ rw ((==_iff code 200).0 h) selfhostde_at_ok
    | inr h ↦ rw (h, selfhostde_otherwise code h) refl
  ]

pub interpret_any-is_abuse :
    (o : Outside) (p : AnyProvider) (ip : Addr) (code : ℕ) (body : Bytes ⊎ Error)
    → is_abuse (interpret_any o p ip code body) ≡ reports_abuse p (answered code body)
unfolding interpret_any says is_abuse is_banned_abuse reports_abuse says_abuse switch read_all fails
    fails_with fails_by_status Allinkl.interpret Changeip.interpret Dd24.interpret Ddnss.interpret
    Desec.interpret Dnsomatic.interpret Duckdns.interpret Dyn.interpret Dynu.interpret
    Dynv6.interpret Easydns.interpret Freedns.interpret Goip.interpret He.interpret
    Infomaniak.interpret Inwx.interpret Namecheap.interpret Noip.interpret Nowdns.interpret
    Opendns.interpret Selfhostde.interpret Spdyn.interpret Strato.interpret Variomedia.interpret
    Zoneedit.interpret
interpret_any-is_abuse o (allinkl p) ip code (inl s) = ground (
  arith,
  is_abuse-extracted o.show ip o.parse s,
  beq_apart s abuse [] refl,
  beq_apart s abuse nineoneone refl,
)
interpret_any-is_abuse o (allinkl p) ip code (inr e) = ground arith
interpret_any-is_abuse o (changeip p) ip code (inl s) = ground (arith)
interpret_any-is_abuse o (changeip p) ip code (inr e) = ground arith
interpret_any-is_abuse o (dd24 p) ip code (inl s) = ground (arith)
interpret_any-is_abuse o (dd24 p) ip code (inr e) = ground arith
interpret_any-is_abuse o (ddnss p) ip code (inl s) = ground (arith)
interpret_any-is_abuse o (ddnss p) ip code (inr e) = ground arith
interpret_any-is_abuse o (desec p) ip code (inl s) = ground (arith)
interpret_any-is_abuse o (desec p) ip code (inr e) = ground arith
interpret_any-is_abuse o (dnsomatic p) ip code (inl s) = ground (
  arith,
  is_abuse-extracted o.show ip o.parse s,
  beq_apart s abuse nohost refl,
  beq_apart s abuse notfqdn refl,
  beq_apart s abuse badauth refl,
  beq_apart s abuse badagent refl,
)
interpret_any-is_abuse o (dnsomatic p) ip code (inr e) = ground arith
interpret_any-is_abuse o (duckdns p) ip code (inl s) = ground (
  arith,
  is_abuse-first_compared o.show ip (extract_ipv6 o.parse s),
  is_abuse-first_compared o.show ip (extract_ipv4 o.parse s),
)
interpret_any-is_abuse o (duckdns p) ip code (inr e) = ground arith
interpret_any-is_abuse o (dyn p) ip code (inl s) = ground (arith)
interpret_any-is_abuse o (dyn p) ip code (inr e) = ground arith
interpret_any-is_abuse o (dynu p) ip code (inl s) = ground (arith)
interpret_any-is_abuse o (dynu p) ip code (inr e) = ground arith
interpret_any-is_abuse o (dynv6 p) ip code (inl s) = ground (arith)
interpret_any-is_abuse o (dynv6 p) ip code (inr e) = ground arith
interpret_any-is_abuse o (easydns p) ip code (inl s) =
    ground
      (arith, beq-contains s (codes "ILLEGAL_INPUT") refl, beq-contains s (codes "TOO_SOON") refl)
interpret_any-is_abuse o (easydns p) ip code (inr e) = ground arith
interpret_any-is_abuse o (freedns p) ip code (inl s) = ground (arith)
interpret_any-is_abuse o (freedns p) ip code (inr e) = ground arith
interpret_any-is_abuse o (goip p) ip code (inl s) = ground (arith)
interpret_any-is_abuse o (goip p) ip code (inr e) = ground arith
interpret_any-is_abuse o (he p) ip code (inl s) =
    ground (arith, is_abuse-extracted o.show ip o.parse s)
interpret_any-is_abuse o (he p) ip code (inr e) = ground arith
interpret_any-is_abuse o (infomaniak p) ip code (inl s) =
    ground (arith, is_abuse-by_prefix o.show ip o.parse s)
interpret_any-is_abuse o (infomaniak p) ip code (inr e) = ground arith
interpret_any-is_abuse o (inwx p) ip code (inl s) = ground (arith)
interpret_any-is_abuse o (inwx p) ip code (inr e) = ground arith
interpret_any-is_abuse o (namecheap p) ip code (inl s) =
    ground (arith, is_abuse-decoded o.show ip o.parse (o.decode (inl s)))
interpret_any-is_abuse o (namecheap p) ip code (inr e) =
    ground (arith, is_abuse-decoded o.show ip o.parse (o.decode (inr e)))
interpret_any-is_abuse o (noip p) ip code (inl s) = ground (
  arith,
  is_abuse-extracted o.show ip o.parse s,
  beq_apart s abuse [] refl,
  beq_apart s abuse nineoneone refl,
)
interpret_any-is_abuse o (noip p) ip code (inr e) = ground arith
interpret_any-is_abuse o (nowdns p) ip code (inl s) = ground (
  arith,
  is_abuse-parsed o.show ip (fails ip_received_malformed) (o.parse (o.show ip)) refl,
  is_abuse-parsed o.show ip (fails_with received_no_result _) (o.parse (o.show ip)) refl,
)
interpret_any-is_abuse o (nowdns p) ip code (inr e) = ground arith
interpret_any-is_abuse o (opendns p) ip code (inl s) =
    ground (arith, is_abuse-opendns o.show ip (o.parse (trim_prefix s (codes "good "))))
interpret_any-is_abuse o (opendns p) ip code (inr e) = ground arith
interpret_any-is_abuse o (selfhostde p) ip code (inl s) = selfhostde_is_abuse o.show ip s code
interpret_any-is_abuse o (selfhostde p) ip code (inr e) = ground arith
interpret_any-is_abuse o (spdyn p) ip code (inl s) = ground (arith)
interpret_any-is_abuse o (spdyn p) ip code (inr e) = ground arith
interpret_any-is_abuse o (strato p) ip code (inl s) = ground (arith)
interpret_any-is_abuse o (strato p) ip code (inr e) = ground arith
interpret_any-is_abuse o (variomedia p) ip code (inl s) = ground (arith)
interpret_any-is_abuse o (variomedia p) ip code (inr e) = ground arith
interpret_any-is_abuse o (zoneedit p) ip code (inl s) =
    zoneedit_is_abuse o.show ip code p.username s (extract_ipv4 o.parse (to_lower s))
interpret_any-is_abuse o (zoneedit p) ip code (inr e) = ground arith
