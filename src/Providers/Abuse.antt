-- ===== src/Providers/Abuse.antt =====
-- When a modelled provider reports an abuse, which bans the record for an hour.
mod Defs
mod Quiet
mod Cases
unfoldable pub use Defs.{is_banned_abuse, is_abuse, says_abuse, reports_abuse}
use Prim.Native.String.{String}
use ddns_updater_beget.Common.{
  ℕ, Bool, true, false, ◌&&◌, ◌||◌, ◌⊎◌, inl, inr, List, [], ◌∷◌, ◌++◌, Option, none, some, Bytes,
  codes, Error, ◌≡◌, refl, sym, trim_prefix, arith, if_either, not, ◌==◌, ==_iff, beq, beq→eq,
  beq_refl, has_prefix, contains, Bool-cases, if◌then◌else◌,
}
use ddns_updater_beget.Net.{Addr, same_addr}
use ddns_updater_beget.Extract.{extract_ipv4, extract_ipv6}
use ddns_updater_beget.IpVersion.{to_lower}
use ddns_updater_beget.PublicIp.Http.{to_single_line}
use ddns_updater_beget.Providers.Errors.{
  Kind, Fault, bare, detailed, caused, passed_on, banned_abuse, ip_received_malformed,
  received_no_result, auth, unknown_response,
}
use ddns_updater_beget.Providers.Client.{
  Exchange, Outcome, switch, fails, fails_with, fails_by_status, read_all, answered, create_failed,
  do_failed, abuse, nohost, badagent, compared, mismatch, first_compared, extracted, notfqdn,
  badauth, nineoneone,
}
use ddns_updater_beget.Providers.Allinkl
use ddns_updater_beget.Providers.Changeip
use ddns_updater_beget.Providers.Dd24
use ddns_updater_beget.Providers.Ddnss
use ddns_updater_beget.Providers.Desec
use ddns_updater_beget.Providers.Dnsomatic
use ddns_updater_beget.Providers.Duckdns
use ddns_updater_beget.Providers.Dyn
use ddns_updater_beget.Providers.Dynu
use ddns_updater_beget.Providers.Dynv6
use ddns_updater_beget.Providers.Easydns
use ddns_updater_beget.Providers.Freedns
use ddns_updater_beget.Providers.Goip
use ddns_updater_beget.Providers.He
use ddns_updater_beget.Providers.Infomaniak
use ddns_updater_beget.Providers.Inwx
use ddns_updater_beget.Providers.Namecheap
use ddns_updater_beget.Providers.Noip
use ddns_updater_beget.Providers.Nowdns
use ddns_updater_beget.Providers.Opendns
use ddns_updater_beget.Providers.Selfhostde
use ddns_updater_beget.Providers.Spdyn
use ddns_updater_beget.Providers.Strato
use ddns_updater_beget.Providers.Variomedia
use ddns_updater_beget.Providers.Zoneedit
use ddns_updater_beget.Providers.Any.{
  AnyProvider, Outside, request_any, interpret_any, update_any, allinkl, changeip, dd24, ddnss,
  desec, dnsomatic, duckdns, dyn, dynu, dynv6, easydns, freedns, goip, he, infomaniak, inwx,
  namecheap, noip, nowdns, opendns, selfhostde, spdyn, strato, variomedia, zoneedit,
}
use ddns_updater_beget.Providers.Replies.{is_own, is_answered, update_any-cases}
use ddns_updater_beget.Providers.Abuse.Cases.{interpret_any-is_abuse}

IsUnanswered-is_abuse : (f : Fault) → is_own f ≡ false → is_abuse (inr f) ≡ false
unfolding is_abuse is_own
IsUnanswered-is_abuse (bare k) h = cc
IsUnanswered-is_abuse (detailed k t) h = cc
IsUnanswered-is_abuse (caused t e) h = refl
IsUnanswered-is_abuse (passed_on e) h = refl

reports_abuse-unanswered :
    (p : AnyProvider) (x : Exchange) → is_answered x ≡ false → reports_abuse p x ≡ false
unfolding reports_abuse is_answered
reports_abuse-unanswered p (create_failed e) h = refl
reports_abuse-unanswered p (do_failed e) h = refl
reports_abuse-unanswered p (answered code body) h = cc

-- Whichever of the providers is updated, its error is that of an abuse exactly if the reply is of
-- status 200 and has one of the bodies by which that provider reports an abuse.
pub update_any-is_abuse :
    (o : Outside) (p : AnyProvider) (ip : Addr)
    → is_abuse (update_any o p ip) ≡ reports_abuse p (o.client (request_any o.show p ip))
update_any-is_abuse o p ip = elim (update_any-cases o p ip) [
  | inl (f, e, own, lost) ↦
      rw (e, IsUnanswered-is_abuse f own, reports_abuse-unanswered p _ lost) refl
  | inr (code, body, asked, e) ↦ rw (e, asked) (interpret_any-is_abuse o p ip code body)
]
