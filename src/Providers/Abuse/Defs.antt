-- ===== src/Providers/Abuse/Defs.antt =====
-- Which replies report an abuse, and which outcomes are errors of an abuse.
use Prim.Native.String.{String}
use ddns_updater_beget.Common.{
  Bool, true, false, ◌&&◌, ◌||◌, inl, inr, [], ◌∷◌, ◌++◌, Bytes, codes, not, ◌==◌, beq, has_prefix,
  contains,
}
use ddns_updater_beget.IpVersion.{to_lower}
use ddns_updater_beget.Providers.Errors.{Kind, bare, detailed, caused, passed_on, banned_abuse}
use ddns_updater_beget.Providers.Client.{
  Exchange, Outcome, answered, create_failed, do_failed, abuse, notfqdn, badauth,
}
use ddns_updater_beget.Providers.Any.{
  AnyProvider, allinkl, dnsomatic, dynu, easydns, noip, selfhostde, spdyn, strato, zoneedit,
}

unfoldable pub is_banned_abuse : Kind → Bool
is_banned_abuse banned_abuse = true
is_banned_abuse _ = false

-- errors.Is(err, ErrBannedAbuse), for an error of the providers' own
unfoldable pub is_abuse : Outcome → Bool
unfolding is_banned_abuse
is_abuse (inl a) = false
is_abuse (inr (bare k)) = is_banned_abuse k
is_abuse (inr (detailed k t)) = is_banned_abuse k
is_abuse (inr (caused t e)) = false
is_abuse (inr (passed_on e)) = false

abbrev pub quoted : String → String → Bytes
quoted key value = codes key ++ 34 ∷ (codes value ++ 34 ∷ [])

unfoldable pub says : Bytes → String → String → Bool
unfolding contains
says s code text = contains s (quoted "error code=" code) || contains s (codes text)

-- The bodies by which a provider reports an abuse; most have none.
unfoldable pub says_abuse : AnyProvider → Bytes → Bool
unfolding beq has_prefix contains to_lower says
says_abuse (allinkl p) s = beq s abuse
says_abuse (dnsomatic p) s = beq s abuse
says_abuse (dynu p) s = contains s abuse && not (contains s badauth) && not (contains s notfqdn)
says_abuse (easydns p) s =
    (contains s (codes "ILLEGAL_INPUT") || contains s (codes "TOO_SOON"))
    && not (contains s (codes "NO_SERVICE"))
    && not (contains s (codes "NO_ACCESS"))
says_abuse (noip p) s = beq s abuse
says_abuse (selfhostde p) s = has_prefix s abuse && not (has_prefix s notfqdn)
says_abuse (spdyn p) s = beq s abuse || beq s (codes "numhost")
says_abuse (strato p) s = has_prefix s abuse && not (has_prefix s notfqdn)
says_abuse (zoneedit p) s =
    (says (to_lower s) "702" "minimum 600 seconds between requests"
      || says (to_lower s) "709" "invalid hostname")
    && not (contains (to_lower s) (quoted "success_code=" "200"))
says_abuse _ s = false

-- A reply of status 200 with such a body.
unfoldable pub reports_abuse : AnyProvider → Exchange → Bool
unfolding says_abuse
reports_abuse p (create_failed e) = false
reports_abuse p (do_failed e) = false
reports_abuse p (answered code (inl s)) = code == 200 && says_abuse p s
reports_abuse p (answered code (inr e)) = false
