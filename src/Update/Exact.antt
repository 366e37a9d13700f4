-- ===== src/Update/Exact.antt =====
-- When exactly shouldUpdateRecord asks for an update.
use ddns_updater_beget.Common.{
  ◌≡◌, ◌≢◌, ◌↔◌, refl, ap, ◌∙◌, Bool, true, false, not, ◌&&◌, Option, none, some, Error, arith,
  if◌then◌else◌,
}
use ddns_updater_beget.Net.{Addr, Prefix, is_valid, is6, same_addr, addr_from_slice}
use ddns_updater_beget.Net.Laws.{same_addr_iff}
use ddns_updater_beget.IpVersion.{IpVersion, ip4or6, ip4, ip6}
use ddns_updater_beget.Clock.{Duration}
use ddns_updater_beget.Records.{Record, Provider, get_current_ip}
use ddns_updater_beget.Update.Suffix.{ipv6_with_suffix}
use ddns_updater_beget.Update.Lookup.{lookup_ips_resilient}
use ddns_updater_beget.Update.Decision.{
  PublicIps, Inputs, get_ip_matching_version, is_within_cooldown, is_within_ban_period, update_ip,
  should_update_record, decide_for, should_update_record_no_lookup,
  should_update_record_with_lookup, decide_after_lookup, differs_from_lookup,
}

-- The public address of the record's version.
abbrev pub public_of : PublicIps → Provider → Addr
public_of ips p = get_ip_matching_version ips.ip ips.ipv4 ips.ipv6 p.ip_version

valid_if_some : (a b : Addr) → some a ≡ some b → is_valid a ≡ true → is_valid b ≡ true
valid_if_some a b e h = let same : a ≡ b = cc in rw (← same) h

is_valid-ipv6_with_suffix :
    (a b : Addr) (p : Prefix)
    → is_valid a ≡ true
    → ipv6_with_suffix a p ≡ some b
    → is_valid b ≡ true
unfolding ipv6_with_suffix addr_from_slice is_valid
is_valid-ipv6_with_suffix a b p h e = ground arith

is_valid-guarded :
    (six : Bool) (x a : Addr) (p : Provider)
    → is_valid x ≡ true
    → (if six then ipv6_with_suffix x p.ipv6_suffix else some x) ≡ some a
    → is_valid a ≡ true
is_valid-guarded true x a p h e = is_valid-ipv6_with_suffix x a p.ipv6_suffix h e
is_valid-guarded false x a p h e = valid_if_some x a e h

is_valid-update_ip :
    (ips : PublicIps) (p : Provider) (a : Addr)
    → is_valid (public_of ips p) ≡ true
    → update_ip ips p ≡ some a
    → is_valid a ≡ true
unfolding update_ip
is_valid-update_ip ips p a h e = is_valid-guarded (is6 (public_of ips p)) (public_of ips p) a p h e

-- Neither the cooldown nor the ban period runs, and the public address was found.
abbrev pub IsDue : Duration → Inputs → Record → PublicIps → Type 0
IsDue cooldown i r ips =
    (is_within_cooldown i.now cooldown r ≡ false)
    × (is_within_ban_period i.now r ≡ false)
    × (is_valid (public_of ips r.provider) ≡ true)

differs_iff :
    (a b : Addr) → is_valid a ≡ true → ((is_valid a && not (same_addr a b)) ≡ true) ↔ (a ≢ b)
differs_iff a b h =
    (λ e same. cc ((same_addr_iff a b).1 same, e), λ ne. by_same (same_addr a b) refl ne)
  where
    by_same : (s : Bool) → same_addr a b ≡ s → a ≢ b → (is_valid a && not (same_addr a b)) ≡ true
    by_same true e ne = absurd (ne ((same_addr_iff a b).0 e))
    by_same false e ne = rw (h, e)

decided :
    (cooldown : Duration) (i : Inputs) (r : Record) (ips : PublicIps)
    → IsDue cooldown i r ips
    → should_update_record cooldown i r ips ≡ decide_for i r (update_ip ips r.provider)
unfolding should_update_record
decided cooldown i r ips (c, b, v) = rw (c, b, v)

-- A proxied record that is due is to be updated exactly if the address that it should have differs
-- from that of its last event.
pub should_update_record_proxied :
    (cooldown : Duration) (i : Inputs) (r : Record) (ips : PublicIps) (a : Addr)
    → IsDue cooldown i r ips
    → update_ip ips r.provider ≡ some a
    → r.provider.proxied ≡ true
    → (b : Bool) × (should_update_record cooldown i r ips ≡ some b)
      × ((b ≡ true) ↔ (a ≢ get_current_ip r.history))
should_update_record_proxied cooldown i r ips a due u p =
    let v = is_valid-update_ip ips r.provider a due.2 u in
    (
      is_valid a && not (same_addr a (get_current_ip r.history)),
      decided cooldown i r ips due
          ∙ rw u (unfold decide_for should_update_record_no_lookup in rw p),
      differs_iff a (get_current_ip r.history) v,
    )

-- The resolved address that an address is compared with, of (IPv4, IPv6): that of the record's
-- version, or of its own family if the record has either.
abbrev pub resolved_for : IpVersion → Addr → Addr × Addr → Addr
resolved_for ip4or6 a (ipv4, ipv6) = if is6 a then ipv6 else ipv4
resolved_for ip4 a (ipv4, ipv6) = ipv4
resolved_for ip6 a (ipv4, ipv6) = ipv6

differs_resolved :
    (v : IpVersion) (a ipv4 ipv6 : Addr)
    → differs_from_lookup v a ipv4 ipv6
      ≡ (is_valid a && not (same_addr a (resolved_for v a (ipv4, ipv6))))
unfolding differs_from_lookup get_ip_matching_version
differs_resolved ip4or6 a ipv4 ipv6 = refl
differs_resolved ip4 a ipv4 ipv6 = refl
differs_resolved ip6 a ipv4 ipv6 = refl

-- A record that is not proxied and is due is to be updated exactly if the address that it should have
-- differs from the resolved one, if the resolution ends with these addresses: also with those of a
-- resolution that failed, unless the context is done.
pub should_update_record_resolved :
    (cooldown : Duration) (i : Inputs) (r : Record) (ips : PublicIps) (a ipv4 ipv6 : Addr)
    (failure : Option Error)
    → IsDue cooldown i r ips
    → update_ip ips r.provider ≡ some a
    → r.provider.proxied ≡ false
    → lookup_ips_resilient i.answer 5 ≡ some ((ipv4, ipv6), failure)
    → i.cancelled ≡ false
    → (b : Bool) × (should_update_record cooldown i r ips ≡ some b)
      × ((b ≡ true) ↔ (a ≢ resolved_for r.provider.ip_version a (ipv4, ipv6)))
should_update_record_resolved cooldown i r ips a ipv4 ipv6 failure due u p l live =
    let v = is_valid-update_ip ips r.provider a due.2 u in
    let version = r.provider.ip_version in
    (
      is_valid a && not (same_addr a (resolved_for version a (ipv4, ipv6))),
      decided cooldown i r ips due
          ∙ rw u (
              unfold decide_for should_update_record_with_lookup in
              rw (p, l) (after_lookup failure)),
      differs_iff a (resolved_for version a (ipv4, ipv6)) v,
    )
  where
    after_lookup :
        (f : Option Error)
        → decide_after_lookup i r.provider.ip_version a (some ((ipv4, ipv6), f))
          ≡ some
              (is_valid a && not (same_addr a (resolved_for r.provider.ip_version a (ipv4, ipv6))))
    after_lookup none =
        unfold decide_after_lookup in ap some (differs_resolved r.provider.ip_version a ipv4 ipv6)
    after_lookup (some e) =
        unfold decide_after_lookup in
        rw live (ap some (differs_resolved r.provider.ip_version a ipv4 ipv6))
