-- ===== src/Update/Cycle/Total.antt =====
-- The decision on a record does not panic if the settings are IPv6 suffixes and the outside answers as documented.
use ddns_updater_beget.Common.{
  ℕ, ◌≢◌, refl, Bool, false, not, Option, none, some, Error, inl, inr, Bool-cases, if◌then◌else◌,
  arith, if_either,
}
use ddns_updater_beget.Net.{
  Addr, invalid, v4, v6, Prefix, no_prefix, prefix, is_valid, is6, is_valid_prefix, IsAddr,
}
use ddns_updater_beget.IpVersion.{IpVersion, ip4or6, ip4, ip6}
use ddns_updater_beget.Clock.{Duration}
use ddns_updater_beget.Records.{Record, Provider}
use ddns_updater_beget.Update.Suffix.{IsSuffix, ipv6_with_suffix, ipv6_with_suffix_merges}
use ddns_updater_beget.Update.Lookup.{IsAnswer, lookup_ips_resilient, lookup_ips_resilient_total}
use ddns_updater_beget.Update.Decision.{
  PublicIps, Inputs, should_update_record, update_ip, get_ip_matching_version, is_within_cooldown,
  is_within_ban_period, decide_for, decide_after_lookup, should_update_record_with_lookup,
}

-- With an IPv6 suffix or none, an address of 4 or 16 bytes gets its suffix.
ipv6_with_suffix_total :
    (a : Addr) (p : Prefix) → IsAddr a → IsSuffix p → ipv6_with_suffix a p ≢ none
ipv6_with_suffix_total a no_prefix ha hp =
    unfold ipv6_with_suffix is_valid is6 is_valid_prefix in ground arith
ipv6_with_suffix_total invalid (prefix b bits) ha hp =
    unfold ipv6_with_suffix is_valid is6 is_valid_prefix in ground arith
ipv6_with_suffix_total (v4 bs) (prefix b bits) ha hp =
    unfold ipv6_with_suffix is_valid is6 is_valid_prefix in ground arith
ipv6_with_suffix_total (v6 bs zone) (prefix (v6 cs zone') bits) ha (six, hb, hn) =
    λ e. cc (ipv6_with_suffix_merges bs zone cs zone' bits ha.0 hb.0 hn)
ipv6_with_suffix_total (v6 bs zone) (prefix invalid bits) ha (six, hb, hn) = unfold is6 in cc
ipv6_with_suffix_total (v6 bs zone) (prefix (v4 cs) bits) ha (six, hb, hn) = unfold is6 in cc

-- The public addresses have 4 or 16 bytes.
abbrev pub AreAddrs : PublicIps → Type 0
AreAddrs ips = IsAddr ips.ip × IsAddr ips.ipv4 × IsAddr ips.ipv6

pub update_ip_total :
    (ips : PublicIps) (p : Provider)
    → AreAddrs ips
    → IsSuffix p.ipv6_suffix
    → update_ip ips p ≢ none
unfolding update_ip
update_ip_total ips p ha hs = with_version p.ip_version
  where
    guarded :
        (a : Addr) → IsAddr a → (if is6 a then ipv6_with_suffix a p.ipv6_suffix else some a) ≢ none
    guarded a h = let total = ipv6_with_suffix_total a p.ipv6_suffix h hs in ground arith

    with_version :
        (v : IpVersion)
        → (if is6 (get_ip_matching_version ips.ip ips.ipv4 ips.ipv6 v)
            then ipv6_with_suffix (get_ip_matching_version ips.ip ips.ipv4 ips.ipv6 v) p.ipv6_suffix
            else some (get_ip_matching_version ips.ip ips.ipv4 ips.ipv6 v))
          ≢ none
    with_version ip4or6 = unfold get_ip_matching_version in guarded ips.ip ha.0
    with_version ip4 = unfold get_ip_matching_version in guarded ips.ipv4 ha.1
    with_version ip6 = unfold get_ip_matching_version in guarded ips.ipv6 ha.2

decide_after_lookup_total :
    (i : Inputs) (v : IpVersion) (a : Addr) (o : Option ((Addr × Addr) × Option Error))
    → o ≢ none
    → decide_after_lookup i v a o ≢ none
unfolding decide_after_lookup
decide_after_lookup_total i v a none h = absurd (h refl)
decide_after_lookup_total i v a (some (ips, none)) h = λ e. cc
decide_after_lookup_total i v a (some (ips, some e)) h = ground arith

decide_for_total :
    (i : Inputs) (r : Record) (o : Option Addr)
    → ((n : ℕ) → IsAnswer (i.answer n))
    → o ≢ none
    → decide_for i r o ≢ none
unfolding decide_for should_update_record_with_lookup
decide_for_total i r none ha h = absurd (h refl)
decide_for_total i r (some a) ha h =
    let looked_up =
      decide_after_lookup_total i r.provider.ip_version a (lookup_ips_resilient i.answer 5)
        (lookup_ips_resilient_total i.answer 5 ha) in
    elim (Bool-cases r.provider.proxied) [ inl e ↦ rw e (λ k. cc) | inr e ↦ rw e looked_up ]

-- The decision on a record is taken without a panic.
pub should_update_record_total :
    (cooldown : Duration) (i : Inputs) (r : Record) (ips : PublicIps)
    → ((n : ℕ) → IsAnswer (i.answer n))
    → AreAddrs ips
    → IsSuffix r.provider.ipv6_suffix
    → should_update_record cooldown i r ips ≢ none
unfolding should_update_record
should_update_record_total cooldown i r ips ha hi hs =
    let decided =
      decide_for_total i r (update_ip ips r.provider) ha (update_ip_total ips r.provider hi hs) in
    let refused : ◌≢◌ {A = Option Bool} (some false) none = λ e. cc in
    let Runs = λ (o : Option Bool). o ≢ none in
    let public_ip = get_ip_matching_version ips.ip ips.ipv4 ips.ipv6 r.provider.ip_version in
    if_either Runs (is_within_cooldown i.now cooldown r) refused (
      if_either Runs (is_within_ban_period i.now r) refused
        (if_either Runs (not (is_valid public_ip)) refused decided))

-- What the totality of a cycle asks of a record.
abbrev pub HasSuffix : Record → Type 0
HasSuffix r = IsSuffix r.provider.ipv6_suffix
