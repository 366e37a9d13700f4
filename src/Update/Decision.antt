-- ===== src/Update/Decision.antt =====
-- The decisions of internal/update/service.go: which public addresses are wanted, and which records
-- are to be updated.
use ddns_updater_beget.Common.{
  ℕ, Bool, true, false, not, ◌&&◌, List, [], ◌∷◌, Option, none, some, Error, if◌then◌else◌,
}
use ddns_updater_beget.Net.{Addr, is_valid, is6, same_addr}
use ddns_updater_beget.IpVersion.{IpVersion, ip4or6, ip4, ip6}
use ddns_updater_beget.Clock.{Time, Duration, pos, hour, sub, lt_duration}
use ddns_updater_beget.Records.{Record, Provider, get_current_ip, get_success_time}
use ddns_updater_beget.Update.Suffix.{ipv6_with_suffix}
use ddns_updater_beget.Update.Lookup.{Answer, lookup_ips_resilient}

-- The versions that some record asks for.
pub record Wanted : Type 0 where
  pub any : Bool
  pub v4 : Bool
  pub v6 : Bool

unfoldable pub want : IpVersion → Wanted → Wanted
want ip4or6 w = record w { any = true }
want ip4 w = record w { v4 = true }
want ip6 w = record w { v6 = true }

-- The loop of doIPVersion, with its early return.
unfoldable pub wanted_from : List Record → Wanted → Wanted
unfolding want
wanted_from [] w = w
wanted_from (r ∷ rs) w =
    let w' = want r.provider.ip_version w in
    let rest = wanted_from rs w' in
    if w'.any && (w'.v4 && w'.v6) then record { any = true; v4 = true; v6 = true } else rest

-- doIPVersion
unfoldable pub do_ip_version : List Record → Wanted
unfolding wanted_from
do_ip_version rs = wanted_from rs (record { any = false; v4 = false; v6 = false })

-- The public addresses of a cycle.
pub record PublicIps : Type 0 where
  pub ip : Addr
  pub ipv4 : Addr
  pub ipv6 : Addr

unfoldable pub get_ip_matching_version : Addr → Addr → Addr → IpVersion → Addr
get_ip_matching_version ip ipv4 ipv6 ip4or6 = ip
get_ip_matching_version ip ipv4 ipv6 ip4 = ipv4
get_ip_matching_version ip ipv4 ipv6 ip6 = ipv6

-- What the code asks the outside for while it decides on one record.
pub record Inputs : Type 0 where
  -- timeNow
  pub now : Time
  -- the resolver, try by try
  pub answer : ℕ → Answer
  -- whether the context is done after a failed resolution
  pub cancelled : Bool

abbrev pub lookup_tries : ℕ
lookup_tries = 5

unfoldable pub should_update_record_no_lookup : Addr → Addr → Bool
should_update_record_no_lookup last_ip public_ip =
    is_valid public_ip && not (same_addr public_ip last_ip)

-- What follows the resolution in shouldUpdateRecordWithLookup.
unfoldable pub differs_from_lookup : IpVersion → Addr → Addr → Addr → Bool
unfolding get_ip_matching_version
differs_from_lookup version public_ip record_ipv4 record_ipv6 =
    let record_ip = if is6 public_ip then record_ipv6 else record_ipv4 in
    let record_ip' = get_ip_matching_version record_ip record_ipv4 record_ipv6 version in
    is_valid public_ip && not (same_addr public_ip record_ip')

unfoldable pub decide_after_lookup :
    Inputs → IpVersion → Addr → Option ((Addr × Addr) × Option Error) → Option Bool
unfolding differs_from_lookup
decide_after_lookup i version public_ip none = none
decide_after_lookup i version public_ip (some ((ipv4, ipv6), none)) =
    some (differs_from_lookup version public_ip ipv4 ipv6)
decide_after_lookup i version public_ip (some ((ipv4, ipv6), some e)) =
    if i.cancelled then some false else some (differs_from_lookup version public_ip ipv4 ipv6)

unfoldable pub should_update_record_with_lookup : Inputs → IpVersion → Addr → Option Bool
unfolding decide_after_lookup lookup_ips_resilient
should_update_record_with_lookup i version public_ip =
    decide_after_lookup i version public_ip (lookup_ips_resilient i.answer lookup_tries)

unfoldable pub is_within_cooldown : Time → Duration → Record → Bool
unfolding get_success_time sub lt_duration
is_within_cooldown now cooldown r = lt_duration (sub now (get_success_time r.history)) cooldown

within_ban : Time → Option Time → Bool
within_ban now none = false
within_ban now (some start) = lt_duration (sub now start) (pos hour)

-- The ban period is one hour.
unfoldable pub is_within_ban_period : Time → Record → Bool
unfolding within_ban sub lt_duration
is_within_ban_period now r = within_ban now r.last_ban

-- The address that a record should have: the public one of its version, with its suffix if that is
-- IPv6. `none` is a panic.
unfoldable pub update_ip : PublicIps → Provider → Option Addr
unfolding get_ip_matching_version ipv6_with_suffix
update_ip ips p =
    let public_ip = get_ip_matching_version ips.ip ips.ipv4 ips.ipv6 p.ip_version in
    if is6 public_ip then ipv6_with_suffix public_ip p.ipv6_suffix else some public_ip

-- The end of shouldUpdateRecord, with the address to set.
unfoldable pub decide_for : Inputs → Record → Option Addr → Option Bool
unfolding should_update_record_no_lookup should_update_record_with_lookup get_current_ip
decide_for i r none = none
decide_for i r (some public_ip) =
    if r.provider.proxied
    then some (should_update_record_no_lookup (get_current_ip r.history) public_ip)
    else should_update_record_with_lookup i r.provider.ip_version public_ip

-- shouldUpdateRecord; `none` is a panic.
unfoldable pub should_update_record : Duration → Inputs → Record → PublicIps → Option Bool
unfolding is_within_cooldown is_within_ban_period update_ip decide_for get_ip_matching_version
should_update_record cooldown i r ips =
    let public_ip = get_ip_matching_version ips.ip ips.ipv4 ips.ipv6 r.provider.ip_version in
    if is_within_cooldown i.now cooldown r
    then some false
    else if is_within_ban_period i.now r
    then some false
    else if not (is_valid public_ip)
    then some false
    else decide_for i r (update_ip ips r.provider)
