-- ===== src/Tests/Decisions.antt =====
-- The decision on a record, the tries at an address and what an update stores, at concrete inputs.
use ddns_updater_beget.Common.{
  ℕ, zero, suc, ◌<◌, ◌≡◌, ◌≢◌, ◌↔◌, refl, Bool, true, none, some, codes, [], Error, arith,
}
use ddns_updater_beget.Net.{Addr, invalid, is_valid, is6}
use ddns_updater_beget.Records.{Record, get_current_ip}
use ddns_updater_beget.Update.Lookup.{lookup_ips_resilient}
use ddns_updater_beget.Update.GetIp.{Fetched}
use ddns_updater_beget.Update.Decision.{
  PublicIps, should_update_record, update_ip, is_within_cooldown, is_within_ban_period,
  get_ip_matching_version,
}
use ddns_updater_beget.Update.Exact.{
  IsDue, resolved_for, should_update_record_proxied, should_update_record_resolved,
}
use ddns_updater_beget.Update.Updater.{update}
use ddns_updater_beget.Update.Updater.Stored.{stored_by, store-update}
use ddns_updater_beget.Tests.Data.{env, world, cooldown, fresh, home, old_home, inputs_of, call_of}

abbrev ips : PublicIps
ips = record { ip = home; ipv4 = home; ipv6 = invalid }

abbrev hidden : Record
hidden = record (fresh (codes "a")) {
  provider = record (fresh (codes "a")).provider { proxied = true };
}

due : IsDue cooldown (inputs_of 0) (fresh (codes "a")) ips
unfolding is_within_cooldown is_within_ban_period is_valid get_ip_matching_version
due = (refl, refl, refl)

IsDue-hidden : IsDue cooldown (inputs_of 0) hidden ips
unfolding is_within_cooldown is_within_ban_period is_valid get_ip_matching_version
IsDue-hidden = (refl, refl, refl)

wanted : update_ip ips (fresh (codes "a")).provider ≡ some home
unfolding update_ip is6
wanted = refl

wanted_hidden : update_ip ips hidden.provider ≡ some home
unfolding update_ip is6
wanted_hidden = refl

looked_up : lookup_ips_resilient (inputs_of 0).answer 5 ≡ some ((old_home, invalid), none)
unfolding lookup_ips_resilient
looked_up = refl

should_update_record_proxied_example :
    (b : Bool) × (should_update_record cooldown (inputs_of 0) hidden ips ≡ some b)
    × ((b ≡ true) ↔ (home ≢ get_current_ip hidden.history))
should_update_record_proxied_example =
    should_update_record_proxied cooldown (inputs_of 0) hidden ips home IsDue-hidden wanted_hidden
      refl

should_update_record_resolved_example :
    (b : Bool) × (should_update_record cooldown (inputs_of 0) (fresh (codes "a")) ips ≡ some b)
    × ((b ≡ true)
        ↔ (home ≢ resolved_for (fresh (codes "a")).provider.ip_version home (old_home, invalid)))
should_update_record_resolved_example =
    should_update_record_resolved cooldown (inputs_of 0) (fresh (codes "a")) ips home old_home
      invalid none due wanted refl looked_up refl

abbrev timeout : Error
timeout = record { wrapped = []; text = codes "timeout" }

abbrev second_try : ℕ → Fetched
second_try zero = (invalid, some timeout)
second_try (suc n) = (home, none)

second_try_fails : (m : ℕ) → m < 1 → (b : Addr) × (e : Error) × (second_try m ≡ (b, some e))
second_try_fails zero h = (invalid, timeout, refl)
second_try_fails (suc m) h = absurd (omega arith)

abbrev never : ℕ → Fetched
never n = (invalid, some timeout)

store-update_example :
    (update env.show (call_of 0) 0 home world).0.database.store
    ≡ stored_by (call_of 0) (fresh (codes "a")) world.database.store ((call_of 0).answer home)
store-update_example = store-update env.show (call_of 0) 0 home world (fresh (codes "a")) refl
