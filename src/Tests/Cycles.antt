-- ===== src/Tests/Cycles.antt =====
-- A cycle over four records: two that are updated, one that is up to date, and one that is banned.
use ddns_updater_beget.Common.{
  ◌≡◌, ◌≢◌, refl, none, some, Bytes, codes, [], ◌∷◌, ◌++◌, inr, get_elem?, true, beq,
}
use ddns_updater_beget.Records.{
  Record, HistoryEvent, success, up_to_date, updating, unset, is_unset,
}
use ddns_updater_beget.Persistence.{Entry, holds, new_entry, store_new_ip}
use ddns_updater_beget.Update.Decision.{is_within_ban_period, should_update_record}
use ddns_updater_beget.Update.Updater.{run_update, update}
use ddns_updater_beget.Database.{select, update_record}
use ddns_updater_beget.Net.{same_addr}
use ddns_updater_beget.Update.Cycle.{update_necessary, Report, ping_ok, Env}
use ddns_updater_beget.Update.Cycle.Spec.{map_option, settled_record}
use ddns_updater_beget.Update.Cycle.Refinement.{update_necessary-settled_record, fetched_ips}
use ddns_updater_beget.Update.Cycle.Consequences.{
  update_necessary_order, update_necessary_statuses, update_necessary_history,
  update_necessary_quiet, Extends,
}
use ddns_updater_beget.Update.Cycle.Runs.{update_necessary_total}
use ddns_updater_beget.Tests.Data.{
  env, world, cooldown, fresh, banned, home, start_time, swap, IsOrder-same, IsOrder-swap,
  IsAddr-home, answers,
}

abbrev event : HistoryEvent
event = record { ip = home; time = start_time }

abbrev updated : Bytes → Record
updated owner = record (fresh owner) {
  status = success;
  message = codes "changed to 203.0.113.7";
  time = start_time;
  history = event ∷ [];
}

abbrev entry : Bytes → Entry
entry owner = record (new_entry (codes "example.com") owner) { events = event ∷ [] }

abbrev message : Bytes → Bytes
message owner = owner ++ codes ".example.com changed to 203.0.113.7"

abbrev after : Bytes → Bytes → Report
after first second = record {
  world = record {
    database = record {
      records =
          updated (codes "a")
          ∷ updated (codes "b")
          ∷ record (fresh (codes "c")) {
            status = up_to_date;
            time = start_time;
            history = event ∷ [];
          }
          ∷ banned
          ∷ [];
      store = record {
        entries = entry (codes "c") ∷ entry first ∷ entry second ∷ [];
        file = holds (entry (codes "c") ∷ entry first ∷ entry second ∷ []);
      };
    };
    notified = message first ∷ message second ∷ [];
  };
  errors = [];
  ping = ping_ok;
}

abbrev swapped : Env
swapped = record env { order = swap }

run : update_necessary cooldown env world ≡ some (after (codes "a") (codes "b"))
unfolding update_necessary new_entry should_update_record same_addr is_unset select update_record
    update run_update store_new_ip beq
run = refl

run_swapped : update_necessary cooldown swapped world ≡ some (after (codes "b") (codes "a"))
unfolding update_necessary new_entry should_update_record same_addr is_unset select update_record
    update run_update store_new_ip beq
run_swapped = refl

update_necessary-settled_record_example :
    get_elem? (after (codes "a") (codes "b")).world.database.records 0
    ≡ map_option
        (settled_record cooldown env (fetched_ips env world) 0)
        (get_elem? world.database.records 0)
update_necessary-settled_record_example =
    update_necessary-settled_record cooldown env world (after (codes "a") (codes "b")) 0
      IsOrder-same run

update_necessary_order_example :
    (after (codes "a") (codes "b")).world.database.records
    ≡ (after (codes "b") (codes "a")).world.database.records
update_necessary_order_example =
    update_necessary_order cooldown env swap world (after (codes "a") (codes "b"))
      (after (codes "b") (codes "a")) IsOrder-same IsOrder-swap run run_swapped

update_necessary_statuses_example :
    (r : Record) × (get_elem? (after (codes "a") (codes "b")).world.database.records 2 ≡ some r)
    × (r.status ≢ updating)
    × (r.status ≢ unset)
update_necessary_statuses_example =
    update_necessary_statuses cooldown env world (after (codes "a") (codes "b")) 2
      (fresh (codes "c")) IsOrder-same run refl (λ e. cc)

update_necessary_history_example :
    (r : Record) × (get_elem? (after (codes "a") (codes "b")).world.database.records 1 ≡ some r)
    × Extends [] r.history
update_necessary_history_example =
    update_necessary_history cooldown env world (after (codes "a") (codes "b")) 1
      (fresh (codes "b")) IsOrder-same run refl

banned_now : is_within_ban_period start_time banned ≡ true
unfolding is_within_ban_period
banned_now = refl

update_necessary_quiet_example :
    get_elem? (after (codes "a") (codes "b")).world.database.records 3 ≡ some banned
update_necessary_quiet_example =
    update_necessary_quiet cooldown env world (after (codes "a") (codes "b")) 3 banned IsOrder-same
      run refl (λ e. cc) (inr banned_now)

update_necessary_total_example : update_necessary cooldown env world ≢ none
update_necessary_total_example =
    update_necessary_total cooldown env world (λ j ip. refl) IsOrder-same (λ v n. IsAddr-home)
      (λ j n. answers j) (tt, (tt, (tt, (tt, tt))))
