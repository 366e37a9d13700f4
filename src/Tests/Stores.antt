-- ===== src/Tests/Stores.antt =====
-- The database in the file and the histories, at concrete inputs.
use ddns_updater_beget.Common.{
  ℕ, ◌+◌, ◌*◌, itoa, ◌≤◌, ◌≡◌, ◌≢◌, ◌↔◌, refl, Option, none, some, Bytes, codes, List, [], ◌∷◌,
  ◌++◌, ◌⊎◌, inl, inr, arith, true, beq,
}
use ddns_updater_beget.Net.{is_valid}
use ddns_updater_beget.IpVersion.{ip4or6}
use ddns_updater_beget.Records.{HistoryEvent}
use ddns_updater_beget.Records.Since.{
  scale, get_duration_since_success, get_duration_since_success-IsNear, IsNear,
}
use ddns_updater_beget.Clock.{hour, second, sub}
use ddns_updater_beget.Persistence.{
  Entry, Store, absent, holds, written, store_new_ip, get_events, new_database, decoded,
}
use ddns_updater_beget.Persistence.Laws.{
  IsStore, store_new_ip-IsStore, new_database-store_new_ip, new_database-IsStore,
}
use ddns_updater_beget.Tests.Data.{home, old_home, start_time}

abbrev domain : Bytes
domain = codes "example.com"

abbrev owner : Bytes
owner = codes "@"

abbrev old_event : HistoryEvent
old_event = record { ip = old_home; time = 5 }

abbrev entry : Entry
entry = record { domain = domain; host = []; owner = owner; events = old_event ∷ [] }

abbrev filled : Store
filled = record { entries = entry ∷ []; file = absent }

filled-IsStore : IsStore filled
unfolding is_valid
filled-IsStore = ((λ e. cc, λ e. cc, (((λ e. omega (arith, e), refl), tt), tt)), tt)

earlier :
    ddns_updater_beget.Common.All (λ f. f.time ≤ start_time) (get_events domain owner ip4or6 filled)
unfolding get_events beq
earlier = (omega arith, tt)

home-is_valid : is_valid home ≡ true
unfolding is_valid
home-is_valid = refl

store_new_ip-IsStore_example : IsStore (store_new_ip written domain owner home start_time filled).0
store_new_ip-IsStore_example =
    store_new_ip-IsStore written domain owner home start_time filled filled-IsStore (λ e. cc)
      (λ e. cc) home-is_valid (λ e. omega (arith, e)) earlier

new_database-store_new_ip_example :
    (es : List Entry) × ((store_new_ip written domain owner home start_time filled).0.file
      ≡ holds es)
    × ((store_new_ip written domain owner home start_time filled).1 ≡ none)
    × (new_database (holds es) (decoded es)
        ≡ inl (store_new_ip written domain owner home start_time filled).0)
new_database-store_new_ip_example =
    new_database-store_new_ip domain owner home start_time filled filled-IsStore (λ e. cc) (λ e. cc)
      home-is_valid (λ e. omega (arith, e)) earlier

loaded : new_database absent (decoded (entry ∷ [])) ≡ inl filled
unfolding new_database is_valid
loaded = refl

new_database-IsStore_example : IsStore filled × (filled.file ≡ absent)
new_database-IsStore_example = new_database-IsStore absent (decoded (entry ∷ [])) filled loaded

-- The expectation of Test_GetDurationSinceSuccess, for the year 2000.
zero_event_text :
    get_duration_since_success (record { ip = home; time = 0 } ∷ []) (730_119 * (24 * hour))
    ≡ codes "106751d"
unfolding get_duration_since_success sub itoa
zero_event_text = refl

-- An hour and a half, which is shown as two hours.
abbrev passed : ℕ
passed = 5400 * second

get_duration_since_success-IsNear_example :
    (n : ℕ) × (get_duration_since_success (old_event ∷ []) (5 + passed) ≡ itoa n ++ codes "h")
    × IsNear n hour passed
    × ((hour ≤ passed) ⊎ (hour ≡ second))
unfolding scale
get_duration_since_success-IsNear_example =
    get_duration_since_success-IsNear [] old_event (5 + passed) (omega arith) (omega arith)
