-- ===== src/Update/Cycle.antt =====
-- updateNecessary of internal/update/service.go: one cycle over all records.
pub mod Spec
pub mod Initial
pub mod Updates
pub mod Refinement
pub mod Consequences
pub mod Total
pub mod Loops
pub mod Runs
use ddns_updater_beget.Common.{
  ℕ, zero, suc, ◌+◌, ◌≡◌, ◌⊎◌, inl, inr, refl, Bool, true, false, not, ◌&&◌, ◌||◌, List, [], ◌∷◌,
  ◌++◌, Option, none, some, Bytes, codes, Error, prefixed, length, get_elem?, ◌==◌, if◌then◌else◌,
  ◌>>=◌,
}
use ddns_updater_beget.Net.{Addr, invalid, is_valid}
use ddns_updater_beget.IpVersion.{IpVersion, ip4or6, ip4, ip6}
use ddns_updater_beget.Clock.{Time, Duration}
use ddns_updater_beget.Records.{Record, HistoryEvent, failure, up_to_date, is_unset, get_current_ip}
use ddns_updater_beget.Persistence.{WriteOutcome}
use ddns_updater_beget.Database.{Database, select, update_record}
use ddns_updater_beget.Update.GetIp.{Fetched, try_and_repeat_getting_ip}
use ddns_updater_beget.Update.Decision.{
  Wanted, PublicIps, Inputs, do_ip_version, get_ip_matching_version, should_update_record,
  update_ip,
}
use ddns_updater_beget.Update.Updater.{Call, World, run_update}

-- What the outside answers during one cycle, by the id of the record where it is about one.
pub record Env : Type 0 where
  -- netip.Addr.String
  pub show : Addr → Bytes
  -- the public IP fetcher, try by try
  pub fetch : IpVersion → ℕ → Fetched
  pub inputs : ℕ → Inputs
  -- timeNow after the decisions
  pub now : Time
  pub call : ℕ → Call
  -- the write of the file when an initial status is set
  pub write : ℕ → WriteOutcome
  -- the order in which Go iterates over the map of ids
  pub order : List ℕ → List ℕ

no_fetch : Fetched
no_fetch = (invalid, none)

errors_of : Option Error → List Error
errors_of none = []
errors_of (some e) = e ∷ []

-- getNewIPs
unfoldable pub get_new_ips : Env → Wanted → PublicIps × List Error
unfolding try_and_repeat_getting_ip errors_of no_fetch
get_new_ips env w =
    let (ip, e) = if w.any then try_and_repeat_getting_ip (env.fetch ip4or6) ip4or6 else no_fetch in
    let (ipv4, e4) = if w.v4 then try_and_repeat_getting_ip (env.fetch ip4) ip4 else no_fetch in
    let (ipv6, e6) = if w.v6 then try_and_repeat_getting_ip (env.fetch ip6) ip6 else no_fetch in
    (record { ip = ip; ipv4 = ipv4; ipv6 = ipv6 }, errors_of e ++ (errors_of e4 ++ errors_of e6))

-- getRecordIDsToUpdate, from the record with id `i` on: the keys of the map. `none` is a panic.
unfoldable pub record_ids_from : Duration → Env → PublicIps → List Record → ℕ → Option (List ℕ)
record_ids_from cooldown env ips [] i = some []
record_ids_from cooldown env ips (r ∷ rs) i = do
  chosen ← should_update_record cooldown (env.inputs i) r ips
  ids ← record_ids_from cooldown env ips rs (i + 1)
  some (if chosen then i ∷ ids else ids)

unfoldable pub mem_id : ℕ → List ℕ → Bool
mem_id i [] = false
mem_id i (j ∷ js) = i == j || mem_id i js

-- setInitialUpToDateStatus, on the record that Select returns
unfoldable pub initially_up_to_date : Addr → Time → Record → Record
unfolding get_current_ip is_valid
initially_up_to_date ip now r = record r {
  status = up_to_date;
  time = now;
  history =
      if is_valid (get_current_ip r.history)
      then r.history
      else r.history ++ record { ip = ip; time = now } ∷ [];
}

-- setInitialPublicIPFailStatus, on the record that Select returns
unfoldable pub initially_failed : Time → Record → Record
initially_failed now r = record r {
  status = failure;
  message = codes "public IP address not found";
  time = now;
}

change_selected :
    WriteOutcome → ℕ → (Record → Record) → Database → Record ⊎ Error → Database × Option Error
change_selected w id f db (inr e) = (db, some e)
change_selected w id f db (inl r) = update_record w id (f r) db

-- Select, a change, Update.
unfoldable pub change_record :
    WriteOutcome → ℕ → (Record → Record) → Database → Database × Option Error
unfolding change_selected
change_record w id f db = change_selected w id f db (select id db)

-- An error with the text of what was done, in a list of errors.
errors_in : Bytes → Option Error → List Error
errors_in what none = []
errors_in what (some e) = prefixed what e ∷ []

-- The body of the first loop for a record that gets its initial status. Its second argument is the
-- address that matches the record's version, and the third that with the suffix.
unfoldable pub set_initial_status :
    Env → ℕ → Addr → Option Addr → Database → Option (Database × List Error)
unfolding errors_in
set_initial_status env id public_ip with_suffix db =
    if not (is_valid public_ip)
    then (let (db', e) = change_record (env.write id) id (initially_failed env.now) db in
        some (db', errors_in (codes "setting initial public IP fail status") e))
    else do
      ip ← with_suffix
      let (db', e) = change_record (env.write id) id (initially_up_to_date ip env.now) db
      some (db', errors_in (codes "setting initial up to date status") e)

-- The body of the first loop at the record that the database holds under `id`: the loop ranges over
-- the slice that the database shares with SelectAll.
unfoldable pub initial_step :
    Env → PublicIps → List ℕ → ℕ → Database → Option Record → Option (Database × List Error)
initial_step env ips ids id db none = some (db, [])
initial_step env ips ids id db (some r) =
    if mem_id id ids || not (is_unset r.status)
    then some (db, [])
    else set_initial_status env id
        (get_ip_matching_version ips.ip ips.ipv4 ips.ipv6 r.provider.ip_version)
        (update_ip ips r.provider) db

-- The first loop, with `left` records left.
unfoldable pub initial_loop :
    Env → PublicIps → List ℕ → ℕ → ℕ → Database → Option (Database × List Error)
initial_loop env ips ids zero id db = some (db, [])
initial_loop env ips ids (suc left) id db = do
  (db', errs) ← initial_step env ips ids id db (get_elem? db.records id)
  (db'', errs') ← initial_loop env ips ids left (id + 1) db'
  some (db'', errs ++ errs')

-- The body of the second loop at the record that the database holds under `id`. An id of the map is
-- an index of the slice, so `none` for the record is a panic like any index out of range.
unfoldable pub update_step :
    Env → PublicIps → ℕ → World → Option Record → Option (World × List Error)
unfolding errors_of
update_step env ips id w none = none
update_step env ips id w (some r) = do
  ip ← update_ip ips r.provider
  (w', e) ← run_update env.show (env.call id) id ip w
  some (w', errors_of e)

-- The second loop, over the ids in the order of the map.
unfoldable pub update_loop : Env → PublicIps → List ℕ → World → Option (World × List Error)
update_loop env ips [] w = some (w, [])
update_loop env ips (id ∷ ids) w = do
  (w', errs) ← update_step env ips id w (get_elem? w.database.records id)
  (w'', errs') ← update_loop env ips ids w'
  some (w'', errs ++ errs')

-- The state that is sent to healthchecks.io.
pub data PingState : Type 0 where
  ping_ok ping_fail : PingState

ping_state : List Error → PingState
ping_state [] = ping_ok
ping_state (e ∷ es) = ping_fail

pub record Report : Type 0 where
  pub world : World
  pub errors : List Error
  pub ping : PingState

finish : World → List Error → Report
unfolding ping_state
finish w errs = record { world = w; errors = errs; ping = ping_state errs }

-- The loops, once the ids are known.
unfoldable pub run_loops : Env → PublicIps → List Error → List ℕ → World → Option Report
unfolding finish
run_loops env ips errs ids w = do
  (db, initial_errs) ← initial_loop env ips ids (length w.database.records) 0 w.database
  (w', update_errs) ← update_loop env ips (env.order ids) (record w { database = db })
  some (finish w' (errs ++ (initial_errs ++ update_errs)))

-- updateNecessary; `none` is a panic.
unfoldable pub update_necessary : Duration → Env → World → Option Report
unfolding run_loops get_new_ips do_ip_version record_ids_from initial_loop initial_step
    set_initial_status update_loop update_step change_record initially_up_to_date initially_failed
    mem_id
update_necessary cooldown env w = do
  let fetched = get_new_ips env (do_ip_version w.database.records)
  ids ← record_ids_from cooldown env fetched.0 w.database.records 0
  run_loops env fetched.0 fetched.1 ids w
