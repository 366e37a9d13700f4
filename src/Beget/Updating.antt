-- ===== src/Beget/Updating.antt =====
-- The Beget provider called by Updater.Update of internal/update/update.go.
use ddns_updater_beget.Common.{
  ℕ, ◌≡◌, ◌↔◌, refl, Bool, true, false, ◌⊎◌, inr, [], Option, none, some, Bytes, Error, get_elem?,
  arith,
}
use ddns_updater_beget.Net.{Addr}
use ddns_updater_beget.Records.{Record}
use ddns_updater_beget.Database.{select_found, update_record_quiet}
use ddns_updater_beget.Update.Updater.{Call, World, started_record, calls_provider, run_update}
use ddns_updater_beget.Beget.{Beget, Api, Updated, plain, update_beget}
use ddns_updater_beget.Beget.Laws.{HasNoRecords, update_beget_panics_iff}

-- The answer of an update that does not panic.
unfoldable answer_of : Option Updated → Addr ⊎ Error
unfolding plain
answer_of none = inr (plain [])
answer_of (some u) = u.1

unfoldable panicked : Option Updated → Bool
panicked none = true
panicked (some u) = false

-- The call of Updater.Update whose provider is `p`.
unfoldable pub call_beget : (Addr → Bytes) → Api → Beget → Call → Call
unfolding answer_of panicked
call_beget show api p c = record c {
  answer = λ ip. answer_of (update_beget show ip api p);
  panics = λ ip. panicked (update_beget show ip api p);
}

panicked_iff : (u : Option Updated) → (panicked u ≡ true) ↔ (u ≡ none)
unfolding panicked
panicked_iff none = (λ h. refl, λ h. refl)
panicked_iff (some u) = (λ h. cc, λ h. cc)

-- The provider of a record that is there is called.
calls_provider-found :
    (c : Call) (id : ℕ) (w : World) (r : Record)
    → get_elem? w.database.records id ≡ some r
    → calls_provider c id w.database ≡ true
unfolding calls_provider
calls_provider-found c id w r at = rw (select_found id w.database at) (
    rw
      (update_record_quiet c.write id (started_record c r) w.database at
        (unfold started_record in refl))
      refl)

run_update-panics :
    (show : Addr → Bytes) (c : Call) (id : ℕ) (ip : Addr) (w : World) (r : Record)
    → get_elem? w.database.records id ≡ some r
    → (run_update show c id ip w ≡ none) ↔ (c.panics ip ≡ true)
unfolding run_update
run_update-panics show c id ip w r at = rw (calls_provider-found c id w r at) ground arith

-- The update of a record whose provider is Beget panics exactly if the request for getData is
-- marshalled, its reply of status 200 is decoded to a success for the target name without any records,
-- and the new entry is marshalled: the assignment to a nil map.
pub run_update-HasNoRecords :
    (show : Addr → Bytes) (api : Api) (p : Beget) (c : Call) (id : ℕ) (ip : Addr) (w : World)
    (r : Record)
    → get_elem? w.database.records id ≡ some r
    → (run_update show (call_beget show api p c) id ip w ≡ none) ↔ HasNoRecords show ip api p
unfolding call_beget
run_update-HasNoRecords show api p c id ip w r at =
    let run = run_update-panics show (call_beget show api p c) id ip w r at in
    let end = panicked_iff (update_beget show ip api p) in
    let cause = update_beget_panics_iff show ip api p in
    (λ h. cause.0 (end.0 (run.0 h)), λ h. run.1 (end.1 (cause.1 h)))
