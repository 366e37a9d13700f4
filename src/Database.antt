-- ===== src/Database.antt =====
-- internal/data: the records in memory, before the persistent database. Its mutex makes each
-- operation one step.
use ddns_updater_beget.Common.{
  ℕ, ◌≡◌, ◌<◌, List, Option, none, some, codes, ◌++◌, Error, err_record_not_found, [], ◌∷◌, itoa,
  length, get_elem?, set, leb, ltb, if◌then◌else◌, arith, inl, inr, ◌⊎◌, lt_of_get_elem?,
}
use ddns_updater_beget.Records.{Record, get_current_ip, get_success_time}
use ddns_updater_beget.Persistence.{Store, WriteOutcome, store_new_ip}

-- The type Database.
pub record Database : Type 0 where
  pub records : List Record
  pub store : Store

record_not_found : ℕ → Error
unfolding itoa
record_not_found id = record {
  wrapped = err_record_not_found ∷ [];
  text = codes "record not found: for id " ++ itoa id;
}

found_or : Error → Option Record → Record ⊎ Error
found_or e none = inr e
found_or e (some r) = inl r

-- Select. An id is an index, far below 2 ^ 63, so the conversion of it to an int is exact.
unfoldable pub select : ℕ → Database → Record ⊎ Error
unfolding found_or record_not_found
select id db =
    if leb (length db.records) id
    then inr (record_not_found id)
    else found_or (record_not_found id) (get_elem? db.records id)

-- What follows the assignment in Update: a longer history is stored.
store_if_longer : WriteOutcome → Record → Record → Database → Database × Option Error
store_if_longer w old new db =
    if ltb (length old.history) (length new.history)
    then (let (store', e) =
          store_new_ip w new.provider.domain new.provider.owner (get_current_ip new.history)
            (get_success_time new.history) db.store in
        (record db { store = store' }, e))
    else (db, none)

update_found : WriteOutcome → ℕ → Record → Database → Option Record → Database × Option Error
unfolding store_if_longer
update_found w id new db none = (db, some (record_not_found id))
update_found w id new db (some old) =
    store_if_longer w old new (record db { records = set db.records id new })

-- Update; `w` is how the write of the file ends, if there is one.
unfoldable pub update_record : WriteOutcome → ℕ → Record → Database → Database × Option Error
unfolding update_found record_not_found
update_record w id new db =
    if leb (length db.records) id
    then (db, some (record_not_found id))
    else update_found w id new db (get_elem? db.records id)

-- Selecting an id below the count of records gives the record there.
pub select_found :
    (id : ℕ) (db : Database) {r : Record} → get_elem? db.records id ≡ some r → select id db ≡ inl r
unfolding select
select_found id db h = let lt = lt_of_get_elem? db.records id h in ground arith

-- The records after an update, whatever becomes of the file.
pub records-update_record :
    (w : WriteOutcome) (id : ℕ) (new : Record) (db : Database) {r : Record}
    → get_elem? db.records id ≡ some r
    → (update_record w id new db).0.records ≡ set db.records id new
unfolding update_record
records-update_record w id new db h = let lt = lt_of_get_elem? db.records id h in ground arith

-- Without a longer history nothing is stored, and there is no error.
pub update_record_quiet :
    (w : WriteOutcome) (id : ℕ) (new : Record) (db : Database) {r : Record}
    → get_elem? db.records id ≡ some r
    → length new.history ≡ length r.history
    → update_record w id new db ≡ (record db { records = set db.records id new }, none)
unfolding update_record
update_record_quiet w id new db h e = let lt = lt_of_get_elem? db.records id h in ground arith

pub update_record_longer :
    (w : WriteOutcome) (id : ℕ) (new : Record) (db : Database) {r : Record}
    → get_elem? db.records id ≡ some r
    → length r.history < length new.history
    → (update_record w id new db).0.store
      ≡ (store_new_ip w new.provider.domain new.provider.owner
          (get_current_ip new.history)
          (get_success_time new.history)
          db.store).0
unfolding update_record
update_record_longer w id new db h e = let lt = lt_of_get_elem? db.records id h in ground arith
