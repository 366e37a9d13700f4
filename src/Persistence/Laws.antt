-- ===== src/Persistence/Laws.antt =====
-- The contract of the database file: what is stored is found again, also after a restart, and the
-- data stays acceptable to the check at the next start.
use ddns_updater_beget.Common.{
  ◌≤◌, ◌≡◌, ◌≢◌, ◌⊎◌, refl, inl, List, [], ◌∷◌, ◌++◌, none, some, Bytes, All, beq_iff, arith, true,
}
use ddns_updater_beget.Net.{Addr, is_valid}
use ddns_updater_beget.Clock.{Time}
use ddns_updater_beget.IpVersion.{IpVersion, ip4or6}
use ddns_updater_beget.Persistence.Check.{IsEntry, check_data-All}
use ddns_updater_beget.Persistence.Defs.{
  Entry, Store, File, holds, Opened, missing, decoded, WriteOutcome, written, open_failed,
  encode_failed, close_failed, open_error, stat_error, decode_error, close_error, empty_file,
  stored, store_new_ip, filter_events, get_events, write, migrate, check_data, new_database,
}
use ddns_updater_beget.Persistence.Events.{
  find_events-stored_self, find_events-stored_other, stored-All,
}

abbrev pub IsStore : Store → Type 0
IsStore s = All IsEntry s.entries

entries-store_new_ip :
    (w : WriteOutcome) (domain owner : Bytes) (ip : Addr) (t : Time) (s : Store)
    → (store_new_ip w domain owner ip t s).0.entries
      ≡ stored domain owner (record { ip = ip; time = t }) s.entries
unfolding store_new_ip write
entries-store_new_ip written domain owner ip t s = refl
entries-store_new_ip (open_failed e) domain owner ip t s = refl
entries-store_new_ip (encode_failed e) domain owner ip t s = refl
entries-store_new_ip (close_failed e) domain owner ip t s = refl

-- After StoreNewIP, whether the file was written or not, GetEvents for the same domain and owner
-- returns the events from before and then the new one, if its address is of the version asked for.
pub get_events-store_new_ip :
    (w : WriteOutcome) (domain owner : Bytes) (ip : Addr) (t : Time) (v : IpVersion) (s : Store)
    → get_events domain owner v (store_new_ip w domain owner ip t s).0
      ≡ get_events domain owner v s ++ filter_events v (record { ip = ip; time = t } ∷ [])
unfolding get_events
get_events-store_new_ip w domain owner ip t v s =
    rw (entries-store_new_ip w domain owner ip t s)
      (find_events-stored_self domain owner (record { ip = ip; time = t }) v s.entries)

-- StoreNewIP changes no events of another domain or owner.
pub get_events-store_new_ip_other :
    (w : WriteOutcome) (domain owner domain' owner' : Bytes) (ip : Addr) (t : Time) (v : IpVersion)
    (s : Store)
    → (domain ≢ domain') ⊎ (owner ≢ owner')
    → get_events domain' owner' v (store_new_ip w domain owner ip t s).0
      ≡ get_events domain' owner' v s
unfolding get_events
get_events-store_new_ip_other w domain owner domain' owner' ip t v s ne =
    rw (entries-store_new_ip w domain owner ip t s) (
      find_events-stored_other domain owner (record { ip = ip; time = t }) domain' owner' v
        s.entries ne)

-- StoreNewIP of a valid address at a time that is not zero and not before the stored events of the
-- domain and owner, which are not empty, keeps all entries acceptable to checkData.
pub store_new_ip-IsStore :
    (w : WriteOutcome) (domain owner : Bytes) (ip : Addr) (t : Time) (s : Store)
    → IsStore s
    → domain ≢ []
    → owner ≢ []
    → is_valid ip ≡ true
    → t ≢ 0
    → All (λ f. f.time ≤ t) (get_events domain owner ip4or6 s)
    → IsStore (store_new_ip w domain owner ip t s).0
unfolding get_events
store_new_ip-IsStore w domain owner ip t s valid d o i z later =
    rw (entries-store_new_ip w domain owner ip t s)
      (stored-All domain owner (record { ip = ip; time = t }) s.entries valid d o (z, i) later)

migrate_done : (rs : List Entry) → All IsEntry rs → migrate rs ≡ rs
unfolding migrate
migrate_done [] h = refl
migrate_done (r ∷ rs) h = ground (arith, beq_iff r.owner [], migrate_done rs)

new_database-decoded :
    (file : File) (es : List Entry)
    → check_data (migrate es) ≡ none
    → new_database file (decoded es) ≡ inl (record { entries = migrate es; file = file })
unfolding new_database
new_database-decoded file es h = ground arith

-- A database whose entries are acceptable, read back from the file that it wrote, is the same.
pub new_database_reload : (s : Store) → IsStore s → new_database s.file (decoded s.entries) ≡ inl s
new_database_reload s h =
    let same = migrate_done s.entries h in
    rw same at (new_database-decoded s.file s.entries (rw same ((check_data-All s.entries).1 h)))

-- What StoreNewIP wrote to the file, without an error, is loaded by NewDatabase at the next start as
-- the database that StoreNewIP left, under the conditions that keep it acceptable.
pub new_database-store_new_ip :
    (domain owner : Bytes) (ip : Addr) (t : Time) (s : Store)
    → IsStore s
    → domain ≢ []
    → owner ≢ []
    → is_valid ip ≡ true
    → t ≢ 0
    → All (λ f. f.time ≤ t) (get_events domain owner ip4or6 s)
    → (es : List Entry) × ((store_new_ip written domain owner ip t s).0.file ≡ holds es)
      × ((store_new_ip written domain owner ip t s).1 ≡ none)
      × (new_database (holds es) (decoded es) ≡ inl (store_new_ip written domain owner ip t s).0)
new_database-store_new_ip domain owner ip t s valid d o i z later =
    let after = (store_new_ip written domain owner ip t s).0 in
    (
      after.entries,
      unfold store_new_ip write in refl,
      unfold store_new_ip write in refl,
      unfold store_new_ip write in
          new_database_reload after
            (store_new_ip-IsStore written domain owner ip t s valid d o i z later),
    )

-- However opening the file ends, a database that NewDatabase returns has acceptable entries only,
-- and the file is untouched.
pub new_database-IsStore :
    (file : File) (opened : Opened) (s : Store)
    → new_database file opened ≡ inl s
    → IsStore s × (s.file ≡ file)
unfolding new_database
new_database-IsStore file (missing none) s h = ground arith
new_database-IsStore file empty_file s h = ground arith
new_database-IsStore file (decoded entries) s h = ground (arith, check_data-All (migrate entries))
new_database-IsStore file (missing (some e)) s h = cc
new_database-IsStore file (open_error e) s h = cc
new_database-IsStore file (stat_error e) s h = cc
new_database-IsStore file (decode_error e) s h = cc
new_database-IsStore file (close_error e es) s h = cc
