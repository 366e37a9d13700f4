-- ===== src/Persistence/Defs.antt =====
-- The JSON database. What the operating system and encoding/json answer is an input of each
-- operation. The file's content is the records that it decodes to.
use ddns_updater_beget.Common.{
  ℕ, zero, suc, ◌+◌, ◌-◌, Bool, true, false, not, ◌&&◌, List, [], ◌∷◌, ◌++◌, Option, none, some,
  Bytes, codes, Error, prefixed, length, beq, ltb, ◌==◌, ◌⊎◌, inl, inr, if◌then◌else◌,
}
use ddns_updater_beget.Net.{Addr, is_valid, is4, is6}
use ddns_updater_beget.IpVersion.{IpVersion, ip4or6, ip4, ip6}
use ddns_updater_beget.Clock.{Time}
use ddns_updater_beget.Records.{HistoryEvent}

-- The type record of models.go; `host` is the older name of `owner`.
pub record Entry : Type 0 where
  pub domain : Bytes
  pub host : Bytes
  pub owner : Bytes
  pub events : List HistoryEvent

-- What updates.json holds; `unknown` after a write that failed half-way.
pub data File : Type 0 where
  absent unknown : File
  holds : List Entry → File

-- The type Database.
pub record Store : Type 0 where
  pub entries : List Entry
  pub file : File

-- How the calls of `write` end.
pub data WriteOutcome : Type 0 where
  written : WriteOutcome
  open_failed encode_failed close_failed : Error → WriteOutcome

-- `none` is a nil error. Opening the file truncates it.
unfoldable pub write : WriteOutcome → Store → Store × Option Error
write written s = (record s { file = holds s.entries }, none)
write (open_failed e) s = (s, some (prefixed (codes "opening file") e))
write (encode_failed e) s =
    (record s { file = unknown }, some (prefixed (codes "encoding data to file") e))
write (close_failed e) s =
    (record s { file = unknown }, some (prefixed (codes "closing database file") e))

unfoldable pub is_entry : Bytes → Bytes → Entry → Bool
is_entry domain owner r = beq r.domain domain && beq r.owner owner

-- The index of the first entry of the domain and owner; `i` is the index of the first entry here.
unfoldable pub target_index : Bytes → Bytes → List Entry → ℕ → Option ℕ
unfolding is_entry
target_index domain owner [] i = none
target_index domain owner (r ∷ rs) i = elim (is_entry domain owner r) [
  | true ↦ some i
  | false ↦ target_index domain owner rs (i + 1)
]

-- entries[i].Events = append(entries[i].Events, event)
unfoldable pub add_event : HistoryEvent → List Entry → ℕ → List Entry
add_event event [] i = []
add_event event (r ∷ rs) zero = record r { events = r.events ++ event ∷ [] } ∷ rs
add_event event (r ∷ rs) (suc i) = r ∷ add_event event rs i

unfoldable pub new_entry : Bytes → Bytes → Entry
new_entry domain owner = record { domain = domain; host = []; owner = owner; events = [] }

-- The entries after StoreNewIP, by the index that the search found.
unfoldable pub store_at : Bytes → Bytes → HistoryEvent → List Entry → Option ℕ → List Entry
unfolding new_entry add_event
store_at domain owner event entries (some i) = add_event event entries i
store_at domain owner event entries none =
    add_event event (entries ++ new_entry domain owner ∷ [])
      (length (entries ++ new_entry domain owner ∷ []) - 1)

unfoldable pub stored : Bytes → Bytes → HistoryEvent → List Entry → List Entry
unfolding store_at target_index
stored domain owner event entries =
    store_at domain owner event entries (target_index domain owner entries 0)

-- StoreNewIP
unfoldable pub store_new_ip :
    WriteOutcome → Bytes → Bytes → Addr → Time → Store → Store × Option Error
unfolding stored write
store_new_ip outcome domain owner ip t s =
    write outcome
      (record s { entries = stored domain owner (record { ip = ip; time = t }) s.entries })

-- The test of filterEvents. Its default case, a panic, is that of no IP version.
unfoldable pub keeps : IpVersion → HistoryEvent → Bool
keeps ip4 e = is4 e.ip
keeps ip6 e = is6 e.ip
keeps ip4or6 e = true

unfoldable pub filter_events : IpVersion → List HistoryEvent → List HistoryEvent
unfolding keeps
filter_events v [] = []
filter_events v (e ∷ es) = if keeps v e then e ∷ filter_events v es else filter_events v es

-- The loop of GetEvents
unfoldable pub find_events : Bytes → Bytes → IpVersion → List Entry → List HistoryEvent
unfolding is_entry filter_events
find_events domain owner v [] = []
find_events domain owner v (r ∷ rs) =
    if is_entry domain owner r then filter_events v r.events else find_events domain owner v rs

unfoldable pub get_events : Bytes → Bytes → IpVersion → Store → List HistoryEvent
unfolding find_events
get_events domain owner v s = find_events domain owner v s.entries

pub data CheckError : Type 0 where
  domain_empty owner_not_set ip_records_misordered ip_empty ip_time_empty : CheckError

-- The loop of checkHistoryEvents, with the time of the event before. `none` is a nil error.
unfoldable pub check_events_from : Time → List HistoryEvent → Option CheckError
unfolding is_valid
check_events_from previous [] = none
check_events_from previous (e ∷ es) =
    let rest = check_events_from e.time es in
    if e.time == 0
    then some ip_time_empty
    else if ltb e.time previous
    then some ip_records_misordered
    else if not (is_valid e.ip)
    then some ip_empty
    else rest

unfoldable pub check_history_events : List HistoryEvent → Option CheckError
unfolding check_events_from
check_history_events es = check_events_from 0 es

unfoldable pub check_data : List Entry → Option CheckError
unfolding beq
check_data [] = none
check_data (r ∷ rs) =
    let rest = check_data rs in
    if beq r.domain []
    then some domain_empty
    else if beq r.owner []
    then some owner_not_set
    else elim (check_history_events r.events) [ some e ↦ some e | none ↦ rest ]

-- The migration from "host" to "owner".
unfoldable pub migrate : List Entry → List Entry
unfolding beq
migrate [] = []
migrate (r ∷ rs) =
    (if beq r.owner [] then record r { owner = r.host; host = [] } else r) ∷ migrate rs

-- How opening and decoding the file ends.
pub data Opened : Type 0 where
  missing : Option Error → Opened
  open_error stat_error decode_error : Error → Opened
  empty_file : Opened
  close_error : Error → List Entry → Opened
  decoded : List Entry → Opened

pub data LoadError : Type 0 where
  failed : Error → LoadError
  invalid_data : CheckError → LoadError

-- NewDatabase; the file stays what it was, and a missing file is made by the first write only.
unfoldable pub new_database : File → Opened → Store ⊎ LoadError
unfolding check_data check_history_events migrate
new_database file (missing (some e)) = inr (failed (prefixed (codes "creating data directory") e))
new_database file (missing none) = inl (record { entries = []; file = file })
new_database file (open_error e) = inr (failed (prefixed (codes "reading file") e))
new_database file (stat_error e) = inr (failed (prefixed (codes "stating file") e))
new_database file empty_file = inl (record { entries = []; file = file })
new_database file (decode_error e) = inr (failed (prefixed (codes "decoding data from file") e))
new_database file (close_error e _) = inr (failed (prefixed (codes "closing database file") e))
new_database file (decoded entries) = elim (check_data (migrate entries)) [
  | some e ↦ inr (invalid_data e)
  | none ↦ inl (record { entries = migrate entries; file = file })
]
