-- ===== src/Update/Updater.antt =====
-- internal/update/update.go: the update of one record, from its selection to what is kept of it.
pub mod Effect
pub mod Stored
use ddns_updater_beget.Common.{
  ℕ, ◌+◌, ◌*◌, ◌/◌, ◌≡◌, ◌⊎◌, inl, inr, refl, Bool, true, false, ◌&&◌, List, [], ◌∷◌, ◌++◌, Option,
  none, some, Bytes, codes, Error, err_banned_abuse, is_error, if◌then◌else◌, get_elem?, set,
  length, arith,
}
use ddns_updater_beget.Net.{Addr}
use ddns_updater_beget.Clock.{Time, second}
use ddns_updater_beget.Records.{Record, HistoryEvent, failure, success, updating}
use ddns_updater_beget.Persistence.{WriteOutcome}
use ddns_updater_beget.Database.{Database, select, update_record}

-- What the outside answers during one update.
pub record Call : Type 0 where
  -- the first timeNow, and the last
  pub started : Time
  pub finished : Time
  -- Provider.Update
  pub answer : Addr → Addr ⊎ Error
  -- whether Provider.Update panics in place of an answer
  pub panics : Addr → Bool
  -- the write of the database file
  pub write : WriteOutcome

-- The records, and the messages sent through shoutrrr, latest last.
pub record World : Type 0 where
  pub database : Database
  pub notified : List Bytes

unfoldable pub started_record : Call → Record → Record
started_record c r = record r { time = c.started; status = updating }

-- time.Unix(t.Unix(), 0): the whole seconds.
unfoldable pub whole_seconds : Time → Time
whole_seconds t = t / second * second

-- What is kept after the provider's error `e`.
unfoldable pub failed_record : Call → Error → Record → Record
unfolding is_error whole_seconds
failed_record c e r = record r {
  status = failure;
  message = e.text;
  last_ban = if is_error e err_banned_abuse then some (whole_seconds c.finished) else none;
}

-- What is kept when the record was changed to `ip` and the provider returned `new_ip`.
unfoldable pub succeeded_record : (Addr → Bytes) → Call → Addr → Addr → Record → Record
succeeded_record show c ip new_ip r = record r {
  status = success;
  message = codes "changed to " ++ show ip;
  history = r.history ++ record { ip = new_ip; time = c.finished } ∷ [];
}

ban_message : Record → Error → Bytes
ban_message r e =
    r.provider.domain_name
    ++ (codes ": " ++ (e.text ++ codes ", no more updates will be attempted for an hour"))

-- The error of an abuse, with what follows from it.
ban_error : Record → Error → Error
ban_error r e = record e {
  text =
      e.text
      ++ (codes ": for domain "
          ++ (r.provider.domain_name ++ codes ", no more update will be attempted for 1h"));
}

-- Both errors, where the second is that of the database.
unfoldable pub with_database_error : Error → Option Error → Error
with_database_error e none = e
with_database_error e (some d) = record {
  wrapped = e.wrapped ++ d.wrapped;
  text = e.text ++ (codes " (with database update error: " ++ (d.text ++ codes ")"));
}

notify : Bytes → World → World
notify m w = record w { notified = w.notified ++ m ∷ [] }

put : World → Database × Option Error → World × Option Error
put w (db, e) = (record w { database = db }, e)

-- The branch of the provider's error.
unfoldable pub fail : Call → ℕ → Error → Record → World → World × Option Error
unfolding failed_record ban_message ban_error notify with_database_error
fail c id e r w =
    let banned = is_error e err_banned_abuse in
    let r' = failed_record c e r in
    let w' = if banned then notify (ban_message r' e) w else w in
    let e' = if banned then ban_error r' e else e in
    let (db, failure') = update_record c.write id r' w'.database in
    (record w' { database = db }, some (with_database_error e' failure'))

-- The branch of the provider's success.
unfoldable pub succeed :
    (Addr → Bytes) → Call → ℕ → Addr → Addr → Record → World → World × Option Error
unfolding succeeded_record notify put
succeed show c id ip new_ip r w =
    let r' = succeeded_record show c ip new_ip r in
    let w' = notify (r'.provider.domain_name ++ (codes " " ++ r'.message)) w in
    put w' (update_record c.write id r' w'.database)

unfoldable pub attempt :
    (Addr → Bytes) → Call → ℕ → Addr → Record → World → Addr ⊎ Error → World × Option Error
unfolding fail succeed
attempt show c id ip r w (inr e) = fail c id e r w
attempt show c id ip r w (inl new_ip) = succeed show c id ip new_ip r w

-- Once the record is marked as updating, unless that failed.
after_start :
    (Addr → Bytes)
    → Call
    → ℕ
    → Addr
    → Record
    → World
    → Database × Option Error
    → World × Option Error
unfolding attempt
after_start show c id ip r w (db, some e) = (record w { database = db }, some e)
after_start show c id ip r w (db, none) =
    attempt show c id ip r (record w { database = db }) (c.answer ip)

with_record : (Addr → Bytes) → Call → ℕ → Addr → World → Record ⊎ Error → World × Option Error
unfolding after_start started_record
with_record show c id ip w (inr e) = (w, some e)
with_record show c id ip w (inl r) =
    after_start show c id ip (started_record c r) w
      (update_record c.write id (started_record c r) w.database)

-- Updater.Update where the provider answers; `show` is the text of an address.
unfoldable pub update : (Addr → Bytes) → Call → ℕ → Addr → World → World × Option Error
unfolding with_record select update_record
update show c id ip w = with_record show c id ip w (select id w.database)

is_nil : Option Error → Bool
is_nil none = true
is_nil (some e) = false

calls_provider_of : Call → ℕ → Database → Record ⊎ Error → Bool
unfolding is_nil
calls_provider_of c id db (inr e) = false
calls_provider_of c id db (inl r) = is_nil (update_record c.write id (started_record c r) db).1

-- Whether the update gets to the call of the provider.
unfoldable pub calls_provider : Call → ℕ → Database → Bool
unfolding calls_provider_of
calls_provider c id db = calls_provider_of c id db (select id db)

-- Updater.Update; `none` is a panic of the provider, which nothing recovers from.
unfoldable pub run_update : (Addr → Bytes) → Call → ℕ → Addr → World → Option (World × Option Error)
unfolding calls_provider
run_update show c id ip w =
    if calls_provider c id w.database && c.panics ip then none else some (update show c id ip w)
