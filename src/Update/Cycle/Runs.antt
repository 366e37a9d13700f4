-- ===== src/Update/Cycle/Runs.antt =====
-- A cycle does not panic if the settings are IPv6 suffixes and the outside answers as documented.
use ddns_updater_beget.Common.{
  ℕ, zero, suc, ◌+◌, ◌<◌, ◌≡◌, ◌≢◌, refl, sym, ap, ◌∙◌, Bool, true, false, List, [], ◌∷◌, ◌++◌,
  Option, none, some, Error, length, All, if◌then◌else◌, arith, >>=-ne-none, length-set,
  get_elem?_of_lt,
}
use ddns_updater_beget.Net.{Addr, invalid, IsAddr}
use ddns_updater_beget.IpVersion.{IpVersion, ip4or6, ip4, ip6}
use ddns_updater_beget.Clock.{Duration}
use ddns_updater_beget.Update.Lookup.{IsAnswer}
use ddns_updater_beget.Update.GetIp.{Fetched, try_and_repeat_getting_ip, try_from}
use ddns_updater_beget.Update.Decision.{PublicIps, do_ip_version}
use ddns_updater_beget.Database.{Database}
use ddns_updater_beget.Update.Updater.{World}
use ddns_updater_beget.Update.Cycle.{
  no_fetch, run_loops, Env, mem_id, record_ids_from, initial_loop, update_loop, update_necessary,
  get_new_ips,
}
use ddns_updater_beget.Update.Cycle.Initial.{initial_loop-suc, initial_record, records-initial_step}
use ddns_updater_beget.Update.Cycle.Refinement.{fetched_ips}
use ddns_updater_beget.Update.Cycle.Spec.{IsOrder}
use ddns_updater_beget.Update.Cycle.Total.{HasSuffix, AreAddrs}
use ddns_updater_beget.Update.Cycle.Loops.{
  record_ids_from_total, record_ids_lt, initial_loop_total, update_loop_total, HasSuffix-set,
  provider-initial_record,
}

try_step :
    (fetch : ℕ → Fetched) (v : IpVersion) (left try : ℕ) (errs : List Error) (last : Addr)
    (o : Option Error)
    → (fetch try).1 ≡ o
    → IsAddr (fetch try).0
    → ((e : Error) → IsAddr (try_from fetch v left (try + 1) (errs ++ e ∷ []) (fetch try).0).0)
    → IsAddr (try_from fetch v (suc left) try errs last).0
unfolding try_from
try_step fetch v left try errs last none e h more = rw (e, try_from) h
try_step fetch v left try errs last (some x) e h more = rw (e, try_from) (more x)

IsAddr-try :
    (fetch : ℕ → Fetched) (v : IpVersion) (left try : ℕ) (errs : List Error) (last : Addr)
    → ((n : ℕ) → IsAddr (fetch n).0)
    → IsAddr last
    → IsAddr (try_from fetch v left try errs last).0
IsAddr-try fetch v zero try errs last h hl = unfold try_from in hl
IsAddr-try fetch v (suc left) try errs last h hl =
    try_step fetch v left try errs last (fetch try).1 refl (h try)
      (λ e. IsAddr-try fetch v left (try + 1) (errs ++ e ∷ []) (fetch try).0 h (h try))

-- The rounds of the first loop change no provider.
HasSuffix-initial_loop :
    (env : Env) (ips : PublicIps) (ids : List ℕ) (left i : ℕ) (db db' : Database)
    (errs : List Error)
    → All HasSuffix db.records
    → i + left ≡ length db.records
    → initial_loop env ips ids left i db ≡ some (db', errs)
    → All HasSuffix db'.records × (length db'.records ≡ length db.records)
HasSuffix-initial_loop env ips ids zero i db db' errs hs size h =
    let e : db ≡ db' = unfold initial_loop in cc in rw (← e) (hs, refl)
HasSuffix-initial_loop env ips ids (suc left) i db db' errs hs size h =
    let (mid, errs₁, errs₂, first, rest) = initial_loop-suc env ips ids left i db db' errs h in
    let (r, at) = get_elem?_of_lt db.records i (omega arith) in
    let write = records-initial_step env ips ids i r db mid errs₁ at (rw at at first) in
    let size' = length-set db.records i (initial_record env ips ids i r) in
    let (kept, long) =
      HasSuffix-initial_loop env ips ids left (i + 1) mid db' errs₂
        (rw write (
          HasSuffix-set env ips db.records i r (initial_record env ips ids i r) hs at
            (provider-initial_record env ips ids i r)))
        (omega (arith, ap length write, size')) rest in
    (kept, omega (arith, ap length write, size', long))

AreAddrs-fetched :
    (env : Env) (w : World)
    → ((v : IpVersion) (n : ℕ) → IsAddr (env.fetch v n).0)
    → AreAddrs (fetched_ips env w)
unfolding get_new_ips try_and_repeat_getting_ip no_fetch
AreAddrs-fetched env w hf = (
  asked ip4or6 (do_ip_version w.database.records).any,
  asked ip4 (do_ip_version w.database.records).v4,
  asked ip6 (do_ip_version w.database.records).v6,
)
  where
    asked :
        (v : IpVersion) (b : Bool)
        → IsAddr (if b then try_and_repeat_getting_ip (env.fetch v) v else no_fetch).0
    asked v true = IsAddr-try (env.fetch v) v 3 0 [] invalid (hf v) tt
    asked v false = tt

run_loops_total :
    (env : Env) (ips : PublicIps) (errs : List Error) (ids : List ℕ) (w : World)
    → ((j : ℕ) (ip : Addr) → (env.call j).panics ip ≡ false)
    → IsOrder env.order
    → AreAddrs ips
    → All HasSuffix w.database.records
    → ((j : ℕ) → mem_id j ids ≡ true → j < length w.database.records)
    → run_loops env ips errs ids w ≢ none
unfolding run_loops
run_loops_total env ips errs ids w calm order hi hs lt =
    let start : 0 + length w.database.records ≡ length w.database.records = omega arith in
    let n = length w.database.records in
    >>=-ne-none (initial_loop env ips ids n 0 w.database) _
      (initial_loop_total env ips ids n 0 w.database hi hs start)
      λ a e.
        let (kept, long) = HasSuffix-initial_loop env ips ids n 0 w.database a.0 a.1 hs start e in
        >>=-ne-none (update_loop env ips (env.order ids) (record w { database = a.0 })) _
          (update_loop_total env ips (env.order ids) (record w { database = a.0 }) calm hi kept
            λ j m. omega (arith, lt j (sym (order.same ids j) ∙ m), long))
          (λ b e' k. cc)

-- A cycle ends without a panic, if the Update of no provider panics, each record's suffix setting is
-- an IPv6 suffix or none, the fetchers and the resolver return addresses of 4 or 16 bytes, and Go
-- iterates over a map once per key.
pub update_necessary_total :
    (cooldown : Duration) (env : Env) (w : World)
    → ((j : ℕ) (ip : Addr) → (env.call j).panics ip ≡ false)
    → IsOrder env.order
    → ((v : IpVersion) (n : ℕ) → IsAddr (env.fetch v n).0)
    → ((j n : ℕ) → IsAnswer ((env.inputs j).answer n))
    → All HasSuffix w.database.records
    → update_necessary cooldown env w ≢ none
unfolding update_necessary
update_necessary_total cooldown env w calm order hf ha hs =
    let ips = AreAddrs-fetched env w hf in
    >>=-ne-none (record_ids_from cooldown env (fetched_ips env w) w.database.records 0) _
      (record_ids_from_total cooldown env (fetched_ips env w) w.database.records 0 ha ips hs)
      λ ids e. run_loops_total env (fetched_ips env w) _ ids w calm order ips hs λ j m.
        let lt = record_ids_lt cooldown env (fetched_ips env w) w.database.records 0 j ids e m in
        omega (arith, lt)
