-- ===== src/Update/Cycle/Loops.antt =====
-- The loops of a cycle do not panic: the collection of the ids, and the two loops over records.
use ddns_updater_beget.Common.{
  ℕ, zero, suc, ◌+◌, ◌<◌, ◌≡◌, ◌≢◌, refl, sym, ap, ◌∙◌, Bool, true, false, not, ◌||◌, List, [], ◌∷◌,
  Option, none, some, Error, length, get_elem?, All, Bytes, inl, inr, if◌then◌else◌, arith,
  >>=-ne-none, if_either, set, length-set, All_at, All-set, subst, get_elem?_of_lt,
}
use ddns_updater_beget.Net.{Addr, is_valid}
use ddns_updater_beget.Clock.{Duration}
use ddns_updater_beget.Records.{Record, is_unset}
use ddns_updater_beget.Update.Suffix.{IsSuffix}
use ddns_updater_beget.Update.Lookup.{IsAnswer}
use ddns_updater_beget.Update.Decision.{
  PublicIps, should_update_record, update_ip, get_ip_matching_version,
}
use ddns_updater_beget.Database.{Database}
use ddns_updater_beget.Update.Updater.{
  Call, World, run_update, failed_record, started_record, succeeded_record,
}
use ddns_updater_beget.Update.Cycle.{
  Env, mem_id, record_ids_from, initial_step, initial_loop, set_initial_status, update_step,
  update_loop, initially_failed, initially_up_to_date,
}
use ddns_updater_beget.Update.Cycle.Initial.{initial_record, records-initial_step}
use ddns_updater_beget.Update.Cycle.Updates.{records-update_step}
use ddns_updater_beget.Update.Updater.Effect.{outcome_record-cases}
use ddns_updater_beget.Update.Cycle.Refinement.{record_ids_from-cons}
use ddns_updater_beget.Update.Cycle.Spec.{kept_record, updated_record, address}
use ddns_updater_beget.Update.Cycle.Total.{
  HasSuffix, AreAddrs, update_ip_total, should_update_record_total,
}

module _ (cooldown : Duration) (env : Env) (ips : PublicIps) where
  pub record_ids_from_total :
      (rs : List Record) (i : ℕ)
      → ((j n : ℕ) → IsAnswer ((env.inputs j).answer n))
      → AreAddrs ips
      → All HasSuffix rs
      → record_ids_from cooldown env ips rs i ≢ none
  unfolding record_ids_from
  record_ids_from_total [] i ha hi hs = λ e. cc
  record_ids_from_total (r ∷ rs) i ha hi hs =
      let ih = record_ids_from_total rs (i + 1) ha hi hs.1 in
      >>=-ne-none (should_update_record cooldown (env.inputs i) r ips) _
        (should_update_record_total cooldown (env.inputs i) r ips (ha i) hi hs.0)
        (λ chosen e.
          >>=-ne-none (record_ids_from cooldown env ips rs (i + 1)) _ ih (λ ids e'. λ k. cc))

  -- The ids are indices of the records.
  pub record_ids_lt :
      (rs : List Record) (i j : ℕ) (ids : List ℕ)
      → record_ids_from cooldown env ips rs i ≡ some ids
      → mem_id j ids ≡ true
      → j < i + length rs
  record_ids_lt [] i j ids h m =
      let e : [] ≡ ids = unfold record_ids_from in cc in absurd (none_in j (rw (← e) at m))
    where
      none_in : (j : ℕ) → mem_id j [] ≡ true → ⊥
      none_in j h = unfold mem_id in cc
  record_ids_lt (r ∷ rs) i j ids h m =
      let (b, later, first, rest, e) = record_ids_from-cons cooldown env ips r rs i ids h in
      either b i j later (rw e at m) (record_ids_lt rs (i + 1) j later rest)
    where
      either :
          (b : Bool) (i j : ℕ) (later : List ℕ)
          → mem_id j (if b then i ∷ later else later) ≡ true
          → (mem_id j later ≡ true → j < i + 1 + length rs)
          → j < i + suc (length rs)
      either true i j later h more = unfold mem_id in ground arith
      either false i j later h more = ground arith

mem_id_head : (i : ℕ) (ids : List ℕ) → mem_id i (i ∷ ids) ≡ true
unfolding mem_id
mem_id_head i ids = ground arith

mem_id_tail : (i : ℕ) (ids : List ℕ) (j : ℕ) → mem_id j ids ≡ true → mem_id j (i ∷ ids) ≡ true
unfolding mem_id
mem_id_tail i ids j h = ground arith

run_update_total :
    (show : Addr → Bytes) (c : Call) (id : ℕ) (ip : Addr) (w : World)
    → c.panics ip ≡ false
    → run_update show c id ip w ≢ none
unfolding run_update
run_update_total show c id ip w calm = ground arith

module _ (env : Env) (ips : PublicIps) where
  provider-kept_record : (r : Record) → (kept_record env ips r).provider ≡ r.provider
  unfolding kept_record initially_failed initially_up_to_date
  provider-kept_record r =
      if_either (λ (x : Record). x.provider ≡ r.provider) (not (is_unset r.status)) refl
        (if_either (λ (x : Record). x.provider ≡ r.provider)
          (not (is_valid (get_ip_matching_version ips.ip ips.ipv4 ips.ipv6 r.provider.ip_version)))
          refl refl)

  pub provider-initial_record :
      (ids : List ℕ) (i : ℕ) (r : Record) → (initial_record env ips ids i r).provider ≡ r.provider
  unfolding initial_record
  provider-initial_record ids i r =
      if_either (λ (x : Record). x.provider ≡ r.provider) (mem_id i ids) refl
        (provider-kept_record r)

  provider-updated_record :
      (i : ℕ) (r : Record) → (updated_record env ips i r).provider ≡ r.provider
  unfolding updated_record
  provider-updated_record i r =
      elim (outcome_record-cases env.show (env.call i) i (address ips r.provider) r) [
        | inr (e, answer, out) ↦
            ap (λ x. x.provider) out ∙ (unfold failed_record started_record in refl)
        | inl (new_ip, answer, out) ↦
            ap (λ x. x.provider) out ∙ (unfold succeeded_record started_record in refl)
      ]

  initial_step_total :
      (ids : List ℕ) (i : ℕ) (db : Database) (r : Record)
      → AreAddrs ips
      → IsSuffix r.provider.ipv6_suffix
      → initial_step env ips ids i db (some r) ≢ none
  unfolding initial_step set_initial_status
  initial_step_total ids i db r hi hs =
      let total = update_ip_total ips r.provider hi hs in
      let Runs = λ (o : Option (Database × List Error)). o ≢ none in
      if_either Runs (mem_id i ids || not (is_unset r.status)) (λ e. cc)
        (if_either Runs
          (not (is_valid (get_ip_matching_version ips.ip ips.ipv4 ips.ipv6 r.provider.ip_version)))
          (λ e. cc) (>>=-ne-none (update_ip ips r.provider) _ total (λ ip e k. cc)))

  initial_loop_step :
      (ids : List ℕ) (left i : ℕ) (db : Database)
      → initial_step env ips ids i db (get_elem? db.records i) ≢ none
      → ((a : Database × List Error)
          → initial_step env ips ids i db (get_elem? db.records i) ≡ some a
          → initial_loop env ips ids left (i + 1) a.0 ≢ none)
      → initial_loop env ips ids (suc left) i db ≢ none
  unfolding initial_loop
  initial_loop_step ids left i db first rest =
      >>=-ne-none (initial_step env ips ids i db (get_elem? db.records i)) _ first
        (λ a e. >>=-ne-none (initial_loop env ips ids left (i + 1) a.0) _ (rest a e) (λ b e' k. cc))

  pub HasSuffix-set :
      (rs : List Record) (i : ℕ) (r r' : Record)
      → All HasSuffix rs
      → get_elem? rs i ≡ some r
      → r'.provider ≡ r.provider
      → All HasSuffix (set rs i r')
  HasSuffix-set rs i r r' h at e =
      All-set HasSuffix rs i r' h
        (subst (λ p. IsSuffix p.ipv6_suffix) (sym e) (All_at HasSuffix rs i r h at))

  pub initial_loop_total :
      (ids : List ℕ) (left i : ℕ) (db : Database)
      → AreAddrs ips
      → All HasSuffix db.records
      → i + left ≡ length db.records
      → initial_loop env ips ids left i db ≢ none
  initial_loop_total ids zero i db hi hs size = unfold initial_loop in λ e. cc
  initial_loop_total ids (suc left) i db hi hs size =
      let (r, at) = get_elem?_of_lt db.records i (omega arith) in
      let step = initial_step_total ids i db r hi (All_at HasSuffix db.records i r hs at) in
      initial_loop_step ids left i db (rw at step) λ a e.
        let write = records-initial_step env ips ids i r db a.0 a.1 at (rw at at e) in
        initial_loop_total ids left (i + 1) a.0 hi
          (rw write (
            HasSuffix-set db.records i r (initial_record env ips ids i r) hs at
              (provider-initial_record ids i r)))
          (omega (arith, ap length write, length-set db.records i (initial_record env ips ids i r)))

  update_step_total :
      (i : ℕ) (w : World) (r : Record)
      → AreAddrs ips
      → IsSuffix r.provider.ipv6_suffix
      → ((ip : Addr) → (env.call i).panics ip ≡ false)
      → update_step env ips i w (some r) ≢ none
  unfolding update_step
  update_step_total i w r hi hs calm =
      >>=-ne-none (update_ip ips r.provider) _ (update_ip_total ips r.provider hi hs) λ ip e.
        >>=-ne-none (run_update env.show (env.call i) i ip w) _
          (run_update_total env.show (env.call i) i ip w (calm ip)) (λ a e' k. cc)

  update_loop_step :
      (i : ℕ) (ids : List ℕ) (w : World)
      → update_step env ips i w (get_elem? w.database.records i) ≢ none
      → ((a : World × List Error)
          → update_step env ips i w (get_elem? w.database.records i) ≡ some a
          → update_loop env ips ids a.0 ≢ none)
      → update_loop env ips (i ∷ ids) w ≢ none
  unfolding update_loop
  update_loop_step i ids w first rest =
      >>=-ne-none (update_step env ips i w (get_elem? w.database.records i)) _ first
        (λ a e. >>=-ne-none (update_loop env ips ids a.0) _ (rest a e) (λ b e' k. cc))

  pub update_loop_total :
      (ids : List ℕ) (w : World)
      → ((j : ℕ) (ip : Addr) → (env.call j).panics ip ≡ false)
      → AreAddrs ips
      → All HasSuffix w.database.records
      → ((j : ℕ) → mem_id j ids ≡ true → j < length w.database.records)
      → update_loop env ips ids w ≢ none
  update_loop_total [] w calm hi hs lt = unfold update_loop in λ e. cc
  update_loop_total (i ∷ ids) w calm hi hs lt =
      let (r, at) = get_elem?_of_lt w.database.records i (lt i (mem_id_head i ids)) in
      let step =
        update_step_total i w r hi (All_at HasSuffix w.database.records i r hs at) (calm i) in
      update_loop_step i ids w (rw at step) λ a e.
        let write = records-update_step env ips i r w a.0 a.1 at (rw at at e) in
        update_loop_total ids a.0 calm hi
          (rw write (
            HasSuffix-set w.database.records i r (updated_record env ips i r) hs at
              (provider-updated_record i r)))
          λ j m. omega (
            arith,
            lt j (mem_id_tail i ids j m),
            ap length write,
            length-set w.database.records i (updated_record env ips i r),
          )
