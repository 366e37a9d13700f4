-- ===== src/Update/Cycle/Refinement.antt =====
-- The cycle against its specification: updateNecessary makes of each record what Spec says.
use ddns_updater_beget.Common.{
  ℕ, zero, suc, ◌+◌, ◌<◌, ◌≡◌, refl, sym, ap, ◌∙◌, Bool, true, false, List, [], ◌∷◌, Option, none,
  some, Error, length, get_elem?, inl, inr, Bool-cases, if◌then◌else◌, arith, leb, >>=-eq-some,
}
use ddns_updater_beget.Clock.{Duration}
use ddns_updater_beget.Records.{Record}
use ddns_updater_beget.Database.{Database}
use ddns_updater_beget.Update.Decision.{PublicIps, should_update_record, do_ip_version}
use ddns_updater_beget.Update.Updater.{World}
use ddns_updater_beget.Update.Cycle.{
  Env, Report, mem_id, record_ids_from, initial_loop, update_loop, update_necessary, get_new_ips,
}
use ddns_updater_beget.Update.Cycle.Spec.{
  settled_record, settle, updated_record, map_option, IsNodup, IsOrder,
}
use ddns_updater_beget.Update.Cycle.Initial.{initial_record, get_elem?-initial_loop}
use ddns_updater_beget.Update.Cycle.Updates.{get_elem?-update_loop}

module _ (cooldown : Duration) (env : Env) (ips : PublicIps) where
  pub record_ids_from-cons :
      (r : Record) (rs : List Record) (i : ℕ) (ids : List ℕ)
      → record_ids_from cooldown env ips (r ∷ rs) i ≡ some ids
      → (chosen : Bool) × (later : List ℕ) × (should_update_record cooldown (env.inputs i) r ips
          ≡ some chosen)
        × (record_ids_from cooldown env ips rs (i + 1) ≡ some later)
        × (ids ≡ (if chosen then i ∷ later else later))
  unfolding record_ids_from
  record_ids_from-cons r rs i ids h =
      let (b, first, rest) = >>=-eq-some (should_update_record cooldown (env.inputs i) r ips) _ h in
      let (later, second, done) =
        >>=-eq-some (record_ids_from cooldown env ips rs (i + 1)) _ rest in
      (b, later, first, second, cc)

  -- The ids are those of the records from `i` on.
  record_ids_bound :
      (rs : List Record) (i j : ℕ) (ids : List ℕ)
      → record_ids_from cooldown env ips rs i ≡ some ids
      → j < i
      → mem_id j ids ≡ false
  record_ids_bound [] i j ids h lt =
      let e : [] ≡ ids = unfold record_ids_from in cc in rw (← e) (unfold mem_id in refl)
  record_ids_bound (r ∷ rs) i j ids h lt =
      let (b, later, first, rest, e) = record_ids_from-cons r rs i ids h in
      let ih = record_ids_bound rs (i + 1) j later rest (omega arith) in
      rw e (bound b i j later lt ih)
    where
      bound :
          (b : Bool) (i j : ℕ) (later : List ℕ)
          → j < i
          → mem_id j later ≡ false
          → mem_id j (if b then i ∷ later else later) ≡ false
      bound true i j later lt h = unfold mem_id in ground arith
      bound false i j later lt h = h

  pub record_ids_IsNodup :
      (rs : List Record) (i : ℕ) (ids : List ℕ)
      → record_ids_from cooldown env ips rs i ≡ some ids
      → IsNodup ids
  record_ids_IsNodup [] i ids h = let e : [] ≡ ids = unfold record_ids_from in cc in rw (← e) tt
  record_ids_IsNodup (r ∷ rs) i ids h =
      let (b, later, first, rest, e) = record_ids_from-cons r rs i ids h in
      let ih = record_ids_IsNodup rs (i + 1) later rest in
      let new = record_ids_bound rs (i + 1) i later rest (omega arith) in
      rw e (both b i later new ih)
    where
      both :
          (b : Bool) (i : ℕ) (later : List ℕ)
          → mem_id i later ≡ false
          → IsNodup later
          → IsNodup (if b then i ∷ later else later)
      both true i later new h = (new, h)
      both false i later new h = h

  -- An id is among them exactly if its record is to be updated.
  record_ids_mem :
      (rs : List Record) (i k : ℕ) (ids : List ℕ) (r : Record)
      → record_ids_from cooldown env ips rs i ≡ some ids
      → get_elem? rs k ≡ some r
      → should_update_record cooldown (env.inputs (i + k)) r ips ≡ some (mem_id (i + k) ids)
  record_ids_mem [] i k ids r h at = cc
  record_ids_mem (x ∷ rs) i zero ids r h at =
      let (b, later, first, rest, e) = record_ids_from-cons x rs i ids h in
      let new = record_ids_bound rs (i + 1) i later rest (omega arith) in
      let here : i + 0 ≡ i = omega arith in
      let same : x ≡ r = cc in rw (here, e, ← same) (first ∙ ap some (chosen b i later new))
    where
      chosen :
          (b : Bool) (i : ℕ) (later : List ℕ)
          → mem_id i later ≡ false
          → b ≡ mem_id i (if b then i ∷ later else later)
      chosen true i later new = unfold mem_id in ground arith
      chosen false i later new = sym new
  record_ids_mem (x ∷ rs) i (suc k) ids r h at =
      let (b, later, first, rest, e) = record_ids_from-cons x rs i ids h in
      let ih = record_ids_mem rs (i + 1) k later r rest at in
      let shift : i + 1 + k ≡ i + suc k = omega arith in
      rw e (rw shift at ih ∙ ap some (other b i k later))
    where
      other :
          (b : Bool) (i k : ℕ) (later : List ℕ)
          → mem_id (i + suc k) later ≡ mem_id (i + suc k) (if b then i ∷ later else later)
      other true i k later = unfold mem_id in ground arith
      other false i k later = refl

  -- The two loops in a row, at one record.
  settle_both :
      (j : ℕ) (ids order : List ℕ) (before mid after : Option Record)
      → mem_id j order ≡ mem_id j ids
      → mid ≡ map_option (initial_record env ips ids j) before
      → after ≡ (if mem_id j order then map_option (updated_record env ips j) mid else mid)
      → ((r : Record)
          → before ≡ some r
          → should_update_record cooldown (env.inputs j) r ips ≡ some (mem_id j ids))
      → after ≡ map_option (settled_record cooldown env ips j) before
  unfolding initial_record settled_record
  settle_both j ids order none mid after same first second chosen = ground arith
  settle_both j ids order (some r) mid after same first second chosen =
      let c = chosen r refl in
      elim (Bool-cases (mem_id j ids)) [
        | inl is_in ↦ rw (c, is_in) (ground arith)
        | inr out ↦ rw (c, out) (ground arith)
      ]

-- The public addresses of the cycle.
abbrev pub fetched_ips : Env → World → PublicIps
fetched_ips env w = (get_new_ips env (do_ip_version w.database.records)).0

module _ (cooldown : Duration) (env : Env) (w : World) (rep : Report) where
  update_necessary_parts :
      update_necessary cooldown env w ≡ some rep
      → (ids : List ℕ) × (db : Database) × (errs₁ : List Error) × (errs₂ : List Error)
        × (record_ids_from cooldown env (fetched_ips env w) w.database.records 0 ≡ some ids)
        × (initial_loop env (fetched_ips env w) ids (length w.database.records) 0 w.database
            ≡ some (db, errs₁))
        × (update_loop env (fetched_ips env w) (env.order ids) (record w { database = db })
            ≡ some (rep.world, errs₂))
  unfolding update_necessary
  update_necessary_parts h =
      let ips = fetched_ips env w in
      let (ids, first, loops) =
        >>=-eq-some (record_ids_from cooldown env (fetched_ips env w) w.database.records 0) _ h in
      let (a, second, rest) =
        >>=-eq-some
          (initial_loop env (fetched_ips env w) ids (length w.database.records) 0 w.database) _
          loops in
      let (b, third, done) =
        >>=-eq-some
          (update_loop env (fetched_ips env w) (env.order ids) (record w { database = a.0 })) _
          rest in
      let e : b.0 ≡ rep.world = cc in
      (ids, a.0, a.1, b.1, first, second, third ∙ ap (λ x. some (x, b.1)) e)

  -- A cycle that ends without a panic leaves at each id the record that its specification makes of
  -- the record there, whatever the order in which Go iterates over the map of ids, and adds none.
  pub update_necessary-settled_record :
      (j : ℕ)
      → IsOrder env.order
      → update_necessary cooldown env w ≡ some rep
      → get_elem? rep.world.database.records j
        ≡ map_option
            (settled_record cooldown env (fetched_ips env w) j)
            (get_elem? w.database.records j)
  update_necessary-settled_record j order h =
      let ips = fetched_ips env w in
      let (ids, db, errs₁, errs₂, first, second, third) = update_necessary_parts h in
      let once = record_ids_IsNodup cooldown env ips w.database.records 0 ids first in
      let start : 0 + length w.database.records ≡ length w.database.records = omega arith in
      let all : leb 0 j ≡ true = ground arith in
      let initial =
        get_elem?-initial_loop env ips ids (length w.database.records) 0 j w.database db errs₁ start
          second in
      let here : 0 + j ≡ j = omega arith in
      settle_both cooldown env ips j ids (env.order ids) (get_elem? w.database.records j)
        (get_elem? db.records j) (get_elem? rep.world.database.records j) (order.same ids j)
        (rw all at initial)
        (get_elem?-update_loop env ips (env.order ids) j (record w { database = db }) rep.world
          errs₂ (order.once ids once) third)
        (λ r at. rw here at (record_ids_mem cooldown env ips w.database.records 0 j ids r first at))

  -- At a record that is there, with the decision that was taken.
  pub update_necessary-settle :
      (j : ℕ) (r : Record)
      → IsOrder env.order
      → update_necessary cooldown env w ≡ some rep
      → get_elem? w.database.records j ≡ some r
      → (b : Bool) × (should_update_record cooldown (env.inputs j) r (fetched_ips env w) ≡ some b)
        × (get_elem? rep.world.database.records j ≡ some (settle b env (fetched_ips env w) j r))
  update_necessary-settle j r order h at =
      let (ids, db, errs₁, errs₂, first, second, third) = update_necessary_parts h in
      let here : 0 + j ≡ j = omega arith in
      let chosen =
        record_ids_mem cooldown env (fetched_ips env w) w.database.records 0 j ids r first at in
      (
        mem_id j ids,
        rw here at chosen,
        update_necessary-settled_record j order h
            ∙ ap (map_option (settled_record cooldown env (fetched_ips env w) j)) at
            ∙ ap some (settled_by j r (mem_id j ids) (rw here at chosen)),
      )
    where
      settled_by :
          (j : ℕ) (r : Record) (b : Bool)
          → should_update_record cooldown (env.inputs j) r (fetched_ips env w) ≡ some b
          → settled_record cooldown env (fetched_ips env w) j r
            ≡ settle b env (fetched_ips env w) j r
      settled_by j r b e = unfold settled_record in rw e
