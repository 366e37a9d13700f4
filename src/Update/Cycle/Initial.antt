-- ===== src/Update/Cycle/Initial.antt =====
-- The first loop of a cycle, record by record.
use ddns_updater_beget.Common.{
  ℕ, zero, suc, ◌+◌, ◌≡◌, ◌≢◌, refl, ap, ◌∙◌, true, false, List, [], ◌∷◌, some, Error, length,
  get_elem?, set, length-set, get_elem?-set_self, get_elem?-set_ne, lt_of_get_elem?, inl, inr,
  Bool-cases, if◌then◌else◌, arith, ◌==◌, >>=-eq-some, get_elem?_of_le, get_elem?_of_lt, leb,
}
use ddns_updater_beget.Records.{Record, is_unset}
use ddns_updater_beget.Database.{Database, select_found, records-update_record}
use ddns_updater_beget.Update.Decision.{PublicIps, get_ip_matching_version, update_ip}
use ddns_updater_beget.Update.Cycle.{
  Env, mem_id, change_record, set_initial_status, initial_step, initial_loop, initially_failed,
  initially_up_to_date,
}
use ddns_updater_beget.Update.Cycle.Spec.{kept_record, address, or_invalid, map_option}

module _ (env : Env) (ips : PublicIps) (ids : List ℕ) where
  -- What the loop makes of the record with id `i`.
  unfoldable pub initial_record : ℕ → Record → Record
  initial_record i r = if mem_id i ids then r else kept_record env ips r

  records-change_record :
      (i : ℕ) (f : Record → Record) (db : Database) (r : Record)
      → get_elem? db.records i ≡ some r
      → (change_record (env.write i) i f db).0.records ≡ set db.records i (f r)
  unfolding change_record
  records-change_record i f db r h =
      rw (select_found i db h) (records-update_record (env.write i) i (f r) db h)

  set_same : (rs : List Record) (i : ℕ) (r : Record) → get_elem? rs i ≡ some r → set rs i r ≡ rs
  set_same [] i r h = refl
  set_same (x ∷ rs) zero r h = cc
  set_same (x ∷ rs) (suc i) r h = ap (◌∷◌ x) (set_same rs i r h)

  records-set_initial_status :
      (i : ℕ) (r : Record) (db db' : Database) (errs : List Error)
      → get_elem? db.records i ≡ some r
      → is_unset r.status ≡ true
      → set_initial_status env i
          (get_ip_matching_version ips.ip ips.ipv4 ips.ipv6 r.provider.ip_version)
          (update_ip ips r.provider)
          db
        ≡ some (db', errs)
      → db'.records ≡ set db.records i (kept_record env ips r)
  unfolding set_initial_status kept_record address
  records-set_initial_status i r db db' errs at unset h = ground (
    arith,
    records-change_record i (initially_failed env.now) db r at,
    records-change_record i (initially_up_to_date (or_invalid (update_ip ips r.provider)) env.now)
        db r at,
  )

  kept_record_set : (r : Record) → is_unset r.status ≡ false → kept_record env ips r ≡ r
  unfolding kept_record
  kept_record_set r h = rw h

  pub records-initial_step :
      (i : ℕ) (r : Record) (db db' : Database) (errs : List Error)
      → get_elem? db.records i ≡ some r
      → initial_step env ips ids i db (some r) ≡ some (db', errs)
      → db'.records ≡ set db.records i (initial_record i r)
  unfolding initial_step initial_record
  records-initial_step i r db db' errs at h = ground (
    arith,
    set_same db.records i r at,
    kept_record_set r,
    records-set_initial_status i r db db' errs at,
  )

  -- The entry at an index after one write.
  get_elem?-write :
      (rs : List Record) (i j : ℕ) (r : Record)
      → get_elem? rs i ≡ some r
      → get_elem? (set rs i (initial_record i r)) j
        ≡ (if i == j then map_option (initial_record j) (get_elem? rs j) else get_elem? rs j)
  get_elem?-write rs i j r at = elim (Bool-cases (i == j)) [
    | inl same ↦
        let e : i ≡ j = ground arith in
        rw (same, ← e, at) (get_elem?-set_self rs i _ (lt_of_get_elem? rs i at))
    | inr other ↦ let ne : i ≢ j = ground arith in rw other (get_elem?-set_ne rs _ ne)
  ]

  -- A round, and the rounds after it.
  pub initial_loop-suc :
      (left i : ℕ) (db db' : Database) (errs : List Error)
      → initial_loop env ips ids (suc left) i db ≡ some (db', errs)
      → (mid : Database) × (errs₁ : List Error) × (errs₂ : List Error) × (initial_step env ips ids i
            db
            (get_elem? db.records i)
          ≡ some (mid, errs₁))
        × (initial_loop env ips ids left (i + 1) mid ≡ some (db', errs₂))
  unfolding initial_loop
  initial_loop-suc left i db db' errs h =
      let (a, first, rest) =
        >>=-eq-some (initial_step env ips ids i db (get_elem? db.records i)) _ h in
      let (b, second, done) = >>=-eq-some (initial_loop env ips ids left (i + 1) a.0) _ rest in
      let e : b.0 ≡ db' = cc in (a.0, a.1, b.1, first, rw (← e) second)

  -- After `left` rounds from index `i` the entries from `i` on have been visited.
  pub get_elem?-initial_loop :
      (left i j : ℕ) (db db' : Database) (errs : List Error)
      → i + left ≡ length db.records
      → initial_loop env ips ids left i db ≡ some (db', errs)
      → get_elem? db'.records j ≡ (
          if leb i j
          then map_option (initial_record j) (get_elem? db.records j)
          else get_elem? db.records j)
  get_elem?-initial_loop zero i j db db' errs size h =
      let e : db.records ≡ db'.records = unfold initial_loop in cc in
      rw (← e) (ground (arith, get_elem?_of_le db.records j))
  get_elem?-initial_loop (suc left) i j db db' errs size h =
      let (mid, errs₁, errs₂, first, rest) = initial_loop-suc left i db db' errs h in
      let (r, at) = get_elem?_of_lt db.records i (omega arith) in
      let write = records-initial_step i r db mid errs₁ at (rw at at first) in
      let size' : i + 1 + left ≡ length mid.records =
        omega (arith, ap length write, length-set db.records i (initial_record i r)) in
      let ih = get_elem?-initial_loop left (i + 1) j mid db' errs₂ size' rest in
      let here = get_elem?-write db.records i j r at in
      let mid_at : get_elem? mid.records j ≡ (
          if i == j
          then map_option (initial_record j) (get_elem? db.records j)
          else get_elem? db.records j) =
        ap (λ rs. get_elem? rs j) write ∙ here in
      ground arith
