-- ===== src/Update/Cycle/Updates.antt =====
-- The second loop of a cycle, record by record.
use ddns_updater_beget.Common.{
  ℕ, ◌≡◌, ◌≢◌, ap, ◌∙◌, false, List, [], ◌∷◌, Option, none, some, Error, get_elem?, set, Bytes,
  get_elem?-set_self, get_elem?-set_ne, lt_of_get_elem?, inl, inr, Bool-cases, Option-cases,
  if◌then◌else◌, arith, ◌==◌, >>=-eq-some,
}
use ddns_updater_beget.Net.{Addr}
use ddns_updater_beget.Records.{Record}
use ddns_updater_beget.Update.Decision.{PublicIps, update_ip}
use ddns_updater_beget.Update.Updater.{Call, World, update, run_update}
use ddns_updater_beget.Update.Updater.Effect.{records-update}
use ddns_updater_beget.Update.Cycle.{Env, mem_id, update_step, update_loop}
use ddns_updater_beget.Update.Cycle.Spec.{updated_record, address, map_option, IsNodup}

run_update-eq_some :
    (show : Addr → Bytes) (c : Call) (id : ℕ) (ip : Addr) (w : World) (a : World × Option Error)
    → run_update show c id ip w ≡ some a
    → update show c id ip w ≡ a
unfolding run_update
run_update-eq_some show c id ip w a h = ground arith

module _ (env : Env) (ips : PublicIps) where
  pub records-update_step :
      (id : ℕ) (r : Record) (w w' : World) (errs : List Error)
      → get_elem? w.database.records id ≡ some r
      → update_step env ips id w (some r) ≡ some (w', errs)
      → w'.database.records ≡ set w.database.records id (updated_record env ips id r)
  unfolding update_step updated_record address
  records-update_step id r w w' errs at h =
      let (ip, found, done) = >>=-eq-some (update_ip ips r.provider) _ h in
      let (a, ran, end) = >>=-eq-some (run_update env.show (env.call id) id ip w) _ done in
      let answered = run_update-eq_some env.show (env.call id) id ip w a ran in
      let e : (update env.show (env.call id) id ip w).0 ≡ w' = cc in
      rw (← e, found) (records-update env.show (env.call id) id ip w r at)

  missing_panics :
      (id : ℕ) (w : World) (a : World × List Error) → update_step env ips id w none ≢ some a
  unfolding update_step
  missing_panics id w a h = cc

  -- A round, and the rounds after it.
  update_loop-cons :
      (id : ℕ) (ids : List ℕ) (w w' : World) (errs : List Error)
      → update_loop env ips (id ∷ ids) w ≡ some (w', errs)
      → (mid : World) × (r : Record) × (errs₁ : List Error) × (errs₂ : List Error) × (get_elem?
            w.database.records id
          ≡ some r)
        × (update_step env ips id w (some r) ≡ some (mid, errs₁))
        × (update_loop env ips ids mid ≡ some (w', errs₂))
  unfolding update_loop
  update_loop-cons id ids w w' errs h =
      let (a, first, rest) =
        >>=-eq-some (update_step env ips id w (get_elem? w.database.records id)) _ h in
      let (b, second, done) = >>=-eq-some (update_loop env ips ids a.0) _ rest in
      let e : b.0 ≡ w' = cc in
      let (r, at) = present id w a first in
      (a.0, r, a.1, b.1, at, rw at at first, second ∙ ap (λ x. some (x, b.1)) e)
    where
      present :
          (id : ℕ) (w : World) (a : World × List Error)
          → update_step env ips id w (get_elem? w.database.records id) ≡ some a
          → (r : Record) × (get_elem? w.database.records id ≡ some r)
      present id w a h = elim (Option-cases (get_elem? w.database.records id)) [
        | inr found ↦ found
        | inl missing ↦ absurd (missing_panics id w a (rw missing at h))
      ]

  get_elem?-updated :
      (rs : List Record) (i j : ℕ) (r : Record)
      → get_elem? rs i ≡ some r
      → get_elem? (set rs i (updated_record env ips i r)) j ≡ (
          if j == i then map_option (updated_record env ips j) (get_elem? rs j) else get_elem? rs j)
  get_elem?-updated rs i j r at = elim (Bool-cases (j == i)) [
    | inl same ↦
        let e : i ≡ j = ground arith in
        rw (same, ← e, at) (get_elem?-set_self rs i _ (lt_of_get_elem? rs i at))
    | inr other ↦ let ne : i ≢ j = ground arith in rw other (get_elem?-set_ne rs _ ne)
  ]

  combine :
      (id : ℕ) (ids : List ℕ) (j : ℕ) (after mid before : Option Record)
      → mem_id id ids ≡ false
      → after ≡ (if mem_id j ids then map_option (updated_record env ips j) mid else mid)
      → mid ≡ (if j == id then map_option (updated_record env ips j) before else before)
      → after
        ≡ (if mem_id j (id ∷ ids) then map_option (updated_record env ips j) before else before)
  unfolding mem_id
  combine id ids j after mid before new second first = elim (Bool-cases (j == id)) [
    | inl same ↦
        let e : j ≡ id = ground arith in let new' : mem_id j ids ≡ false = rw e new in ground arith
    | inr other ↦ ground arith
  ]

  -- The entries of the ids, each of which is there once, have been updated.
  pub get_elem?-update_loop :
      (ids : List ℕ) (j : ℕ) (w w' : World) (errs : List Error)
      → IsNodup ids
      → update_loop env ips ids w ≡ some (w', errs)
      → get_elem? w'.database.records j ≡ (
          if mem_id j ids
          then map_option (updated_record env ips j) (get_elem? w.database.records j)
          else get_elem? w.database.records j)
  get_elem?-update_loop [] j w w' errs once h =
      let e : w.database.records ≡ w'.database.records = unfold update_loop in cc in
      unfold mem_id in rw (← e)
  get_elem?-update_loop (id ∷ ids) j w w' errs once h =
      let (mid, r, errs₁, errs₂, at, first, rest) = update_loop-cons id ids w w' errs h in
      let write = records-update_step id r w mid errs₁ at first in
      let ih = get_elem?-update_loop ids j mid w' errs₂ once.1 rest in
      let here = get_elem?-updated w.database.records id j r at in
      let mid_at = ap (λ rs. get_elem? rs j) write ∙ here in
      combine id ids j (get_elem? w'.database.records j) (get_elem? mid.database.records j)
        (get_elem? w.database.records j) once.0 ih mid_at
