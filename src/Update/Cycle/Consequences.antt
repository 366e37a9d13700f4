-- ===== src/Update/Cycle/Consequences.antt =====
-- What the specification of a cycle says of every record.
use ddns_updater_beget.Common.{
  ℕ, ◌≡◌, ◌≢◌, ◌⊎◌, inl, inr, refl, sym, ap, ◌∙◌, Bool, true, false, List, [], ◌∷◌, ◌++◌, Option,
  none, some, get_elem?, arith, ext_get_elem?, if_either, not,
}
use ddns_updater_beget.Clock.{Duration}
use ddns_updater_beget.Records.{Record, HistoryEvent, unset, updating, is_unset}
use ddns_updater_beget.Update.Decision.{
  PublicIps, Inputs, should_update_record, is_within_cooldown, is_within_ban_period,
}
use ddns_updater_beget.Update.Updater.{World, started_record, failed_record, succeeded_record}
use ddns_updater_beget.Update.Updater.Effect.{outcome_record, outcome_record-cases}
use ddns_updater_beget.Update.Cycle.{
  Env, Report, update_necessary, get_new_ips, initially_failed, initially_up_to_date,
}
use ddns_updater_beget.Update.Cycle.Spec.{
  IsOrder, settled_record, settle, by_decision, updated_record, kept_record, address, map_option,
}
use ddns_updater_beget.Update.Cycle.Refinement.{
  fetched_ips, update_necessary-settle, update_necessary-settled_record,
}

-- The final records do not depend on the order in which Go iterates over the map of ids: a cycle
-- with another order, if both end without a panic, leaves the same records.
pub update_necessary_order :
    (cooldown : Duration) (env : Env) (order : List ℕ → List ℕ) (w : World) (rep rep' : Report)
    → IsOrder env.order
    → IsOrder order
    → update_necessary cooldown env w ≡ some rep
    → update_necessary cooldown (record env { order = order }) w ≡ some rep'
    → rep.world.database.records ≡ rep'.world.database.records
unfolding settled_record get_new_ips updated_record kept_record
update_necessary_order cooldown env order w rep rep' o o' h h' =
    ext_get_elem? rep.world.database.records rep'.world.database.records λ j.
      update_necessary-settled_record cooldown env w rep j o h
      ∙ same j
      ∙ sym (update_necessary-settled_record cooldown (record env { order = order }) w rep' j o' h')
  where
    by_order :
        (d : Option Bool) (j : ℕ) (r : Record)
        → by_decision d env (fetched_ips env w) j r
          ≡ by_decision d (record env { order = order }) (fetched_ips env w) j r
    by_order none j r = refl
    by_order (some true) j r = refl
    by_order (some false) j r = refl

    by_option :
        (j : ℕ) (o : Option Record)
        → map_option (settled_record cooldown env (fetched_ips env w) j) o
          ≡ map_option
              (settled_record cooldown
                (record env { order = order })
                (fetched_ips (record env { order = order }) w)
                j)
              o
    by_option j none = refl
    by_option j (some r) =
        ap some (by_order (should_update_record cooldown (env.inputs j) r (fetched_ips env w)) j r)

    same :
        (j : ℕ)
        → map_option
            (settled_record cooldown env (fetched_ips env w) j)
            (get_elem? w.database.records j)
          ≡ map_option
              (settled_record cooldown
                (record env { order = order })
                (fetched_ips (record env { order = order }) w)
                j)
              (get_elem? w.database.records j)
    same j = by_option j (get_elem? w.database.records j)

-- The status that an update or a first cycle leaves.
settle_status :
    (b : Bool) (env : Env) (ips : PublicIps) (j : ℕ) (r : Record)
    → r.status ≢ updating
    → ((settle b env ips j r).status ≢ updating) × ((settle b env ips j r).status ≢ unset)
unfolding settle updated_record kept_record outcome_record initially_failed initially_up_to_date
    is_unset
settle_status true env ips j r h = ground arith
settle_status false env ips j r h = ground arith

-- After a cycle that ends without a panic, no record is left without a status or in the middle of an
-- update, unless it stood in the middle of one before.
pub update_necessary_statuses :
    (cooldown : Duration) (env : Env) (w : World) (rep : Report) (j : ℕ) (r : Record)
    → IsOrder env.order
    → update_necessary cooldown env w ≡ some rep
    → get_elem? w.database.records j ≡ some r
    → r.status ≢ updating
    → (r' : Record) × (get_elem? rep.world.database.records j ≡ some r')
      × (r'.status ≢ updating)
      × (r'.status ≢ unset)
update_necessary_statuses cooldown env w rep j r o h at ne =
    let (b, chosen, after) = update_necessary-settle cooldown env w rep j r o h at in
    let (not_updating, not_unset) = settle_status b env (fetched_ips env w) j r ne in
    (settle b env (fetched_ips env w) j r, after, not_updating, not_unset)

history-updated_record :
    (env : Env) (ips : PublicIps) (j : ℕ) (r : Record)
    → ((updated_record env ips j r).history ≡ r.history)
      ⊎ ((e : HistoryEvent) × ((updated_record env ips j r).history ≡ r.history ++ e ∷ []))
unfolding updated_record
history-updated_record env ips j r =
    elim (outcome_record-cases env.show (env.call j) j (address ips r.provider) r) [
      | inr (e, answer, out) ↦
          inl (ap (λ x. x.history) out ∙ (unfold failed_record started_record in refl))
      | inl (new_ip, answer, out) ↦ inr (
        record { ip = new_ip; time = (env.call j).finished },
        ap (λ x. x.history) out ∙ (unfold succeeded_record started_record in refl),
      )
    ]

-- At most one event more.
abbrev pub Extends : List HistoryEvent → List HistoryEvent → Type 0
Extends old new = (new ≡ old) ⊎ ((e : HistoryEvent) × (new ≡ old ++ e ∷ []))

history-kept_record :
    (env : Env) (ips : PublicIps) (r : Record) → Extends r.history (kept_record env ips r).history
unfolding kept_record initially_failed initially_up_to_date
history-kept_record env ips r =
    if_either (λ (x : Record). Extends r.history x.history) (not (is_unset r.status)) (inl refl)
      (if_either (λ (x : Record). Extends r.history x.history) _ (inl refl)
        (if_either (Extends r.history) _ (inl refl) (inr (_, refl))))

-- A cycle that ends without a panic keeps each record's history and adds one event at most, at its
-- end.
pub update_necessary_history :
    (cooldown : Duration) (env : Env) (w : World) (rep : Report) (j : ℕ) (r : Record)
    → IsOrder env.order
    → update_necessary cooldown env w ≡ some rep
    → get_elem? w.database.records j ≡ some r
    → (r' : Record) × (get_elem? rep.world.database.records j ≡ some r')
      × Extends r.history r'.history
update_necessary_history cooldown env w rep j r o h at =
    let (b, chosen, after) = update_necessary-settle cooldown env w rep j r o h at in
    (settle b env (fetched_ips env w) j r, after, extends b)
  where
    extends : (b : Bool) → Extends r.history (settle b env (fetched_ips env w) j r).history
    extends true = unfold settle in history-updated_record env (fetched_ips env w) j r
    extends false = unfold settle in history-kept_record env (fetched_ips env w) r

-- A record that has a status, and at its decision is within the cooldown after its last success or
-- within the hour after its last ban, is left as it is by a cycle that ends without a panic.
pub update_necessary_quiet :
    (cooldown : Duration) (env : Env) (w : World) (rep : Report) (j : ℕ) (r : Record)
    → IsOrder env.order
    → update_necessary cooldown env w ≡ some rep
    → get_elem? w.database.records j ≡ some r
    → r.status ≢ unset
    → (is_within_cooldown (env.inputs j).now cooldown r ≡ true)
      ⊎ (is_within_ban_period (env.inputs j).now r ≡ true)
    → get_elem? rep.world.database.records j ≡ some r
update_necessary_quiet cooldown env w rep j r o h at set early =
    let (b, chosen, after) = update_necessary-settle cooldown env w rep j r o h at in
    let refused : should_update_record cooldown (env.inputs j) r (fetched_ips env w) ≡ some false =
      refuse (env.inputs j) (fetched_ips env w) early in
    let b_false : b ≡ false = cc in after ∙ ap some (rw b_false (kept (fetched_ips env w)))
  where
    refuse :
        (i : Inputs) (ips : PublicIps)
        → (is_within_cooldown i.now cooldown r ≡ true) ⊎ (is_within_ban_period i.now r ≡ true)
        → should_update_record cooldown i r ips ≡ some false
    refuse i ips early = unfold should_update_record in ground arith

    kept : (ips : PublicIps) → settle false env ips j r ≡ r
    kept ips = unfold settle kept_record is_unset in ground arith
