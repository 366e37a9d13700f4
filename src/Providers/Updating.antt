-- ===== src/Providers/Updating.antt =====
-- The modelled providers called by Updater.Update of internal/update/update.go.
use ddns_updater_beget.Common.{
  ◌+◌, ◌<◌, ◌≡◌, refl, true, false, ◌⊎◌, inl, inr, ◌++◌, List, [], ◌∷◌, some, Error, ℕ, ap, set,
  get_elem?, get_elem?-set_self, lt_of_get_elem?, is_error, wraps, wraps-err_banned_abuse, Bytes,
  err_banned_abuse, arith, lt→ltb, ◌∙◌,
}
use ddns_updater_beget.Net.{Addr}
use ddns_updater_beget.Clock.{Time, Duration, hour, lt_duration-sub}
use ddns_updater_beget.Records.{Record, HistoryEvent, Status, success, failure}
use ddns_updater_beget.Update.Decision.{
  Inputs, PublicIps, should_update_record, is_within_ban_period,
}
use ddns_updater_beget.Update.Updater.{
  Call, whole_seconds, failed_record, started_record, succeeded_record, update, World,
}
use ddns_updater_beget.Update.Updater.Effect.{outcome_record, outcome_record-cases, records-update}
use ddns_updater_beget.Providers.Errors.{
  bare, detailed, caused, passed_on, to_error, Kind, banned_abuse, kind_sentinels,
}
use ddns_updater_beget.Providers.Client.{Outcome}
use ddns_updater_beget.Providers.Any.{AnyProvider, Outside, request_any, update_any}
use ddns_updater_beget.Providers.Confirm.{update_any-confirms}
use ddns_updater_beget.Providers.Abuse.{
  is_banned_abuse, is_abuse, reports_abuse, update_any-is_abuse,
}

-- An outcome as Update returns it.
unfoldable pub returned : Outcome → Addr ⊎ Error
unfolding to_error
returned (inl a) = inl a
returned (inr f) = inr (to_error f)

-- The call of Updater.Update whose provider is `p`.
unfoldable pub call_with : Outside → AnyProvider → Call → Call
unfolding returned
call_with o p c = record c { answer = λ ip. returned (update_any o p ip); panics = λ ip. false }

is_error-banned_abuse :
    (k : Kind) → is_banned_abuse k ≡ true → wraps (kind_sentinels k) err_banned_abuse ≡ true
unfolding is_banned_abuse kind_sentinels
is_error-banned_abuse banned_abuse h = wraps-err_banned_abuse []
is_error-banned_abuse _ h = cc

-- An error of an abuse is one that the updater takes for it.
IsBanError : Addr ⊎ Error → Type 0
IsBanError r = (e : Error) × (r ≡ inr e) × (is_error e err_banned_abuse ≡ true)

returned-IsBanError : (r : Outcome) → is_abuse r ≡ true → IsBanError (returned r)
unfolding is_abuse returned to_error is_error IsBanError
returned-IsBanError (inl a) h = cc
returned-IsBanError (inr (bare k)) h = (_, refl, is_error-banned_abuse k h)
returned-IsBanError (inr (detailed k t)) h = (_, refl, is_error-banned_abuse k h)
returned-IsBanError (inr (caused t e)) h = cc
returned-IsBanError (inr (passed_on e)) h = cc

banned_after :
    (show : Addr → Bytes) (c : Call) (ip : Addr) (r : Record) (e : Error)
    → c.answer ip ≡ inr e
    → is_error e err_banned_abuse ≡ true
    → (outcome_record show c ip r).last_ban ≡ some (whole_seconds c.finished)
unfolding failed_record
banned_after show c ip r e answered banned = elim (outcome_record-cases show c 0 ip r) [
  | inl (new_ip, a, out) ↦ cc
  | inr (e', a, out) ↦ let same : e' ≡ e = cc in rw (out, same, banned) refl
]

is_within_ban_period-some :
    (now start : Time) (r : Record)
    → r.last_ban ≡ some start
    → now < start + hour
    → is_within_ban_period now r ≡ true
unfolding is_within_ban_period
is_within_ban_period-some now start r h early =
    rw (h, lt_duration-sub now start hour (omega arith)) (lt→ltb now (start + hour) early)

refused_within_ban :
    (cooldown : Duration) (i : Inputs) (r : Record) (ips : PublicIps)
    → is_within_ban_period i.now r ≡ true
    → should_update_record cooldown i r ips ≡ some false
unfolding should_update_record
refused_within_ban cooldown i r ips h = ground arith

-- The history after an update to the address.
unfoldable pub grown_by : Time → Addr → Outcome → List HistoryEvent → List HistoryEvent
grown_by finished ip (inl a) history = history ++ record { ip = ip; time = finished } ∷ []
grown_by finished ip (inr f) history = history

unfoldable pub status_of : Outcome → Status
status_of (inl a) = success
status_of (inr f) = failure

outcome_status :
    (show : Addr → Bytes) (c : Call) (ip : Addr) (r : Record) (x : Outcome)
    → c.answer ip ≡ returned x
    → (outcome_record show c ip r).status ≡ status_of x
unfolding outcome_record returned status_of succeeded_record failed_record
outcome_status show c ip r (inl a) answered = rw (answered, outcome_record) refl
outcome_status show c ip r (inr f) answered = rw (answered, outcome_record) refl

outcome_history :
    (show : Addr → Bytes) (c : Call) (ip : Addr) (r : Record) (x : Outcome)
    → c.answer ip ≡ returned x
    → ((a : Addr) → x ≡ inl a → a ≡ ip)
    → (outcome_record show c ip r).history ≡ grown_by c.finished ip x r.history
unfolding outcome_record returned grown_by succeeded_record failed_record started_record
outcome_history show c ip r (inl a) answered same = rw (answered, outcome_record, same a refl) refl
outcome_history show c ip r (inr f) answered same = rw (answered, outcome_record) refl

module _ (o : Outside) (p : AnyProvider) (show : Addr → Bytes) (c : Call) (ip : Addr)
    (r : Record) where
  -- A record whose provider reports an abuse is banned from the second in which its update ended on.
  pub last_ban-reports_abuse :
      reports_abuse p (o.client (request_any o.show p ip)) ≡ true
      → (outcome_record show (call_with o p c) ip r).last_ban ≡ some (whole_seconds c.finished)
  unfolding call_with IsBanError
  last_ban-reports_abuse h =
      let (e, answered, banned) =
        returned-IsBanError (update_any o p ip) (update_any-is_abuse o p ip ∙ h) in
      banned_after show (call_with o p c) ip r e answered banned

  -- For an hour from the whole second in which an update ended whose provider reported an abuse, the
  -- record that this update made is not updated again, whatever the public addresses are and whatever
  -- the resolver answers.
  pub should_update_record-reports_abuse :
      (cooldown : Duration) (i : Inputs) (ips : PublicIps)
      → reports_abuse p (o.client (request_any o.show p ip)) ≡ true
      → i.now < whole_seconds c.finished + hour
      → should_update_record cooldown i (outcome_record show (call_with o p c) ip r) ips
        ≡ some false
  should_update_record-reports_abuse cooldown i ips h early =
      refused_within_ban cooldown i (outcome_record show (call_with o p c) ip r) ips (
        is_within_ban_period-some i.now (whole_seconds c.finished)
          (outcome_record show (call_with o p c) ip r) (last_ban-reports_abuse h) early)

  -- An update of a record by a modelled provider writes a record back in its place: its status tells
  -- whether the provider succeeded, and its history grows by an event with the address that the update
  -- was for, if so, and stays as it is otherwise.
  pub history-update_any :
      (id : ℕ) (w : World)
      → get_elem? w.database.records id ≡ some r
      → (r' : Record) × ((update show (call_with o p c) id ip w).0.database.records
          ≡ set w.database.records id r')
        × (get_elem? (update show (call_with o p c) id ip w).0.database.records id ≡ some r')
        × (r'.status ≡ status_of (update_any o p ip))
        × (r'.history ≡ grown_by c.finished ip (update_any o p ip) r.history)
  unfolding call_with
  history-update_any id w at =
      let written = records-update show (call_with o p c) id ip w r at in
      let r' = outcome_record show (call_with o p c) ip r in
      (
        r',
        written,
        ap (λ rs. get_elem? rs id) written
            ∙ get_elem?-set_self w.database.records id r'
                (lt_of_get_elem? w.database.records id at),
        outcome_status show (call_with o p c) ip r (update_any o p ip) refl,
        outcome_history show (call_with o p c) ip r (update_any o p ip) refl
            (λ a. update_any-confirms o p ip a),
      )
