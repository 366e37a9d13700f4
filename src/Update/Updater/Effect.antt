-- ===== src/Update/Updater/Effect.antt =====
-- What an update leaves of its record, on each branch, and of everything else.
use ddns_updater_beget.Common.{
  ℕ, ◌≡◌, ◌≢◌, ◌⊎◌, inl, inr, refl, ◌∙◌, none, some, Bytes, Error, get_elem?, set,
  get_elem?-set_self, set-set, Bool-cases, is_error, err_banned_abuse, lt_of_get_elem?,
}
use ddns_updater_beget.Net.{Addr}
use ddns_updater_beget.Records.{Record}
use ddns_updater_beget.Database.{select_found, records-update_record, update_record_quiet}
use ddns_updater_beget.Update.Updater.{
  Call, World, started_record, failed_record, succeeded_record, fail, succeed, attempt, after_start,
  with_record, update,
}

-- What an update makes of a record: a function of the record and of what the outside answers.
unfoldable pub outcome_record : (Addr → Bytes) → Call → Addr → Record → Record
unfolding started_record failed_record succeeded_record
outcome_record show c ip r = elim (c.answer ip) [
  | inl new_ip ↦ succeeded_record show c ip new_ip (started_record c r)
  | inr e ↦ failed_record c e (started_record c r)
]

module _ (show : Addr → Bytes) (c : Call) (id : ℕ) (ip : Addr) where
  unfoldable pub started : Record → World → World
  started r w = record w {
    database = record w.database { records = set w.database.records id (started_record c r) };
  }

  -- Once the record is found it is marked, without an error, and then the provider is called.
  pub update_started :
      (w : World) (r : Record)
      → get_elem? w.database.records id ≡ some r
      → update show c id ip w
        ≡ attempt show c id ip (started_record c r) (started r w) (c.answer ip)
  unfolding update with_record after_start started
  update_started w r h = rw (select_found id w.database h) (
      rw (
        update_record_quiet c.write id (started_record c r) w.database h
          (unfold started_record in refl)))

  pub marked :
      (w : World) (r : Record)
      → get_elem? w.database.records id ≡ some r
      → get_elem? (started r w).database.records id ≡ some (started_record c r)
  unfolding started
  marked w r h =
      get_elem?-set_self w.database.records id (started_record c r)
        (lt_of_get_elem? w.database.records id h)

  records-fail :
      (e : Error) (r : Record) (w : World)
      → get_elem? w.database.records id ≡ some r
      → (fail c id e r w).0.database.records ≡ set w.database.records id (failed_record c e r)
  unfolding fail
  records-fail e r w h = elim (Bool-cases (is_error e err_banned_abuse)) [
    | inl banned ↦ rw banned (records-update_record c.write id _ w.database h)
    | inr other ↦ rw other (records-update_record c.write id _ w.database h)
  ]

  records-succeed :
      (new_ip : Addr) (r : Record) (w : World)
      → get_elem? w.database.records id ≡ some r
      → (succeed show c id ip new_ip r w).0.database.records
        ≡ set w.database.records id (succeeded_record show c ip new_ip r)
  unfolding succeed
  records-succeed new_ip r w h =
      records-update_record c.write id (succeeded_record show c ip new_ip r) w.database h

  records-attempt :
      (r : Record) (w : World) (a : Addr ⊎ Error)
      → get_elem? w.database.records id ≡ some r
      → (attempt show c id ip r w a).0.database.records
        ≡ set w.database.records id (elim a as (λ x. Record) [
          | inl new_ip ↦ succeeded_record show c ip new_ip r
          | inr e ↦ failed_record c e r
        ])
  unfolding attempt
  records-attempt r w (inl new_ip) h = records-succeed new_ip r w h
  records-attempt r w (inr e) h = records-fail e r w h

  -- An update replaces the record by its outcome and leaves the others as they are, also when the
  -- database file cannot be written.
  pub records-update :
      (w : World) (r : Record)
      → get_elem? w.database.records id ≡ some r
      → (update show c id ip w).0.database.records
        ≡ set w.database.records id (outcome_record show c ip r)
  unfolding outcome_record
  records-update w r h = rw (update_started w r h) (
      records-attempt (started_record c r) (started r w) (c.answer ip) (marked w r h)
      ∙ (unfold started in set-set w.database.records id (started_record c r) _))

  -- The outcome, on each branch.
  error-attempt :
      (r : Record) (w : World) (a : Addr ⊎ Error) (e : Error)
      → a ≡ inr e
      → (attempt show c id ip r w a).1 ≢ none
  unfolding attempt fail
  error-attempt r w (inl new_ip) e h = cc
  error-attempt r w (inr e') e h = λ k. cc

  -- A provider's error is never lost: the update returns an error.
  pub update-ne-none_of_err :
      (w : World) (r : Record) (e : Error)
      → get_elem? w.database.records id ≡ some r
      → c.answer ip ≡ inr e
      → (update show c id ip w).1 ≢ none
  update-ne-none_of_err w r e h a =
      rw (update_started w r h) (error-attempt (started_record c r) (started r w) (c.answer ip) e a)

  -- The two outcomes of an update.
  pub outcome_record-cases :
      (r : Record)
      → ((new_ip : Addr) × (c.answer ip ≡ inl new_ip)
          × (outcome_record show c ip r ≡ succeeded_record show c ip new_ip (started_record c r)))
        ⊎ ((e : Error) × (c.answer ip ≡ inr e)
            × (outcome_record show c ip r ≡ failed_record c e (started_record c r)))
  unfolding outcome_record
  outcome_record-cases r = by_answer (c.answer ip) refl
    where
      by_answer :
          (a : Addr ⊎ Error)
          → c.answer ip ≡ a
          → ((new_ip : Addr) × (c.answer ip ≡ inl new_ip)
              × (outcome_record show c ip r
                  ≡ succeeded_record show c ip new_ip (started_record c r)))
            ⊎ ((e : Error) × (c.answer ip ≡ inr e)
                × (outcome_record show c ip r ≡ failed_record c e (started_record c r)))
      by_answer (inl new_ip) h = inl (new_ip, h, rw (h, outcome_record))
      by_answer (inr e) h = inr (e, h, rw (h, outcome_record))
