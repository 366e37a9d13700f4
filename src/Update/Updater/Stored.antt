-- ===== src/Update/Updater/Stored.antt =====
-- What an update of a record stores in the file.
use ddns_updater_beget.Common.{
  ℕ, ◌<◌, ◌≡◌, refl, ap, ◌∙◌, ◌⊎◌, inl, inr, [], ◌∷◌, some, Bytes, Error, is_error,
  err_banned_abuse, get_elem?, length, length-append, arith, Bool-cases,
}
use ddns_updater_beget.Net.{Addr}
use ddns_updater_beget.Records.{Record}
use ddns_updater_beget.Records.History.{history_queries}
use ddns_updater_beget.Persistence.{Store, store_new_ip}
use ddns_updater_beget.Database.{update_record_quiet, update_record_longer}
use ddns_updater_beget.Update.Updater.{
  Call, World, started_record, failed_record, succeeded_record, fail, succeed, attempt, update, put,
  notify,
}
use ddns_updater_beget.Update.Updater.Effect.{started, update_started, marked}

-- The store after an update, by the provider's answer.
unfoldable pub stored_by : Call → Record → Store → Addr ⊎ Error → Store
stored_by c r s (inr e) = s
stored_by c r s (inl new_ip) =
    (store_new_ip c.write r.provider.domain r.provider.owner new_ip c.finished s).0

module _ (show : Addr → Bytes) (c : Call) (id : ℕ) (ip : Addr) where
  store-fail :
      (e : Error) (r : Record) (w : World)
      → get_elem? w.database.records id ≡ some r
      → (fail c id e r w).0.database.store ≡ w.database.store
  unfolding fail notify failed_record
  store-fail e r w h = elim (Bool-cases (is_error e err_banned_abuse)) [
    | inl banned ↦
        rw banned (ap (λ x. x.0.store) (update_record_quiet c.write id _ w.database h refl))
    | inr other ↦
        rw other (ap (λ x. x.0.store) (update_record_quiet c.write id _ w.database h refl))
  ]

  store-succeed :
      (new_ip : Addr) (r : Record) (w : World)
      → get_elem? w.database.records id ≡ some r
      → (succeed show c id ip new_ip r w).0.database.store
        ≡ stored_by c r w.database.store (inl new_ip)
  unfolding succeed put notify stored_by
  store-succeed new_ip r w h =
      let r' = succeeded_record show c ip new_ip r in
      let grown : length r.history < length r'.history =
        unfold succeeded_record in
        omega (arith, length-append r.history (record { ip = new_ip; time = c.finished } ∷ [])) in
      let (current, time, previous) =
        history_queries r.history (record { ip = new_ip; time = c.finished }) in
      update_record_longer c.write id r' w.database h grown
      ∙ (unfold succeeded_record in rw (current, time))

  store-attempt :
      (r : Record) (w : World) (a : Addr ⊎ Error)
      → get_elem? w.database.records id ≡ some r
      → (attempt show c id ip r w a).0.database.store ≡ stored_by c r w.database.store a
  unfolding attempt
  store-attempt r w (inl new_ip) h = store-succeed new_ip r w h
  store-attempt r w (inr e) h = store-fail e r w h ∙ (unfold stored_by in refl)

  stored_by-started :
      (r : Record) (s : Store) (a : Addr ⊎ Error)
      → stored_by c (started_record c r) s a ≡ stored_by c r s a
  unfolding stored_by started_record
  stored_by-started r s (inl new_ip) = refl
  stored_by-started r s (inr e) = refl

  -- An update whose provider succeeds calls StoreNewIP once, for the domain and owner of the record,
  -- with the address that the provider returned; one whose provider fails stores nothing.
  pub store-update :
      (w : World) (r : Record)
      → get_elem? w.database.records id ≡ some r
      → (update show c id ip w).0.database.store ≡ stored_by c r w.database.store (c.answer ip)
  unfolding started
  store-update w r h = rw (update_started show c id ip w r h) (
      store-attempt (started_record c r) (started show c id ip r w) (c.answer ip)
        (marked show c id ip w r h)
      ∙ stored_by-started r w.database.store (c.answer ip))
