-- ===== src/Tests/Providers.antt =====
-- The Beget provider and the health check, at concrete inputs.
use ddns_updater_beget.Common.{
  ◌≡◌, ◌≢◌, ◌↔◌, refl, true, Option, none, some, Bytes, codes, [], ◌∷◌, inl, beq,
}
use ddns_updater_beget.Net.{Addr}
use ddns_updater_beget.Clock.{pos}
use ddns_updater_beget.Beget.{
  Beget, GetData, ChangeRequest, RawMap, Api, answered, update_beget, set_key, get_key,
  indicates_success, accept,
}
use ddns_updater_beget.Beget.Laws.{
  update_beget_keeps, HasNoRecords, update_beget_panics_iff, update_beget_ignores_status,
}
use ddns_updater_beget.Beget.Updating.{call_beget, run_update-HasNoRecords}
use ddns_updater_beget.Update.Updater.{run_update}
use ddns_updater_beget.Health.{is_healthy, AreHealthy, is_healthy_iff}
use ddns_updater_beget.Tests.Data.{home, fresh, call_of, world, answer_of, answers}

abbrev beget : Beget
beget = record {
  domain = codes "example.com";
  target = codes "home.example.com";
  owner = codes "home";
  login = codes "user";
  password = codes "secret";
  priority = pos 10;
}

abbrev old_records : RawMap
old_records = (codes "A", codes "old") ∷ (codes "MX", codes "mail") ∷ []

abbrev data_with : Option RawMap → GetData
data_with records = record {
  status = codes "success";
  answer_status = codes "success";
  fqdn = codes "home.example.com";
  records = records;
}

abbrev api_with : Option RawMap → Api
api_with records = record {
  marshal_get = none;
  get_data = answered 200 (codes "data");
  decode_get = λ b. inl (data_with records);
  marshal_entry = λ priority value. inl value;
  marshal_change = none;
  change_records = λ request. answered 500 (codes "done");
  decode_change = λ b. inl (record { status = codes "success"; answer_status = codes "success" });
}

abbrev show_home : Addr → Bytes
show_home a = codes "203.0.113.7"

abbrev request : ChangeRequest
request = record {
  fqdn = codes "home.example.com";
  records = set_key (codes "A") (codes "203.0.113.7") old_records;
}

sent :
    update_beget show_home home (api_with (some old_records)) beget ≡ some (some request, inl home)
unfolding update_beget set_key beq
sent = refl

update_beget_keeps_example :
    (body : Bytes) × (d : GetData) × (rs : RawMap) × (entry : Bytes) × ((api_with
        (some old_records)).get_data
      ≡ answered 200 body)
    × ((api_with (some old_records)).decode_get body ≡ inl d)
    × (d.fqdn ≡ beget.target)
    × (d.records ≡ some rs)
    × ((api_with (some old_records)).marshal_entry beget.priority (show_home home) ≡ inl entry)
    × (request.fqdn ≡ beget.target)
    × (get_key (codes "A") request.records ≡ some entry)
    × ((key : Bytes) → key ≢ codes "A" → get_key key request.records ≡ get_key key rs)
update_beget_keeps_example =
    update_beget_keeps show_home home (api_with (some old_records)) beget request (inl home) sent

good : (records : Option RawMap) → indicates_success beget (data_with records) ≡ true
unfolding indicates_success
good records = refl

panics : update_beget show_home home (api_with none) beget ≡ none
panics =
    (update_beget_panics_iff show_home home (api_with none) beget).1
      (codes "data", data_with none, codes "203.0.113.7", refl, refl, refl, good none, refl, refl)

update_beget_ignores_status_example :
    update_beget show_home home (api_with (some old_records)) beget
    ≡ some (
      some request,
      accept home
          (codes "done")
          (inl (record { status = codes "success"; answer_status = codes "success" })),
    )
update_beget_ignores_status_example =
    update_beget_ignores_status show_home home (api_with (some old_records)) beget (codes "data")
      (codes "203.0.113.7") (codes "done") 500 (data_with (some old_records)) old_records refl refl
      refl (good (some old_records)) refl refl refl refl

is_healthy_iff_example :
    (is_healthy answer_of world.database.records ≡ some none)
    ↔ AreHealthy answer_of world.database.records 0
is_healthy_iff_example = is_healthy_iff answer_of world.database.records answers

run_update-HasNoRecords_example :
    (run_update show_home (call_beget show_home (api_with none) beget (call_of 0)) 0 home world
      ≡ none)
    ↔ HasNoRecords show_home home (api_with none) beget
run_update-HasNoRecords_example =
    run_update-HasNoRecords show_home (api_with none) beget (call_of 0) 0 home world
      (fresh (codes "a")) refl
