-- ===== src/Tests/Dyndns.antt =====
-- The DNS providers that answer by one request, at concrete replies.
use ddns_updater_beget.Common.{
  ℕ, ◌≡◌, ◌≢◌, set, get_elem?, refl, ◌∷◌, true, some, none, Bytes, codes, inl, inr, false, [], beq,
  if◌then◌else◌, arith, Error, ◌⊎◌,
}
use ddns_updater_beget.Net.{Addr, v6, is6, no_prefix}
use ddns_updater_beget.IpVersion.{ip4or6}
use ddns_updater_beget.Update.Decision.{should_update_record}
use ddns_updater_beget.Update.Updater.{whole_seconds}
use ddns_updater_beget.Update.Updater.Effect.{outcome_record}
use ddns_updater_beget.Providers.Client.{answered, exchanged}
use ddns_updater_beget.Providers.Errors.{passed_on}
use ddns_updater_beget.Providers.Settings.{Base, UserPassword}
use ddns_updater_beget.Providers.Any.{AnyProvider, Outside, noip, update_any, request_any}
use ddns_updater_beget.Providers.New.{Decoders, new_any}
use ddns_updater_beget.Providers.Confirm.{update_any-confirms}
use ddns_updater_beget.Providers.Abuse.{is_abuse, reports_abuse, update_any-is_abuse}
use ddns_updater_beget.Providers.Accepted.{is_accepted, update_any-is_accepted}
use ddns_updater_beget.Providers.Requests.{has_value, sends_address, request_any-has_value}
use ddns_updater_beget.Providers.Ready.{is_ready, new_any-is_ready}
use ddns_updater_beget.Providers.Updating.{
  call_with, status_of, grown_by, should_update_record-reports_abuse, history-update_any,
}
use ddns_updater_beget.Records.{Record}
use ddns_updater_beget.Update.Updater
use ddns_updater_beget.Providers.Custom.{Values, CustomProvider, get_value, interpret, update}
use ddns_updater_beget.Providers.Custom.Stale.{update-keeps_older}
use ddns_updater_beget.Tests.Data.{home, fresh, world, call_of, cooldown, inputs_of}

abbrev base : Base
base = record {
  domain = codes "example.com";
  owner = codes "a";
  ip_version = ip4or6;
  ipv6_suffix = no_prefix;
}

abbrev at_noip : AnyProvider
at_noip = noip (record { base = base; username = codes "user"; password = codes "secret" })

abbrev home_text : Bytes
home_text = codes "203.0.113.7"

-- Every request has the same reply.
abbrev replying : ℕ → Bytes → Outside
replying code body = record {
  show = λ a. home_text;
  parse = λ s. if beq s home_text then some home else none;
  client = λ q. answered code (inl body);
  decode = λ b. inl (record { errors = []; ip = [] });
  close = none;
}

update_any-is_abuse_example :
    is_abuse (update_any (replying 200 (codes "abuse")) at_noip home)
    ≡ reports_abuse at_noip (answered 200 (inl (codes "abuse")))
update_any-is_abuse_example = update_any-is_abuse (replying 200 (codes "abuse")) at_noip home

confirmed : update_any (replying 200 (codes "good 203.0.113.7")) at_noip home ≡ inl home
unfolding update_any
confirmed = refl

update_any-confirms_example : home ≡ home
update_any-confirms_example =
    update_any-confirms (replying 200 (codes "good 203.0.113.7")) at_noip home home confirmed

update_any-is_accepted_example :
    (code : ℕ) × (body : Bytes ⊎ Error) × ((replying 200 (codes "good 203.0.113.7")).client
        (request_any (λ a. home_text) at_noip home)
      ≡ answered code body)
    × (is_accepted at_noip code ≡ true)
update_any-is_accepted_example =
    update_any-is_accepted (replying 200 (codes "good 203.0.113.7")) at_noip home home confirmed

request_any-has_value_example :
    has_value home_text (request_any (λ a. home_text) at_noip home).query ≡ true
unfolding sends_address
request_any-has_value_example = request_any-has_value (λ a. home_text) at_noip home refl

abused : reports_abuse at_noip (answered 200 (inl (codes "abuse"))) ≡ true
unfolding reports_abuse
abused = refl

should_update_record-reports_abuse_example :
    should_update_record cooldown
      (inputs_of 0)
      (outcome_record
        (λ a. home_text)
        (call_with (replying 200 (codes "abuse")) at_noip (call_of 0))
        home
        (fresh (codes "a")))
      (record { ip = home; ipv4 = home; ipv6 = home })
    ≡ some false
unfolding whole_seconds
should_update_record-reports_abuse_example =
    should_update_record-reports_abuse (replying 200 (codes "abuse")) at_noip (λ a. home_text)
      (call_of 0) home (fresh (codes "a")) cooldown (inputs_of 0)
      (record { ip = home; ipv4 = home; ipv6 = home }) abused (omega arith)

abbrev good_reply : Outside
good_reply = replying 200 (codes "good 203.0.113.7")

history-update_any_example :
    let after =
      (Updater.update
        (λ a. home_text)
        (call_with good_reply at_noip (call_of 0))
        0
        home
        world).0.database.records in
    (r' : Record) × (after ≡ set world.database.records 0 r')
    × (get_elem? after 0 ≡ some r')
    × (r'.status ≡ status_of (update_any good_reply at_noip home))
    × (r'.history
        ≡ grown_by
            (call_of 0).finished
            home
            (update_any good_reply at_noip home)
            (fresh (codes "a")).history)
history-update_any_example =
    history-update_any good_reply at_noip (λ a. home_text) (call_of 0) home (fresh (codes "a")) 0
      world refl

abbrev unread : Error
unread = record { wrapped = []; text = codes "unexpected end of JSON input" }

-- Settings that are decoded for noip only.
abbrev decoders : Decoders UserPassword
decoders = record {
  allinkl_settings = λ raw. inr unread;
  changeip_settings = λ raw. inr unread;
  dd24_settings = λ raw. inr unread;
  ddnss_settings = λ raw. inr unread;
  desec_settings = λ raw. inr unread;
  dnsomatic_settings = λ raw. inr unread;
  duckdns_settings = λ raw. inr unread;
  dyn_settings = λ raw. inr unread;
  dynu_settings = λ raw. inr unread;
  dynv6_settings = λ raw. inr unread;
  easydns_settings = λ raw. inr unread;
  freedns_settings = λ raw. inr unread;
  goip_settings = λ raw. inr unread;
  he_settings = λ raw. inr unread;
  infomaniak_settings = λ raw. inr unread;
  inwx_settings = λ raw. inr unread;
  namecheap_settings = λ raw. inr unread;
  noip_settings = λ raw. inl raw;
  nowdns_settings = λ raw. inr unread;
  opendns_settings = λ raw. inr unread;
  selfhostde_settings = λ raw. inr unread;
  spdyn_settings = λ raw. inr unread;
  strato_settings = λ raw. inr unread;
  variomedia_settings = λ raw. inr unread;
  zoneedit_settings = λ raw. inr unread;
}

abbrev login : UserPassword
login = record { username = codes "user"; password = codes "secret" }

made_noip :
    new_any decoders (codes "noip") login (codes "example.com") (codes "a") ip4or6 no_prefix
    ≡ some (inl at_noip)
unfolding new_any
made_noip = refl

new_any-is_ready_example : is_ready at_noip ≡ true
new_any-is_ready_example =
    new_any-is_ready decoders (codes "noip") login (codes "example.com") (codes "a") ip4or6
      no_prefix at_noip made_noip

abbrev away : Addr
away = v6 (32 ∷ 1 ∷ 13 ∷ 184 ∷ 0 ∷ 0 ∷ 0 ∷ 0 ∷ 0 ∷ 0 ∷ 0 ∷ 0 ∷ 0 ∷ 0 ∷ 0 ∷ 7 ∷ []) []

abbrev at_custom : CustomProvider Values
at_custom = record {
  base = base;
  url = record {
    text = codes "https://dns.example/update";
    scheme = codes "https";
    hostname = codes "dns.example";
    raw_query = [];
  };
  ipv4_key = codes "myip";
  ipv6_key = codes "myip6";
  success_regex = record { pattern_text = codes "^good"; matches = λ s. true };
}

abbrev shown : Addr → Bytes
shown a = if is6 a then codes "2001:db8::7" else home_text

abbrev as_read : Values → Values ⊎ Error
as_read = inl

keys_apart : codes "myip" ≢ codes "myip6"
keys_apart h = cc

update-keeps_older_example :
    let first =
      (update as_read (λ vs. vs) shown (λ u. answered 200 (inl (codes "good"))) at_custom home).1 in
    let second =
      (update as_read (λ vs. vs) shown (λ u. answered 200 (inl (codes "good"))) first away).1 in
    (ws : Values) × ((update as_read
        (λ vs. vs)
        shown
        (λ u. answered 200 (inl (codes "good")))
        first
        away).0
      ≡ exchanged passed_on (answered 200 (inl (codes "good"))) (interpret second away))
    × (as_read second.url.raw_query ≡ inl ws)
    × (get_value (codes "myip") ws ≡ home_text ∷ [])
    × (get_value (codes "myip6") ws ≡ codes "2001:db8::7" ∷ [])
unfolding is6 get_value
update-keeps_older_example =
    update-keeps_older as_read (λ vs. vs) shown (λ u. answered 200 (inl (codes "good"))) at_custom
      home away [] (λ vs. (vs, refl, λ k. refl)) refl refl refl keys_apart
