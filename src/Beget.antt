-- ===== src/Beget.antt =====
-- internal/provider/providers/beget/provider.go: Provider.Update and apiCall.
pub mod Laws
pub mod Updating
use ddns_updater_beget.Common.{
  ℕ, Bool, true, false, ◌&&◌, ◌⊎◌, inl, inr, List, [], ◌∷◌, ◌++◌, Option, none, some, Bytes, codes,
  itoa, Error, beq, prefixed, ◌==◌, if◌then◌else◌,
}
use ddns_updater_beget.Net.{Addr}
use ddns_updater_beget.Clock.{ℤ}
use ddns_updater_beget.PublicIp.Http.{to_single_line}

-- The type Provider.
pub record Beget : Type 0 where
  pub domain : Bytes
  pub target : Bytes
  pub owner : Bytes
  pub login : Bytes
  pub password : Bytes
  pub priority : ℤ

-- A map of raw JSON values, each key once.
abbrev pub RawMap : Type 0
RawMap = List (Bytes × Bytes)

-- getDataResponse; no `records` is the nil map.
pub record GetData : Type 0 where
  pub status : Bytes
  pub answer_status : Bytes
  pub fqdn : Bytes
  pub records : Option RawMap

-- The input of changeRecords.
pub record ChangeRequest : Type 0 where
  pub fqdn : Bytes
  pub records : RawMap

pub record ChangeResult : Type 0 where
  pub status : Bytes
  pub answer_status : Bytes

-- How a request ends.
pub data Called : Type 0 where
  create_failed do_failed read_failed : Error → Called
  answered : ℕ → Bytes → Called

unfoldable pub plain : Bytes → Error
plain text = record { wrapped = []; text = text }

-- apiCall returns a body and an error, both.
unfoldable pub api_call : Bytes → Called → Bytes × Option Error
unfolding plain
api_call path (create_failed e) =
    ([], some (prefixed (path ++ codes ": Failed creating HTTP request") e))
api_call path (do_failed e) =
    ([], some (prefixed (path ++ codes ": Failed performing HTTP request") e))
api_call path (read_failed e) =
    ([], some (prefixed (path ++ codes ": Failed reading response body") e))
api_call path (answered code body) =
    if code == 200
    then (body, none)
    else (body, some (plain (path ++ (codes ": HTTP status is " ++ itoa code))))

-- What encoding/json and the API answer during an update.
pub record Api : Type 0 where
  pub marshal_get : Option Error
  pub get_data : Called
  pub decode_get : Bytes → GetData ⊎ Error
  pub marshal_entry : ℤ → Bytes → Bytes ⊎ Error
  pub marshal_change : Option Error
  pub change_records : ChangeRequest → Called
  pub decode_change : Bytes → ChangeResult ⊎ Error

-- m[key] = value
unfoldable pub set_key : Bytes → Bytes → RawMap → RawMap
unfolding beq
set_key key value [] = (key, value) ∷ []
set_key key value ((k, v) ∷ m) =
    let rest = set_key key value m in if beq k key then (k, value) ∷ m else (k, v) ∷ rest

-- m[key]
unfoldable pub get_key : Bytes → RawMap → Option Bytes
unfolding beq
get_key key [] = none
get_key key ((k, v) ∷ m) = let rest = get_key key m in if beq k key then some v else rest

-- What an update sends to changeRecords, if it does, and what it returns.
abbrev pub Updated : Type 0
Updated = Option ChangeRequest × (Addr ⊎ Error)

refuse : Error → Option Updated
refuse e = some (none, inr e)

is_success : Bytes → Bytes → Bool
is_success s t = beq s (codes "success") && beq t (codes "success")

-- The end of Update, with the body that changeRecords returned.
unfoldable pub accept : Addr → Bytes → ChangeResult ⊎ Error → Addr ⊎ Error
unfolding is_success plain to_single_line
accept ip body (inr e) = inr (prefixed (codes "Failed unmarshalling changeRecords response") e)
accept ip body (inl r) =
    if is_success r.status r.answer_status
    then inl ip
    else inr
        (plain (codes "changeRequest response doesn't indicate success: " ++ to_single_line body))

-- The call of changeRecords: its error is overwritten by that of the next line.
change : Addr → Api → ChangeRequest → Option Updated
unfolding accept api_call
change ip api request =
    let (body, unread) = api_call (codes "/api/dns/changeRecords") (api.change_records request) in
    some (some request, accept ip body (api.decode_change body))

send : Addr → Api → ChangeRequest → Option Error → Option Updated
unfolding refuse change
send ip api request (some e) = refuse (prefixed (codes "Couldn't marshal json") e)
send ip api request none = change ip api request

-- The assignment into the map; `none` is a panic, that of a nil map.
put_entry : Addr → Api → Beget → Option RawMap → Bytes ⊎ Error → Option Updated
unfolding send refuse set_key
put_entry ip api p records (inr e) = refuse (prefixed (codes "Couldn't marshal new A entry JSON") e)
put_entry ip api p none (inl entry) = none
put_entry ip api p (some records) (inl entry) =
    send ip api (record { fqdn = p.target; records = set_key (codes "A") entry records })
      api.marshal_change

unfoldable pub indicates_success : Beget → GetData → Bool
unfolding is_success beq
indicates_success p d = is_success d.status d.answer_status && beq d.fqdn p.target

with_data : (Addr → Bytes) → Addr → Api → Beget → GetData ⊎ Error → Option Updated
unfolding put_entry refuse plain indicates_success
with_data show ip api p (inr e) =
    refuse (prefixed (codes "Failed unmarshalling getData response") e)
with_data show ip api p (inl d) =
    if indicates_success p d
    then put_entry ip api p d.records (api.marshal_entry p.priority (show ip))
    else refuse (plain (codes "getData response doesn't indicate success"))

with_body : (Addr → Bytes) → Addr → Api → Beget → Bytes × Option Error → Option Updated
unfolding with_data refuse
with_body show ip api p (body, some e) = refuse (prefixed (codes "Calling getData failed") e)
with_body show ip api p (body, none) = with_data show ip api p (api.decode_get body)

with_request : (Addr → Bytes) → Addr → Api → Beget → Option Error → Option Updated
unfolding with_body refuse api_call
with_request show ip api p (some e) = refuse (prefixed (codes "Couldn't marshal getData request") e)
with_request show ip api p none =
    with_body show ip api p (api_call (codes "api/dns/getData") api.get_data)

-- Provider.Update; `show` is Addr.String, and `none` is a panic.
unfoldable pub update_beget : (Addr → Bytes) → Addr → Api → Beget → Option Updated
unfolding with_request
update_beget show ip api p = with_request show ip api p api.marshal_get
