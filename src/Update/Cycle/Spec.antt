-- ===== src/Update/Cycle/Spec.antt =====
-- What a cycle makes of one record, with no loop, no map and no other record: the specification of
-- updateNecessary.
use ddns_updater_beget.Common.{
  ℕ, ◌≡◌, Bool, true, false, not, List, [], ◌∷◌, Option, none, some, if◌then◌else◌,
}
use ddns_updater_beget.Net.{Addr, invalid, is_valid}
use ddns_updater_beget.Clock.{Duration}
use ddns_updater_beget.Records.{Record, Provider, is_unset}
use ddns_updater_beget.Update.Decision.{
  PublicIps, get_ip_matching_version, should_update_record, update_ip,
}
use ddns_updater_beget.Update.Updater.Effect.{outcome_record}
use ddns_updater_beget.Update.Cycle.{Env, mem_id, initially_up_to_date, initially_failed}

unfoldable pub or_invalid : Option Addr → Addr
or_invalid none = invalid
or_invalid (some a) = a

-- The address that the record should have.
unfoldable pub address : PublicIps → Provider → Addr
unfolding or_invalid
address ips p = or_invalid (update_ip ips p)

-- A record that is updated.
unfoldable pub updated_record : Env → PublicIps → ℕ → Record → Record
updated_record env ips i r = outcome_record env.show (env.call i) (address ips r.provider) r

-- A record that is not updated gets its initial status if it has none.
unfoldable pub kept_record : Env → PublicIps → Record → Record
kept_record env ips r =
    if not (is_unset r.status)
    then r
    else if not (is_valid (get_ip_matching_version ips.ip ips.ipv4 ips.ipv6 r.provider.ip_version))
    then initially_failed env.now r
    else initially_up_to_date (address ips r.provider) env.now r

unfoldable pub settle : Bool → Env → PublicIps → ℕ → Record → Record
settle true env ips i r = updated_record env ips i r
settle false env ips i r = kept_record env ips r

unfoldable pub by_decision : Option Bool → Env → PublicIps → ℕ → Record → Record
by_decision none env ips i r = r
by_decision (some b) env ips i r = settle b env ips i r

-- The record with id `i` after the cycle.
unfoldable pub settled_record : Duration → Env → PublicIps → ℕ → Record → Record
unfolding settle by_decision
settled_record cooldown env ips i r =
    by_decision (should_update_record cooldown (env.inputs i) r ips) env ips i r

abbrev pub map_option {ℓ κ} : {A : Type ℓ} {B : Type κ} → (A → B) → Option A → Option B
map_option f none = none
map_option f (some a) = some (f a)

-- A list with no id twice.
abbrev pub IsNodup : List ℕ → Type 0
IsNodup [] = Unit
IsNodup (i ∷ ids) = (mem_id i ids ≡ false) × IsNodup ids

-- Go's iteration over a map visits each key once, in some order.
pub record IsOrder (order : List ℕ → List ℕ) : Type 0 where
  pub once : (ids : List ℕ) → IsNodup ids → IsNodup (order ids)
  pub same : (ids : List ℕ) (i : ℕ) → mem_id i (order ids) ≡ mem_id i ids
