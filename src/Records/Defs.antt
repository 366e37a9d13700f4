-- ===== src/Records/Defs.antt =====
-- Records and their histories.
use ddns_updater_beget.Common.{
  ℕ, zero, suc, ◌-◌, Bool, List, [], ◌∷◌, Option, none, some, Bytes, length, get_elem?, last?, leb,
  if◌then◌else◌,
}
use ddns_updater_beget.Net.{Addr, invalid, Prefix}
use ddns_updater_beget.IpVersion.{IpVersion}
use ddns_updater_beget.Clock.{Time}

-- The methods of the interface Provider but Update, whose answer is an input of the updater's model.
pub record Provider : Type 0 where
  pub domain : Bytes
  pub owner : Bytes
  pub domain_name : Bytes
  pub ip_version : IpVersion
  pub ipv6_suffix : Prefix
  pub proxied : Bool

pub record HistoryEvent : Type 0 where
  pub ip : Addr
  pub time : Time

-- Oldest first.
abbrev pub History : Type 0
History = List HistoryEvent

pub data Status : Type 0 where
  failure success up_to_date updating unset : Status

pub record Record : Type 0 where
  pub provider : Provider
  pub history : History
  pub status : Status
  pub message : Bytes
  pub time : Time
  pub last_ban : Option Time

-- New
unfoldable pub new_record : Provider → List HistoryEvent → Record
new_record p events = record {
  provider = p;
  history = events;
  status = unset;
  message = [];
  time = 0;
  last_ban = none;
}

unfoldable pub event_ip : Option HistoryEvent → Addr
event_ip none = invalid
event_ip (some e) = e.ip

event_time : Option HistoryEvent → Time
event_time none = 0
event_time (some e) = e.time

-- GetCurrentIP: the last event's address, or the zero Addr.
unfoldable pub get_current_ip : History → Addr
unfolding event_ip
get_current_ip h = event_ip (last? h)

-- GetSuccessTime: the last event's time, or the zero time.
unfoldable pub get_success_time : History → Time
unfolding event_time
get_success_time h = event_time (last? h)

-- The loop of GetPreviousIPs, over the indices below `n` from the highest down.
unfoldable pub previous_from : History → ℕ → List Addr
unfolding event_ip
previous_from h zero = []
previous_from h (suc n) = event_ip (get_elem? h n) ∷ previous_from h n

-- GetPreviousIPs
unfoldable pub get_previous_ips : History → List Addr
unfolding previous_from
get_previous_ips h = if leb (length h) 1 then [] else previous_from h (length h - 1)

unfoldable pub is_unset : Status → Bool
is_unset unset = Bool.true
is_unset _ = Bool.false

unfoldable pub is_failure : Status → Bool
is_failure failure = Bool.true
is_failure _ = Bool.false
