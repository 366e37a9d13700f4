-- ===== src/Tests/Data.antt =====
-- The records and the answers that the tests share.
use ddns_updater_beget.Common.{
  ℕ, zero, suc, ◌*◌, ◌≡◌, refl, false, List, [], ◌∷◌, ◌++◌, none, some, Bytes, codes, inl, arith,
}
use ddns_updater_beget.Net.{Addr, v4, no_prefix, IsAddr}
use ddns_updater_beget.IpVersion.{ip4or6}
use ddns_updater_beget.Clock.{Time, Duration, pos, second}
use ddns_updater_beget.Records.{Record, Provider, unset, failure}
use ddns_updater_beget.Persistence.{Store, absent, written}
use ddns_updater_beget.Update.Lookup.{Answer, IsAnswer}
use ddns_updater_beget.Update.Decision.{Inputs}
use ddns_updater_beget.Update.Updater.{Call, World}
use ddns_updater_beget.Update.Cycle.{Env, mem_id}
use ddns_updater_beget.Update.Cycle.Spec.{IsOrder, IsNodup}

abbrev pub home : Addr
home = v4 (203 ∷ 0 ∷ 113 ∷ 7 ∷ [])

abbrev pub old_home : Addr
old_home = v4 (198 ∷ 51 ∷ 100 ∷ 1 ∷ [])

abbrev pub provider : Bytes → Provider
provider owner = record {
  domain = codes "example.com";
  owner = owner;
  domain_name = owner ++ codes ".example.com";
  ip_version = ip4or6;
  ipv6_suffix = no_prefix;
  proxied = false;
}

abbrev pub fresh : Bytes → Record
fresh owner = record {
  provider = provider owner;
  history = [];
  status = unset;
  message = [];
  time = 0;
  last_ban = none;
}

abbrev pub start_time : Time
start_time = 1_000_000 * second

abbrev pub banned : Record
banned = record (fresh (codes "banned")) { status = failure; last_ban = some start_time }

abbrev pub store : Store
store = record { entries = []; file = absent }

abbrev pub world : World
world = record {
  database = record {
    records = fresh (codes "a") ∷ fresh (codes "b") ∷ fresh (codes "c") ∷ banned ∷ [];
    store = store;
  };
  notified = [];
}

abbrev pub answer_of : ℕ → Answer
answer_of (suc (suc zero)) = inl (some (203 ∷ 0 ∷ 113 ∷ 7 ∷ []) ∷ [])
answer_of _ = inl (some (198 ∷ 51 ∷ 100 ∷ 1 ∷ []) ∷ [])

abbrev pub inputs_of : ℕ → Inputs
inputs_of id = record { now = start_time; answer = λ n. answer_of id; cancelled = false }

abbrev pub call_of : ℕ → Call
call_of id = record {
  started = start_time;
  finished = start_time;
  answer = λ ip. inl ip;
  panics = λ ip. false;
  write = written;
}

abbrev pub swap : List ℕ → List ℕ
swap (i ∷ j ∷ []) = j ∷ i ∷ []
swap [] = []
swap (i ∷ []) = i ∷ []
swap (i ∷ j ∷ k ∷ ids) = i ∷ j ∷ k ∷ ids

abbrev pub env : Env
env = record {
  show = λ ip. codes "203.0.113.7";
  fetch = λ v n. (home, none);
  inputs = inputs_of;
  now = start_time;
  call = call_of;
  write = λ id. written;
  order = λ ids. ids;
}

abbrev pub cooldown : Duration
cooldown = pos (300 * second)

pub IsOrder-same : IsOrder (λ ids. ids)
IsOrder-same = record { once = λ ids h. h; same = λ ids i. refl }

swap_once : (ids : List ℕ) → IsNodup ids → IsNodup (swap ids)
swap_once [] h = h
swap_once (i ∷ []) h = h
swap_once (i ∷ j ∷ []) h = unfold mem_id in ground arith
swap_once (i ∷ j ∷ k ∷ ids) h = h

swap_same : (ids : List ℕ) (i : ℕ) → mem_id i (swap ids) ≡ mem_id i ids
swap_same [] i = refl
swap_same (j ∷ []) i = refl
swap_same (j ∷ k ∷ []) i = unfold mem_id in ground arith
swap_same (i ∷ j ∷ k ∷ ids) l = refl

pub IsOrder-swap : IsOrder swap
IsOrder-swap = record { once = swap_once; same = swap_same }

pub IsAddr-home : IsAddr home
IsAddr-home = (refl, (omega arith, (omega arith, (omega arith, (omega arith, tt)))))

pub answers : (id : ℕ) → IsAnswer (answer_of id)
answers zero = (inl refl, tt)
answers (suc zero) = (inl refl, tt)
answers (suc (suc zero)) = (inl refl, tt)
answers (suc (suc (suc id))) = (inl refl, tt)
