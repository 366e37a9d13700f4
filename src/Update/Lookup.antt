-- ===== src/Update/Lookup.antt =====
-- lookupIPs and lookupIPsResilient of internal/update/service.go: the addresses that a record's name
-- resolves to.
use ddns_updater_beget.Common.{
  ℕ, zero, suc, ◌+◌, ◌<◌, ◌≡◌, ◌≢◌, ◌⊎◌, inl, inr, refl, List, [], ◌∷◌, Option, none, some, Bytes,
  Error, arith, if◌then◌else◌, ◌∙◌, All, length, some_of_ne_none,
}
use ddns_updater_beget.Net.{Addr, invalid, v4, v6, NetIp, to4, to16, is6}

-- What resolver.LookupIP returns.
abbrev pub Answer : Type 0
Answer = List NetIp ⊎ Error

-- netip.AddrFrom4 and AddrFrom16 of a net.IP. `none` is a panic: the conversion to [16]byte of a
-- slice that To16 does not know.
from16 : Option Bytes → Option Addr
from16 none = none
from16 (some bs) = some (v6 bs [])

from_bytes : Bytes → Option Bytes → Option Addr
unfolding from16
from_bytes bs (some four) = some (v4 four)
from_bytes bs none = from16 (to16 bs)

unfoldable pub addr_of_net_ip : NetIp → Option Addr
unfolding from_bytes to4 to16
addr_of_net_ip none = some invalid
addr_of_net_ip (some bs) = from_bytes bs (to4 bs)

then_all : Option Addr → Option (List Addr) → Option (List Addr)
then_all none rest = none
then_all (some a) none = none
then_all (some a) (some rest) = some (a ∷ rest)

unfoldable pub addrs_of_net_ips : List NetIp → Option (List Addr)
unfolding addr_of_net_ip then_all
addrs_of_net_ips [] = some []
addrs_of_net_ips (ip ∷ ips) = then_all (addr_of_net_ip ip) (addrs_of_net_ips ips)

-- The last loop of lookupIPs: the last IPv6 address, and the last that is not IPv6.
unfoldable pub last_of_each : List Addr → Addr → Addr → Addr × Addr
unfolding is6
last_of_each [] ipv4 ipv6 = (ipv4, ipv6)
last_of_each (ip ∷ ips) ipv4 ipv6 =
    last_of_each ips (if is6 ip then ipv4 else ip) (if is6 ip then ip else ipv6)

-- The addresses (IPv4, IPv6) or the error.
abbrev pub Found : Type 0
Found = (Addr × Addr) ⊎ Error

found_in : Option (List Addr) → Option Found
found_in none = none
found_in (some ips) = some (inl (last_of_each ips invalid invalid))

-- `none` is a panic.
unfoldable pub lookup_ips : Answer → Option Found
unfolding addrs_of_net_ips last_of_each found_in
lookup_ips (inr e) = some (inr e)
lookup_ips (inl ips) = found_in (addrs_of_net_ips ips)

-- The loop with `left` tries left, of which `answer n` is what the resolver returns to try n. `last`
-- is the error of the try before, nil before the first.
unfoldable pub lookup_from :
    (ℕ → Answer) → ℕ → ℕ → Option Error → Option ((Addr × Addr) × Option Error)
lookup_from answer zero try last = some ((invalid, invalid), last)
lookup_from answer (suc left) try last = elim (lookup_ips (answer try)) [
  | none ↦ none
  | some found ↦ elim found [
    | inl ips ↦ some (ips, none)
    | inr e ↦ lookup_from answer left (try + 1) (some e)
  ]
]

-- lookupIPsResilient
unfoldable pub lookup_ips_resilient : (ℕ → Answer) → ℕ → Option ((Addr × Addr) × Option Error)
unfolding lookup_from lookup_ips
lookup_ips_resilient answer tries = lookup_from answer tries 0 none

lookup_from_ok :
    (answer : ℕ → Answer) (left try : ℕ) (last : Option Error) (ips : Addr × Addr)
    → lookup_ips (answer try) ≡ some (inl ips)
    → lookup_from answer (suc left) try last ≡ some (ips, none)
unfolding lookup_from
lookup_from_ok answer left try last ips h = rw (h, lookup_from)

lookup_from_err :
    (answer : ℕ → Answer) (left try : ℕ) (last : Option Error) (e : Error)
    → answer try ≡ inr e
    → lookup_from answer (suc left) try last ≡ lookup_from answer left (try + 1) (some e)
unfolding lookup_from lookup_ips
lookup_from_err answer left try last e h = rw (h, lookup_from)

lookup_from_first :
    (answer : ℕ → Answer) (n left try : ℕ) (last : Option Error) (ips : Addr × Addr)
    → n < left
    → ((m : ℕ) → m < n → (e : Error) × (answer (try + m) ≡ inr e))
    → lookup_ips (answer (try + n)) ≡ some (inl ips)
    → lookup_from answer left try last ≡ some (ips, none)
lookup_from_first answer n zero try last ips lt fails ok = absurd (omega arith)
lookup_from_first answer zero (suc left) try last ips lt fails ok =
    let here : try + 0 ≡ try = omega arith in
    lookup_from_ok answer left try last ips (rw here at ok)
lookup_from_first answer (suc n) (suc left) try last ips lt fails ok =
    let here : try + 0 ≡ try = omega arith in
    let (e, failed) = fails 0 (omega arith) in
    lookup_from_err answer left try last e (rw here at failed)
    ∙ lookup_from_first answer n left (try + 1) (some e) ips (omega arith)
        (λ m l.
          let shift : try + 1 + m ≡ try + suc m = omega arith in
          rw shift (fails (suc m) (omega arith)))
        (let shift : try + 1 + n ≡ try + suc n = omega arith in rw shift ok)

-- If the tries before try `n` fail and try `n` is answered, the addresses of that answer are the
-- result, with no error.
pub lookup_ips_resilient_first :
    (answer : ℕ → Answer) (tries n : ℕ) (ips : Addr × Addr)
    → n < tries
    → ((m : ℕ) → m < n → (e : Error) × (answer m ≡ inr e))
    → lookup_ips (answer n) ≡ some (inl ips)
    → lookup_ips_resilient answer tries ≡ some (ips, none)
unfolding lookup_ips_resilient
lookup_ips_resilient_first answer tries n ips lt fails ok =
    lookup_from_first answer n tries 0 none ips lt
      (λ m l. let start : 0 + m ≡ m = omega arith in rw start (fails m l))
      (let start : 0 + n ≡ n = omega arith in rw start ok)

-- The addresses of an answer that is a list of IPv4 and IPv6 addresses: those that the resolver's
-- documentation promises.
abbrev pub IsNetIp : NetIp → Type 0
IsNetIp none = ⊥
IsNetIp (some bs) = (length bs ≡ 4) ⊎ (length bs ≡ 16)

abbrev pub IsAnswer : Answer → Type 0
IsAnswer (inl ips) = All IsNetIp ips
IsAnswer (inr e) = Unit {0}

pub addr_of_net_ip_total : (ip : NetIp) → IsNetIp ip → addr_of_net_ip ip ≢ none
unfolding addr_of_net_ip
addr_of_net_ip_total none h = absurd h
addr_of_net_ip_total (some bs) h = ground arith

addrs_of_net_ips_total : (ips : List NetIp) → All IsNetIp ips → addrs_of_net_ips ips ≢ none
unfolding addrs_of_net_ips
addrs_of_net_ips_total [] h = ground arith
addrs_of_net_ips_total (ip ∷ ips) h =
    let (a, first) = some_of_ne_none (addr_of_net_ip ip) (addr_of_net_ip_total ip h.0) in
    let (rest, others) = some_of_ne_none (addrs_of_net_ips ips) (addrs_of_net_ips_total ips h.1) in
    rw (first, others) (λ e. cc)

lookup_ips_total : (a : Answer) → IsAnswer a → (f : Found) × (lookup_ips a ≡ some f)
unfolding lookup_ips
lookup_ips_total (inr e) h = (inr e, refl)
lookup_ips_total (inl ips) h =
    let (as', e) = some_of_ne_none (addrs_of_net_ips ips) (addrs_of_net_ips_total ips h) in
    (inl (last_of_each as' invalid invalid), rw e)

lookup_from-none :
    (answer : ℕ → Answer) (try : ℕ) (last : Option Error) → lookup_from answer 0 try last ≢ none
unfolding lookup_from
lookup_from-none answer try last = λ e. cc

lookup_from_step :
    (answer : ℕ → Answer) (left try : ℕ) (last : Option Error) (found : Found)
    → lookup_ips (answer try) ≡ some found
    → ((e : Error) → lookup_from answer left (try + 1) (some e) ≢ none)
    → lookup_from answer (suc left) try last ≢ none
unfolding lookup_from
lookup_from_step answer left try last (inl ips) h more = rw (h, lookup_from) (λ e. cc)
lookup_from_step answer left try last (inr failure) h more = rw (h, lookup_from) (more failure)

lookup_from_total :
    (answer : ℕ → Answer) (left try : ℕ) (last : Option Error)
    → ((n : ℕ) → IsAnswer (answer n))
    → lookup_from answer left try last ≢ none
lookup_from_total answer zero try last h = lookup_from-none answer try last
lookup_from_total answer (suc left) try last h =
    let (found, e) = lookup_ips_total (answer try) (h try) in
    lookup_from_step answer left try last found e
      (λ failure. lookup_from_total answer left (try + 1) (some failure) h)

pub lookup_ips_resilient_total :
    (answer : ℕ → Answer) (tries : ℕ)
    → ((n : ℕ) → IsAnswer (answer n))
    → lookup_ips_resilient answer tries ≢ none
unfolding lookup_ips_resilient
lookup_ips_resilient_total answer tries = lookup_from_total answer tries 0 none
