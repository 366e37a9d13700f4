-- ===== src/PublicIp/Dns.antt =====
-- pkg/publicip/dns: the address that a DNS server sees, over DNS over TLS. netip.ParseAddr and the
-- exchange of messages (github.com/miekg/dns) are parameters.
pub mod Versions
use ddns_updater_beget.Common.{
  ℕ, suc, ◌+◌, ◌%◌, ◌^◌, Bool, true, false, ◌⊎◌, inl, inr, List, [], ◌∷◌, Option, none, some, Bytes,
  codes, Error, beq, length, take, get_elem?, ltb, ◌==◌, if◌then◌else◌, ◌>>=◌,
}
use ddns_updater_beget.Net.{Addr, v4, v6, is4, is6}

pub data QType : Type 0 where
  type_txt type_any : QType

pub data Class : Type 0 where
  class_inet class_chaos : Class

-- The type Provider; another string is refused by ValidateProvider.
pub data DnsProvider : Type 0 where
  cloudflare opendns : DnsProvider

-- providerData
pub record ProviderData : Type 0 where
  pub address : Bytes
  pub ipv4 : Addr
  pub ipv6 : Addr
  pub tls_name : Bytes
  pub fqdn : Bytes
  pub class : Class
  pub q_type : QType

-- Provider.data
unfoldable pub data_of : DnsProvider → ProviderData
data_of cloudflare = record {
  address = codes "1dot1dot1dot1.cloudflare-dns.com";
  ipv4 = v4 (1 ∷ 1 ∷ 1 ∷ 1 ∷ []);
  ipv6 = v6 (38 ∷ 6 ∷ 71 ∷ 0 ∷ 71 ∷ 0 ∷ 0 ∷ 0 ∷ 0 ∷ 0 ∷ 0 ∷ 0 ∷ 0 ∷ 0 ∷ 17 ∷ 17 ∷ []) [];
  tls_name = codes "cloudflare-dns.com";
  fqdn = codes "whoami.cloudflare.";
  class = class_chaos;
  q_type = type_txt;
}
data_of opendns = record {
  address = codes "dns.opendns.com";
  ipv4 = v4 (208 ∷ 67 ∷ 222 ∷ 222 ∷ []);
  ipv6 = v6 (38 ∷ 32 ∷ 1 ∷ 25 ∷ 0 ∷ 53 ∷ 0 ∷ 0 ∷ 0 ∷ 0 ∷ 0 ∷ 0 ∷ 0 ∷ 0 ∷ 0 ∷ 53 ∷ []) [];
  tls_name = codes "dns.opendns.com";
  fqdn = codes "myip.opendns.com.";
  class = class_inet;
  q_type = type_any;
}

-- ListProviders and ValidateProvider, on names.
unfoldable pub provider_of_name : Bytes → Option DnsProvider
unfolding beq
provider_of_name s =
    if beq s (codes "cloudflare")
    then some cloudflare
    else if beq s (codes "opendns")
    then some opendns
    else none

-- dns.RR: the Go type of an answer with what it holds. The number in the header is that of the type.
pub data Rr : Type 0 where
  rr_txt : List Bytes → Rr
  rr_a rr_aaaa : Bytes → Rr
  rr_other : Rr

pub data DnsError : Type 0 where
  answer_not_received answer_type_mismatch answer_type_not_supported record_empty : DnsError
  ip_malformed too_many_txt_records ip_not_found_for_version : DnsError
  exchange_failed : Error → DnsError

-- A value, an error, or a panic as `none`.
abbrev pub Result : Type 0 → Type 0
Result A = Option (A ⊎ DnsError)

parsed_or_malformed : Option Addr → Addr ⊎ DnsError
parsed_or_malformed none = inr ip_malformed
parsed_or_malformed (some a) = inl a

-- handleAnswerTXT
unfoldable pub handle_answer_txt : (Bytes → Option Addr) → Rr → Result Addr
unfolding parsed_or_malformed
handle_answer_txt parse (rr_txt []) = some (inr record_empty)
handle_answer_txt parse (rr_txt (t ∷ [])) = some (parsed_or_malformed (parse t))
handle_answer_txt parse (rr_txt (t ∷ u ∷ ts)) = some (inr too_many_txt_records)
handle_answer_txt parse (rr_a bs) = some (inr answer_type_mismatch)
handle_answer_txt parse (rr_aaaa bs) = some (inr answer_type_mismatch)
handle_answer_txt parse rr_other = some (inr answer_type_mismatch)

-- The conversion of a slice to an array panics if the slice is shorter.
to_array : ℕ → Bytes → Option Bytes
to_array n bs = if ltb (length bs) n then none else some (take n bs)

map_inl : (Bytes → Addr) → Option Bytes → Result Addr
map_inl f none = none
map_inl f (some bs) = some (inl (f bs))

-- handleAnswerA
unfoldable pub handle_answer_a : Bytes → Result Addr
unfolding to_array map_inl
handle_answer_a [] = some (inr record_empty)
handle_answer_a (b ∷ bs) = map_inl v4 (to_array 4 (b ∷ bs))

-- handleAnswerAAAA
unfoldable pub handle_answer_aaaa : Bytes → Result Addr
unfolding to_array map_inl
handle_answer_aaaa [] = some (inr record_empty)
handle_answer_aaaa (b ∷ bs) = map_inl (λ cs. v6 cs []) (to_array 16 (b ∷ bs))

-- handleAnswerANY
unfoldable pub handle_answer_any : Rr → Result Addr
unfolding handle_answer_a handle_answer_aaaa
handle_answer_any (rr_a bs) = handle_answer_a bs
handle_answer_any (rr_aaaa bs) = handle_answer_aaaa bs
handle_answer_any (rr_txt ts) = some (inr answer_type_not_supported)
handle_answer_any rr_other = some (inr answer_type_not_supported)

unfoldable pub handle_answer : (Bytes → Option Addr) → QType → Rr → Result Addr
unfolding handle_answer_txt handle_answer_any
handle_answer parse type_txt answer = handle_answer_txt parse answer
handle_answer parse type_any answer = handle_answer_any answer

put_first : Addr → List Addr ⊎ DnsError → List Addr ⊎ DnsError
put_first a (inl as') = inl (a ∷ as')
put_first a (inr e) = inr e

-- The loop over the answers, up to the first error.
unfoldable pub handle_answers : (Bytes → Option Addr) → QType → List Rr → Result (List Addr)
unfolding handle_answer put_first
handle_answers parse t [] = some (inl [])
handle_answers parse t (r ∷ rs) =
    let rest = handle_answers parse t rs in
    elim (handle_answer parse t r) [
      | none ↦ none
      | some result ↦ elim result [
        | inr e ↦ some (inr e)
        | inl a ↦ elim rest [ none ↦ none | some as' ↦ some (put_first a as') ]
      ]
    ]

-- fetch, from what ExchangeContext returns
unfoldable pub fetch_dns :
    (Bytes → Option Addr) → ProviderData → List Rr ⊎ Error → Result (List Addr)
unfolding handle_answers
fetch_dns parse d (inr e) = some (inr (exchange_failed e))
fetch_dns parse d (inl []) = some (inr answer_not_received)
fetch_dns parse d (inl (r ∷ rs)) = handle_answers parse d.q_type (r ∷ rs)

-- publicIPs[0]
first_of : Result (List Addr) → Result Addr
first_of none = none
first_of (some (inr e)) = some (inr e)
first_of (some (inl [])) = none
first_of (some (inl (a ∷ as'))) = some (inl a)

unfoldable pub first_where : (Addr → Bool) → List Addr → Addr ⊎ DnsError
first_where test [] = inr ip_not_found_for_version
first_where test (a ∷ as') = let rest = first_where test as' in if test a then inl a else rest

first_such : (Addr → Bool) → Result (List Addr) → Result Addr
unfolding first_where
first_such test none = none
first_such test (some (inr e)) = some (inr e)
first_such test (some (inl as')) = some (first_where test as')

-- IP, IP4 and IP6, from what ExchangeContext returns for the network of each.
unfoldable pub get_ip : (Bytes → Option Addr) → ProviderData → List Rr ⊎ Error → Result Addr
unfolding first_of fetch_dns
get_ip parse d r = first_of (fetch_dns parse d r)

unfoldable pub get_ip4 : (Bytes → Option Addr) → ProviderData → List Rr ⊎ Error → Result Addr
unfolding first_such fetch_dns is4
get_ip4 parse d r = first_such is4 (fetch_dns parse d r)

unfoldable pub get_ip6 : (Bytes → Option Addr) → ProviderData → List Rr ⊎ Error → Result Addr
unfolding first_such fetch_dns is6
get_ip6 parse d r = first_such is6 (fetch_dns parse d r)

-- The counter after the call, a uint32, and the provider of Fetcher.ip. `none` is a panic: the
-- remainder by zero.
unfoldable pub next_provider : ℕ → List DnsProvider → Option (ℕ × DnsProvider)
next_provider counter providers = if length providers == 0 then none else do
  p ← get_elem? providers ((counter + 1) % 2 ^ 32 % length providers)
  some ((counter + 1) % 2 ^ 32, p)
