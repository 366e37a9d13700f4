-- ===== src/PublicIp/Dns/Versions.antt =====
-- What the DNS fetchers return.
use ddns_updater_beget.Common.{
  suc, some_of_ne_none, ◌≤◌, ◌≡◌, ◌≢◌, refl, ap, ◌∙◌, Bool, true, ◌⊎◌, inl, inr, List, [], ◌∷◌,
  Option, none, some, Bytes, Error, All, length, arith, Bool-cases,
}
use ddns_updater_beget.Net.{Addr, is4, is6}
use ddns_updater_beget.PublicIp.Dns.{
  Rr, rr_txt, rr_a, rr_aaaa, rr_other, QType, type_txt, type_any, DnsError, Result, ProviderData,
  to_array, map_inl, handle_answer_txt, handle_answer_a, handle_answer_aaaa, handle_answer_any,
  handle_answer, handle_answers, put_first, fetch_dns, first_of, first_where, first_such, get_ip,
  get_ip4, get_ip6,
}

first_where-test :
    (test : Addr → Bool) (as' : List Addr) (a : Addr) → first_where test as' ≡ inl a → test a ≡ true
unfolding first_where
first_where-test test [] a h = cc
first_where-test test (b ∷ bs) a h = elim (Bool-cases (test b)) [
  | inl good ↦ let e : b ≡ a = cc (rw good at h) in rw (← e) good
  | inr bad ↦ first_where-test test bs a (rw bad at h)
]

first_such-test :
    (test : Addr → Bool) (m : Result (List Addr)) (a : Addr)
    → first_such test m ≡ some (inl a)
    → test a ≡ true
unfolding first_such
first_such-test test none a h = cc
first_such-test test (some (inr e)) a h = cc
first_such-test test (some (inl as')) a h =
    first_where-test test as' a (let e : first_where test as' ≡ inl a = cc in e)

-- IP4 returns IPv4 addresses only, and IP6 no IPv4 ones, whatever the server answers.
pub get_ip_versions :
    (parse : Bytes → Option Addr) (d : ProviderData) (r : List Rr ⊎ Error) (a : Addr)
    → (get_ip4 parse d r ≡ some (inl a) → is4 a ≡ true)
      × (get_ip6 parse d r ≡ some (inl a) → is6 a ≡ true)
unfolding get_ip4 get_ip6
get_ip_versions parse d r a =
    (first_such-test is4 (fetch_dns parse d r) a, first_such-test is6 (fetch_dns parse d r) a)

-- An answer as github.com/miekg/dns unpacks it: an A or AAAA record is empty or has the bytes of its
-- address.
abbrev pub IsUnpacked : Rr → Type 0
IsUnpacked (rr_txt ts) = Unit {0}
IsUnpacked (rr_a bs) = (bs ≡ []) ⊎ (4 ≤ length bs)
IsUnpacked (rr_aaaa bs) = (bs ≡ []) ⊎ (16 ≤ length bs)
IsUnpacked rr_other = Unit {0}

handle_answer_total :
    (parse : Bytes → Option Addr) (t : QType) (r : Rr)
    → IsUnpacked r
    → handle_answer parse t r ≢ none
unfolding handle_answer handle_answer_txt handle_answer_any handle_answer_a handle_answer_aaaa
    to_array map_inl
handle_answer_total parse type_txt (rr_txt []) h = λ e. cc
handle_answer_total parse type_txt (rr_txt (x ∷ [])) h = λ e. cc
handle_answer_total parse type_txt (rr_txt (x ∷ y ∷ ts)) h = λ e. cc
handle_answer_total parse type_txt (rr_a bs) h = λ e. cc
handle_answer_total parse type_txt (rr_aaaa bs) h = λ e. cc
handle_answer_total parse type_txt rr_other h = λ e. cc
handle_answer_total parse type_any (rr_txt ts) h = λ e. cc
handle_answer_total parse type_any (rr_a []) h = λ e. cc
handle_answer_total parse type_any (rr_a (b ∷ bs)) h = ground arith
handle_answer_total parse type_any (rr_aaaa []) h = λ e. cc
handle_answer_total parse type_any (rr_aaaa (b ∷ bs)) h = ground arith
handle_answer_total parse type_any rr_other h = λ e. cc

handle_answers-inr :
    (parse : Bytes → Option Addr) (t : QType) (r : Rr) (rs : List Rr) (x : DnsError)
    → handle_answer parse t r ≡ some (inr x)
    → handle_answers parse t (r ∷ rs) ≡ some (inr x)
unfolding handle_answers
handle_answers-inr parse t r rs x e = rw (e, handle_answers)

handle_answers-inl :
    (parse : Bytes → Option Addr) (t : QType) (r : Rr) (rs : List Rr) (a : Addr)
    → handle_answer parse t r ≡ some (inl a)
    → handle_answers parse t (r ∷ rs)
      ≡ (elim (handle_answers parse t rs) [ none ↦ none | some as' ↦ some (put_first a as') ])
unfolding handle_answers
handle_answers-inl parse t r rs a e = rw (e, handle_answers)

abbrev AreHandled : (Bytes → Option Addr) → QType → List Rr → Type 0
AreHandled parse t rs =
    ((e : DnsError) × (handle_answers parse t rs ≡ some (inr e)))
    ⊎ ((as' : List Addr) × (handle_answers parse t rs ≡ some (inl as')) × (length as' ≡ length rs))

-- The answers give an error, or an address for each of them.
handle_answers-cases :
    (parse : Bytes → Option Addr) (t : QType) (rs : List Rr)
    → All IsUnpacked rs
    → AreHandled parse t rs
handle_answers-cases parse t [] h = inr ([], (unfold handle_answers in refl), refl)
handle_answers-cases parse t (r ∷ rs) h =
    let (result, e) =
      some_of_ne_none (handle_answer parse t r) (handle_answer_total parse t r h.0) in
    by_result result e (handle_answers-cases parse t rs h.1)
  where
    by_result :
        (result : Addr ⊎ DnsError)
        → handle_answer parse t r ≡ some result
        → AreHandled parse t rs
        → AreHandled parse t (r ∷ rs)
    by_result (inr x) e rest = inl (x, handle_answers-inr parse t r rs x e)
    by_result (inl a) e (inl (x, f)) =
        inl (x, handle_answers-inl parse t r rs a e ∙ rw f (unfold put_first in refl))
    by_result (inl a) e (inr (as', f, n)) =
        inr
          (a ∷ as', handle_answers-inl parse t r rs a e ∙ rw f (unfold put_first in refl), ap suc n)

-- A fetch that succeeds has an address, so taking the first one does not panic: a call of IP ends
-- without a panic, whatever the server answers, if the answers are unpacked as documented.
pub get_ip_total :
    (parse : Bytes → Option Addr) (d : ProviderData) (rs : List Rr)
    → All IsUnpacked rs
    → get_ip parse d (inl rs) ≢ none
unfolding get_ip
get_ip_total parse d [] h = unfold fetch_dns first_of in λ e. cc
get_ip_total parse d (r ∷ rs) h = elim (handle_answers-cases parse d.q_type (r ∷ rs) h) [
  | inl (x, e) ↦ unfold fetch_dns in rw e (unfold first_of in λ k. cc)
  | inr (as', e, n) ↦ unfold fetch_dns in rw e (nonempty as' n)
]
  where
    nonempty : (as' : List Addr) → length as' ≡ suc (length rs) → first_of (some (inl as')) ≢ none
    nonempty [] n = absurd (omega (arith, n))
    nonempty (a ∷ as') n = unfold first_of in λ k. cc
