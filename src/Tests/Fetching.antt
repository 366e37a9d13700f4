-- ===== src/Tests/Fetching.antt =====
-- The fetchers of the public address, at concrete inputs.
use ddns_updater_beget.Common.{
  ℕ, zero, suc, ◌<◌, ◌≡◌, ◌≢◌, refl, true, false, Option, none, some, Bytes, codes, List, [], ◌∷◌,
  ◌⊎◌, inl, arith, beq, length, get_elem?, if◌then◌else◌,
}
use ddns_updater_beget.Net.{Addr, is4, is6}
use ddns_updater_beget.IpVersion.{ip6}
use ddns_updater_beget.Extract.{extract, mem_addr}
use ddns_updater_beget.Extract.Tokens.{tokens}
use ddns_updater_beget.Extract.Members.{IsDistinct, any_parsed, extract-IsDistinct}
use ddns_updater_beget.PublicIp.Urls.{url, validate_provider, validate_provider-url}
use ddns_updater_beget.PublicIp.Http.{FetchError, UrlsRing, ip, is_banned, is_ban_code, note_ban}
use ddns_updater_beget.PublicIp.Http.Rings.{place, ip_asks}
use ddns_updater_beget.PublicIp.Dns.{Rr, rr_a}
use ddns_updater_beget.PublicIp.Info.{
  InfoError, Loop, running, get_after, get_after_ok_never_returns,
}
use ddns_updater_beget.Tests.Data.{home}

-- A parser that knows one address.
unfoldable parse_home : Bytes → Option Addr
unfolding beq
parse_home s = if beq s (codes "203.0.113.7") then some home else none

abbrev body : Bytes
body = codes "203.0.113.7 is 203.0.113.7"

abbrev digits_and_dot : Bytes
digits_and_dot = codes "0123456789."

extract-IsDistinct_example :
    (addrs : List Addr) × (extract parse_home body digits_and_dot ≡ some addrs)
    × IsDistinct addrs
    × ((a : Addr) → mem_addr a addrs ≡ any_parsed parse_home (tokens digits_and_dot body) a)
extract-IsDistinct_example = extract-IsDistinct parse_home body digits_and_dot

extracted_once : extract parse_home body digits_and_dot ≡ some (home ∷ [])
unfolding extract parse_home ddns_updater_beget.Net.same_addr
extracted_once = refl

accepted : validate_provider (codes "url:https://example.com") ip6 ≡ none
unfolding validate_provider
accepted = refl

validate_provider-url_example : url (codes "url:https://example.com") ip6 ≢ none
validate_provider-url_example = validate_provider-url (codes "url:https://example.com") ip6 accepted

found : is_ban_code 200 ≡ false
unfolding is_ban_code
found = refl

abbrev first_banned : ℕ → Option Bytes
first_banned zero = some (codes "403")
first_banned (suc i) = none

-- The first URL of three is banned, and the last was asked before.
abbrev ring : UrlsRing
ring = record {
  index = 2;
  urls = codes "https://a" ∷ codes "https://b" ∷ codes "https://c" ∷ [];
  banned = first_banned;
}

abbrev get : Bytes → Addr ⊎ FetchError
get s = inl home

second_is_free : is_banned ring 1 ≡ false
unfolding is_banned
second_is_free = refl

ip_asks_example :
    (k : ℕ) × (u : Bytes) × (k < length ring.urls)
    × (get_elem? ring.urls (place (length ring.urls) ring.index k) ≡ some u)
    × (is_banned ring (place (length ring.urls) ring.index k) ≡ false)
    × ((j : ℕ) → j < k → is_banned ring (place (length ring.urls) ring.index j) ≡ true)
    × (ip get ring
        ≡ some (
          note_ban
              (place (length ring.urls) ring.index k)
              (record ring { index = place (length ring.urls) ring.index k })
              (get u),
          get u,
        ))
ip_asks_example = ip_asks get ring 1 (omega arith) second_is_free

abbrev all_taken : UrlsRing
all_taken = record ring { banned = λ i. some (codes "429") }

all_taken_banned : (i : ℕ) → i < length all_taken.urls → is_banned all_taken i ≡ true
unfolding is_banned
all_taken_banned i h = refl

abbrev answer : List Rr
answer = rr_a (203 ∷ 0 ∷ 113 ∷ 7 ∷ []) ∷ []

abbrev always : ℕ → ℕ → ℕ × Option InfoError
always calls index = (7, none)

get_after_ok_never_returns_example :
    (l : Loop ℕ) × (get_after 2 always 1000 1 0 (λ i. false) ≡ running l)
get_after_ok_never_returns_example =
    get_after_ok_never_returns 2 always 1000 1 0 (λ i. false) (omega arith) (omega arith) refl
      (λ n. (7, refl))
