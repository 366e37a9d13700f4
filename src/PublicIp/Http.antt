-- ===== src/PublicIp/Http.antt =====
-- pkg/publicip/http/fetch.go, http.go and ip.go: the choice of a URL, and what a response gives. Each
-- ring has a mutex; a call for an address is one step, since the service makes them one at a time.
pub mod Choice
pub mod Rings
use ddns_updater_beget.Common.{
  ℕ, zero, suc, ◌+◌, ◌-◌, ◌%◌, Bool, true, false, ◌||◌, ◌⊎◌, inl, inr, List, [], ◌∷◌, ◌++◌, Option,
  none, some, Bytes, codes, itoa, has_prefix, Error, length, get_elem?, ◌==◌, if◌then◌else◌, ◌>>=◌,
}
use ddns_updater_beget.Net.{Addr}
use ddns_updater_beget.IpVersion.{IpVersion, ip4or6, ip4, ip6}
use ddns_updater_beget.Extract.{extract_ipv4, extract_ipv6}
use ddns_updater_beget.PublicIp.Urls.{url}

-- strings.ReplaceAll(s, old, new) for a text `old` that is not empty; `skip` counts the bytes of a
-- match that are left.
unfoldable pub replace_from : Bytes → Bytes → ℕ → Bytes → Bytes
unfolding has_prefix
replace_from old new skip [] = []
replace_from old new (suc skip) (c ∷ s) = replace_from old new skip s
replace_from old new zero (c ∷ s) =
    let matched = replace_from old new (length old - 1) s in
    let unmatched = replace_from old new 0 s in
    if has_prefix (c ∷ s) old then new ++ matched else c ∷ unmatched

unfoldable pub replace_all : Bytes → Bytes → Bytes → Bytes
unfolding replace_from
replace_all s old new = replace_from old new 0 s

-- toSingleLine
unfoldable pub to_single_line : Bytes → Bytes
unfolding replace_all
to_single_line s =
    replace_all
      (replace_all (replace_all (replace_all s (10 ∷ []) []) (13 ∷ []) []) (codes "  ") (codes " "))
      (codes "  ") (codes " ")

-- The body as far as it can be read, and how closing it ends.
pub record Response : Type 0 where
  pub status_code : ℕ
  pub body : Bytes ⊎ Error
  pub close : Option Error

-- The errors by the package error that they wrap; `other` is an error of net/http or io. Of
-- `banned` the text after that of ErrBanned is kept, since the ring keeps it.
pub data FetchError : Type 0 where
  no_ip_found all_banned : FetchError
  too_many_ips : ℕ → FetchError
  banned : Bytes → FetchError
  other : Error → FetchError

abbrev body_text : Bytes ⊎ Error → Bytes
body_text (inl b) = b
body_text (inr e) = []

-- bodyToSingleLine
unfoldable pub body_to_single_line : Bytes ⊎ Error → Bytes
unfolding to_single_line
body_to_single_line body = to_single_line (body_text body)

-- The switch on the version for IPv4 or for IPv6 alone.
unfoldable pub only_one : List Addr → Addr ⊎ FetchError
only_one [] = inr no_ip_found
only_one (ip ∷ []) = inl ip
only_one (ip ∷ other_ip ∷ ips) = inr (too_many_ips (length (ip ∷ other_ip ∷ ips)))

-- The cases for either version, with priority to IPv4.
unfoldable pub either_one : List Addr → List Addr → Addr ⊎ FetchError
either_one (ip ∷ []) ipv6 = inl ip
either_one [] (ip ∷ []) = inl ip
either_one (a ∷ b ∷ ips) (ip ∷ []) = inl ip
either_one (a ∷ b ∷ ips) [] = inr (too_many_ips (length (a ∷ b ∷ ips)))
either_one (a ∷ b ∷ ips) (c ∷ d ∷ ipv6) = inr (too_many_ips (length (a ∷ b ∷ ips)))
either_one [] (c ∷ d ∷ ipv6) = inr (too_many_ips (length (c ∷ d ∷ ipv6)))
either_one [] [] = inr no_ip_found

unfoldable pub choose : IpVersion → List Addr → List Addr → Addr ⊎ FetchError
unfolding only_one either_one
choose ip4or6 ipv4 ipv6 = either_one ipv4 ipv6
choose ip4 ipv4 ipv6 = only_one ipv4
choose ip6 ipv4 ipv6 = only_one ipv6

-- Both extractions end, so `no_ip_found` for an extraction that does not is never reached.
choose_from : IpVersion → Option (List Addr) → Option (List Addr) → Addr ⊎ FetchError
unfolding choose
choose_from version none ipv6 = inr no_ip_found
choose_from version (some ipv4) none = inr no_ip_found
choose_from version (some ipv4) (some ipv6) = choose version ipv4 ipv6

unfoldable pub is_ban_code : ℕ → Bool
is_ban_code code = code == 403 || code == 429

-- The body after the switch on the status code: any other code than the two is read.
read_body : (Bytes → Option Addr) → IpVersion → Option Error → Bytes ⊎ Error → Addr ⊎ FetchError
unfolding choose_from extract_ipv4 extract_ipv6
read_body parse version close (inr e) = inr (other e)
read_body parse version (some e) (inl body) = inr (other e)
read_body parse version none (inl body) =
    choose_from version (extract_ipv4 parse body) (extract_ipv6 parse body)

-- fetch, from what client.Do returns
unfoldable pub fetch : (Bytes → Option Addr) → IpVersion → Response ⊎ Error → Addr ⊎ FetchError
unfolding read_body is_ban_code body_to_single_line
fetch parse version (inr e) = inr (other e)
fetch parse version (inl r) =
    if is_ban_code r.status_code
    then inr
        (banned (itoa r.status_code ++ (codes " (" ++ (body_to_single_line r.body ++ codes ")"))))
    else read_body parse version r.close r.body

-- The map of the banned indices with their error texts is a function.
pub record UrlsRing : Type 0 where
  pub index : ℕ
  pub urls : List Bytes
  pub banned : ℕ → Option Bytes

or_empty : Option Bytes → Bytes
or_empty none = []
or_empty (some s) = s

unfoldable pub urls_of : IpVersion → List Bytes → List Bytes
unfolding url or_empty
urls_of version [] = []
urls_of version (p ∷ ps) = or_empty (url p version) ∷ urls_of version ps

-- newRing
unfoldable pub new_ring : List Bytes → IpVersion → UrlsRing
unfolding urls_of
new_ring providers version = record {
  index = 0;
  urls = urls_of version providers;
  banned = λ i. none;
}

is_banned_text : Option Bytes → Bool
is_banned_text none = false
is_banned_text (some s) = true

unfoldable pub is_banned : UrlsRing → ℕ → Bool
unfolding is_banned_text
is_banned ring i = is_banned_text (ring.banned i)

-- The loop of Fetcher.ip, with `left` URLs that it may still find banned: the index that it ends
-- with, and whether that is of a URL that is not banned.
unfoldable pub next_index : (ℕ → Bool) → ℕ → ℕ → ℕ → ℕ × Bool
next_index banned_at n zero index = (index, false)
next_index banned_at n (suc left) index =
    let more = next_index banned_at n left ((index + 1) % n) in
    if banned_at ((index + 1) % n) then more else ((index + 1) % n, true)

set_ban : ℕ → Bytes → (ℕ → Option Bytes) → ℕ → Option Bytes
set_ban i s bans j = if i == j then some s else bans j

-- What follows the fetch of the URL at `index`. The text that is kept is that of the error without
-- each "we got banned: ".
unfoldable pub note_ban : ℕ → UrlsRing → Addr ⊎ FetchError → UrlsRing
unfolding set_ban replace_all
note_ban index ring (inl ip) = ring
note_ban index ring (inr (banned s)) = record ring {
  banned =
      set_ban index (replace_all (codes "we got banned: " ++ s) (codes "we got banned: ") [])
        ring.banned;
}
note_ban index ring (inr no_ip_found) = ring
note_ban index ring (inr all_banned) = ring
note_ban index ring (inr (too_many_ips n)) = ring
note_ban index ring (inr (other e)) = ring

-- Once the loop has ended; a URL is read within the bounds of the list.
unfoldable pub fetch_at :
    (Bytes → Addr ⊎ FetchError) → UrlsRing → ℕ × Bool → Option (UrlsRing × (Addr ⊎ FetchError))
unfolding note_ban
fetch_at get ring (index, false) = some (record ring { index = index }, inr all_banned)
fetch_at get ring (index, true) = do
  address ← get_elem? ring.urls index
  some (note_ban index (record ring { index = index }) (get address), get address)

-- Fetcher.ip; `get` is fetch at each URL. `none` is a panic: the remainder by zero without a URL.
unfoldable pub ip : (Bytes → Addr ⊎ FetchError) → UrlsRing → Option (UrlsRing × (Addr ⊎ FetchError))
unfolding fetch_at next_index is_banned
ip get ring =
    if length ring.urls == 0
    then none
    else fetch_at get ring
        (next_index (is_banned ring) (length ring.urls) (length ring.urls) ring.index)
