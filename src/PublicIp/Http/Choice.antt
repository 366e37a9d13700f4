-- ===== src/PublicIp/Http/Choice.antt =====
-- What a response gives.
use ddns_updater_beget.Common.{
  ℕ, ◌≡◌, ◌≢◌, ◌↔◌, false, ◌⊎◌, inl, List, [], ◌∷◌, Option, none, Bytes, length, arith, codes,
}
use ddns_updater_beget.Net.{Addr}
use ddns_updater_beget.IpVersion.{IpVersion, ip4or6, ip4, ip6}
use ddns_updater_beget.Extract.{extract_ipv4, extract_ipv6}
use ddns_updater_beget.Extract.Tokens.{tokens, add_tokens, extract-tokens}
use ddns_updater_beget.PublicIp.Http.{
  choose, only_one, either_one, choose_from, fetch, read_body, is_ban_code,
}

-- The addresses in a body.
abbrev pub ipv4s : (Bytes → Option Addr) → Bytes → List Addr
ipv4s parse body = add_tokens parse (tokens (codes "0123456789.") body) []

abbrev pub ipv6s : (Bytes → Option Addr) → Bytes → List Addr
ipv6s parse body = add_tokens parse (tokens (codes "0123456789abcdefABCDEF:") body) []

-- A response with another status than 403 and 429, read and closed without an error, gives the choice
-- among the addresses of both versions in its body.
pub fetch-choose :
    (parse : Bytes → Option Addr) (version : IpVersion) (code : ℕ) (body : Bytes)
    → is_ban_code code ≡ false
    → fetch parse version (inl (record { status_code = code; body = inl body; close = none }))
      ≡ choose version (ipv4s parse body) (ipv6s parse body)
unfolding fetch read_body choose_from extract_ipv4 extract_ipv6
fetch-choose parse version code body h = rw (
  h,
  extract-tokens parse body (codes "0123456789."),
  extract-tokens parse body (codes "0123456789abcdefABCDEF:"),
)

-- Of the addresses that a response gives, one is returned exactly if it is the only one of its version:
-- the IPv4 one, if that is wanted or if both are, and else the IPv6 one.
pub choose-inl :
    (version : IpVersion) (ipv4 ipv6 : List Addr) (a : Addr)
    → (choose version ipv4 ipv6 ≡ inl a) ↔ (
        ((version ≢ ip6) × (ipv4 ≡ a ∷ []))
        ⊎ ((version ≡ ip6) × (ipv6 ≡ a ∷ []))
        ⊎ ((version ≡ ip4or6) × (length ipv4 ≢ 1) × (ipv6 ≡ a ∷ [])))
unfolding choose only_one either_one
choose-inl ip4or6 [] [] a = ground arith
choose-inl ip4or6 [] (z ∷ []) a = ground arith
choose-inl ip4or6 [] (z ∷ w ∷ zs) a = ground arith
choose-inl ip4or6 (x ∷ []) [] a = ground arith
choose-inl ip4or6 (x ∷ []) (z ∷ []) a = ground arith
choose-inl ip4or6 (x ∷ []) (z ∷ w ∷ zs) a = ground arith
choose-inl ip4or6 (x ∷ y ∷ xs) [] a = ground arith
choose-inl ip4or6 (x ∷ y ∷ xs) (z ∷ []) a = ground arith
choose-inl ip4or6 (x ∷ y ∷ xs) (z ∷ w ∷ zs) a = ground arith
choose-inl ip4 [] [] a = ground arith
choose-inl ip4 [] (z ∷ []) a = ground arith
choose-inl ip4 [] (z ∷ w ∷ zs) a = ground arith
choose-inl ip4 (x ∷ []) [] a = ground arith
choose-inl ip4 (x ∷ []) (z ∷ []) a = ground arith
choose-inl ip4 (x ∷ []) (z ∷ w ∷ zs) a = ground arith
choose-inl ip4 (x ∷ y ∷ xs) [] a = ground arith
choose-inl ip4 (x ∷ y ∷ xs) (z ∷ []) a = ground arith
choose-inl ip4 (x ∷ y ∷ xs) (z ∷ w ∷ zs) a = ground arith
choose-inl ip6 [] [] a = ground arith
choose-inl ip6 [] (z ∷ []) a = ground arith
choose-inl ip6 [] (z ∷ w ∷ zs) a = ground arith
choose-inl ip6 (x ∷ []) [] a = ground arith
choose-inl ip6 (x ∷ []) (z ∷ []) a = ground arith
choose-inl ip6 (x ∷ []) (z ∷ w ∷ zs) a = ground arith
choose-inl ip6 (x ∷ y ∷ xs) [] a = ground arith
choose-inl ip6 (x ∷ y ∷ xs) (z ∷ []) a = ground arith
choose-inl ip6 (x ∷ y ∷ xs) (z ∷ w ∷ zs) a = ground arith
