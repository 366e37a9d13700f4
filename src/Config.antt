-- ===== src/Config.antt =====
-- internal/config/pubip.go: the names of the providers that the settings of the public IP stand for.
-- A map with names as its keys is a list that has each name once; the order in which Go iterates over
-- it is left open.
use ddns_updater_beget.Common.{
  ◌≡◌, refl, ap, ◌∙◌, Bool, true, false, not, ◌&&◌, ◌||◌, List, [], ◌∷◌, ◌++◌, Bytes, codes, beq,
  beq_iff, if◌then◌else◌, arith, Bool-cases, inl, inr, if_either,
}
use ddns_updater_beget.IpVersion.{IpVersion}
use ddns_updater_beget.PublicIp.Urls.{list_providers_for_version}

abbrev pub all_providers : Bytes
all_providers = codes "all"

unfoldable pub mem_name : Bytes → List Bytes → Bool
unfolding beq
mem_name q [] = false
mem_name q (s ∷ set) = beq q s || mem_name q set

-- m[s] = struct{}{}
unfoldable pub add_name : Bytes → List Bytes → List Bytes
unfolding mem_name
add_name s set = if mem_name s set then set else set ++ s ∷ []

unfoldable pub add_names : List Bytes → List Bytes → List Bytes
unfolding add_name
add_names [] set = set
add_names (s ∷ ss) set = add_names ss (add_name s set)

-- The loop of stringsToHTTPProviders over the settings, where `listed` is ListProvidersForVersion.
unfoldable pub http_names_from : List Bytes → List Bytes → List Bytes → List Bytes
unfolding add_name add_names beq
http_names_from listed [] set = set
http_names_from listed (p ∷ ps) set =
    http_names_from listed ps (if beq p all_providers then add_names listed set else add_name p set)

-- stringsToHTTPProviders
unfoldable pub strings_to_http_providers : List Bytes → IpVersion → List Bytes
unfolding http_names_from
strings_to_http_providers providers version =
    http_names_from (list_providers_for_version version) providers []

abbrev pub dns_providers : List Bytes
dns_providers = codes "cloudflare" ∷ codes "opendns" ∷ []

-- The loop of ToDNSPOptions: nothing skips the second loop for a name that is not "all".
unfoldable pub dns_names_from : List Bytes → List Bytes → List Bytes
unfolding add_name add_names beq
dns_names_from [] set = set
dns_names_from (p ∷ ps) set =
    dns_names_from ps
      (add_names dns_providers (if not (beq p all_providers) then add_name p set else set))

-- The names of ToDNSPOptions
unfoldable pub to_dns_providers : List Bytes → List Bytes
unfolding dns_names_from
to_dns_providers providers = dns_names_from providers []

mem_name-append :
    (q s : Bytes) (set : List Bytes) → mem_name q (set ++ s ∷ []) ≡ (mem_name q set || beq q s)
unfolding mem_name
mem_name-append q s [] = ground arith
mem_name-append q s (t ∷ set) = ground (arith, mem_name-append q s set)

mem_name-add_name :
    (q s : Bytes) (set : List Bytes) → mem_name q (add_name s set) ≡ (mem_name q set || beq q s)
unfolding add_name
mem_name-add_name q s set = elim (Bool-cases (mem_name s set)) [
  | inl seen ↦ rw seen (kept (beq q s) refl seen)
  | inr fresh ↦ rw fresh (mem_name-append q s set)
]
  where
    kept : (b : Bool) → beq q s ≡ b → mem_name s set ≡ true → mem_name q set ≡ (mem_name q set || b)
    kept true e seen = let eq = (beq_iff q s).0 e in rw (eq, seen)
    kept false e seen = ground arith

mem_name-add_names :
    (q : Bytes) (ss set : List Bytes)
    → mem_name q (add_names ss set) ≡ (mem_name q set || mem_name q ss)
unfolding add_names mem_name
mem_name-add_names q [] set = ground arith
mem_name-add_names q (s ∷ ss) set =
    ground (arith, mem_name-add_names q ss (add_name s set), mem_name-add_name q s set)

mem_name-dns_names_from :
    (q : Bytes) (ps set : List Bytes)
    → mem_name q set ≡ true
    → mem_name q (dns_names_from ps set) ≡ true
unfolding dns_names_from
mem_name-dns_names_from q [] set h = h
mem_name-dns_names_from q (p ∷ ps) set h =
    mem_name-dns_names_from q ps
      (add_names dns_providers (if not (beq p all_providers) then add_name p set else set))
      (mem_name-add_names q dns_providers
          (if not (beq p all_providers) then add_name p set else set)
        ∙ ap (λ b. b || mem_name q dns_providers)
            (if_either (λ x. mem_name q x ≡ true) (not (beq p all_providers))
              (mem_name-add_name q p set ∙ ground arith) h))

-- Whatever DNS providers the settings name, as long as they name one, all DNS providers are used.
pub to_dns_providers_ignores_names :
    (p : Bytes) (ps : List Bytes) (q : Bytes)
    → mem_name q dns_providers ≡ true
    → mem_name q (to_dns_providers (p ∷ ps)) ≡ true
unfolding to_dns_providers dns_names_from
to_dns_providers_ignores_names p ps q h =
    mem_name-dns_names_from q ps
      (add_names dns_providers (if not (beq p all_providers) then add_name p [] else []))
      (mem_name-add_names q dns_providers (if not (beq p all_providers) then add_name p [] else [])
        ∙ rw h (ground arith))

mem_name-http_names_from :
    (listed : List Bytes) (q : Bytes) (ps set : List Bytes)
    → mem_name q (http_names_from listed ps set) ≡ (
        mem_name q set
        || (not (beq q all_providers) && mem_name q ps
            || mem_name all_providers ps && mem_name q listed))
unfolding http_names_from mem_name
mem_name-http_names_from listed q [] set = ground arith
mem_name-http_names_from listed q (p ∷ ps) set = elim (Bool-cases (beq p all_providers)) [
  | inl every ↦
      rw (every, mem_name-http_names_from listed q ps (add_names listed set))
        (let eq = (beq_iff p all_providers).0 every in
          ground (
            arith,
            mem_name-add_names q listed set,
            beq_iff all_providers p,
            beq_iff q p,
            beq_iff q all_providers,
          ))
  | inr named ↦
      rw (named, mem_name-http_names_from listed q ps (add_name p set))
        (ground (
          arith,
          mem_name-add_name q p set,
          beq_iff p all_providers,
          beq_iff all_providers p,
          beq_iff q p,
          beq_iff q all_providers,
        ))
]

-- A name is used for HTTP exactly if the settings name it and it is not "all", or if they name "all"
-- and it is listed for the version.
pub strings_to_http_providers_names :
    (providers : List Bytes) (version : IpVersion) (q : Bytes)
    → mem_name q (strings_to_http_providers providers version) ≡ (
        not (beq q all_providers) && mem_name q providers
        || mem_name all_providers providers && mem_name q (list_providers_for_version version))
unfolding strings_to_http_providers
strings_to_http_providers_names providers version q =
    mem_name-http_names_from (list_providers_for_version version) q providers []
    ∙ (unfold mem_name in refl)
