-- ===== src/Tests/Starts.antt =====
-- The settings from JSON, at concrete texts.
use ddns_updater_beget.Common.{
  ℕ, if◌then◌else◌, ◌==◌, ◌≡◌, ◌≤◌, ◌/◌, refl, false, none, some, Bytes, codes, inl, inr, [], ◌∷◌,
  ◌++◌, ◌⊎◌, Error, take, drop, trim_prefix, split, List,
}
use ddns_updater_beget.Net.{v6, no_prefix, prefix}
use ddns_updater_beget.Update.Suffix.{ipv6_with_suffix}
use ddns_updater_beget.Params.{CommonSettings, extract_from_domain_field, query_hostnames}
use ddns_updater_beget.Params.Owners.{extract_from_domain_field-names}
use ddns_updater_beget.Params.Settings.{Outside, Made, parse_uint8, make_ipv6_suffix, zero_bytes}
use ddns_updater_beget.Params.Bits.{make_ipv6_suffix-merges}

-- Every domain is under example.com.
abbrev effective : Bytes → Bytes ⊎ Error
effective d = inl (codes "example.com")

abbrev field : Bytes
field = codes "example.com,*.example.com,a.b.example.com"

abbrev owners : List Bytes
owners = codes "@" ∷ codes "*" ∷ codes "a.b" ∷ []

names_found :
    extract_from_domain_field {E = Bytes} effective field ≡ inl (codes "example.com", owners)
unfolding extract_from_domain_field
names_found = refl

extract_from_domain_field-names_example :
    query_hostnames (codes "example.com") owners ≡ split b',' field
unfolding split
extract_from_domain_field-names_example =
    extract_from_domain_field-names {E = Bytes} effective field (codes "example.com") owners
      (
        ((λ e. cc), inl refl),
        (
          ((λ e. cc), inr (codes "*", refl, (λ e. cc))),
          (((λ e. cc), inr (codes "a.b", refl, (λ e. cc))), tt),
        ),
      )
      names_found

abbrev ones : Bytes
ones = 1 ∷ 1 ∷ 1 ∷ 1 ∷ 1 ∷ 1 ∷ 1 ∷ 1 ∷ 1 ∷ 1 ∷ 1 ∷ 1 ∷ 1 ∷ 1 ∷ 1 ∷ 1 ∷ []

suffix_made : make_ipv6_suffix {E = Bytes} (codes "/56") ≡ inl (prefix (v6 zero_bytes []) 72)
unfolding make_ipv6_suffix
suffix_made = refl

make_ipv6_suffix-merges_example :
    (k : ℕ) × (parse_uint8 (trim_prefix (codes "/56") (codes "/")) ≡ some k)
    × (k ≤ 128)
    × (ipv6_with_suffix (v6 ones []) (prefix (v6 zero_bytes []) 72)
        ≡ some (v6 (take (k / 8) ones ++ drop (k / 8) zero_bytes) []))
make_ipv6_suffix-merges_example =
    make_ipv6_suffix-merges (codes "/56") (prefix (v6 zero_bytes []) 72) ones [] suffix_made refl

abbrev common : CommonSettings
common = record {
  provider = codes "noip";
  domain = codes "a.example.com";
  host = [];
  owner = [];
  ip_version = codes "ipv4";
  ipv6_suffix = no_prefix;
  has_provider_ip = false;
}

-- A text without its blanks.
unfoldable compact : Bytes → Bytes
compact [] = []
compact (c ∷ s) = let rest = compact s in if c == b' ' then rest else c ∷ rest

-- A provider is its domain and its settings.
abbrev outside : Outside (Bytes × Bytes) Bytes Bytes
outside = record {
  new = λ name raw domain owner version suffix. inl (domain, compact raw);
  effective = effective;
  unmarshal_common = λ content. inl (common ∷ []);
  unmarshal_raw = λ content. inl (content ∷ []);
  indent = λ content. inl (codes "  " ++ content);
  ipv6_prefix = [];
  read_error = none;
  write_error = none;
}

abbrev made : Made (Bytes × Bytes) Bytes
made = record {
  providers = (codes "example.com", codes "{\"a\":1}") ∷ [];
  warnings = [];
  error = none;
}

abbrev config : Bytes
config = codes "{\"a\": 1}"
