-- ===== src/Params.antt =====
-- internal/params/json.go and retro.go: the providers that the JSON settings stand for. What is not of
-- this package is a parameter: EffectiveTLDPlusOne of golang.org/x/net/publicsuffix, encoding/json,
-- and provider.New.
pub mod Owners
pub mod Settings
pub mod Bits
use ddns_updater_beget.Common.{
  ℕ, ◌-◌, ◌+◌, Bool, true, false, not, ◌&&◌, ◌||◌, ◌⊎◌, inl, inr, List, [], ◌∷◌, ◌++◌, Option, none,
  some, Bytes, and_then, codes, Error, beq, split, join, trim_prefix, trim_suffix, get_elem?, zero,
  suc, ltb, leb, ◌==◌, if◌then◌else◌, ◌*◌, has_prefix,
}
use ddns_updater_beget.Net.{Addr, v6, Prefix, no_prefix, prefix, is_valid_prefix}
use ddns_updater_beget.IpVersion.{IpVersion, ip4, ip4or6, show, parse}
use ddns_updater_beget.Domain.{build_url_query_hostname}

-- commonSettings
pub record CommonSettings : Type 0 where
  pub provider : Bytes
  pub domain : Bytes
  pub host : Bytes
  pub owner : Bytes
  pub ip_version : Bytes
  pub ipv6_suffix : Prefix
  pub has_provider_ip : Bool

-- The errors of the package, and those of the packages that it calls.
pub data ParamsError (E : Type 0) : Type 0 where
  no_longer_supported : Bytes → ParamsError E
  no_effective_domain : Error → ParamsError E
  multiple_domains : Bytes → Bytes → ParamsError E
  ip_version_not_valid : ParamsError E
  provider_not_made : E → ParamsError E
  ipv6_prefix_format : ParamsError E
  not_unmarshalled not_read not_written : Error → ParamsError E

-- The domain that is registered, so far, and the next one.
unfoldable pub registered_next : {E : Type 0} → Bytes → Bytes → Bytes ⊎ ParamsError E
unfolding beq
registered_next registered newer =
    if beq registered []
    then inl newer
    else if not (beq registered newer)
    then inr (multiple_domains registered newer)
    else inl registered

-- The owner of a domain under the registered one.
unfoldable pub owner_of : Bytes → Bytes → Bytes
unfolding beq trim_suffix
owner_of registered domain =
    if beq domain registered then codes "@" else trim_suffix domain (b'.' ∷ registered)

-- The domain names of owners, as in the warning of makeSettingsFromObject.
unfoldable pub query_hostnames : Bytes → List Bytes → List Bytes
unfolding build_url_query_hostname
query_hostnames domain [] = []
query_hostnames domain (o ∷ os) = build_url_query_hostname o domain ∷ query_hostnames domain os

-- The call of publicsuffix, with its error wrapped.
unfoldable pub effective_domain : {E : Type 0} → Bytes ⊎ Error → Bytes ⊎ ParamsError E
effective_domain (inl registered) = inl registered
effective_domain (inr e) = inr (no_effective_domain e)

module _ {E : Type 0} (effective : Bytes → Bytes ⊎ Error) where
  -- The loop over the domains, with the owners found before.
  unfoldable pub owners_from :
      List Bytes → Bytes → List Bytes → (Bytes × List Bytes) ⊎ ParamsError E
  unfolding effective_domain registered_next owner_of
  owners_from [] registered owners = inl (registered, owners)
  owners_from (d ∷ ds) registered owners = and_then (effective_domain (effective d)) (λ newer.
      and_then (registered_next registered newer)
        (λ registered'. owners_from ds registered' (owners ++ owner_of registered' d ∷ [])))

  -- extractFromDomainField
  unfoldable pub extract_from_domain_field : Bytes → (Bytes × List Bytes) ⊎ ParamsError E
  unfolding owners_from split
  extract_from_domain_field field = owners_from (split b',' field) [] []
