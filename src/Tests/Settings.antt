-- ===== src/Tests/Settings.antt =====
-- The settings of the public IP, at concrete inputs.
use ddns_updater_beget.Common.{◌≡◌, refl, true, not, ◌&&◌, ◌||◌, [], ◌∷◌, codes, beq}
use ddns_updater_beget.IpVersion.{ip4}
use ddns_updater_beget.PublicIp.Urls.{list_providers_for_version}
use ddns_updater_beget.Config.{
  all_providers, mem_name, strings_to_http_providers, dns_providers, to_dns_providers,
  strings_to_http_providers_names, to_dns_providers_ignores_names,
}

opendns_listed : mem_name (codes "opendns") dns_providers ≡ true
unfolding mem_name
opendns_listed = refl

-- Cloudflare alone is chosen, and OpenDNS is used as well.
to_dns_providers_ignores_names_example :
    mem_name (codes "opendns") (to_dns_providers (codes "cloudflare" ∷ [])) ≡ true
to_dns_providers_ignores_names_example =
    to_dns_providers_ignores_names (codes "cloudflare") [] (codes "opendns") opendns_listed

strings_to_http_providers_names_example :
    mem_name (codes "ipify") (strings_to_http_providers (codes "all" ∷ []) ip4) ≡ (
      not (beq (codes "ipify") all_providers) && mem_name (codes "ipify") (codes "all" ∷ [])
      || mem_name all_providers (codes "all" ∷ [])
        && mem_name (codes "ipify") (list_providers_for_version ip4))
strings_to_http_providers_names_example =
    strings_to_http_providers_names (codes "all" ∷ []) ip4 (codes "ipify")
