-- ===== src/Providers/Ready/Defs.antt =====
-- What the settings of a provider are to satisfy.
use ddns_updater_beget.Common.{Bool, ◌&&◌, ◌||◌, [], codes, ltb, length, not, beq}
use ddns_updater_beget.Domain.Labels.{is_domain}
use ddns_updater_beget.Providers.Texts.{is_under, count_dots}
use ddns_updater_beget.Providers.Any.{
  AnyProvider, allinkl, changeip, dd24, ddnss, desec, dnsomatic, duckdns, dyn, dynu, dynv6, easydns,
  freedns, goip, he, infomaniak, inwx, namecheap, noip, nowdns, opendns, selfhostde, spdyn, strato,
  variomedia, zoneedit,
}
use ddns_updater_beget.Providers.Duckdns
use ddns_updater_beget.Providers.Namecheap

-- The credentials are there, and the names are as the provider asks for.
unfoldable pub is_ready : AnyProvider → Bool
unfolding is_domain beq is_under count_dots Namecheap.is_password Duckdns.is_token
is_ready (allinkl p) =
    is_domain p.base.domain
    && (not (beq p.base.owner (codes "*"))
        && (not (beq p.username []) && (not (beq p.password []))))
is_ready (changeip p) =
    is_domain p.base.domain
    && (not (beq p.base.owner []) && (not (beq p.username []) && (not (beq p.password []))))
is_ready (dd24 p) = is_domain p.base.domain && (not (beq p.password []))
is_ready (ddnss p) =
    is_domain p.base.domain
    && (not (beq p.base.owner (codes "*"))
        && (not (beq p.username []) && (not (beq p.password []))))
is_ready (desec p) = is_domain p.base.domain && (not (beq p.token []))
is_ready (dnsomatic p) =
    is_domain p.base.domain && (not (beq p.username []) && (not (beq p.password [])))
is_ready (duckdns p) =
    not (not (is_under (codes "duckdns.org") p.base.domain))
    && (not (ltb 2 (count_dots p.base.owner))
        && (not (beq p.base.owner (codes "*")) && (not (not (Duckdns.is_token p.token)))))
is_ready (dyn p) =
    is_domain p.base.domain && (not (beq p.username []) && (not (beq p.client_key [])))
is_ready (dynu p) =
    is_domain p.base.domain
    && (not (beq p.base.owner (codes "*"))
        && (not (beq p.username []) && (not (beq p.password []))))
is_ready (dynv6 p) =
    is_domain p.base.domain && (not (beq p.base.owner (codes "*")) && (not (beq p.token [])))
is_ready (easydns p) =
    is_domain p.base.domain && (not (beq p.username []) && (not (beq p.token [])))
is_ready (freedns p) = is_domain p.base.domain && (not (beq p.token []))
is_ready (goip p) =
    not (beq p.username [])
    && (not (beq p.password [])
        && (not (
              not (
                is_under (codes "goip.de") p.base.domain
                || is_under (codes "goip.it") p.base.domain))
            && (not (ltb 2 (count_dots p.base.owner)) && (not (beq p.base.owner (codes "*"))))))
is_ready (he p) = is_domain p.base.domain && (not (beq p.password []))
is_ready (infomaniak p) =
    is_domain p.base.domain
    && (not (beq p.base.owner (codes "*"))
        && (not (beq p.username []) && (not (beq p.password []))))
is_ready (inwx p) =
    is_domain p.base.domain && (not (beq p.username []) && (not (beq p.password [])))
is_ready (namecheap p) = is_domain p.domain && (not (not (Namecheap.is_password p.password)))
is_ready (noip p) =
    is_domain p.base.domain
    && (not (beq p.base.owner (codes "*"))
        && (not (beq p.username [])
            && (not (ltb 50 (length p.username)) && (not (beq p.password [])))))
is_ready (nowdns p) =
    is_domain p.base.domain && (not (beq p.username []) && (not (beq p.password [])))
is_ready (opendns p) =
    is_domain p.base.domain
    && (not (beq p.base.owner (codes "*"))
        && (not (beq p.username []) && (not (beq p.password []))))
is_ready (selfhostde p) =
    is_domain p.base.domain
    && (not (beq p.base.owner (codes "*"))
        && (not (beq p.username []) && (not (beq p.password []))))
is_ready (spdyn p) =
    is_domain p.base.domain
    && (not (beq p.base.owner (codes "*"))
        && (not (beq p.token [] && beq p.user []) && (not (beq p.token [] && beq p.password []))))
is_ready (strato p) =
    is_domain p.base.domain && (not (beq p.base.owner (codes "*")) && (not (beq p.password [])))
is_ready (variomedia p) =
    is_domain p.base.domain
    && (not (beq p.base.owner (codes "*")) && (not (beq p.email []) && (not (beq p.password []))))
is_ready (zoneedit p) =
    is_domain p.base.domain && (not (beq p.username []) && (not (beq p.token [])))
