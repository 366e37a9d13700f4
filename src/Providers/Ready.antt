-- ===== src/Providers/Ready.antt =====
-- What the settings of a provider satisfy once New accepts them.
mod Defs
mod Each
mod Others
unfoldable pub use Defs.*
use ddns_updater_beget.Common.{
  ℕ, Bool, true, false, ◌&&◌, ◌||◌, ◌⊎◌, inl, inr, List, [], ◌∷◌, ◌++◌, Option, none, some, Bytes,
  codes, Error, ltb, length, Option-cases, ◌≡◌, All, refl, sym, trim_prefix, arith, if_either, not,
  ◌==◌, ==_iff, beq, beq→eq, beq_refl, has_prefix, contains, Bool-cases, if◌then◌else◌,
}
use ddns_updater_beget.Net.{Prefix}
use ddns_updater_beget.IpVersion.{IpVersion}
use ddns_updater_beget.Domain.{check_domain}
use ddns_updater_beget.Domain.Labels.{is_domain}
use ddns_updater_beget.Domain.Check.{check_domain-is_domain}
use ddns_updater_beget.Providers.Dyn.{DynSettings}
use ddns_updater_beget.Providers.Variomedia.{VariomediaSettings}
use ddns_updater_beget.Providers.Dynu.{DynuSettings}
use ddns_updater_beget.Providers.Ddnss.{DdnssSettings}
use ddns_updater_beget.Providers.Spdyn.{SpdynSettings}
use ddns_updater_beget.Providers.Errors.{
  SettingError, refused, domain_not_valid, owner_wildcard, token_not_valid,
}
use ddns_updater_beget.Providers.Client.{switch}
use ddns_updater_beget.Providers.Texts.{is_under, count_dots}
use ddns_updater_beget.Providers.Settings.{
  UserPassword, UserToken, OnlyPassword, OnlyToken, NewError, first_refusal, checked_domain,
  validated, refuses,
}
use ddns_updater_beget.Providers.Any.{
  AnyProvider, allinkl, changeip, dd24, ddnss, desec, dnsomatic, duckdns, dyn, dynu, dynv6, easydns,
  freedns, goip, he, infomaniak, inwx, namecheap, noip, nowdns, opendns, selfhostde, spdyn, strato,
  variomedia, zoneedit,
}
use ddns_updater_beget.Providers.New.{Decoders, made, constructors, new_any}
use ddns_updater_beget.Providers.Allinkl
use ddns_updater_beget.Providers.Changeip
use ddns_updater_beget.Providers.Dd24
use ddns_updater_beget.Providers.Ddnss
use ddns_updater_beget.Providers.Desec
use ddns_updater_beget.Providers.Dnsomatic
use ddns_updater_beget.Providers.Duckdns
use ddns_updater_beget.Providers.Dyn
use ddns_updater_beget.Providers.Dynu
use ddns_updater_beget.Providers.Dynv6
use ddns_updater_beget.Providers.Easydns
use ddns_updater_beget.Providers.Freedns
use ddns_updater_beget.Providers.Goip
use ddns_updater_beget.Providers.He
use ddns_updater_beget.Providers.Infomaniak
use ddns_updater_beget.Providers.Inwx
use ddns_updater_beget.Providers.Namecheap
use ddns_updater_beget.Providers.Noip
use ddns_updater_beget.Providers.Nowdns
use ddns_updater_beget.Providers.Opendns
use ddns_updater_beget.Providers.Selfhostde
use ddns_updater_beget.Providers.Spdyn
use ddns_updater_beget.Providers.Strato
use ddns_updater_beget.Providers.Variomedia
use ddns_updater_beget.Providers.Zoneedit
use ddns_updater_beget.Providers.Ready.Each.{
  allinkl_ready, changeip_ready, dd24_ready, ddnss_ready, desec_ready, dnsomatic_ready,
  duckdns_ready, dyn_ready, dynu_ready, dynv6_ready, easydns_ready, freedns_ready, goip_ready,
}
use ddns_updater_beget.Providers.Ready.Others.{
  he_ready, infomaniak_ready, inwx_ready, namecheap_ready, noip_ready, nowdns_ready, opendns_ready,
  selfhostde_ready, spdyn_ready, strato_ready, variomedia_ready, zoneedit_ready,
}

-- Pairs to the right, for the parts of an All.
infixr 4 ◌◂◌
abbrev ◌◂◌ {ℓ κ} : {A : Type ℓ} {B : Type κ} → A → B → A × B
a ◂ b = (a, b)

-- What holds of each case of a switch and of the rest holds of the switch.
switch-All {ℓ κ} :
    {A : Type ℓ} (Q : A → Type κ) (cases : List (Bool × A)) (rest : A)
    → All (λ c. Q (c.1)) cases
    → Q rest
    → Q (switch cases rest)
unfolding switch
switch-All Q [] rest h q = q
switch-All Q ((true, a) ∷ cases) rest h q = h.0
switch-All Q ((false, a) ∷ cases) rest h q = switch-All Q cases rest (h.1) q

abbrev IsReadyResult : Option (AnyProvider ⊎ NewError) → Type 0
IsReadyResult r = (p : AnyProvider) → r ≡ some (inl p) → is_ready p ≡ true

made_ready :
    {A : Type 0} (f : A → AnyProvider) (r : A ⊎ NewError)
    → ((a : A) → r ≡ inl a → is_ready (f a) ≡ true)
    → IsReadyResult (made f r)
unfolding made
made_ready f (inl a) h p e = let k = h a refl in cc
made_ready f (inr err) h p e = cc

-- Every provider that New makes of a configuration, whichever of the modelled names is given, has
-- its credentials, and its names are as the provider asks for: CheckDomain accepts the domain but
-- for goip and duckdns, whose domains are under the roots of these.
pub new_any-is_ready :
    {Raw : Type 0} (d : Decoders Raw) (name : Bytes) (raw : Raw) (domain owner : Bytes)
    (version : IpVersion) (suffix : Prefix) (p : AnyProvider)
    → new_any d name raw domain owner version suffix ≡ some (inl p)
    → is_ready p ≡ true
unfolding new_any constructors
new_any-is_ready d name raw domain owner version suffix =
    switch-All IsReadyResult (constructors d name raw domain owner version suffix) none
      (made_ready allinkl _
          (λ a. allinkl_ready domain owner version suffix (d.allinkl_settings raw))
        ◂ made_ready changeip _
            (λ a. changeip_ready domain owner version suffix (d.changeip_settings raw))
        ◂ made_ready dd24 _ (λ a. dd24_ready domain owner version suffix (d.dd24_settings raw))
        ◂ made_ready ddnss _ (λ a. ddnss_ready domain owner version suffix (d.ddnss_settings raw))
        ◂ made_ready desec _ (λ a. desec_ready domain owner version suffix (d.desec_settings raw))
        ◂ made_ready dnsomatic _
            (λ a. dnsomatic_ready domain owner version suffix (d.dnsomatic_settings raw))
        ◂ made_ready duckdns _
            (λ a. duckdns_ready domain owner version suffix (d.duckdns_settings raw))
        ◂ made_ready dyn _ (λ a. dyn_ready domain owner version suffix (d.dyn_settings raw))
        ◂ made_ready dynu _ (λ a. dynu_ready domain owner version suffix (d.dynu_settings raw))
        ◂ made_ready dynv6 _ (λ a. dynv6_ready domain owner version suffix (d.dynv6_settings raw))
        ◂ made_ready easydns _
            (λ a. easydns_ready domain owner version suffix (d.easydns_settings raw))
        ◂ made_ready freedns _
            (λ a. freedns_ready domain owner version suffix (d.freedns_settings raw))
        ◂ made_ready goip _ (λ a. goip_ready domain owner version suffix (d.goip_settings raw))
        ◂ made_ready he _ (λ a. he_ready domain owner version suffix (d.he_settings raw))
        ◂ made_ready infomaniak _
            (λ a. infomaniak_ready domain owner version suffix (d.infomaniak_settings raw))
        ◂ made_ready inwx _ (λ a. inwx_ready domain owner version suffix (d.inwx_settings raw))
        ◂ made_ready namecheap _ (λ a. namecheap_ready (d.namecheap_settings raw) domain owner)
        ◂ made_ready noip _ (λ a. noip_ready domain owner version suffix (d.noip_settings raw))
        ◂ made_ready nowdns _ (λ a. nowdns_ready (d.nowdns_settings raw) domain version suffix)
        ◂ made_ready opendns _
            (λ a. opendns_ready domain owner version suffix (d.opendns_settings raw))
        ◂ made_ready selfhostde _
            (λ a. selfhostde_ready domain owner version suffix (d.selfhostde_settings raw))
        ◂ made_ready spdyn _ (λ a. spdyn_ready domain owner version suffix (d.spdyn_settings raw))
        ◂ made_ready strato _
            (λ a. strato_ready domain owner version suffix (d.strato_settings raw))
        ◂ made_ready variomedia _
            (λ a. variomedia_ready domain owner version suffix (d.variomedia_settings raw))
        ◂ made_ready zoneedit _
            (λ a. zoneedit_ready domain owner version suffix (d.zoneedit_settings raw))
        ◂ tt)
      (λ p e. cc)
