-- ===== src/Providers/New.antt =====
-- internal/provider/provider.go: New, for the names of the modelled providers.
use ddns_updater_beget.Common.{
  Bool, ◌⊎◌, inl, inr, List, [], ◌∷◌, Option, none, some, Bytes, codes, beq, Error,
}
use ddns_updater_beget.Net.{Prefix}
use ddns_updater_beget.IpVersion.{IpVersion}
use ddns_updater_beget.Providers.Client.{switch}
use ddns_updater_beget.Providers.Settings.{
  UserPassword, UserToken, OnlyPassword, OnlyToken, NewError,
}
use ddns_updater_beget.Providers.Allinkl
use ddns_updater_beget.Providers.Changeip
use ddns_updater_beget.Providers.Dd24
use ddns_updater_beget.Providers.Ddnss
use ddns_updater_beget.Providers.Desec
use ddns_updater_beget.Providers.Dnsomatic
use ddns_updater_beget.Providers.Duckdns
use ddns_updater_beget.Providers.Dyn
use ddns_updater_beget.Providers.Dynu
use ddns_updater_beget.Providers.Dynv6
use ddns_updater_beget.Providers.Easydns
use ddns_updater_beget.Providers.Freedns
use ddns_updater_beget.Providers.Goip
use ddns_updater_beget.Providers.He
use ddns_updater_beget.Providers.Infomaniak
use ddns_updater_beget.Providers.Inwx
use ddns_updater_beget.Providers.Namecheap
use ddns_updater_beget.Providers.Noip
use ddns_updater_beget.Providers.Nowdns
use ddns_updater_beget.Providers.Opendns
use ddns_updater_beget.Providers.Selfhostde
use ddns_updater_beget.Providers.Spdyn
use ddns_updater_beget.Providers.Strato
use ddns_updater_beget.Providers.Variomedia
use ddns_updater_beget.Providers.Zoneedit
use ddns_updater_beget.Providers.Ddnss.{DdnssSettings}
use ddns_updater_beget.Providers.Dyn.{DynSettings}
use ddns_updater_beget.Providers.Dynu.{DynuSettings}
use ddns_updater_beget.Providers.Spdyn.{SpdynSettings}
use ddns_updater_beget.Providers.Variomedia.{VariomediaSettings}
use ddns_updater_beget.Providers.Any.{
  AnyProvider, allinkl, changeip, dd24, ddnss, desec, dnsomatic, duckdns, dyn, dynu, dynv6, easydns,
  freedns, goip, he, infomaniak, inwx, namecheap, noip, nowdns, opendns, selfhostde, spdyn, strato,
  variomedia, zoneedit,
}

-- json.Unmarshal to the struct of each provider
pub record Decoders (Raw : Type 0) : Type 0 where
  pub allinkl_settings : Raw → UserPassword ⊎ Error
  pub changeip_settings : Raw → UserPassword ⊎ Error
  pub dd24_settings : Raw → OnlyPassword ⊎ Error
  pub ddnss_settings : Raw → DdnssSettings ⊎ Error
  pub desec_settings : Raw → OnlyToken ⊎ Error
  pub dnsomatic_settings : Raw → UserPassword ⊎ Error
  pub duckdns_settings : Raw → OnlyToken ⊎ Error
  pub dyn_settings : Raw → DynSettings ⊎ Error
  pub dynu_settings : Raw → DynuSettings ⊎ Error
  pub dynv6_settings : Raw → OnlyToken ⊎ Error
  pub easydns_settings : Raw → UserToken ⊎ Error
  pub freedns_settings : Raw → OnlyToken ⊎ Error
  pub goip_settings : Raw → UserPassword ⊎ Error
  pub he_settings : Raw → OnlyPassword ⊎ Error
  pub infomaniak_settings : Raw → UserPassword ⊎ Error
  pub inwx_settings : Raw → UserPassword ⊎ Error
  pub namecheap_settings : Raw → OnlyPassword ⊎ Error
  pub noip_settings : Raw → UserPassword ⊎ Error
  pub nowdns_settings : Raw → UserPassword ⊎ Error
  pub opendns_settings : Raw → UserPassword ⊎ Error
  pub selfhostde_settings : Raw → UserPassword ⊎ Error
  pub spdyn_settings : Raw → SpdynSettings ⊎ Error
  pub strato_settings : Raw → OnlyPassword ⊎ Error
  pub variomedia_settings : Raw → VariomediaSettings ⊎ Error
  pub zoneedit_settings : Raw → UserToken ⊎ Error

unfoldable pub made :
    {A : Type 0} → (A → AnyProvider) → A ⊎ NewError → Option (AnyProvider ⊎ NewError)
made f (inl a) = some (inl (f a))
made f (inr e) = some (inr e)

-- The cases of the switch.
unfoldable pub constructors :
    {Raw : Type 0}
    → Decoders Raw
    → Bytes
    → Raw
    → Bytes
    → Bytes
    → IpVersion
    → Prefix
    → List (Bool × Option (AnyProvider ⊎ NewError))
unfolding beq made Allinkl.new Changeip.new Dd24.new Ddnss.new Desec.new Dnsomatic.new Duckdns.new
    Dyn.new Dynu.new Dynv6.new Easydns.new Freedns.new Goip.new He.new Infomaniak.new Inwx.new
    Namecheap.new Noip.new Nowdns.new Opendns.new Selfhostde.new Spdyn.new Strato.new Variomedia.new
    Zoneedit.new
constructors d name raw domain owner version suffix =
    (
      beq name (codes "allinkl"),
      made allinkl (Allinkl.new (d.allinkl_settings raw) domain owner version suffix),
    )
    ∷ (
      beq name (codes "changeip"),
      made changeip (Changeip.new (d.changeip_settings raw) domain owner version suffix),
    )
    ∷ (
      beq name (codes "dd24"),
      made dd24 (Dd24.new (d.dd24_settings raw) domain owner version suffix),
    )
    ∷ (
      beq name (codes "ddnss"),
      made ddnss (Ddnss.new (d.ddnss_settings raw) domain owner version suffix),
    )
    ∷ (
      beq name (codes "desec"),
      made desec (Desec.new (d.desec_settings raw) domain owner version suffix),
    )
    ∷ (
      beq name (codes "dnsomatic"),
      made dnsomatic (Dnsomatic.new (d.dnsomatic_settings raw) domain owner version suffix),
    )
    ∷ (
      beq name (codes "duckdns"),
      made duckdns (Duckdns.new (d.duckdns_settings raw) domain owner version suffix),
    )
    ∷ (beq name (codes "dyn"), made dyn (Dyn.new (d.dyn_settings raw) domain owner version suffix))
    ∷ (
      beq name (codes "dynu"),
      made dynu (Dynu.new (d.dynu_settings raw) domain owner version suffix),
    )
    ∷ (
      beq name (codes "dynv6"),
      made dynv6 (Dynv6.new (d.dynv6_settings raw) domain owner version suffix),
    )
    ∷ (
      beq name (codes "easydns"),
      made easydns (Easydns.new (d.easydns_settings raw) domain owner version suffix),
    )
    ∷ (
      beq name (codes "freedns"),
      made freedns (Freedns.new (d.freedns_settings raw) domain owner version suffix),
    )
    ∷ (
      beq name (codes "goip"),
      made goip (Goip.new (d.goip_settings raw) domain owner version suffix),
    )
    ∷ (beq name (codes "he"), made he (He.new (d.he_settings raw) domain owner version suffix))
    ∷ (
      beq name (codes "infomaniak"),
      made infomaniak (Infomaniak.new (d.infomaniak_settings raw) domain owner version suffix),
    )
    ∷ (
      beq name (codes "inwx"),
      made inwx (Inwx.new (d.inwx_settings raw) domain owner version suffix),
    )
    ∷ (
      beq name (codes "namecheap"),
      made namecheap (Namecheap.new (d.namecheap_settings raw) domain owner),
    )
    ∷ (
      beq name (codes "noip"),
      made noip (Noip.new (d.noip_settings raw) domain owner version suffix),
    )
    ∷ (
      beq name (codes "nowdns"),
      made nowdns (Nowdns.new (d.nowdns_settings raw) domain version suffix),
    )
    ∷ (
      beq name (codes "opendns"),
      made opendns (Opendns.new (d.opendns_settings raw) domain owner version suffix),
    )
    ∷ (
      beq name (codes "selfhost.de"),
      made selfhostde (Selfhostde.new (d.selfhostde_settings raw) domain owner version suffix),
    )
    ∷ (
      beq name (codes "spdyn"),
      made spdyn (Spdyn.new (d.spdyn_settings raw) domain owner version suffix),
    )
    ∷ (
      beq name (codes "strato"),
      made strato (Strato.new (d.strato_settings raw) domain owner version suffix),
    )
    ∷ (
      beq name (codes "variomedia"),
      made variomedia (Variomedia.new (d.variomedia_settings raw) domain owner version suffix),
    )
    ∷ (
      beq name (codes "zoneedit"),
      made zoneedit (Zoneedit.new (d.zoneedit_settings raw) domain owner version suffix),
    )
    ∷ []

-- New; `none` is a name that is unknown, or that of a provider which is not modelled.
unfoldable pub new_any :
    {Raw : Type 0}
    → Decoders Raw
    → Bytes
    → Raw
    → Bytes
    → Bytes
    → IpVersion
    → Prefix
    → Option (AnyProvider ⊎ NewError)
unfolding switch constructors
new_any d name raw domain owner version suffix =
    switch (constructors d name raw domain owner version suffix) none
