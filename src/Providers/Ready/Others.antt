-- ===== src/Providers/Ready/Others.antt =====
-- The settings that New accepts, from he to zoneedit, are as the provider asks for.
use ddns_updater_beget.Common.{true, ◌⊎◌, inl, inr, Bytes, Error, ◌≡◌, arith}
use ddns_updater_beget.Net.{Prefix}
use ddns_updater_beget.IpVersion.{IpVersion}
use ddns_updater_beget.Domain.Check.{check_domain-is_domain}
use ddns_updater_beget.Providers.Variomedia.{VariomediaSettings}
use ddns_updater_beget.Providers.Spdyn.{SpdynSettings}
use ddns_updater_beget.Providers.Settings.{
  UserPassword, UserToken, OnlyPassword, first_refusal, checked_domain,
}
use ddns_updater_beget.Providers.Any.{
  he, infomaniak, inwx, namecheap, noip, nowdns, opendns, selfhostde, spdyn, strato, variomedia,
  zoneedit,
}
use ddns_updater_beget.Providers.He
use ddns_updater_beget.Providers.Infomaniak
use ddns_updater_beget.Providers.Inwx
use ddns_updater_beget.Providers.Namecheap
use ddns_updater_beget.Providers.Noip
use ddns_updater_beget.Providers.Nowdns
use ddns_updater_beget.Providers.Opendns
use ddns_updater_beget.Providers.Selfhostde
use ddns_updater_beget.Providers.Spdyn
use ddns_updater_beget.Providers.Strato
use ddns_updater_beget.Providers.Variomedia
use ddns_updater_beget.Providers.Zoneedit
use ddns_updater_beget.Providers.Ready.Defs.{is_ready}
use ddns_updater_beget.Providers.Ready.Each.{validated-inl}

module _ (domain owner : Bytes) (version : IpVersion) (suffix : Prefix) where
  pub he_ready :
      (x : OnlyPassword ⊎ Error) {p : He.HeProvider}
      → He.new x domain owner version suffix ≡ inl p
      → is_ready (he p) ≡ true
  unfolding He.new He.validate_settings is_ready checked_domain first_refusal
  he_ready (inl extra) h =
      let (v, e) = validated-inl _ _ h in rw (← e) (ground (arith, check_domain-is_domain domain))
  he_ready (inr e) h = cc

  pub infomaniak_ready :
      (x : UserPassword ⊎ Error) {p : Infomaniak.InfomaniakProvider}
      → Infomaniak.new x domain owner version suffix ≡ inl p
      → is_ready (infomaniak p) ≡ true
  unfolding Infomaniak.new Infomaniak.validate_settings is_ready checked_domain first_refusal
  infomaniak_ready (inl extra) h =
      let (v, e) = validated-inl _ _ h in rw (← e) (ground (arith, check_domain-is_domain domain))
  infomaniak_ready (inr e) h = cc

  pub inwx_ready :
      (x : UserPassword ⊎ Error) {p : Inwx.InwxProvider}
      → Inwx.new x domain owner version suffix ≡ inl p
      → is_ready (inwx p) ≡ true
  unfolding Inwx.new Inwx.validate_settings is_ready checked_domain first_refusal
  inwx_ready (inl extra) h =
      let (v, e) = validated-inl _ _ h in rw (← e) (ground (arith, check_domain-is_domain domain))
  inwx_ready (inr e) h = cc

  pub noip_ready :
      (x : UserPassword ⊎ Error) {p : Noip.NoipProvider}
      → Noip.new x domain owner version suffix ≡ inl p
      → is_ready (noip p) ≡ true
  unfolding Noip.new Noip.validate_settings is_ready checked_domain first_refusal
  noip_ready (inl extra) h =
      let (v, e) = validated-inl _ _ h in rw (← e) (ground (arith, check_domain-is_domain domain))
  noip_ready (inr e) h = cc

  pub opendns_ready :
      (x : UserPassword ⊎ Error) {p : Opendns.OpendnsProvider}
      → Opendns.new x domain owner version suffix ≡ inl p
      → is_ready (opendns p) ≡ true
  unfolding Opendns.new Opendns.validate_settings is_ready checked_domain first_refusal
  opendns_ready (inl extra) h =
      let (v, e) = validated-inl _ _ h in rw (← e) (ground (arith, check_domain-is_domain domain))
  opendns_ready (inr e) h = cc

  pub selfhostde_ready :
      (x : UserPassword ⊎ Error) {p : Selfhostde.SelfhostdeProvider}
      → Selfhostde.new x domain owner version suffix ≡ inl p
      → is_ready (selfhostde p) ≡ true
  unfolding Selfhostde.new Selfhostde.validate_settings is_ready checked_domain first_refusal
  selfhostde_ready (inl extra) h =
      let (v, e) = validated-inl _ _ h in rw (← e) (ground (arith, check_domain-is_domain domain))
  selfhostde_ready (inr e) h = cc

  pub spdyn_ready :
      (x : SpdynSettings ⊎ Error) {p : Spdyn.SpdynProvider}
      → Spdyn.new x domain owner version suffix ≡ inl p
      → is_ready (spdyn p) ≡ true
  unfolding Spdyn.new Spdyn.validate_settings is_ready checked_domain first_refusal
  spdyn_ready (inl extra) h =
      let (v, e) = validated-inl _ _ h in rw (← e) (ground (arith, check_domain-is_domain domain))
  spdyn_ready (inr e) h = cc

  pub strato_ready :
      (x : OnlyPassword ⊎ Error) {p : Strato.StratoProvider}
      → Strato.new x domain owner version suffix ≡ inl p
      → is_ready (strato p) ≡ true
  unfolding Strato.new Strato.validate_settings is_ready checked_domain first_refusal
  strato_ready (inl extra) h =
      let (v, e) = validated-inl _ _ h in rw (← e) (ground (arith, check_domain-is_domain domain))
  strato_ready (inr e) h = cc

  pub variomedia_ready :
      (x : VariomediaSettings ⊎ Error) {p : Variomedia.VariomediaProvider}
      → Variomedia.new x domain owner version suffix ≡ inl p
      → is_ready (variomedia p) ≡ true
  unfolding Variomedia.new Variomedia.validate_settings is_ready checked_domain first_refusal
  variomedia_ready (inl extra) h =
      let (v, e) = validated-inl _ _ h in rw (← e) (ground (arith, check_domain-is_domain domain))
  variomedia_ready (inr e) h = cc

  pub zoneedit_ready :
      (x : UserToken ⊎ Error) {p : Zoneedit.ZoneeditProvider}
      → Zoneedit.new x domain owner version suffix ≡ inl p
      → is_ready (zoneedit p) ≡ true
  unfolding Zoneedit.new Zoneedit.validate_settings is_ready checked_domain first_refusal
  zoneedit_ready (inl extra) h =
      let (v, e) = validated-inl _ _ h in rw (← e) (ground (arith, check_domain-is_domain domain))
  zoneedit_ready (inr e) h = cc

pub namecheap_ready :
    (x : OnlyPassword ⊎ Error) (domain owner : Bytes) {p : Namecheap.NamecheapProvider}
    → Namecheap.new x domain owner ≡ inl p
    → is_ready (namecheap p) ≡ true
unfolding Namecheap.new Namecheap.validate_settings is_ready checked_domain first_refusal
namecheap_ready (inl extra) domain owner h =
    let (v, e) = validated-inl _ _ h in rw (← e) (ground (arith, check_domain-is_domain domain))
namecheap_ready (inr e) domain owner h = cc

pub nowdns_ready :
    (x : UserPassword ⊎ Error) (domain : Bytes) (version : IpVersion) (suffix : Prefix)
    {p : Nowdns.NowdnsProvider}
    → Nowdns.new x domain version suffix ≡ inl p
    → is_ready (nowdns p) ≡ true
unfolding Nowdns.new Nowdns.validate_settings is_ready checked_domain first_refusal
nowdns_ready (inl extra) domain version suffix h =
    let (v, e) = validated-inl _ _ h in rw (← e) (ground (arith, check_domain-is_domain domain))
nowdns_ready (inr e) domain version suffix h = cc
