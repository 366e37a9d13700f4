-- ===== src/Providers/Ready/Each.antt =====
-- The settings that New accepts, from allinkl to goip, are as the provider asks for.
use ddns_updater_beget.Common.{
  Bool, true, ◌&&◌, ◌⊎◌, inl, inr, [], ◌∷◌, Option, none, some, Bytes, codes, Error, ltb, ◌≡◌, refl,
  arith, not, beq,
}
use ddns_updater_beget.Net.{Prefix}
use ddns_updater_beget.IpVersion.{IpVersion}
use ddns_updater_beget.Domain.Check.{check_domain-is_domain}
use ddns_updater_beget.Providers.Dyn.{DynSettings}
use ddns_updater_beget.Providers.Dynu.{DynuSettings}
use ddns_updater_beget.Providers.Ddnss.{DdnssSettings}
use ddns_updater_beget.Providers.Errors.{
  SettingError, refused, domain_not_valid, owner_wildcard, token_not_valid,
}
use ddns_updater_beget.Providers.Texts.{is_under, count_dots}
use ddns_updater_beget.Providers.Settings.{
  UserPassword, UserToken, OnlyPassword, OnlyToken, first_refusal, checked_domain, validated,
}
use ddns_updater_beget.Providers.Any.{
  allinkl, changeip, dd24, ddnss, desec, dnsomatic, duckdns, dyn, dynu, dynv6, easydns, freedns,
  goip,
}
use ddns_updater_beget.Providers.Allinkl
use ddns_updater_beget.Providers.Changeip
use ddns_updater_beget.Providers.Dd24
use ddns_updater_beget.Providers.Ddnss
use ddns_updater_beget.Providers.Desec
use ddns_updater_beget.Providers.Dnsomatic
use ddns_updater_beget.Providers.Duckdns
use ddns_updater_beget.Providers.Dyn
use ddns_updater_beget.Providers.Dynu
use ddns_updater_beget.Providers.Dynv6
use ddns_updater_beget.Providers.Easydns
use ddns_updater_beget.Providers.Freedns
use ddns_updater_beget.Providers.Goip
use ddns_updater_beget.Providers.Ready.Defs.{is_ready}

pub validated-inl {ℓ} :
    {A : Type ℓ} (v : Option SettingError) (a : A) {p : A}
    → validated v a ≡ inl p
    → (v ≡ none) × (a ≡ p)
unfolding validated
validated-inl none a h = (refl, cc)
validated-inl (some e) a h = cc

four_hold :
    (a b c d : Bool) (e e' e'' e3 : SettingError)
    → first_refusal ((not a, e) ∷ (b, e') ∷ (c, e'') ∷ (not d, e3) ∷ []) ≡ none
    → (not (not a) && (not b && (not c && not (not d)))) ≡ true
unfolding first_refusal
four_hold a b c d e e' e'' e3 h = ground arith

duckdns_holds :
    (names : Bytes × Bytes) (token : Bytes)
    → Duckdns.validate_settings (names.0) (names.1) token ≡ none
    → (not (not (is_under (codes "duckdns.org") (names.0)))
        && (not (ltb 2 (count_dots (names.1)))
            && (not (beq (names.1) (codes "*")) && not (not (Duckdns.is_token token)))))
      ≡ true
unfolding Duckdns.validate_settings
duckdns_holds names token h =
    four_hold (is_under (codes "duckdns.org") (names.0)) (ltb 2 (count_dots (names.1)))
      (beq (names.1) (codes "*")) (Duckdns.is_token token) (refused domain_not_valid (names.0))
      (refused domain_not_valid (names.0)) (refused owner_wildcard (names.1))
      (refused token_not_valid token) h

module _ (domain owner : Bytes) (version : IpVersion) (suffix : Prefix) where
  pub allinkl_ready :
      (x : UserPassword ⊎ Error) {p : Allinkl.AllinklProvider}
      → Allinkl.new x domain owner version suffix ≡ inl p
      → is_ready (allinkl p) ≡ true
  unfolding Allinkl.new Allinkl.validate_settings is_ready checked_domain first_refusal
  allinkl_ready (inl extra) h =
      let (v, e) = validated-inl _ _ h in rw (← e) (ground (arith, check_domain-is_domain domain))
  allinkl_ready (inr e) h = cc

  pub changeip_ready :
      (x : UserPassword ⊎ Error) {p : Changeip.ChangeipProvider}
      → Changeip.new x domain owner version suffix ≡ inl p
      → is_ready (changeip p) ≡ true
  unfolding Changeip.new Changeip.validate_settings is_ready checked_domain first_refusal
  changeip_ready (inl extra) h =
      let (v, e) = validated-inl _ _ h in rw (← e) (ground (arith, check_domain-is_domain domain))
  changeip_ready (inr e) h = cc

  pub dd24_ready :
      (x : OnlyPassword ⊎ Error) {p : Dd24.Dd24Provider}
      → Dd24.new x domain owner version suffix ≡ inl p
      → is_ready (dd24 p) ≡ true
  unfolding Dd24.new Dd24.validate_settings is_ready checked_domain first_refusal
  dd24_ready (inl extra) h =
      let (v, e) = validated-inl _ _ h in rw (← e) (ground (arith, check_domain-is_domain domain))
  dd24_ready (inr e) h = cc

  pub ddnss_ready :
      (x : DdnssSettings ⊎ Error) {p : Ddnss.DdnssProvider}
      → Ddnss.new x domain owner version suffix ≡ inl p
      → is_ready (ddnss p) ≡ true
  unfolding Ddnss.new Ddnss.validate_settings is_ready checked_domain first_refusal
  ddnss_ready (inl extra) h =
      let (v, e) = validated-inl _ _ h in rw (← e) (ground (arith, check_domain-is_domain domain))
  ddnss_ready (inr e) h = cc

  pub desec_ready :
      (x : OnlyToken ⊎ Error) {p : Desec.DesecProvider}
      → Desec.new x domain owner version suffix ≡ inl p
      → is_ready (desec p) ≡ true
  unfolding Desec.new Desec.validate_settings is_ready checked_domain first_refusal
  desec_ready (inl extra) h =
      let (v, e) = validated-inl _ _ h in rw (← e) (ground (arith, check_domain-is_domain domain))
  desec_ready (inr e) h = cc

  pub dnsomatic_ready :
      (x : UserPassword ⊎ Error) {p : Dnsomatic.DnsomaticProvider}
      → Dnsomatic.new x domain owner version suffix ≡ inl p
      → is_ready (dnsomatic p) ≡ true
  unfolding Dnsomatic.new Dnsomatic.validate_settings is_ready checked_domain first_refusal
  dnsomatic_ready (inl extra) h =
      let (v, e) = validated-inl _ _ h in rw (← e) (ground (arith, check_domain-is_domain domain))
  dnsomatic_ready (inr e) h = cc

  pub duckdns_ready :
      (x : OnlyToken ⊎ Error) {p : Duckdns.DuckdnsProvider}
      → Duckdns.new x domain owner version suffix ≡ inl p
      → is_ready (duckdns p) ≡ true
  unfolding Duckdns.new Duckdns.validate_settings is_ready checked_domain
  duckdns_ready (inl extra) h =
      let (v, e) = validated-inl _ _ h in
      rw (← e) (duckdns_holds (Duckdns.retro_compatible domain owner) extra.token v)
  duckdns_ready (inr e) h = cc

  pub dyn_ready :
      (x : DynSettings ⊎ Error) {p : Dyn.DynProvider}
      → Dyn.new x domain owner version suffix ≡ inl p
      → is_ready (dyn p) ≡ true
  unfolding Dyn.new Dyn.validate_settings is_ready checked_domain first_refusal
  dyn_ready (inl extra) h =
      let (v, e) = validated-inl _ _ h in rw (← e) (ground (arith, check_domain-is_domain domain))
  dyn_ready (inr e) h = cc

  pub dynu_ready :
      (x : DynuSettings ⊎ Error) {p : Dynu.DynuProvider}
      → Dynu.new x domain owner version suffix ≡ inl p
      → is_ready (dynu p) ≡ true
  unfolding Dynu.new Dynu.validate_settings is_ready checked_domain first_refusal
  dynu_ready (inl extra) h =
      let (v, e) = validated-inl _ _ h in rw (← e) (ground (arith, check_domain-is_domain domain))
  dynu_ready (inr e) h = cc

  pub dynv6_ready :
      (x : OnlyToken ⊎ Error) {p : Dynv6.Dynv6Provider}
      → Dynv6.new x domain owner version suffix ≡ inl p
      → is_ready (dynv6 p) ≡ true
  unfolding Dynv6.new Dynv6.validate_settings is_ready checked_domain first_refusal
  dynv6_ready (inl extra) h =
      let (v, e) = validated-inl _ _ h in rw (← e) (ground (arith, check_domain-is_domain domain))
  dynv6_ready (inr e) h = cc

  pub easydns_ready :
      (x : UserToken ⊎ Error) {p : Easydns.EasydnsProvider}
      → Easydns.new x domain owner version suffix ≡ inl p
      → is_ready (easydns p) ≡ true
  unfolding Easydns.new Easydns.validate_settings is_ready checked_domain first_refusal
  easydns_ready (inl extra) h =
      let (v, e) = validated-inl _ _ h in rw (← e) (ground (arith, check_domain-is_domain domain))
  easydns_ready (inr e) h = cc

  pub freedns_ready :
      (x : OnlyToken ⊎ Error) {p : Freedns.FreednsProvider}
      → Freedns.new x domain owner version suffix ≡ inl p
      → is_ready (freedns p) ≡ true
  unfolding Freedns.new Freedns.validate_settings is_ready checked_domain first_refusal
  freedns_ready (inl extra) h =
      let (v, e) = validated-inl _ _ h in rw (← e) (ground (arith, check_domain-is_domain domain))
  freedns_ready (inr e) h = cc

  pub goip_ready :
      (x : UserPassword ⊎ Error) {p : Goip.GoipProvider}
      → Goip.new x domain owner version suffix ≡ inl p
      → is_ready (goip p) ≡ true
  unfolding Goip.new Goip.validate_settings is_ready checked_domain first_refusal
  goip_ready (inl extra) h = let (v, e) = validated-inl _ _ h in rw (← e) (ground arith)
  goip_ready (inr e) h = cc
