-- ===== src/Params/Settings/Spaces.antt =====
-- Settings that differ in their white space are the same settings.
use mathlib.Core.List.{map}
use ddns_updater_beget.Common.{
  ◌≡◌, refl, sym, ap, ◌∙◌, ◌⊎◌, inl, inr, List, [], ◌∷◌, ◌++◌, if◌then◌else◌, codes, Option-cases,
  Option, none, some, Bytes, Error, beq,
}
use ddns_updater_beget.Net.{Prefix}
use ddns_updater_beget.IpVersion.{IpVersion}
use ddns_updater_beget.Params.{CommonSettings, ParamsError, no_longer_supported}
use ddns_updater_beget.Params.Settings.{
  Made, Outside, Warning, make_with, make_each, suffix_of, warnings_of, names_of, version_of,
  make_settings_from_object, extract_each, extract_parts, extract_all_settings,
  get_retro_ipv6_suffix, failed,
}

module _ {P E Raw : Type 0} (o : Outside P E Raw) (compact : Raw → Raw) where
  -- provider.New decodes its settings, so it does not see the white space between the tokens, which
  -- `compact` (json.Compact) removes.
  abbrev pub IgnoresSpace : Type 0
  IgnoresSpace = (name : Bytes) (raw : Raw) → o.new name (compact raw) ≡ o.new name raw

  unfoldable pub compacted : List Raw ⊎ Error → List Raw ⊎ Error
  compacted (inl raws) = inl (map compact raws)
  compacted (inr e) = inr e

  -- json.Indent changes the white space only: its result decodes to the same settings, and to the same
  -- raw settings but for the white space in them.
  abbrev pub KeepsValues : Bytes → Type 0
  KeepsValues config =
      (content : Bytes)
      → o.indent config ≡ inl content
      → (o.unmarshal_common content ≡ o.unmarshal_common config)
        × (compacted (o.unmarshal_raw content) ≡ compacted (o.unmarshal_raw config))

  make_with-same :
      (c : CommonSettings) (raw raw' : Raw) (retro : Prefix)
      (names : Bytes × List Bytes × List Warning) (version : IpVersion ⊎ ParamsError E)
      → o.new c.provider raw ≡ o.new c.provider raw'
      → make_with o c raw retro names version ≡ make_with o c raw' retro names version
  unfolding make_with
  make_with-same c raw raw' retro (domain, owners, ws) (inr e) h = refl
  make_with-same c raw raw' retro (domain, owners, ws) (inl version) h =
      let suffix = suffix_of c retro in
      let ws' = ws ++ warnings_of c domain version suffix in
      ap
        (λ new.
          elim (make_each {P = P} {E = E} (λ owner. new domain owner version suffix) owners)
            as (λ x. Made P E) [
              | inr e ↦ failed ws' e
              | inl ps ↦ record { providers = ps; warnings = ws'; error = none }
            ])
        h

  by_names :
      (c : CommonSettings)
      → Raw
      → Prefix
      → (Bytes × List Bytes × List Warning) ⊎ ParamsError E
      → Made P E
  unfolding failed make_with
  by_names c raw retro (inr e) = failed [] e
  by_names c raw retro (inl names) = make_with o c raw retro names (version_of c.ip_version)

  by_names-same :
      (c : CommonSettings) (raw raw' : Raw) (retro : Prefix)
      (names : (Bytes × List Bytes × List Warning) ⊎ ParamsError E)
      → o.new c.provider raw ≡ o.new c.provider raw'
      → by_names c raw retro names ≡ by_names c raw' retro names
  unfolding by_names
  by_names-same c raw raw' retro (inr e) h = refl
  by_names-same c raw raw' retro (inl names) h =
      make_with-same c raw raw' retro names (version_of c.ip_version) h

  make_settings-by_names :
      (c : CommonSettings) (raw : Raw) (retro : Prefix)
      → make_settings_from_object o c raw retro ≡ (
          if beq c.provider (codes "google")
          then failed [] (no_longer_supported c.provider)
          else by_names c raw retro (names_of o.effective c))
  unfolding make_settings_from_object
  make_settings-by_names c raw retro =
      ap
        (λ m.
          if beq c.provider (codes "google") then failed [] (no_longer_supported c.provider) else m)
        (chosen (names_of o.effective c))
    where
      chosen :
          (x : (Bytes × List Bytes × List Warning) ⊎ ParamsError E)
          → (elim x as (λ y. Made P E) [
            | inr e ↦ failed [] e
            | inl names ↦ make_with o c raw retro names (version_of c.ip_version)
          ])
            ≡ by_names c raw retro x
      chosen (inr e) = unfold by_names in refl
      chosen (inl names) = unfold by_names in refl

  make_settings-same :
      (c : CommonSettings) (raw raw' : Raw) (retro : Prefix)
      → o.new c.provider raw ≡ o.new c.provider raw'
      → make_settings_from_object o c raw retro ≡ make_settings_from_object o c raw' retro
  make_settings-same c raw raw' retro h =
      rw
        (
          make_settings-by_names c raw retro,
          make_settings-by_names c raw' retro,
          by_names-same c raw raw' retro (names_of o.effective c) h,
        )
        refl

  -- A round of the loop, from what the object gives.
  next_round :
      Prefix → List CommonSettings → List P → List Warning → List Raw → Made P E → Option (Made P E)
  unfolding extract_each failed
  next_round retro cs ps ws raws m = elim m.error [
    | some e ↦ some (failed (ws ++ m.warnings) e)
    | none ↦ extract_each o retro cs raws (ps ++ m.providers) (ws ++ m.warnings)
  ]

  next_round-same :
      (retro : Prefix) (cs : List CommonSettings) (ps : List P) (ws : List Warning)
      (raws raws' : List Raw) (m : Made P E)
      → ((ps' : List P) (ws' : List Warning)
          → extract_each o retro cs raws ps' ws' ≡ extract_each o retro cs raws' ps' ws')
      → next_round retro cs ps ws raws m ≡ next_round retro cs ps ws raws' m
  unfolding next_round
  next_round-same retro cs ps ws raws raws' m same = elim (Option-cases m.error) [
    | inl none_of ↦ rw none_of (same (ps ++ m.providers) (ws ++ m.warnings))
    | inr (e, some_of) ↦ rw some_of refl
  ]

  extract_each-next :
      (retro : Prefix) (c : CommonSettings) (cs : List CommonSettings) (raw : Raw) (raws : List Raw)
      (ps : List P) (ws : List Warning)
      → extract_each o retro (c ∷ cs) (raw ∷ raws) ps ws
        ≡ next_round retro cs ps ws raws (make_settings_from_object o c raw retro)
  unfolding extract_each next_round
  extract_each-next retro c cs raw raws ps ws = refl

  extract_each-same :
      (retro : Prefix) (cs : List CommonSettings) (raws raws' : List Raw) (ps : List P)
      (ws : List Warning)
      → IgnoresSpace
      → map compact raws ≡ map compact raws'
      → extract_each o retro cs raws ps ws ≡ extract_each o retro cs raws' ps ws
  extract_each-same retro [] raws raws' ps ws blind h = unfold extract_each in refl
  extract_each-same retro (c ∷ cs) [] [] ps ws blind h = refl
  extract_each-same retro (c ∷ cs) [] (raw' ∷ raws') ps ws blind h = cc
  extract_each-same retro (c ∷ cs) (raw ∷ raws) [] ps ws blind h = cc
  extract_each-same retro (c ∷ cs) (raw ∷ raws) (raw' ∷ raws') ps ws blind h =
      let first : compact raw ≡ compact raw' = cc in
      let rest : map compact raws ≡ map compact raws' = cc in
      let same = sym (blind c.provider raw) ∙ ap (o.new c.provider) first ∙ blind c.provider raw' in
      extract_each-next retro c cs raw raws ps ws
      ∙ ap (next_round retro cs ps ws raws) (make_settings-same c raw raw' retro same)
      ∙ next_round-same retro cs ps ws raws raws' (make_settings_from_object o c raw' retro)
          (λ ps' ws'. extract_each-same retro cs raws raws' ps' ws' blind rest)
      ∙ sym (extract_each-next retro c cs raw' raws' ps ws)

  extract_parts-same :
      (commons : List CommonSettings ⊎ Error) (raws raws' : List Raw ⊎ Error)
      (retro : Prefix ⊎ ParamsError E)
      → IgnoresSpace
      → compacted raws ≡ compacted raws'
      → extract_parts o commons raws retro ≡ extract_parts o commons raws' retro
  unfolding extract_parts compacted
  extract_parts-same (inr e) raws raws' retro blind h = refl
  extract_parts-same (inl cs) (inr e) (inr e') retro blind h = cc
  extract_parts-same (inl cs) (inr e) (inl raws') retro blind h = cc
  extract_parts-same (inl cs) (inl raws) (inr e') retro blind h = cc
  extract_parts-same (inl cs) (inl raws) (inl raws') (inr e) blind h = refl
  extract_parts-same (inl cs) (inl raws) (inl raws') (inl retro) blind h =
      let same : map compact raws ≡ map compact raws' = cc in
      extract_each-same retro cs raws raws' [] [] blind same

  pub extract_indented :
      (config content : Bytes)
      → IgnoresSpace
      → KeepsValues config
      → o.indent config ≡ inl content
      → extract_all_settings o content ≡ extract_all_settings o config
  unfolding extract_all_settings
  extract_indented config content blind keeps indented =
      let (common, raw) = keeps content indented in
      rw common (
        extract_parts-same (o.unmarshal_common config) (o.unmarshal_raw content)
          (o.unmarshal_raw config) (get_retro_ipv6_suffix o.ipv6_prefix) blind raw)
