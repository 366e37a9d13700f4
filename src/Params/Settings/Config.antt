-- ===== src/Params/Settings/Config.antt =====
-- internal/params/json.go: JSONProviders, from the variable CONFIG or from the file config.json. The
-- file is its content, or `none` if it does not exist; a write that fails leaves it as it is.
use ddns_updater_beget.Common.{
  Bool, true, false, ◌&&◌, ◌⊎◌, inl, inr, [], ◌∷◌, Option, none, some, Bytes, codes, Error, beq,
  if◌then◌else◌, ◌>>=◌,
}
use ddns_updater_beget.Params.{ParamsError, not_read, not_written}
use ddns_updater_beget.Params.Settings.{Made, Outside, failed, extract_all_settings}

module _ {P E : Type 0} where
  -- Whether the three results are nil.
  unfoldable pub is_nothing : Made P E → Bool
  is_nothing m =
      (elim m.providers [ [] ↦ true | p ∷ ps ↦ false ])
      && ((elim m.warnings [ [] ↦ true | w ∷ ws ↦ false ])
          && (elim m.error [ none ↦ true | some e ↦ false ]))

  -- The error of a write added to what was read.
  unfoldable pub unwritten : Error → Made P E → Made P E
  unwritten e m = record m { error = some (not_written e) }

  -- The write of the indented configuration, unless there is an error.
  unfoldable pub write_config :
      Made P E
      → Option Bytes
      → Option (ParamsError E)
      → Bytes ⊎ Error
      → Option Error
      → Made P E × Option Bytes
  unfolding unwritten
  write_config m file (some e) indented write_error = (m, file)
  write_config m file none (inr e) write_error = (unwritten e m, file)
  write_config m file none (inl content) (some e) = (unwritten e m, file)
  write_config m file none (inl content) none = (m, some content)

module _ {P E Raw : Type 0} where
  -- getProvidersFromEnv, from the value of CONFIG
  unfoldable pub get_providers_from_env :
      Outside P E Raw → Bytes → Option Bytes → Option (Made P E × Option Bytes)
  unfolding extract_all_settings write_config beq
  get_providers_from_env o config file =
      if beq config []
      then some (record { providers = []; warnings = []; error = none }, file)
      else (extract_all_settings o config >>= λ m.
          some (write_config m file m.error (o.indent config) o.write_error))

  -- getProvidersFromFile
  unfoldable pub get_providers_from_file :
      Outside P E Raw → Option Bytes → Option (Made P E × Option Bytes)
  unfolding extract_all_settings failed
  get_providers_from_file o file = elim o.read_error [
    | some e ↦ some (failed [] (not_read e), file)
    | none ↦ elim file [
      | some content ↦ extract_all_settings o content >>= λ m. some (m, some content)
      | none ↦ elim o.write_error [
        | some e ↦ some (failed [] (not_written e), none)
        | none ↦ some (record { providers = []; warnings = []; error = none }, some (codes "{}"))
      ]
    ]
  ]

  -- JSONProviders
  unfoldable pub json_providers :
      Outside P E Raw → Bytes → Option Bytes → Option (Made P E × Option Bytes)
  unfolding get_providers_from_env get_providers_from_file is_nothing
  json_providers o config file = get_providers_from_env o config file >>= λ x.
      if is_nothing (x.0) then get_providers_from_file o (x.1) else some x
