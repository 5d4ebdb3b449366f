-- ===== src/PluginApi/Validation.antt =====
-- The `validate` methods of the parts of an installation lock of crates/plugin-api/src/lib.rs.
use Prim.Native.String.{String}
use open_soverign_blog.Prelude.{
  Bool, true, false, ◌&&◌, ◌||◌, not, Option, none, some, ◌==◌, is_empty, is_some, is_some_and, any,
  Result, ok, err, ◌>>=◌, ◌>>◌, reject_if,
}
use open_soverign_blog.Text.{Text, codes, text_eq}
use open_soverign_blog.Kernel.Content.{Url}
use open_soverign_blog.PluginApi.Names.{
  valid_plugin_id, qualified_name, valid_style_id, valid_capability_name, safe_relative_path,
  valid_sha256, bounded_install_text, strictly_sorted_unique, all_unique,
}
use open_soverign_blog.PluginApi.Records.{
  plugin_manifest_version, plugin_api_version, InstallContractError, InstallationStyle,
  LockedEngine, InstalledDlcSourceKind, InstalledDlc, RetainedDlcState, DlcHistoryAction,
  DlcHistoryRecord, Library, invalid, no_style, builtin, custom, bundled, file, https,
  was_installed, was_enabled, was_disabled, was_upgraded, was_removed,
}

abbrev pub Check : Type 0
Check = Result (Unit {0}) InstallContractError

abbrev pub some_or {ℓ} : {A : Type ℓ} → Option A → String → Result A InstallContractError
some_or none message = err (invalid message)
some_or (some a) message = ok a

abbrev pub bad_digest : Text → Bool
bad_digest digest = not (valid_sha256 digest)

unfoldable pub validate_style : InstallationStyle → Check
validate_style s = elim (s.kind) [
  | no_style ↦
      reject_if (is_some s.id || is_some s.file || is_some s.sha256)
        (invalid "style kind none cannot include id, file, or sha256")
  | builtin ↦
      reject_if (not (is_some_and s.id valid_style_id) || is_some s.file || is_some s.sha256)
        (invalid "builtin style requires only a lowercase stable id")
  | custom ↦
      reject_if
        (is_some s.id
          || not (is_some_and s.file safe_relative_path)
          || not (is_some_and s.sha256 valid_sha256))
        (invalid "custom style requires only a safe installed file and sha256")
]

-- The closure on the URL of a downloaded DLC.
unfoldable pub is_safe_url : Url → Bool
is_safe_url url =
    text_eq url.scheme (codes "https")
    && is_some url.host_str
    && is_empty url.username
    && not (is_some url.password)
    && not (is_some url.fragment)

abbrev pub option_eq : Option Text → Option Text → Bool
option_eq none none = true
option_eq (some s) (some t) = text_eq s t
option_eq _ _ = false

module _ (lib : Library) where
  unfoldable pub validate_engine : LockedEngine → Check
  validate_engine e = do
    v ← some_or (lib.parse e.version) "engine.version"
    reject_if (not (text_eq e.plugin_api plugin_api_version))
        (invalid "engine plugin API is unsupported")
    reject_if
        (e.database_schema_version == 0
          || not (bounded_install_text e.config_schema_version 1 128)
          || not (bounded_install_text e.source 1 2048)
          || is_some_and e.artifact_sha256 bad_digest)
        (invalid "engine lock record is invalid")

  unfoldable pub bad_material : InstalledDlc → Bool
  bad_material d =
      not (d.manifest_version == plugin_manifest_version)
      || not (text_eq d.plugin_api plugin_api_version)
      || not (valid_sha256 d.manifest_sha256)
      || is_some_and d.artifact_sha256 bad_digest
      || is_some_and d.config_sha256 bad_digest
      || is_some_and d.state_version (λ version. version == 0)

  unfoldable pub check_source : InstalledDlcSourceKind → InstalledDlc → Check
  check_source bundled d =
      reject_if (not (bounded_install_text d.source 1 512))
        (invalid "bundled DLC source is invalid")
  check_source file d =
      reject_if (not (safe_relative_path d.source) || not (is_some d.artifact_sha256))
        (invalid "file DLC requires a safe relative source and artifact digest")
  check_source https d =
      reject_if
        (not (is_some_and (lib.parse_url d.source) is_safe_url) || not (is_some d.artifact_sha256))
        (invalid "HTTPS DLC requires a safe URL and artifact digest")

  unfoldable pub bad_lists : InstalledDlc → Bool
  bad_lists d =
      not (strictly_sorted_unique d.approved_capabilities)
      || any (λ value. not (valid_capability_name value)) d.approved_capabilities
      || not (all_unique d.applied_migrations)
      || any (λ value. not (qualified_name value)) d.applied_migrations

  -- `InstalledDlc::validate`
  unfoldable pub validate_dlc : lib.Version → InstalledDlc → Check
  validate_dlc engine_version d = do
    reject_if (not (valid_plugin_id d.id)) (invalid "installed DLC id is invalid")
    requested ← some_or (lib.parse_req d.requested_version) "installed DLC requested_version"
    version ← some_or (lib.parse d.version) "installed DLC version"
    core ← some_or (lib.parse_req d.core_compatibility) "installed DLC core_compatibility"
    reject_if (not (lib.matches requested version) || not (lib.matches core engine_version))
        (invalid "installed DLC does not satisfy its requested or core version range")
    reject_if (bad_material d) (invalid "installed DLC lock material is invalid")
    check_source d.source_kind d
    reject_if (bad_lists d) (invalid "DLC capabilities or applied migrations are invalid")

  -- `RetainedDlcState::validate`
  unfoldable pub validate_retained : RetainedDlcState → Check
  validate_retained r =
      reject_if
        (not (valid_plugin_id r.id)
          || not (is_some (lib.parse r.removed_version))
          || is_some_and r.state_version (λ version. version == 0)
          || not (all_unique r.applied_migrations)
          || any (λ value. not (qualified_name value)) r.applied_migrations)
        (invalid "retained DLC state is invalid")

  -- `from` and `to` of an upgrade, parsed again
  abbrev pub is_upgrade : Option Text → Option Text → Bool
  is_upgrade (some from) (some to) = elim (lib.parse from) [
    | none ↦ false
    | some f ↦ elim (lib.parse to) [ none ↦ false | some t ↦ lib.lt f t ]
  ]
  is_upgrade _ _ = false

  unfoldable pub versions_are_valid : DlcHistoryAction → Option Text → Option Text → Bool
  versions_are_valid was_installed from to = not (is_some from) && is_some to
  versions_are_valid was_upgraded from to = is_upgrade from to
  versions_are_valid was_removed from to = is_some from && not (is_some to)
  versions_are_valid was_enabled from to = is_some from && option_eq from to
  versions_are_valid was_disabled from to = is_some from && option_eq from to

  -- the two `if let`
  abbrev pub check_version : String → Option Text → Check
  check_version name none = ok tt
  check_version name (some version) = do v ← some_or (lib.parse version) name; ok tt

  -- `DlcHistoryRecord::validate`
  unfoldable pub validate_record : DlcHistoryRecord → Check
  unfolding versions_are_valid
  validate_record r = do
    reject_if (not (valid_plugin_id r.dlc_id)) (invalid "DLC history id is invalid")
    v ← some_or (lib.parse r.engine_version) "DLC history engine_version"
    check_version "DLC history from_version" r.from_version
    check_version "DLC history to_version" r.to_version
    reject_if (not (versions_are_valid r.action r.from_version r.to_version))
        (invalid "DLC history version transition is invalid")
