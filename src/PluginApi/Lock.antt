-- ===== src/PluginApi/Lock.antt =====
-- The installation lock of crates/plugin-api/src/lib.rs: its validation, and the engine
-- transition of the updater.
pub mod Valid
pub mod Upgrade
use Prim.Native.String.{String}
use open_soverign_blog.Prelude.{
  ℕ, ◌+◌, ◌^◌, ◌-◌, Bool, true, false, ◌&&◌, ◌||◌, not, Option, none, some, List, [], ◌∷◌, ltb,
  ◌==◌, if◌then◌else◌, length, is_empty, is_some, is_some_and, any, map, min, Result, ok, err,
  ◌>>=◌, ◌>>◌, reject_if,
}
use open_soverign_blog.Text.{Text, codes, text_eq, text_lt, has_text}
use open_soverign_blog.Kernel.Content.{Url}
use open_soverign_blog.PluginApi.Names.{
  valid_plugin_id, qualified_name, valid_style_id, valid_capability_name, safe_relative_path,
  valid_sha256, bounded_install_text, strictly_sorted_unique, all_unique,
}
use open_soverign_blog.PluginApi.Records.{
  plugin_manifest_version, plugin_api_version, install_lock_schema_version, InstallContractError,
  InstallationAdminAuth, InstallationCache, InstallationStyleKind, InstallationStyle,
  InstallationSelection, LockedEngine, InstalledDlcSourceKind, InstalledDlc, RetainedDlcState,
  DlcHistoryAction, DlcHistoryRecord, InstallationLock, Library, unsupported_schema, invalid,
  digest_mismatch, access_key, external, disabled, no_cache, redis_standalone, redis_managed,
  no_style, builtin, custom, bundled, file, https, was_installed, was_enabled, was_disabled,
  was_upgraded, was_removed,
}
use open_soverign_blog.PluginApi.Validation.{
  Check, some_or, bad_digest, validate_style, is_safe_url, option_eq, validate_engine, bad_material,
  check_source, bad_lists, validate_dlc, validate_retained, is_upgrade, versions_are_valid,
  check_version, validate_record,
}
use open_soverign_blog.PluginApi.Json.{canonical_json}

-- `previous.is_some_and(|previous| previous >= id)`
unfoldable pub out_of_order : Option Text → Text → Bool
out_of_order previous id = is_some_and previous (λ p. not (text_lt p id))

module _ (lib : Library) where
  unfoldable pub validate_each_dlc : lib.Version → Option Text → List InstalledDlc → Check
  validate_each_dlc engine_version previous [] = ok tt
  validate_each_dlc engine_version previous (d ∷ ds) =
      let rest = validate_each_dlc engine_version (some d.id) ds in
      do
        reject_if (out_of_order previous d.id)
            (invalid "DLC lock records must be uniquely sorted by id")
        validate_dlc lib engine_version d
        rest

  unfoldable pub validate_each_retained : List Text → Option Text → List RetainedDlcState → Check
  validate_each_retained active previous [] = ok tt
  validate_each_retained active previous (r ∷ rs) =
      let rest = validate_each_retained active (some r.id) rs in
      do
        reject_if (out_of_order previous r.id)
            (invalid "retained DLC state must be uniquely sorted by id")
        reject_if (has_text active r.id)
            (invalid "active and retained DLC records cannot share an id")
        validate_retained lib r
        rest

  -- `u64::try_from(index)` succeeds for every index of a vector
  unfoldable pub validate_each_record : ℕ → List DlcHistoryRecord → Check
  validate_each_record index [] = ok tt
  validate_each_record index (r ∷ rs) =
      let rest = validate_each_record (index + 1) rs in
      do
        reject_if (not (r.sequence == min (index + 1) (2 ^ 64 - 1)))
            (invalid "DLC history sequence must be contiguous and start at one")
        validate_record lib r
        rest

  -- `expected_digest`
  unfoldable pub expected_digest : InstallationLock → Text
  expected_digest lock =
      lib.sha256_hex
        (lib.json_text (canonical_json (lib.lock_value (record lock { lock_digest = [] }))))

  -- `refresh_digest`
  unfoldable pub refresh_digest : InstallationLock → InstallationLock
  refresh_digest lock = record lock { lock_digest = expected_digest lock }

  -- `InstallationLock::validate`
  unfoldable pub validate_lock : InstallationLock → Check
  validate_lock lock = do
    reject_if (not (text_eq lock.schema_version install_lock_schema_version))
        (unsupported_schema lock.schema_version)
    reject_if (not (lib.uuid_parses lock.installation_id)) (invalid "installation_id")
    validate_engine lib lock.engine
    validate_style lock.selection.style
    reject_if (ltb 256 (length lock.dlcs)) (invalid "DLC lock exceeds 256 records")
    reject_if (ltb 256 (length lock.retained_dlcs))
        (invalid "retained DLC state exceeds 256 records")
    engine_version ← some_or (lib.parse lock.engine.version) "engine.version"
    validate_each_dlc engine_version none lock.dlcs
    validate_each_retained (map InstalledDlc.id lock.dlcs) none lock.retained_dlcs
    validate_each_record 0 lock.history
    reject_if
        (not (valid_sha256 lock.lock_digest)
          || not (text_eq lock.lock_digest (expected_digest lock)))
        digest_mismatch

  -- The engine of `record_engine_upgrade` and the digest of the whole.
  abbrev pub upgraded : Text → Text → Option Text → InstallationLock → InstallationLock
  upgraded to source artifact_sha256 lock = refresh_digest (record lock {
    engine = record lock.engine {
      version = to;
      source = source;
      artifact_sha256 = artifact_sha256;
    };
  })

  -- The tests in front of the transition.
  unfoldable pub check_upgrade : Text → Text → InstallationLock → Check
  check_upgrade from to lock = do
    validate_lock lock
    reject_if (not (text_eq lock.engine.version from))
        (invalid "engine upgrade source version differs from the current lock")
    from_version ← some_or (lib.parse from) "engine upgrade from"
    to_version ← some_or (lib.parse to) "engine upgrade to"
    reject_if (not (lib.lt from_version to_version))
        (invalid "engine upgrade target must be greater than its source")

  abbrev pub then_upgrade : InstallationLock → InstallationLock → Check → InstallationLock × Check
  then_upgrade lock next (err e) = (lock, err e)
  then_upgrade lock next (ok u) = (next, validate_lock next)

  -- `record_engine_upgrade`: what the lock is afterwards, and the result. A lock that fails the last
  -- validation has been changed already.
  unfoldable pub record_engine_upgrade :
      Text → Text → Text → Option Text → InstallationLock → InstallationLock × Check
  record_engine_upgrade from to source artifact_sha256 lock =
      then_upgrade lock (upgraded to source artifact_sha256 lock) (check_upgrade from to lock)
