-- ===== src/PluginApi/Lock/Upgrade.antt =====
-- The engine transition of the updater, `record_engine_upgrade` of crates/plugin-api/src/lib.rs.
use open_soverign_blog.Prelude.{
  subst, ◌≡◌, refl, sym, ap₂, ◌↔◌, Bool, true, false, not, Option, some, List, [], ◌∷◌, arith, All,
  ok, err, then_iff, reject_iff, ◌||◌,
}
use open_soverign_blog.Text.{Text, text_eq, text_eq_iff}
use open_soverign_blog.PluginApi.Records.{Library, InstallationLock, InstalledDlc}
use open_soverign_blog.PluginApi.Validation.{Check, validate_dlc}
use open_soverign_blog.PluginApi.Lock.{
  validate_lock, expected_digest, refresh_digest, upgraded, check_upgrade, then_upgrade,
  record_engine_upgrade,
}
use open_soverign_blog.PluginApi.Lock.Valid.{
  digest_of, some_or_iff, IsLock, IsDlc, validate_lock_iff,
}

-- The lock with another version, source and artifact of the engine, and no digest.
abbrev pub retargeted : Text → Text → Option Text → InstallationLock → InstallationLock
retargeted to source artifact lock = record lock {
  engine = record lock.engine { version = to; source = source; artifact_sha256 = artifact };
  lock_digest = [];
}

module _ (lib : Library) where
  -- The target is a version greater than the source.
  pub record Ascends (from to : Text) : Type 0 where
    pub source : lib.Version
    pub source_parsed : lib.parse from ≡ some source
    pub target : lib.Version
    pub target_parsed : lib.parse to ≡ some target
    pub less : lib.lt source target ≡ true

  source_iff : (s t : Text) → (not (text_eq s t) ≡ false) ↔ (s ≡ t)
  source_iff s t =
      let (to, of) = text_eq_iff s t in (λ h. to (ground arith), λ e. ground (arith, of e))

  less_iff : (b : Bool) → (not b ≡ false) ↔ (b ≡ true)
  less_iff b = (λ h. ground arith, λ h. ground arith)

  check_upgrade-ok_iff :
      (from to : Text) (lock : InstallationLock)
      → (check_upgrade lib from to lock ≡ ok tt)
        ↔ (IsLock lib lock × (lock.engine.version ≡ from) × Ascends from to)
  unfolding check_upgrade
  check_upgrade-ok_iff from to lock =
      let (go, back) = then_iff _ _ (validate_lock_iff lib lock) (
        then_iff _ _ (reject_iff _ _ (source_iff lock.engine.version from)) (
          some_or_iff (lib.parse from) "engine upgrade from" _ (λ f.
            some_or_iff (lib.parse to) "engine upgrade to" _
              (λ t. reject_iff _ _ (less_iff (lib.lt f t)))))) in
      (
        λ h.
            let (valid, (same, (f, source, (t, target, less)))) = go h in
            (
              valid,
              same,
              record {
                source = f;
                source_parsed = source;
                target = t;
                target_parsed = target;
                less = less;
              },
            ),
        λ h.
            let a = h.2 in
            back (h.0, (h.1, (a.source, a.source_parsed, (a.target, a.target_parsed, a.less)))),
      )

  then_upgrade-ok_iff :
      (lock next after : InstallationLock) (m : Check)
      → (then_upgrade lib lock next m ≡ (after, ok tt))
        ↔ ((m ≡ ok tt) × (validate_lock lib next ≡ ok tt) × (after ≡ next))
  then_upgrade-ok_iff lock next after (ok u) =
      (λ h. (refl, cc, cc), λ h. ap₂ (λ a b. (a, b)) (sym h.2) h.1)
  then_upgrade-ok_iff lock next after (err e) = (λ h. cc, λ h. cc (h.0))

  -- An upgrade succeeds exactly when the lock is valid, its engine has the source version, the target
  -- is a greater version, and the lock with the target version, the new source and artifact and the
  -- digest of itself without a digest is valid. That lock is then the new one.
  pub record_engine_upgrade-ok_iff :
      (from to source : Text) (artifact : Option Text) (lock after : InstallationLock)
      → (record_engine_upgrade lib from to source artifact lock ≡ (after, ok tt)) ↔ (
          IsLock lib lock
          × (lock.engine.version ≡ from)
          × Ascends from to
          × IsLock lib after
          × (after ≡ record (retargeted to source artifact lock) {
            lock_digest = digest_of lib (retargeted to source artifact lock);
          }))
  unfolding record_engine_upgrade refresh_digest expected_digest
  record_engine_upgrade-ok_iff from to source artifact lock after =
      let next = upgraded lib to source artifact lock in
      let (split, join) = then_upgrade-ok_iff lock next after (check_upgrade lib from to lock) in
      let (checked, check) = check_upgrade-ok_iff from to lock in
      let (valid, of_valid) = validate_lock_iff lib next in
      (
        λ h.
            let (c, v, same) = split h in
            let (old, version, ascends) = checked c in
            (old, version, ascends, subst (IsLock lib) (sym same) (valid v), same),
        λ h.
            let (old, version, ascends, is_lock, same) = h in
            join (check (old, version, ascends), of_valid (subst (IsLock lib) same is_lock), same),
      )

  -- The core requirement of a record, and that the version satisfies it.
  pub record RunsOn (version : Text) (d : InstalledDlc) : Type 0 where
    pub engine : lib.Version
    pub engine_parsed : lib.parse version ≡ some engine
    pub core : lib.Requirement
    pub core_parsed : lib.parse_req d.core_compatibility ≡ some core
    pub is_met : lib.matches core engine ≡ true

  -- What a valid record says of its versions; the rest of the chain stands for itself.
  either_iff : (a b : Bool) → ((not a || not b) ≡ false) ↔ ((a ≡ true) × (b ≡ true))
  either_iff a b = (λ h. (ground arith, ground arith), λ h. ground arith)

  IsDlc-RunsOn :
      (version : Text) (v : lib.Version) (d : InstalledDlc)
      → lib.parse version ≡ some v
      → IsDlc lib v d
      → RunsOn version d
  unfolding validate_dlc
  IsDlc-RunsOn version v d parsed valid =
      let (to, of) =
        then_iff _ _ (λ h. h, λ h. h)
          (some_or_iff (lib.parse_req d.requested_version) _ _ (λ r.
            some_or_iff (lib.parse d.version) _ _ (λ w.
              some_or_iff (lib.parse_req d.core_compatibility) _ _ (λ c.
                then_iff _ _ (reject_iff _ _ (either_iff (lib.matches r w) (lib.matches c v)))
                  (λ h. h, λ h. h))))) in
      let (id, (r, requested, (w, own, (c, core, (met, rest))))) = to valid in
      record { engine = v; engine_parsed = parsed; core = c; core_parsed = core; is_met = met.1 }

  RunsOn-All :
      (version : Text) (v : lib.Version) (ds : List InstalledDlc)
      → lib.parse version ≡ some v
      → All (IsDlc lib v) ds
      → All (RunsOn version) ds
  RunsOn-All version v [] parsed h = tt
  RunsOn-All version v (d ∷ ds) parsed h =
      (IsDlc-RunsOn version v d parsed h.0, RunsOn-All version v ds parsed h.1)

  -- A successful upgrade keeps the installation, the selection, the DLC records and the history, leaves
  -- the target version in the lock, and every DLC in it runs on that version by its core requirement.
  pub record_engine_upgrade-RunsOn :
      (from to source : Text) (artifact : Option Text) (lock after : InstallationLock)
      → record_engine_upgrade lib from to source artifact lock ≡ (after, ok tt)
      → (after.engine.version ≡ to)
        × All (RunsOn to) after.dlcs
        × (after.dlcs ≡ lock.dlcs)
        × (after.retained_dlcs ≡ lock.retained_dlcs)
        × (after.history ≡ lock.history)
        × (after.selection ≡ lock.selection)
        × (after.installation_id ≡ lock.installation_id)
  unfolding refresh_digest
  record_engine_upgrade-RunsOn from to source artifact lock after h =
      let (old, version, ascends, valid, same) =
        (record_engine_upgrade-ok_iff from to source artifact lock after).0 h in
      let there = subst (IsLock lib) same valid in
      rw same (
        refl,
        RunsOn-All to there.engine_version lock.dlcs there.engine_parsed there.dlcs,
        refl,
        refl,
        refl,
        refl,
        refl,
      )
