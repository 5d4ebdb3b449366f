-- ===== src/PluginApi/Lock/Valid.antt =====
-- Which installation locks crates/plugin-api/src/lib.rs accepts.
use Prim.Native.String.{String}
use open_soverign_blog.Prelude.{
  ℕ, ◌+◌, ◌-◌, ◌^◌, ◌≤◌, ◌≡◌, refl, ◌↔◌, true, false, not, Option, none, some, List, [], ◌∷◌, map,
  arith, All, In, IfSome, length, min, Result, ok, ◌>>=◌, then_iff, reject_iff, false_iff, subst,
  ◌==◌, ◌||◌, Bool, ltb,
}
use open_soverign_blog.Text.{Text, text_lt, has_text, has_text_iff, text_eq, text_eq_iff}
use open_soverign_blog.PluginApi.Json.{canonical_json}
use open_soverign_blog.PluginApi.Names.{valid_sha256}
use open_soverign_blog.PluginApi.Records.{
  Library, InstallContractError, InstallationLock, InstalledDlc, RetainedDlcState, DlcHistoryRecord,
  install_lock_schema_version,
}
use open_soverign_blog.PluginApi.Validation.{
  some_or, validate_style, validate_engine, validate_dlc, validate_retained, validate_record,
}
use open_soverign_blog.PluginApi.Lock.{
  out_of_order, validate_each_dlc, validate_each_retained, validate_each_record, expected_digest,
  validate_lock,
}

-- A parsed value is used exactly when there is one.
pub some_or_iff :
    {A : Type 0} {P : A → Type 0} (o : Option A) (message : String)
    (f : A → Result (Unit {0}) InstallContractError)
    → ((a : A) → (f a ≡ ok tt) ↔ P a)
    → ((some_or o message >>= f) ≡ ok tt) ↔ ((a : A) × (o ≡ some a) × P a)
some_or_iff none message f iff = (λ h. cc, λ h. cc (h.1))
some_or_iff {A} {P} (some a) message f iff = (
  λ h. (a, refl, (iff a).0 h),
  λ h. let same : h.0 ≡ a = cc (h.1) in (iff a).1 (subst P same h.2),
)

-- The digest of a lock as it stands: the hash of its canonical text.
abbrev pub digest_of : Library → InstallationLock → Text
digest_of lib lock = lib.sha256_hex (lib.json_text (canonical_json (lib.lock_value lock)))

-- Strictly increasing texts behind one that may be there.
abbrev pub Ascending : Option Text → List Text → Type 0
Ascending previous [] = Unit
Ascending previous (t ∷ ts) = IfSome (λ p. text_lt p t ≡ true) previous × Ascending (some t) ts

order_iff :
    (previous : Option Text) (id : Text)
    → (out_of_order previous id ≡ false) ↔ IfSome (λ p. text_lt p id ≡ true) previous
unfolding out_of_order
order_iff none id = (λ h. tt, λ h. refl)
order_iff (some p) id = (λ h. ground arith, λ h. ground arith)

-- History records are numbered from one.
abbrev pub Numbered : ℕ → List DlcHistoryRecord → Type 0
Numbered index [] = Unit
Numbered index (r ∷ rs) = (r.sequence ≡ min (index + 1) (2 ^ 64 - 1)) × Numbered (index + 1) rs

module _ (lib : Library) where
  abbrev pub IsDlc : lib.Version → InstalledDlc → Type 0
  IsDlc engine_version d = validate_dlc lib engine_version d ≡ ok tt

  abbrev pub IsRetained : RetainedDlcState → Type 0
  IsRetained r = validate_retained lib r ≡ ok tt

  abbrev pub IsRecord : DlcHistoryRecord → Type 0
  IsRecord r = validate_record lib r ≡ ok tt

  dlcs_iff :
      (v : lib.Version) (previous : Option Text) (ds : List InstalledDlc)
      → (validate_each_dlc lib v previous ds ≡ ok tt)
        ↔ (Ascending previous (map InstalledDlc.id ds) × All (IsDlc v) ds)
  unfolding validate_each_dlc
  dlcs_iff v previous [] = (λ h. (tt, tt), λ h. refl)
  dlcs_iff v previous (d ∷ ds) =
      let (to, of) =
        then_iff _ _ (reject_iff _ _ (order_iff previous d.id))
          (then_iff _ _ (λ h. h, λ h. h) (dlcs_iff v (some d.id) ds)) in
      (
        λ h. let (first, (good, (ascending, each))) = to h in ((first, ascending), (good, each)),
        λ h. of (h.0.0, (h.1.0, (h.0.1, h.1.1))),
      )

  retained_iff :
      (active : List Text) (previous : Option Text) (rs : List RetainedDlcState)
      → (validate_each_retained lib active previous rs ≡ ok tt) ↔ (
          Ascending previous (map RetainedDlcState.id rs)
          × All (λ r. (¬ In r.id active) × IsRetained r) rs)
  unfolding validate_each_retained
  retained_iff active previous [] = (λ h. (tt, tt), λ h. refl)
  retained_iff active previous (r ∷ rs) =
      let (to, of) = then_iff _ _ (reject_iff _ _ (order_iff previous r.id)) (
        then_iff _ _ (reject_iff _ _ (false_iff (has_text active r.id) (has_text_iff active r.id)))
          (then_iff _ _ (λ h. h, λ h. h) (retained_iff active (some r.id) rs))) in
      (
        λ h.
            let (first, (apart, (good, (ascending, each)))) = to h in
            ((first, ascending), ((apart, good), each)),
        λ h. of (h.0.0, (h.1.0.0, (h.1.0.1, (h.0.1, h.1.1)))),
      )

  number_iff : (m n : ℕ) → (not (m == n) ≡ false) ↔ (m ≡ n)
  number_iff m n = (λ h. ground arith, λ h. ground arith)

  history_iff :
      (index : ℕ) (rs : List DlcHistoryRecord)
      → (validate_each_record lib index rs ≡ ok tt) ↔ (Numbered index rs × All IsRecord rs)
  unfolding validate_each_record
  history_iff index [] = (λ h. (tt, tt), λ h. refl)
  history_iff index (r ∷ rs) =
      let (to, of) =
        then_iff _ _ (reject_iff _ _ (number_iff r.sequence (min (index + 1) (2 ^ 64 - 1))))
          (then_iff _ _ (λ h. h, λ h. h) (history_iff (index + 1) rs)) in
      (
        λ h. let (first, (good, (numbered, each))) = to h in ((first, numbered), (good, each)),
        λ h. of (h.0.0, (h.1.0, (h.0.1, h.1.1))),
      )

  -- What a valid lock is.
  pub record IsLock (lock : InstallationLock) : Type 0 where
    pub schema_version : lock.schema_version ≡ install_lock_schema_version
    pub installation_id : lib.uuid_parses lock.installation_id ≡ true
    pub engine : validate_engine lib lock.engine ≡ ok tt
    pub style : validate_style lock.selection.style ≡ ok tt
    pub dlcs_size : length lock.dlcs ≤ 256
    pub retained_size : length lock.retained_dlcs ≤ 256
    pub engine_version : lib.Version
    pub engine_parsed : lib.parse lock.engine.version ≡ some engine_version
    pub dlcs_ascending : Ascending none (map InstalledDlc.id lock.dlcs)
    pub dlcs : All (IsDlc engine_version) lock.dlcs
    pub retained_ascending : Ascending none (map RetainedDlcState.id lock.retained_dlcs)
    pub retained :
        All (λ r. (¬ In r.id (map InstalledDlc.id lock.dlcs)) × IsRetained r) lock.retained_dlcs
    pub numbered : Numbered 0 lock.history
    pub records : All IsRecord lock.history
    pub digest_shape : valid_sha256 lock.lock_digest ≡ true
    pub digest : lock.lock_digest ≡ digest_of lib (record lock { lock_digest = [] })

  digest_tests_iff :
      (lock : InstallationLock)
      → (not (valid_sha256 lock.lock_digest)
            || not (text_eq lock.lock_digest (expected_digest lib lock))
          ≡ false)
        ↔ ((valid_sha256 lock.lock_digest ≡ true)
            × (lock.lock_digest ≡ digest_of lib (record lock { lock_digest = [] })))
  unfolding expected_digest
  digest_tests_iff lock =
      let (to, of) = text_eq_iff lock.lock_digest (expected_digest lib lock) in
      (λ h. (ground arith, to (ground arith)), λ h. ground (arith, h.0, of h.1))

  schema_iff :
      (t : Text)
      → (not (text_eq t install_lock_schema_version) ≡ false) ↔ (t ≡ install_lock_schema_version)
  schema_iff t =
      let (to, of) = text_eq_iff t install_lock_schema_version in
      (λ h. to (ground arith), λ e. ground (arith, of e))

  not-true_iff : (b : Bool) → (not b ≡ false) ↔ (b ≡ true)
  not-true_iff b = (λ h. ground arith, λ h. ground arith)

  size_iff : (n : ℕ) → (ltb 256 n ≡ false) ↔ (n ≤ 256)
  size_iff n = (λ h. ground arith, λ h. ground arith)

  -- A lock is accepted exactly when its schema version, installation, engine and style are valid, it
  -- has at most 256 active and 256 retained DLC records, each list strictly ascending by identifier
  -- and none in both, every active record is valid for the parsed engine version and every retained
  -- one by itself, the history is valid and numbered from one, and the digest is a SHA-256 digest and
  -- that of the lock with its digest cleared.
  pub validate_lock_iff : (lock : InstallationLock) → (validate_lock lib lock ≡ ok tt) ↔ IsLock lock
  unfolding validate_lock
  validate_lock_iff lock =
      let body = λ (v : lib.Version). then_iff _ _ (dlcs_iff v none lock.dlcs) (
        then_iff _ _ (retained_iff (map InstalledDlc.id lock.dlcs) none lock.retained_dlcs)
          (then_iff _ _ (history_iff 0 lock.history) (reject_iff _ _ (digest_tests_iff lock)))) in
      let (to, of) = then_iff _ _ (reject_iff _ _ (schema_iff lock.schema_version)) (
        then_iff _ _ (reject_iff _ _ (not-true_iff (lib.uuid_parses lock.installation_id))) (
          then_iff _ _ (λ h. h, λ h. h)
            (then_iff _ _ (λ h. h, λ h. h)
              (then_iff _ _ (reject_iff _ _ (size_iff (length lock.dlcs))) (
                then_iff _ _ (reject_iff _ _ (size_iff (length lock.retained_dlcs)))
                  (some_or_iff (lib.parse lock.engine.version) "engine.version" _ body)))))) in
      (
        λ h.
            let (schema, (id, (engine, (style, (few, (few_retained, (v, parsed, rest))))))) =
              to h in
            let (
              (ascending, dlcs),
              ((retained_ascending, retained), ((numbered, records), (shape, digest))),
            ) =
              rest in
            record {
              schema_version = schema;
              installation_id = id;
              engine = engine;
              style = style;
              dlcs_size = few;
              retained_size = few_retained;
              engine_version = v;
              engine_parsed = parsed;
              dlcs_ascending = ascending;
              dlcs = dlcs;
              retained_ascending = retained_ascending;
              retained = retained;
              numbered = numbered;
              records = records;
              digest_shape = shape;
              digest = digest;
            },
        λ l. of (
          l.schema_version,
          (
            l.installation_id,
            (
              l.engine,
              (
                l.style,
                (
                  l.dlcs_size,
                  (
                    l.retained_size,
                    (
                      l.engine_version,
                      l.engine_parsed,
                      (
                        (l.dlcs_ascending, l.dlcs),
                        (
                          (l.retained_ascending, l.retained),
                          ((l.numbered, l.records), (l.digest_shape, l.digest)),
                        ),
                      ),
                    ),
                  ),
                ),
              ),
            ),
          ),
        ),
      )
