-- ===== src/PluginApi/Intent/Accepted.antt =====
-- Which installation intents crates/plugin-api/src/lib.rs accepts.
use open_soverign_blog.Prelude.{
  ℕ, ◌≤◌, ◌≡◌, refl, ◌↔◌, Bool, true, false, not, some, List, [], ◌∷◌, map, arith, ltb, length, All,
  Distinct, ok, then_iff, reject_iff, false_iff,
}
use open_soverign_blog.Text.{
  Text, text_eq, text_eq_iff, has_text, has_text_iff, Apart, Apart-cons, Apart-tail, Apart-nil,
}
use open_soverign_blog.PluginApi.Names.{valid_plugin_id}
use open_soverign_blog.PluginApi.Records.{Library}
use open_soverign_blog.PluginApi.Validation.{validate_style}
use open_soverign_blog.PluginApi.Lock.Valid.{some_or_iff}
use open_soverign_blog.PluginApi.Intent.{
  install_intent_schema_version, RequestedDlc, InstallationIntent, validate_requested,
  validate_each_requested, validate_intent,
}

module _ (lib : Library) where
  -- A DLC with a valid identifier and a version requirement.
  pub record IsRequested (d : RequestedDlc) : Type 0 where
    pub id : valid_plugin_id d.id ≡ true
    pub requirement : lib.Requirement
    pub parsed : lib.parse_req d.version ≡ some requirement

  pub record IsIntent (i : InstallationIntent) : Type 0 where
    pub schema_version : i.schema_version ≡ install_intent_schema_version
    pub installation_id : lib.uuid_parses i.installation_id ≡ true
    pub site_id : lib.uuid_parses i.site_id ≡ true
    pub version : lib.Version
    pub created_with : lib.parse i.created_with ≡ some version
    pub style : validate_style i.selection.style ≡ ok tt
    pub size : length i.dlcs ≤ 256
    pub dlcs : All IsRequested i.dlcs
    pub distinct : Distinct (map RequestedDlc.id i.dlcs)

  true_iff : (b : Bool) → (not b ≡ false) ↔ (b ≡ true)
  true_iff b = (λ h. ground arith, λ h. ground arith)

  IsRequested-iff : (d : RequestedDlc) → (validate_requested lib d ≡ ok tt) ↔ IsRequested d
  unfolding validate_requested
  IsRequested-iff d =
      let (to, of) = then_iff _ _ (reject_iff _ _ (true_iff (valid_plugin_id d.id))) (
        some_or_iff (lib.parse_req d.version) "requested DLC version" (λ r. ok tt)
          (λ r. (λ h. tt, λ (u : Unit {0}). refl))) in
      (
        λ h.
            let (id, (r, parsed, u)) = to h in record { id = id; requirement = r; parsed = parsed },
        λ q. of (q.id, (q.requirement, q.parsed, tt)),
      )

  each_iff :
      (ids : List Text) (ds : List RequestedDlc)
      → (validate_each_requested lib ids ds ≡ ok tt) ↔ (
          All IsRequested ds
          × Distinct (map RequestedDlc.id ds)
          × Apart ids (map RequestedDlc.id ds))
  unfolding validate_each_requested
  each_iff ids [] = (λ h. (tt, tt, tt), λ h. refl)
  each_iff ids (d ∷ ds) =
      let later = map RequestedDlc.id ds in
      let (to, of) = then_iff _ _ (IsRequested-iff d) (
        then_iff _ _ (reject_iff _ _ (false_iff (has_text ids d.id) (has_text_iff ids d.id)))
          (each_iff (d.id ∷ ids) ds)) in
      (
        λ h.
            let (good, (absent, (each, distinct, apart))) = to h in
            let (free, n) = Apart-tail d.id ids later apart in
            ((good, each), (n, distinct), (absent, free)),
        λ h. of (h.0.0, (h.2.0, (h.0.1, h.1.1, Apart-cons d.id ids later h.2.1 h.1.0))),
      )

  size_iff : (n : ℕ) → (ltb 256 n ≡ false) ↔ (n ≤ 256)
  size_iff n = (λ h. ground arith, λ h. ground arith)

  schema_iff :
      (t : Text)
      → (not (text_eq t install_intent_schema_version) ≡ false)
        ↔ (t ≡ install_intent_schema_version)
  schema_iff t =
      let (to, of) = text_eq_iff t install_intent_schema_version in
      (λ h. to (ground arith), λ e. ground (arith, of e))

  -- An intent is accepted exactly when its schema version, both identifiers, the creating version and
  -- the style are valid, it asks for at most 256 DLCs, each by a valid identifier and a version
  -- requirement, and for none of them twice.
  pub validate_intent_iff : (i : InstallationIntent) → (validate_intent lib i ≡ ok tt) ↔ IsIntent i
  unfolding validate_intent
  validate_intent_iff i =
      let (each, of_each) = each_iff [] i.dlcs in
      let body = λ (v : lib.Version).
        then_iff _ _ (λ h. h, λ h. h)
          (then_iff _ _ (reject_iff _ _ (size_iff (length i.dlcs))) (each_iff [] i.dlcs)) in
      let (to, of) = then_iff _ _ (reject_iff _ _ (schema_iff i.schema_version)) (
        then_iff _ _ (reject_iff _ _ (true_iff (lib.uuid_parses i.installation_id))) (
          then_iff _ _ (reject_iff _ _ (true_iff (lib.uuid_parses i.site_id)))
            (some_or_iff (lib.parse i.created_with) "created_with" _ body))) in
      (
        λ h.
            let (schema, (id, (site, (v, parsed, (style, (few, (dlcs, distinct, apart))))))) =
              to h in
            record {
              schema_version = schema;
              installation_id = id;
              site_id = site;
              version = v;
              created_with = parsed;
              style = style;
              size = few;
              dlcs = dlcs;
              distinct = distinct;
            },
        λ q. of (
          q.schema_version,
          (
            q.installation_id,
            (
              q.site_id,
              (
                q.version,
                q.created_with,
                (q.style, (q.size, (q.dlcs, q.distinct, Apart-nil (map RequestedDlc.id i.dlcs)))),
              ),
            ),
          ),
        ),
      )
