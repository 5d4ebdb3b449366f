-- ===== src/Storage/Sessions/Live.antt =====
-- Which sessions are still good.
use open_soverign_blog.Prelude.{
  ==_iff, Option, ok, err, ◌==◌, ◌≡◌, ◌+◌, ◌&&◌, not, true, false, none, some, if◌then◌else◌, refl,
  sym, ap, ◌∙◌, inl, inr, ◌⊎◌, arith, Bool, ℕ, List, In, >>=-ok, is_some, ◌<◌, reject_if-ok_iff,
  Bool-cases, find, reject_if, ◌≢◌, subst, Option-cases, leb, reject_if->>-ok, find-some,
  update_where, ◌^◌, some-injective, &&_iff, ◌-◌, ok-injective, in-update_where, ltb, Result,
}
use open_soverign_blog.Storage.Records.{not_found, validation, message, RepositoryError}
use open_soverign_blog.Storage.Sessions.Rotation.{
  rotated_accounts, rotate_admin_control_plane, revoke_now, fixed_site, exhausted_epoch,
  administrator_epoch,
}
use open_soverign_blog.Storage.Sessions.{
  legacy, disabled, session_method, is_method, SessionAuthMethod, Accounts, check_binding,
  get_session, revoke_session, load_admin_control_plane, SessionRecord, load_active_session_by_hash,
  SessionRow, AdminControlPlaneRecord, is_bound, is_legacy, AdminAuthMode, is_active_row, revoke,
  mode_eq,
}
use open_soverign_blog.Storage.Queries.{or_not_found, ensure_site_owner}
use open_soverign_blog.Kernel.Policy.{Uuid}
use open_soverign_blog.Storage.Normal.{validate_token_hash, validate_fingerprint}
use open_soverign_blog.Storage.Simulation.{or_not_found-ok}
use open_soverign_blog.Text.{text_eq, text_eq_iff}
use open_soverign_blog.Storage.Publish.{i64_max}

-- The method of the sessions that a mode of administration issues.
abbrev pub Issues : AdminAuthMode → SessionAuthMethod → Type 0
Issues AdminAuthMode.access_key SessionAuthMethod.access_key = Unit
Issues AdminAuthMode.external SessionAuthMethod.external = Unit
Issues _ _ = ⊥

-- A session of the administrator as it is now: of the owner, of the present epoch, and of the method
-- that the present mode issues.
pub record IsAdmin (control : AdminControlPlaneRecord) (s : SessionRecord) : Type 0 where
  pub user : s.user_id ≡ control.owner_user_id
  pub epoch : s.auth_epoch ≡ control.auth_epoch
  pub issued : Issues control.auth_mode s.auth_method

-- A session that is good at the time `now`: it is stored under the hash, it is not revoked and not
-- expired, and it is a local one or one of the administrator as it is now.
pub record IsLive (a : Accounts) (token_hash : List ℕ) (now : ℕ) (s : SessionRecord) : Type 0 where
  pub row : SessionRow
  pub stored : In row a.sessions
  pub of_hash : row.token_hash ≡ token_hash
  pub session : row.session ≡ s
  pub not_revoked : s.revoked_at ≡ none
  pub not_expired : now < s.expires_at
  pub bound :
      (s.auth_method ≡ legacy)
      ⊎ ((control : AdminControlPlaneRecord) × (a.control ≡ some control) × IsAdmin control s)

issued : (mode : AdminAuthMode) (m : SessionAuthMethod) → is_method mode m ≡ true → Issues mode m
unfolding session_method
issued AdminAuthMode.access_key legacy h = cc h
issued AdminAuthMode.access_key SessionAuthMethod.access_key h = tt
issued AdminAuthMode.access_key SessionAuthMethod.external h = cc h
issued AdminAuthMode.external legacy h = cc h
issued AdminAuthMode.external SessionAuthMethod.access_key h = cc h
issued AdminAuthMode.external SessionAuthMethod.external h = tt
issued disabled m h = cc h

bound-IsAdmin :
    (control : AdminControlPlaneRecord) (s : SessionRecord)
    → is_bound control s ≡ true
    → IsAdmin control s
bound-IsAdmin control s h =
    let (both, method) =
      (&&_iff (s.user_id == control.owner_user_id && s.auth_epoch == control.auth_epoch)
          (is_method control.auth_mode s.auth_method)).0
        h in
    let (user, epoch) =
      (&&_iff (s.user_id == control.owner_user_id) (s.auth_epoch == control.auth_epoch)).0 both in
    record {
      user = (==_iff _ _).0 user;
      epoch = (==_iff _ _).0 epoch;
      issued = issued control.auth_mode s.auth_method method;
    }

legacy_only : (m : SessionAuthMethod) → is_legacy m ≡ true → m ≡ legacy
legacy_only legacy h = refl
legacy_only SessionAuthMethod.access_key h = cc h
legacy_only SessionAuthMethod.external h = cc h

unrevoked_lem : (o : Option ℕ) → is_some o ≡ false → o ≡ none
unrevoked_lem none h = refl
unrevoked_lem (some t) h = cc h

check_binding-ok :
    (a : Accounts) (s : SessionRecord)
    → check_binding a s ≡ ok tt
    → (control : AdminControlPlaneRecord) × (a.control ≡ some control) × (is_bound control s ≡ true)
unfolding check_binding load_admin_control_plane
check_binding-ok a s h =
    let (control, c, h1) = >>=-ok (or_not_found a.control) _ tt h in
    let n = (reject_if-ok_iff (not (is_bound control s)) not_found).0 h1 in
    (control, or_not_found-ok _ _ c, ground (arith, n))

bound_or_legacy :
    (a : Accounts) (s : SessionRecord)
    → (if is_legacy s.auth_method then ok tt else check_binding a s) ≡ ok tt
    → (s.auth_method ≡ legacy)
      ⊎ ((control : AdminControlPlaneRecord) × (a.control ≡ some control) × IsAdmin control s)
bound_or_legacy a s h = elim (Bool-cases (is_legacy s.auth_method)) [
  | inl e ↦ inl (legacy_only s.auth_method e)
  | inr e ↦
      let (control, there, bound) =
        check_binding-ok a s (subst (λ b. (if b then ok tt else check_binding a s) ≡ ok tt) e h) in
      inr (control, there, bound-IsAdmin control s bound)
]

-- A session that is returned for a token is good: it is stored under the hash of the token, it is not
-- revoked and not expired, and it is a local one, or it is of the owner, of the present epoch of the
-- administrator's authentication and of the method that its present mode issues.
pub get_session-IsLive :
    (a : Accounts) (token_hash : List ℕ) (now : ℕ) (s : SessionRecord)
    → get_session a token_hash now ≡ ok s
    → IsLive a token_hash now s
unfolding get_session load_active_session_by_hash
get_session-IsLive a token_hash now s h =
    let (u, v, h1) = >>=-ok (validate_token_hash token_hash) _ s h in
    let (t, l, h2) = >>=-ok (load_active_session_by_hash a token_hash now) _ s h1 in
    let (w, b, h3) = >>=-ok (if is_legacy t.auth_method then ok tt else check_binding a t) _ s h2 in
    let (row, f, l1) = >>=-ok (or_not_found (find (is_active_row token_hash) a.sessions)) _ t l in
    let (fresh, l2) =
      reject_if->>-ok (leb row.session.expires_at now) not_found (ok row.session) t l1 in
    let (i, test) = find-some (is_active_row token_hash) a.sessions row (or_not_found-ok _ _ f) in
    let (same, live) =
      (&&_iff (text_eq row.token_hash token_hash) (not (is_some row.session.revoked_at))).0 test in
    let q : t ≡ s = ok-injective _ _ h3 in
    let p : row.session ≡ s = ok-injective _ _ l2 ∙ q in
    let current : now < row.session.expires_at = ground (arith, fresh) in
    let unrevoked : is_some row.session.revoked_at ≡ false = ground (arith, live) in
    record {
      row = row;
      stored = i;
      of_hash = (text_eq_iff _ _).0 same;
      session = p;
      not_revoked =
          unrevoked_lem s.revoked_at (subst (λ x. is_some x.revoked_at ≡ false) p unrevoked);
      not_expired = subst (λ x. now < x.expires_at) p current;
      bound =
          subst
            (λ x.
              (x.auth_method ≡ legacy)
              ⊎ ((control : AdminControlPlaneRecord) × (a.control ≡ some control)
                  × IsAdmin control x))
            q (bound_or_legacy a t b);
    }

no_row :
    {A : Type 0} (p : A → Bool) (xs : List A) → ((x : A) → In x xs → p x ≡ false) → find p xs ≡ none
no_row p xs h = elim (Option-cases (find p xs)) [
  | inl n ↦ n
  | inr (x, e) ↦ let (i, t) = find-some p xs x e in cc (sym t ∙ h x i)
]

-- Once a token is revoked, no session is returned for it any more.
pub revoke_session-gone :
    (a a' : Accounts) (token_hash : List ℕ) (now later : ℕ) (b : Bool)
    → revoke_session token_hash now a ≡ ok (b, a')
    → get_session a' token_hash later ≡ err not_found
unfolding revoke_session get_session load_active_session_by_hash or_not_found
revoke_session-gone a a' token_hash now later b h =
    let (u, v, h1) = >>=-ok (validate_token_hash token_hash) _ (b, a') h in
    let p = is_active_row token_hash in
    let rest : update_where p (revoke now) a.sessions ≡ a'.sessions =
      ap (λ x. x.1.sessions) (ok-injective _ _ h1) in
    let gone : find p a'.sessions ≡ none =
      subst (λ l. find p l ≡ none) rest
        (no_row p (update_where p (revoke now) a.sessions) (λ x i.
          elim (in-update_where p (revoke now) a.sessions x i) [
            | inl (j, n) ↦ n
            | inr (y, j, t, q) ↦ ap p (sym q) ∙ ground arith
          ])) in
    rw (v, gone) refl

revoked : (now : ℕ) (r : SessionRow) → is_some (revoke_now now r).session.revoked_at ≡ true
revoked now r = elim (Bool-cases (is_some r.session.revoked_at)) [
  | inl e ↦ rw e e
  | inr e ↦ rw e refl
]

-- the rows that a rotation leaves unrevoked
only_legacy :
    (a a' : Accounts) (existing : AdminControlPlaneRecord) (mode : AdminAuthMode)
    (fingerprint : List ℕ) (now : ℕ) (control : AdminControlPlaneRecord)
    → rotated_accounts existing mode fingerprint now a ≡ ok (control, a')
    → {token_hash : List ℕ} {later : ℕ} {s : SessionRecord} → IsLive a' token_hash later s
    → is_legacy s.auth_method ≡ true
unfolding rotated_accounts
only_legacy a a' existing mode fingerprint now control h live =
    let (u, v, h1) =
      >>=-ok
        (reject_if (leb (2 ^ 64 - 1) existing.auth_epoch) (validation (message exhausted_epoch))) _
        (control, a') h in
    let (w, x, h2) =
      >>=-ok
        (reject_if (ltb i64_max (existing.auth_epoch + 1))
          (validation (message administrator_epoch)))
        _ (control, a') h1 in
    let p = λ (s : SessionRow). not (is_legacy s.session.auth_method) in
    let rows : update_where p (revoke_now now) a.sessions ≡ a'.sessions =
      ap (λ x. x.1.sessions) (ok-injective _ _ h2) in
    let same = live.session in
    elim (in-update_where p (revoke_now now) a.sessions live.row
      (subst (In live.row) (sym rows) live.stored)) [
        | inl (j, n) ↦ subst (λ x. is_legacy x.auth_method ≡ true) same (ground (arith, n))
        | inr (y, j, t, q) ↦ cc (
            sym (subst (λ x. is_some x.session.revoked_at ≡ true) q (revoked now y))
            ∙ ap (λ x. is_some x.revoked_at) same
            ∙ ap is_some live.not_revoked)
      ]

-- A rotation to another epoch leaves no session of the administrator good: whatever is returned for
-- any token afterwards is a local session.
pub rotate-legacy :
    (a a' : Accounts) (site : Uuid) (mode : AdminAuthMode) (fingerprint : List ℕ) (now : ℕ)
    (existing control : AdminControlPlaneRecord) (token_hash : List ℕ) (later : ℕ)
    (s : SessionRecord)
    → a.control ≡ some existing
    → rotate_admin_control_plane site mode fingerprint now a ≡ ok (control, a')
    → control.auth_epoch ≢ existing.auth_epoch
    → get_session a' token_hash later ≡ ok s
    → is_legacy s.auth_method ≡ true
unfolding rotate_admin_control_plane load_admin_control_plane rotated_accounts
rotate-legacy a a' site mode fingerprint now existing control token_hash later s known h other g =
    let (u, v, h1) = >>=-ok (validate_fingerprint fingerprint) _ (control, a') h in
    let (e, c, h2) = >>=-ok (or_not_found a.control) _ (control, a') h1 in
    let same : e ≡ existing = some-injective _ _ (sym (or_not_found-ok _ _ c) ∙ known) in
    let (w, x, h3) =
      >>=-ok (reject_if (not (e.primary_site_id == site)) (validation (message fixed_site))) _
        (control, a') h2 in
    let (y, z, h4) =
      >>=-ok (ensure_site_owner a.base e.owner_user_id e.primary_site_id) _ (control, a') h3 in
    elim (Bool-cases (mode_eq e.auth_mode mode && text_eq e.binding_fingerprint fingerprint)) [
      | inl t ↦
          let k : ◌≡◌ {A = Result (AdminControlPlaneRecord × Accounts) RepositoryError} (ok (e, a))
              (ok (control, a')) =
            subst
              (λ b.
                (if b then ok (e, a) else rotated_accounts e mode fingerprint now a)
                ≡ ok (control, a'))
              t h4 in
          absurd (
            other
              (ap (λ p. p.0.auth_epoch) (sym (ok-injective _ _ k)) ∙ ap (λ p. p.auth_epoch) same))
      | inr t ↦
          let k : rotated_accounts e mode fingerprint now a ≡ ok (control, a') =
            subst
              (λ b.
                (if b then ok (e, a) else rotated_accounts e mode fingerprint now a)
                ≡ ok (control, a'))
              t h4 in
          only_legacy a a' e mode fingerprint now control k
            (get_session-IsLive a' token_hash later s g)
    ]
