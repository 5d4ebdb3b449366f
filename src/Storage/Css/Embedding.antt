-- ===== src/Storage/Css/Embedding.antt =====
-- That accepted CSS stays inside the block that it is put into.
use open_soverign_blog.Storage.Records.{RepositoryError}
use open_soverign_blog.Prelude.{
  Result, append_assoc, append-nil, ok-injective, sym, ap, ◌∙◌, length-append, ok, ◌≡◌, ◌++◌, ◌∷◌,
  [], ◌+◌, true, false, refl, arith, ℕ, Bool, ◌≤◌, ◌≢◌, length, >>=-ok, subst,
}
use open_soverign_blog.Storage.Css.{
  normal, single_quoted, double_quoted, comment, scan_byte, ScanState, next_is, u32_max,
  finish_scan, scan, validate_css_block_structure,
}
use open_soverign_blog.Storage.Css.{normal, single_quoted, double_quoted, comment}
use open_soverign_blog.Text.{Text}

next_append : (c : ℕ) (s rest : Text) → next_is c rest ≡ false → next_is c (s ++ rest) ≡ next_is c s
next_append c [] rest h = h
next_append c (n ∷ s) rest h = refl

-- the same turn of the loop at a depth that is greater by `d`
byte_shift :
    (state st : ScanState) (e d e' byte : ℕ) (s s' : Text) (sk : Bool)
    → next_is b'*' s' ≡ next_is b'*' s
    → next_is b'/' s' ≡ next_is b'/' s
    → e + d + 1 ≤ u32_max
    → scan_byte state e byte s ≡ ok (st, e', sk)
    → scan_byte state (e + d) byte s' ≡ ok (st, e' + d, sk)
unfolding scan_byte
byte_shift normal st e d e' byte s s' sk n m b h = ground arith
byte_shift single_quoted st e d e' byte s s' sk n m b h = ground arith
byte_shift double_quoted st e d e' byte s s' sk n m b h = ground arith
byte_shift comment st e d e' byte s s' sk n m b h = ground arith

byte_skip :
    (state st : ScanState) (e e' byte : ℕ) (s : Text) (sk : Bool)
    → scan_byte state e byte s ≡ ok (st, e', sk)
    → (sk ≡ true → s ≢ []) × (e' ≤ e + 1)
unfolding scan_byte
byte_skip normal st e e' byte [] sk h = (λ t q. ground (arith, h, t), ground (arith, h))
byte_skip single_quoted st e e' byte [] sk h = (λ t q. ground (arith, h, t), ground (arith, h))
byte_skip double_quoted st e e' byte [] sk h = (λ t q. ground (arith, h, t), ground (arith, h))
byte_skip comment st e e' byte [] sk h = (λ t q. ground (arith, h, t), ground (arith, h))
byte_skip normal st e e' byte (n ∷ s) sk h = (λ t q. cc q, ground (arith, h))
byte_skip single_quoted st e e' byte (n ∷ s) sk h = (λ t q. cc q, ground (arith, h))
byte_skip double_quoted st e e' byte (n ∷ s) sk h = (λ t q. cc q, ground (arith, h))
byte_skip comment st e e' byte (n ∷ s) sk h = (λ t q. cc q, ground (arith, h))

finished : (state : ScanState) (e : ℕ) → finish_scan state e ≡ ok tt → (state ≡ normal) × (e ≡ 0)
unfolding finish_scan
finished normal e h = (refl, ground (arith, h))
finished single_quoted e h = cc h
finished double_quoted e h = cc h
finished comment e h = cc h

-- The loop stops at every cursor in between.
pub scan-append :
    (a b rest : Text) (state : ScanState) (e : ℕ) (skip : Bool) (t : ScanState × ℕ × Bool)
    → scan state e skip (a ++ b) rest ≡ ok t
    → (m : ScanState × ℕ × Bool) × (scan state e skip a (b ++ rest) ≡ ok m)
      × (scan m.0 m.1 m.2 b rest ≡ ok t)
unfolding scan
scan-append [] b rest state e skip t h = ((state, e, skip), refl, h)
scan-append (c ∷ a) b rest state e true t h = scan-append a b rest state e false t h
scan-append (c ∷ a) b rest state e false t h =
    let (n, turn, h1) =
      >>=-ok (scan_byte state e c ((a ++ b) ++ rest)) (λ x. scan x.0 x.1 x.2 (a ++ b) rest) t h in
    let (m, left, right) = scan-append a b rest n.0 n.1 n.2 t h1 in
    let turned : scan_byte state e c (a ++ (b ++ rest)) ≡ ok n =
      subst (λ x. scan_byte state e c x ≡ ok n) (append_assoc a b rest) turn in
    (m, rw turned left, right)

pub scan-concat :
    (a b rest : Text) (state : ScanState) (e : ℕ) (skip : Bool) (m : ScanState × ℕ × Bool)
    → scan state e skip a (b ++ rest) ≡ ok m
    → scan state e skip (a ++ b) rest ≡ scan m.0 m.1 m.2 b rest
unfolding scan
scan-concat [] b rest state e skip m h =
    let q = ok-injective _ _ h in ap (λ x. scan x.0 x.1 x.2 b rest) q
scan-concat (c ∷ a) b rest state e true m h = scan-concat a b rest state e false m h
scan-concat (c ∷ a) b rest state e false m h =
    let (n, turn, h1) =
      >>=-ok (scan_byte state e c (a ++ (b ++ rest))) (λ x. scan x.0 x.1 x.2 a (b ++ rest)) m h in
    let turned : scan_byte state e c ((a ++ b) ++ rest) ≡ ok n =
      subst (λ x. scan_byte state e c x ≡ ok n) (sym (append_assoc a b rest)) turn in
    rw turned (scan-concat a b rest n.0 n.1 n.2 m h1)

-- A loop that ends behind the last byte does not move the cursor past it.
pub scan-skip :
    (css : Text) (state st : ScanState) (e e' : ℕ) (skip sk : Bool)
    → (skip ≡ true → css ≢ [])
    → scan state e skip css [] ≡ ok (st, e', sk)
    → sk ≡ false
unfolding scan
scan-skip [] state st e e' true sk k h = absurd (k refl refl)
scan-skip [] state st e e' false sk k h = sym (ap (λ x. x.2) (ok-injective _ _ h))
scan-skip (c ∷ css) state st e e' true sk k h = scan-skip css state st e e' false sk (λ q. cc q) h
scan-skip (c ∷ css) state st e e' false sk k h =
    let ((n, e1, sk1), turn, h1) =
      >>=-ok (scan_byte state e c (css ++ [])) (λ x. scan x.0 x.1 x.2 css []) (st, e', sk) h in
    let turned = subst (λ x. scan_byte state e c x ≡ ok (n, e1, sk1)) (append-nil css) turn in
    scan-skip css n st e1 e' sk1 sk (byte_skip state n e e1 c css sk1 turned).0 h1

module _ (rest : Text) (star : next_is b'*' rest ≡ false) (slash : next_is b'/' rest ≡ false)
    (d : ℕ) where
  -- the same loop at a depth that is greater by `d`, in front of `rest`
  pub scan-shift :
      (css after : Text) (state st : ScanState) (e e' : ℕ) (skip sk : Bool)
      → scan state e skip css after ≡ ok (st, e', sk)
      → e + d + length css ≤ u32_max
      → scan state (e + d) skip css (after ++ rest) ≡ ok (st, e' + d, sk)
  unfolding scan
  scan-shift [] after state st e e' skip sk h b =
      ap (λ t. ok (t.0, t.1 + d, t.2)) (ok-injective _ _ h)
  scan-shift (c ∷ s) after state st e e' true sk h b =
      scan-shift s after state st e e' false sk h (ground (arith, b))
  scan-shift (c ∷ s) after state st e e' false sk h b =
      let ((n, e1, sk1), turn, h1) =
        >>=-ok (scan_byte state e c (s ++ after)) (λ t. scan t.0 t.1 t.2 s after) (st, e', sk) h in
      let small = (byte_skip state n e e1 c (s ++ after) sk1 turn).1 in
      let shifted =
        byte_shift state n e d e1 c (s ++ after) ((s ++ after) ++ rest) sk1
          (next_append b'*' (s ++ after) rest star) (next_append b'/' (s ++ after) rest slash)
          (ground (arith, b)) turn in
      let turned : scan_byte state (e + d) c (s ++ (after ++ rest)) ≡ ok (n, e1 + d, sk1) =
        subst (λ x. scan_byte state (e + d) c x ≡ ok (n, e1 + d, sk1)) (append_assoc s after rest)
          shifted in
      rw turned (scan-shift s after n st e1 e' sk1 sk h1 (ground (arith, b, small)))

at_start :
    {st : ScanState} {e : ℕ} {sk : Bool}
    → st ≡ normal
    → e ≡ 0
    → sk ≡ false
    → ◌≡◌ {A = Result (ScanState × ℕ × Bool) RepositoryError}
        (ok (st, e, sk))
        (ok (normal, 0, false))
at_start n z s = cc

accepted :
    (css : Text)
    → validate_css_block_structure css ≡ ok tt
    → scan normal 0 false css [] ≡ ok (normal, 0, false)
unfolding validate_css_block_structure
accepted css h =
    let ((st, e, sk), scanned, h1) =
      >>=-ok (scan normal 0 false css []) (λ t. finish_scan t.0 t.1) tt h in
    let (n, z) = finished st e h1 in
    let last = scan-skip css normal st 0 e false sk (λ q. cc q) scanned in
    scanned ∙ at_start n z last

-- Accepted CSS leaves the scanner in the state in which it has found it: outside of strings and
-- comments, and at the same depth. So it cannot close the block that it stands in, nor open one that
-- swallows what follows, if what follows does not begin with `*` or `/`.
pub css_embeds :
    (css rest : Text) (depth : ℕ)
    → validate_css_block_structure css ≡ ok tt
    → next_is b'*' rest ≡ false
    → next_is b'/' rest ≡ false
    → depth + length css ≤ u32_max
    → scan normal depth false css rest ≡ ok (normal, depth, false)
css_embeds css rest depth h star slash b =
    let same : 0 + depth ≡ depth = omega arith in
    subst (λ k. scan normal k false css rest ≡ ok (normal, k, false)) same
      (scan-shift rest star slash depth css [] normal normal 0 0 false false (accepted css h)
        (ground (arith, b)))

-- At no cursor inside of accepted CSS is the scanner less deep than in front of it.
pub css_stays :
    (a b rest : Text) (depth : ℕ)
    → validate_css_block_structure (a ++ b) ≡ ok tt
    → next_is b'*' rest ≡ false
    → next_is b'/' rest ≡ false
    → depth + length (a ++ b) ≤ u32_max
    → (t : ScanState × ℕ × Bool) × (scan normal depth false a (b ++ rest) ≡ ok t) × (depth ≤ t.1)
css_stays a b rest depth h star slash bound =
    let ((st, e, sk), left, right) =
      scan-append a b [] normal 0 false (normal, 0, false) (accepted (a ++ b) h) in
    let at_b = subst (λ x. scan normal 0 false a x ≡ ok (st, e, sk)) (append-nil b) left in
    let same : 0 + depth ≡ depth = omega arith in
    (
      (st, e + depth, sk),
      subst (λ k. scan normal k false a (b ++ rest) ≡ ok (st, e + depth, sk)) same
          (scan-shift rest star slash depth a b normal st 0 e false sk at_b
            (ground (arith, length-append a b, bound))),
      omega arith,
    )
