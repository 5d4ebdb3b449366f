-- ===== src/Features/Comments/Validation.antt =====
-- Which submissions features/comments/src/lib.rs accepts.
use open_soverign_blog.Prelude.{
  ℕ, ◌≤◌, ◌≡◌, refl, ◌↔◌, false, none, arith, In, length, Result, ok, err, ◌>>◌, none,
}
use open_soverign_blog.Text.{Text, byte_len, contains-false_iff, trim, is_blank}
use open_soverign_blog.Kernel.Policy.{Uuid}
use open_soverign_blog.Features.Comments.{
  Comment, CommentSubmission, CommentError, pending, validate, into_pending, render_if_approved,
}

pub record IsSubmittable (s : CommentSubmission) : Type 0 where
  pub author : is_blank s.author_reference ≡ false
  pub author_size : byte_len s.author_reference ≤ 300
  pub body : 1 ≤ length (trim s.source_markdown)
  pub body_size : length (trim s.source_markdown) ≤ 20000
  pub no_null : ¬ In 0 s.source_markdown

-- A submission is accepted exactly when its author reference is not blank and has at most 300
-- bytes, its trimmed body has 1 to 20000 characters, and the body contains no null character.
pub validate_iff : (s : CommentSubmission) → (validate s ≡ ok tt) ↔ IsSubmittable s
unfolding validate
validate_iff s = (
  λ h. record {
    author = ground arith;
    author_size = ground arith;
    body = ground arith;
    body_size = ground arith;
    no_null = (contains-false_iff 0 s.source_markdown).0 (ground arith);
  },
  λ v. ground (arith, (contains-false_iff 0 s.source_markdown).1 v.no_null),
)

-- The comment of an accepted submission.
abbrev submitted : Uuid → ℕ → CommentSubmission → Comment
submitted id now s = record {
  id = id;
  site_id = s.site_id;
  document_id = s.document_id;
  author_reference = s.author_reference;
  source_markdown = s.source_markdown;
  status = pending;
  created_at = now;
  updated_at = now;
}

validate-of_bind :
    (m : Result (Unit {0}) CommentError) (d : Result Comment CommentError) (c : Comment)
    → (m >> d) ≡ ok c
    → m ≡ ok tt
validate-of_bind (ok u) d c h = refl
validate-of_bind (err e) d c h = cc

-- Submitting gives a comment exactly when the submission is accepted. It is then pending, so
-- nothing of it is rendered, it holds the submitted site, document, author and body, and it was
-- created and updated at the same time.
pub into_pending-ok_iff :
    (render_markdown : Text → Text) (id : Uuid) (now : ℕ) (s : CommentSubmission)
    → (IsSubmittable s
        → (c : Comment) × (into_pending id now s ≡ ok c)
          × (c.status ≡ pending)
          × (render_if_approved render_markdown c ≡ none)
          × (c.site_id ≡ s.site_id)
          × (c.document_id ≡ s.document_id)
          × (c.author_reference ≡ s.author_reference)
          × (c.source_markdown ≡ s.source_markdown)
          × (c.created_at ≡ now)
          × (c.updated_at ≡ now))
      × ((c : Comment) → into_pending id now s ≡ ok c → IsSubmittable s)
unfolding into_pending render_if_approved
into_pending-ok_iff render_markdown id now s = (
  λ v.
      let e = (validate_iff s).1 v in
      (submitted id now s, rw e, refl, refl, refl, refl, refl, refl, refl, refl),
  λ c h. (validate_iff s).0 (validate-of_bind (validate s) _ c h),
)
