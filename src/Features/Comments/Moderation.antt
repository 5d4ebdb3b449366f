-- ===== src/Features/Comments/Moderation.antt =====
-- The states of a comment of features/comments/src/lib.rs and what is ever rendered.
use open_soverign_blog.Prelude.{ℕ, ◌≡◌, refl, ◌↔◌, ◌⊎◌, inl, inr, true, none, arith, ok}
use open_soverign_blog.Text.{Text}
use open_soverign_blog.Features.Comments.{
  Comment, CommentStatus, pending, approved, rejected, spam, deleted, transition_allowed, moderate,
  render_if_approved,
}

-- The moderator's moves, as the feature intends them.
pub data Move : CommentStatus → CommentStatus → Type 0 where
  approve : Move pending approved
  reject : {s : CommentStatus} → (s ≡ pending) ⊎ (s ≡ approved) → Move s rejected
  mark_spam : {s : CommentStatus} → (s ≡ pending) ⊎ (s ≡ approved) → Move s spam
  delete : {s : CommentStatus} → Move s deleted

Move-of_allowed : (s t : CommentStatus) → transition_allowed s t ≡ true → Move s t
unfolding transition_allowed
Move-of_allowed pending approved h = approve
Move-of_allowed pending rejected h = reject (inl refl)
Move-of_allowed pending spam h = mark_spam (inl refl)
Move-of_allowed approved rejected h = reject (inr refl)
Move-of_allowed approved spam h = mark_spam (inr refl)
Move-of_allowed s deleted h = delete
Move-of_allowed _ _ h = cc

allowed-of_Move : {s t : CommentStatus} → Move s t → transition_allowed s t ≡ true
unfolding transition_allowed
allowed-of_Move approve = refl
allowed-of_Move (reject h) = ground arith
allowed-of_Move (mark_spam h) = ground arith
allowed-of_Move (delete {s = s}) = any_deleted s
  where
    any_deleted : (s : CommentStatus) → transition_allowed s deleted ≡ true
    any_deleted pending = refl
    any_deleted _ = refl

-- `moderate` succeeds exactly for a move, and then changes the status and the time of the update
-- and nothing else.
pub moderate-ok_iff :
    (now : ℕ) (next : CommentStatus) (c d : Comment)
    → (moderate now next c ≡ ok d)
      ↔ (Move c.status next × (d ≡ record c { status = next; updated_at = now }))
unfolding moderate
moderate-ok_iff now next c d = (
  λ h. (Move-of_allowed c.status next (ground arith), ground arith),
  λ h. ground (arith, allowed-of_Move h.0),
)

-- The comments that come about from one by moderation, in any number of rounds.
pub data Later (c : Comment) : Comment → Type 0 where
  here : Later c c
  next :
      {d e : Comment} (now : ℕ) (s : CommentStatus)
      → Later c d
      → moderate now s d ≡ ok e
      → Later c e

-- Taken out of sight by a moderator.
abbrev pub IsHidden : CommentStatus → Type 0
IsHidden s = (s ≡ rejected) ⊎ (s ≡ spam) ⊎ (s ≡ deleted)

moderate-IsHidden :
    (now : ℕ) (s : CommentStatus) (d e : Comment)
    → moderate now s d ≡ ok e
    → IsHidden d.status
    → IsHidden e.status
unfolding moderate transition_allowed
moderate-IsHidden now s d e m h = ground arith

Later-IsHidden : {c d : Comment} → Later c d → IsHidden c.status → IsHidden d.status
Later-IsHidden here h = h
Later-IsHidden (next {d = d} {e = e} now s l m) h =
    moderate-IsHidden now s d e m (Later-IsHidden l h)

hidden_not_rendered :
    (render_markdown : Text → Text) (c : Comment)
    → IsHidden c.status
    → render_if_approved render_markdown c ≡ none
unfolding render_if_approved
hidden_not_rendered render_markdown c h = ground arith

-- A comment that was rejected, marked as spam or deleted is never rendered again, whatever
-- moderation follows.
pub hidden_forever :
    (render_markdown : Text → Text) (c d : Comment)
    → IsHidden c.status
    → Later c d
    → render_if_approved render_markdown d ≡ none
hidden_forever render_markdown c d h l = hidden_not_rendered render_markdown d (Later-IsHidden l h)

-- What moderation leaves alone.
pub record SameContent (c d : Comment) : Type 0 where
  pub id : d.id ≡ c.id
  pub site_id : d.site_id ≡ c.site_id
  pub document_id : d.document_id ≡ c.document_id
  pub author_reference : d.author_reference ≡ c.author_reference
  pub source_markdown : d.source_markdown ≡ c.source_markdown
  pub created_at : d.created_at ≡ c.created_at

moderate-SameContent :
    (now : ℕ) (s : CommentStatus) (c d e : Comment)
    → moderate now s d ≡ ok e
    → SameContent c d
    → SameContent c e
unfolding moderate
moderate-SameContent now s c d e m h = ground arith

-- Moderation, in any number of rounds, never changes what a comment says, whose it is, or where
-- and when it was submitted.
pub Later-SameContent : (c d : Comment) → Later c d → SameContent c d
Later-SameContent c d here = ground arith
Later-SameContent c d (next {d = b} now s l m) =
    moderate-SameContent now s c b d m (Later-SameContent c b l)
