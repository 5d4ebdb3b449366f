-- ===== src/Features/Comments.antt =====
-- features/comments/src/lib.rs: submission and moderation of comments. The clock, the fresh
-- identifier and the renderer (crates/renderer) are arguments.
pub mod Validation
pub mod Moderation
use open_soverign_blog.Prelude.{
  ℕ, Bool, true, false, ◌&&◌, ◌||◌, not, Option, none, some, ltb, leb, if◌then◌else◌, length,
  Result, ok, err, ◌>>=◌, ◌>>◌, reject_if,
}
use open_soverign_blog.Text.{Text, byte_len, contains, trim, is_blank}
use open_soverign_blog.Kernel.Policy.{Uuid}

pub data CommentStatus : Type 0 where
  pending approved rejected spam deleted : CommentStatus

pub data CommentError : Type 0 where
  invalid_author invalid_body invalid_transition : CommentError

-- A `DateTime` is a number of nanoseconds.
pub record Comment : Type 0 where
  pub id : Uuid
  pub site_id : Uuid
  pub document_id : Uuid
  pub author_reference : Text
  pub source_markdown : Text
  pub status : CommentStatus
  pub created_at : ℕ
  pub updated_at : ℕ

pub record CommentSubmission : Type 0 where
  pub site_id : Uuid
  pub document_id : Uuid
  pub author_reference : Text
  pub source_markdown : Text

-- `CommentSubmission::validate`
unfoldable pub validate : CommentSubmission → Result (Unit {0}) CommentError
validate s =
    let size = length (trim s.source_markdown) in
    do
      reject_if (is_blank s.author_reference || ltb 300 (byte_len s.author_reference))
          invalid_author
      reject_if (not (leb 1 size && leb size 20000) || contains 0 s.source_markdown) invalid_body

-- `CommentSubmission::into_pending`, with what `Uuid::now_v7` and `Utc::now` return
unfoldable pub into_pending : Uuid → ℕ → CommentSubmission → Result Comment CommentError
into_pending id now s = do
  validate s
  ok (record {
    id = id;
    site_id = s.site_id;
    document_id = s.document_id;
    author_reference = s.author_reference;
    source_markdown = s.source_markdown;
    status = pending;
    created_at = now;
    updated_at = now;
  })

-- The `matches!` table of `moderate`.
unfoldable pub transition_allowed : CommentStatus → CommentStatus → Bool
transition_allowed pending approved = true
transition_allowed pending rejected = true
transition_allowed pending spam = true
transition_allowed approved rejected = true
transition_allowed approved spam = true
transition_allowed _ deleted = true
transition_allowed _ _ = false

-- `Comment::moderate`: the new comment, or the error with the comment as it was.
unfoldable pub moderate : ℕ → CommentStatus → Comment → Result Comment CommentError
moderate now next c =
    if not (transition_allowed c.status next)
    then err invalid_transition
    else ok (record c { status = next; updated_at = now })

unfoldable pub is_approved : CommentStatus → Bool
is_approved approved = true
is_approved _ = false

-- `Comment::render_if_approved`
unfoldable pub render_if_approved : (Text → Text) → Comment → Option Text
unfolding is_approved
render_if_approved render_markdown c =
    if is_approved c.status then some (render_markdown c.source_markdown) else none
