-- ===== src/Kernel/Content/Summary.antt =====
-- The reviewed AI summary of crates/kernel/src/content.rs.
pub mod Boundary
use open_soverign_blog.Prelude.{
  ℕ, Bool, true, false, ◌&&◌, ◌||◌, not, Option, none, some, leb, ◌==◌, if◌then◌else◌, length, any,
  Result, ok, err, ◌>>◌, reject_if,
}
use open_soverign_blog.Text.{Text, trim, is_control, text_eq}
use open_soverign_blog.Kernel.Content.Errors.{
  ContentValidationError, invalid_ai_summary_text, invalid_ai_summary_provenance,
  ai_summary_requires_human_review, ai_summary_source_mismatch,
}
use open_soverign_blog.Kernel.Content.Layers.{AiSummary, RevisionSnapshot, Library}
use open_soverign_blog.Kernel.Content.Validation.{Check}
use open_soverign_blog.Kernel.Content.Hash.{ai_summary_source_hash}

abbrev pub ai_summary_max_characters : ℕ
ai_summary_max_characters = 2000

unfoldable pub valid_summary_label : Text → ℕ → Bool
valid_summary_label value max_length =
    let size = length (trim value) in
    (leb 1 size && leb size max_length) && not (any is_control value)

-- a control character other than a line feed, a carriage return or a tab
unfoldable pub is_disallowed_control : ℕ → Bool
is_disallowed_control c = is_control c && not (c == 10 || c == 13 || c == 9)

unfoldable pub contains_disallowed_control : Text → Bool
contains_disallowed_control value = any is_disallowed_control value

unfoldable pub validate_ready_ai_summary : Library → Text → Text → AiSummary → Check
validate_ready_ai_summary lib title markdown summary =
    let size = length (trim summary.text) in
    let p = summary.provenance in
    do
      reject_if
          (not (leb 1 size && leb size ai_summary_max_characters)
            || contains_disallowed_control summary.text)
          invalid_ai_summary_text
      reject_if
          (not (valid_summary_label p.provider 100)
            || not (valid_summary_label p.model 300)
            || not (valid_summary_label p.prompt_version 100))
          invalid_ai_summary_provenance
      reject_if (not p.human_reviewed) ai_summary_requires_human_review
      reject_if (not (text_eq summary.source_hash (ai_summary_source_hash lib title markdown)))
          ai_summary_source_mismatch

-- `AiSummary::validate_for_source`
abbrev pub validate_for_source : Library → AiSummary → Text → Text → Check
validate_for_source lib summary title markdown =
    validate_ready_ai_summary lib title markdown summary

abbrev is_ok : Check → Bool
is_ok (ok u) = true
is_ok (err e) = false

keep_if_ok : Library → RevisionSnapshot → Option AiSummary → Option AiSummary
keep_if_ok lib r none = none
keep_if_ok lib r (some summary) =
    if is_ok (validate_for_source lib summary r.title r.source_markdown) then some summary else none

-- `RevisionSnapshot::publishable_ai_summary`
unfoldable pub publishable_ai_summary : Library → RevisionSnapshot → Option AiSummary
unfolding keep_if_ok
publishable_ai_summary lib r = keep_if_ok lib r r.ai_summary
