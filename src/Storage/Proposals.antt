-- ===== src/Storage/Proposals.antt =====
-- `append_ai_proposal` and `list_ai_proposals` of crates/storage-sqlite/src/lib.rs.
use open_soverign_blog.Prelude.{
  ok, err, ◌>>◌, ◌>>=◌, ◌==◌, ◌∷◌, [], ◌&&◌, ◌||◌, not, false, none, some, if◌then◌else◌, Result, ℕ,
  Bool, List, ◌^◌, reject_if, ltb, ◌-◌, min, take, any, filter,
}
use open_soverign_blog.Kernel.Content.{
  RevisionActorKind, ai_generated, ProposedRevision, RevisionSnapshot, Library,
}
use open_soverign_blog.Storage.Records.{
  duplicate_idempotency_key, validation, storage, envelope, Database, RepositoryError,
}
use open_soverign_blog.Text.{Text, codes, text_eq}
use open_soverign_blog.Kernel.Ai2Ai.{
  AiActor, Ai2AiEnvelope, AiProposalAuditRecord, Ai2AiValidationError, validate_envelope,
}
use open_soverign_blog.Storage.Revisions.{valid_content, append_revision_in_transaction}
use open_soverign_blog.Kernel.Policy.{Uuid}
use open_soverign_blog.Storage.Load.{order_by}
use open_soverign_blog.Storage.Queries.{ensure_document_exists, Check}
use open_soverign_blog.Storage.Publish.{i64_max}
use open_soverign_blog.Kernel.Content.Document.{validate_proposed}

abbrev pub ai_proposal_audit_schema_version : Text
ai_proposal_audit_schema_version = codes "1.0"

-- `actor.model.or_else(|| actor.provider).unwrap_or_else(|| "ai2ai")`
unfoldable pub generator_of : AiActor → Text
generator_of a = elim (a.model) [
  | some model ↦ model
  | none ↦ elim (a.provider) [ some provider ↦ provider | none ↦ codes "ai2ai" ]
]

-- the proposal that is appended: the envelope decides on the actor, the authorship and the key
unfoldable pub accepted_proposal : Ai2AiEnvelope → ProposedRevision
unfolding generator_of
accepted_proposal e = record e.proposal {
  actor = record { kind = RevisionActorKind.agent; id = e.actor.id; display_name = none };
  authorship = record {
    kind = ai_generated;
    generator = some (generator_of e.actor);
    human_reviewed = false;
  };
  idempotency_key = some e.idempotency_key;
}

-- the constraints that `INSERT INTO ai_proposal_audits` can break, and `map_ai_proposal_constraint_error`
unfoldable pub insert_ai_proposal :
    Database → AiProposalAuditRecord → Result Database RepositoryError
insert_ai_proposal db r = do
  reject_if (any (λ a. a.accepted_revision_id == r.accepted_revision_id) db.ai_proposal_audits)
      storage
  reject_if
      (any
        (λ a.
          a.envelope.message_id == r.envelope.message_id
          || text_eq a.envelope.idempotency_key r.envelope.idempotency_key)
        db.ai_proposal_audits)
      duplicate_idempotency_key
  ok (record db { ai_proposal_audits = r ∷ db.ai_proposal_audits })

abbrev pub audit_of : Ai2AiEnvelope → RevisionSnapshot → ℕ → AiProposalAuditRecord
audit_of e revision received_at = record {
  schema_version = ai_proposal_audit_schema_version;
  document_id = revision.document_id;
  accepted_revision_id = revision.id;
  received_at = received_at;
  envelope = e;
}

-- `map_err(|error| RepositoryError::Validation(error.to_string()))`
unfoldable pub valid_envelope : Result (Unit {0}) Ai2AiValidationError → Check
valid_envelope (ok u) = ok u
valid_envelope (err e) = err (validation (envelope e))

unfoldable pub append_ai_proposal :
    Library
    → Uuid
    → Ai2AiEnvelope
    → ℕ
    → Database
    → Result (RevisionSnapshot × Database) RepositoryError
unfolding valid_envelope valid_content accepted_proposal insert_ai_proposal
append_ai_proposal lib id e now db = do
  valid_envelope (validate_envelope lib now e)
  valid_content (validate_proposed lib (accepted_proposal e))
  (revision, db1) ← append_revision_in_transaction lib id (accepted_proposal e) now db
  db2 ← insert_ai_proposal db1 (audit_of e revision now)
  ok (revision, db2)

-- `ORDER BY received_at, accepted_revision_id`, newest or oldest first
pub data AuditOrder : Type 0 where
  newest_first oldest_first : AuditOrder

abbrev pub audit_before : AuditOrder → AiProposalAuditRecord → AiProposalAuditRecord → Bool
audit_before newest_first a b =
    ltb b.received_at a.received_at
    || (a.received_at == b.received_at && ltb b.accepted_revision_id a.accepted_revision_id)
audit_before oldest_first a b =
    ltb a.received_at b.received_at
    || (a.received_at == b.received_at && ltb a.accepted_revision_id b.accepted_revision_id)

-- A row that is read has to agree with its envelope. The columns of the message and of the key are
-- those of the envelope.
unfoldable pub check_audits :
    Uuid → List AiProposalAuditRecord → Result (List AiProposalAuditRecord) RepositoryError
check_audits document [] = ok []
check_audits document (a ∷ rows) =
    let rest = check_audits document rows in
    if not (a.document_id == document) || not (a.envelope.proposal.document_id == document)
    then err storage
    else rest >>= λ checked. ok (a ∷ checked)

abbrev pub usize_max : ℕ
usize_max = 2 ^ 64 - 1

abbrev pub audit_limit : ℕ → ℕ
audit_limit limit = if limit == usize_max then i64_max else min limit 1000

unfoldable pub load_ai_proposals :
    Database → Uuid → ℕ → AuditOrder → Result (List AiProposalAuditRecord) RepositoryError
unfolding order_by check_audits
load_ai_proposals db document limit order = check_audits document (
    take (audit_limit limit) (
      order_by (audit_before order)
        (filter (λ a. a.document_id == document) db.ai_proposal_audits)))

unfoldable pub list_ai_proposals :
    Database → Uuid → ℕ → Result (List AiProposalAuditRecord) RepositoryError
unfolding ensure_document_exists load_ai_proposals
list_ai_proposals db document limit = do
  ensure_document_exists db document
  load_ai_proposals db document limit newest_first
