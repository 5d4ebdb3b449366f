-- ===== src/Storage/Requests/Transactions.antt =====
-- That the transactions of the calls are steps of the lifecycle.
use open_soverign_blog.Prelude.{
  ok, err, ◌>>◌, ◌==◌, ◌≡◌, ◌||◌, none, refl, sym, ap, ◌∙◌, >>=-ok, ℕ, reject_if, Option, Result,
  any, ok-injective, subst,
}
use open_soverign_blog.Storage.Steps.{Steps, Content, done, step_on, content_of, Star, Drafts}
use open_soverign_blog.Storage.Requests.{committed}
use open_soverign_blog.Storage.Repository.{publish, Answer, publish_document_in_owned_site}
use open_soverign_blog.Storage.Records.{
  duplicate_idempotency_key, storage, Database, RepositoryError,
}
use open_soverign_blog.Storage.Queries.{Check, ensure_site_owner, ensure_document_in_site}
use open_soverign_blog.Storage.Proposals.{
  insert_ai_proposal, append_ai_proposal, valid_envelope, accepted_proposal, audit_of,
}
use open_soverign_blog.Kernel.Content.{
  Library, NewDocument, ProposedRevision, RevisionSnapshot, DocumentSnapshot,
}
use open_soverign_blog.Kernel.Ai2Ai.{AiProposalAuditRecord, Ai2AiEnvelope, validate_envelope}
use open_soverign_blog.Kernel.Policy.{Uuid}
use open_soverign_blog.Storage.Revisions.{
  append_revision_in_transaction_with_category, valid_content, append_revision_in_transaction,
}
use open_soverign_blog.Text.{text_eq}
use open_soverign_blog.Storage.Documents.{create_document_in_transaction}
use open_soverign_blog.Storage.Simulation.Append.{append-ok}
use open_soverign_blog.Storage.Simulation.NewDocument.{create-ok}
use open_soverign_blog.Storage.Publish.{publish_in_transaction_at}
use open_soverign_blog.Kernel.Content.Document.{validate_proposed}
use open_soverign_blog.Storage.Simulation.Publish.{publish-ok}

-- What a transaction that succeeds has to do for its commit to be a sequence of steps.
pub committed-Star :
    {R : Content → Content → Type 0} {A : Type 0} (db : Database) (m : Answer A)
    → ((a : A) (db' : Database) → m ≡ ok (a, db') → Star R (content_of db) (content_of db'))
    → Star R (content_of db) (content_of (committed db m))
committed-Star db (ok (a, db')) h = h a db' refl
committed-Star db (err e) h = done

pub one : {R : Content → Content → Type 0} {c c' : Content} → R c c' → Star R c c'
one s = step_on done s

-- behind a check that passes, the operation is the rest of it
pub behind :
    {A P : Type 0} (m : Check) (k : Answer A) (a : A) (db' : Database)
    → (k ≡ ok (a, db') → P)
    → (m >> k) ≡ ok (a, db')
    → P
behind m k a db' h q = let (u, e, r) = >>=-ok m (λ _. k) (a, db') q in h r

insert_proposal-content :
    (db db' : Database) (r : AiProposalAuditRecord)
    → insert_ai_proposal db r ≡ ok db'
    → content_of db' ≡ content_of db
unfolding insert_ai_proposal
insert_proposal-content db db' r h =
    let (u, a, h1) =
      >>=-ok
        (reject_if
          (any (λ a. a.accepted_revision_id == r.accepted_revision_id) db.ai_proposal_audits)
          storage)
        _ db' h in
    let (v, b, h2) =
      >>=-ok
        (reject_if
          (any
            (λ a.
              a.envelope.message_id == r.envelope.message_id
              || text_eq a.envelope.idempotency_key r.envelope.idempotency_key)
            db.ai_proposal_audits)
          duplicate_idempotency_key)
        _ db' h1 in
    sym (ap content_of (ok-injective _ _ h2))

module _ (lib : Library) (db : Database) where
  pub create-steps :
      (document id : Uuid) (input : NewDocument) (now : ℕ) (initial : Option (Uuid × Uuid))
      (s : DocumentSnapshot) (db' : Database)
      → create_document_in_transaction lib document id input now initial none db ≡ ok (s, db')
      → Drafts (content_of db) (content_of db')
  create-steps document id input now initial s db' =
      create-ok lib document id input now initial none db db' s

  pub append-steps :
      (id : Uuid) (input : ProposedRevision) (now : ℕ) (category : Option (Uuid × Option Uuid))
      (r : RevisionSnapshot) (db' : Database)
      → append_revision_in_transaction_with_category lib id input now category db ≡ ok (r, db')
      → Drafts (content_of db) (content_of db')
  append-steps id input now category r db' h = one (append-ok lib id input now category db db' r h)

  pub proposal-steps :
      (id : Uuid) (e : Ai2AiEnvelope) (now : ℕ) (r : RevisionSnapshot) (db' : Database)
      → append_ai_proposal lib id e now db ≡ ok (r, db')
      → Drafts (content_of db) (content_of db')
  unfolding append_ai_proposal
  proposal-steps id e now r db' h =
      let (u, a, h1) = >>=-ok (valid_envelope (validate_envelope lib now e)) _ (r, db') h in
      let (v, b, h2) =
        >>=-ok (valid_content (validate_proposed lib (accepted_proposal e))) _ (r, db') h1 in
      let ((r1, db1), ap_ok, h3) =
        >>=-ok (append_revision_in_transaction lib id (accepted_proposal e) now db) _ (r, db') h2 in
      let (db2, ins, h4) = >>=-ok (insert_ai_proposal db1 (audit_of e r1 now)) _ (r, db') h3 in
      subst (Drafts _)
        (sym (insert_proposal-content db1 db2 (audit_of e r1 now) ins)
          ∙ ap (λ p. content_of p.1) (ok-injective _ _ h4))
        (append-steps id (accepted_proposal e) now none r1 db1 ap_ok)

  pub publish-Steps :
      (document id : Uuid) (now : ℕ) (s : Result DocumentSnapshot RepositoryError) (db' : Database)
      → publish document id now db ≡ ok (s, db')
      → Steps (content_of db) (content_of db')
  unfolding publish
  publish-Steps document id now s db' h =
      let (db1, p, h1) = >>=-ok (publish_in_transaction_at document id now db) _ (s, db') h in
      subst (Steps _) (ap (λ p. content_of p.1) (ok-injective _ _ h1))
        (one (publish-ok document id now db db1 p))

  pub publish_owned-Steps :
      (owner site document id : Uuid) (now : ℕ) (s : Result DocumentSnapshot RepositoryError)
      (db' : Database)
      → publish_document_in_owned_site owner site document id now db ≡ ok (s, db')
      → Steps (content_of db) (content_of db')
  unfolding publish_document_in_owned_site publish
  publish_owned-Steps owner site document id now s db' =
      behind (ensure_site_owner db owner site) _ s db' (
        behind (ensure_document_in_site db site document) _ s db'
          (publish-Steps document id now s db'))
