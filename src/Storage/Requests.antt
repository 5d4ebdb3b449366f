-- ===== src/Storage/Requests.antt =====
-- Sequences of calls of the operations on documents, as the connection's lock orders them, and the
-- states that they lead to.
pub mod Transactions
pub mod Run
use open_soverign_blog.Prelude.{
  ok, err, ◌>>◌, ◌>>=◌, ◌==◌, ◌≡◌, ◌++◌, ◌∷◌, [], ◌+◌, ◌&&◌, ◌||◌, not, true, false, none, some,
  if◌then◌else◌, refl, sym, ap, ◌∙◌, inl, inr, ◌⊎◌, ◌↔◌, arith, List, ℕ, Option, Bool,
}
use open_soverign_blog.Storage.Records.{
  not_found, duplicate_slug, revision_conflict, duplicate_idempotency_key, validation, storage,
  content, envelope, message, active, archived, Database,
}
use open_soverign_blog.Kernel.Policy.{Uuid}
use open_soverign_blog.Kernel.Content.{Library, NewDocument, ProposedRevision}
use open_soverign_blog.Storage.Repository.{
  Answer, create_document, create_document_in_owned_site, create_document_in_writable_site,
  create_document_in_writable_site_with_category, append_revision, revise_document_in_owned_site,
  revise_document_in_writable_site, revise_document_in_writable_site_with_category,
  assign_revision_category_in_writable_site, publish, publish_document_in_owned_site,
}
use open_soverign_blog.Kernel.Ai2Ai.{Ai2AiEnvelope}
use open_soverign_blog.Storage.Proposals.{append_ai_proposal}

pub data Request : Type 0 where
  create : Uuid → Uuid → NewDocument → ℕ → Request
  create_owned : Uuid → Uuid → Uuid → NewDocument → ℕ → Request
  create_writable : Uuid → Uuid → Uuid → NewDocument → ℕ → Request
  create_placed : Uuid → Uuid → Uuid → NewDocument → Option Uuid → ℕ → Request
  append : Uuid → ProposedRevision → ℕ → Request
  revise_owned : Uuid → Uuid → Uuid → ProposedRevision → ℕ → Request
  revise_writable : Uuid → Uuid → Uuid → ProposedRevision → ℕ → Request
  revise_placed : Uuid → Uuid → Uuid → ProposedRevision → Option (Option Uuid) → ℕ → Request
  append_proposal : Uuid → Ai2AiEnvelope → ℕ → Request
  assign : Uuid → Uuid → Uuid → Uuid → Option Uuid → ℕ → Request
  publish_revision : Uuid → Uuid → ℕ → Request
  publish_owned : Uuid → Uuid → Uuid → Uuid → ℕ → Request

-- an error rolls the transaction back
abbrev pub committed : {A : Type 0} → Database → Answer A → Database
committed db (ok (a, db')) = db'
committed db (err e) = db

unfoldable pub apply : Library → Request → Database → Database
apply lib (create document id input now) db =
    committed db (create_document lib document id input now db)
apply lib (create_owned owner document id input now) db =
    committed db (create_document_in_owned_site lib owner document id input now db)
apply lib (create_writable actor document id input now) db =
    committed db (create_document_in_writable_site lib actor document id input now db)
apply lib (create_placed actor document id input category now) db =
    committed db
      (create_document_in_writable_site_with_category lib actor document id input category now db)
apply lib (append id input now) db = committed db (append_revision lib id input now db)
apply lib (revise_owned owner site id input now) db =
    committed db (revise_document_in_owned_site lib owner site id input now db)
apply lib (revise_writable actor site id input now) db =
    committed db (revise_document_in_writable_site lib actor site id input now db)
apply lib (revise_placed actor site id input selection now) db =
    committed db
      (revise_document_in_writable_site_with_category lib actor site id input selection now db)
apply lib (append_proposal id e now) db = committed db (append_ai_proposal lib id e now db)
apply lib (assign actor site document id category now) db =
    committed db (assign_revision_category_in_writable_site actor site document id category now db)
apply lib (publish_revision document id now) db = committed db (publish document id now db)
apply lib (publish_owned owner site document id now) db =
    committed db (publish_document_in_owned_site owner site document id now db)

unfoldable pub run : Library → List Request → Database → Database
unfolding apply
run lib [] db = db
run lib (request ∷ requests) db = run lib requests (apply lib request db)

-- the calls that change what is published
unfoldable pub is_publication : Request → Bool
is_publication (publish_revision document id now) = true
is_publication (publish_owned owner site document id now) = true
is_publication _ = false
