-- ===== src/Storage/Repository.antt =====
-- The public operations of crates/storage-sqlite/src/lib.rs on documents: the trait
-- `ContentRepository` of crates/kernel/src/ports.rs, and the operations that ask for the right of a
-- user on a site.
use open_soverign_blog.Prelude.{ok, ◌>>◌, ◌>>=◌, none, some, Result, Option, ℕ}
use open_soverign_blog.Storage.Load.{current, published, load_document}
use open_soverign_blog.Storage.Records.{Database, RepositoryError, RevisionCategoryPlacement}
use open_soverign_blog.Kernel.Content.{
  Library, ProposedRevision, DocumentSnapshot, NewDocument, RevisionSnapshot,
}
use open_soverign_blog.Kernel.Policy.{Uuid}
use open_soverign_blog.Storage.Publish.{publish_in_transaction_at}
use open_soverign_blog.Storage.Queries.{
  ensure_site_owner, ensure_site_writer, ensure_document_in_site, load_revision_category_placement,
}
use open_soverign_blog.Storage.Revisions.{
  valid_content, append_revision_in_transaction_with_category, append_revision_in_transaction,
}
use open_soverign_blog.Storage.Documents.{
  assign_revision_category_in_transaction, create_document_in_transaction,
}
use open_soverign_blog.Kernel.Content.Document.{validate_new, validate_proposed}

abbrev pub Answer {ℓ} : Type ℓ → Type ℓ
Answer A = Result (A × Database) RepositoryError

-- `map(|category_id| (actor_user_id, category_id))`
abbrev pub with_actor : {A : Type 0} → Uuid → Option A → Option (Uuid × A)
with_actor actor none = none
with_actor actor (some a) = some (actor, a)

module _ (lib : Library) where
  unfoldable pub create_document :
      Uuid → Uuid → NewDocument → ℕ → Database → Answer DocumentSnapshot
  unfolding valid_content create_document_in_transaction
  create_document document id input now db = do
    valid_content (validate_new lib input)
    create_document_in_transaction lib document id input now none none db

  unfoldable pub append_revision : Uuid → ProposedRevision → ℕ → Database → Answer RevisionSnapshot
  unfolding valid_content
  append_revision id input now db = do
    valid_content (validate_proposed lib input)
    append_revision_in_transaction lib id input now db

  unfoldable pub create_document_in_owned_site :
      Uuid → Uuid → Uuid → NewDocument → ℕ → Database → Answer DocumentSnapshot
  unfolding valid_content ensure_site_owner create_document_in_transaction
  create_document_in_owned_site owner document id input now db = do
    valid_content (validate_new lib input)
    ensure_site_owner db owner input.site_id
    create_document_in_transaction lib document id input now none none db

  unfoldable pub create_document_in_writable_site_with_category :
      Uuid → Uuid → Uuid → NewDocument → Option Uuid → ℕ → Database → Answer DocumentSnapshot
  unfolding valid_content ensure_site_writer create_document_in_transaction
  create_document_in_writable_site_with_category actor document id input category now db = do
    valid_content (validate_new lib input)
    ensure_site_writer db actor input.site_id
    create_document_in_transaction lib document id input now (with_actor actor category) none db

  unfoldable pub create_document_in_writable_site :
      Uuid → Uuid → Uuid → NewDocument → ℕ → Database → Answer DocumentSnapshot
  unfolding valid_content ensure_site_writer create_document_in_transaction
  create_document_in_writable_site actor document id input now db = do
    valid_content (validate_new lib input)
    ensure_site_writer db actor input.site_id
    create_document_in_transaction lib document id input now none none db

  unfoldable pub revise_document_in_owned_site :
      Uuid → Uuid → Uuid → ProposedRevision → ℕ → Database → Answer RevisionSnapshot
  unfolding valid_content ensure_site_owner ensure_document_in_site
  revise_document_in_owned_site owner site id input now db = do
    valid_content (validate_proposed lib input)
    ensure_site_owner db owner site
    ensure_document_in_site db site input.document_id
    append_revision_in_transaction lib id input now db

  unfoldable pub revise_document_in_writable_site :
      Uuid → Uuid → Uuid → ProposedRevision → ℕ → Database → Answer RevisionSnapshot
  unfolding valid_content ensure_site_writer ensure_document_in_site
  revise_document_in_writable_site actor site id input now db = do
    valid_content (validate_proposed lib input)
    ensure_site_writer db actor site
    ensure_document_in_site db site input.document_id
    append_revision_in_transaction lib id input now db

  unfoldable pub revise_document_in_writable_site_with_category :
      Uuid
      → Uuid
      → Uuid
      → ProposedRevision
      → Option (Option Uuid)
      → ℕ
      → Database
      → Answer RevisionSnapshot
  unfolding valid_content ensure_site_writer ensure_document_in_site
      append_revision_in_transaction_with_category
  revise_document_in_writable_site_with_category actor site id input selection now db = do
    valid_content (validate_proposed lib input)
    ensure_site_writer db actor site
    ensure_document_in_site db site input.document_id
    append_revision_in_transaction_with_category lib id input now (with_actor actor selection) db

-- What is published is loaded after the commit, so the tables stay even if the load fails.
abbrev pub published_answer : Uuid → Database → Answer (Result DocumentSnapshot RepositoryError)
published_answer document db = ok (load_document db document published, db)

unfoldable pub publish :
    Uuid → Uuid → ℕ → Database → Answer (Result DocumentSnapshot RepositoryError)
unfolding publish_in_transaction_at load_document
publish document id now db = do
  db1 ← publish_in_transaction_at document id now db
  published_answer document db1

unfoldable pub publish_document_in_owned_site :
    Uuid → Uuid → Uuid → Uuid → ℕ → Database → Answer (Result DocumentSnapshot RepositoryError)
unfolding ensure_site_owner ensure_document_in_site publish_in_transaction_at load_document
publish_document_in_owned_site owner site document id now db = do
  ensure_site_owner db owner site
  ensure_document_in_site db site document
  db1 ← publish_in_transaction_at document id now db
  published_answer document db1

unfoldable pub assign_revision_category_in_writable_site :
    Uuid → Uuid → Uuid → Uuid → Option Uuid → ℕ → Database → Answer RevisionCategoryPlacement
unfolding ensure_site_writer assign_revision_category_in_transaction
assign_revision_category_in_writable_site actor site document id category now db = do
  ensure_site_writer db actor site
  assign_revision_category_in_transaction actor site document id category now db

unfoldable pub get_document_in_owned_site :
    Database → Uuid → Uuid → Uuid → Result DocumentSnapshot RepositoryError
unfolding ensure_site_owner ensure_document_in_site load_document
get_document_in_owned_site db owner site document = do
  ensure_site_owner db owner site
  ensure_document_in_site db site document
  load_document db document current

unfoldable pub get_document_in_writable_site :
    Database → Uuid → Uuid → Uuid → Result DocumentSnapshot RepositoryError
unfolding ensure_site_writer ensure_document_in_site load_document
get_document_in_writable_site db actor site document = do
  ensure_site_writer db actor site
  ensure_document_in_site db site document
  load_document db document current

unfoldable pub get_revision_category_placement :
    Database → Uuid → Uuid → Uuid → Result RevisionCategoryPlacement RepositoryError
unfolding ensure_document_in_site load_revision_category_placement
get_revision_category_placement db site document id = do
  ensure_document_in_site db site document
  load_revision_category_placement db site document id
