-- ===== src/Storage/Tests.antt =====
-- Runs of crates/storage-sqlite, and the theorems about it at concrete inputs.
mod Accounts
mod Inputs
use mathlib.Core.List.{Permᴰ}
use open_soverign_blog.Prelude.{
  ok, err, ◌>>◌, ◌>>=◌, ◌==◌, ◌≡◌, ◌++◌, ◌∷◌, [], ◌+◌, ◌&&◌, ◌||◌, not, true, false, none, some,
  if◌then◌else◌, refl, sym, ap, ◌∙◌, inl, inr, ◌⊎◌, ◌↔◌, arith, List, subst, any, map, take, min,
  In,
}
use open_soverign_blog.Storage.Records.{
  not_found, duplicate_slug, revision_conflict, duplicate_idempotency_key, validation, storage,
  content, envelope, message, active, archived, Database, RevisionRow, RevisionCategoryPlacement,
  SiteMembershipRole, DocumentRow, CategoryRecord,
}
use open_soverign_blog.Kernel.Samples.{plain, document, proposal}
use open_soverign_blog.Storage.Repository.{create_document, publish, append_revision}
use open_soverign_blog.Storage.Load.{published, list_revisions}
use open_soverign_blog.Storage.Requests.{
  Request, create, publish_revision, append, run, apply, is_publication,
}
use open_soverign_blog.Kernel.Content.{DocumentStatus, RevisionSnapshot, DocumentSnapshot}
use open_soverign_blog.Prelude.{length, ◌≢◌, ℕ}
use open_soverign_blog.Storage.Documents.{
  first_revision, new_document_row, create_document_in_transaction, insert_document,
  assign_initial_category, draft_snapshot,
}
use open_soverign_blog.Text.{codes, trim, byte_len, starts_with, ends_with, is_control, text_eq}
use open_soverign_blog.Storage.Revisions.{
  with_computed_hash, load_active_category, insert_revision, check_new_revision, place_new_revision,
  parent_category, valid_content, revision_of, append_revision_in_transaction_with_category,
  current_of, assign_new_revision,
}
use open_soverign_blog.Storage.Queries.{
  ensure_root_slug_not_category, ensure_document_route_available, find_document, transpose,
  category_route_path, nocase_eq, or_not_found, find_revision, revision_category_route_path,
  load_revision_category_placement, load_category_by_id, is_active,
}
use open_soverign_blog.Kernel.Content.Document.{validate_new, validate_summary, validate_proposed}
use open_soverign_blog.Kernel.Content.Validation.{
  validate_title, validate_slug, validate_markdown, validate_embeds, validate_authorship,
  validate_optional_layers,
}
use open_soverign_blog.Storage.Invariant.{IsVersioned, IsRouted, IsChain}
use open_soverign_blog.Storage.Guarantees.Kept.{IsKept, run-IsVersioned, run-IsRouted, run-IsKept}
use open_soverign_blog.Storage.Journal.{Acts, journal_of}
use open_soverign_blog.Storage.Guarantees.Published.{IsDelivered, publish-IsDelivered}
use open_soverign_blog.Storage.Guarantees.Shown.{delivery}
use open_soverign_blog.Storage.Guarantees.Delivery.{run-delivery}
use open_soverign_blog.Storage.Publish.{
  publish_in_transaction_at, ensure_series_item_for_revision_in_transaction, series_of_placement,
  item_added, upsert_route,
}
use open_soverign_blog.Storage.Steps.{content_of}
use open_soverign_blog.Storage.Guarantees.Race.{append_revision-once}
use open_soverign_blog.Storage.Load.{load_document, selected_revision}
use open_soverign_blog.Storage.Journal.Refines.{run-refines}
use open_soverign_blog.Storage.Guarantees.Conflict.{append_revision-conflict_iff}
use open_soverign_blog.Kernel.Policy.{Uuid}
use open_soverign_blog.Storage.Categories.Admitted.{publish-active}
use open_soverign_blog.Storage.Guarantees.Listing.{list_revisions-IsChain}

abbrev pub fresh : Database
fresh = record {
  users = 10 ∷ [];
  site_memberships =
      record { site_id = 1; user_id = 10; role = SiteMembershipRole.owner; created_at = 0 } ∷ [];
  documents = [];
  revisions = [];
  routes = [];
  categories = [];
  revision_categories = [];
  series = [];
  series_items = [];
  ai_proposal_audits = [];
}

abbrev calls : List Request
calls = create 2 3 document 100 ∷ publish_revision 2 3 200 ∷ []

abbrev first : RevisionRow
first = record { snapshot = first_revision plain document 2 3 100; idempotency_key = none }

abbrev first_placement : RevisionCategoryPlacement
first_placement = record {
  revision_id = 3;
  document_id = 2;
  site_id = 1;
  category_id = none;
  assigned_by_user_id = none;
  assigned_at = 100;
}

abbrev drafted : Database
drafted = record fresh {
  documents = new_document_row document (first.snapshot) (codes "portable-first") 100 ∷ [];
  revisions = first ∷ [];
  revision_categories = first_placement ∷ [];
}

-- the tables after both calls
abbrev stored : Database
stored = record drafted {
  documents =
      record {
        id = 2;
        site_id = 1;
        status = DocumentStatus.published;
        current_revision_id = 3;
        published_revision_id = some 3;
        current_slug = codes "portable-first";
        created_at = 100;
        updated_at = 200;
      }
      ∷ [];
  routes =
      record {
        site_id = 1;
        path = codes "portable-first";
        document_id = 2;
        is_canonical = true;
        created_at = 200;
      }
      ∷ [];
}

created :
    create_document plain 2 3 document 100 fresh
    ≡ ok (draft_snapshot document (first.snapshot) 100, drafted)
unfolding create_document create_document_in_transaction first_revision with_computed_hash
    load_active_category ensure_root_slug_not_category ensure_document_route_available
    insert_document insert_revision check_new_revision place_new_revision parent_category
    assign_initial_category find_document transpose category_route_path valid_content validate_new
    validate_title validate_slug validate_markdown validate_embeds validate_authorship
    validate_optional_layers validate_summary trim byte_len starts_with ends_with is_control
    nocase_eq text_eq
created = refl

abbrev delivered : DocumentSnapshot
delivered = record (draft_snapshot document (first.snapshot) 100) {
  status = DocumentStatus.published;
  published_revision_id = some 3;
}

published_once : publish 2 3 200 drafted ≡ ok (ok delivered, stored)
unfolding publish publish_in_transaction_at or_not_found find_revision find_document
    revision_category_route_path load_revision_category_placement transpose
    ensure_root_slug_not_category category_route_path ensure_document_route_available
    ensure_series_item_for_revision_in_transaction series_of_placement item_added upsert_route
    load_document selected_revision nocase_eq first_revision with_computed_hash text_eq
published_once = refl

published_in_transaction : publish_in_transaction_at 2 3 200 drafted ≡ ok stored
unfolding publish_in_transaction_at or_not_found find_revision find_document
    revision_category_route_path load_revision_category_placement transpose
    ensure_root_slug_not_category category_route_path ensure_document_route_available
    ensure_series_item_for_revision_in_transaction series_of_placement item_added upsert_route
    nocase_eq first_revision with_computed_hash text_eq
published_in_transaction = refl

called : run plain calls fresh ≡ stored
unfolding run apply
called = rw created (rw published_once refl)

fresh-IsVersioned : IsVersioned (content_of fresh)
fresh-IsVersioned = record {
  document_ids = tt;
  revision_ids = tt;
  owned = λ r i. absurd i;
  chain = λ d i. absurd i;
  delivered = λ d i. absurd i;
  status = λ d i. absurd i;
}

fresh-IsRouted : IsRouted (content_of fresh)
fresh-IsRouted = record { route_keys = tt; slugs = λ d e i. absurd i; apart = λ d t i. absurd i }

stored-IsVersioned : IsVersioned (content_of stored)
stored-IsVersioned =
    subst (λ db. IsVersioned (content_of db)) called
      (run-IsVersioned plain calls fresh fresh-IsVersioned)

run-IsVersioned_example : IsVersioned (content_of (run plain calls fresh))
run-IsVersioned_example = run-IsVersioned plain calls fresh fresh-IsVersioned

run-IsRouted_example : IsRouted (content_of (run plain calls fresh))
run-IsRouted_example = run-IsRouted plain calls fresh fresh-IsVersioned fresh-IsRouted

run-IsKept_example : IsKept (content_of fresh) (content_of (run plain calls fresh))
run-IsKept_example = run-IsKept plain calls fresh

run-refines_example :
    Acts (journal_of (content_of fresh)) (journal_of (content_of (run plain calls fresh)))
run-refines_example = run-refines plain calls fresh fresh-IsVersioned

publish-IsDelivered_example : IsDelivered 2 3 drafted (ok delivered) stored
publish-IsDelivered_example =
    publish-IsDelivered 2 3 200 (ok delivered) drafted stored published_once

abbrev second : RevisionSnapshot
second = revision_of plain proposal 4 2 300

-- the tables after a revision on top of what is published
abbrev revised : Database
revised = record stored {
  documents =
      record {
        id = 2;
        site_id = 1;
        status = DocumentStatus.published;
        current_revision_id = 4;
        published_revision_id = some 3;
        current_slug = codes "title";
        created_at = 100;
        updated_at = 300;
      }
      ∷ [];
  revisions = record { snapshot = second; idempotency_key = none } ∷ first ∷ [];
  revision_categories =
      record first_placement { revision_id = 4; assigned_at = 300 } ∷ first_placement ∷ [];
}

proposal_is_valid : validate_proposed plain proposal ≡ ok tt
unfolding validate_proposed validate_title validate_slug validate_markdown validate_embeds
    validate_authorship validate_optional_layers validate_summary trim byte_len starts_with
    ends_with is_control
proposal_is_valid = refl

appended : append_revision plain 4 proposal 300 stored ≡ ok (second, revised)
unfolding append_revision append_revision_in_transaction_with_category valid_content current_of
    revision_of insert_revision check_new_revision place_new_revision parent_category
    assign_new_revision find_document or_not_found revision_category_route_path
    load_revision_category_placement transpose ensure_root_slug_not_category category_route_path
    ensure_document_route_available nocase_eq first_revision with_computed_hash text_eq
appended = rw proposal_is_valid refl

append_revision-once_example : append_revision plain 5 proposal 400 revised ≡ err revision_conflict
append_revision-once_example =
    append_revision-once plain 4 5 proposal proposal 300 400 stored revised second appended refl
      refl proposal_is_valid

append_revision-conflict_iff_example :
    (append_revision plain 5 proposal 400 revised ≡ err revision_conflict) ↔ (
      (validate_proposed plain proposal ≡ ok tt)
      × ((found : DocumentRow × ℕ) × (current_of revised 2 ≡ ok found)
          × (found.0.current_revision_id ≢ 3)))
append_revision-conflict_iff_example = append_revision-conflict_iff plain 5 proposal 400 revised

no_publication : any is_publication (append 4 proposal 300 ∷ []) ≡ false
unfolding is_publication
no_publication = refl

run-delivery_example :
    delivery (load_document (run plain (append 4 proposal 300 ∷ []) stored) 2 published)
    ≡ delivery (load_document stored 2 published)
run-delivery_example =
    run-delivery plain (append 4 proposal 300 ∷ []) stored 2 stored-IsVersioned no_publication

-- the row of the document with both revisions
abbrev row : DocumentRow
row = record {
  id = 2;
  site_id = 1;
  status = DocumentStatus.published;
  current_revision_id = 4;
  published_revision_id = some 3;
  current_slug = codes "title";
  created_at = 100;
  updated_at = 300;
}

revised_called : run plain (append 4 proposal 300 ∷ []) stored ≡ revised
unfolding run apply
revised_called = rw appended refl

revised-IsVersioned : IsVersioned (content_of revised)
revised-IsVersioned =
    subst (λ db. IsVersioned (content_of db)) revised_called
      (run-IsVersioned plain (append 4 proposal 300 ∷ []) stored stored-IsVersioned)

abbrev later : RevisionRow
later = record { snapshot = second; idempotency_key = none }

-- The rows are stored oldest first here.
list_revisions-IsChain_example :
    (rows : List RevisionRow) × (list_revisions
        (record revised { revisions = first ∷ later ∷ [] })
        2
        5
      ≡ ok (map (λ r. r.snapshot) (take (min 5 1000) rows)))
    × IsChain 4 rows
    × ((r : RevisionRow) → In r rows ↔ (In r revised.revisions × (r.snapshot.document_id ≡ 2)))
list_revisions-IsChain_example =
    list_revisions-IsChain revised row 5 (first ∷ later ∷ []) revised-IsVersioned (inl refl)
      (Permᴰ.swap refl refl)

publish-active_example :
    (site : Uuid) × (p : RevisionCategoryPlacement) × (load_revision_category_placement drafted site
        2 3
      ≡ ok p)
    × ((category : Uuid)
        → p.category_id ≡ some category
        → (c : CategoryRecord) × (load_category_by_id drafted site category ≡ ok c)
          × (is_active c.status ≡ true))
publish-active_example = publish-active 2 3 200 drafted stored published_in_transaction
