-- ===== src/Storage/Requests/Run.antt =====
-- That every sequence of calls is a sequence of steps of the lifecycle.
use open_soverign_blog.Prelude.{◌≡◌, ◌∷◌, [], refl, none, false, ||_iff, List, any}
use open_soverign_blog.Storage.Requests.{
  run, create, create_owned, create_writable, create_placed, append, revise_owned, revise_writable,
  revise_placed, append_proposal, assign, publish_revision, publish_owned, apply, is_publication,
  Request,
}
use open_soverign_blog.Storage.Steps.{
  edits, done, step_on, Content, Star, Steps, content_of, Drafts,
}
use open_soverign_blog.Kernel.Content.{Library}
use open_soverign_blog.Storage.Records.{Database}
use open_soverign_blog.Storage.Repository.{
  create_document, create_document_in_owned_site, create_document_in_writable_site,
  create_document_in_writable_site_with_category, append_revision, revise_document_in_owned_site,
  revise_document_in_writable_site, revise_document_in_writable_site_with_category,
  assign_revision_category_in_writable_site, with_actor,
}
use open_soverign_blog.Storage.Requests.Transactions.{
  committed-Star, publish-Steps, publish_owned-Steps, behind, create-steps, append-steps,
  proposal-steps, one,
}
use open_soverign_blog.Storage.Revisions.{valid_content}
use open_soverign_blog.Kernel.Content.Document.{validate_new, validate_proposed}
use open_soverign_blog.Storage.Queries.{
  ensure_site_owner, ensure_site_writer, ensure_document_in_site,
}
use open_soverign_blog.Storage.Simulation.Create.{assign-ok}

module _ (lib : Library) (db : Database) where
  -- A call that publishes nothing is a sequence of drafts.
  pub apply-Drafts :
      (request : Request)
      → is_publication request ≡ false
      → Drafts (content_of db) (content_of (apply lib request db))
  unfolding apply create_document create_document_in_owned_site create_document_in_writable_site
      create_document_in_writable_site_with_category append_revision revise_document_in_owned_site
      revise_document_in_writable_site revise_document_in_writable_site_with_category
      assign_revision_category_in_writable_site is_publication
  apply-Drafts (create document id input now) h = committed-Star db _ (λ s db'.
      behind (valid_content (validate_new lib input)) _ s db'
        (create-steps lib db document id input now none s db'))
  apply-Drafts (create_owned owner document id input now) h = committed-Star db _ (λ s db'.
      behind (valid_content (validate_new lib input)) _ s db' (
        behind (ensure_site_owner db owner input.site_id) _ s db'
          (create-steps lib db document id input now none s db')))
  apply-Drafts (create_writable actor document id input now) h = committed-Star db _ (λ s db'.
      behind (valid_content (validate_new lib input)) _ s db' (
        behind (ensure_site_writer db actor input.site_id) _ s db'
          (create-steps lib db document id input now none s db')))
  apply-Drafts (create_placed actor document id input category now) h =
      committed-Star db _ (λ s db'. behind (valid_content (validate_new lib input)) _ s db' (
        behind (ensure_site_writer db actor input.site_id) _ s db'
          (create-steps lib db document id input now (with_actor actor category) s db')))
  apply-Drafts (append id input now) h = committed-Star db _ (λ r db'.
      behind (valid_content (validate_proposed lib input)) _ r db'
        (append-steps lib db id input now none r db'))
  apply-Drafts (revise_owned owner site id input now) h = committed-Star db _ (λ r db'.
      behind (valid_content (validate_proposed lib input)) _ r db' (
        behind (ensure_site_owner db owner site) _ r db' (
          behind (ensure_document_in_site db site input.document_id) _ r db'
            (append-steps lib db id input now none r db'))))
  apply-Drafts (revise_writable actor site id input now) h = committed-Star db _ (λ r db'.
      behind (valid_content (validate_proposed lib input)) _ r db' (
        behind (ensure_site_writer db actor site) _ r db' (
          behind (ensure_document_in_site db site input.document_id) _ r db'
            (append-steps lib db id input now none r db'))))
  apply-Drafts (revise_placed actor site id input selection now) h = committed-Star db _ (λ r db'.
      behind (valid_content (validate_proposed lib input)) _ r db' (
        behind (ensure_site_writer db actor site) _ r db' (
          behind (ensure_document_in_site db site input.document_id) _ r db'
            (append-steps lib db id input now (with_actor actor selection) r db'))))
  apply-Drafts (append_proposal id e now) h = committed-Star db _ (proposal-steps lib db id e now)
  apply-Drafts (assign actor site document id category now) h = committed-Star db _ (λ p db'.
      behind (ensure_site_writer db actor site) _ p db'
        (λ q. one (assign-ok actor site document id category now db db' p q)))
  apply-Drafts (publish_revision document id now) h = cc
  apply-Drafts (publish_owned owner site document id now) h = cc

  -- Every call is a sequence of steps.
  pub apply-Steps : (request : Request) → Steps (content_of db) (content_of (apply lib request db))
  unfolding is_publication apply
  apply-Steps (publish_revision document id now) =
      committed-Star db _ (publish-Steps lib db document id now)
  apply-Steps (publish_owned owner site document id now) =
      committed-Star db _ (publish_owned-Steps lib db owner site document id now)
  apply-Steps (create document id input now) =
      edits (apply-Drafts (create document id input now) refl)
  apply-Steps (create_owned owner document id input now) =
      edits (apply-Drafts (create_owned owner document id input now) refl)
  apply-Steps (create_writable actor document id input now) =
      edits (apply-Drafts (create_writable actor document id input now) refl)
  apply-Steps (create_placed actor document id input category now) =
      edits (apply-Drafts (create_placed actor document id input category now) refl)
  apply-Steps (append id input now) = edits (apply-Drafts (append id input now) refl)
  apply-Steps (revise_owned owner site id input now) =
      edits (apply-Drafts (revise_owned owner site id input now) refl)
  apply-Steps (revise_writable actor site id input now) =
      edits (apply-Drafts (revise_writable actor site id input now) refl)
  apply-Steps (revise_placed actor site id input selection now) =
      edits (apply-Drafts (revise_placed actor site id input selection now) refl)
  apply-Steps (append_proposal id e now) = edits (apply-Drafts (append_proposal id e now) refl)
  apply-Steps (assign actor site document id category now) =
      edits (apply-Drafts (assign actor site document id category now) refl)

join_stars :
    {R : Content → Content → Type 0} {c c' c'' : Content}
    → Star R c c'
    → Star R c' c''
    → Star R c c''
join_stars s done = s
join_stars s (step_on t u) = step_on (join_stars s t) u

pub run-Steps :
    (lib : Library) (requests : List Request) (db : Database)
    → Steps (content_of db) (content_of (run lib requests db))
unfolding run
run-Steps lib [] db = done
run-Steps lib (request ∷ requests) db =
    join_stars (apply-Steps lib db request) (run-Steps lib requests (apply lib request db))

pub run-Drafts :
    (lib : Library) (requests : List Request) (db : Database)
    → any is_publication requests ≡ false
    → Drafts (content_of db) (content_of (run lib requests db))
unfolding run
run-Drafts lib [] db h = done
run-Drafts lib (request ∷ requests) db h =
    let (a, b) = (||_iff (is_publication request) (any is_publication requests)).0 h in
    join_stars (apply-Drafts lib db request a) (run-Drafts lib requests (apply lib request db) b)
