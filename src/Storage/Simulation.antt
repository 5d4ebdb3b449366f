-- ===== src/Storage/Simulation.antt =====
-- That the operations of crates/storage-sqlite/src/lib.rs take the tables from one content to the
-- next by the steps of the lifecycle.
pub mod Append
pub mod Publish
pub mod Create
pub mod NewDocument
use open_soverign_blog.Prelude.{
  ok, err, ◌>>◌, ◌>>=◌, ◌==◌, ◌≡◌, ◌++◌, ◌∷◌, [], ◌+◌, ◌&&◌, ◌||◌, not, true, false, none, some,
  if◌then◌else◌, refl, sym, ap, ◌∙◌, inl, inr, ◌⊎◌, ◌↔◌, arith, Option, Result, Option-cases,
  reject_if->>-ok, >>=-ok, ||_iff, any-false, any, ℕ, ok-injective, In, find-some, subst, ==_iff,
  find,
}
use open_soverign_blog.Storage.Records.{
  not_found, duplicate_slug, revision_conflict, duplicate_idempotency_key, validation, storage,
  content, envelope, message, active, archived, Database, DocumentRow, RouteRow, RepositoryError,
  RevisionRow,
}
use open_soverign_blog.Storage.Queries.{
  or_not_found, ensure_document_route_available, holds_slug, holds_route, find_document,
  is_document,
}
use open_soverign_blog.Kernel.Policy.{Uuid}
use open_soverign_blog.Storage.Revisions.{
  place_new_revision, insert_revision, check_new_revision, store_revision, move_placement,
  assign_new_revision, current_of, check_move, load_active_category,
}
use open_soverign_blog.Text.{Text, text_eq, text_eq_iff}
use open_soverign_blog.Kernel.Content.{RevisionSnapshot}
use open_soverign_blog.Storage.Steps.{content_of, IsNewRevision, IsAvailable, Content}
use open_soverign_blog.Storage.Steps.{Draft}

pub or_not_found-ok : {A : Type 0} (o : Option A) (a : A) → or_not_found o ≡ ok a → o ≡ some a
unfolding or_not_found
or_not_found-ok none a h = cc
or_not_found-ok (some b) a h = cc

holds_slug-false :
    (site document : Uuid) (path : Text) (d : DocumentRow)
    → holds_slug site document path d ≡ false
    → d.site_id ≡ site
    → d.current_slug ≡ path
    → d.id ≡ document
holds_slug-false site document path d h s p =
    let q : text_eq d.current_slug path ≡ true = (text_eq_iff _ _).1 p in ground (arith, h, s, q)

holds_route-false :
    (site document : Uuid) (path : Text) (t : RouteRow)
    → holds_route site document path t ≡ false
    → t.site_id ≡ site
    → t.path ≡ path
    → t.document_id ≡ document
holds_route-false site document path t h s p =
    let q : text_eq t.path path ≡ true = (text_eq_iff _ _).1 p in ground (arith, h, s, q)

pub IsAvailable-of :
    {B : Type 0} (db : Database) (site document : Uuid) (path : Text) (k : Result B RepositoryError)
    (b : B)
    → (ensure_document_route_available db site document path >> k) ≡ ok b
    → IsAvailable (content_of db) site document path × (k ≡ ok b)
unfolding ensure_document_route_available
IsAvailable-of db site document path k b h =
    let (free, rest) = reject_if->>-ok _ _ k b h in
    let (slugs, routes) =
      (||_iff (any (holds_slug site document path) db.documents)
          (any (holds_route site document path) db.routes)).0
        free in
    (
      record {
        no_document = λ d i.
            holds_slug-false site document path d
              (any-false (holds_slug site document path) _ slugs d i);
        no_route = λ t i.
            holds_route-false site document path t
              (any-false (holds_route site document path) _ routes t i);
      },
      rest,
    )

place_new_revision-content :
    (db : Database) (r : RevisionSnapshot) → content_of (place_new_revision db r) ≡ content_of db
unfolding place_new_revision
place_new_revision-content db r = elim (Option-cases (find_document db r.document_id)) [
  | inl e ↦ rw (place_new_revision, e) refl
  | inr (d, e) ↦ rw (place_new_revision, e) refl
]

pub insert_revision-ok :
    (db db' : Database) (r : RevisionSnapshot) (key : Option Text)
    → insert_revision db r key ≡ ok db'
    → IsNewRevision (content_of db) (record { snapshot = r; idempotency_key = key })
      × (content_of db' ≡ content_of (store_revision db r key))
unfolding insert_revision check_new_revision
insert_revision-ok db db' r key h =
    let (u, checks, h1) = >>=-ok (check_new_revision db r key) _ db' h in
    let (ids, rest) =
      reject_if->>-ok (any (λ x. x.snapshot.id == r.id) db.revisions) duplicate_slug _ u checks in
    let (placed, stored) =
      reject_if->>-ok (any (λ p. p.revision_id == r.id) db.revision_categories) duplicate_slug
        (ok (place_new_revision (store_revision db r key) r)) db' h1 in
    (
      λ s i q. cc (
          sym ((==_iff s.snapshot.id r.id).1 q)
          ∙ any-false (λ x. x.snapshot.id == r.id) db.revisions ids s i),
      ap content_of (sym (ok-injective _ _ stored))
          ∙ place_new_revision-content (store_revision db r key) r,
    )

pub move_placement-content :
    (db db' : Database) (actor site document revision : Uuid) (category : Option Uuid) (now : ℕ)
    → move_placement db actor site document revision category now ≡ ok db'
    → content_of db' ≡ content_of db
unfolding move_placement
move_placement-content db db' actor site document revision category now h =
    let (u, a, h1) = >>=-ok (check_move db actor site document revision) _ db' h in
    sym (ap content_of (ok-injective _ _ h1))

pub assign_new_revision-content :
    (db db' : Database) (site : Uuid) (r : RevisionSnapshot) (now : ℕ)
    (o : Option (Uuid × Option Uuid))
    → assign_new_revision db site r now o ≡ ok db'
    → content_of db' ≡ content_of db
unfolding assign_new_revision
assign_new_revision-content db db' site r now none h = sym (ap content_of (ok-injective _ _ h))
assign_new_revision-content db db' site r now (some (actor, category)) h =
    let (u, a, h1) = >>=-ok (load_active_category db site category) _ db' h in
    move_placement-content db db' actor site r.document_id r.id category now h1

pub current_of-ok :
    (db : Database) (id : Uuid) (d : DocumentRow) (n : ℕ)
    → current_of db id ≡ ok (d, n)
    → In d db.documents
      × (d.id ≡ id)
      × ((s : RevisionRow) × In s db.revisions
          × (s.snapshot.id ≡ d.current_revision_id)
          × (s.snapshot.revision_number ≡ n))
unfolding current_of find_document
current_of-ok db id d n h =
    let (e, a, h1) = >>=-ok (or_not_found (find (is_document id) db.documents)) _ (d, n) h in
    let (s, b, h2) =
      >>=-ok (or_not_found (find (λ r. r.snapshot.id == e.current_revision_id) db.revisions)) _
        (d, n) h1 in
    let (i, t) = find-some (is_document id) db.documents e (or_not_found-ok _ _ a) in
    let (j, u) =
      find-some (λ r. r.snapshot.id == e.current_revision_id) db.revisions s
        (or_not_found-ok _ _ b) in
    let q : (e, s.snapshot.revision_number) ≡ (d, n) = ok-injective _ _ h2 in
    let same : e ≡ d = ap (λ p. p.0) q in
    (
      subst (λ x. In x db.documents) same i,
      ap (λ x. x.id) (sym same) ∙ (==_iff e.id id).0 t,
      (s, j, (==_iff _ _).0 u ∙ ap (λ x. x.current_revision_id) same, ap (λ p. p.1) q),
    )

-- the row that the search for the current revision has found
pub current_row :
    (db : Database) (id : Uuid) (d : DocumentRow) (n : ℕ)
    → current_of db id ≡ ok (d, n)
    → find (is_document id) db.documents ≡ some d
unfolding current_of find_document
current_row db id d n h =
    let (e, a, h1) = >>=-ok (or_not_found (find (is_document id) db.documents)) _ (d, n) h in
    let (s, b, h2) =
      >>=-ok (or_not_found (find (λ r. r.snapshot.id == e.current_revision_id) db.revisions)) _
        (d, n) h1 in
    or_not_found-ok _ _ a ∙ ap some (ap (λ p. p.0) (ok-injective _ _ h2))

-- a step that leads to an equal content
abbrev pub draft_to : {c c' c'' : Content} → Draft c c' → c' ≡ c'' → Draft c c''
draft_to s e = subst (Draft _) e s
