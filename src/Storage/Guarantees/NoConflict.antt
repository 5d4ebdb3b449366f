-- ===== src/Storage/Guarantees/NoConflict.antt =====
-- What never ends in a conflict of revisions.
use open_soverign_blog.Prelude.{
  ok, err, ◌>>◌, ◌>>=◌, ◌==◌, ◌≡◌, not, true, false, none, some, if◌then◌else◌, refl, ap, Result,
  Bool, Option, ◌≢◌, err-injective, reject_if, is_some, ℕ, find, ◌&&◌, any, is_some_and, ◌||◌,
}
use open_soverign_blog.Storage.Records.{
  duplicate_slug, revision_conflict, duplicate_idempotency_key, validation, storage, message,
  RepositoryError, Database, RevisionCategoryPlacement,
}
use open_soverign_blog.Storage.Queries.{
  or_not_found, transpose, load_category_by_id, revision_category_route_path,
  ensure_document_route_available, load_revision_category_placement, ensure_root_slug_not_category,
  archived_publication, find_document, category_route_path, holds_slug, is_archived, holds_route,
}
use open_soverign_blog.Storage.Revisions.{
  insert_revision, valid_content, check_new_revision, assign_new_revision, current_of,
  place_new_revision, store_revision,
}
use open_soverign_blog.Kernel.Content.{ContentValidationError, RevisionSnapshot}
use open_soverign_blog.Kernel.Policy.{Uuid}
use open_soverign_blog.Text.{Text, text_eq}

-- a result that is no conflict
abbrev pub NoConflict : {A : Type 0} → Result A RepositoryError → Type 0
NoConflict m = m ≢ err revision_conflict

pub NoConflict-ok : {A : Type 0} (a : A) → NoConflict (ok a)
NoConflict-ok a q = cc q

pub NoConflict->>= :
    {A B : Type 0} (m : Result A RepositoryError) (f : A → Result B RepositoryError)
    → NoConflict m
    → ((a : A) → NoConflict (f a))
    → NoConflict (m >>= f)
NoConflict->>= (ok a) f h k q = k a q
NoConflict->>= (err e) f h k q = h (ap err (err-injective _ _ q))

NoConflict-check :
    {B : Type 0} (bad : Bool) (e : RepositoryError) (k : Result B RepositoryError)
    → e ≢ revision_conflict
    → NoConflict k
    → NoConflict (reject_if bad e >> k)
NoConflict-check true e k n h q = n (err-injective _ _ q)
NoConflict-check false e k n h q = h q

NoConflict-reject :
    (bad : Bool) (e : RepositoryError) → e ≢ revision_conflict → NoConflict (reject_if bad e)
NoConflict-reject true e n q = n (err-injective _ _ q)
NoConflict-reject false e n q = cc q

NoConflict-find : {A : Type 0} (o : Option A) → NoConflict (or_not_found o)
unfolding or_not_found
NoConflict-find none q = cc (err-injective _ _ q)
NoConflict-find (some a) q = cc q

NoConflict-if :
    {A : Type 0} (b : Bool) (m k : Result A RepositoryError)
    → NoConflict m
    → NoConflict k
    → NoConflict (if b then m else k)
NoConflict-if true m k h h' = h
NoConflict-if false m k h h' = h'

NoConflict-transpose :
    {A B : Type 0} (o : Option A) (f : A → Result B RepositoryError)
    → ((a : A) → NoConflict (f a))
    → NoConflict (transpose o f)
unfolding transpose
NoConflict-transpose none f h q = cc q
NoConflict-transpose (some a) f h q = NoConflict->>= (f a) _ (h a) (λ b q. cc q) q

NoConflict-category : (db : Database) (site id : Uuid) → NoConflict (load_category_by_id db site id)
unfolding load_category_by_id
NoConflict-category db site id = NoConflict-find _

pub NoConflict-path :
    (db : Database) (site document id : Uuid) (slug : Text) (require : Bool)
    → NoConflict (revision_category_route_path db site document id slug require)
unfolding revision_category_route_path load_revision_category_placement
    ensure_root_slug_not_category
NoConflict-path db site document id slug require =
    NoConflict->>= (load_revision_category_placement db site document id) _ (NoConflict-find _)
      (λ (p : RevisionCategoryPlacement).
        NoConflict->>= (transpose p.category_id (load_category_by_id db site)) _
          (NoConflict-transpose _ _ (NoConflict-category db site))
          (λ c.
            NoConflict-check (require && is_some_and c is_archived)
              (validation (message archived_publication)) _ (λ q. cc q)
              (NoConflict->>=
                (if is_some c then ok tt else ensure_root_slug_not_category db site slug) _
                (NoConflict-if (is_some c) _ _ (NoConflict-ok tt)
                  (NoConflict-reject _ duplicate_slug (λ q. cc q)))
                (λ u. NoConflict-ok (category_route_path c slug)))))

pub NoConflict-insert :
    (db : Database) (r : RevisionSnapshot) (key : Option Text)
    → NoConflict (insert_revision db r key)
unfolding insert_revision check_new_revision
NoConflict-insert db r key =
    NoConflict->>= (check_new_revision db r key) _
      (NoConflict-check (any (λ s. s.snapshot.id == r.id) db.revisions) duplicate_slug _ (λ q. cc q)
        (NoConflict-check
          (any (λ s. is_some_and s.idempotency_key (λ k. is_some_and key (text_eq k))) db.revisions)
          duplicate_idempotency_key _ (λ q. cc q)
          (NoConflict-check
            (any
              (λ s.
                s.snapshot.document_id == r.document_id
                && s.snapshot.revision_number == r.revision_number)
              db.revisions)
            duplicate_slug _ (λ q. cc q)
            (NoConflict-reject
              (is_some_and r.parent_revision_id
                (λ parent. not (any (λ s. s.snapshot.id == parent) db.revisions)))
              storage (λ q. cc q)))))
      (λ u.
        NoConflict-check (any (λ p. p.revision_id == r.id) db.revision_categories) duplicate_slug _
          (λ q. cc q) (NoConflict-ok (place_new_revision (store_revision db r key) r)))

pub NoConflict-route :
    (db : Database) (site document : Uuid) (path : Text)
    → NoConflict (ensure_document_route_available db site document path)
unfolding ensure_document_route_available
NoConflict-route db site document path =
    NoConflict-reject
      (any (holds_slug site document path) db.documents
        || any (holds_route site document path) db.routes)
      duplicate_slug (λ q. cc q)

pub valid_or : (c : Result (Unit {0}) ContentValidationError) → NoConflict (valid_content c)
unfolding valid_content
valid_or (ok u) q = cc q
valid_or (err e) q = cc (err-injective _ _ q)

pub NoConflict-unassigned :
    (db : Database) (site : Uuid) (r : RevisionSnapshot) (now : ℕ)
    → NoConflict (assign_new_revision db site r now none)
unfolding assign_new_revision
NoConflict-unassigned db site r now = NoConflict-ok db

pub NoConflict-current : (db : Database) (id : Uuid) → NoConflict (current_of db id)
unfolding current_of
NoConflict-current db id =
    NoConflict->>= (or_not_found (find_document db id)) _ (NoConflict-find _) (λ d.
      NoConflict->>=
        (or_not_found (find (λ r. r.snapshot.id == d.current_revision_id) db.revisions)) _
        (NoConflict-find _) (λ r. NoConflict-ok _))

pub valid_content-ok :
    (c : Result (Unit {0}) ContentValidationError) → valid_content c ≡ ok tt → c ≡ ok tt
unfolding valid_content
valid_content-ok (ok u) h = refl
valid_content-ok (err e) h = cc h
