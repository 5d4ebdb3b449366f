-- ===== src/Storage/Queries.antt =====
-- The queries of crates/storage-sqlite/src/lib.rs that the operations on documents share: rows by
-- their keys, the authorisation of a user on a site, and the paths that categories and routes take.
use open_soverign_blog.Prelude.{
  Bool, true, false, not, ◌&&◌, ◌||◌, Option, none, some, ◌∷◌, ◌++◌, ◌==◌, any, is_some,
  is_some_and, find, if◌then◌else◌, Result, ok, err, ◌>>=◌, ◌>>◌, reject_if,
}
use open_soverign_blog.Text.{Text, codes, text_eq, to_ascii_lowercase}
use open_soverign_blog.Kernel.Policy.{Uuid}
use open_soverign_blog.Kernel.Content.{draft, DocumentStatus}
use open_soverign_blog.Storage.Records.{
  active, archived, owner, editor, writer, Database, RepositoryError, DocumentRow, RevisionRow,
  RouteRow, CategoryRecord, CategoryStatus, RevisionCategoryPlacement, SiteMembershipRole,
  SiteMembershipRecord, not_found, duplicate_slug, validation, message,
}

-- `optional()?.ok_or(RepositoryError::NotFound)`
unfoldable pub or_not_found {ℓ} : {A : Type ℓ} → Option A → Result A RepositoryError
or_not_found none = err not_found
or_not_found (some a) = ok a

-- `map(|id| …).transpose()`
unfoldable pub transpose :
    {A B : Type 0} → Option A → (A → Result B RepositoryError) → Result (Option B) RepositoryError
transpose none f = ok none
transpose (some a) f = f a >>= λ b. ok (some b)

abbrev pub Check : Type 0
Check = Result (Unit {0}) RepositoryError

-- `COLLATE NOCASE`: equal but for the case of ASCII letters
unfoldable pub nocase_eq : Text → Text → Bool
unfolding to_ascii_lowercase
nocase_eq s t = text_eq (to_ascii_lowercase s) (to_ascii_lowercase t)

abbrev pub is_document : Uuid → DocumentRow → Bool
is_document id d = d.id == id

unfoldable pub find_document : Database → Uuid → Option DocumentRow
find_document db id = find (is_document id) db.documents

unfoldable pub ensure_document_exists : Database → Uuid → Check
unfolding find_document
ensure_document_exists db id = reject_if (not (is_some (find_document db id))) not_found

unfoldable pub ensure_document_in_site : Database → Uuid → Uuid → Check
ensure_document_in_site db site id =
    reject_if (not (any (λ d. d.id == id && d.site_id == site) db.documents)) not_found

-- the row of a revision of a document
unfoldable pub find_revision : Database → Uuid → Uuid → Option RevisionRow
find_revision db document id =
    find (λ r. r.snapshot.id == id && r.snapshot.document_id == document) db.revisions

unfoldable pub load_category_by_id : Database → Uuid → Uuid → Result CategoryRecord RepositoryError
unfolding or_not_found
load_category_by_id db site id =
    or_not_found (find (λ c. c.id == id && c.site_id == site) db.categories)

abbrev pub is_active : CategoryStatus → Bool
is_active active = true
is_active archived = false

abbrev pub is_archived : CategoryRecord → Bool
is_archived c = not (is_active c.status)

abbrev pub is_placed : Uuid → Uuid → Uuid → RevisionCategoryPlacement → Bool
is_placed site document revision p =
    p.revision_id == revision && p.document_id == document && p.site_id == site

unfoldable pub load_revision_category_placement :
    Database → Uuid → Uuid → Uuid → Result RevisionCategoryPlacement RepositoryError
unfolding or_not_found
load_revision_category_placement db site document revision =
    or_not_found (find (is_placed site document revision) db.revision_categories)

-- `SiteMembershipRole::can_write` and `is_owner`
unfoldable pub can_write : SiteMembershipRole → Bool
can_write owner = true
can_write editor = true
can_write writer = true

unfoldable pub is_owner : SiteMembershipRole → Bool
is_owner owner = true
is_owner editor = false
is_owner writer = false

abbrev is_member : Uuid → Uuid → SiteMembershipRecord → Bool
is_member user site m = m.site_id == site && m.user_id == user

unfoldable pub owns_site_in_connection : Database → Uuid → Uuid → Bool
unfolding is_owner
owns_site_in_connection db user site =
    any (λ m. is_member user site m && is_owner m.role) db.site_memberships

unfoldable pub ensure_site_owner : Database → Uuid → Uuid → Check
unfolding owns_site_in_connection
ensure_site_owner db user site = reject_if (not (owns_site_in_connection db user site)) not_found

unfoldable pub load_site_membership :
    Database → Uuid → Uuid → Result SiteMembershipRecord RepositoryError
unfolding or_not_found
load_site_membership db site user = or_not_found (find (is_member user site) db.site_memberships)

-- The role that the code returns is used by no caller here.
unfoldable pub ensure_site_writer : Database → Uuid → Uuid → Check
unfolding load_site_membership can_write
ensure_site_writer db user site = do
  membership ← load_site_membership db site user
  reject_if (not (can_write membership.role)) not_found

unfoldable pub category_route_path : Option CategoryRecord → Text → Text
category_route_path none revision_slug = revision_slug
category_route_path (some category) revision_slug = category.slug ++ (b'/' ∷ revision_slug)

unfoldable pub ensure_root_slug_not_category : Database → Uuid → Text → Check
unfolding nocase_eq
ensure_root_slug_not_category db site slug =
    reject_if (any (λ c. c.site_id == site && nocase_eq c.slug slug) db.categories) duplicate_slug

-- another document of the site whose current path, or one of whose routes, is the path
abbrev pub holds_slug : Uuid → Uuid → Text → DocumentRow → Bool
holds_slug site document path d =
    d.site_id == site && text_eq d.current_slug path && not (d.id == document)

abbrev pub holds_route : Uuid → Uuid → Text → RouteRow → Bool
holds_route site document path r =
    r.site_id == site && text_eq r.path path && not (r.document_id == document)

unfoldable pub ensure_document_route_available : Database → Uuid → Uuid → Text → Check
ensure_document_route_available db site document path =
    reject_if
      (any (holds_slug site document path) db.documents
        || any (holds_route site document path) db.routes)
      duplicate_slug

unfoldable pub ensure_category_landing_available : Database → Uuid → Text → Check
ensure_category_landing_available db site slug =
    reject_if
      (any (λ d. d.site_id == site && text_eq d.current_slug slug) db.documents
        || any (λ r. r.site_id == site && text_eq r.path slug) db.routes)
      duplicate_slug

abbrev pub archived_publication : Text
archived_publication = codes "archived categories cannot receive publications"

abbrev pub archived_revision : Text
archived_revision = codes "archived categories cannot receive revisions"

unfoldable pub revision_category_route_path :
    Database → Uuid → Uuid → Uuid → Text → Bool → Result Text RepositoryError
unfolding load_revision_category_placement load_category_by_id transpose
revision_category_route_path db site document revision slug require_active = do
  placement ← load_revision_category_placement db site document revision
  category ← transpose placement.category_id (load_category_by_id db site)
  reject_if (require_active && is_some_and category is_archived)
      (validation (message archived_publication))
  if is_some category then ok tt else ensure_root_slug_not_category db site slug
  ok (category_route_path category slug)

abbrev pub is_path : Uuid → Text → RouteRow → Bool
is_path site path r = r.site_id == site && text_eq r.path path

abbrev pub is_archived_document : DocumentStatus → Bool
is_archived_document draft = false
is_archived_document DocumentStatus.published = false
is_archived_document DocumentStatus.archived = true
