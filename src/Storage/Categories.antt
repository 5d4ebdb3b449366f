-- ===== src/Storage/Categories.antt =====
-- The categories and the series of crates/storage-sqlite/src/lib.rs.
pub mod Admitted
pub mod Series
use open_soverign_blog.Prelude.{
  ok, err, ◌>>◌, ◌>>=◌, ◌==◌, ◌≡◌, ◌++◌, ◌∷◌, [], ◌+◌, ◌&&◌, ◌||◌, not, true, false, none, some,
  if◌then◌else◌, refl, sym, ap, ◌∙◌, inl, inr, ◌⊎◌, ◌↔◌, arith, ℕ, List, Option, Bool, Result, any,
  ltb, take, reject_if, update_where, filter, find, length, leb,
}
use open_soverign_blog.Prelude.{max, ◌*◌}
use open_soverign_blog.Storage.Records.{
  not_found, duplicate_slug, revision_conflict, duplicate_idempotency_key, validation, storage,
  content, envelope, message, active, archived, Database, DocumentRow, CategoryRecord, SeriesRow,
  ThemeProfile, RepositoryError,
}
use open_soverign_blog.Text.{Text, codes}
use open_soverign_blog.Storage.Normal.{
  normalize_new_category_slug, validate_required_text, validate_optional_text,
}
use open_soverign_blog.Storage.Queries.{
  ensure_site_owner, load_category_by_id, ensure_category_landing_available, nocase_eq, is_active,
}
use open_soverign_blog.Kernel.Policy.{Uuid}
use open_soverign_blog.Storage.Publish.{is_published_in, series_position_step, i64_max, full_series}
use open_soverign_blog.Storage.Load.{order_by}

pub record CreateCategoryInput : Type 0 where
  pub slug : Text
  pub title : Text
  pub description : Option Text
  pub theme_profile : Option ThemeProfile

pub record UpdateCategoryInput : Type 0 where
  pub title : Text
  pub description : Option Text
  pub theme_profile : Option ThemeProfile

abbrev pub slug_taken : Database → Uuid → Text → Bool
slug_taken db site slug = any (λ c. c.site_id == site && nocase_eq c.slug slug) db.categories

-- The checks of the table repeat what the validation has ensured. The primary key is not one of the
-- constraints that `map_category_constraint_error` names.
unfoldable pub insert_category : Database → CategoryRecord → Result Database RepositoryError
insert_category db c = do
  reject_if (any (λ e. e.id == c.id) db.categories) storage
  reject_if (slug_taken db c.site_id c.slug) duplicate_slug
  reject_if (not (any (λ user. user == c.created_by_user_id) db.users)) not_found
  ok (record db { categories = c ∷ db.categories })

abbrev pub new_category :
    Uuid → Uuid → Uuid → CreateCategoryInput → ℕ → Text → Text → Option Text → CategoryRecord
new_category id owner site input now slug title description = record {
  id = id;
  site_id = site;
  slug = slug;
  title = title;
  description = description;
  theme_profile = input.theme_profile;
  status = active;
  created_by_user_id = owner;
  created_at = now;
  updated_at = now;
}

unfoldable pub create_category_in_transaction :
    Uuid
    → Uuid
    → Uuid
    → CreateCategoryInput
    → ℕ
    → Database
    → Result (CategoryRecord × Database) RepositoryError
unfolding normalize_new_category_slug validate_required_text validate_optional_text
    ensure_category_landing_available insert_category load_category_by_id
create_category_in_transaction id owner site input now db = do
  slug ← normalize_new_category_slug input.slug
  title ← validate_required_text input.title (codes "category title") 200
  description ← validate_optional_text input.description (codes "category description") 2000
  ensure_category_landing_available db site slug
  db1 ← insert_category db (new_category id owner site input now slug title description)
  c ← load_category_by_id db1 site id
  ok (c, db1)

unfoldable pub create_category :
    Uuid
    → Uuid
    → Uuid
    → CreateCategoryInput
    → ℕ
    → Database
    → Result (CategoryRecord × Database) RepositoryError
unfolding ensure_site_owner create_category_in_transaction
create_category id owner site input now db = do
  ensure_site_owner db owner site
  create_category_in_transaction id owner site input now db

abbrev is_category : Uuid → Uuid → CategoryRecord → Bool
is_category site id c = c.id == id && c.site_id == site

unfoldable pub update_category :
    Uuid
    → Uuid
    → Uuid
    → UpdateCategoryInput
    → ℕ
    → Database
    → Result (CategoryRecord × Database) RepositoryError
unfolding validate_required_text validate_optional_text ensure_site_owner load_category_by_id
update_category owner site id input now db = do
  title ← validate_required_text input.title (codes "category title") 200
  description ← validate_optional_text input.description (codes "category description") 2000
  ensure_site_owner db owner site
  _ ← load_category_by_id db site id
  let db1 = record db {
    categories =
        update_where (is_category site id)
          (λ c. record c {
            title = title;
            description = description;
            theme_profile = input.theme_profile;
            updated_at = now;
          })
          db.categories;
  }
  c ← load_category_by_id db1 site id
  ok (c, db1)

abbrev pub archive_row : ℕ → CategoryRecord → CategoryRecord
archive_row now c = record c { status = archived; updated_at = now }

unfoldable pub archive_category :
    Uuid → Uuid → Uuid → ℕ → Database → Result (CategoryRecord × Database) RepositoryError
unfolding ensure_site_owner load_category_by_id
archive_category owner site id now db = do
  ensure_site_owner db owner site
  category ← load_category_by_id db site id
  let db1 =
      if is_active category.status
      then record db {
        categories = update_where (is_category site id) (archive_row now) db.categories;
      }
      else db
  c ← load_category_by_id db1 site id
  ok (c, db1)
