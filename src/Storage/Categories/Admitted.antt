-- ===== src/Storage/Categories/Admitted.antt =====
-- Which categories are created, and what an archived one turns away.
use open_soverign_blog.Prelude.{
  refl, ok, ◌==◌, ◌≡◌, ◌∷◌, ◌&&◌, not, true, false, List, any, >>=-ok, In, reject_if, ◌≢◌,
  reject_if->>-ok, any-false, ok-injective, &&_iff, subst, ==_iff, ℕ, some, is_some_and, ||_iff,
  reject_if-ok_iff, some-injective, sym, ◌∙◌, arith, ap, find,
}
use open_soverign_blog.Storage.Records.{
  active, message, reserved, Database, CategoryRecord, DocumentRow, RouteRow,
  RevisionCategoryPlacement,
}
use open_soverign_blog.Storage.Records.{not_found, duplicate_slug, validation, storage}
use open_soverign_blog.Kernel.Policy.{Uuid}
use open_soverign_blog.Storage.Categories.{
  insert_category, slug_taken, create_category, create_category_in_transaction, CreateCategoryInput,
  new_category,
}
use open_soverign_blog.Storage.Normal.{
  normalize_new_category_slug, normalize_category_slug, reserved_slugs, normalize_handle,
  validate_required_text, validate_optional_text,
}
use open_soverign_blog.Text.{
  to_ascii_lowercase, has_text_iff, Text, has_text, text_eq, codes, text_eq_iff,
}
use open_soverign_blog.Storage.Normal.Handles.{
  handles-lowercase, IsHandle, normalize_handle-IsHandle,
}
use open_soverign_blog.Storage.Queries.{
  nocase_eq, is_active, revision_category_route_path, transpose, load_category_by_id, or_not_found,
  ensure_category_landing_available, load_revision_category_placement, ensure_site_owner,
  is_archived, archived_publication,
}
use open_soverign_blog.Storage.Steps.{content_of}
use open_soverign_blog.Storage.Publish.{publish_in_transaction_at}
use open_soverign_blog.Storage.Simulation.Publish.{publication}
use open_soverign_blog.Storage.Simulation.{or_not_found-ok}

-- What holds of a category that has been created.
pub record IsCreated (owner site : Uuid) (db : Database) (c : CategoryRecord) (db' : Database)
    : Type 0 where
  pub slug : IsHandle c.slug
  pub unreserved : ¬ In c.slug reserved_slugs
  pub unclaimed :
      (e : CategoryRecord)
      → In e db.categories
      → e.site_id ≡ site
      → to_ascii_lowercase e.slug ≢ c.slug
  pub no_document :
      (d : DocumentRow) → In d db.documents → d.site_id ≡ site → d.current_slug ≢ c.slug
  pub no_route : (t : RouteRow) → In t db.routes → t.site_id ≡ site → t.path ≢ c.slug
  pub is_active : c.status ≡ active
  pub of_site : c.site_id ≡ site
  pub stored : db'.categories ≡ c ∷ db.categories
  pub content : content_of db' ≡ content_of db

-- no row of the site has the path
landing_free :
    {A : Type 0} (site_of : A → Uuid) (path_of : A → Text) (xs : List A) (site : Uuid) (slug : Text)
    → any (λ x. site_of x == site && text_eq (path_of x) slug) xs ≡ false
    → (x : A) → In x xs
    → site_of x ≡ site
    → path_of x ≢ slug
landing_free site_of path_of xs site slug h x i s p = cc (
  any-false (λ x. site_of x == site && text_eq (path_of x) slug) xs h x i,
  (&&_iff (site_of x == site) (text_eq (path_of x) slug)).1
      ((==_iff _ _).1 s, (text_eq_iff _ _).1 p),
)

-- no category of the site has the slug but for the case of its letters
slug_free :
    (db : Database) (site : Uuid) (slug : Text)
    → IsHandle slug
    → slug_taken db site slug ≡ false
    → (e : CategoryRecord) → In e db.categories
    → e.site_id ≡ site
    → to_ascii_lowercase e.slug ≢ slug
unfolding nocase_eq
slug_free db site slug k h e i s p = cc (
  any-false (λ c. c.site_id == site && nocase_eq c.slug slug) db.categories h e i,
  (&&_iff (e.site_id == site) (nocase_eq e.slug slug)).1
      ((==_iff _ _).1 s, (text_eq_iff _ _).1 (p ∙ sym (handles-lowercase slug k.letters))),
)

insert_category-ok :
    (db db' : Database) (c : CategoryRecord)
    → insert_category db c ≡ ok db'
    → (slug_taken db c.site_id c.slug ≡ false)
      × (record db { categories = c ∷ db.categories } ≡ db')
unfolding insert_category
insert_category-ok db db' c h =
    let (u, a, h1) = >>=-ok (reject_if (any (λ e. e.id == c.id) db.categories) storage) _ db' h in
    let (taken, h2) = reject_if->>-ok (slug_taken db c.site_id c.slug) duplicate_slug _ db' h1 in
    let (known, h3) =
      reject_if->>-ok (not (any (λ user. user == c.created_by_user_id) db.users)) not_found
        (ok (record db { categories = c ∷ db.categories })) db' h2 in
    (taken, ok-injective _ _ h3)

new_slug-ok :
    (value s : Text)
    → normalize_new_category_slug value ≡ ok s
    → IsHandle s × (has_text reserved_slugs s ≡ false)
unfolding normalize_new_category_slug normalize_category_slug
new_slug-ok value s h =
    let (t, a, h1) = >>=-ok (normalize_handle value (codes "category slug")) _ s h in
    let (free, h2) =
      reject_if->>-ok (has_text reserved_slugs t) (validation (reserved t)) (ok t) s h1 in
    let q : t ≡ s = ok-injective _ _ h2 in
    (
      subst IsHandle q ((normalize_handle-IsHandle value (codes "category slug") t).0 a).1,
      subst (λ x. has_text reserved_slugs x ≡ false) q free,
    )

-- A category that is created has a normalised slug that is not reserved and that no category of the
-- site has in any case of letters, at which no document and no route of the site is found. It is
-- active, and no document, revision or route is changed.
pub create_category-IsCreated :
    (id owner site : Uuid) (input : CreateCategoryInput) (now : ℕ) (db db' : Database)
    (c : CategoryRecord)
    → create_category id owner site input now db ≡ ok (c, db')
    → IsCreated owner site db c db'
unfolding create_category create_category_in_transaction load_category_by_id or_not_found
    ensure_category_landing_available
create_category-IsCreated id owner site input now db db' c h =
    let (u, o, h1) = >>=-ok (ensure_site_owner db owner site) _ (c, db') h in
    let (slug, sl, h2) = >>=-ok (normalize_new_category_slug input.slug) _ (c, db') h1 in
    let (title, ti, h3) =
      >>=-ok (validate_required_text input.title (codes "category title") 200) _ (c, db') h2 in
    let (description, de, h4) =
      >>=-ok (validate_optional_text input.description (codes "category description") 2000) _
        (c, db') h3 in
    let (v, landing, h5) = >>=-ok (ensure_category_landing_available db site slug) _ (c, db') h4 in
    let row = new_category id owner site input now slug title description in
    let (db1, ins, h6) = >>=-ok (insert_category db row) _ (c, db') h5 in
    let (e, lo, h7) = >>=-ok (load_category_by_id db1 site id) _ (c, db') h6 in
    let (taken, written) = insert_category-ok db db1 row ins in
    let (good, free) = new_slug-ok input.slug slug sl in
    let (documents, routes) =
      (||_iff (any (λ d. d.site_id == site && text_eq d.current_slug slug) db.documents)
          (any (λ r. r.site_id == site && text_eq r.path slug) db.routes)).0
        ((reject_if-ok_iff _ duplicate_slug).0 landing) in
    let loaded : row ≡ e = some-injective _ _ (
      sym (rw ((==_iff id id).1 refl, (==_iff site site).1 refl) refl)
      ∙ ap (λ x. find (λ k. k.id == id && k.site_id == site) x.categories) written
      ∙ or_not_found-ok _ _ lo) in
    let is_c : row ≡ c = loaded ∙ ap (λ p. p.0) (ok-injective _ _ h7) in
    let is_db : db1 ≡ db' = ap (λ p. p.1) (ok-injective _ _ h7) in
    subst (λ x. IsCreated owner site db x db') is_c
      (record {
        slug = good;
        unreserved = λ i. cc (sym free ∙ (has_text_iff reserved_slugs slug).1 i);
        unclaimed = slug_free db site slug good taken;
        no_document =
            landing_free (λ d. d.site_id) (λ d. d.current_slug) db.documents site slug documents;
        no_route = landing_free (λ r. r.site_id) (λ r. r.path) db.routes site slug routes;
        is_active = refl;
        of_site = refl;
        stored = ap (λ x. x.categories) (sym is_db ∙ sym written);
        content = ap content_of (sym is_db ∙ sym written);
      })

-- A publication commits only if the revision is placed in no category or in one of the site that is
-- not archived.
pub publish-active :
    (document id : Uuid) (now : ℕ) (db db' : Database)
    → publish_in_transaction_at document id now db ≡ ok db'
    → (site : Uuid) × (p : RevisionCategoryPlacement) × (load_revision_category_placement db site
          document id
        ≡ ok p)
      × ((category : Uuid)
          → p.category_id ≡ some category
          → (c : CategoryRecord) × (load_category_by_id db site category ≡ ok c)
            × (is_active c.status ≡ true))
unfolding revision_category_route_path transpose
publish-active document id now db db' h =
    let k = publication document id now db db' h in
    let site = k.row.site_id in
    let (p, placed, h1) =
      >>=-ok (load_revision_category_placement db site document id) _ k.path k.path_found in
    let (o, loaded, h2) =
      >>=-ok (transpose p.category_id (load_category_by_id db site)) _ k.path h1 in
    let (fresh, h3) =
      reject_if->>-ok (is_some_and o is_archived) (validation (message archived_publication)) _
        k.path h2 in
    (
      site,
      p,
      placed,
      λ category q.
          let (c, load, e) =
            >>=-ok (load_category_by_id db site category) (λ b. ok (some b)) o
              (subst (λ x. transpose x (load_category_by_id db site) ≡ ok o) q loaded) in
          let is_o : some c ≡ o = ok-injective _ _ e in
          let n : is_some_and (some c) is_archived ≡ false =
            subst (λ x. is_some_and x is_archived ≡ false) (sym is_o) fresh in
          (c, load, ground (arith, n)),
    )
