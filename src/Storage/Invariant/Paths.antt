-- ===== src/Storage/Invariant/Paths.antt =====
-- That the steps of the lifecycle keep the paths of the documents apart.
use open_soverign_blog.Prelude.{
  ◌≡◌, ◌∷◌, true, refl, sym, ap, ◌∙◌, inl, inr, ◌⊎◌, arith, List, Distinct, In, ℕ, map, ◌≢◌,
  update_where, in-update_where, ==_iff, unique_row,
}
use open_soverign_blog.Storage.Steps.{
  edit, Draft, Step, Steps, create, append, move, publish, done, step_on, Content, IsAvailable,
  CanCreate, CanPublish,
}
use open_soverign_blog.Storage.Records.{DocumentRow, RevisionRow}
use open_soverign_blog.Storage.Invariant.{IsRouted, document_key, IsVersioned}
use open_soverign_blog.Text.{Text}
use open_soverign_blog.Storage.Publish.{upsert_route, publish_row}
use open_soverign_blog.Storage.Documents.{is_current_in, move_document}
use open_soverign_blog.Storage.Queries.{is_document}
use open_soverign_blog.Storage.Revisions.{point_to_revision}
use open_soverign_blog.Storage.Invariant.Kept.{Steps-IsVersioned}
use open_soverign_blog.Storage.Invariant.History.{updated_row}
use open_soverign_blog.Storage.Invariant.Routes.{upsert_route-keys, upsert_route-rows}

-- the row that an assignment changes
moved_row :
    (xs : List DocumentRow) (d : DocumentRow) (f : DocumentRow → DocumentRow)
    → Distinct (map document_key xs)
    → In d xs
    → (e : DocumentRow)
    → In e (update_where (is_current_in d.id d.site_id d.current_revision_id) f xs)
    → (In e xs × (e.id ≢ d.id)) ⊎ (f d ≡ e)
moved_row xs d f keys i e j =
    let p = is_current_in d.id d.site_id d.current_revision_id in
    let own : p d ≡ true = ground (arith, (==_iff d.id d.id).1 refl) in
    elim (in-update_where p f xs e j) [
      | inl (k, n) ↦ inl (k, λ q. cc (n, own, ap p (unique_row document_key xs keys e d k i q)))
      | inr (a, k, t, q) ↦
          let same : a.id ≡ d.id = ground (arith, t) in
          inr (ap f (sym (unique_row document_key xs keys a d k i same)) ∙ q)
    ]

-- A document that takes a path that is free for it leaves all paths apart.
module _ (c : Content) (v : IsRouted c) (d : DocumentRow) (f : DocumentRow → DocumentRow)
    (path : Text) (documents : List DocumentRow) (same_id : (f d).id ≡ d.id)
    (same_site : (f d).site_id ≡ d.site_id) (new_path : (f d).current_slug ≡ path)
    (available : IsAvailable c d.site_id d.id path)
    (row : (e : DocumentRow)
      → In e documents
      → (In e c.documents × (e.id ≢ d.id)) ⊎ (f d ≡ e)) where
  is_site : (e : DocumentRow) → f d ≡ e → e.site_id ≡ d.site_id
  is_site e q = ap (λ x. x.site_id) (sym q) ∙ same_site

  is_id : (e : DocumentRow) → f d ≡ e → e.id ≡ d.id
  is_id e q = ap (λ x. x.id) (sym q) ∙ same_id

  is_slug : (e : DocumentRow) → f d ≡ e → e.current_slug ≡ path
  is_slug e q = ap (λ x. x.current_slug) (sym q) ∙ new_path

  pub repath-IsRouted : IsRouted (record c { documents = documents })
  repath-IsRouted = record {
    route_keys = v.route_keys;
    slugs = λ e e' i i' s p. elim (row e i) [
      | inl (j, n) ↦ elim (row e' i') [
        | inl (j', n') ↦ v.slugs e e' j j' s p
        | inr q' ↦
            available.no_document e j (s ∙ is_site e' q') (p ∙ is_slug e' q') ∙ sym (is_id e' q')
      ]
      | inr q ↦ elim (row e' i') [
        | inl (j', n') ↦
            is_id e q
            ∙ sym (available.no_document e' j' (sym s ∙ is_site e q) (sym p ∙ is_slug e q))
        | inr q' ↦ is_id e q ∙ sym (is_id e' q')
      ]
    ];
    apart = λ e t i k s p. elim (row e i) [
      | inl (j, n) ↦ v.apart e t j k s p
      | inr q ↦ available.no_route t k (s ∙ is_site e q) (p ∙ is_slug e q) ∙ sym (is_id e q)
    ];
  }

-- the path that a document has is free for it
module _ (c : Content) (v : IsRouted c) where
  own_path : (d : DocumentRow) → In d c.documents → IsAvailable c d.site_id d.id d.current_slug
  own_path d i = record {
    no_document = λ e j s p. v.slugs e d j i s p;
    no_route = λ t k s p. v.apart d t i k s p;
  }

  create-IsRouted :
      (d : DocumentRow) (r : RevisionRow)
      → CanCreate c d r
      → IsRouted (record c { documents = d ∷ c.documents; revisions = r ∷ c.revisions })
  create-IsRouted d r k =
      let w =
        repath-IsRouted c v d (λ x. x) d.current_slug (d ∷ c.documents) refl refl refl k.available
          (λ e. elim [ inl q ↦ inr q | inr i ↦ inl (i, k.new_document e i) ]) in
      record { route_keys = w.route_keys; slugs = w.slugs; apart = w.apart }

-- Every step keeps the paths apart: a route belongs to one document of its site, no two documents
-- of a site have the same current path, and none has a path that is routed to another.
module _ (c : Content) (v : IsRouted c) (keys : Distinct (map document_key c.documents)) where
  publish-IsRouted :
      (d : DocumentRow) (r : RevisionRow) (path : Text) (now : ℕ)
      → CanPublish c d r path
      → IsRouted (record c {
        documents = update_where (is_document d.id) (publish_row r.snapshot.id now) c.documents;
        routes = upsert_route c.routes d.site_id path d.id now;
      })
  publish-IsRouted d r path now k =
      let f = publish_row r.snapshot.id now in
      let row = updated_row c.documents d f keys k.stored in
      let w =
        repath-IsRouted c v d f d.current_slug (update_where (is_document d.id) f c.documents) refl
          refl refl (own_path c v d k.stored) row in
      record {
        route_keys = upsert_route-keys d.site_id path d.id now c.routes v.route_keys;
        slugs = w.slugs;
        apart = λ e t i j s p. elim (upsert_route-rows d.site_id path d.id now c.routes t j) [
          | inl (t', k', a, b, g) ↦ g ∙ w.apart e t' i k' (sym a ∙ s) (sym b ∙ p)
          | inr (a, b, g) ↦ g ∙ elim (row e i) [
            | inl (j', n) ↦ sym (k.available.no_document e j' (sym s ∙ a) (sym p ∙ b))
            | inr q ↦ ap (λ x. x.id) q
          ]
        ];
      }

  draft-IsRouted : {c' : Content} → Draft c c' → IsRouted c'
  draft-IsRouted (create d r k) = create-IsRouted c v d r k
  draft-IsRouted (append d r s path k) =
      let f = point_to_revision r.snapshot path in
      let w =
        repath-IsRouted c v d f path (update_where (is_document d.id) f c.documents) refl refl refl
          k.available (updated_row c.documents d f keys k.stored) in
      record { route_keys = w.route_keys; slugs = w.slugs; apart = w.apart }
  draft-IsRouted (move d path now k) =
      let f = move_document path now in
      repath-IsRouted c v d f path
        (update_where (is_current_in d.id d.site_id d.current_revision_id) f c.documents) refl refl
        refl k.available (moved_row c.documents d f keys k.stored)

  pub step-IsRouted : {c' : Content} → Step c c' → IsRouted c'
  step-IsRouted (edit e) = draft-IsRouted e
  step-IsRouted (publish d r path now k) = publish-IsRouted d r path now k

pub Steps-IsRouted : {c c' : Content} → Steps c c' → IsVersioned c → IsRouted c → IsRouted c'
Steps-IsRouted done v w = w
Steps-IsRouted (step_on s t) v w =
    step-IsRouted _ (Steps-IsRouted s v w) (IsVersioned.document_ids (Steps-IsVersioned s v)) t
