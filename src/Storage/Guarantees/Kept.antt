-- ===== src/Storage/Guarantees/Kept.antt =====
-- What every sequence of calls keeps: the invariants, and all that has been written.
use open_soverign_blog.Prelude.{
  ◌==◌, ◌≡◌, false, refl, ◌∙◌, inl, inr, List, In, Bool, update_where, Bool-cases,
  update_where-changed, update_where-kept, ℕ, any,
}
use open_soverign_blog.Storage.Steps.{
  Content, Draft, Step, Steps, create, append, move, publish, edit, done, step_on, content_of,
}
use open_soverign_blog.Storage.Requests.{run, Request}
use open_soverign_blog.Storage.Records.{RevisionRow, DocumentRow, RouteRow, Database}
use open_soverign_blog.Kernel.Content.{Library}
use open_soverign_blog.Storage.Publish.{upsert_route, keep_owner}
use open_soverign_blog.Kernel.Policy.{Uuid}
use open_soverign_blog.Storage.Invariant.{IsVersioned, IsRouted}
use open_soverign_blog.Text.{Text}
use open_soverign_blog.Storage.Requests.Run.{run-Steps}
use open_soverign_blog.Storage.Invariant.Kept.{Steps-IsVersioned}
use open_soverign_blog.Storage.Invariant.Paths.{Steps-IsRouted}
use open_soverign_blog.Storage.Queries.{is_path}
use open_soverign_blog.Storage.Invariant.Routes.{keep_owner-same}

-- From a well-formed database, every sequence of calls leads to one in which the revisions of each
-- document form a chain that ends in the current one, with numbers counting up from one, every
-- published revision is a stored revision of its document, and the status says whether there is one.
pub run-IsVersioned :
    (lib : Library) (requests : List Request) (db : Database)
    → IsVersioned (content_of db)
    → IsVersioned (content_of (run lib requests db))
run-IsVersioned lib requests db = Steps-IsVersioned (run-Steps lib requests db)

-- From a well-formed database, every sequence of calls leads to one in which no two documents of a
-- site have the same path, every path of a site has one route, and no document has a path that is
-- routed to another document.
pub run-IsRouted :
    (lib : Library) (requests : List Request) (db : Database)
    → IsVersioned (content_of db)
    → IsRouted (content_of db)
    → IsRouted (content_of (run lib requests db))
run-IsRouted lib requests db = Steps-IsRouted (run-Steps lib requests db)

-- all that is in `c` is still in `c'`: the revisions as they were, the routes for the same documents
pub record IsKept (c c' : Content) : Type 0 where
  pub revisions : (r : RevisionRow) → In r c.revisions → In r c'.revisions
  pub documents :
      (d : DocumentRow)
      → In d c.documents
      → (d' : DocumentRow) × In d' c'.documents
        × (d'.id ≡ d.id)
        × (d'.site_id ≡ d.site_id)
        × (d'.created_at ≡ d.created_at)
  pub routes :
      (t : RouteRow)
      → In t c.routes
      → (t' : RouteRow) × In t' c'.routes
        × (t'.site_id ≡ t.site_id)
        × (t'.path ≡ t.path)
        × (t'.document_id ≡ t.document_id)

kept_row :
    (p : DocumentRow → Bool) (f : DocumentRow → DocumentRow) (xs : List DocumentRow)
    → ((d : DocumentRow)
        → ((f d).id ≡ d.id) × ((f d).site_id ≡ d.site_id) × ((f d).created_at ≡ d.created_at))
    → (d : DocumentRow) → In d xs
    → (d' : DocumentRow) × In d' (update_where p f xs)
      × (d'.id ≡ d.id)
      × (d'.site_id ≡ d.site_id)
      × (d'.created_at ≡ d.created_at)
kept_row p f xs same d i = elim (Bool-cases (p d)) [
  | inl e ↦ let (a, b, c) = same d in (f d, update_where-changed p f xs d i e, a, b, c)
  | inr e ↦ (d, update_where-kept p f xs d i e, refl, refl, refl)
]

-- the route that still leads to a document after a publication
kept_route :
    (routes : List RouteRow) (site : Uuid) (path : Text) (document : Uuid) (now : ℕ) (t : RouteRow)
    → In t routes
    → (t' : RouteRow) × In t' (upsert_route routes site path document now)
      × (t'.site_id ≡ t.site_id)
      × (t'.path ≡ t.path)
      × (t'.document_id ≡ t.document_id)
unfolding upsert_route
kept_route routes site path document now t i =
    let own = λ (r : RouteRow). r.document_id == document in
    let demote = λ (r : RouteRow). record r { is_canonical = false } in
    let plain = update_where own demote routes in
    let (u, j, a, b, g) : ((u : RouteRow) × In u plain
        × (u.site_id ≡ t.site_id)
        × (u.path ≡ t.path)
        × (u.document_id ≡ t.document_id)) =
      elim (Bool-cases (own t)) [
        | inl e ↦ (demote t, update_where-changed own demote routes t i e, refl, refl, refl)
        | inr e ↦ (t, update_where-kept own demote routes t i e, refl, refl, refl)
      ] in
    elim (Bool-cases (any (is_path site path) plain)) [
      | inl e ↦ rw e (elim (Bool-cases (is_path site path u)) [
        | inl h ↦
            let (a', b', g') = keep_owner-same site path document now u in
            (
              keep_owner document u,
              update_where-changed (is_path site path) (keep_owner document) plain u j h,
              a' ∙ a,
              b' ∙ b,
              g' ∙ g,
            )
        | inr h ↦
            (u, update_where-kept (is_path site path) (keep_owner document) plain u j h, a, b, g)
      ])
      | inr e ↦ rw e (u, inr j, a, b, g)
    ]

draft-IsKept : {c c' : Content} → Draft c c' → IsKept c c'
draft-IsKept (create d r k) = record {
  revisions = λ s i. inr i;
  documents = λ e i. (e, inr i, refl, refl, refl);
  routes = λ t i. (t, i, refl, refl, refl);
}
draft-IsKept (append d r s path k) = record {
  revisions = λ s i. inr i;
  documents = kept_row _ _ _ (λ e. (refl, refl, refl));
  routes = λ t i. (t, i, refl, refl, refl);
}
draft-IsKept (move d path now k) = record {
  revisions = λ s i. i;
  documents = kept_row _ _ _ (λ e. (refl, refl, refl));
  routes = λ t i. (t, i, refl, refl, refl);
}

step-IsKept : {c c' : Content} → Step c c' → IsKept c c'
step-IsKept (edit e) = draft-IsKept e
step-IsKept (publish d r path now k) = record {
  revisions = λ s i. i;
  documents = kept_row _ _ _ (λ e. (refl, refl, refl));
  routes = kept_route _ d.site_id path d.id now;
}

IsKept-trans : (c c' c'' : Content) → IsKept c c' → IsKept c' c'' → IsKept c c''
IsKept-trans c c' c'' k l = record {
  revisions = λ r i. l.revisions r (k.revisions r i);
  documents = λ d i.
      let (e, j, a, b, g) = k.documents d i in
      let (f, h, a', b', g') = l.documents e j in (f, h, a' ∙ a, b' ∙ b, g' ∙ g);
  routes = λ t i.
      let (u, j, a, b, g) = k.routes t i in
      let (v, h, a', b', g') = l.routes u j in (v, h, a' ∙ a, b' ∙ b, g' ∙ g);
}

Steps-IsKept : {c c' : Content} → Steps c c' → IsKept c c'
Steps-IsKept done = record {
  revisions = λ r i. i;
  documents = λ d i. (d, i, refl, refl, refl);
  routes = λ t i. (t, i, refl, refl, refl);
}
Steps-IsKept (step_on s t) = IsKept-trans _ _ _ (Steps-IsKept s) (step-IsKept t)

-- No sequence of calls changes or loses a stored revision, loses a document or its site, or leads a
-- routed path to another document.
pub run-IsKept :
    (lib : Library) (requests : List Request) (db : Database)
    → IsKept (content_of db) (content_of (run lib requests db))
run-IsKept lib requests db = Steps-IsKept (run-Steps lib requests db)
