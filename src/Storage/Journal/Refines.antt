-- ===== src/Storage/Journal/Refines.antt =====
-- That the operations of crates/storage-sqlite/src/lib.rs refine the journal.
use open_soverign_blog.Prelude.{
  ◌==◌, ◌≡◌, ◌∷◌, [], true, false, none, some, refl, sym, ap, ◌∙◌, inl, inr, ◌⊎◌, List, Distinct,
  Bool, map, find, In, ℕ, ◌≢◌, Option-cases, ==_iff, filter, find-none, find-some, update_where,
  unique_row, subst, Bool-cases, find-update_where, updated, false_iff, in-filter_iff,
}
use open_soverign_blog.Storage.Steps.{
  create, append, move, publish, edit, done, step_on, CanAppend, Draft, Step, Steps, CanPublish,
  content_of,
}
use open_soverign_blog.Storage.Journal.{begin, write, deliver, nothing, act_on, Acts}
use mathlib.Core.Path.{fun_ext}
use open_soverign_blog.Storage.Steps.{
  create, append, move, publish, edit, done, step_on, Content, CanCreate,
}
use open_soverign_blog.Storage.Journal.{
  begin, write, deliver, nothing, act_on, Act, journal_of, set, entry, entry_of,
}
use open_soverign_blog.Storage.Records.{DocumentRow, RevisionRow, RouteRow, Database}
use open_soverign_blog.Storage.Invariant.{IsVersioned, document_key, IsChain, history}
use open_soverign_blog.Kernel.Policy.{Uuid}
use open_soverign_blog.Text.{Text}
use open_soverign_blog.Storage.Queries.{is_document}
use open_soverign_blog.Storage.Load.{in_document}
use open_soverign_blog.Storage.Documents.{move_document}
use open_soverign_blog.Storage.Invariant.History.{history_own, no_history, history_other}
use open_soverign_blog.Kernel.Content.{Library}
use open_soverign_blog.Storage.Invariant.Kept.{only_row, Steps-IsVersioned}
use open_soverign_blog.Storage.Revisions.{point_to_revision}
use open_soverign_blog.Storage.Requests.{Request, run}
use open_soverign_blog.Storage.Publish.{publish_row, upsert_route}
use open_soverign_blog.Storage.Requests.Run.{run-Steps}

-- the search by a unique key
find_row :
    (xs : List DocumentRow) (d : DocumentRow)
    → Distinct (map document_key xs)
    → In d xs
    → find (is_document d.id) xs ≡ some d
find_row xs d keys i = elim (Option-cases (find (is_document d.id) xs)) [
  | inl n ↦ cc (sym ((==_iff d.id d.id).1 refl) ∙ find-none (is_document d.id) xs n d i)
  | inr (e, h) ↦
      let (j, t) = find-some (is_document d.id) xs e h in
      h ∙ ap some (unique_row document_key xs keys e d j i ((==_iff e.id d.id).0 t))
]

chain_head :
    (id : Uuid) (rows : List RevisionRow)
    → IsChain id rows
    → (h : RevisionRow) × (older : List RevisionRow) × (rows ≡ h ∷ older) × (h.snapshot.id ≡ id)
chain_head id [] c = absurd c
chain_head id (r ∷ []) c = (r, [], refl, c.0)
chain_head id (r ∷ s ∷ rows) c = (r, s ∷ rows, refl, c.0)

module _ (c : Content) (v : IsVersioned c) where
  found_id : (x : Uuid) (a : DocumentRow) → find (is_document x) c.documents ≡ some a → a.id ≡ x
  found_id x a h = (==_iff a.id x).0 (find-some (is_document x) c.documents a h).1

  begins :
      (d : DocumentRow) (r : RevisionRow)
      → CanCreate c d r
      → Act
          (journal_of c)
          (journal_of (record c { documents = d ∷ c.documents; revisions = r ∷ c.revisions }))
  begins d r k =
      let absent : find (is_document d.id) c.documents ≡ none =
        elim (Option-cases (find (is_document d.id) c.documents)) [
          | inl n ↦ n
          | inr (e, h) ↦ absurd (
              k.new_document e (find-some (is_document d.id) c.documents e h).0 (found_id d.id e h))
        ] in
      subst (Act _)
        (fun_ext λ x. elim (Bool-cases (x == d.id)) [
          | inl e ↦
              let t : is_document x d ≡ true = (==_iff d.id x).1 (sym ((==_iff x d.id).0 e)) in
              rw
                (
                  e,
                  t,
                  history_own r d.id c.revisions k.of_document,
                  no_history c v d.id k.new_document,
                  k.unpublished,
                )
                refl
          | inr e ↦
              let n : is_document x d ≡ false =
                (false_iff _ (==_iff d.id x)).1 (λ q. (false_iff _ (==_iff x d.id)).0 e (sym q)) in
              elim (Option-cases (find (is_document x) c.documents)) [
                | inl m ↦ rw (e, n, m) refl
                | inr (a, h) ↦
                    rw
                      (
                        e,
                        n,
                        h,
                        history_other r a.id c.revisions (λ q.
                            (false_iff _ (==_iff x d.id)).0 e
                              (sym (found_id x a h) ∙ sym q ∙ k.of_document)),
                      )
                      refl
              ]
        ])
        (begin d.id d.site_id r (rw absent refl) k.of_document k.number k.no_parent)

  -- the current revision of a document is the first row of its history
  last_revision :
      (d : DocumentRow) (s : RevisionRow)
      → In d c.documents
      → In s c.revisions
      → s.snapshot.id ≡ d.current_revision_id
      → (older : List RevisionRow) × (history c d.id ≡ s ∷ older)
  last_revision d s i j q =
      let (h, older, e, first) = chain_head d.current_revision_id (history c d.id) (v.chain d i) in
      let here : In h (history c d.id) = subst (In h) (sym e) (inl refl) in
      (older, e ∙ ap (λ x. x ∷ older) (only_row c v s j d.id h here (first ∙ sym q)))

  -- an update that keeps what an entry has keeps the journal
  quiet :
      (p : DocumentRow → Bool) (path : Text) (now : ℕ) (x : Uuid)
      → journal_of (record c { documents = update_where p (move_document path now) c.documents }) x
        ≡ journal_of c x
  quiet p path now x =
      ap (entry c.revisions)
        (find-update_where (is_document x) p (move_document path now) (λ a. refl) c.documents)
      ∙ elim (Option-cases (find (is_document x) c.documents)) [
        | inl n ↦ rw n refl
        | inr (a, h) ↦ elim (Bool-cases (p a)) [ inl e ↦ rw (h, e) refl | inr e ↦ rw (h, e) refl ]
      ]

  -- what an update of one document does to the journal
  one_entry :
      (d : DocumentRow) (f : DocumentRow → DocumentRow) (revisions : List RevisionRow)
      → In d c.documents
      → ((a : DocumentRow) → (f a).id ≡ a.id)
      → ((a : DocumentRow)
          → a.id ≢ d.id
          → filter (in_document a.id) revisions ≡ filter (in_document a.id) c.revisions)
      → (x : Uuid)
      → set d.id (entry_of revisions (f d)) (journal_of c) x
        ≡ entry revisions (find (is_document x) (update_where (is_document d.id) f c.documents))
  one_entry d f revisions i same other x = elim (Bool-cases (x == d.id)) [
    | inl e ↦
        let q : x ≡ d.id = (==_iff x d.id).0 e in
        let here : find (is_document x) c.documents ≡ some d =
          ap (λ y. find (is_document y) c.documents) q ∙ find_row c.documents d v.document_ids i in
        let changed : updated (is_document d.id) f (some d) ≡ some (f d) =
          rw ((==_iff d.id d.id).1 refl) refl in
        rw e (
          sym (
            ap (entry revisions) (
              find-update_where (is_document x) (is_document d.id) f
                (λ a. ap (λ k. k == x) (same a)) c.documents
              ∙ ap (updated (is_document d.id) f) here
              ∙ changed)))
    | inr e ↦ rw e (
        elim (Option-cases (find (is_document x) c.documents)) [
          | inl n ↦ rw n refl
          | inr (a, h) ↦
              let n : a.id ≢ d.id =
                λ q. (false_iff _ (==_iff x d.id)).0 e (sym (found_id x a h) ∙ q) in
              rw (h, (false_iff _ (==_iff a.id d.id)).1 n)
                (ap
                  (λ l. some (record {
                    site_id = a.site_id;
                    revisions = l;
                    delivered = a.published_revision_id;
                  }))
                  (sym (other a n)))
        ]
        ∙ ap (entry revisions) (
            sym (
              find-update_where (is_document x) (is_document d.id) f
                (λ a. ap (λ k. k == x) (same a)) c.documents)))
  ]

  appends :
      (d : DocumentRow) (r s : RevisionRow) (path : Text)
      → CanAppend c d r s path
      → Act (journal_of c) (
          journal_of (record c {
            documents =
                update_where (is_document d.id) (point_to_revision r.snapshot path) c.documents;
            revisions = r ∷ c.revisions;
          }))
  appends d r s path k =
      let f = point_to_revision r.snapshot path in
      let (older, top) = last_revision d s k.stored k.base k.current in
      subst (Act _)
        (ap
            (λ l.
              set d.id
                (record { site_id = d.site_id; revisions = l; delivered = d.published_revision_id })
                (journal_of c))
            (sym (history_own r d.id c.revisions k.of_document))
          ∙ fun_ext (
              one_entry d f (r ∷ c.revisions) k.stored (λ a. refl)
                (λ a n. history_other r a.id c.revisions (λ q. n (sym q ∙ k.of_document)))))
        (write d.id (entry_of c.revisions d) r s older
          (ap (entry c.revisions) (find_row c.documents d v.document_ids k.stored)) top
          k.of_document k.number (k.parent ∙ ap some (sym k.current)))

  delivers :
      (d : DocumentRow) (r : RevisionRow) (path : Text) (now : ℕ) (routes : List RouteRow)
      → CanPublish c d r path
      → Act (journal_of c) (
          journal_of (record c {
            documents = update_where (is_document d.id) (publish_row r.snapshot.id now) c.documents;
            routes = routes;
          }))
  delivers d r path now routes k =
      subst (Act _)
        (fun_ext (
          one_entry d (publish_row r.snapshot.id now) c.revisions k.stored (λ a. refl)
            (λ a n. refl)))
        (deliver d.id (entry_of c.revisions d) r
          (ap (entry c.revisions) (find_row c.documents d v.document_ids k.stored))
          ((in-filter_iff (in_document d.id) r c.revisions).1
            (k.revision, (==_iff r.snapshot.document_id d.id).1 k.of_document)))

  draft-refines :
      {c' : Content}
      → Draft c c'
      → (journal_of c ≡ journal_of c') ⊎ Act (journal_of c) (journal_of c')
  draft-refines (create d r k) = inr (begins d r k)
  draft-refines (append d r s path k) = inr (appends d r s path k)
  draft-refines (move d path now k) = inl (fun_ext λ x. sym (quiet _ path now x))

  step-refines :
      {c' : Content}
      → Step c c'
      → (journal_of c ≡ journal_of c') ⊎ Act (journal_of c) (journal_of c')
  step-refines (edit e) = draft-refines e
  step-refines (publish d r path now k) =
      inr (delivers d r path now (upsert_route c.routes d.site_id path d.id now) k)

Steps-refine : {c c' : Content} → Steps c c' → IsVersioned c → Acts (journal_of c) (journal_of c')
Steps-refine done v = nothing
Steps-refine (step_on s t) v = elim (step-refines _ (Steps-IsVersioned s v) t) [
  | inl q ↦ subst (Acts _) q (Steps-refine s v)
  | inr a ↦ act_on (Steps-refine s v) a
]

-- From a well-formed database, every sequence of calls is a sequence of acts of the journal: a
-- document begins with a first revision, a revision is written only on top of the last one of its
-- document, and only a revision that has been written is delivered.
pub run-refines :
    (lib : Library) (requests : List Request) (db : Database)
    → IsVersioned (content_of db)
    → Acts (journal_of (content_of db)) (journal_of (content_of (run lib requests db)))
run-refines lib requests db = Steps-refine (run-Steps lib requests db)
