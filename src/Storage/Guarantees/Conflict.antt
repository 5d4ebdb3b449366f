-- ===== src/Storage/Guarantees/Conflict.antt =====
-- Optimistic concurrency: which revisions `append_revision` turns away as stale.
use open_soverign_blog.Prelude.{
  ok, err, ◌>>◌, ◌>>=◌, ◌≡◌, ◌+◌, not, false, none, refl, inl, inr, ◌↔◌, Result, ◌≢◌, reject_if, ℕ,
  >>=-err, subst, ==_iff, false_iff,
}
use open_soverign_blog.Storage.Records.{revision_conflict, RepositoryError, Database, DocumentRow}
use open_soverign_blog.Storage.Queries.{
  revision_category_route_path, ensure_document_route_available,
}
use open_soverign_blog.Storage.Revisions.{
  insert_revision, valid_content, assign_new_revision, revision_of,
  append_revision_in_transaction_with_category, update_document, point_to_revision, current_of,
}
use open_soverign_blog.Kernel.Content.{RevisionSnapshot, Library, ProposedRevision}
use open_soverign_blog.Kernel.Policy.{Uuid}
use open_soverign_blog.Storage.Repository.{append_revision}
use open_soverign_blog.Kernel.Content.Document.{validate_proposed}
use open_soverign_blog.Storage.Guarantees.NoConflict.{
  NoConflict, valid_or, NoConflict->>=, NoConflict-current, NoConflict-insert, valid_content-ok,
  NoConflict-unassigned, NoConflict-path, NoConflict-route, NoConflict-ok,
}

module _ (lib : Library) (id : Uuid) (input : ProposedRevision) (now : ℕ) (db : Database) where
  rest_of : DocumentRow × ℕ → Result (RevisionSnapshot × Database) RepositoryError
  rest_of (d, number) =
      let revision = revision_of lib input id (number + 1) now in
      insert_revision db revision input.idempotency_key >>= λ db1.
      assign_new_revision db1 d.site_id revision now none >>= λ db2.
      revision_category_route_path db2 d.site_id revision.document_id revision.id revision.slug
        false
      >>= λ path.
          ensure_document_route_available db2 d.site_id revision.document_id path
          >> ok
              (revision, update_document revision.document_id (point_to_revision revision path) db2)

  NoConflict-rest : (found : DocumentRow × ℕ) → NoConflict (rest_of found)
  unfolding rest_of
  NoConflict-rest (d, number) =
      let revision = revision_of lib input id (number + 1) now in
      NoConflict->>= (insert_revision db revision input.idempotency_key) _
        (NoConflict-insert db revision input.idempotency_key)
        (λ db1.
          NoConflict->>= (assign_new_revision db1 d.site_id revision now none) _
            (NoConflict-unassigned db1 d.site_id revision now)
            (λ db2.
              NoConflict->>=
                (revision_category_route_path db2 d.site_id revision.document_id revision.id
                  revision.slug false)
                _
                (NoConflict-path db2 d.site_id revision.document_id revision.id revision.slug false)
                (λ path.
                  NoConflict->>=
                    (ensure_document_route_available db2 d.site_id revision.document_id path) _
                    (NoConflict-route db2 d.site_id revision.document_id path)
                    (λ u. NoConflict-ok _))))

  -- A proposed revision is turned away as stale exactly when its content is valid, its document is
  -- there, and its base is not the current revision of the document.
  pub append_revision-conflict_iff :
      (append_revision lib id input now db ≡ err revision_conflict) ↔ (
        (validate_proposed lib input ≡ ok tt)
        × ((found : DocumentRow × ℕ) × (current_of db input.document_id ≡ ok found)
            × (found.0.current_revision_id ≢ input.base_revision_id)))
  unfolding append_revision append_revision_in_transaction_with_category rest_of valid_content
  append_revision-conflict_iff =
      let checked = valid_content (validate_proposed lib input) in
      (
        λ h. elim (>>=-err checked _ revision_conflict h) [
          | inl e ↦ absurd (valid_or _ e)
          | inr (u, v, h1) ↦ elim (>>=-err checked _ revision_conflict h1) [
            | inl e ↦ absurd (valid_or _ e)
            | inr (u', v', h2) ↦
                elim (>>=-err (current_of db input.document_id) _ revision_conflict h2) [
                  | inl e ↦ absurd (NoConflict-current db input.document_id e)
                  | inr (found, c, h3) ↦ (
                    valid_content-ok _ v,
                    (
                      found,
                      c,
                      λ q. NoConflict-rest found (
                          subst
                            (λ b.
                              (reject_if (not b) revision_conflict >> rest_of found)
                              ≡ err revision_conflict)
                            ((==_iff _ _).1 q) h3),
                    ),
                  )
                ]
          ]
        ],
        λ h.
            let (v, (found, c, n)) = h in
            rw (v, c, (false_iff _ (==_iff found.0.current_revision_id input.base_revision_id)).1 n)
              refl,
      )
