-- ===== src/Storage/Invariant/Routes.antt =====
-- What the statements of a publication on the routes do.
use open_soverign_blog.Prelude.{
  ◌==◌, ◌≡◌, false, refl, sym, ap, ◌∙◌, inl, inr, ◌⊎◌, List, Distinct, In, ℕ, map, Bool,
  update_where, any, in-update_where, Bool-cases, map-update_where, ==_iff, map-in, subst,
  any-false, &&_iff,
}
use open_soverign_blog.Storage.Records.{RouteRow}
use open_soverign_blog.Storage.Invariant.{route_key}
use open_soverign_blog.Kernel.Policy.{Uuid}
use open_soverign_blog.Text.{Text, text_eq, text_eq_iff}
use open_soverign_blog.Storage.Publish.{upsert_route, keep_owner}
use open_soverign_blog.Storage.Queries.{is_path}

-- What the routes are after a publication: the old ones, for the same documents, and the new one.
module _ (site : Uuid) (path : Text) (document : Uuid) (now : ℕ) where
  demoted : RouteRow → RouteRow
  demoted t = record t { is_canonical = false }

  own_route : RouteRow → Bool
  own_route t = t.document_id == document

  abbrev IsOld : List RouteRow → RouteRow → Type 0
  IsOld routes t' =
      (t : RouteRow) × In t routes
      × (t'.site_id ≡ t.site_id)
      × (t'.path ≡ t.path)
      × (t'.document_id ≡ t.document_id)

  demoted-IsOld :
      (routes : List RouteRow) (t' : RouteRow)
      → In t' (update_where own_route demoted routes)
      → IsOld routes t'
  unfolding demoted
  demoted-IsOld routes t' i = elim (in-update_where own_route demoted routes t' i) [
    | inl (j, n) ↦ (t', j, refl, refl, refl)
    | inr (t, j, n, q) ↦ (
      t,
      j,
      ap (λ x. x.site_id) (sym q),
      ap (λ x. x.path) (sym q),
      ap (λ x. x.document_id) (sym q),
    )
  ]

  pub keep_owner-same :
      (t : RouteRow)
      → ((keep_owner document t).site_id ≡ t.site_id)
        × ((keep_owner document t).path ≡ t.path)
        × ((keep_owner document t).document_id ≡ t.document_id)
  keep_owner-same t = elim (Bool-cases (t.document_id == document)) [
    | inl e ↦ rw e (refl, refl, refl)
    | inr e ↦ rw e (refl, refl, refl)
  ]

  pub upsert_route-rows :
      (routes : List RouteRow) (t' : RouteRow)
      → In t' (upsert_route routes site path document now)
      → IsOld routes t' ⊎ ((t'.site_id ≡ site) × (t'.path ≡ path) × (t'.document_id ≡ document))
  unfolding upsert_route own_route demoted
  upsert_route-rows routes t' =
      let plain = update_where own_route demoted routes in
      elim (Bool-cases (any (is_path site path) plain)) [
        | inl e ↦ rw e (λ i.
            elim (in-update_where (is_path site path) (keep_owner document) plain t' i) [
              | inl (j, n) ↦ inl (demoted-IsOld routes t' j)
              | inr (t, j, n, q) ↦
                  let (old, k, a, b, g) = demoted-IsOld routes t j in
                  let (a', b', g') = keep_owner-same t in
                  inl (
                    old,
                    k,
                    ap (λ x. x.site_id) (sym q) ∙ a' ∙ a,
                    ap (λ x. x.path) (sym q) ∙ b' ∙ b,
                    ap (λ x. x.document_id) (sym q) ∙ g' ∙ g,
                  )
            ])
        | inr e ↦ rw e elim [
          | inl q ↦ inr (
            ap (λ x. x.site_id) (sym q),
            ap (λ x. x.path) (sym q),
            ap (λ x. x.document_id) (sym q),
          )
          | inr i ↦ inl (demoted-IsOld routes t' i)
        ]
      ]

  key-keep_owner : (t : RouteRow) → route_key (keep_owner document t) ≡ route_key t
  key-keep_owner t = elim (Bool-cases (t.document_id == document)) [
    | inl e ↦ rw e refl
    | inr e ↦ rw e refl
  ]

  absent_key :
      (routes : List RouteRow)
      → any (is_path site path) routes ≡ false
      → ¬ In (site, path) (map route_key routes)
  absent_key routes h i =
      let (t, j, q) = map-in route_key routes (site, path) i in
      let n = any-false (is_path site path) routes h t j in
      cc (
        n,
        (&&_iff (t.site_id == site) (text_eq t.path path)).1
            ((==_iff _ _).1 (ap (λ k. k.0) q), (text_eq_iff _ _).1 (ap (λ k. k.1) q)),
      )

  pub upsert_route-keys :
      (routes : List RouteRow)
      → Distinct (map route_key routes)
      → Distinct (map route_key (upsert_route routes site path document now))
  unfolding upsert_route own_route demoted
  upsert_route-keys routes h =
      let plain = update_where own_route demoted routes in
      let same : map route_key plain ≡ map route_key routes =
        map-update_where own_route demoted route_key (λ t. refl) routes in
      elim (Bool-cases (any (is_path site path) plain)) [
        | inl e ↦ rw e (
            subst Distinct
              (sym (
                map-update_where (is_path site path) (keep_owner document) route_key key-keep_owner
                  plain
                ∙ same))
              h)
        | inr e ↦ rw e (absent_key plain e, subst Distinct (sym same) h)
      ]
