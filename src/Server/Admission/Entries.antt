-- ===== src/Server/Admission/Entries.antt =====
-- A hash map as the list of its entries.
use open_soverign_blog.Prelude.{
  ℕ, ◌+◌, ◌≤◌, ◌<◌, ◌≡◌, refl, ◌⊎◌, inl, inr, Bool, false, not, Option, none, some, List, [], ◌∷◌,
  arith, ◌==◌, if◌then◌else◌, length, filter, Bool-cases, is_some, subst, ==_iff, ◌∙◌,
}

-- 32 bytes, as a number
abbrev pub Key : Type 0
Key = ℕ

abbrev pub Map {ℓ} : Type ℓ → Type ℓ
Map V = List (Key × V)

module _ {V : Type 0} where
  unfoldable pub find : Key → Map V → Option V
  find key [] = none
  find key ((k, v) ∷ rest) = if k == key then some v else find key rest

  unfoldable pub remove : Key → Map V → Map V
  remove key m = filter (λ e. not (e.0 == key)) m

  unfoldable pub upsert : Key → V → Map V → Map V
  upsert key v [] = (key, v) ∷ []
  upsert key v ((k, w) ∷ rest) = if k == key then (key, v) ∷ rest else (k, w) ∷ upsert key v rest

  -- No key has two entries.
  abbrev pub IsMap : Map V → Type 0
  IsMap [] = Unit
  IsMap ((k, v) ∷ rest) = (find k rest ≡ none) × IsMap rest

  pub find-upsert :
      (j key : Key) (v : V) (m : Map V)
      → find j (upsert key v m) ≡ (if key == j then some v else find j m)
  unfolding find upsert
  find-upsert j key v [] = refl
  find-upsert j key v ((k, w) ∷ rest) = ground (arith, find-upsert j key v rest)

  pub find-filter-none :
      (key : Key) (p : Key × V → Bool) (m : Map V)
      → find key m ≡ none
      → find key (filter p m) ≡ none
  unfolding find
  find-filter-none key p [] h = refl
  find-filter-none key p ((k, v) ∷ rest) h = ground (arith, find-filter-none key p rest)

  -- A filter keeps an entry as it is, or drops it because of the test.
  pub find-filter :
      (key : Key) (p : Key × V → Bool) (m : Map V)
      → IsMap m
      → (find key (filter p m) ≡ find key m)
        ⊎ ((v : V) × (find key m ≡ some v) × (p (key, v) ≡ false) × (find key (filter p m) ≡ none))
  unfolding find
  find-filter key p [] h = inl refl
  find-filter key p ((k, v) ∷ rest) h = elim (Bool-cases (k == key)) [
    | inl e ↦
        let same : k ≡ key = ground arith in
        let gone = find-filter-none key p rest (subst (λ j. find j rest ≡ none) same h.0) in
        elim (Bool-cases (p (k, v))) [
          | inl kept ↦ inl (ground arith)
          | inr dropped ↦
              inr (v, ground arith, subst (λ j. p (j, v) ≡ false) same dropped, ground arith)
        ]
    | inr e ↦ elim (find-filter key p rest h.1) [
      | inl q ↦ inl (ground arith)
      | inr (w, q, r, s) ↦ inr (w, ground arith, r, ground arith)
    ]
  ]

  pub find-remove :
      (j key : Key) (m : Map V) → find j (remove key m) ≡ (if key == j then none else find j m)
  unfolding find remove
  find-remove j key [] = ground arith
  find-remove j key ((k, v) ∷ rest) = ground (arith, find-remove j key rest)

  pub IsMap-filter : (p : Key × V → Bool) (m : Map V) → IsMap m → IsMap (filter p m)
  IsMap-filter p [] h = tt
  IsMap-filter p ((k, v) ∷ rest) h =
      ground (arith, find-filter-none k p rest h.0, IsMap-filter p rest h.1)

  pub IsMap-remove : (key : Key) (m : Map V) → IsMap m → IsMap (remove key m)
  unfolding remove
  IsMap-remove key m h = IsMap-filter _ m h

  pub IsMap-upsert : (key : Key) (v : V) (m : Map V) → IsMap m → IsMap (upsert key v m)
  unfolding upsert
  IsMap-upsert key v [] h = (unfold find in refl, tt)
  IsMap-upsert key v ((k, w) ∷ rest) h =
      let ih = IsMap-upsert key v rest h.1 in
      elim (Bool-cases (k == key)) [
        | inl e ↦ rw e (subst (λ j. find j rest ≡ none) ((==_iff k key).0 e) h.0, h.1)
        | inr e ↦ rw e (find-upsert k key v rest ∙ ground arith, ih)
      ]

  pub length-filter-le : (p : Key × V → Bool) (m : Map V) → length (filter p m) ≤ length m
  length-filter-le p [] = omega arith
  length-filter-le p (e ∷ rest) = ground (arith, length-filter-le p rest)

  pub length-remove-lt :
      (key : Key) (v : V) (m : Map V) → find key m ≡ some v → length (remove key m) < length m
  unfolding find remove
  length-remove-lt key v [] h = cc
  length-remove-lt key v ((k, w) ∷ rest) h = ground (
    arith,
    length-remove-lt key v rest,
    length-filter-le (λ (e : Key × V). not (e.0 == key)) rest,
  )

  pub length-upsert :
      (key : Key) (v : V) (m : Map V)
      → length (upsert key v m) ≡ (if is_some (find key m) then length m else length m + 1)
  unfolding find upsert
  length-upsert key v [] = omega arith
  length-upsert key v ((k, w) ∷ rest) = ground (arith, length-upsert key v rest)
