-- ===== src/Text/Sets.antt =====
-- `BTreeSet`s of texts, as the sources use them to find duplicates.
use open_soverign_blog.Prelude.{
  ◌≤◌, ◌≡◌, refl, sym, subst, ◌↔◌, inl, inr, Bool, true, ◌&&◌, not, List, [], ◌∷◌, arith,
  if◌then◌else◌, length, All, In, Distinct, Bool-cases, false_iff, Option, none, some, ap, ◌⊎◌,
}
use open_soverign_blog.Text.Basic.{Text, has_text, has_text_iff, text_eq, text_eq_iff}

-- `insert` says whether the text was new: each insertion of an iteration says so exactly when the
-- texts are distinct and none is in the set that it begins with.
unfoldable pub all_new : List Text → List Text → Bool
all_new seen [] = true
all_new seen (t ∷ ts) = not (has_text seen t) && all_new (t ∷ seen) ts

-- `collect::<BTreeSet<_>>()`, as the list of its members
unfoldable pub to_set : List Text → List Text
to_set [] = []
to_set (t ∷ ts) = let rest = to_set ts in if has_text rest t then rest else t ∷ rest

module _ {A : Type 0} where
  -- No element of the second list stands in the first.
  abbrev pub Apart : List A → List A → Type 0
  Apart seen ts = All (λ t. ¬ In t seen) ts

  pub Apart-cons : (t : A) (seen ts : List A) → Apart seen ts → ¬ In t ts → Apart (t ∷ seen) ts
  Apart-cons t seen [] h n = tt
  Apart-cons t seen (u ∷ ts) h n =
      (elim [ inl e ↦ n (inl (sym e)) | inr m ↦ h.0 m ], Apart-cons t seen ts h.1 (λ m. n (inr m)))

  pub Apart-tail : (t : A) (seen ts : List A) → Apart (t ∷ seen) ts → Apart seen ts × (¬ In t ts)
  Apart-tail t seen [] h = (tt, λ m. m)
  Apart-tail t seen (u ∷ ts) h =
      let (rest, n) = Apart-tail t seen ts h.1 in
      ((λ m. h.0 (inr m), rest), elim [ inl e ↦ h.0 (inl (sym e)) | inr m ↦ n m ])

  pub Apart-nil : (ts : List A) → Apart [] ts
  Apart-nil [] = tt
  Apart-nil (t ∷ ts) = (λ m. m, Apart-nil ts)

pub all_new_iff : (seen ts : List Text) → (all_new seen ts ≡ true) ↔ (Distinct ts × Apart seen ts)
unfolding all_new
all_new_iff seen [] = (λ h. (tt, tt), λ h. refl)
all_new_iff seen (t ∷ ts) =
    let (to, of) = all_new_iff (t ∷ seen) ts in
    let (absent, fresh) = false_iff (has_text seen t) (has_text_iff seen t) in
    (
      λ h.
          let (d, a) = to (ground arith) in
          let (apart, n) = Apart-tail t seen ts a in ((n, d), (absent (ground arith), apart)),
      λ h. let rest = of (h.0.1, Apart-cons t seen ts h.1.1 h.0.0) in ground (arith, fresh h.1.0),
    )

in-to_set_iff : (a : Text) (ts : List Text) → In a (to_set ts) ↔ In a ts
unfolding to_set
in-to_set_iff a [] = (λ m. m, λ m. m)
in-to_set_iff a (t ∷ ts) =
    let (to, of) = in-to_set_iff a ts in
    let (member, listed) = has_text_iff (to_set ts) t in
    elim (Bool-cases (has_text (to_set ts) t)) [
      | inl e ↦ rw e (
        λ m. inr (to m),
        elim [ inl q ↦ subst (λ u. In u (to_set ts)) q (member e) | inr m ↦ of m ],
      )
      | inr e ↦
          rw e (
            elim [ inl q ↦ inl q | inr m ↦ inr (to m) ],
            elim [ inl q ↦ inl q | inr m ↦ inr (of m) ],
          )
    ]

length-to_set-le : (ts : List Text) → length (to_set ts) ≤ length ts
unfolding to_set
length-to_set-le [] = omega arith
length-to_set-le (t ∷ ts) = ground (arith, length-to_set-le ts)

-- The set has as many members as the list exactly when no text occurs twice.
pub length-to_set_iff : (ts : List Text) → (length (to_set ts) ≡ length ts) ↔ Distinct ts
unfolding to_set
length-to_set_iff [] = (λ h. tt, λ h. refl)
length-to_set_iff (t ∷ ts) =
    let (to, of) = length-to_set_iff ts in
    let (absent, fresh) = false_iff (has_text (to_set ts) t) (has_text_iff (to_set ts) t) in
    let (member, listed) = in-to_set_iff t ts in
    elim (Bool-cases (has_text (to_set ts) t)) [
      | inl e ↦ rw e (
        λ h. absurd (omega (arith, length-to_set-le ts)),
        λ d. absurd (d.0 (member ((has_text_iff (to_set ts) t).0 e))),
      )
      | inr e ↦ rw e (λ h. (λ m. absent e (listed m), to (omega arith)), λ d. omega (arith, of d.1))
    ]

-- `BTreeMap::get`, on the list of the entries
unfoldable pub map_get {ℓ} : {A : Type ℓ} → Text → List (Text × A) → Option A
map_get key [] = none
map_get key ((k, v) ∷ rest) = if text_eq k key then some v else map_get key rest

module _ {A : Type 0} where
  -- The map has no entry under any of the keys.
  abbrev pub Absent : List (Text × A) → List Text → Type 0
  Absent entries keys = All (λ key. map_get key entries ≡ none) keys

  -- An entry in front keeps the keys absent exactly when its own is none of them.
  pub Absent-cons_iff :
      (k : Text) (v : A) (entries : List (Text × A)) (keys : List Text)
      → Absent ((k, v) ∷ entries) keys ↔ (Absent entries keys × (¬ In k keys))
  unfolding map_get
  Absent-cons_iff k v entries [] = (λ h. (tt, λ m. m), λ h. tt)
  Absent-cons_iff k v entries (key ∷ keys) =
      let (to, of) = Absent-cons_iff k v entries keys in
      let (same, differ) = text_eq_iff k key in
      elim (Bool-cases (text_eq k key)) [
        | inl e ↦ rw e (λ h. cc (h.0), λ h. absurd (h.1 (inl (sym (same e)))))
        | inr e ↦ rw e (
          λ h. ((h.0, (to h.1).0), elim [ inl q ↦ cc (differ (sym q)) | inr m ↦ (to h.1).1 m ]),
          λ h. (h.0.0, of (h.0.1, λ m. h.1 (inr m))),
        )
      ]

  -- A lookup in a map with a new entry in front finds that entry, or what the map held before.
  pub map_get-cons_iff :
      (k key : Text) (v a : A) (rest : List (Text × A))
      → map_get k rest ≡ none
      → (map_get key ((k, v) ∷ rest) ≡ some a)
        ↔ (((v ≡ a) × (k ≡ key)) ⊎ (map_get key rest ≡ some a))
  unfolding map_get
  map_get-cons_iff k key v a rest free =
      let (same, differ) = text_eq_iff k key in
      elim (Bool-cases (text_eq k key)) [
        | inl e ↦
            rw e (λ h. inl (cc, same e), elim [ inl q ↦ ap some q.0 | inr m ↦ cc (free, same e) ])
        | inr e ↦ rw e (λ h. inr h, elim [ inl q ↦ cc (differ q.1) | inr m ↦ m ])
      ]

pub Absent-nil : (A : Type 0) (keys : List Text) → Absent {A = A} [] keys
unfolding map_get
Absent-nil A [] = tt
Absent-nil A (key ∷ keys) = (refl, Absent-nil A keys)
