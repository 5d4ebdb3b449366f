-- ===== src/Text/Separated.antt =====
-- Texts joined by a separator that does not occur in them.
use open_soverign_blog.Prelude.{ℕ, ◌≡◌, refl, inl, inr, Option, none, some, [], ◌∷◌, ◌++◌, In}
use open_soverign_blog.Text.Basic.{Text}

-- What stands before the first separator, and what stands behind it, can be read back.
pub separated-injective :
    (sep : ℕ) (i j s t : Text)
    → ¬ In sep i
    → ¬ In sep j
    → i ++ (sep ∷ s) ≡ j ++ (sep ∷ t)
    → (i ≡ j) × (s ≡ t)
separated-injective sep [] [] s t h k e = (refl, cc)
separated-injective sep [] (d ∷ j) s t h k e = absurd (k (inl (cc)))
separated-injective sep (c ∷ i) [] s t h k e = absurd (h (inl (cc)))
separated-injective sep (c ∷ i) (d ∷ j) s t h k e =
    let (same, rest) = separated-injective sep i j s t (λ m. h (inr m)) (λ m. k (inr m)) (cc) in
    (cc, rest)

-- An optional last part, behind a separator of its own.
abbrev pub optional_part : ℕ → Option Text → Text
optional_part sep none = []
optional_part sep (some t) = sep ∷ t

pub optional_part-injective :
    (sep : ℕ) (i j : Text) (o p : Option Text)
    → ¬ In sep i
    → ¬ In sep j
    → i ++ optional_part sep o ≡ j ++ optional_part sep p
    → (i ≡ j) × (o ≡ p)
optional_part-injective sep [] [] none none h k e = (refl, refl)
optional_part-injective sep [] [] none (some t) h k e = cc
optional_part-injective sep [] [] (some s) none h k e = cc
optional_part-injective sep [] [] (some s) (some t) h k e = (refl, cc)
optional_part-injective sep [] (d ∷ j) none p h k e = cc
optional_part-injective sep [] (d ∷ j) (some s) p h k e = absurd (k (inl (cc)))
optional_part-injective sep (c ∷ i) [] o none h k e = cc
optional_part-injective sep (c ∷ i) [] o (some t) h k e = absurd (h (inl (cc)))
optional_part-injective sep (c ∷ i) (d ∷ j) o p h k e =
    let (same, rest) = optional_part-injective sep i j o p (λ m. h (inr m)) (λ m. k (inr m)) (cc) in
    (cc, rest)
