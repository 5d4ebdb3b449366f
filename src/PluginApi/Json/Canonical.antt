-- ===== src/PluginApi/Json/Canonical.antt =====
-- What `canonical_json` of crates/plugin-api/src/lib.rs returns.
use open_soverign_blog.Prelude.{
  ◌≡◌, refl, sym, subst, true, false, arith, Bool-cases, inl, inr, [], ◌∷◌,
}
use open_soverign_blog.Text.{Text, text_eq, text_eq_iff, text_lt}
use open_soverign_blog.PluginApi.Json.{
  Value, Values, Entries, null, boolean, number, string, array, object, no_values, value,
  no_entries, entry, insert, collect, canonical_json, canonical_values, canonical_entries,
}

-- Of two texts that differ, one is less.
pub text_lt-connex : (s t : Text) → text_lt s t ≡ false → text_eq s t ≡ false → text_lt t s ≡ true
unfolding text_lt text_eq
text_lt-connex [] [] h e = ground arith
text_lt-connex [] (d ∷ t) h e = ground arith
text_lt-connex (c ∷ s) [] h e = refl
text_lt-connex (c ∷ s) (d ∷ t) h e = ground (arith, text_lt-connex s t)

-- The key is less than the first key of the entries.
abbrev Above : Text → Entries → Type 0
Above p no_entries = Unit
Above p (entry k v rest) = text_lt p k ≡ true

abbrev pub Ascending : Entries → Type 0
Ascending no_entries = Unit
Ascending (entry k v rest) = Above k rest × Ascending rest

insert-Above :
    (p key : Text) (v : Value) (es : Entries)
    → text_lt p key ≡ true
    → Above p es
    → Above p (insert key v es)
unfolding insert
insert-Above p key v no_entries less h = less
insert-Above p key v (entry k u rest) less h = elim (Bool-cases (text_lt key k)) [
  | inl e ↦ rw e less
  | inr e ↦ elim (Bool-cases (text_eq key k)) [
    | inl same ↦ rw (e, same) less
    | inr other ↦ rw (e, other) h
  ]
]

insert-Ascending :
    (key : Text) (v : Value) (es : Entries) → Ascending es → Ascending (insert key v es)
unfolding insert
insert-Ascending key v no_entries h = (tt, tt)
insert-Ascending key v (entry k u rest) h = elim (Bool-cases (text_lt key k)) [
  | inl e ↦ rw e (e, h)
  | inr e ↦ elim (Bool-cases (text_eq key k)) [
    | inl same ↦
        let key_is : key ≡ k = (text_eq_iff key k).0 same in
        rw (e, same) (subst (λ t. Above t rest) (sym key_is) h.0, h.1)
    | inr other ↦
        rw (e, other)
          (
            insert-Above k key v rest (text_lt-connex key k e other) h.0,
            insert-Ascending key v rest h.1,
          )
  ]
]

pub collect-Ascending : (sorted es : Entries) → Ascending sorted → Ascending (collect sorted es)
unfolding collect
collect-Ascending sorted no_entries h = h
collect-Ascending sorted (entry k v rest) h =
    collect-Ascending (insert k v sorted) rest (insert-Ascending k v sorted h)

-- Every object in the value has its keys in ascending order, and so no key twice.
abbrev mutual
  pub IsCanonical : Value → Type 0
  IsCanonical null = Unit
  IsCanonical (boolean b) = Unit
  IsCanonical (number n) = Unit
  IsCanonical (string s) = Unit
  IsCanonical (array vs) = AreCanonical vs
  IsCanonical (object es) = Ascending es × HaveCanonical es

  pub AreCanonical : Values → Type 0
  AreCanonical no_values = Unit
  AreCanonical (value v vs) = IsCanonical v × AreCanonical vs

  pub HaveCanonical : Entries → Type 0
  HaveCanonical no_entries = Unit
  HaveCanonical (entry k v es) = IsCanonical v × HaveCanonical es

insert-HaveCanonical :
    (key : Text) (v : Value) (es : Entries)
    → IsCanonical v
    → HaveCanonical es
    → HaveCanonical (insert key v es)
unfolding insert
insert-HaveCanonical key v no_entries c h = (c, tt)
insert-HaveCanonical key v (entry k u rest) c h = elim (Bool-cases (text_lt key k)) [
  | inl e ↦ rw e (c, h)
  | inr e ↦ elim (Bool-cases (text_eq key k)) [
    | inl same ↦ rw (e, same) (c, h.1)
    | inr other ↦ rw (e, other) (h.0, insert-HaveCanonical key v rest c h.1)
  ]
]

collect-HaveCanonical :
    (sorted es : Entries)
    → HaveCanonical sorted
    → HaveCanonical es
    → HaveCanonical (collect sorted es)
unfolding collect
collect-HaveCanonical sorted no_entries h k = h
collect-HaveCanonical sorted (entry k v rest) h each =
    collect-HaveCanonical (insert k v sorted) rest (insert-HaveCanonical k v sorted each.0 h) each.1

mutual
  unfolding canonical_json

  canonical_json_lem : (v : Value) → IsCanonical (canonical_json v)
  canonical_json_lem null = tt
  canonical_json_lem (boolean b) = tt
  canonical_json_lem (number n) = tt
  canonical_json_lem (string s) = tt
  canonical_json_lem (array vs) = canonical_values_lem vs
  canonical_json_lem (object es) = (
    collect-Ascending no_entries (canonical_entries es) tt,
    collect-HaveCanonical no_entries (canonical_entries es) tt (canonical_entries_lem es),
  )

  canonical_values_lem : (vs : Values) → AreCanonical (canonical_values vs)
  canonical_values_lem no_values = tt
  canonical_values_lem (value v vs) = (canonical_json_lem v, canonical_values_lem vs)

  canonical_entries_lem : (es : Entries) → HaveCanonical (canonical_entries es)
  canonical_entries_lem no_entries = tt
  canonical_entries_lem (entry k v es) = (canonical_json_lem v, canonical_entries_lem es)

-- In the canonical form of a value, at every depth, the keys of an object ascend strictly.
pub canonical_json-IsCanonical : (v : Value) → IsCanonical (canonical_json v)
canonical_json-IsCanonical v = canonical_json_lem v
