-- ===== src/PluginApi/Json/Unordered.antt =====
-- `canonical_json` of crates/plugin-api/src/lib.rs forgets the order of the members of an object.
use open_soverign_blog.Prelude.{
  ◌≡◌, refl, sym, ap, subst, ◌∙◌, true, false, Option, none, some, arith, if◌then◌else◌, Bool-cases,
  Option-cases, inl, inr, [], ◌∷◌,
}
use open_soverign_blog.Text.{Text, text_eq, text_eq_iff, text_lt}
use open_soverign_blog.PluginApi.Json.{
  Value, Entries, object, no_entries, entry, insert, collect, canonical_json, canonical_entries,
}
use open_soverign_blog.PluginApi.Json.Canonical.{text_lt-connex, Ascending, collect-Ascending}

-- `Option::map`
abbrev map : (Value → Value) → Option Value → Option Value
map f none = none
map f (some v) = some (f v)

-- The member of an object under a key, in entries where no key stands twice.
abbrev get : Text → Entries → Option Value
get key no_entries = none
get key (entry k v rest) = if text_eq k key then some v else get key rest

abbrev or_else : Option Value → Option Value → Option Value
or_else none o = o
or_else (some v) o = some v

-- The member under a key, which is the last one where a key stands twice.
abbrev pub member : Text → Entries → Option Value
member key no_entries = none
member key (entry k v rest) = or_else (member key rest) (if text_eq k key then some v else none)

text_eq-same : (s : Text) → text_eq s s ≡ true
text_eq-same s = (text_eq_iff s s).1 refl

text_lt_irrefl : (s : Text) → text_lt s s ≡ false
unfolding text_lt
text_lt_irrefl [] = refl
text_lt_irrefl (c ∷ s) = ground (arith, text_lt_irrefl s)

text_lt_trans : (s t u : Text) → text_lt s t ≡ true → text_lt t u ≡ true → text_lt s u ≡ true
unfolding text_lt
text_lt_trans s t [] h k = ground arith
text_lt_trans [] t (e ∷ u) h k = refl
text_lt_trans (c ∷ s) [] (e ∷ u) h k = ground arith
text_lt_trans (c ∷ s) (d ∷ t) (e ∷ u) h k = ground (arith, text_lt_trans s t u)

get-insert :
    (j key : Text) (v : Value) (es : Entries)
    → get j (insert key v es) ≡ (if text_eq key j then some v else get j es)
unfolding insert
get-insert j key v no_entries = refl
get-insert j key v (entry k u rest) = elim (Bool-cases (text_lt key k)) [
  | inl e ↦ rw e refl
  | inr e ↦ elim (Bool-cases (text_eq key k)) [
    | inl same ↦
        let key_is : key ≡ k = (text_eq_iff key k).0 same in rw (e, same, key_is) (ground arith)
    | inr other ↦
        rw (e, other, get-insert j key v rest)
          (elim (Bool-cases (text_eq k j)) [
            | inl here ↦
                let differs : text_eq key j ≡ false =
                  subst (λ t. text_eq key t ≡ false) ((text_eq_iff k j).0 here) other in
                rw (here, differs) refl
            | inr away ↦ rw away refl
          ])
  ]
]

get-collect :
    (j : Text) (sorted es : Entries)
    → get j (collect sorted es) ≡ or_else (member j es) (get j sorted)
unfolding collect
get-collect j sorted no_entries = refl
get-collect j sorted (entry k v rest) =
    rw (get-collect j (insert k v sorted) rest, get-insert j k v sorted) (ground arith)

-- Behind a key, ascending entries hold greater ones only.
get-above :
    (k j : Text) (v u : Value) (rest : Entries)
    → Ascending (entry k v rest)
    → get j rest ≡ some u
    → text_lt k j ≡ true
get-above k j v u no_entries h e = ground arith
get-above k j v u (entry l w rest) h e = elim (Bool-cases (text_eq l j)) [
  | inl same ↦ subst (λ t. text_lt k t ≡ true) ((text_eq_iff l j).0 same) h.0
  | inr other ↦ text_lt_trans k l j h.0 (get-above l j w u rest h.1 (ground arith))
]

get-below :
    (k : Text) (v : Value) (j : Text) (rest : Entries)
    → Ascending (entry k v rest)
    → text_lt k j ≡ false
    → get j rest ≡ none
get-below k v j rest h less = elim (Option-cases (get j rest)) [
  | inl e ↦ e
  | inr (u, e) ↦ cc (get-above k j v u rest h e, less)
]

text_lt-asym : (s t : Text) → text_lt s t ≡ true → text_lt t s ≡ false
text_lt-asym s t h = elim (Bool-cases (text_lt t s)) [
  | inl back ↦ cc (text_lt_trans s t s h back, text_lt_irrefl s)
  | inr e ↦ e
]

text_lt-differs : (s t : Text) → text_lt s t ≡ true → text_eq t s ≡ false
text_lt-differs s t h = elim (Bool-cases (text_eq t s)) [
  | inl same ↦
      let again : text_lt s s ≡ true =
        subst (λ u. text_lt s u ≡ true) ((text_eq_iff t s).0 same) h in
      cc (again, text_lt_irrefl s)
  | inr e ↦ e
]

-- The first key of entries is not less than that of others with the same members.
first-not-less :
    (k l : Text) (v w : Value) (es fs : Entries)
    → Ascending (entry l w fs)
    → get k (entry k v es) ≡ get k (entry l w fs)
    → text_lt k l ≡ false
first-not-less k l v w es fs g e = elim (Bool-cases (text_lt k l)) [
  | inl less ↦
      let absent = get-below l w k fs g (text_lt-asym k l less) in
      let differs = text_lt-differs k l less in ground (arith, absent, differs, text_eq-same k)
  | inr n ↦ n
]

first-same : (k l : Text) → text_lt k l ≡ false → text_lt l k ≡ false → k ≡ l
first-same k l h g = elim (Bool-cases (text_eq k l)) [
  | inl same ↦ (text_eq_iff k l).0 same
  | inr other ↦ cc (text_lt-connex k l h other, g)
]

-- The members behind equal first entries agree too.
rest-members :
    (k : Text) (v w : Value) (es fs : Entries)
    → Ascending (entry k v es)
    → Ascending (entry k w fs)
    → ((j : Text) → get j (entry k v es) ≡ get j (entry k w fs))
    → (j : Text) → get j es ≡ get j fs
rest-members k v w es fs h g e j = elim (Bool-cases (text_eq k j)) [
  | inl here ↦
      let less : text_lt k j ≡ false =
        subst (λ t. text_lt k t ≡ false) ((text_eq_iff k j).0 here) (text_lt_irrefl k) in
      get-below k v j es h less ∙ sym (get-below k w j fs g less)
  | inr away ↦ let found = e j in ground (arith, away, found)
]

-- Ascending entries with the same members are the same.
same-members :
    (es fs : Entries) → Ascending es → Ascending fs → ((j : Text) → get j es ≡ get j fs) → es ≡ fs
same-members no_entries no_entries h g e = refl
same-members no_entries (entry l w fs) h g e = let found = e l in ground (arith, text_eq-same l)
same-members (entry k v es) no_entries h g e = let found = e k in ground (arith, text_eq-same k)
same-members (entry k v es) (entry l w fs) h g e =
    let keys : k ≡ l =
      first-same k l (first-not-less k l v w es fs g (e k))
        (first-not-less l k w v fs es h (sym (e l))) in
    subst
      (λ m.
        Ascending (entry m w fs)
        → ((j : Text) → get j (entry k v es) ≡ get j (entry m w fs))
        → entry k v es ≡ entry m w fs)
      keys
      (λ g' e'.
        let rest = same-members es fs h.1 g'.1 (rest-members k v w es fs h g' e') in
        let values = e' k in ground (arith, rest, values, text_eq-same k))
      g e

member-canonical :
    (j : Text) (es : Entries) → member j (canonical_entries es) ≡ map canonical_json (member j es)
unfolding canonical_json
member-canonical j no_entries = refl
member-canonical j (entry k v es) = rw (member-canonical j es) (ground arith)

-- Two objects with the same member under every key, the last one where a key stands twice, have the
-- same canonical form, in whatever order their members stand.
pub canonical_json-unordered :
    (es fs : Entries)
    → ((j : Text) → member j es ≡ member j fs)
    → canonical_json (object es) ≡ canonical_json (object fs)
unfolding canonical_json
canonical_json-unordered es fs same =
    let lookup = λ (j : Text) (xs : Entries).
      get-collect j no_entries (canonical_entries xs)
      ∙ ap (λ o. or_else o none) (member-canonical j xs) in
    ap object (
      same-members _ _ (collect-Ascending no_entries (canonical_entries es) tt)
        (collect-Ascending no_entries (canonical_entries fs) tt)
        (λ j.
          lookup j es ∙ ap (λ o. or_else (map canonical_json o) none) (same j) ∙ sym (lookup j fs)))
