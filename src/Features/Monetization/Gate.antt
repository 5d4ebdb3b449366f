-- ===== src/Features/Monetization/Gate.antt =====
-- What the gate of features/monetization-policy/src/lib.rs lets through.
use open_soverign_blog.Prelude.{
  >>-value_iff, ap, ◌≡◌, ◌≢◌, refl, sym, ◌∙◌, subst, ◌↔◌, ◌⊎◌, inl, inr, true, false, Option, none,
  some, List, [], ◌∷◌, map, arith, In, All, Distinct, all_iff, ok, Option-cases,
}
use open_soverign_blog.Text.{
  Text, codes, is_blank, text_eq_iff, map_get, Absent, Absent-cons_iff, Absent-nil,
  map_get-cons_iff,
}
use open_soverign_blog.Features.Monetization.{
  ConsentDecision, granted, TerminalAccessBasis, consent, transmission_exception,
  requested_service_exception, ResourceDeclaration, ConsentSnapshot, ResourceGate, invalid_resource,
  declare_each, gate_new, ok_or, is_granted, all_granted, unconfirmed, check_basis, gate_authorize,
}

pub record IsDeclaration (r : ResourceDeclaration) : Type 0 where
  pub id : is_blank r.id ≡ false
  pub kind : is_blank r.kind ≡ false
  pub scheme : r.url.scheme ≡ codes "https"

IsDeclaration-iff : (r : ResourceDeclaration) → (invalid_resource r ≡ false) ↔ IsDeclaration r
unfolding invalid_resource
IsDeclaration-iff r =
    let (to, of) = text_eq_iff r.url.scheme (codes "https") in
    (
      λ h. record { id = ground arith; kind = ground arith; scheme = to (ground arith) },
      λ d. ground (arith, d.id, d.kind, of d.scheme),
    )

-- The person has granted every purpose, of which there is one at least.
pub record Consents (purposes : List Text) (given : Option ConsentSnapshot) : Type 0 where
  pub snapshot : ConsentSnapshot
  pub is_given : given ≡ some snapshot
  pub has_purpose : purposes ≢ []
  pub all : All (λ p. map_get p snapshot.decisions ≡ some granted) purposes

-- The operator has confirmed the exception and says why.
pub record IsConfirmed (r : ResourceDeclaration) : Type 0 where
  pub confirmed : r.operator_confirmed ≡ true
  pub rationale : Text
  pub is_stated : r.rationale ≡ some rationale
  pub not_blank : is_blank rationale ≡ false

abbrev pub MayLoadOn : TerminalAccessBasis → ResourceDeclaration → Option ConsentSnapshot → Type 0
MayLoadOn consent r given = Consents r.purpose_ids given
MayLoadOn transmission_exception r given = IsConfirmed r
MayLoadOn requested_service_exception r given = IsConfirmed r

abbrev pub MayLoad : ResourceDeclaration → Option ConsentSnapshot → Type 0
MayLoad r given = MayLoadOn r.terminal_access_basis r given

granted_iff : (d : Option ConsentDecision) → (is_granted d ≡ true) ↔ (d ≡ some granted)
granted_iff d = (λ h. ground arith, λ h. ground arith)

all_granted_iff :
    (purposes : List Text) (s : ConsentSnapshot)
    → (all_granted purposes s ≡ true)
      ↔ ((purposes ≢ []) × All (λ p. map_get p s.decisions ≡ some granted) purposes)
unfolding all_granted
all_granted_iff purposes s =
    let (to, of) =
      all_iff (λ p. is_granted (map_get p s.decisions)) (λ p. map_get p s.decisions ≡ some granted)
        (λ p. granted_iff (map_get p s.decisions)) purposes in
    (λ h. (ground arith, to (ground arith)), λ h. ground (arith, h.0, of h.1))

unconfirmed_iff : (r : ResourceDeclaration) → (unconfirmed r ≡ false) ↔ IsConfirmed r
unfolding unconfirmed
unconfirmed_iff r = (
  λ h. elim (Option-cases r.rationale) [
    | inl e ↦ ground arith
    | inr (rationale, e) ↦ record {
      confirmed = ground arith;
      rationale = rationale;
      is_stated = e;
      not_blank = ground arith;
    }
  ],
  λ c. ground (arith, c.confirmed, c.is_stated, c.not_blank),
)

basis_iff :
    (b : TerminalAccessBasis) (r : ResourceDeclaration) (given : Option ConsentSnapshot)
    → (check_basis b r given ≡ ok tt) ↔ MayLoadOn b r given
unfolding check_basis ok_or
basis_iff consent r none = (λ h. cc, λ c. cc (c.is_given))
basis_iff consent r (some s) =
    let (to, of) = all_granted_iff r.purpose_ids s in
    (
      λ h.
          let (some_purpose, each) = to (ground arith) in
          record { snapshot = s; is_given = refl; has_purpose = some_purpose; all = each },
      λ c.
          let same : c.snapshot ≡ s = cc (c.is_given) in
          let all = of (
            c.has_purpose,
            subst (λ t. All (λ p. map_get p t.decisions ≡ some granted) r.purpose_ids) same c.all,
          ) in
          ground (arith, all),
    )
basis_iff transmission_exception r given =
    let (to, of) = unconfirmed_iff r in (λ h. to (ground arith), λ c. ground (arith, of c))
basis_iff requested_service_exception r given =
    let (to, of) = unconfirmed_iff r in (λ h. to (ground arith), λ c. ground (arith, of c))

gate_authorize-ok_iff :
    (gate : ResourceGate) (id : Text) (given : Option ConsentSnapshot) (r : ResourceDeclaration)
    → (gate_authorize gate id given ≡ ok r)
      ↔ ((map_get id gate.declared ≡ some r) × MayLoad r given)
unfolding gate_authorize ok_or
gate_authorize-ok_iff gate id given r = elim (Option-cases (map_get id gate.declared)) [
  | inl e ↦ rw e (λ h. cc, λ h. cc (h.0))
  | inr (found, e) ↦
      let (to, of) = basis_iff found.terminal_access_basis found given in
      let (passes, pass) =
        >>-value_iff (check_basis found.terminal_access_basis found given) found r in
      rw e (
        λ h.
            let (checked, same) = passes h in
            (ap some same, subst (λ q. MayLoad q given) same (to checked)),
        λ h.
            let same : found ≡ r = cc (h.0) in
            pass (of (subst (λ q. MayLoad q given) (sym same) h.1), same),
      )
]

-- A declared identifier finds the resource that was declared last under it.
lookup-declare_each_iff :
    (declared : List (Text × ResourceDeclaration)) (rs : List ResourceDeclaration)
    (gate : ResourceGate)
    → declare_each declared rs ≡ ok gate
    → (id : Text) (r : ResourceDeclaration)
    → (map_get id gate.declared ≡ some r)
      ↔ ((In r rs × (r.id ≡ id)) ⊎ (map_get id declared ≡ some r))
unfolding declare_each
lookup-declare_each_iff declared [] gate h id r =
    (λ e. inr (ground arith), elim [ inl m ↦ absurd m.0 | inr e ↦ ground arith ])
lookup-declare_each_iff declared (x ∷ xs) gate h id r =
    let (to, of) = lookup-declare_each_iff ((x.id, x) ∷ declared) xs gate (ground arith) id r in
    let (found, find) = map_get-cons_iff x.id id x r declared (ground arith) in
    (
      λ h. elim (to h) [
        | inl m ↦ inl (inr m.0, m.1)
        | inr e ↦ elim (found e) [
          | inl q ↦ inl (inl q.0, sym (ap ResourceDeclaration.id q.0) ∙ q.1)
          | inr old ↦ inr old
        ]
      ],
      elim [
        | inl m ↦ elim (m.0) [
          | inl q ↦ of (inr (find (inl (q, ap ResourceDeclaration.id q ∙ m.1))))
          | inr later ↦ of (inl (later, m.1))
        ]
        | inr old ↦ of (inr (find (inr old)))
      ],
    )

declare_each-ok_iff :
    (declared : List (Text × ResourceDeclaration)) (rs : List ResourceDeclaration)
    → ((gate : ResourceGate) × (declare_each declared rs ≡ ok gate)) ↔ (
        All IsDeclaration rs
        × Distinct (map ResourceDeclaration.id rs)
        × Absent declared (map ResourceDeclaration.id rs))
unfolding declare_each
declare_each-ok_iff declared [] = (λ h. (tt, tt, tt), λ h. (record { declared = declared }, refl))
declare_each-ok_iff declared (x ∷ xs) =
    let (to, of) = declare_each-ok_iff ((x.id, x) ∷ declared) xs in
    let (valid, of_valid) = IsDeclaration-iff x in
    let ids = map ResourceDeclaration.id xs in
    let (fresh, of_fresh) = Absent-cons_iff x.id x declared ids in
    (
      λ h.
          let (each, distinct, absent) = to (h.0, ground arith) in
          let (free, n) = fresh absent in
          ((valid (ground arith), each), (n, distinct), (ground arith, free)),
      λ h.
          let (gate, e) = of (h.0.1, h.1.1, of_fresh (h.2.1, h.1.0)) in
          (gate, ground (arith, of_valid h.0.0, h.2.0, e)),
    )

-- A gate is made exactly when each resource has an identifier and a kind and an HTTPS address, and no
-- two share an identifier.
pub gate_new-ok_iff :
    (resources : List ResourceDeclaration)
    → ((gate : ResourceGate) × (gate_new resources ≡ ok gate))
      ↔ (All IsDeclaration resources × Distinct (map ResourceDeclaration.id resources))
unfolding gate_new map_get
gate_new-ok_iff resources =
    let (to, of) = declare_each-ok_iff [] resources in
    (
      λ h. ((to h).0, (to h).1),
      λ h. of (h.0, h.1, Absent-nil ResourceDeclaration (map ResourceDeclaration.id resources)),
    )

-- A gate that was made of a list of resources authorises a resource under an identifier exactly when
-- the resource stands in the list under that identifier and may be loaded: on the basis of consent,
-- if it has a purpose and every one of its purposes is granted; on the basis of an exception, if the
-- operator has confirmed it and gives a rationale that is not blank.
pub authorize_declared_iff :
    (resources : List ResourceDeclaration) (gate : ResourceGate) (id : Text)
    (given : Option ConsentSnapshot) (r : ResourceDeclaration)
    → gate_new resources ≡ ok gate
    → (gate_authorize gate id given ≡ ok r) ↔ (In r resources × (r.id ≡ id) × MayLoad r given)
unfolding gate_new map_get
authorize_declared_iff resources gate id given r made =
    let (to, of) = gate_authorize-ok_iff gate id given r in
    let (found, find) = lookup-declare_each_iff [] resources gate made id r in
    (
      λ h. let (e, may) = to h in elim (found e) [ inl m ↦ (m.0, m.1, may) | inr absent ↦ cc ],
      λ h. of (find (inl (h.0, h.1)), h.2),
    )
