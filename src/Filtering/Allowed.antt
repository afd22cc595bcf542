-- ===== src/Filtering/Allowed.antt =====
-- What the criteria of a registry can be.
use prodkit_storage.Common.{
  is_nil, true, false, not, some, String, ◌=?◌, List, [], ◌∷◌, All, ok, value_error, inl, inr, Post,
  Post-bind, Post-raise_if, Post-each, Post-any, Post-ok, Post-map, not-eq_false, ◌≡◌, refl, sym,
  ap, ◌∙◌, arith, Bool-cases, Option-cases, subst, eq_iff,
}
use prodkit_storage.Filtering.Defs.{
  FilterOperator, eq, ne, lt, lte, gt, gte, in_, not_in, is_null, contains, starts_with_, ends_with,
  allows, Value, text, boolean, sequence, bytes, other, FilterField, FilterTerm, Criterion,
  compare_, among, not_among, null, not_null, like_contains, like_starts, like_ends, is_private,
  Entry, normalized_field, normalize, filter_registry, lookup, null_test, require_sequence,
  require_string, criterion, resolve_term, resolve,
}

module _ {X V : Type 0} where
  abbrev pub expression_of : Criterion X V → X
  expression_of (compare_ operator x v) = x
  expression_of (among x items) = x
  expression_of (not_among x items) = x
  expression_of (null x) = x
  expression_of (not_null x) = x
  expression_of (like_contains x s) = x
  expression_of (like_starts x s) = x
  expression_of (like_ends x s) = x

  abbrev pub operator_of : Criterion X V → FilterOperator
  operator_of (compare_ operator x v) = operator
  operator_of (among x items) = in_
  operator_of (not_among x items) = not_in
  operator_of (null x) = is_null
  operator_of (not_null x) = is_null
  operator_of (like_contains x s) = contains
  operator_of (like_starts x s) = starts_with_
  operator_of (like_ends x s) = ends_with

  -- A criterion that a term may become: a public field of the term's name allows the operator, and the criterion is of
  -- that operator on the field's expression.
  abbrev pub Allowed : List (FilterField X) → FilterTerm V → Criterion X V → Type 0
  Allowed fields term c =
      (f : FilterField X) × (lookup term.field fields ≡ some f)
      × (f.name ≡ term.field)
      × (is_private f.name ≡ false)
      × (allows f.operators term.operator ≡ true)
      × (expression_of c ≡ f.expression)
      × (operator_of c ≡ term.operator)

  abbrev pub AllAllowed : List (FilterField X) → List (FilterTerm V) → List (Criterion X V) → Type 0
  AllAllowed fields [] [] = Unit
  AllAllowed fields [] (c ∷ cs) = ⊥
  AllAllowed fields (t ∷ ts) [] = ⊥
  AllAllowed fields (t ∷ ts) (c ∷ cs) = Allowed fields t c × AllAllowed fields ts cs

same_name : (s t : String) → not (s =? t) ≡ false → s ≡ t
same_name s t h = elim (Bool-cases (s =? t)) [
  | inl same ↦ (eq_iff s t).0 same
  | inr differ ↦ (let wrong = rw differ at h in ground arith)
]

module _ {X : Type 0} where
  abbrev pub IsPublic : FilterField X → Type 0
  IsPublic f = is_private f.name ≡ false

  normalize-IsPublic : (entries : List (String × Entry X)) → Post (All IsPublic) (normalize entries)
  unfolding normalize
  normalize-IsPublic [] = tt
  normalize-IsPublic ((name, entry) ∷ rest) =
      Post-raise_if (All IsPublic) (is_private name) value_error _ (λ public.
        Post-bind (λ f. Unit) (All IsPublic) (normalized_field name entry) _
          (Post-any (normalized_field name entry))
          (λ f h. Post-raise_if (All IsPublic) (not (f.name =? name)) value_error _ (λ named.
            Post-bind (All IsPublic) (All IsPublic) (normalize rest) _ (normalize-IsPublic rest)
              (λ fs public_rest. (rw (same_name f.name name named) public, public_rest)))))

  lookup-IsPublic :
      (name : String) (fields : List (FilterField X)) (f : FilterField X)
      → All IsPublic fields
      → lookup name fields ≡ some f
      → (f.name ≡ name) × IsPublic f
  lookup-IsPublic name [] f public h = ground arith
  lookup-IsPublic name (g ∷ gs) f public h = elim (Bool-cases (g.name =? name)) [
    | inl here ↦
        (let found = rw here at h in
          let same : g ≡ f = cc in
          (ap (λ k. k.name) (sym same) ∙ (eq_iff g.name name).0 here, subst IsPublic same public.0))
    | inr there ↦ lookup-IsPublic name gs f public.1 (rw there at h)
  ]

module _ {X V : Type 0} where
  null_test-operator :
      (x : X) (v : Value V)
      → Post (λ c. (expression_of c ≡ x) × (operator_of c ≡ is_null)) (null_test x v)
  null_test-operator x (text s) = tt
  null_test-operator x (boolean true) = (refl, refl)
  null_test-operator x (boolean false) = (refl, refl)
  null_test-operator x (sequence items) = tt
  null_test-operator x (bytes v) = tt
  null_test-operator x (other v) = tt

  criterion-operator :
      (operator : FilterOperator) (x : X) (v : Value V)
      → Post (λ c. (expression_of c ≡ x) × (operator_of c ≡ operator)) (criterion operator x v)
  unfolding criterion
  criterion-operator eq x v = (refl, refl)
  criterion-operator ne x v = (refl, refl)
  criterion-operator lt x v = (refl, refl)
  criterion-operator lte x v = (refl, refl)
  criterion-operator gt x v = (refl, refl)
  criterion-operator gte x v = (refl, refl)
  criterion-operator in_ x v = Post-each _ (require_sequence v) (among x) (λ items. (refl, refl))
  criterion-operator not_in x v =
      Post-each _ (require_sequence v) (not_among x) (λ items. (refl, refl))
  criterion-operator is_null x v = null_test-operator x v
  criterion-operator contains x v =
      Post-each _ (require_string v) (like_contains x) (λ s. (refl, refl))
  criterion-operator starts_with_ x v =
      Post-each _ (require_string v) (like_starts x) (λ s. (refl, refl))
  criterion-operator ends_with x v =
      Post-each _ (require_string v) (like_ends x) (λ s. (refl, refl))

  resolve_term-Allowed :
      (fields : List (FilterField X)) (term : FilterTerm V)
      → All IsPublic fields
      → Post (Allowed fields term) (resolve_term fields term)
  unfolding resolve_term
  resolve_term-Allowed fields term public = elim (Option-cases (lookup term.field fields)) [
    | inl missing ↦ rw missing tt
    | inr (f, found) ↦ rw found (
        Post-raise_if (Allowed fields term) (not (allows f.operators term.operator)) value_error _
          (λ allowed.
            Post-map
              (λ c built. (
                f,
                found,
                (lookup-IsPublic term.field fields f public found).0,
                (lookup-IsPublic term.field fields f public found).1,
                (not-eq_false (allows f.operators term.operator)).0 allowed,
                built.0,
                built.1,
              ))
              (criterion term.operator f.expression term.value)
              (criterion-operator term.operator f.expression term.value)))
  ]

  resolve-AllAllowed :
      (fields : List (FilterField X)) (terms : List (FilterTerm V))
      → All IsPublic fields
      → Post (AllAllowed fields terms) (resolve fields terms)
  unfolding resolve
  resolve-AllAllowed fields [] public = tt
  resolve-AllAllowed fields (term ∷ terms) public =
      Post-bind (Allowed fields term) (AllAllowed fields (term ∷ terms)) (resolve_term fields term)
        _ (resolve_term-Allowed fields term public)
        (λ c allowed.
          Post-bind (AllAllowed fields terms) (AllAllowed fields (term ∷ terms))
            (resolve fields terms) _ (resolve-AllAllowed fields terms public)
            (λ cs rest. (allowed, rest)))

  -- A registry that `FilterRegistry` accepts, and terms that `resolve` accepts: the criteria are one for each term in
  -- order, each of the operator of its term on the expression of the field of the term's name, a field whose name is
  -- public and which allows the operator.
  pub resolve_allowed :
      (entries : List (String × Entry X)) (fields : List (FilterField X))
      (terms : List (FilterTerm V)) (criteria : List (Criterion X V))
      → filter_registry entries ≡ ok fields
      → resolve fields terms ≡ ok criteria
      → AllAllowed fields terms criteria
  unfolding filter_registry
  resolve_allowed entries fields terms criteria registered resolved =
      let public =
        Post-ok (All IsPublic) (filter_registry entries) fields
          (Post-raise_if (All IsPublic) (is_nil entries) value_error (normalize entries)
            (λ _. normalize-IsPublic entries))
          registered in
      Post-ok (AllAllowed fields terms) (resolve fields terms) criteria
        (resolve-AllAllowed fields terms public) resolved
