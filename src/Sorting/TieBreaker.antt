-- ===== src/Sorting/TieBreaker.antt =====
-- Every plan of a registry holds its tie-breaker, a unique column that is never NULL.
use prodkit_storage.Common.{
  is_among, ◌≡◌, refl, sym, ◌∙◌, ap, Bool, true, false, not, String, ◌=?◌, ℕ, eq_iff, List, [], ◌∷◌,
  ◌++◌, map, if◌then◌else◌, last, Result, ok, err, raise_if, value_error, ◌>>=◌, ◌>>◌, arith, IsIn,
  inl, inr, ◌⊎◌, Bool-cases, Error,
}
use prodkit_storage.Sorting.Defs.{SortField, SortTerm, ResolvedSortTerm, SortPlan}
use prodkit_storage.Sorting.Registry.{
  GivenField, GivenTerm, SortRegistry, require_field, resolved, resolve_terms, or_default,
  with_tie_breaker, resolve, registry, registry_of, tie_checked, normalize_all, normalize_fields,
  normalize_term, none_given, direction_or, term,
}

bind_ok :
    {A B : Type 0} (m : Result A) (f : A → Result B) (b : B)
    → (m >>= f) ≡ ok b
    → (a : A) × (m ≡ ok a) × (f a ≡ ok b)
bind_ok (err e) f b h = ground arith
bind_ok (ok a) f b h = (a, refl, h)

guard_ok :
    {B : Type 0} (test : Bool) (e : Error) (m : Result B) (b : B)
    → (raise_if test e >> m) ≡ ok b
    → (test ≡ false) × (m ≡ ok b)
guard_ok true e m b h = ground arith
guard_ok false e m b h = (refl, h)

abbrev value_or : {A : Type 0} → A → Result A → A
value_or d (err e) = d
value_or d (ok a) = a

IsIn-append : {A : Type 0} (a : A) (xs ys : List A) → IsIn a ys → IsIn a (xs ++ ys)
IsIn-append a [] ys h = h
IsIn-append a (x ∷ xs) ys h = inr (IsIn-append a xs ys h)

module _ (fields : List (String × SortField)) (name : String) where
  -- A term whose field the name stands for.
  abbrev pub Named : List ResolvedSortTerm → Type 0
  Named terms = (t : ResolvedSortTerm) × IsIn t terms × (require_field fields name ≡ ok t.field)

  resolve_terms_seen :
      (seen : List String) (ts : List SortTerm) (out : List ResolvedSortTerm × List String)
      → resolve_terms fields seen ts ≡ ok out
      → is_among name out.1 ≡ true
      → (is_among name seen ≡ true) ⊎ Named out.0
  unfolding resolve_terms
  resolve_terms_seen seen [] out h k = inl (ap (λ o. is_among name o.1) (ap (value_or out) h) ∙ k)
  resolve_terms_seen seen (t ∷ ts) out h k =
      let (fresh, h1) = guard_ok (is_among t.field seen) value_error _ out h in
      let (f, found, h2) = bind_ok (require_field fields t.field) _ out h1 in
      let (rest, e, h3) = bind_ok (resolve_terms fields (t.field ∷ seen) ts) _ out h2 in
      let built : (resolved f t.direction t.nulls ∷ rest.0, rest.1) ≡ out = ap (value_or out) h3 in
      elim (resolve_terms_seen (t.field ∷ seen) ts rest e (ap (λ o. is_among name o.1) built ∙ k)) [
        | inr (x, i, r) ↦ inr (x, rw (sym built) (inr i), r)
        | inl s ↦ elim (Bool-cases (t.field =? name)) [
          | inr other ↦ inl (rw other at s)
          | inl same ↦ inr (
            resolved f t.direction t.nulls,
            rw (sym built) (inl refl),
            rw (sym ((eq_iff t.field name).0 same)) found,
          )
        ]
      ]

module _ (r : SortRegistry) where
  added :
      (ts : List SortTerm) (done : List ResolvedSortTerm × List String)
      → resolve_terms r.fields [] ts ≡ ok done
      → (terms : List ResolvedSortTerm) → with_tie_breaker r done.0 done.1 ≡ ok terms
      → Named r.fields r.tie_breaker.field terms
  unfolding with_tie_breaker
  added ts done d terms h = elim (Bool-cases (is_among r.tie_breaker.field done.1)) [
    | inl seen ↦
        let same : done.0 ≡ terms = ap (value_or terms) (rw seen at h) in
        elim (resolve_terms_seen r.fields r.tie_breaker.field [] ts done d seen) [
          | inl bad ↦ ground arith
          | inr found ↦ rw (sym same) found
        ]
    | inr unseen ↦
        let (f, found, h1) =
          bind_ok (require_field r.fields r.tie_breaker.field) _ terms (rw unseen at h) in
        let tie =
          resolved f
            (if r.tie_breaker_was_string
              then direction_or (last done.0) r.tie_breaker.direction
              else r.tie_breaker.direction)
            r.tie_breaker.nulls in
        let built : done.0 ++ tie ∷ [] ≡ terms = ap (value_or terms) h1 in
        (tie, rw (sym built) (IsIn-append tie done.0 (tie ∷ []) (inl refl)), found)
  ]

module _ (digest : String → List ResolvedSortTerm → ℕ) where
  resolve_tie :
      (r : SortRegistry) (given : List GivenTerm) (plan : SortPlan)
      → resolve digest r given ≡ ok plan
      → Named r.fields r.tie_breaker.field plan.terms
  unfolding resolve with_tie_breaker
  resolve_tie r given plan h =
      let (normalized, n, h1) = bind_ok (normalize_all given) _ plan h in
      let (done, d, h2) =
        bind_ok (resolve_terms r.fields [] (or_default normalized r.default)) _ plan h1 in
      let (terms, t, h3) = bind_ok (with_tie_breaker r done.0 done.1) _ plan h2 in
      let built : terms ≡ plan.terms = ap (λ p. p.terms) (ap (value_or plan) h3) in
      rw (sym built) (added r (or_default normalized r.default) done d terms t)

-- The tie-breaker names a unique field that is never NULL.
abbrev pub HasTie : SortRegistry → Type 0
HasTie r =
    (f : SortField) × (require_field r.fields r.tie_breaker.field ≡ ok f)
    × (f.nullable ≡ false)
    × (f.unique ≡ true)

carried : (a b : SortRegistry) → a ≡ b → HasTie a → HasTie b
carried a b e h = rw (sym e) h

tie_checked_tie :
    (digest : String → List ResolvedSortTerm → ℕ) (r0 : SortRegistry) (f : SortField)
    (r : SortRegistry)
    → require_field r0.fields r0.tie_breaker.field ≡ ok f
    → tie_checked digest r0 f ≡ ok r
    → HasTie r
unfolding tie_checked
tie_checked_tie digest r0 f r found h =
    let (filled, h1) = guard_ok f.nullable value_error _ r h in
    let (unique, h2) = guard_ok (not f.unique) value_error _ r h1 in
    let (plan, p, h3) = bind_ok (resolve digest r0 (map term r0.default)) _ r h2 in
    carried r0 r (ap (value_or r) h3) (f, found, filled, ground arith)

module _ (digest : String → List ResolvedSortTerm → ℕ) (fields : List (String × GivenField))
    (default : List GivenTerm) (tie_breaker : GivenTerm) (name : String) (r : SortRegistry) where
  registry_tie : registry digest fields default tie_breaker name ≡ ok r → HasTie r
  unfolding registry
  registry_tie h =
      let (some_fields, h1) = guard_ok (none_given fields) value_error _ r h in
      let (normalized, n, h2) = bind_ok (normalize_fields fields) _ r h1 in
      let (terms, d, h3) = bind_ok (normalize_all default) _ r h2 in
      let (some_terms, h4) = guard_ok (none_given terms) value_error _ r h3 in
      let (tie, t, h5) = bind_ok (normalize_term tie_breaker) _ r h4 in
      let (f, found, h6) = bind_ok (require_field normalized tie.field) _ r h5 in
      tie_checked_tie digest (registry_of name normalized terms tie_breaker tie) f r found h6

  -- A registry that was built without an error resolves whatever terms it accepts to a plan that holds
  -- a column that is unique and never NULL.
  pub resolve_unique :
      (given : List GivenTerm) (plan : SortPlan)
      → registry digest fields default tie_breaker name ≡ ok r
      → resolve digest r given ≡ ok plan
      → (t : ResolvedSortTerm) × IsIn t plan.terms
        × (t.field.nullable ≡ false)
        × (t.field.unique ≡ true)
  resolve_unique given plan h k =
      let (f, found, filled, unique) = registry_tie h in
      let (t, inside, named) = resolve_tie digest r given plan k in
      let same : f ≡ t.field = ap (value_or f) (sym found ∙ named) in
      (t, inside, rw (sym same) filled, rw (sym same) unique)
