-- ===== src/Sorting/Boundary.antt =====
-- The boundary of a cursor selects exactly the rows that come after the cursor's row.
use prodkit_storage.Common.{
  ℕ, ◌==◌, ◌≡◌, refl, Bool, true, false, ◌&&◌, ◌||◌, Option, none, some, List, [], ◌∷◌, ◌++◌, map,
  length, ltb, arith, ok, ==-refl,
}
use prodkit_storage.Sorting.Defs.{
  SortDirection, asc, desc, NullPlacement, first, last, ResolvedSortTerm, Criterion, is_null,
  is_not_null, equals, less, greater, false_, or_, OrderElement, order_by, equality, after,
  SortPlan, apply, alternatives, boundary,
}

-- What WHERE makes of the conditions: `matches c r` says that `c` is TRUE of the row, neither FALSE
-- nor UNKNOWN. A comparison with NULL is UNKNOWN.
pub record Sql : Type 1 where
  pub Row : Type 0
  pub value : ℕ → Row → Option ℕ
  pub matches : Criterion → Row → Bool
  pub matches-is_null :
      (c : ℕ) (r : Row) → matches (is_null c) r ≡ elim (value c r) [ none ↦ true | some x ↦ false ]
  pub matches-is_not_null :
      (c : ℕ) (r : Row)
      → matches (is_not_null c) r ≡ elim (value c r) [ none ↦ false | some x ↦ true ]
  pub matches-equals :
      (c v : ℕ) (r : Row)
      → matches (equals c v) r ≡ elim (value c r) [ none ↦ false | some x ↦ x == v ]
  pub matches-less :
      (c v : ℕ) (r : Row)
      → matches (less c v) r ≡ elim (value c r) [ none ↦ false | some x ↦ ltb x v ]
  pub matches-greater :
      (c v : ℕ) (r : Row)
      → matches (greater c v) r ≡ elim (value c r) [ none ↦ false | some x ↦ ltb v x ]
  pub matches-false : (r : Row) → matches false_ r ≡ false
  pub matches-or : (a b : Criterion) (r : Row) → matches (or_ a b) r ≡ (matches a r || matches b r)

-- ORDER BY on one column: does a row with value `v` come before one with value `w`?
abbrev value_before : SortDirection → ℕ → ℕ → Bool
value_before asc v w = ltb v w
value_before desc v w = ltb w v

abbrev pub before : SortDirection → NullPlacement → Option ℕ → Option ℕ → Bool
before d n (some v) (some w) = value_before d v w
before d first none (some w) = true
before d last none (some w) = false
before d first (some v) none = false
before d last (some v) none = true
before d n none none = false

abbrev pub same_value : Option ℕ → Option ℕ → Bool
same_value none none = true
same_value (some v) (some w) = v == w
same_value none (some w) = false
same_value (some v) none = false

module _ (q : Sql) where
  open q use {Row, value, matches}

  -- AND is TRUE if every condition is, and OR if some condition is.
  abbrev pub all_match : List Criterion → Row → Bool
  all_match [] r = true
  all_match (c ∷ cs) r = matches c r && all_match cs r

  abbrev pub some_match : List (List Criterion) → Row → Bool
  some_match [] r = false
  some_match (a ∷ alts) r = all_match a r || some_match alts r

  -- ORDER BY over several columns is lexicographic.
  unfoldable pub comes_before : List OrderElement → Row → Row → Bool
  comes_before [] r s = false
  comes_before (o ∷ os) r s =
      before o.direction o.nulls (value o.column r) (value o.column s)
      || same_value (value o.column r) (value o.column s) && comes_before os r s

  -- The cursor's values: those of the row's columns.
  abbrev pub values_from : List ResolvedSortTerm → Row → List (Option ℕ)
  values_from [] r = []
  values_from (t ∷ ts) r = value t.field.expression r ∷ values_from ts r

  matches-after :
      (t : ResolvedSortTerm) (v : Option ℕ) (r : Row)
      → matches (after t v) r ≡ before t.direction t.nulls v (value t.field.expression r)
  unfolding after
  matches-after t none r =
      ground (arith, q.matches-is_not_null t.field.expression r, q.matches-false r)
  matches-after t (some v) r = ground (
    arith,
    q.matches-is_null t.field.expression r,
    q.matches-less t.field.expression v r,
    q.matches-greater t.field.expression v r,
    q.matches-or (is_null t.field.expression) (less t.field.expression v) r,
    q.matches-or (is_null t.field.expression) (greater t.field.expression v) r,
  )

  matches-equality :
      (t : ResolvedSortTerm) (v : Option ℕ) (r : Row)
      → matches (equality t v) r ≡ same_value v (value t.field.expression r)
  unfolding equality
  matches-equality t none r = ground (arith, q.matches-is_null t.field.expression r)
  matches-equality t (some v) r = ground (arith, q.matches-equals t.field.expression v r)

  all_match-snoc :
      (cs : List Criterion) (c : Criterion) (r : Row)
      → all_match (cs ++ c ∷ []) r ≡ (all_match cs r && matches c r)
  all_match-snoc [] c r = ground arith
  all_match-snoc (d ∷ cs) c r = ground (arith, all_match-snoc cs c r)

  alternatives_lem :
      (prefix : List Criterion) (ts : List ResolvedSortTerm) (s r : Row)
      → some_match (alternatives prefix ts (values_from ts s)) r
        ≡ (all_match prefix r && comes_before (map order_by ts) s r)
  unfolding alternatives comes_before order_by
  alternatives_lem prefix [] s r = ground arith
  alternatives_lem prefix (t ∷ ts) s r = ground (
    arith,
    alternatives_lem (prefix ++ equality t (value t.field.expression s) ∷ []) ts s r,
    all_match-snoc prefix (after t (value t.field.expression s)) r,
    all_match-snoc prefix (equality t (value t.field.expression s)) r,
    matches-after t (value t.field.expression s) r,
    matches-equality t (value t.field.expression s) r,
  )

  length-values_from :
      (ts : List ResolvedSortTerm) (s : Row) → length (values_from ts s) ≡ length ts
  length-values_from [] s = refl
  length-values_from (t ∷ ts) s = omega (arith, length-values_from ts s)

  -- For every mix of directions and null placements, the boundary at the values of row `s` is built,
  -- and it is true of exactly the rows that the plan's ORDER BY puts after `s`.
  pub boundary_exact :
      (p : SortPlan) (s : Row)
      → (alts : List (List Criterion)) × (boundary p (values_from p.terms s) ≡ ok alts)
        × ((r : Row) → some_match alts r ≡ comes_before (apply p) s r)
  unfolding boundary apply
  boundary_exact p s = (
    alternatives [] p.terms (values_from p.terms s),
    rw (length-values_from p.terms s) (rw (==-refl (length p.terms))),
    λ r. alternatives_lem [] p.terms s r,
  )
