-- ===== src/Sorting/Plans.antt =====
-- ORDER BY is a strict order, and the unique tie-breaker leaves no ties.
use prodkit_storage.Common.{
  ℕ, ◌≡◌, refl, true, false, ◌||◌, inl, inr, Option, none, some, List, [], ◌∷◌, arith, IsIn,
}
use prodkit_storage.Sorting.Defs.{
  SortDirection, asc, desc, NullPlacement, first, last, OrderElement,
}
use prodkit_storage.Sorting.Boundary.{Sql, comes_before, before, same_value}

before_asym :
    (d : SortDirection) (n : NullPlacement) (v w : Option ℕ)
    → before d n v w ≡ true
    → (before d n w v ≡ false) × (same_value w v ≡ false)
before_asym asc n (some v) (some w) h = ground arith
before_asym desc n (some v) (some w) h = ground arith
before_asym d first none (some w) h = ground arith
before_asym d first (some v) none h = ground arith
before_asym d last none (some w) h = ground arith
before_asym d last (some v) none h = ground arith
before_asym d n none none h = ground arith

same_before :
    (d : SortDirection) (n : NullPlacement) (v w : Option ℕ)
    → same_value v w ≡ true
    → before d n w v ≡ false
same_before asc n (some v) (some w) h = ground arith
same_before desc n (some v) (some w) h = ground arith
same_before d n none (some w) h = ground arith
same_before d n (some v) none h = ground arith
same_before d n none none h = ground arith

before_irrefl : (d : SortDirection) (n : NullPlacement) (v : Option ℕ) → before d n v v ≡ false
before_irrefl asc n (some v) = ground arith
before_irrefl desc n (some v) = ground arith
before_irrefl d n none = ground arith

before_total :
    (d : SortDirection) (n : NullPlacement) (v w : Option ℕ)
    → same_value v w ≡ false
    → (before d n v w || before d n w v) ≡ true
before_total asc n (some v) (some w) h = ground arith
before_total desc n (some v) (some w) h = ground arith
before_total d first none (some w) h = ground arith
before_total d first (some v) none h = ground arith
before_total d last none (some w) h = ground arith
before_total d last (some v) none h = ground arith
before_total d n none none h = ground arith

same_flip : (v w : Option ℕ) → same_value v w ≡ same_value w v
same_flip none none = refl
same_flip none (some w) = refl
same_flip (some v) none = refl
same_flip (some v) (some w) = ground arith

module _ (q : Sql) where
  -- A row that comes before another does not come after it.
  pub comes_before_asym :
      (os : List OrderElement) (r s : q.Row)
      → comes_before q os r s ≡ true
      → comes_before q os s r ≡ false
  unfolding comes_before
  comes_before_asym [] r s h = refl
  comes_before_asym (o ∷ os) r s h = ground (
    arith,
    before_asym o.direction o.nulls (q.value o.column r) (q.value o.column s),
    same_before o.direction o.nulls (q.value o.column r) (q.value o.column s),
    comes_before_asym os r s,
  )

  pub comes_before_irrefl : (os : List OrderElement) (r : q.Row) → comes_before q os r r ≡ false
  unfolding comes_before
  comes_before_irrefl [] r = refl
  comes_before_irrefl (o ∷ os) r =
      ground
        (arith, comes_before_irrefl os r, before_irrefl o.direction o.nulls (q.value o.column r))

  -- Two rows that differ in a column of the plan are ordered one way or the other.
  pub comes_before_total :
      (os : List OrderElement) (o : OrderElement) (r s : q.Row)
      → IsIn o os
      → same_value (q.value o.column r) (q.value o.column s) ≡ false
      → (comes_before q os r s || comes_before q os s r) ≡ true
  unfolding comes_before
  comes_before_total [] o r s i h = elim i [ ]
  comes_before_total (x ∷ os) o r s (inl e) h = ground (
    arith,
    before_total x.direction x.nulls (q.value x.column r) (q.value x.column s) (rw e at h),
  )
  comes_before_total (x ∷ os) o r s (inr i) h = ground (
    arith,
    comes_before_total os o r s i h,
    before_total x.direction x.nulls (q.value x.column r) (q.value x.column s),
    same_flip (q.value x.column r) (q.value x.column s),
  )
