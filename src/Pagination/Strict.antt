-- ===== src/Pagination/Strict.antt =====
-- Rows in a strict order: what a page's limit and a cursor's boundary leave of them.
use prodkit_storage.Common.{
  ℕ, zero, suc, ◌≤◌, ◌<◌, ◌≡◌, refl, ap, Bool, true, false, some, List, [], ◌∷◌, ◌++◌, length, take,
  keep, last, ltb, pos, ok, All, IsIn, arith,
}
use prodkit_storage.Sorting.Defs.{OrderElement}
use prodkit_storage.Sorting.Boundary.{Sql, comes_before, same_value}
use prodkit_storage.Sorting.Plans.{comes_before_total}
use prodkit_storage.Pagination.Pages.{IsOrdered, validate_limit}

-- Every row comes before all that stand behind it.
abbrev pub IsStrict : {T : Type 0} → (T → T → Bool) → List T → Type 0
IsStrict f [] = Unit
IsStrict f (r ∷ rs) = All (λ s. f r s ≡ true) rs × IsStrict f rs

module _ {T : Type 0} (f : T → T → Bool) where
  pub keep-All : (p : T → Bool) (rs : List T) → All (λ s. p s ≡ true) rs → keep p rs ≡ rs
  keep-All p [] h = refl
  keep-All p (r ∷ rs) h = rw h.0 (ap (λ (l : List T). r ∷ l) (keep-All p rs h.1))

  pub All-split :
      (s : T) (pre ys : List T) → All (λ x. f s x ≡ true) (pre ++ ys) → All (λ x. f s x ≡ true) ys
  All-split s [] ys h = h
  All-split s (x ∷ pre) ys h = All-split s pre ys h.1

  -- What stands behind a row is what comes after it.
  pub keep_after :
      (asym : (r s : T) → f r s ≡ true → f s r ≡ false) (irrefl : (r : T) → f r r ≡ false)
      (pre : List T) (s : T) (ys : List T)
      → IsStrict f (pre ++ s ∷ ys)
      → keep (f s) (pre ++ s ∷ ys) ≡ ys
  keep_after asym irrefl [] s ys h = rw (irrefl s) (keep-All (f s) ys h.0)
  keep_after asym irrefl (x ∷ pre) s ys h =
      rw (asym x s (first_of_rest pre ys h.0)) (keep_after asym irrefl pre s ys h.1)
    where
      first_of_rest : (pre ys : List T) → All (λ y. f x y ≡ true) (pre ++ s ∷ ys) → f x s ≡ true
      first_of_rest [] ys k = k.0
      first_of_rest (z ∷ zs) ys k = first_of_rest zs ys k.1

  -- The end of a non-empty list.
  pub last_split :
      (rs : List T)
      → 0 < length rs
      → (zs : List T) × (t : T) × (rs ≡ zs ++ t ∷ []) × (last rs ≡ some t)
  last_split [] h = absurd (omega arith)
  last_split (r ∷ []) h = ([], r, refl, refl)
  last_split (r ∷ x ∷ rs) h =
      let (zs, t, e, l) = last_split (x ∷ rs) (omega arith) in
      (r ∷ zs, t, ap (λ (k : List T). r ∷ k) e, l)

  pub take-take : (n : ℕ) (rs : List T) → take n (take (suc n) rs) ≡ take n rs
  take-take zero rs = refl
  take-take (suc n) [] = refl
  take-take (suc n) (r ∷ rs) = ap (λ (l : List T). r ∷ l) (take-take n rs)

  pub keep_cong : (p g : T → Bool) → ((r : T) → p r ≡ g r) → (rs : List T) → keep p rs ≡ keep g rs
  keep_cong p g h [] = refl
  keep_cong p g h (r ∷ rs) = rw (h r, keep_cong p g h rs)

  pub take_all : (n : ℕ) (rs : List T) → length rs ≤ n → take n rs ≡ rs
  take_all zero [] h = refl
  take_all zero (r ∷ rs) h = absurd (omega arith)
  take_all (suc n) [] h = refl
  take_all (suc n) (r ∷ rs) h = ap (λ (l : List T). r ∷ l) (take_all n rs (omega arith))

  pub keep-true : (rs : List T) → keep (λ r. true) rs ≡ rs
  keep-true [] = refl
  keep-true (r ∷ rs) = ap (λ (l : List T). r ∷ l) (keep-true rs)

pub ltb_no : (n m : ℕ) → m ≤ n → ltb n m ≡ false
ltb_no n m h = ground arith

pub ltb_yes : (n m : ℕ) → n < m → ltb n m ≡ true
ltb_yes n m h = ground arith

pub ltb_lt : (n m : ℕ) → ltb n m ≡ true → n < m
ltb_lt n m h = ground arith

pub ltb_le : (n m : ℕ) → ltb n m ≡ false → m ≤ n
ltb_le n m h = ground arith

-- No two rows have the same value in the column.
abbrev pub IsUnique : (q : Sql) → OrderElement → List q.Row → Type 0
IsUnique q o [] = Unit
IsUnique q o (r ∷ rs) =
    All (λ s. same_value (q.value o.column r) (q.value o.column s) ≡ false) rs × IsUnique q o rs

module _ (q : Sql) (os : List OrderElement) (o : OrderElement) (i : IsIn o os) where
  pub strict_head :
      (r : q.Row) (rs : List q.Row)
      → All (λ s. comes_before q os s r ≡ false) rs
      → All (λ s. same_value (q.value o.column r) (q.value o.column s) ≡ false) rs
      → All (λ s. comes_before q os r s ≡ true) rs
  strict_head r [] h u = tt
  strict_head r (s ∷ rs) h u =
      (ground (arith, h.0, comes_before_total q os o r s i u.0), strict_head r rs h.1 u.1)

  pub IsStrict-rows :
      (rs : List q.Row)
      → IsOrdered (comes_before q os) rs
      → IsUnique q o rs
      → IsStrict (comes_before q os) rs
  IsStrict-rows [] h u = tt
  IsStrict-rows (r ∷ rs) h u = (strict_head r rs h.0 u.0, IsStrict-rows rs h.1 u.1)

pub limit_valid : (n : ℕ) → 1 ≤ n → n ≤ 500 → validate_limit (pos n) ≡ ok tt
unfolding validate_limit
limit_valid n low high = ground arith
