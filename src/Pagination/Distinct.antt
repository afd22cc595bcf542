-- ===== src/Pagination/Distinct.antt =====
-- Rows that differ pairwise: `_unique_scalars` drops none of them.
use prodkit_storage.Common.{ℕ, zero, suc, ◌≡◌, Bool, false, List, [], ◌∷◌, ◌++◌, take, drop, All}

module _ {T : Type 0} (same : T → T → Bool) where
  abbrev pub IsDistinct : List T → Type 0
  IsDistinct [] = Unit
  IsDistinct (x ∷ xs) = All (λ y. same x y ≡ false) xs × IsDistinct xs

  All-take : (p : T → Type 0) (n : ℕ) (xs : List T) → All p xs → All p (take n xs)
  All-take p zero xs h = tt
  All-take p (suc n) [] h = tt
  All-take p (suc n) (x ∷ xs) h = (h.0, All-take p n xs h.1)

  pub IsDistinct-take : (n : ℕ) (xs : List T) → IsDistinct xs → IsDistinct (take n xs)
  IsDistinct-take zero xs h = tt
  IsDistinct-take (suc n) [] h = tt
  IsDistinct-take (suc n) (x ∷ xs) h =
      (All-take (λ y. same x y ≡ false) n xs h.0, IsDistinct-take n xs h.1)

  pub IsDistinct-drop : (n : ℕ) (xs : List T) → IsDistinct xs → IsDistinct (drop n xs)
  IsDistinct-drop zero xs h = h
  IsDistinct-drop (suc n) [] h = tt
  IsDistinct-drop (suc n) (x ∷ xs) h = IsDistinct-drop n xs h.1

  pub IsDistinct-append : (xs ys : List T) → IsDistinct (xs ++ ys) → IsDistinct ys
  IsDistinct-append [] ys h = h
  IsDistinct-append (x ∷ xs) ys h = IsDistinct-append xs ys h.1
