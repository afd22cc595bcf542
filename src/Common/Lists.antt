-- ===== src/Common/Lists.antt =====
-- Lists: lengths, slices, membership and predicates over all elements, by recursion.
use Prim.Native.Nat.{ℕ, zero, suc, ◌+◌, ◌-◌, min}
use mathlib.Core.Path.{◌≡◌, refl}
use mathlib.Core.Logic.{◌⊎◌, inl, inr}
use mathlib.Core.Bool.{Bool, true, false}
use mathlib.Core.List.{List, [], ◌∷◌, ◌++◌, map}
use mathlib.Core.Option.{Option, none, some}
use native.Mathlib.Omega.{arith}
use prodkit_storage.Common.Tests.{if◌then◌else◌}

module _ {ℓ} {A : Type ℓ} where
  abbrev pub length : List A → ℕ
  length [] = 0
  length (x ∷ xs) = suc (length xs)

  abbrev pub is_nil : List A → Bool
  is_nil [] = true
  is_nil (x ∷ xs) = false

  abbrev pub take : ℕ → List A → List A
  take zero xs = []
  take (suc n) [] = []
  take (suc n) (x ∷ xs) = x ∷ take n xs

  abbrev pub drop : ℕ → List A → List A
  drop zero xs = xs
  drop (suc n) [] = []
  drop (suc n) (x ∷ xs) = drop n xs

  abbrev pub keep : (A → Bool) → List A → List A
  keep p [] = []
  keep p (x ∷ xs) = if p x then x ∷ keep p xs else keep p xs

  abbrev pub count : (A → Bool) → List A → ℕ
  count p [] = 0
  count p (x ∷ xs) = if p x then suc (count p xs) else count p xs

  -- The last element.
  abbrev pub last : List A → Option A
  last [] = none
  last (x ∷ []) = some x
  last (x ∷ y ∷ xs) = last (y ∷ xs)

module _ {ℓ} {A : Type ℓ} where
  abbrev pub All {κ} : (A → Type κ) → List A → Type κ
  All P [] = Unit
  All P (x ∷ xs) = P x × All P xs

  pub All-map {κ} : {P Q : A → Type κ} (f : (a : A) → P a → Q a) (xs : List A) → All P xs → All Q xs
  All-map f [] h = tt
  All-map f (x ∷ xs) h = (f x h.0, All-map f xs h.1)

module _ {ℓ κ} {A : Type ℓ} (P : A → Type κ) where
  pub All-append_left : (xs ys : List A) → All P (xs ++ ys) → All P xs
  All-append_left [] ys h = tt
  All-append_left (x ∷ xs) ys h = (h.0, All-append_left xs ys h.1)

  pub All-append_right : (xs ys : List A) → All P (xs ++ ys) → All P ys
  All-append_right [] ys h = h
  All-append_right (x ∷ xs) ys h = All-append_right xs ys h.1

-- Membership, and two lists of one length that are related element by element.
module _ {A : Type 0} where
  abbrev pub IsIn : A → List A → Type 0
  IsIn a [] = ⊥
  IsIn a (x ∷ xs) = (a ≡ x) ⊎ IsIn a xs

  abbrev pub Zip : (A → A → Type 0) → List A → List A → Type 0
  Zip R [] [] = Unit
  Zip R [] (y ∷ ys) = ⊥
  Zip R (x ∷ xs) [] = ⊥
  Zip R (x ∷ xs) (y ∷ ys) = R x y × Zip R xs ys

module _ {A : Type 0} where
  pub All-at : (P : A → Type 0) (a : A) (xs : List A) → All P xs → IsIn a xs → P a
  All-at P a [] h i = elim i [ ]
  All-at P a (x ∷ xs) h (inl e) = rw e h.0
  All-at P a (x ∷ xs) h (inr i) = All-at P a xs h.1 i

  pub Zip-map :
      (R : A → A → Type 0) (f : A → A) (xs : List A)
      → ((a : A) → IsIn a xs → R a (f a))
      → Zip R xs (map f xs)
  Zip-map R f [] step = tt
  Zip-map R f (x ∷ xs) step = (step x (inl refl), Zip-map R f xs (λ a i. step a (inr i)))

  pub Zip-weaken :
      (R S : A → A → Type 0)
      → ((a b : A) → R a b → S a b)
      → (xs ys : List A) → Zip R xs ys
      → Zip S xs ys
  Zip-weaken R S f [] [] z = tt
  Zip-weaken R S f [] (y ∷ ys) z = elim z [ ]
  Zip-weaken R S f (x ∷ xs) [] z = elim z [ ]
  Zip-weaken R S f (x ∷ xs) (y ∷ ys) z = (f x y z.0, Zip-weaken R S f xs ys z.1)

  pub Zip-refl : (R : A → A → Type 0) → ((a : A) → R a a) → (xs : List A) → Zip R xs xs
  Zip-refl R step [] = tt
  Zip-refl R step (x ∷ xs) = (step x, Zip-refl R step xs)

module _ {ℓ} {A : Type ℓ} where
  pub take-append-drop : (n : ℕ) (xs : List A) → take n xs ++ drop n xs ≡ xs
  take-append-drop zero xs = refl
  take-append-drop (suc n) [] = refl
  take-append-drop (suc n) (x ∷ xs) = rw (take-append-drop n xs)

  pub length-take : (n : ℕ) (xs : List A) → length (take n xs) ≡ min n (length xs)
  length-take zero xs = omega arith
  length-take (suc n) [] = omega arith
  length-take (suc n) (x ∷ xs) = omega (arith, length-take n xs)

  pub length-drop : (n : ℕ) (xs : List A) → length (drop n xs) ≡ length xs - n
  length-drop zero xs = omega arith
  length-drop (suc n) [] = omega arith
  length-drop (suc n) (x ∷ xs) = omega (arith, length-drop n xs)

  pub length-append : (xs ys : List A) → length (xs ++ ys) ≡ length xs + length ys
  length-append [] ys = omega arith
  length-append (x ∷ xs) ys = omega (arith, length-append xs ys)
