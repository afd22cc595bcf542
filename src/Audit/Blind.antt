-- ===== src/Audit/Blind.antt =====
-- A sanitized payload does not depend on what the policy hides.
use prodkit_storage.Common.{
  ℕ, zero, suc, ◌≡◌, refl, ◌∙◌, ap, Option, none, some, String, str_of, List, [], ◌∷◌, ◌++◌,
  if◌then◌else◌, Result, ok, err, value_error, ◌>>=◌,
}
use prodkit_storage.Audit.Values.{
  Value, scalar, ref, Container, mapping, sequence, Heap, Clean, CleanFields, end, CleanItems, nil,
}
use prodkit_storage.Audit.Policy.{
  FieldPath, AuditAction, keep, mask, drop, hash, reject, AuditPolicy, action, hashed, is_visited,
  sanitize_fields, sanitize_items, sanitize_container, sanitize_kept, sanitize_at, sanitize, taken,
  stored, pushed,
}

-- Two containers with the same keys, or as many items, and values that `R` relates at each place.
module _ {S : Type 0} (R : String → Value S → Value S → Type 0) where
  abbrev pub AlikeFields : List (String × Value S) → List (String × Value S) → Type 0
  AlikeFields [] [] = Unit
  AlikeFields [] (e ∷ es) = ⊥
  AlikeFields (e ∷ es) [] = ⊥
  AlikeFields ((k, v) ∷ es) ((l, w) ∷ fs) = (k ≡ l) × R k v w × AlikeFields es fs

  abbrev pub AlikeItems : ℕ → List (Value S) → List (Value S) → Type 0
  AlikeItems index [] [] = Unit
  AlikeItems index [] (w ∷ ws) = ⊥
  AlikeItems index (v ∷ vs) [] = ⊥
  AlikeItems index (v ∷ vs) (w ∷ ws) = R (str_of index) v w × AlikeItems (suc index) vs ws

  abbrev pub AlikeContainer : Container S → Container S → Type 0
  AlikeContainer (mapping es) (mapping fs) = AlikeFields es fs
  AlikeContainer (mapping es) (sequence ws) = ⊥
  AlikeContainer (sequence vs) (mapping fs) = ⊥
  AlikeContainer (sequence vs) (sequence ws) = AlikeItems 0 vs ws

  module _ (one two : String → Value S → Result (Option (Clean S)))
      (same : (k : String) (v w : Value S) → R k v w → one k v ≡ two k w) where
    sanitize_fields_same :
        (es fs : List (String × Value S)) (acc : CleanFields S)
        → AlikeFields es fs
        → sanitize_fields one es acc ≡ sanitize_fields two fs acc
    unfolding sanitize_fields
    sanitize_fields_same [] [] acc h = refl
    sanitize_fields_same [] (e ∷ es) acc h = elim h [ ]
    sanitize_fields_same (e ∷ es) [] acc h = elim h [ ]
    sanitize_fields_same ((k, v) ∷ es) ((l, w) ∷ fs) acc (e, r, h) =
        rw (← e, same k v w r) (go (two k w) (λ acc'. sanitize_fields_same es fs acc' h))
      where
        go :
            (r : Result (Option (Clean S)))
            → ((acc' : CleanFields S) → sanitize_fields one es acc' ≡ sanitize_fields two fs acc')
            → (r >>= λ result. sanitize_fields one es (stored one k result acc))
              ≡ (r >>= λ result. sanitize_fields two fs (stored two k result acc))
        go (err x) ih = refl
        go (ok none) ih = ih acc
        go (ok (some c)) ih = ih (stored one k (some c) acc)

    sanitize_items_same :
        (index : ℕ) (vs ws : List (Value S)) (acc : CleanItems S)
        → AlikeItems index vs ws
        → sanitize_items one index vs acc ≡ sanitize_items two index ws acc
    unfolding sanitize_items
    sanitize_items_same index [] [] acc h = refl
    sanitize_items_same index [] (w ∷ ws) acc h = elim h [ ]
    sanitize_items_same index (v ∷ vs) [] acc h = elim h [ ]
    sanitize_items_same index (v ∷ vs) (w ∷ ws) acc (r, h) =
        rw (same (str_of index) v w r)
          (go (two (str_of index) w) (λ acc'. sanitize_items_same (suc index) vs ws acc' h))
      where
        go :
            (r : Result (Option (Clean S)))
            → ((acc' : CleanItems S)
                → sanitize_items one (suc index) vs acc' ≡ sanitize_items two (suc index) ws acc')
            → (r >>= λ result. sanitize_items one (suc index) vs (pushed one result acc))
              ≡ (r >>= λ result. sanitize_items two (suc index) ws (pushed two result acc))
        go (err x) ih = refl
        go (ok none) ih = ih acc
        go (ok (some c)) ih = ih (pushed one (some c) acc)

    sanitize_container_same :
        (c d : Container S)
        → AlikeContainer c d
        → sanitize_container one c ≡ sanitize_container two d
    unfolding sanitize_container
    sanitize_container_same (mapping es) (mapping fs) h = rw (sanitize_fields_same es fs end h)
    sanitize_container_same (mapping es) (sequence ws) h = elim h [ ]
    sanitize_container_same (sequence vs) (mapping fs) h = elim h [ ]
    sanitize_container_same (sequence vs) (sequence ws) h = rw (sanitize_items_same 0 vs ws nil h)

module _ {S : Type 0} (p : AuditPolicy S) (h g : Heap S) where
  abbrev pub AlikeKept :
      (FieldPath → Value S → Value S → Type 0) → FieldPath → Value S → Value S → Type 0
  AlikeKept deeper path (scalar s) (scalar t) = s ≡ t
  AlikeKept deeper path (scalar s) (ref j) = ⊥
  AlikeKept deeper path (ref i) (scalar t) = ⊥
  AlikeKept deeper path (ref i) (ref j) =
      (i ≡ j) × AlikeContainer (λ name. deeper (path ++ name ∷ [])) (h i) (g j)

  -- What two values have in common, for the action that the policy takes on them: nothing, if they are
  -- masked, dropped or refused.
  abbrev pub Shows :
      (FieldPath → Value S → Value S → Type 0)
      → AuditAction
      → FieldPath
      → Value S
      → Value S
      → Type 0
  Shows deeper mask path v w = Unit
  Shows deeper drop path v w = Unit
  Shows deeper reject path v w = Unit
  Shows deeper hash path v w = hashed p h v ≡ hashed p g w
  Shows deeper keep path v w = AlikeKept deeper path v w

  -- Two payloads that differ at most below what the policy hides, down to a depth.
  abbrev pub Alike : ℕ → FieldPath → Value S → Value S → Type 0
  Alike zero path v w = Unit
  Alike (suc left) path v w =
      (action p h path v ≡ action p g path w) × Shows (Alike left) (action p h path v) path v w

  sanitize_kept_same :
      (left : ℕ) (path : FieldPath) (visited : List ℕ) (v w : Value S)
      → ((path' : FieldPath) (visited' : List ℕ) (v' w' : Value S)
          → Alike left path' v' w'
          → sanitize_at p h left path' visited' v' ≡ sanitize_at p g left path' visited' w')
      → AlikeKept (Alike left) path v w
      → sanitize_kept p h (sanitize_at p h left) path visited v
        ≡ sanitize_kept p g (sanitize_at p g left) path visited w
  unfolding sanitize_kept
  sanitize_kept_same left path visited (scalar s) (scalar t) ih e = rw e
  sanitize_kept_same left path visited (scalar s) (ref j) ih e = elim e [ ]
  sanitize_kept_same left path visited (ref i) (scalar t) ih e = elim e [ ]
  sanitize_kept_same left path visited (ref i) (ref j) ih (e, c) = rw (← e) (
      ap (λ r. if is_visited i visited then err value_error else r)
        (sanitize_container_same (λ name. Alike left (path ++ name ∷ []))
          (λ name. sanitize_at p h left (path ++ name ∷ []) (i ∷ visited))
          (λ name. sanitize_at p g left (path ++ name ∷ []) (i ∷ visited))
          (λ k v w. ih (path ++ k ∷ []) (i ∷ visited) v w) (h i) (g i) (rw (← e) at c)))

  sanitize_at_same :
      (left : ℕ) (path : FieldPath) (visited : List ℕ) (v w : Value S)
      → Alike left path v w
      → sanitize_at p h left path visited v ≡ sanitize_at p g left path visited w
  unfolding sanitize_at
  sanitize_at_same zero path visited v w a = refl
  sanitize_at_same (suc left) path visited v w (e, s) =
      go (action p h path v) (sanitize_kept_same left path visited v w (sanitize_at_same left)) s
      ∙ ap (taken p g w (sanitize_kept p g (sanitize_at p g left) path visited w)) e
    where
      go :
          (a : AuditAction)
          → (AlikeKept (Alike left) path v w
              → sanitize_kept p h (sanitize_at p h left) path visited v
                ≡ sanitize_kept p g (sanitize_at p g left) path visited w)
          → Shows (Alike left) a path v w
          → taken p h v (sanitize_kept p h (sanitize_at p h left) path visited v) a
            ≡ taken p g w (sanitize_kept p g (sanitize_at p g left) path visited w) a
      go mask k s' = refl
      go drop k s' = refl
      go reject k s' = refl
      go hash k s' = s'
      go keep k s' = k s'

  -- Two payloads that the policy treats alike, and that differ at most in what it masks, drops or
  -- refuses, and below, give the same result: nothing of what is hidden can be seen in it.
  pub sanitize_same :
      (v w : Value S) → Alike (suc p.max_depth) [] v w → sanitize p h v ≡ sanitize p g w
  unfolding sanitize
  sanitize_same v w a = sanitize_at_same (suc p.max_depth) [] [] v w a
