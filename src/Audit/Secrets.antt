-- ===== src/Audit/Secrets.antt =====
-- No name of a secret is left in a sanitized payload, at any depth.
use prodkit_storage.Common.{
  str_of, value_error, ℕ, zero, suc, ◌≡◌, refl, Bool, true, false, Option, none, some, String, ◌=?◌,
  lower, List, [], ◌∷◌, ◌++◌, last, if◌then◌else◌, Result, ok, err, ◌>>=◌, Bool-cases, inl, inr,
  arith,
}
use prodkit_storage.Audit.Values.{
  Value, scalar, ref, Container, mapping, sequence, Heap, Clean, kept, replaced, object, array,
  CleanFields, end, field, CleanItems, nil, cons, put, snoc,
}
use prodkit_storage.Audit.Policy.{
  DataClassification, public, internal, personal, sensitive, secret, regulated, find, classify_name,
  classified, default_names, default_secret_names, default_audit_policy, sanitize, taken, FieldPath,
  AuditAction, keep, mask, drop, hash, reject, AuditPolicy, action, hashed, is_visited,
  sanitize_fields, sanitize_items, sanitize_container, sanitize_kept, sanitize_at, stored, pushed,
}

-- No object in the payload has a key that `banned` holds of.
mutual
  pub data Lacks {S : Type 0} (banned : String → Bool) : Clean S → Type 0 where
    kept_lacks : (s : S) → Lacks banned (kept s)
    replaced_lacks : (t : String) → Lacks banned (replaced t)
    object_lacks : (fs : CleanFields S) → LacksFields banned fs → Lacks banned (object fs)
    array_lacks : (xs : CleanItems S) → LacksItems banned xs → Lacks banned (array xs)

  pub data LacksFields {S : Type 0} (banned : String → Bool) : CleanFields S → Type 0 where
    end_lacks : LacksFields banned end
    field_lacks :
        (k : String) (c : Clean S) (fs : CleanFields S)
        → banned k ≡ false
        → Lacks banned c
        → LacksFields banned fs
        → LacksFields banned (field k c fs)

  pub data LacksItems {S : Type 0} (banned : String → Bool) : CleanItems S → Type 0 where
    nil_lacks : LacksItems banned nil
    cons_lacks :
        (c : Clean S) (xs : CleanItems S)
        → Lacks banned c
        → LacksItems banned xs
        → LacksItems banned (cons c xs)

module _ {S : Type 0} (banned : String → Bool) where
  put-LacksFields :
      (k : String) (c : Clean S) (fs : CleanFields S)
      → banned k ≡ false
      → Lacks banned c
      → LacksFields banned fs
      → LacksFields banned (put k c fs)
  unfolding put
  put-LacksFields k c end free l _ = field_lacks k c end free l end_lacks
  put-LacksFields k c (field j w rest) free l (field_lacks _ _ _ f lw lr) =
      elim (Bool-cases (j =? k)) [
        | inl same ↦ rw same (field_lacks j c rest f l lr)
        | inr other ↦
            rw other (field_lacks j w (put k c rest) f lw (put-LacksFields k c rest free l lr))
      ]

  snoc-LacksItems :
      (xs : CleanItems S) (c : Clean S)
      → LacksItems banned xs
      → Lacks banned c
      → LacksItems banned (snoc xs c)
  unfolding snoc
  snoc-LacksItems nil c _ l = cons_lacks c nil l nil_lacks
  snoc-LacksItems (cons w rest) c (cons_lacks _ _ lw lr) l =
      cons_lacks w (snoc rest c) lw (snoc-LacksItems rest c lr l)

  -- What a call may return, if it returns.
  abbrev pub Fine : Result (Option (Clean S)) → Type 0
  Fine (err e) = Unit
  Fine (ok none) = Unit
  Fine (ok (some c)) = Lacks banned c

  abbrev Nothing : Result (Option (Clean S)) → Type 0
  Nothing (err e) = Unit
  Nothing (ok none) = Unit
  Nothing (ok (some c)) = ⊥

  Nothing-of : (r : Result (Option (Clean S))) → r ≡ ok none → Nothing r
  Nothing-of (err e) h = tt
  Nothing-of (ok none) h = tt
  Nothing-of (ok (some c)) h = ground arith

  Fine-if :
      (visited : Bool) (r : Result (Option (Clean S)))
      → Fine r
      → Fine (if visited then err value_error else r)
  Fine-if true r f = tt
  Fine-if false r f = f

  abbrev FineFields : Result (CleanFields S) → Type 0
  FineFields (err e) = Unit
  FineFields (ok fs) = LacksFields banned fs

  abbrev FineItems : Result (CleanItems S) → Type 0
  FineItems (err e) = Unit
  FineItems (ok xs) = LacksItems banned xs

  not_banned :
      (k : String) (c : Clean S) → (banned k ≡ true → Nothing (ok (some c))) → banned k ≡ false
  not_banned k c h = elim (Bool-cases (banned k)) [ inl b ↦ elim (h b) [ ] | inr free ↦ free ]

  module _ (one : String → Value S → Result (Option (Clean S)))
      (fine : (k : String) (v : Value S) → Fine (one k v))
      (nothing : (k : String) (v : Value S) → banned k ≡ true → Nothing (one k v)) where
    sanitize_fields-Fine :
        (entries : List (String × Value S)) (acc : CleanFields S)
        → LacksFields banned acc
        → FineFields (sanitize_fields one entries acc)
    unfolding sanitize_fields
    sanitize_fields-Fine [] acc h = h
    sanitize_fields-Fine ((k, v) ∷ rest) acc h =
        go (one k v) (fine k v) (nothing k v) (sanitize_fields-Fine rest)
      where
        go :
            (r : Result (Option (Clean S)))
            → Fine r
            → (banned k ≡ true → Nothing r)
            → ((acc' : CleanFields S)
                → LacksFields banned acc'
                → FineFields (sanitize_fields one rest acc'))
            → FineFields (r >>= λ result. sanitize_fields one rest (stored one k result acc))
        go (err e) f n ih = tt
        go (ok none) f n ih = ih acc h
        go (ok (some c)) f n ih = ih (put k c acc) (put-LacksFields k c acc (not_banned k c n) f h)

    sanitize_items-Fine :
        (index : ℕ) (items : List (Value S)) (acc : CleanItems S)
        → LacksItems banned acc
        → FineItems (sanitize_items one index items acc)
    unfolding sanitize_items
    sanitize_items-Fine index [] acc h = h
    sanitize_items-Fine index (v ∷ rest) acc h =
        go (one (str_of index) v) (fine (str_of index) v) (sanitize_items-Fine (suc index) rest)
      where
        go :
            (r : Result (Option (Clean S)))
            → Fine r
            → ((acc' : CleanItems S)
                → LacksItems banned acc'
                → FineItems (sanitize_items one (suc index) rest acc'))
            → FineItems
                (r >>= λ result. sanitize_items one (suc index) rest (pushed one result acc))
        go (err e) f ih = tt
        go (ok none) f ih = ih acc h
        go (ok (some c)) f ih = ih (snoc acc c) (snoc-LacksItems acc c h f)

    sanitize_container-Fine : (c : Container S) → Fine (sanitize_container one c)
    unfolding sanitize_container
    sanitize_container-Fine (mapping entries) =
        go (sanitize_fields one entries end) (sanitize_fields-Fine entries end end_lacks)
      where
        go :
            (r : Result (CleanFields S))
            → FineFields r
            → Fine (r >>= λ fields. ok (some (object fields)))
        go (err e) f = tt
        go (ok fs) f = object_lacks fs f
    sanitize_container-Fine (sequence items) =
        go (sanitize_items one 0 items nil) (sanitize_items-Fine 0 items nil nil_lacks)
      where
        go :
            (r : Result (CleanItems S))
            → FineItems r
            → Fine (r >>= λ clean. ok (some (array clean)))
        go (err e) f = tt
        go (ok xs) f = array_lacks xs f

module _ {S : Type 0} (p : AuditPolicy S) (heap : Heap S) (banned : String → Bool)
    (dropped : (path : FieldPath) (k : String) (v : Value S)
      → banned k ≡ true
      → action p heap (path ++ k ∷ []) v ≡ drop) where
  hashed-Fine : (v : Value S) → Fine banned (hashed p heap v)
  unfolding hashed
  hashed-Fine v = go p.keyed_hash
    where
      go :
          (o : Option (Heap S → Value S → String))
          → Fine banned (elim o as (λ _. Result (Option (Clean S))) [
            | none ↦ err value_error
            | some h ↦ ok (some (replaced (h heap v)))
          ])
      go none = tt
      go (some h) = replaced_lacks (h heap v)

  Nothing-at :
      (left : ℕ) (path : FieldPath) (visited : List ℕ) (k : String) (v : Value S)
      → banned k ≡ true
      → Nothing banned (sanitize_at p heap left (path ++ k ∷ []) visited v)
  unfolding sanitize_at
  Nothing-at zero path visited k v b = tt
  Nothing-at (suc left) path visited k v b =
      Nothing-of banned (sanitize_at p heap (suc left) (path ++ k ∷ []) visited v)
        (rw (sanitize_at, dropped path k v b) refl)

  sanitize_at-Fine :
      (left : ℕ) (path : FieldPath) (visited : List ℕ) (v : Value S)
      → Fine banned (sanitize_at p heap left path visited v)
  unfolding sanitize_at sanitize_kept
  sanitize_at-Fine zero path visited v = tt
  sanitize_at-Fine (suc left) path visited v =
      go (action p heap path v) (in_container (sanitize_at-Fine left) v)
    where
      in_container :
          ((path' : FieldPath) (visited' : List ℕ) (v' : Value S)
            → Fine banned (sanitize_at p heap left path' visited' v'))
          → (v' : Value S)
          → Fine banned (sanitize_kept p heap (sanitize_at p heap left) path visited v')
      in_container ih (scalar s) = kept_lacks s
      in_container ih (ref i) = Fine-if banned (is_visited i visited) _ (
          sanitize_container-Fine banned
            (λ name. sanitize_at p heap left (path ++ name ∷ []) (i ∷ visited))
            (λ k w. ih (path ++ k ∷ []) (i ∷ visited) w)
            (λ k w b. Nothing-at left path (i ∷ visited) k w b) (heap i))

      go :
          (a : AuditAction)
          → Fine banned (sanitize_kept p heap (sanitize_at p heap left) path visited v)
          → Fine banned
              (taken p heap v (sanitize_kept p heap (sanitize_at p heap left) path visited v) a)
      go mask f = replaced_lacks p.mask
      go drop f = tt
      go reject f = tt
      go hash f = hashed-Fine v
      go keep f = f

-- The names that the default policy drops.
abbrev is_class : Option DataClassification → Bool
is_class (some secret) = true
is_class (some _) = false
is_class none = false

unfoldable pub is_secret_name : String → Bool
unfolding find lower
is_secret_name k = is_class (find (lower k) default_secret_names)

last-snoc : (path : FieldPath) (k : String) → last (path ++ k ∷ []) ≡ some k
last-snoc [] k = refl
last-snoc (a ∷ []) k = refl
last-snoc (a ∷ b ∷ path) k = last-snoc (b ∷ path) k

secret_of : (o : Option DataClassification) → is_class o ≡ true → o ≡ some secret
secret_of none h = ground arith
secret_of (some secret) h = refl
secret_of (some public) h = ground arith
secret_of (some internal) h = ground arith
secret_of (some personal) h = ground arith
secret_of (some sensitive) h = ground arith
secret_of (some regulated) h = ground arith

classify_secret :
    (path : FieldPath) (k : String)
    → is_secret_name k ≡ true
    → classify_name default_names (path ++ k ∷ []) ≡ some secret
unfolding is_secret_name classify_name
classify_secret path k h =
    rw (classify_name, last-snoc path k, secret_of (find (lower k) default_secret_names) h) refl

secret-drop :
    {S : Type 0} (heap : Heap S) (path : FieldPath) (k : String) (v : Value S)
    → is_secret_name k ≡ true
    → action (default_audit_policy S) heap (path ++ k ∷ []) v ≡ drop
unfolding action
secret-drop heap path k v h = rw (action, classified, find, classify_secret path k h) refl

-- Under the default policy the call raises, drops the whole payload, or returns one without a secret's
-- name, at any depth and in payloads that share or contain themselves.
pub sanitize_default-Fine :
    {S : Type 0} (heap : Heap S) (v : Value S)
    → Fine is_secret_name (sanitize (default_audit_policy S) heap v)
unfolding sanitize
sanitize_default-Fine {S} heap v =
    sanitize_at-Fine (default_audit_policy S) heap is_secret_name (secret-drop heap)
      (suc (default_audit_policy S).max_depth) [] [] v
