-- ===== src/Transactions/Errors.antt =====
-- Classification of database errors. An exception is a number, and `Exceptions` its attributes.
use prodkit_storage.Common.{
  is_among, Option-cases, All, sym, ◌∙◌, ap, ℕ, zero, suc, ◌+◌, ◌-◌, ◌*◌, ◌≤◌, ◌<◌, ◌==◌, ◌≡◌, refl,
  Bool, false, ◌&&◌, ◌||◌, Option, none, some, String, List, [], ◌∷◌, length, if◌then◌else◌, ltb,
  arith, inl, inr, Bool-cases,
}

-- An attribute that is missing, or not of the type that is asked for, is `none`.
pub record Exception : Type 0 where
  pub sqlstate : Option String
  pub pgcode : Option String
  pub orig : Option ℕ
  pub cause : Option ℕ
  pub context : Option ℕ
  pub is_dbapi_error : Bool

abbrev pub Exceptions : Type 0
Exceptions = ℕ → Exception

abbrev pub str_length : String → ℕ
str_length String.[] = 0
str_length (String.◌∷◌ c s) = suc (str_length s)

-- `value in values`
abbrev pub is_member : ℕ → List ℕ → Bool
is_member a [] = false
is_member a (x ∷ xs) = (x == a) || is_member a xs

-- The first of the two codes that has five characters.
abbrev pub of_length_five : Option String → Option String → Option String
of_length_five none other = other
of_length_five (some s) other = if str_length s == 5 then some s else other

unfoldable pub own_sqlstate : Exception → Option String
own_sqlstate e = of_length_five e.sqlstate (of_length_five e.pgcode none)

-- The stack, its top first.
abbrev pub push : Option ℕ → List ℕ → List ℕ
push none pending = pending
push (some e) pending = e ∷ pending

unfoldable pub push_links : Exception → List ℕ → List ℕ
push_links e pending = push e.context (push e.cause (push e.orig pending))

-- The loop of `get_sqlstate`. The outer `none` says that the fuel ran out.
unfoldable pub search_sqlstate :
    Exceptions → (fuel : ℕ) → (pending visited : List ℕ) → Option (Option String)
unfolding own_sqlstate push_links
search_sqlstate graph zero pending visited = none
search_sqlstate graph (suc fuel) [] visited = some none
search_sqlstate graph (suc fuel) (current ∷ pending) visited =
    let skipped = search_sqlstate graph fuel pending visited in
    let followed =
      search_sqlstate graph fuel (push_links (graph current) pending) (current ∷ visited) in
    if ltb (length visited) 16
    then (if is_member current visited then skipped else elim (own_sqlstate (graph current)) [
      | some value ↦ some (some value)
      | none ↦ followed
    ])
    else some none

abbrev pub found : Option (Option String) → Option String
found none = none
found (some o) = o

-- Sixteen exceptions with three links each, and the first: never more than 50 rounds.
unfoldable pub get_sqlstate : Exceptions → ℕ → Option String
unfolding search_sqlstate
get_sqlstate graph error = found (search_sqlstate graph 50 (error ∷ []) [])

unfoldable pub has_sqlstate : Exceptions → ℕ → List String → Bool
unfolding get_sqlstate
has_sqlstate graph error codes = elim (get_sqlstate graph error) [
  | none ↦ false
  | some s ↦ is_among s codes
]

unfoldable pub is_constraint_violation : Exceptions → ℕ → Bool
is_constraint_violation graph error =
    has_sqlstate graph error ("23502" ∷ "23503" ∷ "23505" ∷ "23514" ∷ [])

unfoldable pub is_unique_violation : Exceptions → ℕ → Bool
is_unique_violation graph error = has_sqlstate graph error ("23505" ∷ [])

unfoldable pub is_foreign_key_violation : Exceptions → ℕ → Bool
is_foreign_key_violation graph error = has_sqlstate graph error ("23503" ∷ [])

unfoldable pub is_serialization_failure : Exceptions → ℕ → Bool
is_serialization_failure graph error = has_sqlstate graph error ("40001" ∷ [])

unfoldable pub is_deadlock : Exceptions → ℕ → Bool
is_deadlock graph error = has_sqlstate graph error ("40P01" ∷ [])

unfoldable pub is_lock_not_available : Exceptions → ℕ → Bool
is_lock_not_available graph error = has_sqlstate graph error ("55P03" ∷ [])

-- TRANSIENT_SQLSTATES
abbrev pub transient_sqlstates : List String
transient_sqlstates = "40001" ∷ "40P01" ∷ "57P01" ∷ "57P02" ∷ "57P03" ∷ []

unfoldable pub is_retryable_database_error : Exceptions → ℕ → Bool
is_retryable_database_error graph error =
    (graph error).is_dbapi_error && has_sqlstate graph error transient_sqlstates

push_few : (o : Option ℕ) (pending : List ℕ) → length (push o pending) ≤ length pending + 1
push_few none pending = omega arith
push_few (some x) pending = omega arith

links_few : (e : Exception) (pending : List ℕ) → length (push_links e pending) ≤ length pending + 3
unfolding push_links
links_few e pending =
    let first = push_few e.orig pending in
    let second = push_few e.cause (push e.orig pending) in
    let third = push_few e.context (push e.cause (push e.orig pending)) in omega arith

-- The search ends, on chains of exceptions with cycles as well.
search_ends :
    (graph : Exceptions) (fuel : ℕ) (pending visited : List ℕ)
    → length pending + 3 * (16 - length visited) < fuel
    → (o : Option String) × (search_sqlstate graph fuel pending visited ≡ some o)
unfolding search_sqlstate
search_ends graph zero pending visited h = ground arith
search_ends graph (suc fuel) [] visited h = (none, refl)
search_ends graph (suc fuel) (current ∷ pending) visited h =
    let few = links_few (graph current) pending in
    elim (Bool-cases (ltb (length visited) 16)) [
      | inr full ↦ (none, rw full refl)
      | inl room ↦ elim (Bool-cases (is_member current visited)) [
        | inl seen ↦
            let (o, rest) = search_ends graph fuel pending visited (ground arith) in
            (o, rw (room, seen) rest)
        | inr fresh ↦ elim (Option-cases (own_sqlstate (graph current))) [
          | inr (v, own) ↦ (some v, rw (room, fresh, own) refl)
          | inl no_own ↦
              let (o, rest) =
                search_ends graph fuel (push_links (graph current) pending) (current ∷ visited)
                  (ground arith) in
              (o, rw (room, fresh, no_own) rest)
        ]
      ]
    ]

-- The exceptions that the links lead to.
pub data Linked (graph : Exceptions) (error : ℕ) : ℕ → Type 0 where
  itself : Linked graph error error
  by_orig : {x y : ℕ} → Linked graph error x → (graph x).orig ≡ some y → Linked graph error y
  by_cause : {x y : ℕ} → Linked graph error x → (graph x).cause ≡ some y → Linked graph error y
  by_context : {x y : ℕ} → Linked graph error x → (graph x).context ≡ some y → Linked graph error y

module _ (graph : Exceptions) (error : ℕ) where
  push-All :
      (o : Option ℕ) (pending : List ℕ)
      → ((y : ℕ) → o ≡ some y → Linked graph error y)
      → All (Linked graph error) pending
      → All (Linked graph error) (push o pending)
  push-All none pending l h = h
  push-All (some y) pending l h = (l y refl, h)

  abbrev pub Carries : String → Type 0
  Carries v = (x : ℕ) × Linked graph error x × (own_sqlstate (graph x) ≡ some v)

  clash : {v : String} → ◌≡◌ {A = Option (Option String)} (some none) (some (some v)) → Carries v
  clash h = ground arith

  search_sound :
      (fuel : ℕ) (pending visited : List ℕ) (v : String)
      → All (Linked graph error) pending
      → search_sqlstate graph fuel pending visited ≡ some (some v)
      → Carries v
  unfolding search_sqlstate push_links
  search_sound zero pending visited v l h = ground arith
  search_sound (suc fuel) [] visited v l h = ground arith
  search_sound (suc fuel) (current ∷ pending) visited v l h =
      elim (Bool-cases (ltb (length visited) 16)) [
        | inr full ↦ clash (rw full at h)
        | inl room ↦ elim (Bool-cases (is_member current visited)) [
          | inl seen ↦ search_sound fuel pending visited v l.1 (rw (room, seen) at h)
          | inr fresh ↦ elim (Option-cases (own_sqlstate (graph current))) [
            | inr (w, own) ↦ (current, l.0, own ∙ ap found (rw (room, fresh, own) at h))
            | inl no_own ↦
                search_sound fuel (push_links (graph current) pending) (current ∷ visited) v
                  (push-All (graph current).context _ (λ y e. by_context l.0 e)
                    (push-All (graph current).cause _ (λ y e. by_cause l.0 e)
                      (push-All (graph current).orig pending (λ y e. by_orig l.0 e) l.1)))
                  (rw (room, fresh, no_own) at h)
          ]
        ]
      ]

  -- The search ends, on chains with cycles as well: never is more fuel needed. A code that it returns
  -- is carried by an exception that the links of `error` lead to.
  pub get_sqlstate_lem :
      ((o : Option String) × (search_sqlstate graph 50 (error ∷ []) [] ≡ some o))
      × ((v : String) → get_sqlstate graph error ≡ some v → Carries v)
  unfolding get_sqlstate
  get_sqlstate_lem =
      let (o, e) = search_ends graph 50 (error ∷ []) [] (omega arith) in
      (
        (o, e),
        λ v h. search_sound 50 (error ∷ []) [] v (itself, tt) (e ∙ ap some (sym (ap found e) ∙ h)),
      )
