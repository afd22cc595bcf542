-- ===== src/Filtering/Defs.antt =====
-- The registry and the criteria that it builds. An expression is `X`, a value that is none of those the code tests for
-- is `other`, and a criterion is the call on the expression that builds it.

use prodkit_storage.Common.{
  is_nil, ℕ, Bool, true, false, not, ◌||◌, Option, none, some, String, ◌=?◌, is_empty, starts_with,
  List, [], ◌∷◌, ◌++◌, if◌then◌else◌, Result, ok, err, value_error, ◌>>=◌, ◌>>◌, raise_if, ◌==◌,
}

pub data FilterOperator : Type 0 where
  eq ne lt lte gt gte in_ not_in is_null contains starts_with_ ends_with : FilterOperator

-- The member's place in the class.
abbrev pub place : FilterOperator → ℕ
place eq = 0
place ne = 1
place lt = 2
place lte = 3
place gt = 4
place gte = 5
place in_ = 6
place not_in = 7
place is_null = 8
place contains = 9
place starts_with_ = 10
place ends_with = 11

abbrev pub allows : List FilterOperator → FilterOperator → Bool
allows [] operator = false
allows (o ∷ os) operator = place o == place operator || allows os operator

-- `str`, `bool`, another sequence than `str` and `bytes`, and all other values.
pub data Value (V : Type 0) : Type 0 where
  text : String → Value V
  boolean : Bool → Value V
  sequence : List V → Value V
  bytes : V → Value V
  other : V → Value V

pub record FilterField (X : Type 0) : Type 0 where
  pub name : String
  pub expression : X
  pub operators : List FilterOperator

pub record FilterTerm (V : Type 0) : Type 0 where
  pub field : String
  pub operator : FilterOperator
  pub value : Value V

pub data Criterion (X V : Type 0) : Type 0 where
  compare_ : (operator : FilterOperator) → X → Value V → Criterion X V
  among not_among : X → List V → Criterion X V
  null not_null : X → Criterion X V
  -- with `autoescape=True`
  like_contains like_starts like_ends : X → String → Criterion X V

-- `not name or name.startswith("_")`
abbrev pub is_private : String → Bool
is_private name = is_empty name || starts_with "_" name

-- An entry of the mapping: a field, or an expression that may be compared with `==` only.
pub data Entry (X : Type 0) : Type 0 where
  as_field : FilterField X → Entry X
  as_expression : X → Entry X

module _ {X : Type 0} where
  -- `FilterField.__post_init__`
  unfoldable pub filter_field : FilterField X → Result (FilterField X)
  unfolding starts_with
  filter_field f =
      raise_if (is_private f.name) value_error >> raise_if (is_nil f.operators) value_error >> ok f

  abbrev pub normalized_field : String → Entry X → Result (FilterField X)
  normalized_field name (as_field f) = ok f
  normalized_field name (as_expression x) =
      filter_field (record { name = name; expression = x; operators = eq ∷ [] })

  unfoldable pub normalize : List (String × Entry X) → Result (List (FilterField X))
  unfolding filter_field starts_with
  normalize [] = ok []
  normalize ((name, entry) ∷ rest) = do
    raise_if (is_private name) value_error
    field ← normalized_field name entry
    raise_if (not (field.name =? name)) value_error
    fields ← normalize rest
    ok (field ∷ fields)

  -- `FilterRegistry.__init__`. The mapping has no key twice.
  unfoldable pub filter_registry : List (String × Entry X) → Result (List (FilterField X))
  unfolding normalize
  filter_registry fields = raise_if (is_nil fields) value_error >> normalize fields

  -- `self._fields[name]`
  abbrev pub lookup : String → List (FilterField X) → Option (FilterField X)
  lookup name [] = none
  lookup name (f ∷ fs) = if f.name =? name then some f else lookup name fs

module _ {V : Type 0} where
  unfoldable pub require_sequence : Value V → Result (List V)
  require_sequence (sequence items) = ok items
  require_sequence _ = err value_error

  unfoldable pub require_string : Value V → Result String
  require_string (text s) = ok s
  require_string _ = err value_error

module _ {X V : Type 0} where
  abbrev pub null_test : X → Value V → Result (Criterion X V)
  null_test x (boolean true) = ok (null x)
  null_test x (boolean false) = ok (not_null x)
  null_test x _ = err value_error

  -- The `match` of `_resolve_term`.
  unfoldable pub criterion : FilterOperator → X → Value V → Result (Criterion X V)
  unfolding require_sequence require_string
  criterion eq x v = ok (compare_ eq x v)
  criterion ne x v = ok (compare_ ne x v)
  criterion lt x v = ok (compare_ lt x v)
  criterion lte x v = ok (compare_ lte x v)
  criterion gt x v = ok (compare_ gt x v)
  criterion gte x v = ok (compare_ gte x v)
  criterion in_ x v = require_sequence v >>= (λ items. ok (among x items))
  criterion not_in x v = require_sequence v >>= (λ items. ok (not_among x items))
  criterion is_null x v = null_test x v
  criterion contains x v = require_string v >>= (λ s. ok (like_contains x s))
  criterion starts_with_ x v = require_string v >>= (λ s. ok (like_starts x s))
  criterion ends_with x v = require_string v >>= (λ s. ok (like_ends x s))

  abbrev pub resolve_field : Option (FilterField X) → FilterTerm V → Result (Criterion X V)
  resolve_field none term = err value_error
  resolve_field (some f) term =
      raise_if (not (allows f.operators term.operator)) value_error
      >> criterion term.operator f.expression term.value

  unfoldable pub resolve_term : List (FilterField X) → FilterTerm V → Result (Criterion X V)
  unfolding criterion
  resolve_term fields term = resolve_field (lookup term.field fields) term

  unfoldable pub resolve :
      List (FilterField X) → List (FilterTerm V) → Result (List (Criterion X V))
  unfolding resolve_term
  resolve fields [] = ok []
  resolve fields (term ∷ terms) = do
    here ← resolve_term fields term
    rest ← resolve fields terms
    ok (here ∷ rest)

  -- `statement.where(*criteria)`, of a statement that is the list of its criteria.
  unfoldable pub apply :
      List (FilterField X)
      → List (Criterion X V)
      → List (FilterTerm V)
      → Result (List (Criterion X V))
  unfolding resolve
  apply fields statement terms = resolve fields terms >>= (λ criteria. ok (statement ++ criteria))
