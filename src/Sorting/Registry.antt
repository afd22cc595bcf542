-- ===== src/Sorting/Registry.antt =====
-- `SortRegistry`: public names resolved into a plan that ends in a unique tie-breaker. The fingerprint
-- of a plan, SHA-256 of its JSON form, is an argument `digest`.
use Prim.Native.Char.{code}
use prodkit_storage.Common.{
  is_among, ℕ, Bool, true, false, not, ◌||◌, ◌==◌, Option, none, some, String, ◌=?◌, strip, List,
  [], ◌∷◌, ◌++◌, map, if◌then◌else◌, last, Result, ok, err, value_error, raise_if, ◌>>=◌, ◌>>◌,
}
use prodkit_storage.Sorting.Defs.{
  SortField, SortTerm, SortDirection, NullPlacement, ResolvedSortTerm, SortPlan, parse,
}

-- A column, with the attributes that the registry reads.
pub record Column : Type 0 where
  pub expression : ℕ
  pub nullable : Bool
  pub unique : Bool
  pub primary_key : Bool

abbrev pub or_given : Option Bool → Bool → Bool
or_given none b = b
or_given (some b) other = b

abbrev pub is_private : String → Bool
is_private String.[] = true
is_private (String.◌∷◌ c s) = code c == 95

-- `SortField(…)` with `__post_init__`
unfoldable pub sort_field :
    String → Column → NullPlacement → (nullable unique : Option Bool) → Result SortField
sort_field name column default_nulls nullable unique = do
  raise_if (is_private name) value_error
  ok (record {
    name = name;
    expression = column.expression;
    default_nulls = default_nulls;
    nullable = or_given nullable column.nullable;
    unique = or_given unique (column.unique || column.primary_key);
  })

-- A field or a column; a term or its text.
pub data GivenField : Type 0 where
  ready : SortField → GivenField
  column : Column → GivenField

pub data GivenTerm : Type 0 where
  term : SortTerm → GivenTerm
  text : String → GivenTerm

pub record SortRegistry : Type 0 where
  pub name : String
  pub fields : List (String × SortField)
  pub default : List SortTerm
  pub tie_breaker_was_string : Bool
  pub tie_breaker : SortTerm

unfoldable pub normalize_term : GivenTerm → Result SortTerm
unfolding parse
normalize_term (term t) = ok t
normalize_term (text s) = parse s

unfoldable pub normalize_all : List GivenTerm → Result (List SortTerm)
unfolding normalize_term
normalize_all [] = ok []
normalize_all (t ∷ ts) = do x ← normalize_term t; xs ← normalize_all ts; ok (x ∷ xs)

abbrev pub normalize_field : String → GivenField → Result SortField
normalize_field name (ready f) = ok f
normalize_field name (column c) = sort_field name c NullPlacement.last none none

-- The loop of `__init__` over the fields.
unfoldable pub normalize_fields : List (String × GivenField) → Result (List (String × SortField))
unfolding sort_field
normalize_fields [] = ok []
normalize_fields ((name, given) ∷ rest) = do
  f ← normalize_field name given
  raise_if (not (f.name =? name)) value_error
  fs ← normalize_fields rest
  ok ((name, f) ∷ fs)

-- `_require_field`
unfoldable pub require_field : List (String × SortField) → String → Result SortField
require_field [] name = err value_error
require_field ((key, f) ∷ fields) name = if key =? name then ok f else require_field fields name

abbrev pub nulls_or : Option NullPlacement → NullPlacement → NullPlacement
nulls_or none d = d
nulls_or (some n) d = n

abbrev pub resolved : SortField → SortDirection → Option NullPlacement → ResolvedSortTerm
resolved f d n = record { field = f; direction = d; nulls = nulls_or n f.default_nulls }

-- The loop of `resolve`: the terms that are resolved, and the names that are seen behind it.
unfoldable pub resolve_terms :
    List (String × SortField)
    → (seen : List String) → List SortTerm
    → Result (List ResolvedSortTerm × List String)
unfolding require_field
resolve_terms fields seen [] = ok ([], seen)
resolve_terms fields seen (t ∷ ts) = do
  raise_if (is_among t.field seen) value_error
  f ← require_field fields t.field
  rest ← resolve_terms fields (t.field ∷ seen) ts
  ok (resolved f t.direction t.nulls ∷ rest.0, rest.1)

abbrev pub direction_or : Option ResolvedSortTerm → SortDirection → SortDirection
direction_or none d = d
direction_or (some t) d = t.direction

-- `[…] or default`
abbrev pub or_default : List SortTerm → List SortTerm → List SortTerm
or_default [] d = d
or_default (t ∷ ts) d = t ∷ ts

-- The terms of the plan: the tie-breaker is added, unless it is among them. As a text it takes the
-- direction of the last term.
unfoldable pub with_tie_breaker :
    SortRegistry → List ResolvedSortTerm → List String → Result (List ResolvedSortTerm)
with_tie_breaker r terms seen = if is_among r.tie_breaker.field seen then ok terms else (do
  f ← require_field r.fields r.tie_breaker.field
  ok (
      terms
      ++ resolved f
          (if r.tie_breaker_was_string
            then direction_or (last terms) r.tie_breaker.direction
            else r.tie_breaker.direction)
          r.tie_breaker.nulls
        ∷ []))

unfoldable pub resolve :
    (digest : String → List ResolvedSortTerm → ℕ) → SortRegistry → List GivenTerm → Result SortPlan
unfolding normalize_all resolve_terms with_tie_breaker
resolve digest r given = do
  normalized ← normalize_all given
  done ← resolve_terms r.fields [] (or_default normalized r.default)
  terms ← with_tie_breaker r done.0 done.1
  ok (record { terms = terms; fingerprint = digest r.name terms })

abbrev pub name_or : String → String
name_or String.[] = "default"
name_or (String.◌∷◌ c s) = String.◌∷◌ c s

abbrev pub is_text : GivenTerm → Bool
is_text (term t) = false
is_text (text s) = true

abbrev pub none_given : {A : Type 0} → List A → Bool
none_given [] = true
none_given (x ∷ xs) = false

-- The end of `__init__`, for the field of the tie-breaker.
unfoldable pub tie_checked :
    (digest : String → List ResolvedSortTerm → ℕ) → SortRegistry → SortField → Result SortRegistry
unfolding resolve
tie_checked digest r tie_field = do
  raise_if tie_field.nullable value_error
  raise_if (not tie_field.unique) value_error
  plan ← resolve digest r (map term r.default)
  ok r

-- The attributes that `__init__` sets.
unfoldable pub registry_of :
    String → List (String × SortField) → List SortTerm → GivenTerm → SortTerm → SortRegistry
unfolding strip
registry_of name fields default tie_breaker tie = record {
  name = name_or (strip name);
  fields = fields;
  default = default;
  tie_breaker_was_string = is_text tie_breaker;
  tie_breaker = tie;
}

-- `__init__`
unfoldable pub registry :
    (digest : String → List ResolvedSortTerm → ℕ)
    → List (String × GivenField)
    → (default : List GivenTerm) (tie_breaker : GivenTerm) (name : String) → Result SortRegistry
unfolding normalize_fields tie_checked registry_of
registry digest fields default tie_breaker name = do
  raise_if (none_given fields) value_error
  normalized ← normalize_fields fields
  terms ← normalize_all default
  raise_if (none_given terms) value_error
  tie ← normalize_term tie_breaker
  tie_field ← require_field normalized tie.field
  tie_checked digest (registry_of name normalized terms tie_breaker tie) tie_field
