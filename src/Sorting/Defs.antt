-- ===== src/Sorting/Defs.antt =====
-- Sort terms and plans. A column is a number, and a column's value is its rank in the column's own
-- order. SQLAlchemy's expressions are the data that the code builds.
use Prim.Native.Char.{code}
use prodkit_storage.Common.{
  ℕ, ◌==◌, Bool, Option, none, some, String, strip, List, [], ◌∷◌, ◌++◌, map, length, if◌then◌else◌,
  Result, ok, err, value_error,
}

pub data SortDirection : Type 0 where
  asc desc : SortDirection

pub data NullPlacement : Type 0 where
  first last : NullPlacement

pub record SortField : Type 0 where
  pub name : String
  pub expression : ℕ
  pub default_nulls : NullPlacement
  pub nullable : Bool
  pub unique : Bool

pub record SortTerm : Type 0 where
  pub field : String
  pub direction : SortDirection
  pub nulls : Option NullPlacement

abbrev named_term : SortDirection → String → Result SortTerm
named_term d String.[] = err value_error
named_term d (String.◌∷◌ c s) = ok (record { field = String.◌∷◌ c s; direction = d; nulls = none })

-- The sign in front of a stripped text.
abbrev signed_term : String → Result SortTerm
signed_term String.[] = err value_error
signed_term (String.◌∷◌ c s) =
    if code c == b'-'
    then named_term desc s
    else if code c == b'+'
    then named_term asc s
    else named_term asc (String.◌∷◌ c s)

-- `SortTerm.parse`
unfoldable pub parse : String → Result SortTerm
unfolding strip
parse value = signed_term (strip value)

unfoldable pub external_value : SortTerm → String
external_value t = elim t.direction [ asc ↦ t.field | desc ↦ String.◌∷◌ "-" t.field ]

pub record ResolvedSortTerm : Type 0 where
  pub field : SortField
  pub direction : SortDirection
  pub nulls : NullPlacement

-- The SQL conditions that a boundary is made of.
pub data Criterion : Type 0 where
  is_null is_not_null : ℕ → Criterion
  equals less greater : ℕ → ℕ → Criterion
  false_ : Criterion
  or_ : Criterion → Criterion → Criterion

-- One element of ORDER BY.
pub record OrderElement : Type 0 where
  pub column : ℕ
  pub direction : SortDirection
  pub nulls : NullPlacement

unfoldable pub order_by : ResolvedSortTerm → OrderElement
order_by t = record { column = t.field.expression; direction = t.direction; nulls = t.nulls }

unfoldable pub equality : ResolvedSortTerm → Option ℕ → Criterion
equality t none = is_null t.field.expression
equality t (some v) = equals t.field.expression v

abbrev compared : SortDirection → ℕ → ℕ → Criterion
compared desc column v = less column v
compared asc column v = greater column v

abbrev with_nulls : NullPlacement → ℕ → Criterion → Criterion
with_nulls last column c = or_ (is_null column) c
with_nulls first column c = c

abbrev after_null : NullPlacement → ℕ → Criterion
after_null first column = is_not_null column
after_null last column = false_

unfoldable pub after : ResolvedSortTerm → Option ℕ → Criterion
after t none = after_null t.nulls t.field.expression
after t (some v) = with_nulls t.nulls t.field.expression (compared t.direction t.field.expression v)

pub record SortPlan : Type 0 where
  pub terms : List ResolvedSortTerm
  pub fingerprint : ℕ

-- `SortPlan.apply`
unfoldable pub apply : SortPlan → List OrderElement
unfolding order_by
apply p = map order_by p.terms

-- The loop of `boundary`: for each term, the equal prefix and then the row after it. The result is
-- the disjunction of conjunctions that `or_(*(and_(*criteria)))` states.
unfoldable pub alternatives :
    List Criterion → List ResolvedSortTerm → List (Option ℕ) → List (List Criterion)
unfolding after equality
alternatives prefix [] values = []
alternatives prefix (t ∷ ts) [] = []
alternatives prefix (t ∷ ts) (v ∷ vs) =
    (prefix ++ after t v ∷ []) ∷ alternatives (prefix ++ equality t v ∷ []) ts vs

unfoldable pub boundary : SortPlan → List (Option ℕ) → Result (List (List Criterion))
unfolding alternatives
boundary p values =
    if length values == length p.terms then ok (alternatives [] p.terms values) else err value_error
