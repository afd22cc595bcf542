-- ===== src/Sorting/Examples.antt =====
-- Conditions over rows of numbers, and a plan with a nullable column and a tie-breaker.
use prodkit_storage.Sorting.Registry.{Column, GivenField, text, SortRegistry, registry, resolve}
use prodkit_storage.Sorting.TieBreaker.{resolve_unique}
use prodkit_storage.Common.{
  IsIn, ℕ, zero, suc, ◌==◌, ◌≡◌, refl, Bool, true, false, ◌||◌, Option, none, some, List, [], ◌∷◌,
  ltb, ok, err, value_error, String,
}
use prodkit_storage.Sorting.Defs.{
  asc, desc, last, SortField, ResolvedSortTerm, parse, Criterion, is_null, is_not_null, equals,
  less, greater, false_, or_, SortPlan, apply, boundary,
}
use prodkit_storage.Sorting.Boundary.{Sql, some_match, comes_before, values_from, boundary_exact}

abbrev pub Cells : Type 0
Cells = List (Option ℕ)

abbrev pub cell : ℕ → Cells → Option ℕ
cell n [] = none
cell zero (v ∷ vs) = v
cell (suc n) (v ∷ vs) = cell n vs

abbrev pub holds : Criterion → Cells → Bool
holds (is_null c) r = elim (cell c r) [ none ↦ true | some x ↦ false ]
holds (is_not_null c) r = elim (cell c r) [ none ↦ false | some x ↦ true ]
holds (equals c v) r = elim (cell c r) [ none ↦ false | some x ↦ x == v ]
holds (less c v) r = elim (cell c r) [ none ↦ false | some x ↦ ltb x v ]
holds (greater c v) r = elim (cell c r) [ none ↦ false | some x ↦ ltb v x ]
holds false_ r = false
holds (or_ a b) r = holds a r || holds b r

abbrev pub numbers : Sql
numbers = record {
  Row = Cells;
  value = cell;
  matches = holds;
  matches-is_null = λ c r. refl;
  matches-is_not_null = λ c r. refl;
  matches-equals = λ c v r. refl;
  matches-less = λ c v r. refl;
  matches-greater = λ c v r. refl;
  matches-false = λ r. refl;
  matches-or = λ a b r. refl;
}

abbrev pub column : String → ℕ → Bool → SortField
column name c nullable = record {
  name = name;
  expression = c;
  default_nulls = last;
  nullable = nullable;
  unique = true;
}

abbrev pub plan : SortPlan
plan = record {
  terms =
      record { field = column "price" 0 true; direction = desc; nulls = last }
      ∷ record { field = column "id" 1 false; direction = asc; nulls = last }
      ∷ [];
  fingerprint = 77;
}

parse_desc : parse " -price " ≡ ok (record { field = "price"; direction = desc; nulls = none })
unfolding parse
parse_desc = refl

parse_sign : parse "-" ≡ err value_error
unfolding parse
parse_sign = refl

boundary_exact_example :
    (alts : List (List Criterion)) × (boundary plan
        (values_from numbers plan.terms (some 5 ∷ some 1 ∷ []))
      ≡ ok alts)
    × ((r : Cells)
        → some_match numbers alts r ≡ comes_before numbers (apply plan) (some 5 ∷ some 1 ∷ []) r)
boundary_exact_example = boundary_exact numbers plan (some 5 ∷ some 1 ∷ [])

abbrev column_field : String → ℕ → (nullable unique : Bool) → SortField
column_field name c nullable unique = record {
  name = name;
  expression = c;
  default_nulls = last;
  nullable = nullable;
  unique = unique;
}

abbrev price_column : Column
price_column = record { expression = 0; nullable = true; unique = false; primary_key = false }

abbrev id_column : Column
id_column = record { expression = 1; nullable = false; unique = false; primary_key = true }

abbrev two_columns : List (String × GivenField)
two_columns = ("price", GivenField.column price_column) ∷ ("id", GivenField.column id_column) ∷ []

abbrev no_digest : String → List ResolvedSortTerm → ℕ
no_digest name terms = 0

abbrev shop : SortRegistry
shop = record {
  name = "default";
  fields =
      ("price", column_field "price" 0 true false) ∷ ("id", column_field "id" 1 false true) ∷ [];
  default = record { field = "price"; direction = desc; nulls = none } ∷ [];
  tie_breaker_was_string = true;
  tie_breaker = record { field = "id"; direction = asc; nulls = none };
}

shop_built : registry no_digest two_columns (text "-price" ∷ []) (text "id") " " ≡ ok shop
unfolding registry
shop_built = refl

abbrev by_price : SortPlan
by_price = record {
  terms =
      record { field = column_field "price" 0 true false; direction = desc; nulls = last }
      ∷ record { field = column_field "id" 1 false true; direction = desc; nulls = last }
      ∷ [];
  fingerprint = 0;
}

shop-by_price : resolve no_digest shop [] ≡ ok by_price
unfolding resolve
shop-by_price = refl

resolve_unique_example :
    (t : ResolvedSortTerm) × IsIn t by_price.terms
    × (t.field.nullable ≡ false)
    × (t.field.unique ≡ true)
resolve_unique_example =
    resolve_unique no_digest two_columns (text "-price" ∷ []) (text "id") " " shop [] by_price
      shop_built shop-by_price
