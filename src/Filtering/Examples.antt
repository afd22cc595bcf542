-- ===== src/Filtering/Examples.antt =====
-- A registry of two fields, over expressions that are numbers.
use prodkit_storage.Common.{ℕ, true, String, List, [], ◌∷◌, ok, err, value_error, ◌≡◌, refl}
use prodkit_storage.Filtering.Defs.{
  eq, gt, is_null, text, boolean, FilterField, FilterTerm, Criterion, compare_, null, Entry,
  as_field, as_expression, filter_registry, resolve, apply,
}
use prodkit_storage.Filtering.Allowed.{AllAllowed, resolve_allowed}

abbrev age : FilterField ℕ
age = record { name = "age"; expression = 1; operators = gt ∷ is_null ∷ [] }

abbrev name : FilterField ℕ
name = record { name = "name"; expression = 2; operators = eq ∷ [] }

abbrev entries : List (String × Entry ℕ)
entries = ("age", as_field age) ∷ ("name", as_expression 2) ∷ []

abbrev terms : List (FilterTerm ℕ)
terms =
    record { field = "name"; operator = eq; value = text "x" }
    ∷ record { field = "age"; operator = is_null; value = boolean true }
    ∷ []

abbrev criteria : List (Criterion ℕ ℕ)
criteria = compare_ eq 2 (text "x") ∷ null 1 ∷ []

registered : filter_registry entries ≡ ok (age ∷ name ∷ [])
unfolding filter_registry
registered = refl

resolved : resolve (age ∷ name ∷ []) terms ≡ ok criteria
unfolding resolve
resolved = refl

applied : apply (age ∷ name ∷ []) [] terms ≡ ok criteria
unfolding apply
applied = refl

private_name : filter_registry {X = ℕ} (("_age", as_expression 1) ∷ []) ≡ err value_error
unfolding filter_registry
private_name = refl

resolve_allowed_example : AllAllowed (age ∷ name ∷ []) terms criteria
resolve_allowed_example =
    resolve_allowed entries (age ∷ name ∷ []) terms criteria registered resolved
