-- ===== src/Repository/Reads.antt =====
-- The reading methods of `SyncRepository`. A query
-- returns the rows that pass all criteria of the statement, each entity once.
use prodkit_storage.Common.{
  is_nil, ℕ, Bool, true, not, ◌&&◌, Option, none, some, String, List, [], ◌∷◌, keep, length, take,
  Result, ok, err, value_error, not_found, no_result_found, multiple_results_found, ◌>>=◌, ◌>>◌,
  raise_if, ℤ, pos, pos_part, leb_ℤ,
}
use prodkit_storage.Repository.Statements.{
  RowLock, Model, Select, where_all, with_options, base_statement, get_statement, query,
}

module _ {E : Type 0} where
  abbrev pub passes : List (E → Bool) → E → Bool
  passes [] e = true
  passes (test ∷ tests) e = test e && passes tests e

  unfoldable pub selected : Select E → List E → List E
  selected st rows = keep (passes st.criteria) rows

  -- `scalar_one` and `scalar_one_or_none`
  abbrev pub scalar_one_or_none : List E → Result (Option E)
  scalar_one_or_none [] = ok none
  scalar_one_or_none (e ∷ []) = ok (some e)
  scalar_one_or_none (e ∷ f ∷ rest) = err multiple_results_found

  abbrev pub scalar_one : List E → Result E
  scalar_one [] = err no_result_found
  scalar_one (e ∷ []) = ok e
  scalar_one (e ∷ f ∷ rest) = err multiple_results_found

  unfoldable pub get_one : Select E → List E → Result E
  unfolding selected
  get_one st rows = scalar_one (selected st rows)

  unfoldable pub get_one_or_none : Select E → List E → Result (Option E)
  unfolding selected
  get_one_or_none st rows = scalar_one_or_none (selected st rows)

  unfoldable pub get_all : Select E → List E → List E
  unfolding selected
  get_all st rows = selected st rows

-- What a consumer of `stream` got, and whether the result is closed.
pub record Streamed (E : Type 0) : Type 0 where
  pub entities : List E
  pub closed : Bool

abbrev pub or_not_found : {E : Type 0} → Option E → Result E
or_not_found none = err not_found
or_not_found (some e) = ok e

module _ {E K : Type 0} (m : Model E K) where
  unfoldable pub get :
      K
      → (options : List String) (for_update nowait skip_locked : Bool) → Option RowLock
      → (include_deleted : Bool) → List E
      → Result (Option E)
  unfolding get_statement selected
  get identity options for_update nowait skip_locked lock include_deleted rows = do
    st ← get_statement m identity options for_update nowait skip_locked lock include_deleted
    scalar_one_or_none (selected st rows)

  unfoldable pub require :
      K
      → (options : List String) (for_update nowait skip_locked : Bool) → Option RowLock
      → (include_deleted : Bool) → List E
      → Result E
  unfolding get
  require identity options for_update nowait skip_locked lock include_deleted rows = do
    entity ← get identity options for_update nowait skip_locked lock include_deleted rows
    or_not_found entity

  unfoldable pub list : Option (Select E) → List String → Bool → List E → List E
  unfolding query selected
  list statement options include_deleted rows =
      selected (with_options options (query m statement include_deleted)) rows

  -- The consumer takes `n` entities at most, then closes the generator.
  unfoldable pub stream :
      Option (Select E) → (yield_per : ℤ) → Bool → (n : ℕ) → List E → Result (Streamed E)
  unfolding query selected
  stream statement yield_per include_deleted n rows =
      raise_if (leb_ℤ yield_per (pos 0)) value_error
      >> (let st = query m statement include_deleted in
          ok (record {
            entities = take n (selected (record st { yield_per = some (pos_part yield_per) }) rows);
            closed = true;
          }))

  unfoldable pub count : Option (Select E) → Bool → List E → ℕ
  unfolding query selected
  count statement include_deleted rows = length (selected (query m statement include_deleted) rows)

  unfoldable pub exists_in : List (E → Bool) → Bool → List E → Bool
  unfolding base_statement selected
  exists_in criteria include_deleted rows =
      not (is_nil (selected (where_all criteria (base_statement m include_deleted)) rows))
