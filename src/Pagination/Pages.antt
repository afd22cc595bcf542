-- ===== src/Pagination/Pages.antt =====
-- `paginate_sync` and `paginate_async` over a sort plan: the query of a page and the page's cursor.
use prodkit_storage.Common.{
  ℕ, suc, ◌+◌, ◌==◌, ◌≡◌, Bool, true, false, ◌&&◌, not, Option, none, some, String, List, [], ◌∷◌,
  ◌++◌, length, take, keep, last, if◌then◌else◌, ltb, ℤ, pos, pos_part, leb_ℤ, Result, ok, err,
  value_error, raise_if, ◌>>=◌, ◌>>◌, All, zero, assertion_error,
}
use prodkit_storage.Sorting.Defs.{
  ResolvedSortTerm, OrderElement, Criterion, SortPlan, apply, boundary,
}
use prodkit_storage.Sorting.Boundary.{Sql, some_match, comes_before, values_from}
use prodkit_storage.Pagination.Values.{Value, plain, PythonType, Python, coerce}
use prodkit_storage.Pagination.Distinct.{IsDistinct}
use prodkit_storage.Pagination.Cursor.{Bytes, Primitives, CursorState, encode_state, decode_state}

pub record CursorPage (T : Type 0) : Type 0 where
  pub items : List T
  pub next_cursor : Option String
  pub has_more : Bool

-- The rows that a statement selects, in the order of ORDER BY: no row stands behind one that it comes
-- before. `scalars` is `statement.where(…).order_by(…).limit(…)`, run on a table that stays as it is.
abbrev pub IsOrdered : {T : Type 0} → (T → T → Bool) → List T → Type 0
IsOrdered f [] = Unit
IsOrdered f (r ∷ rs) = All (λ s. f s r ≡ false) rs × IsOrdered f rs

pub record Statement (q : Sql) : Type 0 where
  pub rows : List OrderElement → List q.Row
  pub rows_ordered : (o : List OrderElement) → IsOrdered (comes_before q o) (rows o)
  pub scalars : (q.Row → Bool) → List OrderElement → ℕ → List q.Row
  pub scalars_lem :
      (where_ : q.Row → Bool) (o : List OrderElement) (limit : ℕ)
      → scalars where_ o limit ≡ take limit (keep where_ (rows o))
  -- `unique().all()` of the result: it drops a row that is the same as an earlier one, and so none of rows that differ
  pub same : q.Row → q.Row → Bool
  pub unique : List q.Row → List q.Row
  pub unique_lem : (rs : List q.Row) → IsDistinct same rs → unique rs ≡ rs

-- The plan's columns: what `getattr` reads from a row that has a value there, and the value that a parameter of a
-- condition stands for. A parameter that was read from a row stands for the row's value.
pub record Columns (J : Type 0) : Type 0 where
  pub python : Python J
  pub python_type : ℕ → Option PythonType
  pub attribute : ℕ → ℕ → Value J
  pub parameter : ℕ → Value J → Option ℕ
  pub parameter_none : (c : ℕ) → parameter c (plain python.null) ≡ none
  pub parameter-attribute : (c x : ℕ) → parameter c (attribute c x) ≡ some x

abbrev pub same_text : Option ℕ → Option ℕ → Bool
same_text none none = true
same_text (some s) (some t) = s == t
same_text none (some t) = false
same_text (some s) none = false

unfoldable pub validate_limit : ℤ → Result (Unit {0})
validate_limit limit = raise_if (not (leb_ℤ (pos 1) limit && leb_ℤ limit (pos 500))) value_error

module _ {J : Type 0} (p : Primitives J) (secret : Bytes) (v : Columns J) (q : Sql)
    (st : Statement q) (plan : SortPlan) (query_fingerprint : Option ℕ) where
  abbrev pub read : ℕ → Option ℕ → Value J
  read c none = plain v.python.null
  read c (some x) = v.attribute c x

  unfoldable pub row_values : List ResolvedSortTerm → List (Option ℕ) → List (Value J)
  row_values [] vs = []
  row_values (t ∷ ts) [] = []
  row_values (t ∷ ts) (x ∷ vs) = read t.field.expression x ∷ row_values ts vs

  unfoldable pub coerce_all : List ResolvedSortTerm → List J → Result (List (Option ℕ))
  unfolding coerce
  coerce_all [] js = ok []
  coerce_all (t ∷ ts) [] = ok []
  coerce_all (t ∷ ts) (j ∷ js) = do
    x ← coerce v.python (v.python_type t.field.expression) j
    xs ← coerce_all ts js
    ok (v.parameter t.field.expression x ∷ xs)

  -- The WHERE clause that a cursor's state adds.
  unfoldable pub state_boundary : CursorState J → Result (List (List Criterion))
  unfolding coerce_all
  state_boundary state = do
    raise_if (not (state.sort_fingerprint == plan.fingerprint)) value_error
    raise_if (not (same_text state.query_fingerprint query_fingerprint)) value_error
    raise_if (not (length state.values == length plan.terms)) value_error
    values ← coerce_all plan.terms state.values
    boundary plan values

  -- The rest of `_prepare_sorted_query`, the query's run, and `_unique_scalars` of its result.
  unfoldable pub fetch : Option String → ℕ → Result (List q.Row)
  unfolding state_boundary
  fetch none limit = ok (st.unique (st.scalars (λ r. true) (apply plan) (limit + 1)))
  fetch (some cursor) limit = do
    state ← decode_state p secret cursor
    alternatives ← state_boundary state
    ok (st.unique (st.scalars (λ r. some_match q alternatives r) (apply plan) (limit + 1)))

  abbrev pub cursor_at : q.Row → String
  cursor_at row = encode_state p v.python secret (record {
    sort_fingerprint = plan.fingerprint;
    values = row_values plan.terms (values_from q plan.terms row);
    query_fingerprint = query_fingerprint;
  })

  abbrev pub cursor_after : Option q.Row → Option String
  cursor_after none = none
  cursor_after (some row) = some (cursor_at row)

  -- `_build_sorted_page`
  unfoldable pub build_sorted_page : List q.Row → ℕ → CursorPage q.Row
  unfolding row_values
  build_sorted_page rows limit =
      let has_more = ltb limit (length rows) in
      let items = take limit rows in
      record {
        items = items;
        next_cursor = if has_more then cursor_after (last items) else none;
        has_more = has_more;
      }

  unfoldable pub paginate_sync : Option String → ℤ → Result (CursorPage q.Row)
  unfolding validate_limit fetch build_sorted_page
  paginate_sync cursor limit = do
    validate_limit limit
    rows ← fetch cursor (pos_part limit)
    ok (build_sorted_page rows (pos_part limit))

  -- A client that follows the cursors until a page has none, and appends the pages. It raises when it
  -- has asked for `fuel` pages and is not done.
  unfoldable pub walk : ℕ → Option String → ℤ → Result (List q.Row)
  walk zero cursor limit = err assertion_error
  walk (suc fuel) cursor limit = do
    page ← paginate_sync cursor limit
    elim page.next_cursor [
      | none ↦ ok page.items
      | some next ↦ walk fuel (some next) limit >>= λ rest. ok (page.items ++ rest)
    ]
