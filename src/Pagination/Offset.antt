-- ===== src/Pagination/Offset.antt =====
-- `paginate_offset_sync` and `paginate_offset_async`: numbered pages, with or without a total.
use prodkit_storage.Common.{
  ℕ, zero, suc, ◌+◌, ◌-◌, ◌*◌, ◌≤◌, ◌<◌, ◌≡◌, refl, ◌∙◌, ap, Bool, true, false, not, Option, none,
  some, List, [], ◌∷◌, ◌++◌, length, take, drop, ltb, ℤ, pos, pos_part, leb_ℤ, ceil_div, Result, ok,
  value_error, raise_if, ◌>>=◌, ◌>>◌, arith, length-take, length-drop, ◌↔◌,
}
use prodkit_storage.Pagination.Pages.{validate_limit}
use prodkit_storage.Pagination.Distinct.{IsDistinct, IsDistinct-take, IsDistinct-drop}

pub record OffsetPage (T : Type 0) : Type 0 where
  pub items : List T
  pub page : ℕ
  pub limit : ℕ
  pub total_count : Option ℕ
  pub total_pages : Option ℕ
  pub has_next_page : Bool
  pub has_previous_page : Bool

-- A statement on a table that stays as it is: `statement.offset(…).limit(…)`, and the count of its
-- rows as a subquery. `unique` is `unique().all()` of SQLAlchemy's result, which drops a row that is the same as an
-- earlier one, and so none of rows that differ.
pub record Source (T : Type 0) : Type 0 where
  pub rows : List T
  pub scalars : (offset limit : ℕ) → List T
  pub scalars_lem : (offset limit : ℕ) → scalars offset limit ≡ take limit (drop offset rows)
  pub same : T → T → Bool
  pub unique : List T → List T
  pub unique_lem : (xs : List T) → IsDistinct same xs → unique xs ≡ xs
  pub count : ℕ
  pub count_lem : count ≡ length rows

unfoldable pub validate_offset : ℤ → ℤ → Result (Unit {0})
validate_offset page limit = do
  raise_if (not (leb_ℤ (pos 1) page)) value_error
  validate_limit limit

abbrev pub pages_of : ℕ → Option ℕ → Option ℕ
pages_of limit none = none
pages_of limit (some total) = some (ceil_div total limit)

-- `_offset_page`
unfoldable pub offset_page :
    {T : Type 0} → List T → (page limit : ℕ) → Option ℕ → Bool → OffsetPage T
offset_page items page limit total_count has_next_page = record {
  items = items;
  page = page;
  limit = limit;
  total_count = total_count;
  total_pages = pages_of limit total_count;
  has_next_page = has_next_page;
  has_previous_page = ltb 1 page;
}

-- `_count_sync`: the caller's own count, if there is one.
abbrev pub count_of : {T : Type 0} → Source T → Option ℕ → ℕ
count_of s none = s.count
count_of s (some n) = n

-- The call behind its guards; `s.unique` is `_unique_scalars`.
unfoldable pub offset_rows :
    {T : Type 0} → Source T → (page limit : ℕ) → Bool → Option ℕ → OffsetPage T
unfolding offset_page
offset_rows s page limit true count_statement =
    let total_count = count_of s count_statement in
    let rows = s.unique (s.scalars ((page - 1) * limit) limit) in
    offset_page (take limit rows) page limit (some total_count)
      (ltb page (ceil_div total_count limit))
offset_rows s page limit false count_statement =
    let rows = s.unique (s.scalars ((page - 1) * limit) (limit + 1)) in
    offset_page (take limit rows) page limit none (ltb limit (length rows))

unfoldable pub paginate_offset_sync :
    {T : Type 0} → Source T → (page limit : ℤ) → Bool → Option ℕ → Result (OffsetPage T)
unfolding validate_offset offset_rows
paginate_offset_sync s page limit include_total count_statement = do
  validate_offset page limit
  ok (offset_rows s (pos_part page) (pos_part limit) include_total count_statement)

next_total :
    (page limit total : ℕ)
    → 1 ≤ limit
    → (ltb page (ceil_div total limit) ≡ true) ↔ (page * limit < total)
next_total page limit total h = grind arith

page_before : (page limit : ℕ) → 1 ≤ page → (page - 1) * limit + limit ≡ page * limit
page_before zero limit h = ground arith
page_before (suc page) limit h = grind arith

module _ {T : Type 0} where
  take_shorter : (n m : ℕ) (rs : List T) → n ≤ m → take n (take m rs) ≡ take n rs
  take_shorter zero m rs h = refl
  take_shorter (suc n) zero rs h = ground arith
  take_shorter (suc n) (suc m) [] h = refl
  take_shorter (suc n) (suc m) (x ∷ rs) h = ap (λ xs. x ∷ xs) (take_shorter n m rs (omega arith))

  -- The rows of a page, of which none is dropped.
  fetched :
      (s : Source T) (offset limit : ℕ)
      → IsDistinct s.same s.rows
      → s.unique (s.scalars offset limit) ≡ take limit (drop offset s.rows)
  fetched s offset limit d = rw (s.scalars_lem offset limit) (
      s.unique_lem (take limit (drop offset s.rows)) (
        IsDistinct-take s.same limit (drop offset s.rows) (IsDistinct-drop s.same offset s.rows d)))

  items_lem :
      (s : Source T) (page limit : ℕ) (total : Bool) (own : Option ℕ)
      → IsDistinct s.same s.rows
      → (offset_rows s page limit total own).items ≡ take limit (drop ((page - 1) * limit) s.rows)
  unfolding offset_rows offset_page
  items_lem s page limit true own d =
      ap (take limit) (fetched s ((page - 1) * limit) limit d)
      ∙ take_shorter limit limit (drop ((page - 1) * limit) s.rows) (omega arith)
  items_lem s page limit false own d =
      ap (take limit) (fetched s ((page - 1) * limit) (limit + 1) d)
      ∙ take_shorter limit (limit + 1) (drop ((page - 1) * limit) s.rows) (omega arith)

  has_next_lem :
      (s : Source T) (page limit : ℕ) (total : Bool)
      → IsDistinct s.same s.rows
      → 1 ≤ page
      → 1 ≤ limit
      → ((offset_rows s page limit total none).has_next_page ≡ true)
        ↔ (page * limit < length s.rows)
  unfolding offset_rows offset_page
  has_next_lem s page limit true d h k = rw s.count_lem (next_total page limit (length s.rows) k)
  has_next_lem s page limit false d h k = rw (fetched s ((page - 1) * limit) (limit + 1) d) (
      ground (
        arith,
        length-take (limit + 1) (drop ((page - 1) * limit) s.rows),
        length-drop ((page - 1) * limit) s.rows,
        page_before page limit h,
      ))

-- If the statement's rows are pairwise different: whether the total is counted or left out, a page shows the same rows
-- and has a next page exactly when there are rows behind it. The count is that of the statement, without one of
-- the caller's.
pub include_total_lem :
    {T : Type 0} (s : Source T) (page limit : ℕ) (include_total : Bool)
    → IsDistinct s.same s.rows
    → 1 ≤ page
    → 1 ≤ limit
    → ((offset_rows s page limit include_total none).items
        ≡ take limit (drop ((page - 1) * limit) s.rows))
      × (((offset_rows s page limit include_total none).has_next_page ≡ true)
          ↔ (page * limit < length s.rows))
include_total_lem s page limit include_total d h k =
    (items_lem s page limit include_total none d, has_next_lem s page limit include_total d h k)

module _ {T : Type 0} (s : Source T) (include_total : Bool) where
  -- What a client collects from the pages 1, …, `n`.
  unfoldable pub first_pages : (n limit : ℕ) → Result (List T)
  unfolding paginate_offset_sync
  first_pages zero limit = ok []
  first_pages (suc n) limit = do
    items ← first_pages n limit
    page ← paginate_offset_sync s (pos (suc n)) (pos limit) include_total none
    ok (items ++ page.items)
