-- ===== src/Pagination/Walk.antt =====
-- Following the cursors visits every row once, in order.
use prodkit_storage.Common.{
  ℕ, zero, suc, ◌+◌, ◌≤◌, ◌<◌, ◌≡◌, refl, sym, ◌∙◌, ap, true, false, inl, inr, Option, none, some,
  String, List, [], ◌∷◌, ◌++◌, map, All, length, take, drop, keep, ltb, pos, ok, IsIn, arith,
  take-append-drop, length-take, length-drop, Bool-cases, ==-refl,
}
use mathlib.Core.List.{append_assoc}
use prodkit_storage.Sorting.Defs.{ResolvedSortTerm, OrderElement, SortPlan, apply, boundary}
use prodkit_storage.Sorting.Boundary.{Sql, some_match, comes_before, values_from, boundary_exact}
use prodkit_storage.Sorting.Plans.{comes_before_asym, comes_before_irrefl}
use prodkit_storage.Pagination.Cursor.{Bytes, Primitives, decode_state-encode_state}
use prodkit_storage.Pagination.Pages.{
  Statement, Columns, read, same_text, validate_limit, row_values, coerce_all, state_boundary,
  fetch, cursor_at, build_sorted_page, paginate_sync, walk,
}
use prodkit_storage.Pagination.Values.{serialize, coerce, IsTyped, coerce-serialize, coerce-null}
use prodkit_storage.Pagination.Distinct.{IsDistinct, IsDistinct-take, IsDistinct-append}
use prodkit_storage.Pagination.Strict.{
  IsStrict, keep_after, last_split, take-take, keep_cong, take_all, keep-true, ltb_no, ltb_yes,
  ltb_lt, ltb_le, IsUnique, IsStrict-rows, limit_valid,
}

module _ {J : Type 0} (p : Primitives J) (secret : Bytes) (v : Columns J) (q : Sql)
    (st : Statement q) (plan : SortPlan) (fp : Option ℕ) where
  abbrev rows : List q.Row
  rows = st.rows (apply plan)

  same_text_refl : (o : Option ℕ) → same_text o o ≡ true
  same_text_refl none = refl
  same_text_refl (some s) = ==-refl s

  -- The values of a term's column are of the column's type, one that the cursor's conversions handle.
  abbrev pub IsReadBack : ResolvedSortTerm → Type 0
  IsReadBack t =
      (x : ℕ)
      → IsTyped v.python (v.python_type t.field.expression) (v.attribute t.field.expression x)

  coerce-read :
      (t : ResolvedSortTerm)
      → IsReadBack t
      → (x : Option ℕ)
      → coerce v.python
          (v.python_type t.field.expression)
          (serialize v.python (read p secret v q st plan fp t.field.expression x))
        ≡ ok (read p secret v q st plan fp t.field.expression x)
  coerce-read t typed none = coerce-null v.python (v.python_type t.field.expression)
  coerce-read t typed (some x) = coerce-serialize v.python (typed x)

  parameter-read : (c : ℕ) (x : Option ℕ) → v.parameter c (read p secret v q st plan fp c x) ≡ x
  parameter-read c none = v.parameter_none c
  parameter-read c (some x) = v.parameter-attribute c x

  coerce_all-row_values :
      (ts : List ResolvedSortTerm) (s : q.Row)
      → All IsReadBack ts
      → (coerce_all p secret v q st plan fp ts
            (map (serialize v.python) (row_values p secret v q st plan fp ts (values_from q ts s)))
          ≡ ok (values_from q ts s))
        × (length (
              map (serialize v.python) (row_values p secret v q st plan fp ts (values_from q ts s)))
            ≡ length ts)
  unfolding coerce_all row_values
  coerce_all-row_values [] s typed = (refl, refl)
  coerce_all-row_values (t ∷ ts) s typed =
      let (e, l) = coerce_all-row_values ts s typed.1 in
      (
        rw (coerce-read t typed.0 (q.value t.field.expression s))
            (rw (e, parameter-read t.field.expression (q.value t.field.expression s))),
        omega arith,
      )

  -- A cursor that this plan and query have made passes the checks.
  state_boundary_lem :
      (s : q.Row)
      → All IsReadBack plan.terms
      → state_boundary p secret v q st plan fp (record {
        sort_fingerprint = plan.fingerprint;
        values =
            map
              (serialize v.python)
              (row_values p secret v q st plan fp plan.terms (values_from q plan.terms s));
        query_fingerprint = fp;
      })
        ≡ boundary plan (values_from q plan.terms s)
  unfolding state_boundary
  state_boundary_lem s typed =
      let (e, l) = coerce_all-row_values plan.terms s typed in
      rw (==-refl plan.fingerprint, same_text_refl fp)
        (rw l (rw (==-refl (length plan.terms)) (rw e)))

  -- The cursor of a row leads to the rows behind it.
  fetch_after :
      (typed : All IsReadBack plan.terms) (distinct : IsDistinct st.same rows)
      (strict : IsStrict (comes_before q (apply plan)) rows) (pre : List q.Row) (s : q.Row)
      (ys : List q.Row) (limit : ℕ)
      → rows ≡ pre ++ s ∷ ys
      → fetch p secret v q st plan fp (some (cursor_at p secret v q st plan fp s)) limit
        ≡ ok (take (limit + 1) ys)
  unfolding fetch
  fetch_after typed distinct strict pre s ys limit e =
      let (alts, b, exact) = boundary_exact q plan s in
      let selected : st.scalars (λ r. some_match q alts r) (apply plan) (limit + 1)
          ≡ take (limit + 1) ys =
        st.scalars_lem (λ r. some_match q alts r) (apply plan) (limit + 1)
        ∙ ap (take (limit + 1)) (
            keep_cong (comes_before q (apply plan)) (λ r. some_match q alts r)
              (comes_before q (apply plan) s) exact rows
            ∙ ap (keep (comes_before q (apply plan) s)) e
            ∙ keep_after (comes_before q (apply plan)) (λ r t. comes_before_asym q (apply plan) r t)
                (comes_before_irrefl q (apply plan)) pre s ys (rw e at strict)) in
      let behind : IsDistinct st.same (s ∷ ys) =
        IsDistinct-append st.same pre (s ∷ ys) (rw e at distinct) in
      let kept : st.unique (take (limit + 1) ys) ≡ take (limit + 1) ys =
        st.unique_lem (take (limit + 1) ys) (IsDistinct-take st.same (limit + 1) ys behind.1) in
      rw
        ((decode_state-encode_state p v.python secret (record {
          sort_fingerprint = plan.fingerprint;
          values = row_values p secret v q st plan fp plan.terms (values_from q plan.terms s);
          query_fingerprint = fp;
        })).0)
        (rw (state_boundary_lem s typed)
          (rw b (ap (λ (l : List q.Row). ok l) (ap st.unique selected ∙ kept))))

  fetch_first :
      (limit : ℕ)
      → IsDistinct st.same rows
      → fetch p secret v q st plan fp none limit ≡ ok (take (limit + 1) rows)
  unfolding fetch
  fetch_first limit distinct =
      ap (λ (l : List q.Row). ok l)
        (ap st.unique (
            st.scalars_lem (λ r. true) (apply plan) (limit + 1)
            ∙ ap (take (limit + 1)) (keep-true (comes_before q (apply plan)) rows))
          ∙ st.unique_lem (take (limit + 1) rows)
              (IsDistinct-take st.same (limit + 1) rows distinct))

  page_last :
      (n : ℕ) (ys : List q.Row)
      → length ys ≤ n
      → build_sorted_page p secret v q st plan fp (take (n + 1) ys) n
        ≡ record { items = ys; next_cursor = none; has_more = false }
  unfolding build_sorted_page
  page_last n ys h =
      let all : take (n + 1) ys ≡ ys =
        take_all (comes_before q (apply plan)) (n + 1) ys (omega arith) in
      let items : take n ys ≡ ys = take_all (comes_before q (apply plan)) n ys h in
      rw all (rw items (rw (ltb_no n (length ys) h)))

  page_more :
      (n : ℕ) (ys : List q.Row)
      → 0 < n
      → n < length ys
      → (zs : List q.Row) × (t : q.Row) × (take n ys ≡ zs ++ t ∷ [])
        × (build_sorted_page p secret v q st plan fp (take (n + 1) ys) n ≡ record {
          items = take n ys;
          next_cursor = some (cursor_at p secret v q st plan fp t);
          has_more = true;
        })
  unfolding build_sorted_page
  page_more n ys pos_n h =
      let (zs, t, e, l) =
        last_split (comes_before q (apply plan)) (take n ys) (omega (arith, length-take n ys)) in
      let suc_n : n + 1 ≡ suc n = omega arith in
      (
        zs,
        t,
        e,
        rw suc_n (
            rw (take-take (comes_before q (apply plan)) n ys) (
              rw l (
                rw
                  (ltb_yes n (length (take (suc n) ys)) (omega (arith, length-take (suc n) ys)))))),
      )

  paginate_lem :
      (n : ℕ) (cursor : Option String) (rs : List q.Row)
      → validate_limit (pos n) ≡ ok tt
      → fetch p secret v q st plan fp cursor n ≡ ok rs
      → paginate_sync p secret v q st plan fp cursor (pos n)
        ≡ ok (build_sorted_page p secret v q st plan fp rs n)
  paginate_lem n cursor rs valid f = unfold paginate_sync in rw valid (rw f)

  regroup :
      (pre zs : List q.Row) (t : q.Row) (ds : List q.Row)
      → pre ++ ((zs ++ t ∷ []) ++ ds) ≡ (pre ++ zs) ++ t ∷ ds
  regroup pre zs t ds = simp append_assoc

  regroup_again :
      (pre zs : List q.Row) (t : q.Row) (ds : List q.Row)
      → (pre ++ zs) ++ t ∷ ds ≡ (pre ++ zs ++ t ∷ []) ++ ds
  regroup_again pre zs t ds = simp append_assoc

  -- From any point of the listing, the rest is visited.
  walk_from :
      (typed : All IsReadBack plan.terms) (distinct : IsDistinct st.same rows)
      (strict : IsStrict (comes_before q (apply plan)) rows) (n : ℕ)
      (valid : validate_limit (pos n) ≡ ok tt) (pos_n : 0 < n) (fuel : ℕ) (cursor : Option String)
      (pre ys : List q.Row)
      → rows ≡ pre ++ ys
      → fetch p secret v q st plan fp cursor n ≡ ok (take (n + 1) ys)
      → length ys < fuel
      → walk p secret v q st plan fp fuel cursor (pos n) ≡ ok ys
  unfolding walk
  walk_from typed distinct strict n valid pos_n zero cursor pre ys e f h = absurd (omega arith)
  walk_from typed distinct strict n valid pos_n (suc fuel) cursor pre ys e f h =
      elim (Bool-cases (ltb n (length ys))) [
        | inr fits ↦
            rw (paginate_lem n cursor (take (n + 1) ys) valid f)
              (rw (page_last n ys (ltb_le n (length ys) fits)))
        | inl more ↦
            let (zs, t, split, page) = page_more n ys pos_n (ltb_lt n (length ys) more) in
            let at : rows ≡ (pre ++ zs) ++ t ∷ drop n ys =
              e
              ∙ ap (λ (l : List q.Row). pre ++ l)
                  (sym (take-append-drop n ys) ∙ ap (λ (l : List q.Row). l ++ drop n ys) split)
              ∙ regroup pre zs t (drop n ys) in
            let rest : walk p secret v q st plan fp fuel
                  (some (cursor_at p secret v q st plan fp t)) (pos n)
                ≡ ok (drop n ys) =
              walk_from typed distinct strict n valid pos_n fuel
                (some (cursor_at p secret v q st plan fp t)) (pre ++ zs ++ t ∷ []) (drop n ys)
                (at ∙ regroup_again pre zs t (drop n ys))
                (fetch_after typed distinct strict (pre ++ zs) t (drop n ys) n at)
                (omega (arith, length-drop n ys, ltb_lt n (length ys) more)) in
            rw (paginate_lem n cursor (take (n + 1) ys) valid f)
              (rw page (rw rest (ap (λ (l : List q.Row). ok l) (take-append-drop n ys))))
      ]

  -- If no two rows share a value of one of the plan's columns, as with a unique tie-breaker, if no two rows are the same
  -- entity, and if the values in the plan's columns are of the columns' types and of one of the kinds that
  -- `_serialize` and `_coerce` both handle (UUIDs, datetimes, dates, `Decimal`, enumerations of plain values, and plain JSON
  -- values; so no times), then following the cursors from the first page visits every row of the statement exactly
  -- once and in the plan's order, for any page size that is allowed. Fuel for one page more than there are rows is enough.
  pub walk_complete :
      (n fuel : ℕ) (tie_breaker : OrderElement)
      → All IsReadBack plan.terms
      → IsDistinct st.same (st.rows (apply plan))
      → IsIn tie_breaker (apply plan)
      → IsUnique q tie_breaker (st.rows (apply plan))
      → 1 ≤ n
      → n ≤ 500
      → length (st.rows (apply plan)) < fuel
      → walk p secret v q st plan fp fuel none (pos n) ≡ ok (st.rows (apply plan))
  walk_complete n fuel tie_breaker typed distinct i u low high f =
      walk_from typed distinct
        (IsStrict-rows q (apply plan) tie_breaker i rows (st.rows_ordered (apply plan)) u) n
        (limit_valid n low high) low fuel none [] rows refl (fetch_first n distinct) f
