-- ===== src/Repository/Visible.antt =====
-- What the repository's queries see, and what `delete` does to it.
use prodkit_storage.Common.{
  ℕ, Bool, true, false, not, ◌&&◌, none, some, List, [], ◌∷◌, keep, ok, err, not_found, ◌>>=◌, ◌≡◌,
  refl, ap, ◌∙◌, inl, inr, Bool-cases,
}
use prodkit_storage.Repository.Statements.{
  Model, not_deleted, base_statement, apply_soft_delete, get_statement, identity_is,
}
use prodkit_storage.Repository.Reads.{
  selected, get, require, count, scalar_one_or_none, or_not_found,
}
use prodkit_storage.Repository.Writes.{Session, soft_delete, delete}
use prodkit_storage.Repository.Rows.{
  Keyed, Follows, IsUnique, put, without, has_identity, keep-put_other, keep-put_same, keep-without,
  keep-without_other,
}

module _ {E K : Type 0} (m : Model E K) where
  -- The test of the statement of `get`, on a class with soft deletion.
  abbrev pub live_with : K → E → Bool
  live_with identity e = not_deleted m e && (has_identity m identity e && true)

  abbrev pub any_with : K → E → Bool
  any_with identity e = has_identity m identity e && true

  get-live :
      (identity : K) (rows : List E)
      → m.has_id ≡ true
      → m.soft_deletes ≡ true
      → get m identity [] false false false none false rows
        ≡ scalar_one_or_none (keep (live_with identity) rows)
  unfolding get get_statement base_statement apply_soft_delete identity_is selected
  get-live identity rows id soft = rw (id, soft)

  get-any :
      (identity : K) (rows : List E)
      → m.has_id ≡ true
      → get m identity [] false false false none true rows
        ≡ scalar_one_or_none (keep (any_with identity) rows)
  unfolding get get_statement base_statement apply_soft_delete identity_is selected
  get-any identity rows id = rw id

  module _ (keyed : Keyed m) where
    live_with-deleted : (j : K) (t : ℕ) (e : E) → live_with j (m.set_deleted_at (some t) e) ≡ false
    live_with-deleted j t e = rw (keyed.deleted_set (some t) e)

    any_with-apart :
        (i j : K) (x : E) → m.same_id i j ≡ false → has_identity m i x ≡ true → any_with j x ≡ false
    any_with-apart i j x apart hit = rw (keyed.same_trans (m.identity x) i j hit ∙ apart)

    live_with-apart :
        (i j : K) (x : E)
        → m.same_id i j ≡ false
        → has_identity m i x ≡ true
        → live_with j x ≡ false
    live_with-apart i j x apart hit = elim (Bool-cases (not_deleted m x)) [
      | inl kept ↦ rw (kept, any_with-apart i j x apart hit)
      | inr gone ↦ rw gone
    ]

    live_with-miss : (i : K) (x : E) → has_identity m i x ≡ false → live_with i x ≡ false
    live_with-miss i x miss = elim (Bool-cases (not_deleted m x)) [
      | inl kept ↦ rw (kept, miss)
      | inr gone ↦ rw gone
    ]

    any_with-miss : (i : K) (x : E) → has_identity m i x ≡ false → any_with i x ≡ false
    any_with-miss i x miss = rw miss

    any_with-written :
        (e : E) (now : ℕ) → any_with (m.identity e) (m.set_deleted_at (some now) e) ≡ true
    any_with-written e now =
        ap (λ k. m.same_id k (m.identity e) && true) (keyed.identity_set (some now) e)
        ∙ ap (λ b. b && true) (keyed.same_refl (m.identity e))

    -- The three queries after an entity of identity `i` is written as deleted.
    module _ (e : E) (now : ℕ) (rows : List E) where
      keep-live_deleted :
          IsUnique m rows
          → keep
              (live_with (m.identity e))
              (put m (m.identity e) (m.set_deleted_at (some now) e) rows)
            ≡ []
      keep-live_deleted unique =
          keep-put_same m keyed (live_with (m.identity e)) (m.identity e)
            (m.set_deleted_at (some now) e) rows (live_with-miss (m.identity e)) unique
          ∙ rw (live_with-deleted (m.identity e) now e)

      keep-any_deleted :
          IsUnique m rows
          → keep
              (any_with (m.identity e))
              (put m (m.identity e) (m.set_deleted_at (some now) e) rows)
            ≡ m.set_deleted_at (some now) e ∷ []
      keep-any_deleted unique =
          keep-put_same m keyed (any_with (m.identity e)) (m.identity e)
            (m.set_deleted_at (some now) e) rows (any_with-miss (m.identity e)) unique
          ∙ rw (any_with-written e now)

      keep-live_other :
          (j : K)
          → m.same_id (m.identity e) j ≡ false
          → keep (live_with j) (put m (m.identity e) (m.set_deleted_at (some now) e) rows)
            ≡ keep (live_with j) rows
      keep-live_other j apart =
          keep-put_other m keyed (live_with j) (m.identity e) (m.set_deleted_at (some now) e) rows
            (live_with-deleted j now e) (λ x. live_with-apart (m.identity e) j x apart)

  require-get :
      (i : K) (rows : List E)
      → require m i [] false false false none false rows
        ≡ (get m i [] false false false none false rows >>= or_not_found)
  unfolding require
  require-get i rows = refl

  module _ {S V : Type 0} (session : Session S E V) where
    rows_soft :
        (keyed : Keyed m) (follows : Follows m session) (e : E) (now : ℕ) (s : S)
        → m.is_soft e ≡ true
        → follows.is_clean s ≡ true
        → session.rows (session.flush (delete session m e false now s))
          ≡ put m (m.identity e) (m.set_deleted_at (some now) e) (session.rows s)
    unfolding delete soft_delete
    rows_soft keyed follows e now s is_soft clean =
        let written = follows.flush_add (m.set_deleted_at (some now) e) s clean in
        rw is_soft (rw (keyed.identity_set (some now) e) at written)

    rows_hard :
        (follows : Follows m session) (e : E) (now : ℕ) (s : S)
        → follows.is_clean s ≡ true
        → session.rows (session.flush (delete session m e true now s))
          ≡ without m (m.identity e) (session.rows s)
    unfolding delete
    rows_hard follows e now s clean = elim (Bool-cases (m.is_soft e)) [
      | inl soft ↦ rw soft (follows.flush_delete e s clean)
      | inr plain ↦ rw plain (follows.flush_delete e s clean)
    ]

    rows_pending :
        (follows : Follows m session) (e : E) (hard : Bool) (now : ℕ) (s : S)
        → session.rows (delete session m e hard now s) ≡ session.rows s
    unfolding delete soft_delete
    rows_pending follows e hard now s = elim (Bool-cases (m.is_soft e && not hard)) [
      | inl soft ↦ rw soft (follows.rows_add (m.set_deleted_at (some now) e) s)
      | inr gone ↦ rw gone (follows.rows_delete e s)
    ]

    -- `delete` in a session without autoflush, whether hard or not: until the flush, the repository counts the same rows
    -- as before, deleted ones included or not.
    delete_pending :
        (follows : Follows m session) (e : E) (hard include_deleted : Bool) (now : ℕ) (s : S)
        → count m none include_deleted (session.rows (delete session m e hard now s))
          ≡ count m none include_deleted (session.rows s)
    delete_pending follows e hard include_deleted now s =
        ap (count m none include_deleted) (rows_pending follows e hard now s)

    -- `delete` without `hard`, of an entity with soft deletion, in a class with soft deletion and an `id`, when no two rows
    -- have one identity and the session has no other pending change. The deletion is pending, and `count` is as before.
    -- After the session's flush, `require` of its identity raises `NotFoundError`, `get` with `include_deleted`
    -- returns it with the time of the deletion, and `get` of another identity returns what it returned before.
    pub delete_soft :
        (keyed : Keyed m) (follows : Follows m session) (e : E) (now : ℕ) (j : K) (s : S)
        → m.has_id ≡ true
        → m.soft_deletes ≡ true
        → m.is_soft e ≡ true
        → follows.is_clean s ≡ true
        → IsUnique m (session.rows s)
        → m.same_id (m.identity e) j ≡ false
        → let deleted = delete session m e false now s in
          let after = session.rows (session.flush deleted) in
          (count m none false (session.rows deleted) ≡ count m none false (session.rows s))
          × (require m (m.identity e) [] false false false none false after ≡ err not_found)
          × (get m (m.identity e) [] false false false none true after
              ≡ ok (some (soft_delete m none now e)))
          × (get m j [] false false false none false after
              ≡ get m j [] false false false none false (session.rows s))
    unfolding soft_delete
    delete_soft keyed follows e now j s id soft is_soft clean unique apart =
        let i = m.identity e in
        let rows = session.rows s in
        let flushed = rows_soft keyed follows e now s is_soft clean in
        (
          delete_pending follows e false false now s,
          rw (
            flushed,
            require-get i,
            get-live i _ id soft,
            keep-live_deleted keyed e now rows unique,
          ),
          rw (flushed, get-any i _ id, keep-any_deleted keyed e now rows unique),
          rw (
            flushed,
            get-live j _ id soft,
            keep-live_other keyed e now rows j apart,
            get-live j rows id soft,
          ),
        )

    -- `delete` with `hard`, in a class with an `id` and a session without other pending changes: after the flush, `get`
    -- of its identity returns nothing, also with `include_deleted`, and `get` of another identity returns what it
    -- returned before.
    pub delete_hard :
        (keyed : Keyed m) (follows : Follows m session) (e : E) (now : ℕ) (j : K) (s : S)
        → m.has_id ≡ true
        → follows.is_clean s ≡ true
        → m.same_id (m.identity e) j ≡ false
        → let after = session.rows (session.flush (delete session m e true now s)) in
          (get m (m.identity e) [] false false false none true after ≡ ok none)
          × (get m j [] false false false none true after
              ≡ get m j [] false false false none true (session.rows s))
    delete_hard keyed follows e now j s id clean apart =
        let i = m.identity e in
        let rows = session.rows s in
        rw (rows_hard follows e now s clean) (
          rw (get-any i _ id, keep-without m keyed (any_with i) i rows (any_with-miss keyed i)),
          rw (
            get-any j _ id,
            get-any j rows id,
            keep-without_other m keyed (any_with j) i rows (λ x. any_with-apart keyed i j x apart),
          ),
        )
