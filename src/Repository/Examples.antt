-- ===== src/Repository/Examples.antt =====
-- Rows with a number as their key, in a session that keeps them in a list.
use prodkit_storage.Common.{
  is_nil, Bool, ◌++◌, ℕ, true, false, not, Option, none, some, List, [], ◌∷◌, keep, ok, err,
  value_error, not_found, ◌==◌, ==-refl, ◌≡◌, refl, arith, negsuc,
}
use prodkit_storage.Repository.Statements.{Model}
use prodkit_storage.Repository.Reads.{passes, get, require, count}
use prodkit_storage.Repository.Writes.{Session, soft_delete, delete, bulk_insert}
use prodkit_storage.Repository.Rows.{Keyed, Follows, put, without}
use prodkit_storage.Repository.Visible.{delete_soft}

abbrev model : Model (ℕ × Option ℕ) ℕ
model = record {
  has_id = true;
  identity = λ e. e.0;
  same_id = λ i j. i == j;
  soft_deletes = true;
  is_soft = λ e. true;
  deleted_at = λ e. e.1;
  set_deleted_at = λ t e. (e.0, t);
}

-- The rows, and the changes that wait for a flush: `true` writes, `false` removes.
abbrev Pending : Type 0
Pending = List (Bool × (ℕ × Option ℕ))

flush_all : Pending → List (ℕ × Option ℕ) → List (ℕ × Option ℕ)
flush_all [] rows = rows
flush_all ((true, e) ∷ changes) rows = flush_all changes (put model e.0 e rows)
flush_all ((false, e) ∷ changes) rows = flush_all changes (without model e.0 rows)

abbrev session : Session (List (ℕ × Option ℕ) × Pending) (ℕ × Option ℕ) ℕ
session = record {
  rows = λ s. s.0;
  add = λ e s. (s.0, s.1 ++ (true, e) ∷ []);
  delete = λ e s. (s.0, s.1 ++ (false, e) ∷ []);
  flush = λ s. (flush_all s.1 s.0, []);
  refresh = λ e s. (e, s);
  delete_rows = λ criteria s. (none, (keep (λ e. not (passes criteria e)) s.0, s.1));
  insert_rows = λ values s. (some (negsuc 0), s);
  update_rows = λ values criteria s. (none, s);
}

keyed : Keyed model
keyed = record {
  same_refl = λ i. ==-refl i;
  same_sym = λ i j. ground arith;
  same_trans = λ i j k h. ground arith;
  identity_set = λ t e. refl;
  deleted_set = λ t e. refl;
}

abbrev is_clean : List (ℕ × Option ℕ) × Pending → Bool
is_clean s = is_nil s.1

flushed_add :
    (e : ℕ × Option ℕ) (s : List (ℕ × Option ℕ) × Pending)
    → is_clean s ≡ true
    → session.rows (session.flush (session.add e s)) ≡ put model e.0 e s.0
unfolding flush_all
flushed_add e (rows, []) h = refl
flushed_add e (rows, c ∷ cs) h = ground arith

flushed_delete :
    (e : ℕ × Option ℕ) (s : List (ℕ × Option ℕ) × Pending)
    → is_clean s ≡ true
    → session.rows (session.flush (session.delete e s)) ≡ without model e.0 s.0
unfolding flush_all
flushed_delete e (rows, []) h = refl
flushed_delete e (rows, c ∷ cs) h = ground arith

abbrev follows : Follows model session
follows = record {
  is_clean = is_clean;
  rows_add = λ e s. refl;
  rows_delete = λ e s. refl;
  flush_add = flushed_add;
  flush_delete = flushed_delete;
}

abbrev two_rows : List (ℕ × Option ℕ)
two_rows = (1, none) ∷ (2, none) ∷ []

both_locks : get model 1 [] true true true none false two_rows ≡ err value_error
unfolding get
both_locks = refl

count_live : count model none false ((1, some 5) ∷ (2, none) ∷ []) ≡ 1
unfolding count
count_live = refl

inserted :
    bulk_insert session ((("a", 1) ∷ []) ∷ (("a", 2) ∷ []) ∷ []) (two_rows, [])
    ≡ (2, (two_rows, []))
unfolding bulk_insert
inserted = refl

abbrev pending : List (ℕ × Option ℕ) × Pending
pending = delete session model (1, none) false 9 (two_rows, [])

delete_soft_example :
    (count model none false pending.0 ≡ count model none false two_rows)
    × (require model 1 [] false false false none false (session.flush pending).0 ≡ err not_found)
    × (get model 1 [] false false false none true (session.flush pending).0
        ≡ ok (some (soft_delete model none 9 (1, none))))
    × (get model 2 [] false false false none false (session.flush pending).0
        ≡ get model 2 [] false false false none false two_rows)
delete_soft_example =
    delete_soft model session keyed follows (1, none) 9 2 (two_rows, []) refl refl refl refl
      ((refl, tt), (tt, tt)) refl
