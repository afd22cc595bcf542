-- ===== src/Outbox/Failing.antt =====
-- What a reported failure does to the rows.
use prodkit_storage.Common.{
  ℕ, ◌≡◌, refl, sym, inl, inr, true, Option, none, some, String, ℤ, pos_part, ok, err, Result, [],
  ◌∷◌, arith, IsIn, Zip, Zip-map, ◌==◌, ==_iff, Bool-cases, false, ◌⊎◌, ◌∙◌,
}
use prodkit_storage.Outbox.Defs.{OutboxEvent, owns, failed_row, mark_outbox_failed}
use prodkit_storage.Outbox.Session.{Table, IsKeyed, written, Session}
use prodkit_storage.Outbox.Ops.{fail_marked, World, Outcome, fail_found, fail_outbox_event}
use prodkit_storage.Outbox.Rows.{IsHeld, IsFailed, owns-IsHeld, failed_row-IsFailed}
use prodkit_storage.Outbox.Refines.{keyed_unique}

abbrev pub FailStep :
    (event_id lock_token now : ℕ) (error : String) (max_attempts base : ℕ) (e e' : OutboxEvent)
    → Type 0
FailStep event_id lock_token now error max_attempts base e e' =
    (IsHeld event_id lock_token e × IsFailed now error max_attempts base e e')
    ⊎ (¬ IsHeld event_id lock_token e × (e' ≡ e))

-- A failure that raises changes no row; one that returns has recorded the failure of the row that is held.
abbrev pub Fails :
    (event_id lock_token now : ℕ) (error : String) (max_attempts base : ℕ)
    → Table
    → Outcome OutboxEvent
    → Type 0
Fails event_id lock_token now error max_attempts base t (err e, w') = w'.table ≡ t
Fails event_id lock_token now error max_attempts base t (ok e', w') =
    ((e : OutboxEvent) × IsIn e t
      × IsHeld event_id lock_token e
      × IsFailed now error max_attempts base e e')
    × Zip (FailStep event_id lock_token now error max_attempts base) t w'.table

-- What a successful mark returns.
mark_outbox_failed_ok :
    (now : ℕ) (error : String) (m b : ℤ) (e e' : OutboxEvent)
    → mark_outbox_failed now error m b e ≡ ok e'
    → e' ≡ failed_row now error (pos_part m) (pos_part b) e
unfolding mark_outbox_failed
mark_outbox_failed_ok now error m b e e' h = ground arith

module _ (s : Session) (w : World) (k : IsKeyed w.table) (event_id lock_token now : ℕ)
    (error : String) (max_attempts base_delay_seconds : ℤ) where
  abbrev Recorded : Outcome OutboxEvent → Type 0
  Recorded =
      Fails event_id lock_token now error (pos_part max_attempts) (pos_part base_delay_seconds)
        w.table

  abbrev marked : OutboxEvent → OutboxEvent
  marked e = failed_row now error (pos_part max_attempts) (pos_part base_delay_seconds) e

  -- Writing back the marked row changes this row alone.
  marked-step :
      (e x : OutboxEvent)
      → IsIn e w.table
      → owns event_id lock_token e ≡ true
      → IsIn x w.table
      → FailStep event_id lock_token now error
          (pos_part max_attempts)
          (pos_part base_delay_seconds)
          x
          (written ((e, marked e) ∷ []) x)
  marked-step e x i o j = elim (Bool-cases (e.id == x.id)) [
    | inl same ↦ rw same (
        rw (keyed_unique x e w.table k j i (sym ((==_iff e.id x.id).0 same))) (
          inl (
            owns-IsHeld event_id lock_token e o,
            failed_row-IsFailed now error (pos_part max_attempts) (pos_part base_delay_seconds) e,
          )))
    | inr other ↦
        let held = owns-IsHeld event_id lock_token e o in
        rw other (inr ((λ h. differs (held.0 ∙ sym h.0) other), refl))
  ]
    where
      differs : e.id ≡ x.id → (e.id == x.id) ≡ false → ⊥
      differs q h = ground arith

  fail_marked-Fails :
      (e : OutboxEvent)
      → IsIn e w.table
      → owns event_id lock_token e ≡ true
      → (r : Result OutboxEvent)
      → mark_outbox_failed now error max_attempts base_delay_seconds e ≡ r
      → Recorded (fail_marked s w e r)
  unfolding fail_marked
  fail_marked-Fails e i o (err x) q = refl
  fail_marked-Fails e i o (ok e') q =
      let is : e' ≡ marked e =
        mark_outbox_failed_ok now error max_attempts base_delay_seconds e e' q in
      rw is (
        rw (s.flush_lem ((e, marked e) ∷ []) w.table (i, tt)) (
          (
            e,
            i,
            owns-IsHeld event_id lock_token e o,
            failed_row-IsFailed now error (pos_part max_attempts) (pos_part base_delay_seconds) e,
          ),
          Zip-map
              (FailStep event_id lock_token now error (pos_part max_attempts)
                (pos_part base_delay_seconds))
              (written ((e, marked e) ∷ [])) w.table (λ x j. marked-step e x i o j),
        ))

  fail_found-Fails :
      (o : Option OutboxEvent)
      → s.scalar (owns event_id lock_token) w.table ≡ o
      → Recorded (fail_found s now error max_attempts base_delay_seconds w o)
  unfolding fail_found
  fail_found-Fails none q = refl
  fail_found-Fails (some e) q =
      let (i, o) = s.scalar_some (owns event_id lock_token) w.table q in
      fail_marked-Fails e i o (mark_outbox_failed now error max_attempts base_delay_seconds e) refl

  -- From a table with unique ids, a reported failure that raises changes no row. One that returns has found the row with
  -- this id that is processing under this token. This row, and no other, is changed: it has the error and a new
  -- version and no lease, and is dead if its attempts have reached the limit, and otherwise pending until now plus
  -- the base delay times two to the number of its earlier attempts, an hour at most; it is else as it was, and it is returned.
  pub fail-steps :
      Fails event_id lock_token now error
        (pos_part max_attempts)
        (pos_part base_delay_seconds)
        w.table
        (fail_outbox_event s event_id lock_token now error max_attempts base_delay_seconds w)
  unfolding fail_outbox_event
  fail-steps = fail_found-Fails (s.scalar (owns event_id lock_token) w.table) refl
