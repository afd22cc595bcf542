-- ===== src/Outbox/Refines.antt =====
-- What the operations on the table do to its rows.
use prodkit_storage.Common.{
  ℕ, suc, ◌≡◌, refl, sym, inl, inr, true, Option, String, ℤ, pos_part, ok, err, Result, List, [],
  ◌∷◌, map, count, arith, All, All-at, All-map, IsIn, Zip, Zip-map, Zip-refl, ◌==◌, ==_iff,
  if◌then◌else◌, Bool-cases, ◌≢◌, ap, ◌⊎◌, Zip-weaken,
}
use prodkit_storage.Outbox.Defs.{
  OutboxEvent, claimable, owns, complete_values, at_or_now, validate_claim_options,
}
use prodkit_storage.Outbox.Session.{Table, IsKeyed, Dirty, bumped, written, Session}
use prodkit_storage.Outbox.Ops.{
  checked, World, Outcome, lease_all, claim_rows, claim_outbox_events, complete_outbox_event,
  dispatch_order,
}
use prodkit_storage.Outbox.Rows.{
  RowStep, stay, claimed, IsDue, IsHeld, IsClaimed, IsCompleted, claimable-IsDue, owns-IsHeld,
  IsHeld-owns, lease-IsClaimed, complete_values-IsCompleted,
}

-- Two rows of a keyed table with one id are one row.
pub keyed_unique :
    (a b : OutboxEvent) (t : Table) → IsKeyed t → IsIn a t → IsIn b t → a.id ≡ b.id → a ≡ b
keyed_unique a b [] k i j q = elim i [ ]
keyed_unique a b (x ∷ t) k (inl p) (inl r) q = cc
keyed_unique a b (x ∷ t) k (inl p) (inr j) q =
    absurd (All-at (λ y. x.id ≢ y.id) b t k.0 j (cc (ap (λ (e : OutboxEvent). e.id) p)))
keyed_unique a b (x ∷ t) k (inr i) (inl r) q =
    absurd (All-at (λ y. x.id ≢ y.id) a t k.0 i (cc (ap (λ (e : OutboxEvent). e.id) r)))
keyed_unique a b (x ∷ t) k (inr i) (inr j) q = keyed_unique a b t k.1 i j q

-- Writing objects whose change is a step takes each row along a step.
pub written-step :
    (R : OutboxEvent → OutboxEvent → Type 0) (unchanged : (x : OutboxEvent) → R x x)
    (ds : List Dirty) (t : Table) (e : OutboxEvent)
    → IsKeyed t
    → IsIn e t
    → All (λ d. IsIn d.0 t × R d.0 (bumped d.1)) ds
    → R e (written ds e)
written-step R unchanged [] t e k i h = unchanged e
written-step R unchanged ((loaded, now) ∷ ds) t e k i h = elim (Bool-cases (loaded.id == e.id)) [
  | inl same ↦
      rw same (rw (keyed_unique e loaded t k i h.0.0 (sym ((==_iff loaded.id e.id).0 same))) h.0.1)
  | inr other ↦ rw other (written-step R unchanged ds t e k i h.1)
]

-- What each call does to a row, at the call's own arguments.
abbrev pub ClaimStep :
    (ℕ → ℕ) → (now stale_after : ℕ) (worker_id : String) (e e' : OutboxEvent) → Type 0
ClaimStep uuid4 now stale_after worker_id e e' =
    (e' ≡ e) ⊎ ((n : ℕ) × IsDue now stale_after e × IsClaimed now worker_id (uuid4 n) e e')

abbrev pub CompleteStep : (event_id lock_token at : ℕ) (e e' : OutboxEvent) → Type 0
CompleteStep event_id lock_token at e e' =
    (IsHeld event_id lock_token e × IsCompleted at e e')
    ⊎ (¬ IsHeld event_id lock_token e × (e' ≡ e))

-- The objects of the claim's loop are changed by steps.
lease_all-steps :
    (uuid4 : ℕ → ℕ) (now stale_after : ℕ) (worker_id : String) (draws : ℕ) (rows : List OutboxEvent)
    (t : Table)
    → All (λ e. IsIn e t × (claimable now stale_after e ≡ true)) rows
    → All
        (λ d. IsIn d.0 t × ClaimStep uuid4 now stale_after worker_id d.0 (bumped d.1))
        (lease_all uuid4 now worker_id draws rows)
unfolding lease_all
lease_all-steps uuid4 now stale_after worker_id draws [] t h = tt
lease_all-steps uuid4 now stale_after worker_id draws (e ∷ es) t h = (
  (
    h.0.0,
    inr (
      draws,
      claimable-IsDue now stale_after e h.0.1,
      lease-IsClaimed now worker_id (uuid4 draws) e,
    ),
  ),
  lease_all-steps uuid4 now stale_after worker_id (suc draws) es t h.1,
)

module _ (s : Session) where
  claim_rows-steps :
      (uuid4 : ℕ → ℕ) (now : ℕ) (worker_id : String) (batch_size stale_after : ℕ) (w : World)
      → IsKeyed w.table
      → Zip
          (ClaimStep uuid4 now stale_after worker_id)
          w.table
          (claim_rows s uuid4 now worker_id batch_size stale_after w).1.table
  unfolding claim_rows
  claim_rows-steps uuid4 now worker_id batch_size stale_after w k =
      let rows = s.select (claimable now stale_after) dispatch_order batch_size w.table in
      let ds = lease_all uuid4 now worker_id w.draws rows in
      let steps =
        lease_all-steps uuid4 now stale_after worker_id w.draws rows w.table
          (s.select_sound (claimable now stale_after) dispatch_order batch_size w.table) in
      rw (s.flush_lem ds w.table (All-map (λ d p. p.0) ds steps)) (
        Zip-map (ClaimStep uuid4 now stale_after worker_id) (written ds) w.table (λ e i.
          written-step (ClaimStep uuid4 now stale_after worker_id) (λ x. inl refl) ds w.table e k i
            steps))

-- A guard that raises leaves every row alone.
checked-steps :
    {A : Type 0} (R : OutboxEvent → OutboxEvent → Type 0) (unchanged : (x : OutboxEvent) → R x x)
    (r : Result (Unit {0})) (w : World) (rest : Outcome A)
    → Zip R w.table rest.1.table
    → Zip R w.table (checked r w rest).1.table
checked-steps R unchanged (err e) w rest z = Zip-refl R unchanged w.table
checked-steps R unchanged (ok _) w rest z = z

update-step :
    (id token at : ℕ) (e : OutboxEvent)
    → CompleteStep id token at e (if owns id token e then complete_values at e else e)
update-step id token at e = elim (Bool-cases (owns id token e)) [
  | inl mine ↦ rw mine (inl (owns-IsHeld id token e mine, complete_values-IsCompleted at e))
  | inr other ↦
      rw other (inr ((λ held. (let mine = IsHeld-owns id token e held in ground arith)), refl))
]

module _ (s : Session) (w : World) (k : IsKeyed w.table) where
  -- From a table with unique ids, and whatever a claim returns, each row stays as it is, or it was a due row
  -- (available by now, and pending or with a lease that is missing or stale) and is leased to the worker since now:
  -- processing, under a token that `uuid4` drew, with one more attempt and a new version, and else as it was.
  pub claim-steps :
      (uuid4 : ℕ → ℕ) (now : ℕ) (worker_id : String) (batch_size stale_after : ℤ)
      → Zip
          (ClaimStep uuid4 now (pos_part stale_after) worker_id)
          w.table
          (claim_outbox_events s uuid4 now worker_id batch_size stale_after w).1.table
  unfolding claim_outbox_events
  claim-steps uuid4 now worker_id batch_size stale_after =
      checked-steps (ClaimStep uuid4 now (pos_part stale_after) worker_id) (λ x. inl refl)
        (validate_claim_options worker_id batch_size stale_after) w
        (claim_rows s uuid4 now worker_id (pos_part batch_size) (pos_part stale_after) w)
        (claim_rows-steps s uuid4 now worker_id (pos_part batch_size) (pos_part stale_after) w k)

  pub claim-RowStep :
      (uuid4 : ℕ → ℕ) (now : ℕ) (worker_id : String) (batch_size stale_after : ℤ)
      → Zip RowStep w.table
          (claim_outbox_events s uuid4 now worker_id batch_size stale_after w).1.table
  claim-RowStep uuid4 now worker_id batch_size stale_after =
      Zip-weaken (ClaimStep uuid4 now (pos_part stale_after) worker_id) RowStep
        (λ e e' step. elim step [
          | inl same ↦ stay same
          | inr (n, due, is) ↦ claimed now (pos_part stale_after) worker_id (uuid4 n) due is
        ])
        w.table (claim_outbox_events s uuid4 now worker_id batch_size stale_after w).1.table
        (claim-steps uuid4 now worker_id batch_size stale_after)

module _ (s : Session) (w : World) where
  -- Whatever a completion returns, the row with this id that is processing under this token, and no other row, is
  -- changed: it is published at the given time or now, has no lease and no error any more and a new version, and is
  -- else as it was.
  pub complete-steps :
      (event_id lock_token : ℕ) (at : Option ℕ) (now : ℕ)
      → Zip
          (CompleteStep event_id lock_token (at_or_now at now))
          w.table
          (complete_outbox_event s event_id lock_token at now w).1.table
  unfolding complete_outbox_event
  complete-steps event_id lock_token at now =
      rw (s.update_lem (owns event_id lock_token) (complete_values (at_or_now at now)) w.table)
        (elim (Bool-cases (count (owns event_id lock_token) w.table == 1)) [
          | inl one ↦ rw one (steps tt)
          | inr more ↦ rw more (steps tt)
        ])
    where
      steps :
          Unit {0}
          → Zip (CompleteStep event_id lock_token (at_or_now at now)) w.table (
              map
                (λ e.
                  if owns event_id lock_token e then complete_values (at_or_now at now) e else e)
                w.table)
      steps _ =
          Zip-map (CompleteStep event_id lock_token (at_or_now at now)) _ w.table
            (λ e i. update-step event_id lock_token (at_or_now at now) e)
