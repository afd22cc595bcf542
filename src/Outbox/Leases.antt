-- ===== src/Outbox/Leases.antt =====
-- What a claim grants, and who may complete: a lease ends when another worker reclaims the row.
use prodkit_storage.Common.{
  ℕ, suc, ◌≤◌, ◌≡◌, refl, sym, ◌∙◌, inl, inr, true, false, String, ℤ, pos_part, ok, err, Result,
  List, [], ◌∷◌, map, length, arith, All, All-at, IsIn, Zip, ◌==◌, ==-refl, if◌then◌else◌, ◌≢◌, ap,
}
use prodkit_storage.Outbox.Defs.{OutboxEvent, claimable, lease, validate_claim_options}
use prodkit_storage.Outbox.Session.{Table, IsKeyed, bumped, written, Session}
use prodkit_storage.Outbox.Ops.{
  World, Outcome, checked, lease_all, claim_rows, claim_outbox_events, dispatch_order,
}
use prodkit_storage.Outbox.Rows.{
  RowStep, RowStep-counts, IsDue, IsClaimed, claimable-IsDue, lease-IsClaimed,
}

-- Steps of the rows keep the primary key.
ids_differ :
    (x x' : OutboxEvent) (t t' : Table)
    → RowStep x x'
    → Zip RowStep t t'
    → All (λ y. x.id ≢ y.id) t
    → All (λ y. x'.id ≢ y.id) t'
ids_differ x x' [] [] st z h = tt
ids_differ x x' [] (y ∷ t') st z h = elim z [ ]
ids_differ x x' (y ∷ t) [] st z h = elim z [ ]
ids_differ x x' (y ∷ t) (y' ∷ t') st z h = (
  (λ e. h.0 (sym ((RowStep-counts st).0) ∙ e ∙ (RowStep-counts z.0).0)),
  ids_differ x x' t t' st z.1 h.1,
)

pub Zip-IsKeyed : (t t' : Table) → Zip RowStep t t' → IsKeyed t → IsKeyed t'
Zip-IsKeyed [] [] z k = tt
Zip-IsKeyed [] (y ∷ t') z k = elim z [ ]
Zip-IsKeyed (x ∷ t) [] z k = elim z [ ]
Zip-IsKeyed (x ∷ t) (x' ∷ t') z k = (ids_differ x x' t t' z.0 z.1 k.0, Zip-IsKeyed t t' z.1 k.1)

-- What the claim returns, for a row `e` that it found and the object `e'` that it gives out.
pub record Granted (now stale_after : ℕ) (worker_id : String) (t t' : Table) (e' : OutboxEvent)
    : Type 0 where
  pub row : OutboxEvent
  pub found : IsIn row t
  pub was_due : IsDue now stale_after row
  pub token : ℕ
  pub leased : IsClaimed now worker_id token row e'
  pub stored : IsIn e' t'

IsIn-map : {A : Type 0} (f : A → A) (a : A) (xs : List A) → IsIn a xs → IsIn (f a) (map f xs)
IsIn-map f a [] i = i
IsIn-map f a (x ∷ xs) (inl e) = inl (ap f e)
IsIn-map f a (x ∷ xs) (inr i) = inr (IsIn-map f a xs i)

==-ne : (a b : ℕ) → a ≢ b → (a == b) ≡ false
==-ne a b h = ground arith

-- Every object of the loop is granted, where the table is written as the objects say.
Granted-All :
    (uuid4 : ℕ → ℕ) (now stale_after : ℕ) (worker_id : String) (n : ℕ) (rows : List OutboxEvent)
    (t : Table) (write : OutboxEvent → OutboxEvent)
    → IsKeyed rows
    → All (λ e. IsIn e t × (claimable now stale_after e ≡ true)) rows
    → ((x : OutboxEvent) → IsIn x rows → write x ≡ written (lease_all uuid4 now worker_id n rows) x)
    → All
        (Granted now stale_after worker_id t (map write t))
        (map (λ d. bumped d.1) (lease_all uuid4 now worker_id n rows))
unfolding lease_all
Granted-All uuid4 now stale_after worker_id n [] t write k h agrees = tt
Granted-All uuid4 now stale_after worker_id n (e ∷ es) t write k h agrees = (
  record {
    row = e;
    found = h.0.0;
    was_due = claimable-IsDue now stale_after e h.0.1;
    token = uuid4 n;
    leased = lease-IsClaimed now worker_id (uuid4 n) e;
    stored = rw (agrees e (inl refl) ∙ self tt) at (IsIn-map write e t h.0.0);
  },
  Granted-All uuid4 now stale_after worker_id (suc n) es t write k.1 h.1
      (λ x i. agrees x (inr i) ∙ other x i),
)
  where
    self :
        Unit {0}
        → (if e.id == e.id
            then bumped (lease now worker_id (uuid4 n) e)
            else written (lease_all uuid4 now worker_id (suc n) es) e)
          ≡ bumped (lease now worker_id (uuid4 n) e)
    self _ = rw (==-refl e.id)

    other :
        (x : OutboxEvent)
        → IsIn x es
        → (if e.id == x.id
            then bumped (lease now worker_id (uuid4 n) e)
            else written (lease_all uuid4 now worker_id (suc n) es) x)
          ≡ written (lease_all uuid4 now worker_id (suc n) es) x
    other x i = rw (==-ne e.id x.id (All-at (λ y. e.id ≢ y.id) x es k.0 i))

length-lease_all :
    (uuid4 : ℕ → ℕ) (now : ℕ) (worker_id : String) (n : ℕ) (rows : List OutboxEvent)
    → length (map (λ d. bumped d.1) (lease_all uuid4 now worker_id n rows)) ≡ length rows
unfolding lease_all
length-lease_all uuid4 now worker_id n [] = refl
length-lease_all uuid4 now worker_id n (e ∷ es) =
    omega (arith, length-lease_all uuid4 now worker_id (suc n) es)

loaded-All :
    (uuid4 : ℕ → ℕ) (now stale_after : ℕ) (worker_id : String) (n : ℕ) (rows : List OutboxEvent)
    (t : Table)
    → All (λ e. IsIn e t × (claimable now stale_after e ≡ true)) rows
    → All (λ d. IsIn d.0 t) (lease_all uuid4 now worker_id n rows)
unfolding lease_all
loaded-All uuid4 now stale_after worker_id n [] t h = tt
loaded-All uuid4 now stale_after worker_id n (e ∷ es) t h =
    (h.0.0, loaded-All uuid4 now stale_after worker_id (suc n) es t h.1)

-- What a claim that returned has done.
abbrev pub Grants : ℕ → ℕ → String → ℕ → Table → Outcome (List OutboxEvent) → Type 0
Grants now stale_after worker_id batch_size t (err e, w') = w'.table ≡ t
Grants now stale_after worker_id batch_size t (ok es, w') =
    (length es ≤ batch_size) × All (Granted now stale_after worker_id t w'.table) es

module _ (s : Session) where
  claim_rows-Grants :
      (uuid4 : ℕ → ℕ) (now : ℕ) (worker_id : String) (batch_size stale_after : ℕ) (w : World)
      → IsKeyed w.table
      → Grants now stale_after worker_id batch_size w.table
          (claim_rows s uuid4 now worker_id batch_size stale_after w)
  unfolding claim_rows
  claim_rows-Grants uuid4 now worker_id batch_size stale_after w k =
      let rows = s.select (claimable now stale_after) dispatch_order batch_size w.table in
      let sound = s.select_sound (claimable now stale_after) dispatch_order batch_size w.table in
      let ds = lease_all uuid4 now worker_id w.draws rows in
      rw
        (s.flush_lem ds w.table
          (loaded-All uuid4 now stale_after worker_id w.draws rows w.table sound))
        (
          omega (
            arith,
            length-lease_all uuid4 now worker_id w.draws rows,
            s.select_limit (claimable now stale_after) dispatch_order batch_size w.table,
          ),
          Granted-All uuid4 now stale_after worker_id w.draws rows w.table (written ds)
              (s.select_keyed (claimable now stale_after) dispatch_order batch_size w.table k) sound
              (λ x i. refl),
        )

  -- From a table with unique ids, a claim either raises and leaves the table alone, or returns at
  -- most `batch_size` events. Each of them was a row of the table that was available by now, and pending or
  -- processing with a lease that is missing or older than `stale_after`; it is now, in the new table and as
  -- returned, processing since now under the worker's name and a token, with one more attempt and a new version, and
  -- else as it was.
  pub claim-Grants :
      (uuid4 : ℕ → ℕ) (now : ℕ) (worker_id : String) (batch_size stale_after : ℤ) (w : World)
      → IsKeyed w.table
      → Grants now
          (pos_part stale_after)
          worker_id
          (pos_part batch_size)
          w.table
          (claim_outbox_events s uuid4 now worker_id batch_size stale_after w)
  unfolding claim_outbox_events
  claim-Grants uuid4 now worker_id batch_size stale_after w k =
      split (validate_claim_options worker_id batch_size stale_after)
    where
      split :
          (r : Result (Unit {0}))
          → Grants now (pos_part stale_after) worker_id (pos_part batch_size) w.table (
              checked r w
                (claim_rows s uuid4 now worker_id (pos_part batch_size) (pos_part stale_after) w))
      split (err e) = refl
      split (ok _) =
          claim_rows-Grants uuid4 now worker_id (pos_part batch_size) (pos_part stale_after) w k
