-- ===== src/Outbox/Completion.antt =====
-- Who may complete an event: exactly the holder of its lease, and nobody once it was reclaimed.
use prodkit_storage.Common.{
  ℕ, suc, ◌≡◌, refl, sym, ◌∙◌, inl, inr, Bool, true, false, Option, some, String, ℤ, pos_part, ok,
  err, List, [], ◌∷◌, map, count, arith, All, All-at, All-map, IsIn, if◌then◌else◌, Bool-cases, ◌≢◌,
  ap, outbox_lease_lost,
}
use prodkit_storage.Outbox.Defs.{OutboxEvent, owns, complete_values, at_or_now}
use prodkit_storage.Outbox.Session.{Table, IsKeyed, Session}
use prodkit_storage.Outbox.Ops.{World, claim_outbox_events, complete_outbox_event}
use prodkit_storage.Outbox.Refines.{keyed_unique, claim-RowStep}
use prodkit_storage.Outbox.Rows.{IsClaimed}
use prodkit_storage.Outbox.Leases.{Zip-IsKeyed, Granted, Grants, claim-Grants}

pub owns_id : (id token : ℕ) (e : OutboxEvent) → owns id token e ≡ true → e.id ≡ id
unfolding owns
owns_id id token e h = ground arith

owns_ne : (id token : ℕ) (e : OutboxEvent) → e.id ≢ id → owns id token e ≡ false
unfolding owns
owns_ne id token e h = ground arith

count_zero : (p : OutboxEvent → Bool) (t : Table) → All (λ e. p e ≡ false) t → count p t ≡ 0
count_zero p [] h = refl
count_zero p (x ∷ t) h = rw h.0 (count_zero p t h.1)

pub count_owned :
    (id token : ℕ) (e : OutboxEvent) (t : Table)
    → IsKeyed t
    → IsIn e t
    → owns id token e ≡ true
    → count (owns id token) t ≡ 1
count_owned id token e [] k i o = elim i [ ]
count_owned id token e (x ∷ t) k (inl q) o =
    let mine : owns id token x ≡ true = rw q at o in
    rw mine (
      ap suc (
        count_zero (owns id token) t
          (All-map (λ y ne. owns_ne id token y (λ r. ne (owns_id id token x mine ∙ sym r))) t k.0)))
count_owned id token e (x ∷ t) k (inr i) o =
    let other : owns id token x ≡ false =
      owns_ne id token x
        (λ r. All-at (λ y. x.id ≢ y.id) e t k.0 i (r ∙ sym (owns_id id token e o))) in
    rw other (count_owned id token e t k.1 i o)

map_unowned :
    (id token at : ℕ) (t : Table)
    → All (λ e. owns id token e ≡ false) t
    → map (λ e. if owns id token e then complete_values at e else e) t ≡ t
map_unowned id token at [] h = refl
map_unowned id token at (x ∷ t) h = rw (h.0, map_unowned id token at t h.1)

module _ (s : Session) (event_id lock_token : ℕ) (at : Option ℕ) (now : ℕ) (w : World) where
  -- Without a lease under this token the call raises, and no row changes.
  pub complete_lost :
      All (λ e. owns event_id lock_token e ≡ false) w.table
      → complete_outbox_event s event_id lock_token at now w ≡ (err outbox_lease_lost, w)
  unfolding complete_outbox_event
  complete_lost h =
      rw (s.update_lem (owns event_id lock_token) (complete_values (at_or_now at now)) w.table) (
        rw (
          count_zero (owns event_id lock_token) w.table h,
          map_unowned event_id lock_token (at_or_now at now) w.table h,
        ))

owns_token : (id old : ℕ) (e : OutboxEvent) → owns id old e ≡ true → e.lock_token ≡ some old
unfolding owns
owns_token id old e h = ground arith

not_owned : (id old : ℕ) (e : OutboxEvent) → e.lock_token ≢ some old → owns id old e ≡ false
not_owned id old e h = elim (Bool-cases (owns id old e)) [
  | inl q ↦ absurd (h (owns_token id old e q))
  | inr q ↦ q
]

leased_token :
    (now : ℕ) (worker : String) (token : ℕ) (row e : OutboxEvent)
    → IsClaimed now worker token row e
    → e.lock_token ≡ some token
leased_token now worker token row e q = rw q

some_ne : (a b : ℕ) → a ≢ b → ◌≢◌ {A = Option ℕ} (some a) (some b)
some_ne a b h q = h (cc)

-- A row that another claim has handed out again, under another token than the old one, cannot be
-- completed under the old token: the call raises and changes nothing.
reclaimed_lost :
    (s : Session) (event_id old : ℕ) (at : Option ℕ) (now then_ stale_after : ℕ)
    (worker_id : String) (t : Table) (w : World) (e : OutboxEvent)
    → IsKeyed w.table
    → (g : Granted then_ stale_after worker_id t w.table e) → e.id ≡ event_id
    → g.token ≢ old
    → complete_outbox_event s event_id old at now w ≡ (err outbox_lease_lost, w)
reclaimed_lost s event_id old at now then_ stale_after worker_id t w e k g q ne =
    complete_lost s event_id old at now w (rows w.table (λ x i. i))
  where
    row_lost : (x : OutboxEvent) → IsIn x w.table → owns event_id old x ≡ false
    row_lost x i = elim (Bool-cases (owns event_id old x)) [
      | inl o ↦
          let same : x ≡ e =
            keyed_unique x e w.table k i g.stored (owns_id event_id old x o ∙ sym q) in
          absurd (
            some_ne g.token old ne (
              sym (leased_token then_ worker_id g.token g.row e g.leased)
              ∙ ap (λ (y : OutboxEvent). y.lock_token) (sym same)
              ∙ owns_token event_id old x o))
      | inr o ↦ o
    ]

    rows :
        (xs : Table)
        → ((x : OutboxEvent) → IsIn x xs → IsIn x w.table)
        → All (λ x. owns event_id old x ≡ false) xs
    rows [] sub = tt
    rows (x ∷ xs) sub = (row_lost x (sub x (inl refl)), rows xs (λ y i. sub y (inr i)))

-- After a claim has returned `es`, an old holder of one of these events cannot complete it: the call
-- raises and changes nothing.
pub claim-complete_lost :
    (s : Session) (uuid4 : ℕ → ℕ) (then_ : ℕ) (worker_id : String) (batch_size stale_after : ℤ)
    (w : World) (es : List OutboxEvent) (w' : World) (e : OutboxEvent) (old : ℕ) (at : Option ℕ)
    (now : ℕ)
    → IsKeyed w.table
    → claim_outbox_events s uuid4 then_ worker_id batch_size stale_after w ≡ (ok es, w')
    → IsIn e es
    → e.lock_token ≢ some old
    → complete_outbox_event s e.id old at now w' ≡ (err outbox_lease_lost, w')
claim-complete_lost s uuid4 then_ worker_id batch_size stale_after w es w' e old at now k q i ne =
    let keyed : IsKeyed w'.table =
      Zip-IsKeyed w.table w'.table
        (rw q at (claim-RowStep s w k uuid4 then_ worker_id batch_size stale_after)) k in
    let grants : Grants then_ (pos_part stale_after) worker_id (pos_part batch_size) w.table
        (ok es, w') =
      rw q at (claim-Grants s uuid4 then_ worker_id batch_size stale_after w k) in
    let g : Granted then_ (pos_part stale_after) worker_id w.table w'.table e =
      All-at (Granted then_ (pos_part stale_after) worker_id w.table w'.table) e es grants.1 i in
    reclaimed_lost s e.id old at now then_ (pos_part stale_after) worker_id w.table w' e keyed g
      refl (λ r. ne (leased_token then_ worker_id g.token g.row e g.leased ∙ ap some r))
