-- ===== src/Repository/Rows.antt =====
-- What SQLAlchemy documents of a session with `autoflush=False`, as the runtime makes them: an entity that is added or
-- deleted is pending, and queries do not see the change. A flush that succeeds writes a pending entity over the row of
-- its identity, or removes the row of the one that is deleted.
use prodkit_storage.Common.{
  ℕ, Bool, true, false, not, Option, List, [], ◌∷◌, keep, All, All-map, if◌then◌else◌, ◌≡◌, refl,
  sym, ◌∙◌, inl, inr, Bool-cases,
}
use prodkit_storage.Repository.Statements.{Model}
use prodkit_storage.Repository.Writes.{Session}

module _ {E K : Type 0} (m : Model E K) where
  abbrev pub has_identity : K → E → Bool
  has_identity identity e = m.same_id (m.identity e) identity

  abbrev pub put : K → E → List E → List E
  put i e [] = e ∷ []
  put i e (x ∷ xs) = if has_identity i x then e ∷ xs else x ∷ put i e xs

  abbrev pub without : K → List E → List E
  without identity xs = keep (λ x. not (has_identity identity x)) xs

  -- `=` on identities is an equivalence, and the primary key is unique.
  pub record Keyed : Type 0 where
    pub same_refl : (i : K) → m.same_id i i ≡ true
    pub same_sym : (i j : K) → m.same_id i j ≡ m.same_id j i
    pub same_trans : (i j k : K) → m.same_id i j ≡ true → m.same_id i k ≡ m.same_id j k
    -- the columns of `SoftDeleteMixin` are not the key
    pub identity_set : (t : Option ℕ) (e : E) → m.identity (m.set_deleted_at t e) ≡ m.identity e
    pub deleted_set : (t : Option ℕ) (e : E) → m.deleted_at (m.set_deleted_at t e) ≡ t

  abbrev pub IsUnique : List E → Type 0
  IsUnique [] = Unit
  IsUnique (x ∷ xs) = All (λ y. has_identity (m.identity x) y ≡ false) xs × IsUnique xs

  pub record Follows {S V : Type 0} (session : Session S E V) : Type 0 where
    -- no change is pending
    pub is_clean : S → Bool
    pub rows_add : (e : E) (s : S) → session.rows (session.add e s) ≡ session.rows s
    pub rows_delete : (e : E) (s : S) → session.rows (session.delete e s) ≡ session.rows s
    pub flush_add :
        (e : E) (s : S)
        → is_clean s ≡ true
        → session.rows (session.flush (session.add e s)) ≡ put (m.identity e) e (session.rows s)
    pub flush_delete :
        (e : E) (s : S)
        → is_clean s ≡ true
        → session.rows (session.flush (session.delete e s))
          ≡ without (m.identity e) (session.rows s)

  keep-none : (p : E → Bool) (xs : List E) → All (λ x. p x ≡ false) xs → keep p xs ≡ []
  keep-none p [] h = refl
  keep-none p (x ∷ xs) h = rw (h.0, keep-none p xs h.1)

  module _ (keyed : Keyed) where
    has_identity-apart :
        (i j : K) (y : E)
        → m.same_id i j ≡ true
        → has_identity i y ≡ false
        → has_identity j y ≡ false
    has_identity-apart i j y same apart =
        keyed.same_sym (m.identity y) j
        ∙ sym (keyed.same_trans i j (m.identity y) same)
        ∙ keyed.same_sym i (m.identity y)
        ∙ apart

    -- A test that every entity of this identity fails does not see it written.
    pub keep-put_other :
        (p : E → Bool) (i : K) (e : E) (xs : List E)
        → p e ≡ false
        → ((x : E) → has_identity i x ≡ true → p x ≡ false)
        → keep p (put i e xs) ≡ keep p xs
    keep-put_other p i e [] fails others = rw fails
    keep-put_other p i e (x ∷ xs) fails others = elim (Bool-cases (has_identity i x)) [
      | inl hit ↦ rw (hit, fails, others x hit)
      | inr miss ↦ rw (miss, keep-put_other p i e xs fails others)
    ]

    all_apart :
        (p : E → Bool) (i : K) (x : E) (xs : List E)
        → has_identity i x ≡ true
        → ((y : E) → has_identity i y ≡ false → p y ≡ false)
        → IsUnique (x ∷ xs)
        → keep p xs ≡ []
    all_apart p i x xs hit others unique = keep-none p xs (
        All-map (λ y apart. others y (has_identity-apart (m.identity x) i y hit apart)) xs unique.0)

    -- A test of the identity finds the entity that is written, if it passes, and nothing else.
    pub keep-put_same :
        (p : E → Bool) (i : K) (e : E) (xs : List E)
        → ((x : E) → has_identity i x ≡ false → p x ≡ false)
        → IsUnique xs
        → keep p (put i e xs) ≡ keep p (e ∷ [])
    keep-put_same p i e [] others unique = refl
    keep-put_same p i e (x ∷ xs) others unique = elim (Bool-cases (has_identity i x)) [
      | inl hit ↦ rw (hit, all_apart p i x xs hit others unique)
      | inr miss ↦ rw (miss, others x miss, keep-put_same p i e xs others unique.1)
    ]

    pub keep-without :
        (p : E → Bool) (identity : K) (xs : List E)
        → ((x : E) → has_identity identity x ≡ false → p x ≡ false)
        → keep p (without identity xs) ≡ []
    keep-without p identity [] others = refl
    keep-without p identity (x ∷ xs) others = elim (Bool-cases (has_identity identity x)) [
      | inl hit ↦ rw (hit, keep-without p identity xs others)
      | inr miss ↦ rw (miss, others x miss, keep-without p identity xs others)
    ]

    pub keep-without_other :
        (p : E → Bool) (identity : K) (xs : List E)
        → ((x : E) → has_identity identity x ≡ true → p x ≡ false)
        → keep p (without identity xs) ≡ keep p xs
    keep-without_other p identity [] others = refl
    keep-without_other p identity (x ∷ xs) others = elim (Bool-cases (has_identity identity x)) [
      | inl hit ↦ rw (hit, others x hit, keep-without_other p identity xs others)
      | inr miss ↦ elim (Bool-cases (p x)) [
        | inl kept ↦ rw (miss, kept, keep-without_other p identity xs others)
        | inr out ↦ rw (miss, out, keep-without_other p identity xs others)
      ]
    ]
