-- ===== src/Repository/Writes.antt =====
-- The writing methods of `SyncRepository`. The session
-- is SQLAlchemy's: a record of its calls, with the rows that its queries see, which pending changes reach by a flush.
use prodkit_storage.Common.{
  is_nil, ℕ, Bool, not, ◌&&◌, ◌||◌, Option, none, some, String, List, [], ◌∷◌, length,
  if◌then◌else◌, ℤ, pos, negsuc,
}
use prodkit_storage.Repository.Statements.{Model}

-- `S` is the session with its database, `E` an entity, `V` a value of an attribute.
pub record Session (S E V : Type 0) : Type 0 where
  pub rows : S → List E
  pub add : E → S → S
  pub delete : E → S → S
  pub flush : S → S
  -- the entity as the database has it
  pub refresh : E → S → E × S
  -- statements, with the `rowcount` of the result, if it has one
  pub delete_rows : List (E → Bool) → S → Option ℤ × S
  pub insert_rows : List (List (String × V)) → S → Option ℤ × S
  pub update_rows : List (String × V) → List (E → Bool) → S → Option ℤ × S

-- `setattr` on an entity; `flag_modified` marks the attribute for the flush.
pub record Attributes (E V : Type 0) : Type 0 where
  pub set_attribute : String → V → E → E

abbrev pub rowcount_or : ℕ → Option ℤ → ℕ
rowcount_or fallback none = fallback
rowcount_or fallback (some (pos n)) = n
rowcount_or fallback (some (negsuc n)) = fallback

-- `_result_rowcount`
unfoldable pub result_rowcount : Option ℤ → ℕ → ℕ
result_rowcount rowcount fallback = rowcount_or fallback rowcount

-- `at or datetime.now(UTC)`
abbrev pub time_or : Option ℕ → ℕ → ℕ
time_or none now = now
time_or (some at) now = at

module _ {E K : Type 0} (m : Model E K) where
  unfoldable pub soft_delete : Option ℕ → ℕ → E → E
  soft_delete at now e = m.set_deleted_at (some (time_or at now)) e

  unfoldable pub restore : E → E
  restore e = m.set_deleted_at none e

module _ {S E V : Type 0} (session : Session S E V) where
  unfoldable pub add : E → S → S
  add e s = session.add e s

  unfoldable pub add_all : List E → S → S
  add_all [] s = s
  add_all (e ∷ es) s = add_all es (session.add e s)

  abbrev pub flushed : Bool → Bool → E → S → E × S
  flushed flush refresh e s =
      let s1 = if flush || refresh then session.flush s else s in
      if refresh then session.refresh e s1 else (e, s1)

  unfoldable pub create : E → (flush refresh : Bool) → S → E × S
  unfolding add
  create e flush refresh s = flushed flush refresh e (add e s)

  unfoldable pub set_values : Attributes E V → List (String × V) → E → E
  set_values attrs [] e = e
  set_values attrs ((name, value) ∷ values) e =
      set_values attrs values (attrs.set_attribute name value e)

  unfoldable pub update :
      Attributes E V → E → List (String × V) → (flush refresh : Bool) → S → E × S
  unfolding set_values
  update attrs e values flush refresh s =
      let changed = set_values attrs values e in
      flushed flush refresh changed (session.add changed s)

  unfoldable pub delete : {K : Type 0} → Model E K → E → (hard : Bool) → (now : ℕ) → S → S
  unfolding soft_delete
  delete m e hard now s =
      if m.is_soft e && not hard
      then session.add (soft_delete m none now e) s
      else session.delete e s

  unfoldable pub delete_where : List (E → Bool) → S → ℕ × S
  unfolding result_rowcount
  delete_where criteria s =
      let result = session.delete_rows criteria s in (result_rowcount result.0 0, result.1)

  unfoldable pub bulk_insert : List (List (String × V)) → S → ℕ × S
  unfolding result_rowcount
  bulk_insert values s =
      let result = session.insert_rows values s in
      if is_nil values then (0, s) else (result_rowcount result.0 (length values), result.1)

  unfoldable pub bulk_update : List (String × V) → List (E → Bool) → S → ℕ × S
  unfolding result_rowcount
  bulk_update values criteria s =
      let result = session.update_rows values criteria s in
      if is_nil values then (0, s) else (result_rowcount result.0 0, result.1)
