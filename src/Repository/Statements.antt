-- ===== src/Repository/Statements.antt =====
-- The statements that the repository builds. A `Select` holds what the repository sets on it; its criteria are tests
-- of an entity, and a loader option is a name.
use prodkit_storage.Common.{
  ℕ, Bool, true, false, not, ◌&&◌, ◌||◌, Option, none, some, String, List, [], ◌∷◌, ◌++◌,
  if◌then◌else◌, Result, ok, err, value_error, type_error, ◌>>=◌, ◌>>◌, raise_if,
}

pub record RowLock : Type 0 where
  pub nowait : Bool
  pub skip_locked : Bool
  pub read : Bool
  pub key_share : Bool

-- `__post_init__`
unfoldable pub row_lock : RowLock → Result RowLock
row_lock lock = raise_if (lock.nowait && lock.skip_locked) value_error >> ok lock

-- A mapped class: its `id`, if it has the attribute, and the columns of `SoftDeleteMixin`. `same_id` is SQL's `=`.
pub record Model (E K : Type 0) : Type 0 where
  pub has_id : Bool
  pub identity : E → K
  pub same_id : K → K → Bool
  -- `issubclass(model, SoftDeleteMixin)` and `isinstance(entity, SoftDeleteMixin)`
  pub soft_deletes : Bool
  pub is_soft : E → Bool
  pub deleted_at : E → Option ℕ
  pub set_deleted_at : Option ℕ → E → E

pub record Select (E : Type 0) : Type 0 where
  pub criteria : List (E → Bool)
  pub options : List String
  pub lock : Option RowLock
  pub yield_per : Option ℕ

abbrev pub is_some : {A : Type 0} → Option A → Bool
is_some none = false
is_some (some a) = true

module _ {E : Type 0} where
  -- `select(model)`
  abbrev pub select : Select E
  select = record { criteria = []; options = []; lock = none; yield_per = none }

  abbrev pub where_all : List (E → Bool) → Select E → Select E
  where_all tests st = record st { criteria = st.criteria ++ tests }

  abbrev pub with_options : List String → Select E → Select E
  with_options options st = record st { options = st.options ++ options }

  -- `_apply_row_lock`
  unfoldable pub apply_row_lock : RowLock → Select E → Select E
  apply_row_lock lock st = record st { lock = some lock }

module _ {E K : Type 0} (m : Model E K) where
  -- `model.deleted_at.is_(None)`
  abbrev pub not_deleted : E → Bool
  not_deleted e = not (is_some (m.deleted_at e))

  unfoldable pub apply_soft_delete : Bool → Select E → Select E
  apply_soft_delete include_deleted st =
      if not include_deleted && m.soft_deletes then where_all (not_deleted ∷ []) st else st

  unfoldable pub base_statement : Bool → Select E
  unfolding apply_soft_delete
  base_statement include_deleted = apply_soft_delete include_deleted select

  -- `_identity_column(model) == identity`
  unfoldable pub identity_is : K → Result (E → Bool)
  identity_is identity =
      if m.has_id then ok (λ e. m.same_id (m.identity e) identity) else err type_error

  abbrev pub locked_statement : Bool → Bool → Bool → Option RowLock → Select E → Result (Select E)
  locked_statement for_update nowait skip_locked (some lock) st =
      raise_if (for_update || nowait || skip_locked) value_error >> ok (apply_row_lock lock st)
  locked_statement for_update nowait skip_locked none st =
      let legacy : RowLock = record {
        nowait = nowait;
        skip_locked = skip_locked;
        read = false;
        key_share = false;
      } in
      if for_update
      then row_lock legacy >>= (λ lock. ok (apply_row_lock lock st))
      else if nowait || skip_locked
      then err value_error
      else ok st

  -- The statement that `get` executes.
  unfoldable pub get_statement :
      K
      → (options : List String) (for_update nowait skip_locked : Bool) → Option RowLock
      → (include_deleted : Bool) → Result (Select E)
  unfolding base_statement identity_is apply_row_lock row_lock
  get_statement identity options for_update nowait skip_locked lock include_deleted =
      identity_is identity >>= (λ test.
        let found = where_all (test ∷ []) (base_statement include_deleted) in
        locked_statement for_update nowait skip_locked lock (with_options options found))

  -- The statement of `list`, `stream` and `count`: the caller's, or all entities.
  unfoldable pub query : Option (Select E) → Bool → Select E
  unfolding base_statement apply_soft_delete
  query none include_deleted = base_statement include_deleted
  query (some st) include_deleted = apply_soft_delete include_deleted st
