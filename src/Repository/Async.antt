-- ===== src/Repository/Async.antt =====
-- `AsyncRepository`: the statements and the calls of `SyncRepository`, each call awaited. The session's state is what the
-- coroutine finds when it is resumed.
use prodkit_storage.Common.{ℕ, Bool, Option, String, List, Result, ℤ}
use prodkit_storage.Repository.Statements.{RowLock, Model, Select}
use prodkit_storage.Repository.Reads.{
  Streamed, get_one, get_one_or_none, get_all, get, require, list, stream, count, exists_in,
}
use prodkit_storage.Repository.Writes.{
  Session, Attributes, create, update, delete, delete_where, bulk_insert, bulk_update,
}

module _ {E : Type 0} where
  unfoldable pub get_one_async : Select E → List E → Result E
  unfolding get_one
  get_one_async st rows = get_one st rows

  unfoldable pub get_one_or_none_async : Select E → List E → Result (Option E)
  unfolding get_one_or_none
  get_one_or_none_async st rows = get_one_or_none st rows

  unfoldable pub get_all_async : Select E → List E → List E
  unfolding get_all
  get_all_async st rows = get_all st rows

module _ {E K : Type 0} (m : Model E K) where
  unfoldable pub get_async :
      K
      → (options : List String) (for_update nowait skip_locked : Bool) → Option RowLock
      → (include_deleted : Bool) → List E
      → Result (Option E)
  unfolding get
  get_async identity options for_update nowait skip_locked lock include_deleted rows =
      get m identity options for_update nowait skip_locked lock include_deleted rows

  unfoldable pub require_async :
      K
      → (options : List String) (for_update nowait skip_locked : Bool) → Option RowLock
      → (include_deleted : Bool) → List E
      → Result E
  unfolding require
  require_async identity options for_update nowait skip_locked lock include_deleted rows =
      require m identity options for_update nowait skip_locked lock include_deleted rows

  unfoldable pub list_async : Option (Select E) → List String → Bool → List E → List E
  unfolding list
  list_async statement options include_deleted rows = list m statement options include_deleted rows

  unfoldable pub stream_async :
      Option (Select E) → (yield_per : ℤ) → Bool → (n : ℕ) → List E → Result (Streamed E)
  unfolding stream
  stream_async statement yield_per include_deleted n rows =
      stream m statement yield_per include_deleted n rows

  unfoldable pub count_async : Option (Select E) → Bool → List E → ℕ
  unfolding count
  count_async statement include_deleted rows = count m statement include_deleted rows

  unfoldable pub exists_async : List (E → Bool) → Bool → List E → Bool
  unfolding exists_in
  exists_async criteria include_deleted rows = exists_in m criteria include_deleted rows

module _ {S E V : Type 0} (session : Session S E V) where
  unfoldable pub create_async : E → (flush refresh : Bool) → S → E × S
  unfolding create
  create_async e flush refresh s = create session e flush refresh s

  unfoldable pub update_async :
      Attributes E V → E → List (String × V) → (flush refresh : Bool) → S → E × S
  unfolding update
  update_async attrs e values flush refresh s = update session attrs e values flush refresh s

  unfoldable pub delete_async : {K : Type 0} → Model E K → E → (hard : Bool) → (now : ℕ) → S → S
  unfolding delete
  delete_async m e hard now s = delete session m e hard now s

  unfoldable pub delete_where_async : List (E → Bool) → S → ℕ × S
  unfolding delete_where
  delete_where_async criteria s = delete_where session criteria s

  unfoldable pub bulk_insert_async : List (List (String × V)) → S → ℕ × S
  unfolding bulk_insert
  bulk_insert_async values s = bulk_insert session values s

  unfoldable pub bulk_update_async : List (String × V) → List (E → Bool) → S → ℕ × S
  unfolding bulk_update
  bulk_update_async values criteria s = bulk_update session values criteria s
