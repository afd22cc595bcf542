-- ===== src/Audit/Values.antt =====
-- The payloads that audit events are made from, as Python holds them, and as they are stored.
use prodkit_storage.Common.{ℕ, String, List, ◌=?◌, if◌then◌else◌}

-- A value is a scalar (with `repr` and all), or a reference to a container. Containers stand in a heap,
-- so that a payload may share them and may hold itself. `S` is the type of the scalars.
pub data Value (S : Type 0) : Type 0 where
  scalar : S → Value S
  ref : ℕ → Value S

-- A `Mapping`, with `str(key)` for each key, or a list or tuple.
pub data Container (S : Type 0) : Type 0 where
  mapping : List (String × Value S) → Container S
  sequence : List (Value S) → Container S

abbrev pub Heap : Type 0 → Type 0
Heap S = ℕ → Container S

-- What `sanitize` returns: fresh containers, the scalars that are kept, and the texts that stand for
-- masked and hashed values.
mutual
  pub data Clean (S : Type 0) : Type 0 where
    kept : S → Clean S
    replaced : String → Clean S
    object : CleanFields S → Clean S
    array : CleanItems S → Clean S

  pub data CleanFields (S : Type 0) : Type 0 where
    end : CleanFields S
    field : String → Clean S → CleanFields S → CleanFields S

  pub data CleanItems (S : Type 0) : Type 0 where
    nil : CleanItems S
    cons : Clean S → CleanItems S → CleanItems S

-- `sanitized[key] = value`: a key that is there keeps its place.
unfoldable pub put : {S : Type 0} → String → Clean S → CleanFields S → CleanFields S
put k v end = field k v end
put k v (field j w rest) = if j =? k then field j v rest else field j w (put k v rest)

unfoldable pub snoc : {S : Type 0} → CleanItems S → Clean S → CleanItems S
snoc nil v = cons v nil
snoc (cons w rest) v = cons w (snoc rest v)
