-- ===== src/Pagination/Values.antt =====
-- `_serialize` and `_coerce`: the Python values of a cursor, over the type `J` of JSON values. UUIDs, decimals,
-- datetimes and dates are numbered, and Python's own conversions are arguments.
use prodkit_storage.Common.{
  ℕ, ◌≡◌, Bool, true, false, Option, none, some, List, [], ◌∷◌, if◌then◌else◌, Result, ok, ◌>>=◌,
}

mutual
  -- A value is plain when it is JSON as it is, `None` included. A member of an enumeration carries its value.
  pub data Value (J : Type 0) : Type 0 where
    plain : J → Value J
    uuid decimal datetime date : ℕ → Value J
    member : (enumeration index : ℕ) → Value J → Value J
    tuple_ list_ : Values J → Value J

  pub data Values (J : Type 0) : Type 0 where
    nil : Values J
    cons : Value J → Values J → Values J

-- `column.type.python_type`: the types that `_coerce` knows, and any other class.
pub data PythonType : Type 0 where
  uuid_type datetime_type date_type : PythonType
  enum_type class_ : ℕ → PythonType

-- What `_serialize` and `_coerce` call: `str`, `isoformat`, and the classes' own conversions, each with what Python
-- documents of it.
pub record Python (J : Type 0) : Type 0 where
  pub null : J
  pub is_null : J → Bool
  pub null_lem : is_null null ≡ true
  pub array : List J → J
  pub str_uuid : ℕ → J
  pub read_uuid : J → Result ℕ
  pub uuid_lem : (n : ℕ) → (is_null (str_uuid n) ≡ false) × (read_uuid (str_uuid n) ≡ ok n)
  pub isoformat_datetime : ℕ → J
  pub datetime_fromisoformat : J → Result ℕ
  pub datetime_lem :
      (n : ℕ)
      → (is_null (isoformat_datetime n) ≡ false)
        × (datetime_fromisoformat (isoformat_datetime n) ≡ ok n)
  pub isoformat_date : ℕ → J
  pub date_fromisoformat : J → Result ℕ
  pub date_lem :
      (n : ℕ)
      → (is_null (isoformat_date n) ≡ false) × (date_fromisoformat (isoformat_date n) ≡ ok n)
  -- the members with a plain value, and the enumeration called on a value
  pub is_member : (enumeration index : ℕ) → J → Bool
  pub enum_member : (enumeration : ℕ) → J → Result (Value J)
  pub enum_lem :
      (c i : ℕ) (j : J) → is_member c i j ≡ true → enum_member c j ≡ ok (member c i (plain j))
  -- any other class called on a value: `Decimal` reads its own text, and the classes of JSON's own values, as `int`
  -- and `str`, give back their instances
  pub construct : ℕ → J → Result (Value J)
  pub str_decimal : ℕ → J
  pub decimal_class : ℕ
  pub decimal_lem :
      (n : ℕ)
      → (is_null (str_decimal n) ≡ false)
        × (construct decimal_class (str_decimal n) ≡ ok (decimal n))
  pub is_instance : ℕ → J → Bool
  pub construct_lem : (k : ℕ) (j : J) → is_instance k j ≡ true → construct k j ≡ ok (plain j)

module _ {J : Type 0} (py : Python J) where
  unfoldable mutual
    pub serialize : Value J → J
    serialize (plain j) = j
    serialize (uuid n) = py.str_uuid n
    serialize (decimal n) = py.str_decimal n
    serialize (datetime n) = py.isoformat_datetime n
    serialize (date n) = py.isoformat_date n
    serialize (member c i v) = serialize v
    serialize (tuple_ vs) = py.array (serialize_items vs)
    serialize (list_ vs) = py.array (serialize_items vs)

    pub serialize_items : Values J → List J
    serialize_items nil = []
    serialize_items (cons v vs) = serialize v ∷ serialize_items vs

  -- The call of the column's type. `none`: the column has no `python_type`.
  abbrev pub convert : Option PythonType → J → Result (Value J)
  convert none j = ok (plain j)
  convert (some uuid_type) j = py.read_uuid j >>= λ n. ok (uuid n)
  convert (some datetime_type) j = py.datetime_fromisoformat j >>= λ n. ok (datetime n)
  convert (some date_type) j = py.date_fromisoformat j >>= λ n. ok (date n)
  convert (some (enum_type c)) j = py.enum_member c j
  convert (some (class_ k)) j = py.construct k j

  unfoldable pub coerce : Option PythonType → J → Result (Value J)
  coerce python_type j =
      let value = convert python_type j in if py.is_null j then ok (plain py.null) else value

  -- The values of a column that its cursor gives back: those of a type that `_serialize` and `_coerce` both handle.
  pub data IsTyped : Option PythonType → Value J → Type 0 where
    untyped : (j : J) → py.is_null j ≡ false → IsTyped none (plain j)
    typed_uuid : (n : ℕ) → IsTyped (some uuid_type) (uuid n)
    typed_datetime : (n : ℕ) → IsTyped (some datetime_type) (datetime n)
    typed_date : (n : ℕ) → IsTyped (some date_type) (date n)
    typed_enum :
        (c i : ℕ) (j : J)
        → py.is_null j ≡ false
        → py.is_member c i j ≡ true
        → IsTyped (some (enum_type c)) (member c i (plain j))
    typed_decimal : (n : ℕ) → IsTyped (some (class_ py.decimal_class)) (decimal n)
    typed_plain :
        (k : ℕ) (j : J)
        → py.is_null j ≡ false
        → py.is_instance k j ≡ true
        → IsTyped (some (class_ k)) (plain j)

  -- The column's type reads back what such a value was serialized to.
  pub coerce-serialize :
      {t : Option PythonType} {v : Value J} → IsTyped t v → coerce t (serialize v) ≡ ok v
  unfolding coerce serialize
  coerce-serialize (untyped j h) = rw h
  coerce-serialize (typed_uuid n) = rw ((py.uuid_lem n).0, (py.uuid_lem n).1)
  coerce-serialize (typed_datetime n) = rw ((py.datetime_lem n).0, (py.datetime_lem n).1)
  coerce-serialize (typed_date n) = rw ((py.date_lem n).0, (py.date_lem n).1)
  coerce-serialize (typed_enum c i j h k) = rw h (py.enum_lem c i j k)
  coerce-serialize (typed_decimal n) = rw (py.decimal_lem n).0 (py.decimal_lem n).1
  coerce-serialize (typed_plain k j h i) = rw h (py.construct_lem k j i)

  pub coerce-null :
      (t : Option PythonType) → coerce t (serialize (plain py.null)) ≡ ok (plain py.null)
  unfolding coerce serialize
  coerce-null t = rw py.null_lem
