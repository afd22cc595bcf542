-- ===== src/Pagination/Examples.antt =====
-- A toy cursor format and a table of two rows.
use prodkit_storage.Pagination.Offset.{Source}
use prodkit_storage.Common.{
  Bool, false, ==_iff, not, Result, true, drop, ℕ, zero, suc, ◌<◌, ◌==◌, ◌≡◌, refl, Option, none,
  some, String, List, [], ◌∷◌, ◌++◌, length, take, keep, if◌then◌else◌, ok, err, value_error, inl,
  inr, arith, Bool-cases, pos,
}
use mathlib.Core.Option
use Prim.Native.Char.{code}
use prodkit_storage.Sorting.Defs.{OrderElement, apply, asc, last}
use prodkit_storage.Sorting.Boundary.{comes_before, same_value}
use prodkit_storage.Sorting.Plans.{comes_before_asym}
use prodkit_storage.Sorting.Examples.{Cells, cell, numbers, plan}
use prodkit_storage.Pagination.Cursor.{
  Bytes, Document, legacy, state, bad_state, other_version, not_object, CursorState, Primitives,
  decode, encode_state, serialized, decode_state, decode_state-encode_state, decode_state_authentic,
}
use prodkit_storage.Pagination.Pages.{IsOrdered, Statement, Columns, walk}
use prodkit_storage.Pagination.Values.{
  Value, plain, decimal, uuid, member, PythonType, uuid_type, class_, Python, serialize,
  typed_decimal, typed_uuid,
}
use prodkit_storage.Pagination.Walk.{walk_complete}

-- Thirty-two bytes, which stand for a digest.
digest_ : Bytes → Bytes → Bytes
digest_ secret payload =
    length payload
    ∷ 0
    ∷ 0
    ∷ 0
    ∷ 0
    ∷ 0
    ∷ 0
    ∷ 0
    ∷ 0
    ∷ 0
    ∷ 0
    ∷ 0
    ∷ 0
    ∷ 0
    ∷ 0
    ∷ 0
    ∷ 0
    ∷ 0
    ∷ 0
    ∷ 0
    ∷ 0
    ∷ 0
    ∷ 0
    ∷ 0
    ∷ 0
    ∷ 0
    ∷ 0
    ∷ 0
    ∷ 0
    ∷ 0
    ∷ 0
    ∷ 0
    ∷ []

digest_size : (secret payload : Bytes) → length (digest_ secret payload) ≡ 32
unfolding digest_
digest_size secret payload = refl

dumps_ : Document ℕ → Bytes
dumps_ (legacy position tie_breaker) = 1 ∷ position ∷ tie_breaker ∷ []
dumps_ (state s none vs) = 2 ∷ s ∷ 0 ∷ 0 ∷ vs
dumps_ (state s (some q) vs) = 2 ∷ s ∷ 1 ∷ q ∷ vs
dumps_ bad_state = 3 ∷ []
dumps_ other_version = 4 ∷ []
dumps_ not_object = 5 ∷ []

loads_ : Bytes → Option (Document ℕ)
loads_ (v ∷ []) =
    if v == 3
    then some bad_state
    else if v == 4
    then some other_version
    else if v == 5
    then some not_object
    else none
loads_ (v ∷ position ∷ tie_breaker ∷ []) = some (legacy position tie_breaker)
loads_ (v ∷ s ∷ k ∷ q ∷ vs) = some (state s (if k == 1 then some q else none) vs)
loads_ _ = none

loads-dumps_ : (d : Document ℕ) → loads_ (dumps_ d) ≡ some d
unfolding loads_ dumps_
loads-dumps_ (legacy position tie_breaker) = refl
loads-dumps_ (state s none vs) = refl
loads-dumps_ (state s (some q) vs) = refl
loads-dumps_ bad_state = refl
loads-dumps_ other_version = refl
loads-dumps_ not_object = refl

dumps_nonempty_ : (d : Document ℕ) → 0 < length (dumps_ d)
unfolding dumps_
dumps_nonempty_ (legacy position tie_breaker) = omega arith
dumps_nonempty_ (state s none vs) = omega arith
dumps_nonempty_ (state s (some q) vs) = omega arith
dumps_nonempty_ _ = omega arith

-- Every byte as that many `+` and a `.`.
unary : ℕ → String → String
unary zero rest = String.◌∷◌ "." rest
unary (suc n) rest = String.◌∷◌ "+" (unary n rest)

b64encode_ : Bytes → String
b64encode_ [] = ""
b64encode_ (n ∷ bs) = unary n (b64encode_ bs)

abbrev grown : Bytes → Option Bytes
grown [] = none
grown (n ∷ bs) = some (suc n ∷ bs)

b64decode_ : String → Option Bytes
b64decode_ String.[] = some []
b64decode_ (String.◌∷◌ c s) =
    let rest = b64decode_ s in
    if code c == b'.' then Option.map (λ (bs : Bytes). 0 ∷ bs) rest else Option.bind rest grown

decode-unary :
    (n : ℕ) (s : String) (bs : Bytes)
    → b64decode_ s ≡ some bs
    → b64decode_ (unary n s) ≡ some (n ∷ bs)
unfolding b64decode_ unary Option.bind
decode-unary zero s bs h = rw h
decode-unary (suc n) s bs h = rw (decode-unary n s bs h)

b64decode-b64encode_ : (b : Bytes) → b64decode_ (b64encode_ b) ≡ some b
unfolding b64encode_
b64decode-b64encode_ [] = unfold b64decode_ in refl
b64decode-b64encode_ (n ∷ bs) = decode-unary n (b64encode_ bs) bs (b64decode-b64encode_ bs)

abbrev toy : Primitives ℕ
toy = record {
  hmac = digest_;
  hmac_size = digest_size;
  dumps = dumps_;
  loads = loads_;
  loads-dumps = loads-dumps_;
  dumps_nonempty = dumps_nonempty_;
  b64encode = b64encode_;
  b64decode = b64decode_;
  b64decode-b64encode = b64decode-b64encode_;
}

-- Zero is null, and every text is the number that it stands for, plus one.
abbrev is_zero : ℕ → Bool
is_zero zero = true
is_zero (suc n) = false

abbrev number_of : ℕ → ℕ
number_of zero = 0
number_of (suc n) = n

abbrev read_number : ℕ → Result ℕ
read_number j = ok (number_of j)

is_text : (n : ℕ) → (is_zero (suc n) ≡ false) × (read_number (suc n) ≡ ok n)
is_text n = (refl, refl)

member_read :
    (c i j : ℕ)
    → (j == suc i) ≡ true
    → ◌≡◌ {A = Result (Value ℕ)} (ok (member c (number_of j) (plain j))) (ok (member c i (plain j)))
member_read c i j h = rw ((==_iff j (suc i)).0 h)

constructed :
    (k j : ℕ)
    → not (k == 1) ≡ true
    → ◌≡◌ {A = Result (Value ℕ)}
        (if k == 1 then ok (decimal (number_of j)) else ok (plain j))
        (ok (plain j))
constructed k j h = ground arith

abbrev python : Python ℕ
python = record {
  null = 0;
  is_null = is_zero;
  null_lem = refl;
  array = λ js. suc (length js);
  str_uuid = suc;
  read_uuid = read_number;
  uuid_lem = is_text;
  isoformat_datetime = suc;
  datetime_fromisoformat = read_number;
  datetime_lem = is_text;
  isoformat_date = suc;
  date_fromisoformat = read_number;
  date_lem = is_text;
  is_member = λ c i j. j == suc i;
  enum_member = λ c j. ok (member c (number_of j) (plain j));
  enum_lem = member_read;
  construct = λ k j. if k == 1 then ok (decimal (number_of j)) else ok (plain j);
  str_decimal = suc;
  decimal_class = 1;
  decimal_lem = λ n. (refl, refl);
  is_instance = λ k j. not (k == 1);
  construct_lem = constructed;
}

-- The first column holds decimals, the others hold UUIDs.
abbrev column_type : ℕ → PythonType
column_type zero = class_ 1
column_type (suc c) = uuid_type

abbrev column_value : ℕ → ℕ → Value ℕ
column_value zero x = decimal x
column_value (suc c) x = uuid x

abbrev bound_value : Value ℕ → Option ℕ
bound_value (decimal x) = some x
bound_value (uuid x) = some x
bound_value _ = none

bound_column : (c x : ℕ) → bound_value (column_value c x) ≡ some x
bound_column zero x = refl
bound_column (suc c) x = refl

abbrev columns : Columns ℕ
columns = record {
  python = python;
  python_type = λ c. some (column_type c);
  attribute = column_value;
  parameter = λ c v. bound_value v;
  parameter_none = λ c. refl;
  parameter-attribute = bound_column;
}

abbrev cheap : Cells
cheap = some 3 ∷ some 8 ∷ []

abbrev dear : Cells
dear = some 5 ∷ some 9 ∷ []

two_rows : List OrderElement → List Cells
two_rows o = if comes_before numbers o dear cheap then dear ∷ cheap ∷ [] else cheap ∷ dear ∷ []

two_rows-IsOrdered : (o : List OrderElement) → IsOrdered (comes_before numbers o) (two_rows o)
unfolding two_rows
two_rows-IsOrdered o = elim (Bool-cases (comes_before numbers o dear cheap)) [
  | inl e ↦ rw e ((comes_before_asym numbers o dear cheap e, tt), (tt, tt))
  | inr e ↦ rw e ((e, tt), (tt, tt))
]

abbrev table : Statement numbers
table = record {
  rows = two_rows;
  rows_ordered = two_rows-IsOrdered;
  scalars = λ where_ o limit. take limit (keep where_ (two_rows o));
  scalars_lem = λ where_ o limit. refl;
  same = λ r t. same_value (cell 1 r) (cell 1 t);
  unique = λ rs. rs;
  unique_lem = λ rs h. refl;
}

abbrev cursor_state : CursorState (Value ℕ)
cursor_state = record {
  sort_fingerprint = 77;
  values = decimal 6 ∷ uuid 10 ∷ [];
  query_fingerprint = none;
}

decode_state-encode_state_example :
    (decode_state toy [] (encode_state toy python [] cursor_state)
      ≡ ok (record { sort_fingerprint = 77; values = 7 ∷ 11 ∷ []; query_fingerprint = none }))
    × (decode toy [] (encode_state toy python [] cursor_state) ≡ err value_error)
unfolding serialize
decode_state-encode_state_example = decode_state-encode_state toy python [] cursor_state

decode_state_authentic_example :
    (payload : Bytes) × (b64decode_ (encode_state toy python [] cursor_state)
      ≡ some (digest_ [] payload ++ payload))
    × (loads_ payload ≡ some (state 77 none (7 ∷ 11 ∷ [])))
unfolding serialize
decode_state_authentic_example =
    decode_state_authentic toy [] (encode_state toy python [] cursor_state)
      (serialized toy python [] cursor_state)
      (decode_state-encode_state toy python [] cursor_state).0

walk_complete_example :
    walk toy [] columns numbers table plan none 3 none (pos 1) ≡ ok (dear ∷ cheap ∷ [])
unfolding two_rows comes_before apply
walk_complete_example =
    walk_complete toy [] columns numbers table plan none 1 3
      (record { column = 1; direction = asc; nulls = last }) (typed_decimal, (typed_uuid, tt))
      ((refl, tt), (tt, tt)) (inr (inl refl)) ((refl, tt), (tt, tt)) (omega arith) (omega arith)
      (omega arith)

abbrev five : Source ℕ
five = record {
  rows = 1 ∷ 2 ∷ 3 ∷ 4 ∷ 5 ∷ [];
  scalars = λ offset limit. take limit (drop offset (1 ∷ 2 ∷ 3 ∷ 4 ∷ 5 ∷ []));
  scalars_lem = λ offset limit. refl;
  same = λ x y. x == y;
  unique = λ xs. xs;
  unique_lem = λ xs h. refl;
  count = 5;
  count_lem = refl;
}
