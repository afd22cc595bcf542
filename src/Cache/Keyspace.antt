-- ===== src/Cache/Keyspace.antt =====
-- What Redis documents of the commands that the cache runs: texts and sets, each with the second at which it expires.
use prodkit_storage.Common.{
  ℕ, ◌+◌, Bool, false, not, Option, none, some, String, ◌=?◌, is_among, List, [], ◌∷◌,
  if◌then◌else◌, ltb, ◌≡◌,
}

pub data Content : Type 0 where
  text : String → Content
  members : List String → Content

pub record Cell : Type 0 where
  pub content : Content
  pub expires : Option ℕ

pub record Keyspace : Type 0 where
  pub clock : ℕ
  pub cell : String → Option Cell

-- An expired key is gone.
abbrev pub is_over : ℕ → Option ℕ → Bool
is_over now none = false
is_over now (some t) = not (ltb now t)

abbrev pub if_live : ℕ → Option Cell → Option Cell
if_live now none = none
if_live now (some c) = if is_over now c.expires then none else some c

abbrev pub at : Keyspace → String → Option Cell
at ks key = if_live ks.clock (ks.cell key)

abbrev pub put : Keyspace → String → Option Cell → Keyspace
put ks key c = record ks { cell = λ j. if key =? j then c else ks.cell j }

abbrev pub text_of : Option Cell → Option String
text_of none = none
text_of (some c) = elim c.content [ text s ↦ some s | members ms ↦ none ]

abbrev pub members_of : Option Cell → List String
members_of none = []
members_of (some c) = elim c.content [ text s ↦ [] | members ms ↦ ms ]

-- SET key value EX ttl
abbrev pub set_in : String → String → ℕ → Keyspace → Keyspace
set_in key v ttl ks =
    put ks key (some (record { content = text v; expires = some (ks.clock + ttl) }))

-- SADD key member. Of a key that holds a text it is an error, which the keys of tags never do.
abbrev pub with_member : String → Option Cell → Option Cell
with_member m none = some (record { content = members (m ∷ []); expires = none })
with_member m (some c) = some (record c {
  content =
      members
        (if is_among m (members_of (some c)) then members_of (some c) else m ∷ members_of (some c));
})

abbrev pub sadd_in : String → String → Keyspace → Keyspace
sadd_in key m ks = put ks key (with_member m (at ks key))

-- EXPIRE key ttl NX, and GT, for which a key that does not expire is later than every time
abbrev pub nx : ℕ → Option Cell → Option Cell
nx t none = none
nx t (some c) = elim c.expires [ none ↦ some (record c { expires = some t }) | some e ↦ some c ]

abbrev pub gt : ℕ → Option Cell → Option Cell
gt t none = none
gt t (some c) = elim c.expires [
  | none ↦ some c
  | some e ↦ if ltb e t then some (record c { expires = some t }) else some c
]

abbrev pub expire_nx_in : String → ℕ → Keyspace → Keyspace
expire_nx_in key ttl ks = put ks key (nx (ks.clock + ttl) (at ks key))

abbrev pub expire_gt_in : String → ℕ → Keyspace → Keyspace
expire_gt_in key ttl ks = put ks key (gt (ks.clock + ttl) (at ks key))

abbrev pub del_in : String → Keyspace → Keyspace
del_in key ks = put ks key none

abbrev pub wait_in : ℕ → Keyspace → Keyspace
wait_in n ks = record ks { clock = ks.clock + n }

-- A server whose commands do this.
pub record Server : Type 1 where
  pub State : Type 0
  pub view : State → Keyspace
  pub get : State → String → Option String
  pub get_lem : (s : State) (k : String) → get s k ≡ text_of (at (view s) k)
  pub smembers : State → String → List String
  pub smembers_lem : (s : State) (k : String) → smembers s k ≡ members_of (at (view s) k)
  pub set : String → String → ℕ → State → State
  pub set_lem :
      (k v : String) (ttl : ℕ) (s : State) → view (set k v ttl s) ≡ set_in k v ttl (view s)
  pub sadd : String → String → State → State
  pub sadd_lem : (k m : String) (s : State) → view (sadd k m s) ≡ sadd_in k m (view s)
  pub expire_nx : String → ℕ → State → State
  pub expire_nx_lem :
      (k : String) (ttl : ℕ) (s : State) → view (expire_nx k ttl s) ≡ expire_nx_in k ttl (view s)
  pub expire_gt : String → ℕ → State → State
  pub expire_gt_lem :
      (k : String) (ttl : ℕ) (s : State) → view (expire_gt k ttl s) ≡ expire_gt_in k ttl (view s)
  -- the number of keys that were deleted
  pub del : String → State → ℕ × State
  pub del_lem : (k : String) (s : State) → view (del k s).1 ≡ del_in k (view s)
