-- ===== src/Redis/Cells.antt =====
-- A server that meets the interface, for the examples.
use prodkit_storage.Common.{
  ℕ, ◌+◌, ◌<◌, ◌≡◌, ◌⊎◌, Bool, true, false, Option, none, some, String, ◌=?◌, if◌then◌else◌, arith,
  eq_iff, ltb,
}
use prodkit_storage.Redis.{Redis, is_some}

-- A server as a clock and a function: every key's text with the time at which it expires.
pub record Cells : Type 0 where
  pub clock : ℕ
  pub cell : String → Option (String × ℕ)

abbrev pub live : ℕ → Option (String × ℕ) → Option String
live now none = none
live now (some (v, expires)) = if ltb now expires then some v else none

unfoldable pub cells_get : Cells → String → Option String
cells_get s k = live s.clock (s.cell k)

abbrev pub put :
    (String → Option (String × ℕ)) → String → Option (String × ℕ) → String → Option (String × ℕ)
put f k o j = if k =? j then o else f j

unfoldable pub cells_set : Cells → String → String → ℕ → Cells
cells_set s k v ttl = record s { cell = put s.cell k (some (v, s.clock + ttl)) }

pub cells_get-set :
    (s : Cells) (k j v : String) (ttl : ℕ)
    → 0 < ttl
    → cells_get (cells_set s k v ttl) j ≡ (if k =? j then some v else cells_get s j)
unfolding cells_get cells_set
cells_get-set s k j v ttl h = ground arith

unfoldable pub cells_set_nx : Cells → String → String → ℕ → Bool × Cells
unfolding cells_get cells_set
cells_set_nx s k v ttl = if is_some (cells_get s k) then (false, s) else (true, cells_set s k v ttl)

pub cells_set_nx_lem :
    (s : Cells) (k v : String) (ttl : ℕ)
    → cells_set_nx s k v ttl
      ≡ (if is_some (cells_get s k) then (false, s) else (true, cells_set s k v ttl))
unfolding cells_set_nx
cells_set_nx_lem s k v ttl = ground arith

unfoldable pub cells_del : Cells → String → ℕ × Cells
unfolding cells_get
cells_del s k = (if is_some (cells_get s k) then 1 else 0, record s { cell = put s.cell k none })

pub cells_del_count :
    (s : Cells) (k : String) → (cells_del s k).0 ≡ (if is_some (cells_get s k) then 1 else 0)
unfolding cells_del
cells_del_count s k = ground arith

pub cells_get-del :
    (s : Cells) (k j : String)
    → cells_get (cells_del s k).1 j ≡ (if k =? j then none else cells_get s j)
unfolding cells_get cells_del
cells_get-del s k j = ground arith

abbrev pub renew : ℕ → Option (String × ℕ) → Option (String × ℕ)
renew expires none = none
renew expires (some (v, e)) = some (v, expires)

unfoldable pub cells_pexpire : Cells → String → ℕ → ℕ × Cells
unfolding cells_get
cells_pexpire s k ttl =
    if is_some (cells_get s k)
    then (1, record s { cell = put s.cell k (renew (s.clock + ttl) (s.cell k)) })
    else (0, s)

pub cells_pexpire_count :
    (s : Cells) (k : String) (ttl : ℕ)
    → (cells_pexpire s k ttl).0 ≡ (if is_some (cells_get s k) then 1 else 0)
unfolding cells_pexpire
cells_pexpire_count s k ttl = ground arith

pub cells_get-pexpire :
    (s : Cells) (k j : String) (ttl : ℕ)
    → 0 < ttl
    → cells_get (cells_pexpire s k ttl).1 j ≡ cells_get s j
unfolding cells_pexpire cells_get
cells_get-pexpire s k j ttl h = ground (arith, eq_iff k j)

unfoldable pub cells_wait : Cells → ℕ → Cells
cells_wait s n = record s { clock = s.clock + n }

pub cells_get-wait :
    (s : Cells) (n : ℕ) (k : String)
    → (cells_get (cells_wait s n) k ≡ cells_get s k) ⊎ (cells_get (cells_wait s n) k ≡ none)
unfolding cells_wait cells_get
cells_get-wait s n k = ground arith

pub cells_wait-set :
    (s : Cells) (k v : String) (ttl n : ℕ)
    → n < ttl
    → cells_get (cells_wait (cells_set s k v ttl) n) k ≡ some v
unfolding cells_wait cells_get cells_set
cells_wait-set s k v ttl n h = ground (arith, eq_iff k k)

abbrev pub cells : Redis
cells = record {
  Server = Cells;
  get = cells_get;
  set = cells_set;
  get-set = cells_get-set;
  set_nx = cells_set_nx;
  set_nx_lem = cells_set_nx_lem;
  del = cells_del;
  del_count = cells_del_count;
  get-del = cells_get-del;
  pexpire = cells_pexpire;
  pexpire_count = cells_pexpire_count;
  get-pexpire = cells_get-pexpire;
  wait = cells_wait;
  get-wait = cells_get-wait;
  wait-set = cells_wait-set;
}
