-- ===== src/Redis.antt =====
-- What the Redis clients of src/prodkit_storage/redis rely on of the server, which is not in this
-- repository: an interface. Each law is documented behaviour of one command on text values. Times
-- are milliseconds.
pub mod Cells
use prodkit_storage.Common.{
  ℕ, ◌+◌, ◌<◌, ◌≤◌, ◌≡◌, ◌⊎◌, inl, inr, Bool, true, false, Option, none, some, String, ◌=?◌,
  if◌then◌else◌, arith, eq_iff, leb, ltb,
}

abbrev pub is_some : {A : Type 0} → Option A → Bool
is_some none = false
is_some (some a) = true

pub record Redis : Type 1 where
  pub Server : Type 0
  -- GET
  pub get : Server → String → Option String
  -- SET key value PX ttl
  pub set : Server → String → String → ℕ → Server
  pub get-set :
      (s : Server) (k j v : String) (ttl : ℕ)
      → 0 < ttl
      → get (set s k v ttl) j ≡ (if k =? j then some v else get s j)
  -- SET key value NX PX ttl, and whether it set
  pub set_nx : Server → String → String → ℕ → Bool × Server
  pub set_nx_lem :
      (s : Server) (k v : String) (ttl : ℕ)
      → set_nx s k v ttl ≡ (if is_some (get s k) then (false, s) else (true, set s k v ttl))
  -- DEL, and how many keys it removed
  pub del : Server → String → ℕ × Server
  pub del_count : (s : Server) (k : String) → (del s k).0 ≡ (if is_some (get s k) then 1 else 0)
  pub get-del : (s : Server) (k j : String) → get (del s k).1 j ≡ (if k =? j then none else get s j)
  -- PEXPIRE, and whether the key was there
  pub pexpire : Server → String → ℕ → ℕ × Server
  pub pexpire_count :
      (s : Server) (k : String) (ttl : ℕ)
      → (pexpire s k ttl).0 ≡ (if is_some (get s k) then 1 else 0)
  pub get-pexpire :
      (s : Server) (k j : String) (ttl : ℕ) → 0 < ttl → get (pexpire s k ttl).1 j ≡ get s j
  -- Time passes: a key is as it was, or it has expired. One that was just set lives for its ttl.
  pub wait : Server → ℕ → Server
  pub get-wait :
      (s : Server) (n : ℕ) (k : String) → (get (wait s n) k ≡ get s k) ⊎ (get (wait s n) k ≡ none)
  pub wait-set :
      (s : Server) (k v : String) (ttl n : ℕ) → n < ttl → get (wait (set s k v ttl) n) k ≡ some v
