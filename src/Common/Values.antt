-- ===== src/Common/Values.antt =====
-- The JSON values that the program stores and passes on. Numbers with a fraction are left out.
use Prim.Native.Nat.{ℕ}
use Prim.Native.String.{String}
use mathlib.Core.Bool.{Bool}
use mathlib.Core.List.{List, [], ◌∷◌}
use prodkit_storage.Common.Strings.{◌=?◌}
use prodkit_storage.Common.Tests.{if◌then◌else◌}

mutual
  pub data Json : Type 0 where
    null : Json
    boolean : Bool → Json
    number : ℕ → Json
    string : String → Json
    array : Items → Json
    object : Fields → Json

  pub data Items : Type 0 where
    nil : Items
    cons : Json → Items → Items

  pub data Fields : Type 0 where
    end : Fields
    field : String → Json → Fields → Fields

-- A Python `dict` with string keys, in insertion order.
abbrev pub Dict : Type 0
Dict = List (String × Json)

-- `d.setdefault(key, value)`
unfoldable pub setdefault : String → Json → Dict → Dict
setdefault k v [] = (k, v) ∷ []
setdefault k v ((j, w) ∷ d) = if j =? k then (j, w) ∷ d else (j, w) ∷ setdefault k v d
