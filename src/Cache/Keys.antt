-- ===== src/Cache/Keys.antt =====
-- `KeyBuilder`. `quote` is `urllib.parse.quote` with `safe="-_.~"`, and `sha256` the hexadecimal digest of a text's
-- UTF-8 bytes.
use Prim.Native.Char.{code}
use prodkit_storage.Common.{
  ℕ, ◌+◌, ◌-◌, String, is_empty, strip, str_append, str_join, str_take, str_of, List, [], ◌∷◌,
  if◌then◌else◌, Result, ok, value_error, ◌>>=◌, ◌>>◌, raise_if, ℤ, pos, pos_part, leb_ℤ, ltb, leb,
}

pub record KeyBuilder : Type 0 where
  pub namespace : String
  pub version : ℕ
  pub max_length : ℕ

-- `len(key.encode("utf-8"))`
abbrev pub byte_length : String → ℕ
byte_length String.[] = 0
byte_length (String.◌∷◌ c s) =
    (if ltb (code c) 128
      then 1
      else if ltb (code c) 2048
      then 2
      else if ltb (code c) 65536
      then 3
      else 4)
    + byte_length s

module _ (quote sha256 : String → String) where
  unfoldable pub segment : String → Result String
  unfolding strip
  segment value =
      let stripped = strip value in raise_if (is_empty stripped) value_error >> ok (quote stripped)

  -- `__init__`
  unfoldable pub key_builder : String → (version max_length : ℤ) → Result KeyBuilder
  unfolding segment
  key_builder namespace version max_length = do
    raise_if (leb_ℤ version (pos 0)) value_error
    raise_if (leb_ℤ max_length (pos 79)) value_error
    quoted ← segment namespace
    ok (record { namespace = quoted; version = pos_part version; max_length = pos_part max_length })

  unfoldable pub segments : List String → Result (List String)
  unfolding segment
  segments [] = ok []
  segments (part ∷ parts) = do quoted ← segment part; rest ← segments parts; ok (quoted ∷ rest)

  abbrev pub head_of : KeyBuilder → List String
  head_of keys = keys.namespace ∷ str_append "v" (str_of keys.version) ∷ []

  abbrev pub shortened : KeyBuilder → String → String
  shortened keys key =
      let suffix = str_append ":sha256:" (sha256 key) in
      str_append (str_take (keys.max_length - byte_length suffix) (str_join ":" (head_of keys)))
        suffix

  abbrev pub fitted : KeyBuilder → String → String
  fitted keys key = if leb (byte_length key) keys.max_length then key else shortened keys key

  unfoldable pub build : KeyBuilder → List String → Result String
  unfolding segments str_join str_append str_of str_take
  build keys parts = segments parts >>= (λ quoted.
      ok (
        fitted keys
          (str_join ":" (keys.namespace ∷ str_append "v" (str_of keys.version) ∷ quoted))))

  unfoldable pub tag : KeyBuilder → String → Result String
  unfolding build
  tag keys name = build keys ("tag" ∷ name ∷ [])
