-- ===== src/Common/Strings.antt =====
-- What the program uses of Python's `str`: whitespace, `strip`, slices and prefixes.
use Prim.Native.Nat.{ℕ, zero, suc, ◌%◌, ◌/◌}
use Prim.Native.Char.{Char, code}
use Prim.Native.String.{String}
use mathlib.Core.Bool.{Bool, true, false, ◌&&◌, ◌||◌}
use mathlib.Core.List.{List, [], ◌∷◌}
use text.Mathlib.Text.{◌==◌ as str_eq}
use prodkit_storage.Common.Tests.{leb, ◌==◌, if◌then◌else◌}

infix 50 ◌=?◌
abbrev pub ◌=?◌ : String → String → Bool
s =? t = str_eq s t

-- `s in ts`
abbrev pub is_among : String → List String → Bool
is_among s [] = false
is_among s (t ∷ ts) = (t =? s) || is_among s ts

-- `str.isspace` of one character, which `strip` removes.
unfoldable pub is_space : ℕ → Bool
is_space c =
    leb 9 c && leb c 13
    || leb 28 c && leb c 32
    || c == 133
    || c == 160
    || c == 5760
    || leb 8192 c && leb c 8202
    || c == 8232
    || c == 8233
    || c == 8239
    || c == 8287
    || c == 12288

unfoldable pub lstrip : String → String
unfolding is_space
lstrip String.[] = String.[]
lstrip (String.◌∷◌ c s) = if is_space (code c) then lstrip s else String.◌∷◌ c s

unfoldable pub rev_onto : String → String → String
rev_onto String.[] acc = acc
rev_onto (String.◌∷◌ c s) acc = rev_onto s (String.◌∷◌ c acc)

unfoldable pub strip : String → String
unfolding lstrip rev_onto
strip s = rev_onto (lstrip (rev_onto (lstrip s) String.[])) String.[]

abbrev pub is_empty : String → Bool
is_empty String.[] = true
is_empty (String.◌∷◌ c s) = false

-- `s[:n]`
unfoldable pub str_take : ℕ → String → String
str_take zero s = String.[]
str_take (suc n) String.[] = String.[]
str_take (suc n) (String.◌∷◌ c s) = String.◌∷◌ c (str_take n s)

unfoldable pub str_append : String → String → String
str_append String.[] t = t
str_append (String.◌∷◌ c s) t = String.◌∷◌ c (str_append s t)

-- `sep.join(parts)`
unfoldable pub str_join : String → List String → String
unfolding str_append
str_join sep [] = String.[]
str_join sep (s ∷ []) = s
str_join sep (s ∷ t ∷ rest) = str_append s (str_append sep (str_join sep (t ∷ rest)))

-- `str.lower` and `str.upper`, for the letters of ASCII: the others are left as they are.
abbrev letters : List (Char × Char)
letters =
    ("A", "a")
    ∷ ("B", "b")
    ∷ ("C", "c")
    ∷ ("D", "d")
    ∷ ("E", "e")
    ∷ ("F", "f")
    ∷ ("G", "g")
    ∷ ("H", "h")
    ∷ ("I", "i")
    ∷ ("J", "j")
    ∷ ("K", "k")
    ∷ ("L", "l")
    ∷ ("M", "m")
    ∷ ("N", "n")
    ∷ ("O", "o")
    ∷ ("P", "p")
    ∷ ("Q", "q")
    ∷ ("R", "r")
    ∷ ("S", "s")
    ∷ ("T", "t")
    ∷ ("U", "u")
    ∷ ("V", "v")
    ∷ ("W", "w")
    ∷ ("X", "x")
    ∷ ("Y", "y")
    ∷ ("Z", "z")
    ∷ []

lower_by : List (Char × Char) → Char → Char
lower_by [] c = c
lower_by ((big, small) ∷ table) c = if code big == code c then small else lower_by table c

upper_by : List (Char × Char) → Char → Char
upper_by [] c = c
upper_by ((big, small) ∷ table) c = if code small == code c then big else upper_by table c

unfoldable pub lower : String → String
unfolding lower_by
lower String.[] = String.[]
lower (String.◌∷◌ c s) = String.◌∷◌ (lower_by letters c) (lower s)

unfoldable pub upper : String → String
unfolding upper_by
upper String.[] = String.[]
upper (String.◌∷◌ c s) = String.◌∷◌ (upper_by letters c) (upper s)

-- `s.startswith(prefix)` and `part in s`
unfoldable pub starts_with : String → String → Bool
starts_with String.[] s = true
starts_with (String.◌∷◌ c p) String.[] = false
starts_with (String.◌∷◌ c p) (String.◌∷◌ d s) = code c == code d && starts_with p s

unfoldable pub contains : String → String → Bool
unfolding starts_with
contains part String.[] = is_empty part
contains part (String.◌∷◌ c s) = starts_with part (String.◌∷◌ c s) || contains part s

-- `str(n)`. The fuel is more than the number of digits.
digits : List Char
digits = "0" ∷ "1" ∷ "2" ∷ "3" ∷ "4" ∷ "5" ∷ "6" ∷ "7" ∷ "8" ∷ "9" ∷ []

digit_at : ℕ → List Char → Char
digit_at n [] = "0"
digit_at zero (c ∷ cs) = c
digit_at (suc n) (c ∷ cs) = digit_at n cs

show_onto : ℕ → ℕ → String → String
unfolding digits digit_at
show_onto zero n acc = acc
show_onto (suc fuel) n acc =
    let acc' = String.◌∷◌ (digit_at (n % 10) digits) acc in
    let rest = show_onto fuel (n / 10) acc' in if leb n 9 then acc' else rest

unfoldable pub str_of : ℕ → String
unfolding show_onto
str_of n = show_onto (suc n) n String.[]
