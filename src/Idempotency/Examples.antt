-- ===== src/Idempotency/Examples.antt =====
-- A codec for texts, and the theorems at one key.
use prodkit_storage.Common.{
  ◌==◌, ◌≡◌, refl, Option, none, some, String, ◌=?◌, if◌then◌else◌, ap, err, pos,
  idempotency_conflict,
}
use mathlib.Core.Option
use Prim.Native.Char.{code}
use prodkit_storage.Redis.Cells.{Cells, cells, cells_get}
use prodkit_storage.Idempotency.Defs.{Record, Codec, begin}
use prodkit_storage.Idempotency.Slots.{
  Stores, Call, begins, Call-kept, here, begin_after_completion,
}

-- A text with an end mark, in front of what follows: every character after a `+`, then `.`.
marked : String → String → String
marked String.[] rest = String.◌∷◌ "." rest
marked (String.◌∷◌ a s) rest = String.◌∷◌ "+" (String.◌∷◌ a (marked s rest))

unmark : String → Option (String × String)
unmark String.[] = none
unmark (String.◌∷◌ c String.[]) = if code c == b'.' then some (String.[], String.[]) else none
unmark (String.◌∷◌ c (String.◌∷◌ a s)) =
    if code c == b'.'
    then some (String.[], String.◌∷◌ a s)
    else Option.map (λ (x, rest). (String.◌∷◌ a x, rest)) (unmark s)

unmark-marked : (s rest : String) → unmark (marked s rest) ≡ some (s, rest)
unfolding unmark marked
unmark-marked String.[] String.[] = refl
unmark-marked String.[] (String.◌∷◌ a rest) = refl
unmark-marked (String.◌∷◌ a s) rest =
    ap (Option.map (λ (x, rest). (String.◌∷◌ a x, rest))) (unmark-marked s rest)

dumps_ : Record String → String
dumps_ (Record.in_progress t f) = String.◌∷◌ "p" (marked t (marked f ""))
dumps_ (Record.completed f response) = String.◌∷◌ "c" (marked f (marked response ""))

two_texts : String → Option (String × String)
two_texts s = Option.bind (unmark s) (λ (x, rest). Option.map (λ (y, _). (x, y)) (unmark rest))

two_texts-marked : (x y : String) → two_texts (marked x (marked y "")) ≡ some (x, y)
unfolding two_texts Option.bind
two_texts-marked x y = rw (unmark-marked x (marked y "")) (rw (unmark-marked y ""))

loads_ : String → Option (Record String)
loads_ String.[] = none
loads_ (String.◌∷◌ c s) =
    Option.map (λ (x, y). if code c == b'p' then Record.in_progress x y else Record.completed x y)
      (two_texts s)

loads-dumps_ : (x : Record String) → loads_ (dumps_ x) ≡ some x
unfolding loads_ dumps_
loads-dumps_ (Record.in_progress t f) = rw (two_texts-marked t f)
loads-dumps_ (Record.completed f response) = rw (two_texts-marked f response)

texts : Codec String
texts = record { dumps = dumps_; loads = loads_; loads-dumps = loads-dumps_ }

abbrev empty : Cells
empty = record { clock = 0; cell = λ k. none }

abbrev after : Record String → Cells
after x = record {
  clock = 0;
  cell = λ k. if "pay-7" =? k then some (texts.dumps x, 60000) else none;
}

nothing : cells_get empty "pay-7" ≡ none
unfolding cells_get
nothing = refl

running :
    Stores cells texts (after (Record.in_progress "t1" "f1")) "pay-7" (Record.in_progress "t1" "f1")
unfolding cells_get
running = refl

finished :
    Stores cells texts (after (Record.completed "f1" "paid")) "pay-7" (Record.completed "f1" "paid")
unfolding cells_get
finished = refl

abbrev intruder :
    Call cells texts "t2"
      (after (Record.in_progress "t1" "f1"))
      (begin cells texts "pay-7" "f1" "t2" (pos 60) (after (Record.in_progress "t1" "f1"))).1
intruder = begins "pay-7" "f1" (pos 60) refl

Call-kept_example :
    Stores cells texts
      (begin cells texts "pay-7" "f1" "t2" (pos 60) (after (Record.in_progress "t1" "f1"))).1
      "pay-7"
      (Record.in_progress "t1" "f1")
Call-kept_example =
    Call-kept cells texts (after (Record.in_progress "t1" "f1")) "pay-7" "t2"
      (Record.in_progress "t1" "f1") running refl intruder

begin_after_completion_example :
    begin cells texts "pay-7" "f2" "t3" (pos 60) (after (Record.completed "f1" "paid"))
    ≡ (err idempotency_conflict, after (Record.completed "f1" "paid"))
begin_after_completion_example =
    begin_after_completion cells texts (after (Record.completed "f1" "paid"))
      (after (Record.completed "f1" "paid")) "pay-7" "f1" "f2" "t3" "paid" (pos 60) finished here
      refl
