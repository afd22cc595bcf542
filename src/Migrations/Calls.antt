-- ===== src/Migrations/Calls.antt =====
-- The calls of `upgrade` that are statements of their own, in the order of the source: `scan_block` is one
-- pass of `_scan_call` over that list.
use prodkit_storage.Common.{
  Bool, ◌||◌, Option, none, some, String, List, [], ◌∷◌, ◌++◌, ◌≡◌, refl, sym, ap, ◌∙◌,
}
use prodkit_storage.Migrations.Syntax.{
  Call, expr, with_, if_, loop, try_, Stmt, Block, Blocks, no_handler, handler, statement_call,
}
use prodkit_storage.Migrations.Scanner.{
  Scan, any_autocommit, scan_call, scan_call?, scan_statement, scan_block, scan_handlers,
}

abbrev listed : Bool → Option Call → List (Bool × Call)
listed a none = []
listed a (some c) = (a, c) ∷ []

-- The calls that are statements, each with whether it is inside `autocommit_block()`.
unfoldable mutual
  pub calls_of : Bool → Stmt → List (Bool × Call)
  calls_of a (expr e) = listed a (statement_call (expr e))
  calls_of a (with_ items body) = calls_in (a || any_autocommit items) body
  calls_of a (if_ body orelse) = calls_in a body ++ calls_in a orelse
  calls_of a (loop body orelse) = calls_in a body ++ calls_in a orelse
  calls_of a (try_ body handlers orelse final) =
      ((calls_in a body ++ calls_in_handlers a handlers) ++ calls_in a orelse) ++ calls_in a final
  calls_of a Stmt.other = []

  pub calls_in : Bool → Block → List (Bool × Call)
  calls_in a Block.nil = []
  calls_in a (Block.cons st rest) = calls_of a st ++ calls_in a rest

  pub calls_in_handlers : Bool → Blocks → List (Bool × Call)
  calls_in_handlers a no_handler = []
  calls_in_handlers a (handler body rest) = calls_in a body ++ calls_in_handlers a rest

module _ (segment : Call → Option String) where
  -- `_scan_call` of each call in turn.
  unfoldable pub scan_calls : List (Bool × Call) → Scan → Scan
  scan_calls [] s = s
  scan_calls ((a, c) ∷ calls) s = scan_calls calls (scan_call segment a c s)

  scan_calls-append :
      (xs ys : List (Bool × Call)) (s : Scan)
      → scan_calls (xs ++ ys) s ≡ scan_calls ys (scan_calls xs s)
  unfolding scan_calls
  scan_calls-append [] ys s = refl
  scan_calls-append ((a, c) ∷ xs) ys s = scan_calls-append xs ys (scan_call segment a c s)

  scan_calls-then :
      (xs ys : List (Bool × Call)) (s t u : Scan)
      → t ≡ scan_calls xs s
      → u ≡ scan_calls ys t
      → u ≡ scan_calls (xs ++ ys) s
  scan_calls-then xs ys s t u first second =
      second ∙ ap (scan_calls ys) first ∙ sym (scan_calls-append xs ys s)

  scan_listed :
      (a : Bool) (c : Option Call) (s : Scan) → scan_call? segment a c s ≡ scan_calls (listed a c) s
  unfolding scan_calls
  scan_listed a none s = refl
  scan_listed a (some c) s = refl

  mutual
    unfolding scan_statement calls_of scan_calls

    scan_statement-calls :
        (a : Bool) (st : Stmt) (s : Scan)
        → scan_statement segment a st s ≡ scan_calls (calls_of a st) s
    scan_statement-calls a (expr e) s = scan_listed a (statement_call (expr e)) s
    scan_statement-calls a (with_ items body) s =
        scan_block-calls (a || any_autocommit items) body s
    scan_statement-calls a (if_ body orelse) s =
        scan_calls-then (calls_in a body) (calls_in a orelse) s _ _ (scan_block-calls a body s)
          (scan_block-calls a orelse (scan_block segment a body s))
    scan_statement-calls a (loop body orelse) s =
        scan_calls-then (calls_in a body) (calls_in a orelse) s _ _ (scan_block-calls a body s)
          (scan_block-calls a orelse (scan_block segment a body s))
    scan_statement-calls a (try_ body handlers orelse final) s =
        let s1 = scan_block segment a body s in
        let s2 = scan_handlers segment a handlers s1 in
        let s3 = scan_block segment a orelse s2 in
        let tried = calls_in a body in
        let handled = tried ++ calls_in_handlers a handlers in
        scan_calls-then (handled ++ calls_in a orelse) (calls_in a final) s s3 _
          (scan_calls-then handled (calls_in a orelse) s s2 s3
            (scan_calls-then tried (calls_in_handlers a handlers) s s1 s2
              (scan_block-calls a body s) (scan_handlers-calls a handlers s1))
            (scan_block-calls a orelse s2))
          (scan_block-calls a final s3)
    scan_statement-calls a Stmt.other s = refl

    scan_block-calls :
        (a : Bool) (block : Block) (s : Scan)
        → scan_block segment a block s ≡ scan_calls (calls_in a block) s
    scan_block-calls a Block.nil s = refl
    scan_block-calls a (Block.cons st rest) s =
        scan_calls-then (calls_of a st) (calls_in a rest) s _ _ (scan_statement-calls a st s)
          (scan_block-calls a rest (scan_statement segment a st s))

    scan_handlers-calls :
        (a : Bool) (handlers : Blocks) (s : Scan)
        → scan_handlers segment a handlers s ≡ scan_calls (calls_in_handlers a handlers) s
    scan_handlers-calls a no_handler s = refl
    scan_handlers-calls a (handler body rest) s =
        scan_calls-then (calls_in a body) (calls_in_handlers a rest) s _ _
          (scan_block-calls a body s) (scan_handlers-calls a rest (scan_block segment a body s))

  -- The scan of a block reports what `_scan_call` reports of each call that is a statement in it, in the order
  -- of the source, each call on the tables that the calls before it created.
  pub scan_block-scan_calls :
      (a : Bool) (block : Block) (s : Scan)
      → scan_block segment a block s ≡ scan_calls (calls_in a block) s
  scan_block-scan_calls a block s = scan_block-calls a block s

  pub scan_calls-split :
      (xs ys : List (Bool × Call)) (a : Bool) (c : Call) (s : Scan)
      → scan_calls (xs ++ (a, c) ∷ ys) s ≡ scan_calls ys (scan_call segment a c (scan_calls xs s))
  unfolding scan_calls
  scan_calls-split xs ys a c s = scan_calls-append xs ((a, c) ∷ ys) s
