-- ===== src/Migrations/Examples.antt =====
-- A migration that creates a table, indexes it, and indexes an older table concurrently.
use prodkit_storage.Common.{
  true, false, Option, some, String, List, [], ◌∷◌, Result, ok, err, migration_unsafe, ◌≡◌, refl,
  ◌⊎◌,
}
use prodkit_storage.Migrations.Syntax.{
  Expr, text, boolean, identifier, attribute, Exprs, Keywords, named, end, Call, Stmt, expr, with_,
  if_, try_, no_handler, Block, Top, function, statement_call, is_autocommit_context, op_method,
  string_argument, keyword_bool,
}
use prodkit_storage.Migrations.Report.{MigrationSafetyReport, assert_migration_file_safe}
use prodkit_storage.Migrations.Calls.{calls_in}
use prodkit_storage.Migrations.Soundness.{MadeIn}
use prodkit_storage.Migrations.Accepted.{
  is_destructive, accepted-destructive, accepted-create_index,
}

abbrev op_call : String → Exprs → Keywords → Expr
op_call name args keywords = Expr.call (attribute (identifier "op") name) args keywords 7 0

abbrev one : Expr → Exprs
one e = Exprs.cons e Exprs.nil

abbrev two : Expr → Expr → Exprs
two e f = Exprs.cons e (one f)

abbrev just : Stmt → Block
just st = Block.cons st Block.nil

abbrev make_users : Expr
make_users = op_call "create_table" (one (text "users")) end

abbrev index_users : Expr
index_users = op_call "create_index" (two (text "ix_users") (text "users")) end

abbrev index_orders : Expr
index_orders =
    op_call "create_index" (two (text "ix_orders") (text "orders"))
      (named (some "postgresql_concurrently") (boolean true) end)

abbrev autocommit_block : Expr
autocommit_block = Expr.call (attribute Expr.other "autocommit_block") Exprs.nil end 9 1

abbrev body : Block
body = Block.cons (expr make_users) (
    Block.cons (if_ (just (expr index_users)) Block.nil)
      (just (with_ (one autocommit_block) (just (expr index_orders)))))

abbrev dropping : Block
dropping = just (
    try_ (just (expr (op_call "drop_table" (one (text "users")) end))) no_handler Block.nil
      Block.nil)

abbrev tops_of : Block → List Top
tops_of b = Top.other ∷ function "upgrade" b ∷ []

abbrev parse_as : Block → String → Result (List Top)
parse_as b source = ok (tops_of b)

abbrev segment : String → Call → Option String
segment source c = some source

abbrev read : String → Result String
read path = ok "the source"

abbrev report : MigrationSafetyReport
report = record { path = "versions/1.py"; issues = []; waivers = [] }

abbrev as_call : Expr → Call
as_call (Expr.call f args keywords line node) = record {
  function = f;
  args = args;
  keywords = keywords;
  line = line;
  node = node;
}
as_call e = record { function = e; args = Exprs.nil; keywords = end; line = 0; node = 0 }

accepted : assert_migration_file_safe (parse_as body) segment read "versions/1.py" ≡ ok report
unfolding assert_migration_file_safe statement_call op_method string_argument keyword_bool
    is_autocommit_context
accepted = refl

dropping_refused :
    assert_migration_file_safe (parse_as dropping) segment read "versions/1.py"
    ≡ err migration_unsafe
unfolding assert_migration_file_safe statement_call op_method
dropping_refused = refl

calls :
    calls_in false body
    ≡ (false, as_call make_users) ∷ (false, as_call index_users) ∷ (true, as_call index_orders) ∷ []
unfolding calls_in statement_call is_autocommit_context
calls = refl

-- The tables that one branch creates count in the other: the index of the branch that does not create the table is
-- accepted.
abbrev branches : Block
branches = just (if_ (just (expr make_users)) (just (expr index_users)))

other_branch :
    assert_migration_file_safe (parse_as branches) segment read "versions/1.py" ≡ ok report
unfolding assert_migration_file_safe statement_call op_method string_argument
other_branch = refl

accepted-destructive_example : is_destructive (op_method (as_call index_users)) ≡ false
accepted-destructive_example =
    accepted-destructive (parse_as body) segment read "versions/1.py" "the source" (tops_of body)
      body report ((false, as_call make_users) ∷ []) ((true, as_call index_orders) ∷ []) false
      (as_call index_users) refl refl refl calls accepted refl

accepted-create_index_example :
    ((table : String) × (string_argument (as_call index_users) 1 "table_name" ≡ some table)
      × MadeIn table ((false, as_call make_users) ∷ []))
    ⊎ ((keyword_bool (as_call index_users) "postgresql_concurrently" ≡ some true) × (false ≡ true))
unfolding op_method
accepted-create_index_example =
    accepted-create_index (parse_as body) segment read "versions/1.py" "the source" (tops_of body)
      body report ((false, as_call make_users) ∷ []) ((true, as_call index_orders) ∷ []) false
      (as_call index_users) refl refl refl calls accepted refl refl refl
