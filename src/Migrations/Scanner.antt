-- ===== src/Migrations/Scanner.antt =====
-- `inspect_migration_source` behind `ast.parse`, and the scan of `upgrade`.
use prodkit_storage.Common.{
  ℕ, Bool, true, false, not, ◌&&◌, ◌||◌, Option, none, some, String, ◌=?◌, is_empty, upper,
  contains, str_append, List, [], ◌∷◌, ◌++◌, if◌then◌else◌, is_among,
}
use prodkit_storage.Migrations.Syntax.{
  Expr, boolean, Exprs, Call, Stmt, expr, with_, if_, loop, try_, Block, Blocks, no_handler,
  handler, op_method, call_method, keyword_value, string_argument, call_argument, keyword_bool,
  statement_call, is_autocommit_context,
}

pub data MigrationSeverity : Type 0 where
  warning error : MigrationSeverity

pub record MigrationSafetyIssue : Type 0 where
  pub code : String
  pub severity : MigrationSeverity
  pub line : ℕ
  pub message : String

-- `_UpgradeScanner`: the tables that the migration has created so far, and the issues.
pub record Scan : Type 0 where
  pub created_tables : List String
  pub issues : List MigrationSafetyIssue

-- `table and table in self.created_tables`
abbrev pub is_created : Option String → List String → Bool
is_created none created = false
is_created (some table) created = not (is_empty table) && is_among table created

-- `table or other`
abbrev pub or_text : Option String → Option String → Option String
or_text none other = other
or_text (some table) other = if is_empty table then other else some table

abbrev pub is_true : Option Bool → Bool
is_true none = false
is_true (some b) = b

-- `isinstance(value, ast.Constant) and value.value is False`
abbrev pub is_false_constant : Option Expr → Bool
is_false_constant (some (boolean b)) = not b
is_false_constant _ = false

abbrev pub is_given : Option Expr → Bool
is_given none = false
is_given (some e) = true

abbrev pub is_text_of : Option String → String → Bool
is_text_of none s = false
is_text_of (some t) s = t =? s

abbrev pub destructive_ops : List String
destructive_ops = "drop_table" ∷ "drop_column" ∷ "drop_constraint" ∷ "drop_index" ∷ []

abbrev pub issue : String → MigrationSeverity → ℕ → String → MigrationSafetyIssue
issue code severity line message = record {
  code = code;
  severity = severity;
  line = line;
  message = message;
}

abbrev pub issue_if : Bool → MigrationSafetyIssue → List MigrationSafetyIssue
issue_if test x = if test then x ∷ [] else []

abbrev pub blocking_index : ℕ → MigrationSafetyIssue
blocking_index line =
    issue "blocking-index" error line
      "index on an existing table must use postgresql_concurrently=True"

abbrev pub concurrent_index : ℕ → MigrationSafetyIssue
concurrent_index line =
    issue "concurrent-index-transaction" error line
      "CREATE INDEX CONCURRENTLY must run inside autocommit_block()"

abbrev pub destructive_change : ℕ → String → MigrationSafetyIssue
destructive_change line operation = issue "destructive-change" error line (
    str_append "op." (
      str_append operation
        "() is destructive in upgrade(); use expand/contract or an explicit waiver"))

abbrev pub is_column : Option Call → Bool
is_column none = false
is_column (some c) = is_text_of (call_method c) "Column"

abbrev pub lacks_backfill : Option Call → Bool
lacks_backfill none = false
lacks_backfill (some c) =
    is_column (some c)
    && is_false_constant (keyword_value c "nullable")
    && not (is_given (keyword_value c "server_default"))

-- What `_scan_call` reports of each operation, for the tables that are created so far.
unfoldable pub index_issues : List String → Bool → Call → List MigrationSafetyIssue
index_issues created autocommit c =
    if is_created (string_argument c 1 "table_name") created
    then []
    else if not (is_true (keyword_bool c "postgresql_concurrently"))
    then blocking_index c.line ∷ []
    else issue_if (not autocommit) (concurrent_index c.line)

unfoldable pub constraint_issues : List String → Call → Option String → List MigrationSafetyIssue
constraint_issues created c table =
    if is_created table created
    then []
    else issue_if (not (is_true (keyword_bool c "postgresql_not_valid"))) (
        issue "immediate-constraint-validation" error c.line
          "constraint on an existing table should be added NOT VALID and validated separately")

unfoldable pub column_issues : List String → Call → List MigrationSafetyIssue
column_issues created c =
    if is_created (string_argument c 0 "table_name") created
    then []
    else issue_if (lacks_backfill (call_argument c 1 "column")) (
        issue "non-null-column-without-backfill" error c.line
          "non-null column on an existing table requires an expand/backfill/enforce sequence")

unfoldable pub alter_issues : Call → List MigrationSafetyIssue
alter_issues c =
    issue_if (is_given (keyword_value c "type_")) (
      issue "column-type-rewrite" error c.line
        "column type changes may rewrite/lock the table; use a staged expand/backfill/switch plan")
    ++ issue_if (is_false_constant (keyword_value c "nullable")) (
        issue "set-not-null" warning c.line
          "SET NOT NULL scans existing rows; validate data and budget the lock before deployment")

unfoldable pub sql_issues : String → ℕ → List MigrationSafetyIssue
unfolding upper contains
sql_issues text_ line =
    let big = upper text_ in
    if contains "DROP TABLE" big || contains "DROP COLUMN" big || contains "DROP TYPE" big
    then issue "destructive-sql" error line "raw SQL contains a destructive DROP operation" ∷ []
    else issue "raw-sql-review" warning line
        "op.execute() requires manual lock/rewrite/idempotency review"
      ∷ []

abbrev pub add_table : Option String → List String → List String
add_table none created = created
add_table (some table) created = if is_empty table then created else table ∷ created

abbrev pub text_or_empty : Option String → String
text_or_empty none = ""
text_or_empty (some t) = t

abbrev pub any_autocommit : Exprs → Bool
any_autocommit Exprs.nil = false
any_autocommit (Exprs.cons e rest) = is_autocommit_context e || any_autocommit rest

-- `segment` is `ast.get_source_segment` of a call.
module _ (segment : Call → Option String) where
  unfoldable pub operation_issues : List String → Bool → Call → String → List MigrationSafetyIssue
  unfolding index_issues constraint_issues column_issues alter_issues sql_issues
  operation_issues created autocommit c operation =
      if is_among operation destructive_ops
      then destructive_change c.line operation ∷ []
      else if operation =? "create_index"
      then index_issues created autocommit c
      else if operation =? "create_check_constraint"
      then constraint_issues created c (string_argument c 1 "table_name")
      else if operation =? "create_foreign_key"
      then constraint_issues created c
          (or_text (string_argument c 1 "source_table") (string_argument c 1 "table_name"))
      else if operation =? "add_column"
      then column_issues created c
      else if operation =? "alter_column"
      then alter_issues c
      else if operation =? "execute"
      then sql_issues (text_or_empty (segment c)) c.line
      else []

  abbrev pub scan_operation : Bool → Call → Scan → Option String → Scan
  scan_operation autocommit c s none = s
  scan_operation autocommit c s (some operation) =
      if operation =? "create_table"
      then record s {
        created_tables = add_table (string_argument c 0 "table_name") s.created_tables;
      }
      else record s {
        issues = s.issues ++ operation_issues s.created_tables autocommit c operation;
      }

  -- `_scan_call`
  unfoldable pub scan_call : Bool → Call → Scan → Scan
  unfolding operation_issues
  scan_call autocommit c s = scan_operation autocommit c s (op_method c)

  abbrev pub scan_call? : Bool → Option Call → Scan → Scan
  scan_call? autocommit none s = s
  scan_call? autocommit (some c) s = scan_call autocommit c s

  -- `scan_block`
  unfoldable mutual
    unfolding scan_call

    pub scan_statement : Bool → Stmt → Scan → Scan
    scan_statement autocommit (expr e) s = scan_call? autocommit (statement_call (expr e)) s
    scan_statement autocommit (with_ items body) s =
        scan_block (autocommit || any_autocommit items) body s
    scan_statement autocommit (if_ body orelse) s =
        scan_block autocommit orelse (scan_block autocommit body s)
    scan_statement autocommit (loop body orelse) s =
        scan_block autocommit orelse (scan_block autocommit body s)
    scan_statement autocommit (try_ body handlers orelse final) s = scan_block autocommit final (
        scan_block autocommit orelse
          (scan_handlers autocommit handlers (scan_block autocommit body s)))
    scan_statement autocommit Stmt.other s = s

    pub scan_block : Bool → Block → Scan → Scan
    scan_block autocommit Block.nil s = s
    scan_block autocommit (Block.cons st rest) s =
        scan_block autocommit rest (scan_statement autocommit st s)

    pub scan_handlers : Bool → Blocks → Scan → Scan
    scan_handlers autocommit no_handler s = s
    scan_handlers autocommit (handler body rest) s =
        scan_handlers autocommit rest (scan_block autocommit body s)
