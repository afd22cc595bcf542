-- ===== src/Migrations/Report.antt =====
-- The report of a migration file: the waivers, `inspect_migration_source`, `inspect_migration_file` and
-- `assert_migration_file_safe`. The exception's text is left out.
use prodkit_storage.Common.{
  is_nil, Bool, is_among, true, false, not, ◌&&◌, ◌||◌, Option, none, some, String, ◌=?◌, List, [],
  ◌∷◌, keep, if◌then◌else◌, Result, ok, err, value_error, migration_unsafe, ◌>>=◌,
}
use prodkit_storage.Migrations.Syntax.{
  Call, Expr, text, identifier, Exprs, Block, Assigned, literal, not_literal, Top, function, assign,
}
use prodkit_storage.Migrations.Scanner.{
  MigrationSeverity, warning, error, MigrationSafetyIssue, Scan, issue, scan_block,
}

pub record MigrationSafetyReport : Type 0 where
  pub path : String
  pub issues : List MigrationSafetyIssue
  pub waivers : List String

abbrev pub is_error : MigrationSeverity → Bool
is_error warning = false
is_error error = true

abbrev pub is_blocking : List String → MigrationSafetyIssue → Bool
is_blocking waivers x = is_error x.severity && not (is_among x.code waivers)

unfoldable pub blocking_issues : MigrationSafetyReport → List MigrationSafetyIssue
blocking_issues r = keep (is_blocking r.waivers) r.issues

unfoldable pub safe : MigrationSafetyReport → Bool
unfolding blocking_issues
safe r = is_nil (blocking_issues r)

-- Whether `migration_safety_allow` is one of the targets of an assignment.
abbrev pub is_waiver_name : Expr → Bool
is_waiver_name (identifier id) = id =? "migration_safety_allow"
is_waiver_name _ = false

abbrev pub has_waiver_target : Exprs → Bool
has_waiver_target Exprs.nil = false
has_waiver_target (Exprs.cons target rest) = is_waiver_name target || has_waiver_target rest

abbrev pub add_waiver : Expr → List String → Result (List String)
add_waiver (text s) rest = ok (s ∷ rest)
add_waiver _ rest = err value_error

abbrev pub literal_strings : Exprs → Result (List String)
literal_strings Exprs.nil = ok []
literal_strings (Exprs.cons e rest) = literal_strings rest >>= add_waiver e

abbrev pub waivers_of : Assigned → Result (List String)
waivers_of (literal elements) = literal_strings elements
waivers_of not_literal = err value_error

-- `_extract_waivers`
unfoldable pub extract_waivers : List Top → Result (List String)
extract_waivers [] = ok []
extract_waivers (function name body ∷ tops) = extract_waivers tops
extract_waivers (assign targets value ∷ tops) =
    let rest = extract_waivers tops in if has_waiver_target targets then waivers_of value else rest
extract_waivers (Top.other ∷ tops) = extract_waivers tops

-- The first function named `upgrade`.
abbrev pub find_upgrade : List Top → Option Block
find_upgrade [] = none
find_upgrade (function name body ∷ tops) =
    if name =? "upgrade" then some body else find_upgrade tops
find_upgrade (assign targets value ∷ tops) = find_upgrade tops
find_upgrade (Top.other ∷ tops) = find_upgrade tops

abbrev pub fresh_scan : Scan
fresh_scan = record { created_tables = []; issues = [] }

abbrev pub missing_upgrade : MigrationSafetyIssue
missing_upgrade = issue "missing-upgrade" error 1 "Alembic revision does not define upgrade()"

-- `parse` is `ast.parse`, `segment` is `ast.get_source_segment` and `read` reads a file.
module _ (parse : String → Result (List Top)) (segment : String → Call → Option String)
    (read : String → Result String) where
  abbrev pub upgrade_issues : String → Option Block → List MigrationSafetyIssue
  upgrade_issues source none = missing_upgrade ∷ []
  upgrade_issues source (some body) =
      let scanner = scan_block (segment source) false body fresh_scan in scanner.issues

  abbrev pub report_on : String → String → List Top → List String → MigrationSafetyReport
  report_on source path tops waivers = record {
    path = path;
    issues = upgrade_issues source (find_upgrade tops);
    waivers = waivers;
  }

  unfoldable pub inspect_migration_source : String → String → Result MigrationSafetyReport
  unfolding scan_block extract_waivers
  inspect_migration_source source path = do
    tops ← parse source
    waivers ← extract_waivers tops
    ok (report_on source path tops waivers)

  unfoldable pub inspect_migration_file : String → Result MigrationSafetyReport
  unfolding inspect_migration_source
  inspect_migration_file path = do source ← read path; inspect_migration_source source path

  abbrev pub if_safe : MigrationSafetyReport → Result MigrationSafetyReport
  if_safe report = if not (is_nil (blocking_issues report)) then err migration_unsafe else ok report

  unfoldable pub assert_migration_file_safe : String → Result MigrationSafetyReport
  unfolding inspect_migration_file blocking_issues
  assert_migration_file_safe path = inspect_migration_file path >>= if_safe
