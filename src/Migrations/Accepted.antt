-- ===== src/Migrations/Accepted.antt =====
-- What a migration file that `assert_migration_file_safe` accepts can do.
use prodkit_storage.Common.{
  is_nil, ℕ, Bool, is_among, true, false, not, Option, none, some, String, ◌=?◌, is_empty, List, [],
  ◌∷◌, ◌++◌, keep, All-append_right, Bool-cases, eq_iff, arith, ◌>>=◌, if◌then◌else◌, Result, ok,
  err, ◌≡◌, refl, sym, ap, ◌∙◌, ◌⊎◌, inl, inr, subst,
}
use prodkit_storage.Migrations.Syntax.{Call, Block, op_method, string_argument, keyword_bool, Top}
use prodkit_storage.Migrations.Scanner.{
  Scan, destructive_ops, scan_call, scan_operation, operation_issues, index_issues,
  concurrent_index, blocking_index, is_true, issue_if, is_created,
}
use prodkit_storage.Migrations.Report.{
  MigrationSafetyReport, is_blocking, blocking_issues, if_safe, extract_waivers, find_upgrade,
  fresh_scan, inspect_migration_source, inspect_migration_file, assert_migration_file_safe,
  report_on, upgrade_issues,
}
use prodkit_storage.Migrations.Soundness.{
  Passes, keep-All, MadeIn, scan_calls-created, scan_calls-Passes,
}
use prodkit_storage.Migrations.Calls.{calls_in, scan_calls, scan_block-scan_calls, scan_calls-split}

-- `op.` calls that `_DESTRUCTIVE_OPS` names.
abbrev pub is_destructive : Option String → Bool
is_destructive none = false
is_destructive (some operation) = is_among operation destructive_ops

is_created-MadeIn :
    (segment : Call → Option String) (table : Option String) (calls : List (Bool × Call))
    → is_created table (scan_calls segment calls fresh_scan).created_tables ≡ true
    → (name : String) × (table ≡ some name) × MadeIn name calls
is_created-MadeIn segment none calls h = ground arith
is_created-MadeIn segment (some name) calls h = elim (Bool-cases (is_empty name)) [
  | inl e ↦ ground arith
  | inr e ↦ elim (scan_calls-created segment name calls fresh_scan (rw e at h)) [
    | inl old ↦ ground arith
    | inr made ↦ (name, refl, made)
  ]
]

concurrent-Passes :
    (waivers : List String) (line : ℕ) (concurrently : Option Bool) (a : Bool)
    → is_among "blocking-index" waivers ≡ false
    → is_among "concurrent-index-transaction" waivers ≡ false
    → Passes waivers (
        if not (is_true concurrently)
        then blocking_index line ∷ []
        else issue_if (not a) (concurrent_index line))
    → (concurrently ≡ some true) × (a ≡ true)
concurrent-Passes waivers line none a w v h = ground arith
concurrent-Passes waivers line (some false) a w v h = ground arith
concurrent-Passes waivers line (some true) true w v h = (refl, refl)
concurrent-Passes waivers line (some true) false w v h = ground arith

module _ (segment : Call → Option String) (waivers : List String) (a : Bool) (c : Call)
    (s : Scan) where
  scan_operation-is_destructive :
      (operation : Option String)
      → is_among "destructive-change" waivers ≡ false
      → Passes waivers (scan_operation segment a c s operation).issues
      → is_destructive operation ≡ false
  unfolding operation_issues
  scan_operation-is_destructive none unwaived h = refl
  scan_operation-is_destructive (some operation) unwaived h =
      elim (Bool-cases (operation =? "create_table")) [
        | inl made ↦ rw ((eq_iff operation "create_table").0 made)
        | inr e ↦ elim (Bool-cases (is_among operation destructive_ops)) [
          | inl bad ↦
              (let reports = rw (e, bad) at h in
                let blocks = All-append_right _ s.issues _ reports in ground arith)
          | inr good ↦ good
        ]
      ]

  scan_call-create_index :
      op_method c ≡ some "create_index"
      → is_among "blocking-index" waivers ≡ false
      → is_among "concurrent-index-transaction" waivers ≡ false
      → Passes waivers (scan_call segment a c s).issues
      → (is_created (string_argument c 1 "table_name") s.created_tables ≡ true)
        ⊎ ((keyword_bool c "postgresql_concurrently" ≡ some true) × (a ≡ true))
  unfolding scan_call operation_issues index_issues
  scan_call-create_index is w v h =
      elim (Bool-cases (is_created (string_argument c 1 "table_name") s.created_tables)) [
        | inl made ↦ inl made
        | inr old ↦ inr (
            concurrent-Passes waivers c.line (keyword_bool c "postgresql_concurrently") a w v
              (All-append_right _ s.issues _ (rw (is, old) at h)))
      ]

module _ (parse : String → Result (List Top)) (segment : String → Call → Option String)
    (read : String → Result String) where
  if_safe-inv :
      (r report : MigrationSafetyReport)
      → if_safe parse segment read r ≡ ok report
      → (r ≡ report) × Passes r.waivers r.issues
  unfolding blocking_issues
  if_safe-inv r report h = elim (Bool-cases (is_nil (keep (is_blocking r.waivers) r.issues))) [
    | inl e ↦ (ground arith, keep-All (is_blocking r.waivers) r.issues e)
    | inr e ↦ ground arith
  ]

  report_on-inv :
      (path source : String) (tops : List Top) (report : MigrationSafetyReport)
      (waivers : Result (List String))
      → ((waivers >>= (λ w. ok (report_on parse segment read source path tops w)))
          >>= if_safe parse segment read)
        ≡ ok report
      → Passes report.waivers (upgrade_issues parse segment read source (find_upgrade tops))
  report_on-inv path source tops report (err e) h = ground arith
  report_on-inv path source tops report (ok w) h =
      let inv = if_safe-inv (report_on parse segment read source path tops w) report h in
      rw (sym (ap (λ r. r.waivers) inv.0)) inv.1

  assert_migration_file_safe-inv :
      (path source : String) (tops : List Top) (report : MigrationSafetyReport)
      → read path ≡ ok source
      → parse source ≡ ok tops
      → assert_migration_file_safe parse segment read path ≡ ok report
      → Passes report.waivers (upgrade_issues parse segment read source (find_upgrade tops))
  unfolding assert_migration_file_safe inspect_migration_file inspect_migration_source
  assert_migration_file_safe-inv path source tops report reads parses h =
      report_on-inv path source tops report (extract_waivers tops) (rw (reads, parses) at h)

  -- What the call `c` of `upgrade` makes the scan report, after the calls `xs`.
  reported :
      (path source : String) (tops : List Top) (body : Block) (report : MigrationSafetyReport)
      (xs ys : List (Bool × Call)) (a : Bool) (c : Call)
      → read path ≡ ok source
      → parse source ≡ ok tops
      → find_upgrade tops ≡ some body
      → calls_in false body ≡ xs ++ (a, c) ∷ ys
      → assert_migration_file_safe parse segment read path ≡ ok report
      → Passes report.waivers
          (scan_call (segment source) a c (scan_calls (segment source) xs fresh_scan)).issues
  reported path source tops body report xs ys a c reads parses found calls h =
      let passes = assert_migration_file_safe-inv path source tops report reads parses h in
      let scan =
        scan_block-scan_calls (segment source) false body fresh_scan
        ∙ ap (λ listed. scan_calls (segment source) listed fresh_scan) calls
        ∙ scan_calls-split (segment source) xs ys a c fresh_scan in
      scan_calls-Passes (segment source) report.waivers ys _ (
        subst (Passes report.waivers)
          (ap (upgrade_issues parse segment read source) found ∙ ap (λ s. s.issues) scan) passes)

  -- A migration file that `assert_migration_file_safe` accepts, and that does not waive `destructive-change`,
  -- has no call `op.<name>(…)` of a destructive operation as a statement of `upgrade`, however the statement is
  -- nested in `with`, `if`, `for`, `while` and `try`. It is a statement about calls on the name `op` alone: one on
  -- the object of `op.batch_alter_table` is not covered.
  pub accepted-destructive :
      (path source : String) (tops : List Top) (body : Block) (report : MigrationSafetyReport)
      (xs ys : List (Bool × Call)) (a : Bool) (c : Call)
      → read path ≡ ok source
      → parse source ≡ ok tops
      → find_upgrade tops ≡ some body
      → calls_in false body ≡ xs ++ (a, c) ∷ ys
      → assert_migration_file_safe parse segment read path ≡ ok report
      → is_among "destructive-change" report.waivers ≡ false
      → is_destructive (op_method c) ≡ false
  unfolding scan_call
  accepted-destructive path source tops body report xs ys a c reads parses found calls h unwaived =
      scan_operation-is_destructive (segment source) report.waivers a c
        (scan_calls (segment source) xs fresh_scan) (op_method c) unwaived
        (reported path source tops body report xs ys a c reads parses found calls h)

  -- A migration file that `assert_migration_file_safe` accepts, and that waives neither `blocking-index` nor
  -- `concurrent-index-transaction`: a call of `op.create_index` that is a statement of `upgrade` names a table that
  -- an earlier call of `op.create_table` creates, or is concurrent and inside `autocommit_block()`.
  pub accepted-create_index :
      (path source : String) (tops : List Top) (body : Block) (report : MigrationSafetyReport)
      (xs ys : List (Bool × Call)) (a : Bool) (c : Call)
      → read path ≡ ok source
      → parse source ≡ ok tops
      → find_upgrade tops ≡ some body
      → calls_in false body ≡ xs ++ (a, c) ∷ ys
      → assert_migration_file_safe parse segment read path ≡ ok report
      → is_among "blocking-index" report.waivers ≡ false
      → is_among "concurrent-index-transaction" report.waivers ≡ false
      → op_method c ≡ some "create_index"
      → ((table : String) × (string_argument c 1 "table_name" ≡ some table) × MadeIn table xs)
        ⊎ ((keyword_bool c "postgresql_concurrently" ≡ some true) × (a ≡ true))
  accepted-create_index path source tops body report xs ys a c reads parses found calls h w v is =
      elim (scan_call-create_index (segment source) report.waivers a c
        (scan_calls (segment source) xs fresh_scan) is w v
        (reported path source tops body report xs ys a c reads parses found calls h)) [
          | inl made ↦
              inl (is_created-MadeIn (segment source) (string_argument c 1 "table_name") xs made)
          | inr concurrent ↦ inr concurrent
        ]
