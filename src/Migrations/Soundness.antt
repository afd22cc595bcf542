-- ===== src/Migrations/Soundness.antt =====
-- The scan only adds issues, and a table that it counts as created was created by a call before.
use prodkit_storage.Common.{
  is_nil, Bool, is_among, true, false, Option, none, some, String, ◌=?◌, is_empty, List, [], ◌∷◌,
  keep, All, All-append_left, Bool-cases, eq_iff, arith, ◌≡◌, refl, ap, ◌∙◌, ◌⊎◌, inl, inr,
}
use prodkit_storage.Migrations.Syntax.{Call, op_method, string_argument}
use prodkit_storage.Migrations.Scanner.{
  MigrationSafetyIssue, Scan, scan_call, scan_operation, add_table,
}
use prodkit_storage.Migrations.Report.{is_blocking}
use prodkit_storage.Migrations.Calls.{scan_calls}

-- No issue of the list blocks.
abbrev pub Passes : List String → List MigrationSafetyIssue → Type 0
Passes waivers = All (λ x. is_blocking waivers x ≡ false)

pub keep-All :
    {A : Type 0} (p : A → Bool) (xs : List A)
    → is_nil (keep p xs) ≡ true
    → All (λ x. p x ≡ false) xs
keep-All p [] h = tt
keep-All p (x ∷ xs) h = elim (Bool-cases (p x)) [
  | inl e ↦ ground arith
  | inr e ↦ (e, keep-All p xs (rw e at h))
]

-- A call that creates a table, and a table that one of the calls creates.
abbrev pub Creates : String → Call → Type 0
Creates table c =
    (op_method c ≡ some "create_table") × (string_argument c 0 "table_name" ≡ some table)

abbrev pub MadeIn : String → List (Bool × Call) → Type 0
MadeIn table [] = ⊥
MadeIn table ((a, c) ∷ calls) = Creates table c ⊎ MadeIn table calls

is_among-add_table :
    (table : String) (made : Option String) (created : List String)
    → is_among table (add_table made created) ≡ true
    → (is_among table created ≡ true) ⊎ (made ≡ some table)
is_among-add_table table none created h = inl h
is_among-add_table table (some name) created h = elim (Bool-cases (is_empty name)) [
  | inl e ↦ inl (rw e at h)
  | inr e ↦ elim (Bool-cases (name =? table)) [
    | inl same ↦ inr (ap some ((eq_iff name table).0 same))
    | inr differ ↦ inl (rw (e, differ) at h)
  ]
]

module _ (segment : Call → Option String) where
  -- A scan only adds issues.
  scan_operation-Passes :
      (waivers : List String) (a : Bool) (c : Call) (s : Scan) (operation : Option String)
      → Passes waivers (scan_operation segment a c s operation).issues
      → Passes waivers s.issues
  scan_operation-Passes waivers a c s none h = h
  scan_operation-Passes waivers a c s (some operation) h =
      elim (Bool-cases (operation =? "create_table")) [
        | inl e ↦ rw e at h
        | inr e ↦ All-append_left _ s.issues _ (rw e at h)
      ]

  scan_call-Passes :
      (waivers : List String) (a : Bool) (c : Call) (s : Scan)
      → Passes waivers (scan_call segment a c s).issues
      → Passes waivers s.issues
  unfolding scan_call
  scan_call-Passes waivers a c s h = scan_operation-Passes waivers a c s (op_method c) h

  pub scan_calls-Passes :
      (waivers : List String) (calls : List (Bool × Call)) (s : Scan)
      → Passes waivers (scan_calls segment calls s).issues
      → Passes waivers s.issues
  unfolding scan_calls
  scan_calls-Passes waivers [] s h = h
  scan_calls-Passes waivers ((a, c) ∷ calls) s h =
      scan_call-Passes waivers a c s (scan_calls-Passes waivers calls (scan_call segment a c s) h)

  scan_operation-created :
      (table : String) (a : Bool) (c : Call) (s : Scan) (operation : Option String)
      → op_method c ≡ operation
      → is_among table (scan_operation segment a c s operation).created_tables ≡ true
      → (is_among table s.created_tables ≡ true) ⊎ Creates table c
  scan_operation-created table a c s none is h = inl h
  scan_operation-created table a c s (some operation) is h =
      elim (Bool-cases (operation =? "create_table")) [
        | inl e ↦
            elim (is_among-add_table table (string_argument c 0 "table_name") s.created_tables
              (rw e at h)) [
                | inl old ↦ inl old
                | inr made ↦ inr (is ∙ ap some ((eq_iff operation "create_table").0 e), made)
              ]
        | inr e ↦ inl (rw e at h)
      ]

  scan_call-created :
      (table : String) (a : Bool) (c : Call) (s : Scan)
      → is_among table (scan_call segment a c s).created_tables ≡ true
      → (is_among table s.created_tables ≡ true) ⊎ Creates table c
  unfolding scan_call
  scan_call-created table a c s h = scan_operation-created table a c s (op_method c) refl h

  pub scan_calls-created :
      (table : String) (calls : List (Bool × Call)) (s : Scan)
      → is_among table (scan_calls segment calls s).created_tables ≡ true
      → (is_among table s.created_tables ≡ true) ⊎ MadeIn table calls
  unfolding scan_calls
  scan_calls-created table [] s h = inl h
  scan_calls-created table ((a, c) ∷ calls) s h =
      elim (scan_calls-created table calls (scan_call segment a c s) h) [
        | inl before ↦ elim (scan_call-created table a c s before) [
          | inl old ↦ inl old
          | inr made ↦ inr (inl made)
        ]
        | inr made ↦ inr (inr made)
      ]
