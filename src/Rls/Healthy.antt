-- ===== src/Rls/Healthy.antt =====
-- When `verify_rls_sync` reports a healthy deployment.
use prodkit_storage.Common.{
  is_nil, Bool, true, false, not, ◌&&◌, Option, none, some, String, ◌=?◌, is_among, List, [], ◌∷◌,
  ◌++◌, map, keep, All, Result, ok, err, ◌>>◌, ◌==◌, ◌≡◌, refl, sym, ◌∙◌, ◌↔◌, inl, inr, arith,
  Bool-cases, not-eq_false, subst,
}
use prodkit_storage.Rls.Defs.{
  RlsVerificationReport, RoleRow, TableRow, Catalogue, text_if, owned_by, role_status, table_status,
  role_issues, table_issues, all_table_issues, missing_issue, owner_issue, enabled_issue,
  force_issue, policy_issue, missing_tables, insert_name, sorted_set, str_leb, build_report,
  is_identifier, check_all, validate_inputs, verify_rls_sync,
}

-- The role is there, is no superuser and does not bypass row-level security.
abbrev pub RoleFine : Option RoleRow → Type 0
RoleFine none = ⊥
RoleFine (some row) = (row.rolsuper ≡ false) × (row.rolbypassrls ≡ false)

-- The role does not own the table, which has row-level security, forced if this is required, and a policy.
abbrev pub TableFine : String → Bool → TableRow → Type 0
TableFine role force row =
    (owned_by row.owner_name role ≡ false)
    × (row.rls_enabled ≡ true)
    × ((force && not row.force_rls) ≡ false)
    × ((row.policy_count == 0) ≡ false)

is_nil-append :
    {A : Type 0} (xs ys : List A)
    → (is_nil (xs ++ ys) ≡ true) ↔ ((is_nil xs ≡ true) × (is_nil ys ≡ true))
is_nil-append [] ys = ((λ h. (refl, h)), (λ h. h.1))
is_nil-append (x ∷ xs) ys = ((λ h. ground arith), (λ h. ground arith))

is_nil-text_if : (test : Bool) (t : String) → (is_nil (text_if test t) ≡ true) ↔ (test ≡ false)
is_nil-text_if true t = ((λ h. ground arith), (λ h. ground arith))
is_nil-text_if false t = ((λ h. refl), (λ h. refl))

text_if-append :
    (test : Bool) (t : String) (rest : List String)
    → (is_nil (text_if test t ++ rest) ≡ true) ↔ ((test ≡ false) × (is_nil rest ≡ true))
text_if-append true t rest = ((λ h. ground arith), (λ h. ground arith))
text_if-append false t rest = ((λ h. (refl, h)), (λ h. h.1))

is_nil-insert_name : (s : String) (ts : List String) → is_nil (insert_name s ts) ≡ false
is_nil-insert_name s [] = refl
is_nil-insert_name s (t ∷ ts) = elim (Bool-cases (s =? t)) [
  | inl same ↦ rw same
  | inr other ↦ elim (Bool-cases (str_leb s t)) [
    | inl first ↦ rw (other, first)
    | inr later ↦ rw (other, later)
  ]
]

is_nil-sorted_set : (ts : List String) → is_nil (sorted_set ts) ≡ is_nil ts
unfolding sorted_set
is_nil-sorted_set [] = refl
is_nil-sorted_set (t ∷ ts) = is_nil-insert_name t (sorted_set ts)

is_nil-map : {A B : Type 0} (f : A → B) (xs : List A) → is_nil (map f xs) ≡ is_nil xs
is_nil-map f [] = refl
is_nil-map f (x ∷ xs) = refl

keep-All :
    {A : Type 0} (p : A → Bool) (xs : List A)
    → (is_nil (keep (λ x. not (p x)) xs) ≡ true) ↔ All (λ x. p x ≡ true) xs
keep-All p [] = ((λ h. tt), (λ h. refl))
keep-All p (x ∷ xs) =
    let ih = keep-All p xs in
    elim (Bool-cases (p x)) [
      | inl held ↦ rw held ((λ h. (refl, ih.0 h)), (λ h. ih.1 h.1))
      | inr fails ↦ rw fails ((λ h. ground arith), (λ h. ground arith))
    ]

check_all_ok :
    (tables : List String) → check_all tables ≡ ok tt → All (λ t. is_identifier t ≡ true) tables
check_all_ok [] h = tt
check_all_ok (t ∷ ts) h = elim (Bool-cases (is_identifier t)) [
  | inl e ↦ (e, check_all_ok ts (rw e at h))
  | inr e ↦ (let wrong = rw e at h in ground arith)
]

validate_inputs_ok :
    (role : String) (tables : List String) (schema : String)
    → validate_inputs role tables schema ≡ ok tt
    → (is_identifier role ≡ true)
      × (is_identifier schema ≡ true)
      × (is_nil tables ≡ false)
      × All (λ t. is_identifier t ≡ true) tables
unfolding validate_inputs
validate_inputs_ok role tables schema h = elim (Bool-cases (is_identifier role)) [
  | inr e ↦ (let wrong = rw e at h in ground arith)
  | inl e ↦ elim (Bool-cases (is_identifier schema)) [
    | inr f ↦ (let wrong = rw (e, f) at h in ground arith)
    | inl f ↦ elim (Bool-cases (is_nil tables)) [
      | inl g ↦ (let wrong = rw (e, f, g) at h in ground arith)
      | inr g ↦ (e, f, g, check_all_ok tables (rw (e, f, g) at h))
    ]
  ]
]

module _ (repr : String → String) where
  role_issues-RoleFine :
      (role : String) (row : Option RoleRow)
      → (is_nil (role_issues repr role (role_status role row)) ≡ true) ↔ RoleFine row
  role_issues-RoleFine role none = ((λ h. ground arith), (λ h. elim h [ ]))
  role_issues-RoleFine role (some row) =
      let first =
        text_if-append row.rolsuper "runtime role is a superuser"
          (text_if row.rolbypassrls "runtime role has BYPASSRLS") in
      let second = is_nil-text_if row.rolbypassrls "runtime role has BYPASSRLS" in
      ((λ h. ((first.0 h).0, second.0 (first.0 h).1)), (λ h. first.1 (h.0, second.1 h.1)))

  table_issues-TableFine :
      (role : String) (force : Bool) (row : TableRow)
      → (is_nil (table_issues repr role force (table_status row)) ≡ true) ↔ TableFine role force row
  table_issues-TableFine role force row =
      let name = row.table_name in
      let policy = text_if (row.policy_count == 0) (policy_issue repr name) in
      let force_on = text_if (force && not row.force_rls) (force_issue repr name) in
      let enable_on = text_if (not row.rls_enabled) (enabled_issue repr name) in
      let owner =
        text_if-append (owned_by row.owner_name role) (owner_issue repr name)
          (enable_on ++ (force_on ++ policy)) in
      let enabled =
        text_if-append (not row.rls_enabled) (enabled_issue repr name) (force_on ++ policy) in
      let forced = text_if-append (force && not row.force_rls) (force_issue repr name) policy in
      let policies = is_nil-text_if (row.policy_count == 0) (policy_issue repr name) in
      let on = not-eq_false row.rls_enabled in
      (
        (λ h.
            let h1 = owner.0 h in
            let h2 = enabled.0 h1.1 in
            let h3 = forced.0 h2.1 in (h1.0, on.0 h2.0, h3.0, policies.0 h3.1)),
        (λ h. owner.1 (h.0, enabled.1 (on.1 h.1, forced.1 (h.2, policies.1 h.3)))),
      )

  all_table_issues-TableFine :
      (role : String) (force : Bool) (rows : List TableRow)
      → (is_nil (all_table_issues repr role force (map table_status rows)) ≡ true)
        ↔ All (TableFine role force) rows
  all_table_issues-TableFine role force [] = ((λ h. tt), (λ h. refl))
  all_table_issues-TableFine role force (row ∷ rows) =
      let here = table_issues-TableFine role force row in
      let rest = all_table_issues-TableFine role force rows in
      let both =
        is_nil-append (table_issues repr role force (table_status row))
          (all_table_issues repr role force (map table_status rows)) in
      ((λ h. (here.0 (both.0 h).0, rest.0 (both.0 h).1)), (λ h. both.1 (here.1 h.0, rest.1 h.1)))

  missing_tables-All :
      (tables : List String) (rows : List TableRow)
      → (is_nil (map (missing_issue repr) (missing_tables repr tables (map table_status rows)))
          ≡ true)
        ↔ All (λ t. is_among t (map (λ s. s.table) (map table_status rows)) ≡ true) tables
  missing_tables-All tables rows =
      let found = map (λ s. s.table) (map table_status rows) in
      let all = keep-All (λ t. is_among t found) tables in
      let same =
        is_nil-map (missing_issue repr) (missing_tables repr tables (map table_status rows))
        ∙ is_nil-sorted_set (keep (λ t. not (is_among t found)) tables) in
      ((λ h. all.0 (sym same ∙ h)), (λ h. same ∙ all.1 h))

  build_report-healthy :
      (role : String) (tables : List String) (row : Option RoleRow) (rows : List TableRow)
      (force : Bool)
      → ((build_report repr role tables row rows force).healthy ≡ true) ↔ (
          RoleFine row
          × All (λ t. is_among t (map (λ s. s.table) (map table_status rows)) ≡ true) tables
          × All (TableFine role force) rows)
  unfolding build_report
  build_report-healthy role tables row rows force =
      let statuses = map table_status rows in
      let missing = map (missing_issue repr) (missing_tables repr tables statuses) in
      let others = all_table_issues repr role force statuses in
      let split =
        is_nil-append (role_issues repr role (role_status role row)) (missing ++ others) in
      let later = is_nil-append missing others in
      let fine = role_issues-RoleFine role row in
      let found = missing_tables-All tables rows in
      let sound = all_table_issues-TableFine role force rows in
      (
        (λ h. (
          fine.0 (split.0 h).0,
          found.0 (later.0 (split.0 h).1).0,
          sound.0 (later.0 (split.0 h).1).1,
        )),
        (λ h. split.1 (fine.1 h.0, later.1 (found.1 h.1, sound.1 h.2))),
      )

  then_ok :
      (checked : Result (Unit {0})) (r report : RlsVerificationReport)
      → (checked >> ok r) ≡ ok report
      → r ≡ report
  then_ok (err e) r report h = ground arith
  then_ok (ok u) r report h = ground arith

  checked_ok :
      (checked : Result (Unit {0})) (r report : RlsVerificationReport)
      → (checked >> ok r) ≡ ok report
      → checked ≡ ok tt
  checked_ok (err e) r report h = ground arith
  checked_ok (ok u) r report h = refl

  -- `verify_rls_sync` that returns a report: it is healthy exactly if the role exists, is no superuser and has no
  -- BYPASSRLS, every requested table is found, and every found table is not owned by the role, has row-level security
  -- enabled, forced if that is required, and has a policy. The role, the schema and every requested table are then
  -- identifiers, and a table is requested.
  pub verify_rls_sync_healthy :
      (session : Catalogue) (role : String) (tables : List String) (schema : String) (force : Bool)
      (report : RlsVerificationReport)
      → verify_rls_sync repr session role tables schema force ≡ ok report
      → ((report.healthy ≡ true) ↔ (
          RoleFine (session.role_row role)
          × All
              (λ t.
                is_among t
                  (map (λ s. s.table) (map table_status (session.table_rows schema tables)))
                ≡ true)
              tables
          × All (TableFine role force) (session.table_rows schema tables)))
        × ((is_identifier role ≡ true)
            × (is_identifier schema ≡ true)
            × (is_nil tables ≡ false)
            × All (λ t. is_identifier t ≡ true) tables)
  unfolding verify_rls_sync
  verify_rls_sync_healthy session role tables schema force report h = (
    subst
        (λ r. (r.healthy ≡ true) ↔ (
          RoleFine (session.role_row role)
          × All
              (λ t.
                is_among t
                  (map (λ s. s.table) (map table_status (session.table_rows schema tables)))
                ≡ true)
              tables
          × All (TableFine role force) (session.table_rows schema tables)))
        (then_ok (validate_inputs role tables schema) _ report h)
        (build_report-healthy role tables (session.role_row role) (session.table_rows schema tables)
          force),
    validate_inputs_ok role tables schema
        (checked_ok (validate_inputs role tables schema) _ report h),
  )
