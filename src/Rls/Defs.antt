-- ===== src/Rls/Defs.antt =====
-- `verify_rls_sync` and `verify_rls_async`, over the rows of the catalogue that the
-- session returns.
use Prim.Native.Char.{code}
use prodkit_storage.Common.{
  is_nil, ℕ, Bool, true, false, not, ◌&&◌, ◌||◌, Option, none, some, String, ◌=?◌, is_among,
  str_append, List, [], ◌∷◌, ◌++◌, map, keep, if◌then◌else◌, Result, ok, value_error, ◌>>◌,
  raise_if, ltb, leb, ◌==◌,
}

pub record RlsRoleStatus : Type 0 where
  pub role : String
  pub exists_ : Bool
  pub superuser : Bool
  pub bypass_rls : Bool

pub record RlsTableStatus : Type 0 where
  pub table : String
  pub owner : Option String
  pub rls_enabled : Bool
  pub force_rls : Bool
  pub policy_count : ℕ

pub record RlsVerificationReport : Type 0 where
  pub healthy : Bool
  pub role : RlsRoleStatus
  pub tables : List RlsTableStatus
  pub issues : List String

-- `re.fullmatch(r"[a-z_][a-z0-9_]*", value)`
abbrev pub is_head : ℕ → Bool
is_head c = leb 97 c && leb c 122 || c == 95

abbrev pub is_tail : ℕ → Bool
is_tail c = is_head c || leb 48 c && leb c 57

abbrev pub tail_matches : String → Bool
tail_matches String.[] = true
tail_matches (String.◌∷◌ c s) = is_tail (code c) && tail_matches s

abbrev pub is_identifier : String → Bool
is_identifier String.[] = false
is_identifier (String.◌∷◌ c s) = is_head (code c) && tail_matches s

unfoldable pub identifier : String → Result String
identifier value = raise_if (not (is_identifier value)) value_error >> ok value

abbrev pub check_all : List String → Result (Unit {0})
check_all [] = ok tt
check_all (t ∷ ts) = raise_if (not (is_identifier t)) value_error >> check_all ts

unfoldable pub validate_inputs : String → List String → String → Result (Unit {0})
validate_inputs runtime_role tables schema =
    raise_if (not (is_identifier runtime_role)) value_error
    >> raise_if (not (is_identifier schema)) value_error
    >> raise_if (is_nil tables) value_error
    >> check_all tables

-- The rows of `_ROLE_SQL` and `_TABLE_SQL`.
pub record RoleRow : Type 0 where
  pub rolsuper : Bool
  pub rolbypassrls : Bool

pub record TableRow : Type 0 where
  pub table_name : String
  pub owner_name : Option String
  pub rls_enabled : Bool
  pub force_rls : Bool
  pub policy_count : ℕ

pub record Catalogue : Type 0 where
  pub role_row : String → Option RoleRow
  pub table_rows : String → List String → List TableRow

abbrev pub role_status : String → Option RoleRow → RlsRoleStatus
role_status role none = record {
  role = role;
  exists_ = false;
  superuser = false;
  bypass_rls = false;
}
role_status role (some row) = record {
  role = role;
  exists_ = true;
  superuser = row.rolsuper;
  bypass_rls = row.rolbypassrls;
}

abbrev pub table_status : TableRow → RlsTableStatus
table_status row = record {
  table = row.table_name;
  owner = row.owner_name;
  rls_enabled = row.rls_enabled;
  force_rls = row.force_rls;
  policy_count = row.policy_count;
}

-- `sorted(set(names))`, by the code points.
unfoldable pub str_leb : String → String → Bool
str_leb String.[] t = true
str_leb (String.◌∷◌ c s) String.[] = false
str_leb (String.◌∷◌ c s) (String.◌∷◌ d t) = ltb (code c) (code d) || code c == code d && str_leb s t

abbrev pub insert_name : String → List String → List String
insert_name s [] = s ∷ []
insert_name s (t ∷ ts) =
    if s =? t then t ∷ ts else if str_leb s t then s ∷ t ∷ ts else t ∷ insert_name s ts

unfoldable pub sorted_set : List String → List String
unfolding str_leb
sorted_set [] = []
sorted_set (s ∷ ss) = insert_name s (sorted_set ss)

abbrev pub owned_by : Option String → String → Bool
owned_by none role = false
owned_by (some owner) role = owner =? role

abbrev pub text_if : Bool → String → List String
text_if test t = if test then t ∷ [] else []

-- `repr` is Python's, of the names in the messages.
module _ (repr : String → String) where
  abbrev pub role_issues : String → RlsRoleStatus → List String
  role_issues runtime_role role =
      text_if (not role.exists_)
        (str_append "runtime role " (str_append (repr runtime_role) " does not exist"))
      ++ (text_if role.superuser "runtime role is a superuser"
          ++ text_if role.bypass_rls "runtime role has BYPASSRLS")

  abbrev pub owner_issue : String → String
  owner_issue t = str_append "runtime role owns RLS table " (repr t)

  abbrev pub enabled_issue : String → String
  enabled_issue t = str_append "RLS is not enabled on table " (repr t)

  abbrev pub force_issue : String → String
  force_issue t = str_append "FORCE ROW LEVEL SECURITY is not enabled on " (repr t)

  abbrev pub policy_issue : String → String
  policy_issue t = str_append "table " (str_append (repr t) " has no RLS policies")

  abbrev pub table_issues : String → Bool → RlsTableStatus → List String
  table_issues runtime_role require_force_rls t =
      text_if (owned_by t.owner runtime_role) (owner_issue t.table)
      ++ (text_if (not t.rls_enabled) (enabled_issue t.table)
          ++ (text_if (require_force_rls && not t.force_rls) (force_issue t.table)
              ++ text_if (t.policy_count == 0) (policy_issue t.table)))

  abbrev pub all_table_issues : String → Bool → List RlsTableStatus → List String
  all_table_issues runtime_role require_force_rls [] = []
  all_table_issues runtime_role require_force_rls (t ∷ ts) =
      table_issues runtime_role require_force_rls t
      ++ all_table_issues runtime_role require_force_rls ts

  abbrev pub missing_issue : String → String
  missing_issue t = str_append "table " (str_append (repr t) " was not found")

  abbrev pub missing_tables : List String → List RlsTableStatus → List String
  missing_tables requested found =
      sorted_set (keep (λ t. not (is_among t (map (λ s. s.table) found))) requested)

  unfoldable pub build_report :
      String → List String → Option RoleRow → List TableRow → Bool → RlsVerificationReport
  unfolding sorted_set
  build_report runtime_role requested role_row table_rows require_force_rls =
      let role = role_status runtime_role role_row in
      let statuses = map table_status table_rows in
      let issues =
        role_issues runtime_role role
        ++ (map missing_issue (missing_tables requested statuses)
            ++ all_table_issues runtime_role require_force_rls statuses) in
      record { healthy = is_nil issues; role = role; tables = statuses; issues = issues }

  unfoldable pub verify_rls_sync :
      Catalogue → String → List String → String → Bool → Result RlsVerificationReport
  unfolding validate_inputs build_report
  verify_rls_sync session runtime_role tables schema require_force_rls =
      validate_inputs runtime_role tables schema
      >> ok (
          build_report runtime_role tables (session.role_row runtime_role)
            (session.table_rows schema tables) require_force_rls)

  -- The coroutine, whose awaits are the rows of the same catalogue.
  unfoldable pub verify_rls_async :
      Catalogue → String → List String → String → Bool → Result RlsVerificationReport
  unfolding validate_inputs build_report
  verify_rls_async session runtime_role tables schema require_force_rls =
      validate_inputs runtime_role tables schema
      >> ok (
          build_report runtime_role tables (session.role_row runtime_role)
            (session.table_rows schema tables) require_force_rls)
