-- ===== src/Security/Roles.antt =====
-- `PostgresRoleNames` and the SQL that is rendered with them.
use prodkit_storage.Common.{
  Bool, true, not, ◌&&◌, Option, none, some, String, is_among, str_join, List, [], ◌∷◌, map,
  if◌then◌else◌, Result, ok, value_error, ◌>>=◌, ◌>>◌, raise_if,
}
use prodkit_storage.Rls.Defs.{is_identifier, identifier}

pub record PostgresRoleNames : Type 0 where
  pub owner : String
  pub migrator : String
  pub runtime : String
  pub read_only : String
  pub support : String

abbrev pub default_roles : PostgresRoleNames
default_roles = record {
  owner = "prodkit_owner";
  migrator = "prodkit_migrator";
  runtime = "prodkit_runtime";
  read_only = "prodkit_readonly";
  support = "prodkit_support";
}

-- `astuple`
abbrev pub names_of : PostgresRoleNames → List String
names_of roles = roles.owner ∷ roles.migrator ∷ roles.runtime ∷ roles.read_only ∷ roles.support ∷ []

abbrev pub all_identifiers : List String → Result (Unit {0})
all_identifiers [] = ok tt
all_identifiers (name ∷ names) =
    raise_if (not (is_identifier name)) value_error >> all_identifiers names

-- `len(set(names)) == len(names)`
abbrev pub are_distinct : List String → Bool
are_distinct [] = true
are_distinct (name ∷ names) = not (is_among name names) && are_distinct names

unfoldable pub validated : PostgresRoleNames → Result PostgresRoleNames
validated roles = do
  all_identifiers (names_of roles)
  raise_if (not (are_distinct (names_of roles))) value_error
  ok roles

abbrev pub roles_or : Option PostgresRoleNames → PostgresRoleNames
roles_or none = default_roles
roles_or (some roles) = roles

-- An f-string is the concatenation of its parts.
abbrev pub role_block : String → Bool → List String
role_block role login =
    "DO $$\n"
    ∷ "BEGIN\n"
    ∷ "  IF NOT EXISTS (SELECT 1 FROM pg_roles WHERE rolname = '"
    ∷ role
    ∷ "') THEN\n"
    ∷ "    CREATE ROLE "
    ∷ role
    ∷ " "
    ∷ (if login then "LOGIN" else "NOLOGIN")
    ∷ " NOSUPERUSER NOCREATEDB NOCREATEROLE NOINHERIT NOBYPASSRLS;\n"
    ∷ "  END IF;\n"
    ∷ "END\n"
    ∷ "$$;"
    ∷ []

abbrev pub block_of : PostgresRoleNames → String → String
block_of roles role = str_join "" (
    role_block role
      (is_among role (roles.migrator ∷ roles.runtime ∷ roles.read_only ∷ roles.support ∷ [])))

abbrev pub bootstrap_sql : PostgresRoleNames → (database schema declarations : String) → List String
bootstrap_sql roles database schema declarations =
    "-- Generated by prodkit-storage. Review before execution.\n" ∷ declarations ∷ "\n" ∷ "\n"
    ∷ "ALTER DATABASE " ∷ database ∷ " OWNER TO " ∷ roles.owner ∷ ";\n"
    ∷ "GRANT CONNECT ON DATABASE " ∷ database ∷ "\n" ∷ "TO " ∷ roles.migrator ∷ ", " ∷ roles.runtime
    ∷ ", " ∷ roles.read_only ∷ ", " ∷ roles.support ∷ ";\n" ∷ "\n" ∷ "ALTER SCHEMA " ∷ schema
    ∷ " OWNER TO " ∷ roles.owner ∷ ";\n" ∷ "GRANT USAGE ON SCHEMA " ∷ schema ∷ "\n" ∷ "TO "
    ∷ roles.migrator ∷ ", " ∷ roles.runtime ∷ ", " ∷ roles.read_only ∷ ", " ∷ roles.support ∷ ";\n"
    ∷ "\n" ∷ "-- NOINHERIT keeps migration privileges explicit; Alembic must SET ROLE.\n" ∷ "GRANT "
    ∷ roles.owner ∷ " TO " ∷ roles.migrator ∷ ";\n" ∷ "ALTER ROLE " ∷ roles.runtime
    ∷ " NOBYPASSRLS NOSUPERUSER NOCREATEDB NOCREATEROLE;\n" ∷ "ALTER ROLE " ∷ roles.read_only
    ∷ " NOBYPASSRLS NOSUPERUSER NOCREATEDB NOCREATEROLE;\n" ∷ "ALTER ROLE " ∷ roles.support
    ∷ " NOBYPASSRLS NOSUPERUSER NOCREATEDB NOCREATEROLE;\n" ∷ "\n"
    ∷ "ALTER DEFAULT PRIVILEGES FOR ROLE " ∷ roles.owner ∷ " IN SCHEMA " ∷ schema ∷ "\n"
    ∷ "  GRANT SELECT, INSERT, UPDATE, DELETE ON TABLES TO " ∷ roles.runtime ∷ ";\n"
    ∷ "ALTER DEFAULT PRIVILEGES FOR ROLE " ∷ roles.owner ∷ " IN SCHEMA " ∷ schema ∷ "\n"
    ∷ "  GRANT SELECT ON TABLES TO " ∷ roles.read_only ∷ ", " ∷ roles.support ∷ ";\n"
    ∷ "ALTER DEFAULT PRIVILEGES FOR ROLE " ∷ roles.owner ∷ " IN SCHEMA " ∷ schema ∷ "\n"
    ∷ "  GRANT USAGE, SELECT ON SEQUENCES TO " ∷ roles.runtime ∷ ";\n" ∷ []

unfoldable pub render_role_bootstrap_sql :
    (database schema : String) → Option PostgresRoleNames → Result String
unfolding validated identifier str_join
render_role_bootstrap_sql database schema roles = do
  roles ← validated (roles_or roles)
  database ← identifier database
  schema ← identifier schema
  ok (
      str_join "" (
        bootstrap_sql roles database schema
          (str_join "\n" (map (block_of roles) (names_of roles)))))

abbrev pub grants_sql : PostgresRoleNames → String → List String
grants_sql roles schema =
    "-- Generated by prodkit-storage. Apply after migrations.\n"
    ∷ "GRANT SELECT, INSERT, UPDATE, DELETE ON ALL TABLES IN SCHEMA " ∷ schema ∷ " TO "
    ∷ roles.runtime ∷ ";\n" ∷ "GRANT SELECT ON ALL TABLES IN SCHEMA " ∷ schema ∷ " TO "
    ∷ roles.read_only ∷ ", " ∷ roles.support ∷ ";\n"
    ∷ "GRANT USAGE, SELECT ON ALL SEQUENCES IN SCHEMA " ∷ schema ∷ " TO " ∷ roles.runtime ∷ ";\n"
    ∷ "\n"
    ∷ "-- Shared audit table: runtime may append but cannot read payload/history or mutate rows.\n"
    ∷ "REVOKE SELECT, UPDATE, DELETE ON TABLE " ∷ schema ∷ ".storage_audit_events FROM "
    ∷ roles.runtime ∷ ";\n" ∷ "GRANT INSERT ON TABLE " ∷ schema ∷ ".storage_audit_events TO "
    ∷ roles.runtime ∷ ";\n"
    ∷ "-- SQLAlchemy fetches the server-generated timestamp with INSERT ... RETURNING.\n"
    ∷ "-- PostgreSQL requires SELECT on each column referenced by RETURNING, so expose\n"
    ∷ "-- only this non-payload column rather than granting table-wide audit reads.\n"
    ∷ "GRANT SELECT (occurred_at) ON TABLE " ∷ schema ∷ ".storage_audit_events TO " ∷ roles.runtime
    ∷ ";\n" ∷ "\n"
    ∷ "-- Shared outbox table: publishing updates are allowed; retention deletion is separate.\n"
    ∷ "REVOKE DELETE ON TABLE " ∷ schema ∷ ".storage_outbox_events FROM " ∷ roles.runtime ∷ ";\n"
    ∷ "GRANT SELECT, INSERT, UPDATE ON TABLE " ∷ schema ∷ ".storage_outbox_events TO "
    ∷ roles.runtime ∷ ";\n" ∷ []

unfoldable pub render_post_migration_grants_sql : String → Option PostgresRoleNames → Result String
unfolding validated identifier str_join
render_post_migration_grants_sql schema roles = do
  roles ← validated (roles_or roles)
  schema ← identifier schema
  ok (str_join "" (grants_sql roles schema))
