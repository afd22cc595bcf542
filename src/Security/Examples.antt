-- ===== src/Security/Examples.antt =====
-- Two bindings, and the default roles.
use prodkit_storage.Common.{
  true, false, Option, none, some, String, ◌=?◌, if◌then◌else◌, List, [], ◌∷◌, All, Result, ok, err,
  value_error, ◌≡◌, refl,
}
use prodkit_storage.Security.Secrets.{Provider, Dictionary, SecretBinding, load_storage_settings}
use prodkit_storage.Security.Loaded.{Bound, load_storage_settings-Bound}
use prodkit_storage.Security.Roles.{default_roles, validated, render_post_migration_grants_sql}

abbrev fields : List String
fields = "database_url" ∷ "redis_url" ∷ "echo" ∷ []

abbrev provider : Provider
provider name = if name =? "DB" then some "postgresql://db" else none

abbrev bindings : List SecretBinding
bindings =
    record { setting = "database_url"; secret_name = "DB"; required = true }
    ∷ record { setting = "redis_url"; secret_name = "REDIS"; required = false }
    ∷ []

abbrev overrides : Dictionary
overrides name = if name =? "echo" then some "1" else none

abbrev pick : Dictionary → Result (Option String)
pick values = ok (values "database_url")

twice :
    load_storage_settings fields pick provider
      (record { setting = "echo"; secret_name = "DB"; required = true }
        ∷ record { setting = "echo"; secret_name = "X"; required = true }
        ∷ [])
      overrides
    ≡ err value_error
unfolding load_storage_settings
twice = refl

same_roles : validated (record default_roles { support = "prodkit_owner" }) ≡ err value_error
unfolding validated
same_roles = refl

bad_schema : render_post_migration_grants_sql "public; DROP" none ≡ err value_error
unfolding render_post_migration_grants_sql
bad_schema = refl

load_storage_settings-Bound_example :
    (values : Dictionary) × (pick values ≡ ok (some "postgresql://db"))
    × All (Bound provider overrides values) bindings
    × (values "echo" ≡ overrides "echo")
unfolding load_storage_settings
load_storage_settings-Bound_example =
    load_storage_settings-Bound fields pick provider bindings overrides (some "postgresql://db")
      "echo" (refl, (refl, tt)) refl
