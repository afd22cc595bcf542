-- ===== src/Context/Examples.antt =====
-- Nested contexts, and the start of a transaction of tenant 7.
use prodkit_storage.Common.{
  ℕ, ◌≡◌, ◌≢◌, refl, true, Option, none, some, str_of, List, [], ◌∷◌, ok, err, tenant_error, arith,
  eq_iff, ◌⊎◌,
}
use prodkit_storage.Context.Defs.{Current, get_tenant_id, tenant_context}
use prodkit_storage.Context.Tenant.{
  StorageSettings, Statement, set_read_only, apply_context_after_begin, configured,
  apply_context_lem,
}

abbrev settings : StorageSettings
settings = record {
  tenant_rls_enabled = true;
  tenant_required = true;
  rls_tenant_setting = "app.tenant_id";
  rls_actor_setting = "app.actor_id";
  rls_request_setting = "app.request_id";
}

abbrev tenant_seven : Current
tenant_seven =
    some (record { tenant_id = some 7; actor_id = none; request_id = some "r-1"; trace_id = none })

-- The inner block sees its own tenant, and the outer one is back behind it.
nested_blocks :
    tenant_context {A = Option ℕ × Option ℕ} 7 none none none
      (λ context outer.
        let (inner, restored) =
          tenant_context {A = Option ℕ} 8 none none none
            (λ c now. (get_tenant_id now, none))
            outer in
        ((inner, get_tenant_id restored), restored))
      none
    ≡ ((some 8, some 7), none)
unfolding tenant_context get_tenant_id
nested_blocks = refl

actor_ne : settings.rls_actor_setting ≢ settings.rls_tenant_setting
actor_ne = ground (arith, eq_iff settings.rls_actor_setting settings.rls_tenant_setting)

request_ne : settings.rls_request_setting ≢ settings.rls_tenant_setting
request_ne = ground (arith, eq_iff settings.rls_request_setting settings.rls_tenant_setting)

apply_context_lem_example :
    ((get_tenant_id tenant_seven ≡ none)
      × (apply_context_after_begin str_of
            (record { storage_settings = some settings; read_only = true })
            tenant_seven
          ≡ (set_read_only ∷ [], err tenant_error)))
    ⊎ ((t : ℕ) × (rest : List Statement) × (get_tenant_id tenant_seven ≡ some t)
        × (apply_context_after_begin str_of
              (record { storage_settings = some settings; read_only = true })
              tenant_seven
            ≡ (set_read_only ∷ rest, ok tt))
        × (configured "app.tenant_id" none (set_read_only ∷ rest) ≡ some (str_of t)))
apply_context_lem_example =
    apply_context_lem str_of settings refl actor_ne request_ne true tenant_seven refl
