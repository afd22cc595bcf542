-- ===== src/Context/Tenant.antt =====
-- database/tenant.py: the statements that the start of a transaction sends, before any of the caller's.
use prodkit_storage.Common.{
  Option-cases, ap, ◌∙◌, ◌⊎◌, eq_iff, ◌=?◌, ℕ, ◌≡◌, ◌≢◌, refl, Bool, true, false, ◌&&◌, Option,
  none, some, String, List, [], ◌∷◌, ◌++◌, if◌then◌else◌, Result, ok, err, tenant_error, inl, inr,
  arith,
}
use prodkit_storage.Context.Defs.{RequestContext, Current, get_request_context, get_tenant_id}

pub record StorageSettings : Type 0 where
  pub tenant_rls_enabled : Bool
  pub tenant_required : Bool
  pub rls_tenant_setting : String
  pub rls_actor_setting : String
  pub rls_request_setting : String

pub data Statement : Type 0 where
  set_read_only : Statement
  set_config : (name value : String) → Statement

-- `session.info`
pub record Info : Type 0 where
  pub storage_settings : Option StorageSettings
  pub read_only : Bool

abbrev pub is_missing : Option ℕ → Bool
is_missing none = true
is_missing (some x) = false

abbrev pub text_or_empty : Option String → String
text_or_empty none = ""
text_or_empty (some t) = t

module _ (str_uuid : ℕ → String) where
  abbrev pub uuid_or_empty : Option ℕ → String
  uuid_or_empty none = ""
  uuid_or_empty (some u) = str_uuid u

  unfoldable pub context_values : StorageSettings → RequestContext → List Statement
  context_values settings context =
      set_config settings.rls_tenant_setting (uuid_or_empty context.tenant_id)
      ∷ set_config settings.rls_actor_setting (uuid_or_empty context.actor_id)
      ∷ set_config settings.rls_request_setting (text_or_empty context.request_id)
      ∷ []

  -- What `_apply_context_after_begin` executes, in order, and whether it raises then.
  abbrev pub apply_settings :
      Bool → StorageSettings → RequestContext → List Statement × Result (Unit {0})
  apply_settings read_only settings context =
      let begun = if read_only then set_read_only ∷ [] else [] in
      if settings.tenant_rls_enabled
      then (if settings.tenant_required && is_missing context.tenant_id
          then (begun, err tenant_error)
          else (begun ++ context_values settings context, ok tt))
      else (begun, ok tt)

  unfoldable pub apply_context_after_begin : Info → Current → List Statement × Result (Unit {0})
  unfolding get_request_context
  apply_context_after_begin info current = elim info.storage_settings [
    | none ↦ ([], ok tt)
    | some settings ↦ apply_settings info.read_only settings (get_request_context current)
  ]

-- The value that a setting has behind the statements, if they set it: the last one counts.
unfoldable pub configured : String → Option String → List Statement → Option String
configured name found [] = found
configured name found (set_read_only ∷ rest) = configured name found rest
configured name found (set_config n value ∷ rest) =
    configured name (if n =? name then some value else found) rest

module _ (str_uuid : ℕ → String) (s : StorageSettings) (enabled : s.tenant_rls_enabled ≡ true)
    (actor_ne : s.rls_actor_setting ≢ s.rls_tenant_setting)
    (request_ne : s.rls_request_setting ≢ s.rls_tenant_setting) where
  configured_values :
      (found : Option String) (c : RequestContext)
      → configured s.rls_tenant_setting found (context_values str_uuid s c)
        ≡ some (uuid_or_empty str_uuid c.tenant_id)
  unfolding configured context_values
  configured_values found c = ground (
    arith,
    eq_iff s.rls_tenant_setting s.rls_tenant_setting,
    eq_iff s.rls_actor_setting s.rls_tenant_setting,
    eq_iff s.rls_request_setting s.rls_tenant_setting,
  )

  abbrev begun : Bool → List Statement
  begun read_only = if read_only then set_read_only ∷ [] else []

  configured-begun :
      (read_only : Bool) (c : RequestContext)
      → configured s.rls_tenant_setting none (begun read_only ++ context_values str_uuid s c)
        ≡ some (uuid_or_empty str_uuid c.tenant_id)
  unfolding configured
  configured-begun true c = configured_values none c
  configured-begun false c = configured_values none c

  -- Where row-level security is on and a tenant is required, and the tenant's setting has a name of its
  -- own: either the context has no tenant, and the transaction's start raises and sets nothing; or it has
  -- one, and the start raises nothing and leaves this setting at the tenant. Read-only mode comes first
  -- in both.
  pub apply_context_lem :
      (read_only : Bool) (current : Current)
      → s.tenant_required ≡ true
      → ((get_tenant_id current ≡ none)
          × (apply_context_after_begin str_uuid
                (record { storage_settings = some s; read_only = read_only })
                current
              ≡ (begun read_only, err tenant_error)))
        ⊎ ((t : ℕ) × (rest : List Statement) × (get_tenant_id current ≡ some t)
            × (apply_context_after_begin str_uuid
                  (record { storage_settings = some s; read_only = read_only })
                  current
                ≡ (begun read_only ++ rest, ok tt))
            × (configured s.rls_tenant_setting none (begun read_only ++ rest) ≡ some (str_uuid t)))
  unfolding apply_context_after_begin get_tenant_id
  apply_context_lem read_only current required =
      elim (Option-cases (get_request_context current).tenant_id) [
        | inl missing ↦ inl (missing, rw (enabled, required, missing) refl)
        | inr (t, here) ↦ inr (
          t,
          context_values str_uuid s (get_request_context current),
          here,
          rw (enabled, required, here) refl,
          configured-begun read_only (get_request_context current)
              ∙ ap (λ o. some (uuid_or_empty str_uuid o)) here,
        )
      ]
