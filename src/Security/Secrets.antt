-- ===== src/Security/Secrets.antt =====
-- `load_storage_settings` and `load_storage_settings_async`. A provider is a function
-- of the secret's name, and a dictionary a function of the key.
use prodkit_storage.Common.{
  Bool, not, Option, none, some, String, ◌=?◌, is_empty, is_among, strip, List, [], ◌∷◌,
  if◌then◌else◌, Result, ok, value_error, ◌>>=◌, ◌>>◌, raise_if,
}

abbrev pub Provider : Type 0
Provider = String → Option String

abbrev pub Dictionary : Type 0
Dictionary = String → Option String

-- `EnvironmentSecretProvider` over `os.environ`, and `MappingSecretProvider`.
unfoldable pub environment_secret_provider : (environ : Dictionary) → Option Dictionary → Provider
environment_secret_provider environ none name = environ name
environment_secret_provider environ (some given) name = given name

unfoldable pub mapping_secret_provider : Dictionary → Provider
mapping_secret_provider values name = values name

pub record SecretBinding : Type 0 where
  pub setting : String
  pub secret_name : String
  pub required : Bool

-- The loop of `_validate_bindings`, over the names of the fields of `StorageSettings`.
unfoldable pub validate_from :
    (model_fields seen : List String) → List SecretBinding → Result (Unit {0})
unfolding strip
validate_from model_fields seen [] = ok tt
validate_from model_fields seen (b ∷ bs) = do
  raise_if (not (is_among b.setting model_fields)) value_error
  raise_if (is_among b.setting seen) value_error
  raise_if (is_empty (strip b.secret_name)) value_error
  validate_from model_fields (b.setting ∷ seen) bs

unfoldable pub validate_bindings : List String → List SecretBinding → Result (Unit {0})
unfolding validate_from
validate_bindings model_fields bindings = validate_from model_fields [] bindings

-- `values[key] = value`
abbrev pub assigned : Dictionary → String → String → Dictionary
assigned values key value name = if key =? name then some value else values name

-- One pass of the loop over the bindings, with what the provider answers.
unfoldable pub bind_secret : SecretBinding → Option String → Dictionary → Result Dictionary
bind_secret b none values = raise_if b.required value_error >> ok values
bind_secret b (some value) values = ok (assigned values b.setting value)

unfoldable pub bound : Provider → List SecretBinding → Dictionary → Result Dictionary
unfolding bind_secret
bound provider [] values = ok values
bound provider (b ∷ bs) values = do
  next ← bind_secret b (provider b.secret_name) values
  bound provider bs next

-- `model_validate` is Pydantic's, which makes the settings of the values.
unfoldable pub load_storage_settings :
    {S : Type 0} (model_fields : List String) (model_validate : Dictionary → Result S)
    → Provider
    → List SecretBinding
    → Dictionary
    → Result S
unfolding validate_bindings bound
load_storage_settings model_fields model_validate provider bindings overrides = do
  validate_bindings model_fields bindings
  values ← bound provider bindings overrides
  model_validate values

-- The coroutine, which awaits each secret.
unfoldable pub load_storage_settings_async :
    {S : Type 0} (model_fields : List String) (model_validate : Dictionary → Result S)
    → Provider
    → List SecretBinding
    → Dictionary
    → Result S
unfolding validate_bindings bound
load_storage_settings_async model_fields model_validate provider bindings overrides = do
  validate_bindings model_fields bindings
  values ← bound provider bindings overrides
  model_validate values
