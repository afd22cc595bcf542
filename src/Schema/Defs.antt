-- ===== src/Schema/Defs.antt =====
-- The policy, the report and the checks. The version table is what the session returns of it.
use prodkit_storage.Common.{
  ℕ, Bool, true, false, not, String, ◌=?◌, strip, is_empty, is_among, List, [], ◌∷◌, ◌++◌, map,
  keep, if◌then◌else◌, Result, ok, err, value_error, schema_incompatible, ◌>>◌, raise_if, ltb,
}

pub data SchemaRevisionState : Type 0 where
  current compatible incompatible unversioned multiple_heads : SchemaRevisionState

pub record SchemaCompatibilityPolicy : Type 0 where
  pub expected_revision : String
  pub compatible_revisions : List String
  pub compatibility_version : ℕ

pub record SchemaCompatibilityReport : Type 0 where
  pub state : SchemaRevisionState
  pub revisions : List String
  pub expected_revision : String
  pub compatibility_version : ℕ

-- `__post_init__`
unfoldable pub policy_checked : SchemaCompatibilityPolicy → Result SchemaCompatibilityPolicy
unfolding strip
policy_checked p =
    raise_if (is_empty (strip p.expected_revision)) value_error
    >> raise_if (not (is_among p.expected_revision p.compatible_revisions)) value_error
    >> raise_if (ltb p.compatibility_version 1) value_error
    >> ok p

abbrev pub is_compatible : SchemaRevisionState → Bool
is_compatible SchemaRevisionState.current = true
is_compatible SchemaRevisionState.compatible = true
is_compatible _ = false

-- `dict.fromkeys`: the first of each of the equal keys, in order.
abbrev pub add_key : List String → String → List String
add_key keys key = if is_among key keys then keys else keys ++ key ∷ []

unfoldable pub fromkeys : List String → List String → List String
fromkeys keys [] = keys
fromkeys keys (key ∷ rest) = fromkeys (add_key keys key) rest

-- `item.strip() for item in revisions if item.strip()`
unfoldable pub stripped : List String → List String
unfolding strip
stripped revisions = keep (λ item. not (is_empty item)) (map strip revisions)

unfoldable pub normalized_revisions : List String → List String
unfolding fromkeys stripped
normalized_revisions revisions = fromkeys [] (stripped revisions)

unfoldable pub revision_state : SchemaCompatibilityPolicy → List String → SchemaRevisionState
revision_state policy [] = unversioned
revision_state policy (r ∷ s ∷ rest) = multiple_heads
revision_state policy (r ∷ []) =
    if r =? policy.expected_revision
    then current
    else if is_among r policy.compatible_revisions
    then SchemaRevisionState.compatible
    else incompatible

unfoldable pub evaluate_schema_revisions :
    List String → SchemaCompatibilityPolicy → SchemaCompatibilityReport
unfolding normalized_revisions revision_state
evaluate_schema_revisions revisions policy = record {
  state = revision_state policy (normalized_revisions revisions);
  revisions = normalized_revisions revisions;
  expected_revision = policy.expected_revision;
  compatibility_version = policy.compatibility_version;
}

-- What the session answers for a schema: whether the version table is there, and its rows.
pub record VersionTable : Type 0 where
  pub exists_in : String → Bool
  pub version_nums : String → List String

unfoldable pub check_schema_compatibility_sync :
    VersionTable → SchemaCompatibilityPolicy → String → SchemaCompatibilityReport
unfolding evaluate_schema_revisions
check_schema_compatibility_sync session policy schema =
    let revisions = if session.exists_in schema then session.version_nums schema else [] in
    evaluate_schema_revisions revisions policy

unfoldable pub require_schema_compatible_sync :
    VersionTable → SchemaCompatibilityPolicy → String → Result SchemaCompatibilityReport
unfolding check_schema_compatibility_sync
require_schema_compatible_sync session policy schema =
    let report = check_schema_compatibility_sync session policy schema in
    if not (is_compatible report.state) then err schema_incompatible else ok report

-- The coroutines, whose awaits are the answers of the same table.
unfoldable pub check_schema_compatibility_async :
    VersionTable → SchemaCompatibilityPolicy → String → SchemaCompatibilityReport
unfolding evaluate_schema_revisions
check_schema_compatibility_async session policy schema =
    let revisions = if session.exists_in schema then session.version_nums schema else [] in
    evaluate_schema_revisions revisions policy

unfoldable pub require_schema_compatible_async :
    VersionTable → SchemaCompatibilityPolicy → String → Result SchemaCompatibilityReport
unfolding check_schema_compatibility_async
require_schema_compatible_async session policy schema =
    let report = check_schema_compatibility_async session policy schema in
    if not (is_compatible report.state) then err schema_incompatible else ok report
