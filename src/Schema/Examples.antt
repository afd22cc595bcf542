-- ===== src/Schema/Examples.antt =====
-- A version table whose rows repeat one revision, beside a policy.
use prodkit_storage.Common.{
  true, String, ◌=?◌, is_among, List, [], ◌∷◌, ok, err, schema_incompatible, ◌≡◌, refl, ◌⊎◌, ◌↔◌,
}
use prodkit_storage.Schema.Defs.{
  SchemaCompatibilityPolicy, SchemaCompatibilityReport, VersionTable, policy_checked,
  require_schema_compatible_sync,
}
use prodkit_storage.Schema.Verdict.{OnlyRevision, require_schema_compatible_sync_iff}

abbrev policy : SchemaCompatibilityPolicy
policy = record {
  expected_revision = "20260807_0002";
  compatible_revisions = "20260807_0002" ∷ "20260806_0001" ∷ [];
  compatibility_version = 1;
}

abbrev rows : List String → VersionTable
rows list = record { exists_in = λ schema. schema =? "public"; version_nums = λ schema. list }

policy_is_checked : policy_checked policy ≡ ok policy
unfolding policy_checked
policy_is_checked = refl

two_heads :
    require_schema_compatible_sync (rows ("20260807_0002" ∷ "20260806_0001" ∷ [])) policy "public"
    ≡ err schema_incompatible
unfolding require_schema_compatible_sync
two_heads = refl

no_table :
    require_schema_compatible_sync (rows ("20260807_0002" ∷ [])) policy "other"
    ≡ err schema_incompatible
unfolding require_schema_compatible_sync
no_table = refl

require_schema_compatible_sync_iff_example :
    (((report : SchemaCompatibilityReport) × (require_schema_compatible_sync
            (rows (" 20260806_0001" ∷ "" ∷ "20260806_0001" ∷ []))
            policy
            "public"
          ≡ ok report))
      ↔ ((true ≡ true)
          × ((r : String) × OnlyRevision r (" 20260806_0001" ∷ "" ∷ "20260806_0001" ∷ [])
              × ((r ≡ "20260807_0002") ⊎ (is_among r policy.compatible_revisions ≡ true)))))
    × (((report : SchemaCompatibilityReport) × (require_schema_compatible_sync
              (rows (" 20260806_0001" ∷ "" ∷ "20260806_0001" ∷ []))
              policy
              "public"
            ≡ ok report))
        ⊎ (require_schema_compatible_sync
              (rows (" 20260806_0001" ∷ "" ∷ "20260806_0001" ∷ []))
              policy
              "public"
            ≡ err schema_incompatible))
require_schema_compatible_sync_iff_example =
    require_schema_compatible_sync_iff (rows (" 20260806_0001" ∷ "" ∷ "20260806_0001" ∷ [])) policy
      "public"
