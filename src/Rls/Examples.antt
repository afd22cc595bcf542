-- ===== src/Rls/Examples.antt =====
-- A catalogue with one role and one table.
use prodkit_storage.Common.{
  is_nil, Bool, true, false, some, String, str_append, is_among, [], ◌∷◌, map, All, ok, err,
  value_error, ◌≡◌, refl, ◌↔◌,
}
use prodkit_storage.Rls.Defs.{
  Catalogue, RlsVerificationReport, role_status, table_status, sorted_set, verify_rls_sync,
  is_identifier,
}
use prodkit_storage.Rls.Healthy.{RoleFine, TableFine, verify_rls_sync_healthy}

abbrev quoted : String → String
quoted s = str_append "'" (str_append s "'")

abbrev catalogue : Bool → Catalogue
catalogue enabled = record {
  role_row = λ role. some (record { rolsuper = false; rolbypassrls = false });
  table_rows = λ schema tables.
      record {
        table_name = "orders";
        owner_name = some "owner";
        rls_enabled = enabled;
        force_rls = false;
        policy_count = 2;
      }
      ∷ [];
}

abbrev report : RlsVerificationReport
report = record {
  healthy = true;
  role = role_status "app" (some (record { rolsuper = false; rolbypassrls = false }));
  tables = map table_status ((catalogue true).table_rows "public" ("orders" ∷ []));
  issues = [];
}

verified : verify_rls_sync quoted (catalogue true) "app" ("orders" ∷ []) "public" false ≡ ok report
unfolding verify_rls_sync
verified = refl

bad_name :
    verify_rls_sync quoted (catalogue true) "App" ("orders" ∷ []) "public" false ≡ err value_error
unfolding verify_rls_sync
bad_name = refl

names_sorted : sorted_set ("b" ∷ "a" ∷ "b" ∷ "ab" ∷ []) ≡ "a" ∷ "ab" ∷ "b" ∷ []
unfolding sorted_set
names_sorted = refl

verify_rls_sync_healthy_example :
    ((true ≡ true) ↔ (
      RoleFine ((catalogue true).role_row "app")
      × All
          (λ t.
            is_among t (
              map
                (λ s. s.table)
                (map table_status ((catalogue true).table_rows "public" ("orders" ∷ []))))
            ≡ true)
          ("orders" ∷ [])
      × All (TableFine "app" false) ((catalogue true).table_rows "public" ("orders" ∷ []))))
    × ((is_identifier "app" ≡ true)
        × (is_identifier "public" ≡ true)
        × (is_nil {A = String} ("orders" ∷ []) ≡ false)
        × All (λ t. is_identifier t ≡ true) ("orders" ∷ []))
verify_rls_sync_healthy_example =
    verify_rls_sync_healthy quoted (catalogue true) "app" ("orders" ∷ []) "public" false report
      verified
