-- ===== src/Schema/Verdict.antt =====
-- When `require_schema_compatible_sync` accepts a database.
use prodkit_storage.Common.{
  true, false, not, String, ◌=?◌, strip, is_empty, is_among, List, [], ◌∷◌, ◌++◌, map, IsIn, All,
  if◌then◌else◌, ok, err, ◌≡◌, refl, sym, ap, ◌∙◌, schema_incompatible, ◌⊎◌, ◌↔◌, inl, inr, eq_iff,
  arith, Bool-cases, subst,
}
use prodkit_storage.Schema.Defs.{
  SchemaCompatibilityPolicy, SchemaCompatibilityReport, is_compatible, add_key, fromkeys, stripped,
  normalized_revisions, revision_state, evaluate_schema_revisions, VersionTable,
  check_schema_compatibility_sync, require_schema_compatible_sync,
}

-- Every row that is not blank is `r`, up to the blanks around it, and there is such a row.
abbrev pub OnlyRevision : String → List String → Type 0
OnlyRevision r revisions =
    (is_empty r ≡ false)
    × IsIn r (map strip revisions)
    × All (λ row. (is_empty (strip row) ≡ true) ⊎ (strip row ≡ r)) revisions

is_among-IsIn : (s : String) (ts : List String) → is_among s ts ≡ true → IsIn s ts
is_among-IsIn s [] h = ground arith
is_among-IsIn s (t ∷ ts) h = elim (Bool-cases (t =? s)) [
  | inl e ↦ inl (sym ((eq_iff t s).0 e))
  | inr e ↦ inr (is_among-IsIn s ts (rw e at h))
]

IsIn-append_left : (s : String) (xs ys : List String) → IsIn s xs → IsIn s (xs ++ ys)
IsIn-append_left s [] ys h = elim h [ ]
IsIn-append_left s (x ∷ xs) ys (inl e) = inl e
IsIn-append_left s (x ∷ xs) ys (inr h) = inr (IsIn-append_left s xs ys h)

IsIn-append_last : (s : String) (xs : List String) → IsIn s (xs ++ s ∷ [])
IsIn-append_last s [] = inl refl
IsIn-append_last s (x ∷ xs) = inr (IsIn-append_last s xs)

-- A key that is given, or was there, is a key of the dictionary.
IsIn-add_key : (s key : String) (keys : List String) → IsIn s keys → IsIn s (add_key keys key)
IsIn-add_key s key keys h = elim (Bool-cases (is_among key keys)) [
  | inl e ↦ rw e h
  | inr e ↦ rw e (IsIn-append_left s keys (key ∷ []) h)
]

IsIn-add_key_self : (key : String) (keys : List String) → IsIn key (add_key keys key)
IsIn-add_key_self key keys = elim (Bool-cases (is_among key keys)) [
  | inl e ↦ rw e (is_among-IsIn key keys e)
  | inr e ↦ rw e (IsIn-append_last key keys)
]

IsIn-fromkeys_kept : (s : String) (keys xs : List String) → IsIn s keys → IsIn s (fromkeys keys xs)
unfolding fromkeys
IsIn-fromkeys_kept s keys [] h = h
IsIn-fromkeys_kept s keys (x ∷ xs) h =
    IsIn-fromkeys_kept s (add_key keys x) xs (IsIn-add_key s x keys h)

IsIn-fromkeys : (s : String) (keys xs : List String) → IsIn s xs → IsIn s (fromkeys keys xs)
unfolding fromkeys
IsIn-fromkeys s keys [] h = elim h [ ]
IsIn-fromkeys s keys (x ∷ xs) (inl e) =
    rw e (IsIn-fromkeys_kept x (add_key keys x) xs (IsIn-add_key_self x keys))
IsIn-fromkeys s keys (x ∷ xs) (inr h) = IsIn-fromkeys s (add_key keys x) xs h

IsIn-singleton : (s r : String) → IsIn s (r ∷ []) → s ≡ r
IsIn-singleton s r (inl e) = e
IsIn-singleton s r (inr h) = elim h [ ]

All-IsIn :
    (r : String) (xs : List String) → ((s : String) → IsIn s xs → s ≡ r) → All (λ s. s ≡ r) xs
All-IsIn r [] h = tt
All-IsIn r (x ∷ xs) h = (h x (inl refl), All-IsIn r xs (λ s i. h s (inr i)))

fromkeys-same :
    (r : String) (xs : List String) → All (λ s. s ≡ r) xs → fromkeys (r ∷ []) xs ≡ r ∷ []
unfolding fromkeys
fromkeys-same r [] h = refl
fromkeys-same r (x ∷ xs) h =
    let known = (eq_iff r x).1 (sym h.0) in rw known (fromkeys-same r xs h.1)

-- `dict.fromkeys` has one key if the list repeats one text, at least once.
fromkeys-single :
    (r : String) (xs : List String) → (fromkeys [] xs ≡ r ∷ []) ↔ (IsIn r xs × All (λ s. s ≡ r) xs)
unfolding fromkeys
fromkeys-single r [] = ((λ h. ground arith), (λ h. elim h.0 [ ]))
fromkeys-single r (x ∷ xs) = (forth, back)
  where
    forth : fromkeys (x ∷ []) xs ≡ r ∷ [] → IsIn r (x ∷ xs) × All (λ s. s ≡ r) (x ∷ xs)
    forth h =
        let same =
          All-IsIn r (x ∷ xs)
            (λ s i. IsIn-singleton s r (subst (IsIn s) h (IsIn-fromkeys s [] (x ∷ xs) i))) in
        (inl (sym same.0), same)

    back : IsIn r (x ∷ xs) × All (λ s. s ≡ r) (x ∷ xs) → fromkeys (x ∷ []) xs ≡ r ∷ []
    back h = subst (λ s. fromkeys (s ∷ []) xs ≡ r ∷ []) (sym h.1.0) (fromkeys-same r xs h.1.1)

IsIn-stripped :
    (r : String) (rows : List String)
    → IsIn r (stripped rows) ↔ ((is_empty r ≡ false) × IsIn r (map strip rows))
unfolding stripped
IsIn-stripped r [] = ((λ h. elim h [ ]), (λ h. elim h.1 [ ]))
IsIn-stripped r (row ∷ rows) =
    let ih = IsIn-stripped r rows in
    elim (Bool-cases (is_empty (strip row))) [
      | inl blank ↦ rw blank (
        (λ h. ((ih.0 h).0, inr (ih.0 h).1)),
        (λ h. elim h.1 [ inl same ↦ cc | inr i ↦ ih.1 (h.0, i) ]),
      )
      | inr kept ↦ rw kept (
        (λ h. elim h [
          | inl same ↦ (ap is_empty same ∙ kept, inl same)
          | inr i ↦ ((ih.0 i).0, inr (ih.0 i).1)
        ]),
        (λ h. elim h.1 [ inl same ↦ inl same | inr i ↦ inr (ih.1 (h.0, i)) ]),
      )
    ]

All-stripped :
    (r : String) (rows : List String)
    → All (λ s. s ≡ r) (stripped rows)
      ↔ All (λ row. (is_empty (strip row) ≡ true) ⊎ (strip row ≡ r)) rows
unfolding stripped
All-stripped r [] = ((λ h. tt), (λ h. tt))
All-stripped r (row ∷ rows) =
    let ih = All-stripped r rows in
    elim (Bool-cases (is_empty (strip row))) [
      | inl blank ↦ rw blank ((λ h. (inl refl, ih.0 h)), (λ h. ih.1 h.1))
      | inr kept ↦ rw kept (
        (λ h. (inr h.0, ih.0 h.1)),
        (λ h. elim h.0 [ inl blank ↦ ground arith | inr same ↦ (same, ih.1 h.1) ]),
      )
    ]

is_compatible-single :
    (policy : SchemaCompatibilityPolicy) (keys : List String)
    → (is_compatible (revision_state policy keys) ≡ true) ↔ (
        (r : String) × (keys ≡ r ∷ [])
        × ((r ≡ policy.expected_revision) ⊎ (is_among r policy.compatible_revisions ≡ true)))
unfolding revision_state
is_compatible-single policy [] = ((λ h. ground arith), (λ h. ground arith))
is_compatible-single policy (r ∷ s ∷ rest) = ((λ h. ground arith), (λ h. ground arith))
is_compatible-single policy (r ∷ []) = (forth, back)
  where
    forth :
        is_compatible (revision_state policy (r ∷ [])) ≡ true
        → (s : String) × (r ∷ [] ≡ s ∷ [])
          × ((s ≡ policy.expected_revision) ⊎ (is_among s policy.compatible_revisions ≡ true))
    forth h = elim (Bool-cases (r =? policy.expected_revision)) [
      | inl e ↦ (r, refl, inl ((eq_iff r policy.expected_revision).0 e))
      | inr e ↦ elim (Bool-cases (is_among r policy.compatible_revisions)) [
        | inl known ↦ (r, refl, inr known)
        | inr unknown ↦ (let wrong = rw (e, unknown) at h in ground arith)
      ]
    ]

    back :
        ((s : String) × (r ∷ [] ≡ s ∷ [])
          × ((s ≡ policy.expected_revision) ⊎ (is_among s policy.compatible_revisions ≡ true)))
        → is_compatible (revision_state policy (r ∷ [])) ≡ true
    back (s, e, inl expected) =
        let same : r ≡ policy.expected_revision = cc in
        rw ((eq_iff r policy.expected_revision).1 same)
    back (s, e, inr known) =
        let among : is_among r policy.compatible_revisions ≡ true = cc in
        elim (Bool-cases (r =? policy.expected_revision)) [
          | inl is ↦ rw is
          | inr not_is ↦ rw (not_is, among)
        ]

normalized_revisions-single :
    (r : String) (rows : List String) → (normalized_revisions rows ≡ r ∷ []) ↔ OnlyRevision r rows
unfolding normalized_revisions
normalized_revisions-single r rows = (
  (λ h.
      let single = (fromkeys-single r (stripped rows)).0 h in
      let there = (IsIn-stripped r rows).0 single.0 in
      (there.0, there.1, (All-stripped r rows).0 single.1)),
  (λ only.
      (fromkeys-single r (stripped rows)).1
        ((IsIn-stripped r rows).1 (only.0, only.1), (All-stripped r rows).1 only.2)),
)

unless_compatible :
    (report : SchemaCompatibilityReport)
    → ((r : SchemaCompatibilityReport) × ((if not (is_compatible report.state)
            then err schema_incompatible
            else ok report)
          ≡ ok r))
      ↔ (is_compatible report.state ≡ true)
unless_compatible report = elim (Bool-cases (is_compatible report.state)) [
  | inl e ↦ ((λ h. e), (λ h. (report, rw e)))
  | inr e ↦ ((λ h. (let raised = rw e at h.1 in ground arith)), (λ h. cc))
]

evaluate_schema_revisions-is_compatible :
    (policy : SchemaCompatibilityPolicy) (rows : List String)
    → (is_compatible (evaluate_schema_revisions rows policy).state ≡ true) ↔ (
        (r : String) × OnlyRevision r rows
        × ((r ≡ policy.expected_revision) ⊎ (is_among r policy.compatible_revisions ≡ true)))
unfolding evaluate_schema_revisions
evaluate_schema_revisions-is_compatible policy rows =
    let single = is_compatible-single policy (normalized_revisions rows) in
    (
      (λ h.
          let found = single.0 h in
          (found.0, (normalized_revisions-single found.0 rows).0 found.1, found.2)),
      (λ h. single.1 (h.0, (normalized_revisions-single h.0 rows).1 h.1, h.2)),
    )

returned_iff :
    (session : VersionTable) (policy : SchemaCompatibilityPolicy) (schema : String)
    → ((report : SchemaCompatibilityReport) × (require_schema_compatible_sync session policy schema
          ≡ ok report))
      ↔ ((session.exists_in schema ≡ true)
          × ((r : String) × OnlyRevision r (session.version_nums schema)
              × ((r ≡ policy.expected_revision) ⊎ (is_among r policy.compatible_revisions ≡ true))))
unfolding require_schema_compatible_sync
returned_iff session policy schema = elim (Bool-cases (session.exists_in schema)) [
  | inl there ↦
      (let verdict =
          unless_compatible (evaluate_schema_revisions (session.version_nums schema) policy) in
        let single = evaluate_schema_revisions-is_compatible policy (session.version_nums schema) in
        rw there ((λ h. (refl, single.0 (verdict.0 h))), (λ h. verdict.1 (single.1 h.1))))
  | inr missing ↦
      (let verdict = unless_compatible (evaluate_schema_revisions [] policy) in
        let single = evaluate_schema_revisions-is_compatible policy [] in
        rw missing ((λ h. elim (single.0 (verdict.0 h)).1.1 [ ]), (λ h. ground arith)))
]

returned_or_raised :
    (report : SchemaCompatibilityReport)
    → ((r : SchemaCompatibilityReport) × ((if not (is_compatible report.state)
            then err schema_incompatible
            else ok report)
          ≡ ok r))
      ⊎ ((if not (is_compatible report.state) then err schema_incompatible else ok report)
          ≡ err schema_incompatible)
returned_or_raised report = elim (Bool-cases (is_compatible report.state)) [
  | inl e ↦ inl (report, rw e)
  | inr e ↦ inr (rw e)
]

-- `require_schema_compatible_sync` returns a report exactly if the version table is there and its rows hold, up to
-- blank rows, repetitions and the blanks around them, one revision only, which is not blank and which is the expected
-- one or one of the compatible ones of the policy. In all other cases it raises `SchemaCompatibilityError`.
pub require_schema_compatible_sync_iff :
    (session : VersionTable) (policy : SchemaCompatibilityPolicy) (schema : String)
    → (((report : SchemaCompatibilityReport) × (require_schema_compatible_sync session policy schema
            ≡ ok report))
        ↔ ((session.exists_in schema ≡ true)
            × ((r : String) × OnlyRevision r (session.version_nums schema)
                × ((r ≡ policy.expected_revision)
                    ⊎ (is_among r policy.compatible_revisions ≡ true)))))
      × (((report : SchemaCompatibilityReport) × (require_schema_compatible_sync session policy
                schema
              ≡ ok report))
          ⊎ (require_schema_compatible_sync session policy schema ≡ err schema_incompatible))
require_schema_compatible_sync_iff session policy schema = (
  returned_iff session policy schema,
  unfold require_schema_compatible_sync in
      returned_or_raised (check_schema_compatibility_sync session policy schema),
)
