-- ===== src/Security/Loaded.antt =====
-- What `load_storage_settings` hands to the model.
use prodkit_storage.Common.{
  Bool, true, false, not, Option, none, some, String, ◌=?◌, is_empty, is_among, strip, List, [],
  ◌∷◌, All, Result, ok, err, value_error, ◌>>◌, Post, Post-bind, Post-raise_if, Post-ok, Post-map,
  ◌≡◌, refl, sym, ap, ◌∙◌, subst, ◌⊎◌, inl, inr, arith, Bool-cases, eq_iff,
}
use prodkit_storage.Security.Secrets.{
  Provider, Dictionary, SecretBinding, validate_from, validate_bindings, bound, bind_secret,
  load_storage_settings,
}

-- The secret, if the provider has it, and otherwise what was there.
abbrev pub secret_or : Option String → Option String → Option String
secret_or (some value) override = some value
secret_or none override = override

abbrev pub is_missing : Option String → Bool
is_missing none = true
is_missing (some v) = false

-- The settings of the bindings are not the name.
abbrev pub NotBound : String → List SecretBinding → Type 0
NotBound name = All (λ b. (b.setting =? name) ≡ false)

-- No two bindings have one setting.
abbrev pub AreDistinct : List SecretBinding → Type 0
AreDistinct [] = Unit
AreDistinct (b ∷ bs) = NotBound b.setting bs × AreDistinct bs

-- A binding whose setting has its secret, or keeps its override if the secret is missing and not required.
abbrev pub Bound : Provider → Dictionary → Dictionary → SecretBinding → Type 0
Bound provider overrides values b =
    (values b.setting ≡ secret_or (provider b.secret_name) (overrides b.setting))
    × ((is_missing (provider b.secret_name) ≡ false) ⊎ (b.required ≡ false))

apart :
    (s name : String) (seen : List String)
    → is_among s seen ≡ false
    → is_among name seen ≡ true
    → (s =? name) ≡ false
apart s name seen fresh known = elim (Bool-cases (s =? name)) [
  | inl same ↦
      (let wrong = subst (λ k. is_among k seen ≡ false) ((eq_iff s name).0 same) fresh in
        ground arith)
  | inr differ ↦ differ
]

is_among-later :
    (s name : String) (seen : List String)
    → is_among name seen ≡ true
    → is_among name (s ∷ seen) ≡ true
is_among-later s name seen h = elim (Bool-cases (s =? name)) [
  | inl same ↦ rw same
  | inr differ ↦ rw (differ, h)
]

not_seen :
    (fields seen : List String) (name : String) (bs : List SecretBinding)
    → is_among name seen ≡ true
    → Post (λ u. NotBound name bs) (validate_from fields seen bs)
unfolding validate_from
not_seen fields seen name [] h = tt
not_seen fields seen name (b ∷ bs) h =
    Post-raise_if _ (not (is_among b.setting fields)) value_error _ (λ known.
      Post-raise_if _ (is_among b.setting seen) value_error _ (λ fresh.
        Post-raise_if _ (is_empty (strip b.secret_name)) value_error _ (λ named.
          Post-map (λ u rest. (apart b.setting name seen fresh h, rest))
            (validate_from fields (b.setting ∷ seen) bs)
            (not_seen fields (b.setting ∷ seen) name bs (is_among-later b.setting name seen h)))))

Post-both :
    {A : Type 0} (P Q : A → Type 0) (m : Result A) → Post P m → Post Q m → Post (λ a. P a × Q a) m
Post-both P Q (err e) p q = tt
Post-both P Q (ok a) p q = (p, q)

validate_from-AreDistinct :
    (fields seen : List String) (bs : List SecretBinding)
    → Post (λ u. AreDistinct bs) (validate_from fields seen bs)
unfolding validate_from
validate_from-AreDistinct fields seen [] = tt
validate_from-AreDistinct fields seen (b ∷ bs) =
    Post-raise_if _ (not (is_among b.setting fields)) value_error _ (λ known.
      Post-raise_if _ (is_among b.setting seen) value_error _ (λ fresh.
        Post-raise_if _ (is_empty (strip b.secret_name)) value_error _ (λ named.
          Post-both (λ u. NotBound b.setting bs) (λ u. AreDistinct bs)
            (validate_from fields (b.setting ∷ seen) bs)
            (not_seen fields (b.setting ∷ seen) b.setting bs
              (rw ((eq_iff b.setting b.setting).1 refl)))
            (validate_from-AreDistinct fields (b.setting ∷ seen) bs))))

-- One pass: the binding's setting has the secret, or stays, and all other names stay.
abbrev pub Passed : SecretBinding → Option String → Dictionary → Dictionary → Type 0
Passed b answer before after =
    (after b.setting ≡ secret_or answer (before b.setting))
    × ((is_missing answer ≡ false) ⊎ (b.required ≡ false))
    × ((name : String) → (b.setting =? name) ≡ false → after name ≡ before name)

bind_secret-Passed :
    (b : SecretBinding) (answer : Option String) (values : Dictionary)
    → Post (Passed b answer values) (bind_secret b answer values)
unfolding bind_secret
bind_secret-Passed b none values =
    Post-raise_if (Passed b none values) b.required value_error (ok values)
      (λ optional. (refl, inr optional, λ name h. refl))
bind_secret-Passed b (some value) values =
    (rw ((eq_iff b.setting b.setting).1 refl), inl refl, λ name h. rw h)

-- A name that no binding sets keeps its value.
bound-kept :
    (provider : Provider) (bs : List SecretBinding) (name : String) (overrides : Dictionary)
    → NotBound name bs
    → Post (λ values. values name ≡ overrides name) (bound provider bs overrides)
unfolding bound
bound-kept provider [] name overrides h = refl
bound-kept provider (b ∷ bs) name overrides h =
    Post-bind (Passed b (provider b.secret_name) overrides) (λ values. values name ≡ overrides name)
      (bind_secret b (provider b.secret_name) overrides) _
      (bind_secret-Passed b (provider b.secret_name) overrides)
      (λ next passed.
        Post-map (λ values e. e ∙ passed.2 name h.0) (bound provider bs next)
          (bound-kept provider bs name next h.1))

differ_sym : (s t : String) → (s =? t) ≡ false → (t =? s) ≡ false
differ_sym s t h = elim (Bool-cases (t =? s)) [
  | inl same ↦
      (let wrong = subst (λ k. (k =? t) ≡ false) (sym ((eq_iff t s).0 same)) h in
        let right = (eq_iff t t).1 refl in cc)
  | inr differ ↦ differ
]

rebased :
    (provider : Provider) (b : SecretBinding) (bs : List SecretBinding)
    (before next values : Dictionary)
    → NotBound b.setting bs
    → ((name : String) → (b.setting =? name) ≡ false → next name ≡ before name)
    → All (Bound provider next values) bs
    → All (Bound provider before values) bs
rebased provider b [] before next values h kept all = tt
rebased provider b (c ∷ cs) before next values h kept all = (
  (
    all.0.0
        ∙ ap (secret_or (provider c.secret_name))
            (kept c.setting (differ_sym c.setting b.setting h.0)),
    all.0.1,
  ),
  rebased provider b cs before next values h.1 kept all.1,
)

bound-Bound :
    (provider : Provider) (bs : List SecretBinding) (overrides : Dictionary)
    → AreDistinct bs
    → Post (λ values. All (Bound provider overrides values) bs) (bound provider bs overrides)
unfolding bound
bound-Bound provider [] overrides h = tt
bound-Bound provider (b ∷ bs) overrides h =
    Post-bind (Passed b (provider b.secret_name) overrides)
      (λ values. All (Bound provider overrides values) (b ∷ bs))
      (bind_secret b (provider b.secret_name) overrides) _
      (bind_secret-Passed b (provider b.secret_name) overrides)
      (λ next passed.
        Post-map
          (λ values both. (
            (both.0 ∙ passed.0, passed.1),
            rebased provider b bs overrides next values h.0 passed.2 both.1,
          ))
          (bound provider bs next)
          (Post-both (λ values. values b.setting ≡ next b.setting)
            (λ values. All (Bound provider next values) bs) (bound provider bs next)
            (bound-kept provider bs b.setting next h.0) (bound-Bound provider bs next h.1)))

Post-self : {A : Type 0} (m : Result A) → Post (λ a. m ≡ ok a) m
Post-self (err e) = tt
Post-self (ok a) = refl

Post-then :
    {B : Type 0} (P : Type 0) (Q : B → Type 0) (m : Result (Unit {0})) (rest : Result B)
    → Post (λ u. P) m
    → (P → Post Q rest)
    → Post Q (m >> rest)
Post-then P Q (err e) rest h k = tt
Post-then P Q (ok u) rest h k = k h

-- A call of `load_storage_settings` that returns: the settings are what the model makes of values in which the setting of
-- every binding has its secret, or its override if the provider has no such secret and the binding is not required, and in
-- which a name that no binding sets has its override.
pub load_storage_settings-Bound :
    {S : Type 0} (model_fields : List String) (model_validate : Dictionary → Result S)
    (provider : Provider) (bindings : List SecretBinding) (overrides : Dictionary) (settings : S)
    (name : String)
    → NotBound name bindings
    → load_storage_settings model_fields model_validate provider bindings overrides ≡ ok settings
    → (values : Dictionary) × (model_validate values ≡ ok settings)
      × All (Bound provider overrides values) bindings
      × (values name ≡ overrides name)
unfolding load_storage_settings validate_bindings
load_storage_settings-Bound {S} model_fields model_validate provider bindings overrides settings
      name unbound =
    let Holds : Dictionary → Type 0 =
      λ values. All (Bound provider overrides values) bindings × (values name ≡ overrides name) in
    let Loads : S → Type 0 = λ made.
      (values : Dictionary) × (model_validate values ≡ ok made)
      × All (Bound provider overrides values) bindings
      × (values name ≡ overrides name) in
    let distinct = validate_from-AreDistinct model_fields [] bindings in
    let loads =
      Post-then (AreDistinct bindings) Loads (validate_from model_fields [] bindings) _ distinct
        (λ apart_each.
          Post-bind Holds Loads (bound provider bindings overrides) _
            (Post-both (λ values. All (Bound provider overrides values) bindings)
              (λ values. values name ≡ overrides name) (bound provider bindings overrides)
              (bound-Bound provider bindings overrides apart_each)
              (bound-kept provider bindings name overrides unbound))
            (λ values holds.
              Post-map (λ made validated. (values, validated, holds.0, holds.1))
                (model_validate values) (Post-self (model_validate values)))) in
    λ returned. Post-ok Loads _ settings loads returned
