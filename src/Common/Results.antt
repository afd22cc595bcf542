-- ===== src/Common/Results.antt =====
-- The exceptions that the modelled code raises, and results that may be one.
use mathlib.Core.Path.{◌≡◌, refl}
use mathlib.Core.Bool.{Bool, true, false}

-- exceptions.py, and the built-in exceptions that the code raises itself.
pub data Error : Type 0 where
  value_error type_error runtime_error assertion_error lock_not_acquired idempotency_conflict :
      Error
  outbox_lease_lost stale_data schema_incompatible not_found migration_unsafe tenant_error : Error
  no_result_found multiple_results_found : Error

-- What a call returns, or the exception that leaves it.
pub data Result {ℓ} (T : Type ℓ) : Type ℓ where
  err : Error → Result T
  ok : T → Result T

-- An exception skips the rest of the block.
infixl 5 ◌>>=◌
abbrev pub ◌>>=◌ {ℓ κ} : {T : Type ℓ} {U : Type κ} → Result T → (T → Result U) → Result U
err raised >>= rest = err raised
ok value >>= rest = rest value

infixl 5 ◌>>◌
abbrev pub ◌>>◌ {ℓ} : {U : Type ℓ} → Result (Unit {0}) → Result U → Result U
err raised >> rest = err raised
ok done >> rest = rest

-- `if test: raise error`
abbrev pub raise_if : Bool → Error → Result (Unit {0})
raise_if test error = elim test [ true ↦ err error | false ↦ ok tt ]

-- What holds of the value, if the call returns; and the rule for a sequence of calls.
abbrev pub Post {ℓ κ} : {A : Type ℓ} → (A → Type κ) → Result A → Type κ
Post P (err e) = Unit
Post P (ok a) = P a

pub Post-bind {ℓ κ λ' μ} :
    {A : Type ℓ} {B : Type κ} (P : A → Type λ') (Q : B → Type μ) (m : Result A) (f : A → Result B)
    → Post P m
    → ((a : A) → P a → Post Q (f a))
    → Post Q (m >>= f)
Post-bind P Q (err e) f h k = tt
Post-bind P Q (ok a) f h k = k a h

pub Post-raise_if :
    {A : Type 0} (P : A → Type 0) (test : Bool) (error : Error) (m : Result A)
    → (test ≡ false → Post P m)
    → Post P (raise_if test error >> m)
Post-raise_if P true error m h = tt
Post-raise_if P false error m h = h refl

pub Post-each :
    {A B : Type 0} (P : B → Type 0) (m : Result A) (f : A → B)
    → ((a : A) → P (f a))
    → Post P (m >>= (λ a. ok (f a)))
Post-each P (err e) f h = tt
Post-each P (ok a) f h = h a

pub Post-any : {A : Type 0} (m : Result A) → Post (λ a. Unit {0}) m
Post-any (err e) = tt
Post-any (ok a) = tt

pub Post-ok : {A : Type 0} (P : A → Type 0) (m : Result A) (a : A) → Post P m → m ≡ ok a → P a
Post-ok P m a h e = rw e at h

pub Post-map :
    {A : Type 0} {P Q : A → Type 0} (f : (a : A) → P a → Q a) (m : Result A) → Post P m → Post Q m
Post-map f (err e) h = tt
Post-map f (ok a) h = f a h
