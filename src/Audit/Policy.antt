-- ===== src/Audit/Policy.antt =====
-- `AuditPolicy`: each value of a payload is kept, masked, dropped, hashed or refused, by its path.
use prodkit_storage.Common.{
  ℕ, zero, suc, ◌==◌, Bool, false, ◌||◌, Option, none, some, String, ◌=?◌, lower, str_join, str_of,
  List, [], ◌∷◌, ◌++◌, last, if◌then◌else◌, Result, ok, err, value_error, ◌>>=◌,
}
use prodkit_storage.Audit.Values.{
  Value, scalar, ref, Container, mapping, sequence, Heap, Clean, kept, replaced, object, array,
  CleanFields, end, CleanItems, nil, put, snoc,
}

pub data DataClassification : Type 0 where
  public internal personal sensitive secret regulated : DataClassification

pub data AuditAction : Type 0 where
  keep mask drop hash reject : AuditAction

abbrev pub FieldPath : Type 0
FieldPath = List String

-- `".".join(path).lower()`
unfoldable pub dotted : FieldPath → String
unfolding str_join lower
dotted path = lower (str_join "." path)

-- `mapping.get(key)`
unfoldable pub find : {A : Type 0} → String → List (String × A) → Option A
find key [] = none
find key ((k, a) ∷ rest) = if k =? key then some a else find key rest

pub record NameClassifier : Type 0 where
  pub paths : List (String × DataClassification)
  pub leaf_names : List (String × DataClassification)

abbrev pub leaf_class : NameClassifier → Option String → Option DataClassification
leaf_class c none = none
leaf_class c (some leaf) = find (lower leaf) c.leaf_names

abbrev pub or_leaf :
    Option DataClassification → Option DataClassification → Option DataClassification
or_leaf none leaf = leaf
or_leaf (some c) leaf = some c

unfoldable pub classify_name : NameClassifier → FieldPath → Option DataClassification
unfolding find dotted
classify_name c path = or_leaf (find (dotted path) c.paths) (leaf_class c (last path))

module _ (S : Type 0) where
  -- A classifier, as an object or as a hook, sees the path and the value with all that it refers to.
  abbrev pub Classifier : Type 0
  Classifier = Heap S → FieldPath → Value S → Option DataClassification

  -- `keyed_hash` is `_hash` with the policy's secret: HMAC of the value's `repr`.
  pub record AuditPolicy : Type 0 where
    pub classifiers : List Classifier
    pub classification_actions : DataClassification → Option AuditAction
    pub field_actions : List (String × AuditAction)
    pub mask : String
    pub keyed_hash : Option (Heap S → Value S → String)
    pub max_depth : ℕ

abbrev pub or_keep : Option AuditAction → AuditAction
or_keep none = AuditAction.keep
or_keep (some a) = a

module _ {S : Type 0} (p : AuditPolicy S) (heap : Heap S) where
  -- The loop of `_action`: the first classifier that knows the value decides.
  unfoldable pub classified : List (Classifier S) → FieldPath → Value S → AuditAction
  classified [] path v = AuditAction.keep
  classified (c ∷ cs) path v = elim (c heap path v) [
    | some classification ↦ or_keep (p.classification_actions classification)
    | none ↦ classified cs path v
  ]

  unfoldable pub action : FieldPath → Value S → AuditAction
  unfolding classified find dotted
  action path v = elim (find (dotted path) p.field_actions) [
    | some field_action ↦ field_action
    | none ↦ classified p.classifiers path v
  ]

  unfoldable pub hashed : Value S → Result (Option (Clean S))
  hashed v = elim p.keyed_hash [ none ↦ err value_error | some h ↦ ok (some (replaced (h heap v))) ]

abbrev pub is_visited : ℕ → List ℕ → Bool
is_visited i [] = false
is_visited i (j ∷ visited) = (j == i) || is_visited i visited

-- The loops over a container, for the call that sanitizes one value at the name of its place. A value
-- that is dropped, `none`, leaves no entry.
module _ {S : Type 0} (sanitize_one : String → Value S → Result (Option (Clean S))) where
  abbrev pub stored : String → Option (Clean S) → CleanFields S → CleanFields S
  stored key none fields = fields
  stored key (some c) fields = put key c fields

  abbrev pub pushed : Option (Clean S) → CleanItems S → CleanItems S
  pushed none items = items
  pushed (some c) items = snoc items c

  unfoldable pub sanitize_fields : List (String × Value S) → CleanFields S → Result (CleanFields S)
  sanitize_fields [] sanitized = ok sanitized
  sanitize_fields ((key, item) ∷ rest) sanitized = do
    result ← sanitize_one key item
    sanitize_fields rest (stored key result sanitized)

  unfoldable pub sanitize_items : ℕ → List (Value S) → CleanItems S → Result (CleanItems S)
  sanitize_items index [] sanitized = ok sanitized
  sanitize_items index (item ∷ rest) sanitized = do
    result ← sanitize_one (str_of index) item
    sanitize_items (suc index) rest (pushed result sanitized)

  unfoldable pub sanitize_container : Container S → Result (Option (Clean S))
  unfolding sanitize_fields sanitize_items
  sanitize_container (mapping entries) = do
    fields ← sanitize_fields entries end
    ok (some (object fields))
  sanitize_container (sequence items) = do
    clean ← sanitize_items 0 items nil
    ok (some (array clean))

module _ {S : Type 0} (p : AuditPolicy S) (heap : Heap S) where
  -- `_sanitize` behind its depth test and its action. What is entered is visited until it is left.
  unfoldable pub sanitize_kept :
      (FieldPath → List ℕ → Value S → Result (Option (Clean S)))
      → FieldPath
      → List ℕ
      → Value S
      → Result (Option (Clean S))
  unfolding sanitize_container
  sanitize_kept deeper path visited (scalar s) = ok (some (kept s))
  sanitize_kept deeper path visited (ref i) =
      if is_visited i visited
      then err value_error
      else sanitize_container (λ name. deeper (path ++ name ∷ []) (i ∷ visited)) (heap i)

  -- The branches on the action; the second argument is for a value that is kept.
  abbrev pub taken : Value S → Result (Option (Clean S)) → AuditAction → Result (Option (Clean S))
  taken v inside mask = ok (some (replaced p.mask))
  taken v inside drop = ok none
  taken v inside reject = err value_error
  taken v inside hash = hashed p heap v
  taken v inside keep = inside

  -- `_sanitize`, where `left` is `max_depth + 1 - depth`.
  unfoldable pub sanitize_at : (left : ℕ) → FieldPath → List ℕ → Value S → Result (Option (Clean S))
  unfolding sanitize_kept action hashed
  sanitize_at zero path visited v = err value_error
  sanitize_at (suc left) path visited v =
      taken v (sanitize_kept (sanitize_at left) path visited v) (action p heap path v)

  unfoldable pub sanitize : Value S → Result (Option (Clean S))
  unfolding sanitize_at
  sanitize v = sanitize_at (suc p.max_depth) [] [] v

abbrev pub default_secret_names : List (String × DataClassification)
default_secret_names =
    ("password", secret)
    ∷ ("password_hash", secret)
    ∷ ("access_token", secret)
    ∷ ("refresh_token", secret)
    ∷ ("api_key", secret)
    ∷ ("secret", secret)
    ∷ ("client_secret", secret)
    ∷ ("private_key", secret)
    ∷ ("authorization", secret)
    ∷ ("cookie", secret)
    ∷ ("cvv", secret)
    ∷ ("cvc", secret)
    ∷ ("card_number", regulated)
    ∷ ("pan", regulated)
    ∷ ("ssn", regulated)
    ∷ []

abbrev pub default_action : DataClassification → Option AuditAction
default_action public = some AuditAction.keep
default_action internal = some AuditAction.keep
default_action personal = some AuditAction.keep
default_action sensitive = some AuditAction.mask
default_action secret = some AuditAction.drop
default_action regulated = some AuditAction.mask

abbrev pub default_names : NameClassifier
default_names = record { paths = []; leaf_names = default_secret_names }

abbrev pub default_audit_policy : (S : Type 0) → AuditPolicy S
default_audit_policy S = record {
  classifiers = (λ heap path v. classify_name default_names path) ∷ [];
  classification_actions = default_action;
  field_actions = [];
  mask = "[REDACTED]";
  keyed_hash = none;
  max_depth = 32;
}
