-- ===== src/Cache/Tags.antt =====
-- What a tag knows of the keys that were stored with it, and what invalidating it deletes.
use prodkit_storage.Common.{
  ℕ, ◌+◌, ◌<◌, ◌≤◌, true, false, Option, none, some, String, ◌=?◌, is_among, List, [], ◌∷◌,
  if◌then◌else◌, ltb, ◌≡◌, refl, sym, ap, ◌∙◌, subst, inl, inr, arith, Bool-cases, eq_iff,
}
use prodkit_storage.Cache.Keyspace.{
  Content, members, Cell, Keyspace, if_live, at, put, members_of, with_member, sadd_in, nx, gt,
  expire_nx_in, expire_gt_in,
}

-- The cell of a tag that has the key among its members and expires at `t` or later.
abbrev pub Tagged : String → ℕ → Option Cell → Type 0
Tagged key t none = ⊥
Tagged key t (some c) =
    (is_among key (members_of (some c)) ≡ true) × ((e : ℕ) × (c.expires ≡ some e) × (t ≤ e))

-- What `add_tag` does to the cell of the tag.
abbrev pub tag_cell : ℕ → ℕ → String → Option Cell → Option Cell
tag_cell now t key o = gt t (if_live now (nx t (if_live now (with_member key (if_live now o)))))

is_among-cons :
    (s : String) (ts : List String) → is_among s (if is_among s ts then ts else s ∷ ts) ≡ true
is_among-cons s ts = elim (Bool-cases (is_among s ts)) [
  | inl old ↦ rw (old, old)
  | inr added ↦ rw (added, (eq_iff s s).1 refl)
]

gt-Tagged :
    (key : String) (t e : ℕ) (content : Content)
    → is_among key (members_of (some (record { content = content; expires = some e }))) ≡ true
    → Tagged key t (gt t (some (record { content = content; expires = some e })))
gt-Tagged key t e content h = elim (Bool-cases (ltb e t)) [
  | inl later ↦ rw later (h, (t, refl, omega arith))
  | inr enough ↦ rw enough (h, (e, refl, ground arith))
]

fresh-Tagged :
    (now t : ℕ) (key : String) (content : Content)
    → now < t
    → is_among key (members_of (some (record { content = content; expires = none }))) ≡ true
    → Tagged key t (
        gt t
          (if_live now (nx t (if_live now (some (record { content = content; expires = none }))))))
fresh-Tagged now t key content h among =
    let lives : ltb now t ≡ true = ground arith in rw lives (gt-Tagged key t t content among)

timed-Tagged :
    (now t e : ℕ) (key : String) (content : Content)
    → ltb now e ≡ true
    → is_among key (members_of (some (record { content = content; expires = some e }))) ≡ true
    → Tagged key t (
        gt t (
          if_live now (nx t (if_live now (some (record { content = content; expires = some e }))))))
timed-Tagged now t e key content lives among = rw (lives, lives) (gt-Tagged key t e content among)

some-Tagged :
    (now t : ℕ) (key : String) (content : Content) (expires : Option ℕ)
    → now < t
    → Tagged key t (tag_cell now t key (some (record { content = content; expires = expires })))
some-Tagged now t key content none h =
    fresh-Tagged now t key _ h
      (is_among-cons key (members_of (some (record { content = content; expires = none }))))
some-Tagged now t key content (some e) h = elim (Bool-cases (ltb now e)) [
  | inl lives ↦ rw lives (
      timed-Tagged now t e key _ lives
        (is_among-cons key (members_of (some (record { content = content; expires = some e })))))
  | inr over ↦
      rw over (fresh-Tagged now t key (members (key ∷ [])) h (rw ((eq_iff key key).1 refl)))
]

tag_cell-Tagged :
    (now t : ℕ) (key : String) (o : Option Cell) → now < t → Tagged key t (tag_cell now t key o)
tag_cell-Tagged now t key none h =
    fresh-Tagged now t key (members (key ∷ [])) h (rw ((eq_iff key key).1 refl))
tag_cell-Tagged now t key (some c) h = some-Tagged now t key c.content c.expires h

-- The commands of one tag, on the keyspace.
abbrev pub add_tag_in : String → ℕ → String → Keyspace → Keyspace
add_tag_in key ttl tag_key ks =
    expire_gt_in tag_key (ttl + 60) (expire_nx_in tag_key (ttl + 60) (sadd_in tag_key key ks))

abbrev pub add_tags_in : String → ℕ → List String → Keyspace → Keyspace
add_tags_in key ttl [] ks = ks
add_tags_in key ttl (tag_key ∷ rest) ks = add_tags_in key ttl rest (add_tag_in key ttl tag_key ks)

pub put-cell : (ks : Keyspace) (key : String) (c : Option Cell) → (put ks key c).cell key ≡ c
put-cell ks key c = rw ((eq_iff key key).1 refl)

add_tag_in-cell :
    (key : String) (ttl : ℕ) (tag_key : String) (ks : Keyspace)
    → (add_tag_in key ttl tag_key ks).cell tag_key
      ≡ tag_cell ks.clock (ks.clock + (ttl + 60)) key (ks.cell tag_key)
add_tag_in-cell key ttl tag_key ks =
    let added = sadd_in tag_key key ks in
    let lasting = expire_nx_in tag_key (ttl + 60) added in
    let t = ks.clock + (ttl + 60) in
    put-cell lasting tag_key (gt t (at lasting tag_key))
    ∙ ap (λ o. gt t (if_live ks.clock o))
        (put-cell added tag_key (nx t (at added tag_key))
          ∙ ap (λ o. nx t (if_live ks.clock o))
              (put-cell ks tag_key (with_member key (at ks tag_key))))

add_tag_in-other :
    (key : String) (ttl : ℕ) (tag_key j : String) (ks : Keyspace)
    → (tag_key =? j) ≡ false
    → (add_tag_in key ttl tag_key ks).cell j ≡ ks.cell j
add_tag_in-other key ttl tag_key j ks h = rw h

pub add_tags_in-clock :
    (key : String) (ttl : ℕ) (tags : List String) (ks : Keyspace)
    → (add_tags_in key ttl tags ks).clock ≡ ks.clock
add_tags_in-clock key ttl [] ks = refl
add_tags_in-clock key ttl (t ∷ ts) ks = add_tags_in-clock key ttl ts (add_tag_in key ttl t ks)

-- A key that is no tag's keeps its cell.
pub add_tags_in-other :
    (key : String) (ttl : ℕ) (tags : List String) (j : String) (ks : Keyspace)
    → is_among j tags ≡ false
    → (add_tags_in key ttl tags ks).cell j ≡ ks.cell j
add_tags_in-other key ttl [] j ks h = refl
add_tags_in-other key ttl (t ∷ ts) j ks h = elim (Bool-cases (t =? j)) [
  | inl same ↦ (let wrong = rw same at h in ground arith)
  | inr differ ↦
      add_tags_in-other key ttl ts j (add_tag_in key ttl t ks) (rw differ at h)
      ∙ add_tag_in-other key ttl t j ks differ
]

pub add_tags_in-Tagged :
    (key : String) (ttl : ℕ) (tags : List String) (j : String) (ks : Keyspace)
    → is_among j tags ≡ true
    → Tagged key (ks.clock + (ttl + 60)) ((add_tags_in key ttl tags ks).cell j)
add_tags_in-Tagged key ttl [] j ks h = ground arith
add_tags_in-Tagged key ttl (t ∷ ts) j ks h = elim (Bool-cases (is_among j ts)) [
  | inl later ↦ add_tags_in-Tagged key ttl ts j (add_tag_in key ttl t ks) later
  | inr last ↦ elim (Bool-cases (t =? j)) [
    | inl same ↦
        subst (Tagged key (ks.clock + (ttl + 60)))
          (sym (add_tags_in-other key ttl ts j (add_tag_in key ttl t ks) last))
          (subst (λ k. Tagged key (ks.clock + (ttl + 60)) ((add_tag_in key ttl t ks).cell k))
            ((eq_iff t j).0 same)
            (subst (Tagged key (ks.clock + (ttl + 60))) (sym (add_tag_in-cell key ttl t ks))
              (tag_cell-Tagged ks.clock (ks.clock + (ttl + 60)) key (ks.cell t) (omega arith))))
    | inr differ ↦ (let wrong = rw (last, differ) at h in ground arith)
  ]
]
