-- ===== src/Cache/Invalidate.antt =====
-- What `invalidate_tag` deletes of what `set` stored.
use prodkit_storage.Common.{
  ℕ, ◌+◌, true, false, Option, none, some, String, ◌=?◌, is_among, List, [], ◌∷◌, ltb, ◌≡◌, refl,
  ap, ◌∙◌, subst, ◌⊎◌, inl, inr, arith, Bool-cases,
}
use prodkit_storage.Cache.Keyspace.{
  Content, text, Cell, Keyspace, if_live, at, text_of, members_of, set_in, del_in, wait_in,
  expire_nx_in, expire_gt_in, Server,
}
use prodkit_storage.Cache.Defs.{add_tag, add_tags, execute_set, delete, invalidate_tag_script}
use prodkit_storage.Cache.Tags.{
  Tagged, add_tag_in, add_tags_in, put-cell, add_tags_in-other, add_tags_in-Tagged,
}

abbrev pub delete_in : List String → Keyspace → Keyspace
delete_in [] ks = ks
delete_in (key ∷ keys) ks = delete_in keys (del_in key ks)

-- A deletion leaves a cell as it is, or empty; and empties those of its keys.
delete_in-none :
    (keys : List String) (j : String) (ks : Keyspace)
    → ks.cell j ≡ none
    → (delete_in keys ks).cell j ≡ none
delete_in-none [] j ks h = h
delete_in-none (key ∷ keys) j ks h =
    delete_in-none keys j (del_in key ks)
      (elim (Bool-cases (key =? j)) [ inl same ↦ rw same | inr differ ↦ rw differ h ])

delete_in-gone :
    (keys : List String) (j : String) (ks : Keyspace)
    → is_among j keys ≡ true
    → (delete_in keys ks).cell j ≡ none
delete_in-gone [] j ks h = ground arith
delete_in-gone (key ∷ keys) j ks h = elim (Bool-cases (key =? j)) [
  | inl same ↦ delete_in-none keys j (del_in key ks) (rw same)
  | inr differ ↦ delete_in-gone keys j (del_in key ks) (rw differ at h)
]

delete_in-spared :
    (keys : List String) (j : String) (ks : Keyspace)
    → is_among j keys ≡ false
    → (delete_in keys ks).cell j ≡ ks.cell j
delete_in-spared [] j ks h = refl
delete_in-spared (key ∷ keys) j ks h = elim (Bool-cases (key =? j)) [
  | inl same ↦ (let wrong = rw same at h in ground arith)
  | inr differ ↦ delete_in-spared keys j (del_in key ks) (rw differ at h) ∙ rw differ
]

delete_in-kept :
    (keys : List String) (j : String) (ks : Keyspace)
    → ((delete_in keys ks).cell j ≡ none) ⊎ ((delete_in keys ks).cell j ≡ ks.cell j)
delete_in-kept keys j ks = elim (Bool-cases (is_among j keys)) [
  | inl among ↦ inl (delete_in-gone keys j ks among)
  | inr spared ↦ inr (delete_in-spared keys j ks spared)
]

delete_in-clock : (keys : List String) (ks : Keyspace) → (delete_in keys ks).clock ≡ ks.clock
delete_in-clock [] ks = refl
delete_in-clock (key ∷ keys) ks = delete_in-clock keys (del_in key ks)

live-members :
    (key : String) (now e0 : ℕ) (o : Option Cell)
    → Tagged key (e0 + 60) o
    → ltb now e0 ≡ true
    → is_among key (members_of (if_live now o)) ≡ true
live-members key now e0 none h lives = elim h [ ]
live-members key now e0 (some c) (among, (e, expires, late)) lives =
    let still : ltb now e ≡ true = ground arith in rw (expires, still) among

at-gone : (ks : Keyspace) (j : String) → ks.cell j ≡ none → text_of (at ks j) ≡ none
at-gone ks j h = rw h

del_in-gone :
    (tag key : String) (ks : Keyspace)
    → ks.cell key ≡ none
    → text_of (at (del_in tag ks) key) ≡ none
del_in-gone tag key ks h = elim (Bool-cases (tag =? key)) [
  | inl same ↦ rw same
  | inr differ ↦ rw (differ, h)
]

del_in-expired :
    (tag key : String) (ks : Keyspace) (content : Content) (e0 : ℕ)
    → ks.cell key ≡ some (record { content = content; expires = some e0 })
    → ltb ks.clock e0 ≡ false
    → text_of (at (del_in tag ks) key) ≡ none
del_in-expired tag key ks content e0 h over = elim (Bool-cases (tag =? key)) [
  | inl same ↦ rw same
  | inr differ ↦ rw (differ, h, over)
]

-- The script on a keyspace in which the tag outlives the key.
invalidated :
    (tag key : String) (ks : Keyspace) (content : Content) (e0 : ℕ)
    → ks.cell key ≡ some (record { content = content; expires = some e0 })
    → Tagged key (e0 + 60) (ks.cell tag)
    → text_of (at (del_in tag (delete_in (members_of (at ks tag)) ks)) key) ≡ none
invalidated tag key ks content e0 h tagged =
    let ms = members_of (at ks tag) in
    elim (Bool-cases (ltb ks.clock e0)) [
      | inl lives ↦
          del_in-gone tag key (delete_in ms ks)
            (delete_in-gone ms key ks (live-members key ks.clock e0 (ks.cell tag) tagged lives))
      | inr over ↦ elim (delete_in-kept ms key ks) [
        | inl gone ↦ del_in-gone tag key (delete_in ms ks) gone
        | inr kept ↦
            del_in-expired tag key (delete_in ms ks) content e0 (kept ∙ h)
              (ap (λ now. ltb now e0) (delete_in-clock ms ks) ∙ over)
      ]
    ]

module _ (r : Server) where
  open r use {State, view, get, smembers, set, del}

  delete-view :
      (keys : List String) (s : State) → view (delete r keys s).1 ≡ delete_in keys (view s)
  unfolding delete
  delete-view [] s = refl
  delete-view (key ∷ keys) s =
      delete-view keys (del key s).1 ∙ ap (delete_in keys) (r.del_lem key s)

  add_tag-view :
      (key : String) (ttl : ℕ) (t : String) (s : State)
      → view (add_tag r key ttl t s) ≡ add_tag_in key ttl t (view s)
  add_tag-view key ttl t s =
      r.expire_gt_lem t (ttl + 60) _
      ∙ ap (expire_gt_in t (ttl + 60))
          (r.expire_nx_lem t (ttl + 60) _ ∙ ap (expire_nx_in t (ttl + 60)) (r.sadd_lem t key s))

  add_tags-view :
      (key : String) (ttl : ℕ) (tags : List String) (s : State)
      → view (add_tags r key ttl tags s) ≡ add_tags_in key ttl tags (view s)
  unfolding add_tags
  add_tags-view key ttl [] s = refl
  add_tags-view key ttl (t ∷ ts) s =
      add_tags-view key ttl ts (add_tag r key ttl t s)
      ∙ ap (add_tags_in key ttl ts) (add_tag-view key ttl t s)

  pub execute_set-view :
      (key v : String) (ttl : ℕ) (tags : List String) (s : State)
      → view (execute_set r key v ttl tags s) ≡ add_tags_in key ttl tags (set_in key v ttl (view s))
  unfolding execute_set
  execute_set-view key v ttl tags s =
      add_tags-view key ttl tags (set key v ttl s)
      ∙ ap (add_tags_in key ttl tags) (r.set_lem key v ttl s)

  invalidate-view :
      (tag : String) (s : State)
      → view (invalidate_tag_script r tag s).1
        ≡ del_in tag (delete_in (members_of (at (view s) tag)) (view s))
  unfolding invalidate_tag_script
  invalidate-view tag s =
      r.del_lem tag _
      ∙ ap (del_in tag)
          (delete-view (smembers s tag) s ∙ ap (λ ms. delete_in ms (view s)) (r.smembers_lem s tag))

  -- A key that is stored with tags, none of whose keys is the key itself: whenever one of the tags is invalidated later,
  -- with nothing but time between, the key is gone afterwards. The tag's set never expires before the key.
  pub execute_set-invalidate_tag :
      (key v : String) (ttl n : ℕ) (tags : List String) (tag : String) (s later : State)
      → is_among tag tags ≡ true
      → is_among key tags ≡ false
      → view later ≡ wait_in n (view (execute_set r key v ttl tags s))
      → get (invalidate_tag_script r tag later).1 key ≡ none
  execute_set-invalidate_tag key v ttl n tags tag s later among apart waited =
      let c = (view s).clock in
      let stored = set_in key v ttl (view s) in
      let now = waited ∙ ap (wait_in n) (execute_set-view key v ttl tags s) in
      let sum : c + (ttl + 60) ≡ (c + ttl) + 60 = omega arith in
      let tagged =
        subst (λ t. Tagged key t ((add_tags_in key ttl tags stored).cell tag)) sum
          (add_tags_in-Tagged key ttl tags tag stored among) in
      let cell =
        add_tags_in-other key ttl tags key stored apart
        ∙ put-cell (view s) key (some (record { content = text v; expires = some (c + ttl) })) in
      r.get_lem _ key
      ∙ ap (λ ks. text_of (at ks key)) (invalidate-view tag later)
      ∙ ap (λ ks. text_of (at (del_in tag (delete_in (members_of (at ks tag)) ks)) key)) now
      ∙ invalidated tag key (wait_in n (add_tags_in key ttl tags stored)) (text v) (c + ttl) cell
          tagged
