-- ===== src/Metadata/Lookup.antt =====
-- What a reader of the metadata sees after a write.
use omega_services.Prelude.{
  ◌≡◌, ◌≢◌, refl, ◌≤◌, Bool, true, false, Option, none, some, List, [], ◌∷◌, Bytes, take-eq_self,
  length, length-append, length-eq_nocase, ltb, ap, ◌∙◌, eq_nocase, eq_nocase-congruence,
  eq_nocase_join, if◌then◌else◌, All, arith, Bool-cases, inl, inr,
}
use omega_services.Metadata.{
  Metadata, key_text, cut_value, get_metadata, update_entry, update_metadata, add_metadata,
}

abbrev pub value_of : Option Metadata → Option Bytes
value_of none = none
value_of (some md) = some md.value

-- The value that is read under a key.
abbrev pub read : Bytes → List Metadata → Option Bytes
read key mds = value_of (get_metadata key mds)

-- Neither the key nor the value fills its array.
abbrev pub HasNul : Metadata → Type 0
HasNul md = (length md.key ≤ 99) × (length md.value ≤ 255)

-- No two entries have the same key up to case.
abbrev pub OneEach : List Metadata → Type 0
OneEach [] = Unit
OneEach (md ∷ mds) = All (λ m. eq_nocase (key_text m) (key_text md) ≡ false) mds × OneEach mds

add_metadata-update :
    (key value : Bytes) (mds : List Metadata)
    → key ≢ []
    → add_metadata key value mds ≡ update_metadata key value mds
unfolding add_metadata
add_metadata-update [] value mds n = absurd (n refl)
add_metadata-update (k ∷ key) value mds n = refl

-- A key that has its NUL is read without the value.
key_text-same :
    (md : Metadata) (value : Bytes)
    → length (key_text md) ≤ 99
    → key_text (record md { value = value }) ≡ key_text md
key_text-same md value h = elim (Bool-cases (ltb (length md.key) 100)) [
  | inl ended ↦ rw ended refl
  | inr full ↦ absurd (ground (arith, full, length-append md.key md.value, h))
]

module _ (key : Bytes) (fits : length key ≤ 99) where
  short : ltb (length key) 100 ≡ true
  short = ground arith

  update_metadata-read :
      (value j : Bytes) (mds : List Metadata)
      → value ≢ []
      → read j (update_metadata key value mds)
        ≡ (if eq_nocase key j then some (cut_value value) else read j mds)
  unfolding update_metadata update_entry get_metadata
  update_metadata-read value j [] n = rw (take-eq_self 100 key (omega arith), short) (ground arith)
  update_metadata-read [] j (md ∷ mds) n = absurd (n refl)
  update_metadata-read (v ∷ value) j (md ∷ mds) n =
      elim (Bool-cases (eq_nocase (key_text md) key)) [
        | inl hit ↦
            rw
              (
                hit,
                key_text-same md (cut_value (v ∷ value))
                    (omega (arith, length-eq_nocase (key_text md) key hit)),
                eq_nocase-congruence (key_text md) key j hit,
              )
              (written (eq_nocase key j) mds)
        | inr miss ↦ rw miss (
            kept md j mds (eq_nocase (key_text md) j) (eq_nocase key j)
              (update_metadata key (v ∷ value) mds)
              (λ h k. cc (miss, eq_nocase_join (key_text md) key j h k))
              (update_metadata-read (v ∷ value) j mds n))
      ]
    where
      written :
          (b : Bool) (mds : List Metadata)
          → value_of
              (if b then some (record md { value = cut_value (v ∷ value) }) else get_metadata j mds)
            ≡ (if b
                then some (cut_value (v ∷ value))
                else value_of (if b then some md else get_metadata j mds))
      written true mds = refl
      written false mds = refl

      kept :
          (md : Metadata) (j : Bytes) (mds : List Metadata) (b c : Bool) (new : List Metadata)
          → (b ≡ true → c ≡ true → ⊥)
          → read j new ≡ (if c then some (cut_value (v ∷ value)) else read j mds)
          → value_of (if b then some md else get_metadata j new) ≡ (
              if c
              then some (cut_value (v ∷ value))
              else value_of (if b then some md else get_metadata j mds))
      kept md j mds true true new apart h = absurd (apart refl refl)
      kept md j mds true false new apart h = refl
      kept md j mds false true new apart h = h
      kept md j mds false false new apart h = h

  update_metadata-HasNul :
      (value : Bytes) (mds : List Metadata)
      → length value ≤ 255
      → All HasNul mds
      → All HasNul (update_metadata key value mds)
  unfolding update_metadata update_entry
  update_metadata-HasNul value [] ends h =
      rw (take-eq_self 100 key (omega arith), take-eq_self 256 value (omega arith))
        ((fits, ends), tt)
  update_metadata-HasNul [] (md ∷ mds) ends h = elim (Bool-cases (eq_nocase (key_text md) key)) [
    | inl hit ↦ rw hit h.1
    | inr miss ↦ rw miss (h.0, update_metadata-HasNul [] mds ends h.1)
  ]
  update_metadata-HasNul (v ∷ value) (md ∷ mds) ends h =
      elim (Bool-cases (eq_nocase (key_text md) key)) [
        | inl hit ↦ rw (hit, take-eq_self 255 value (omega arith)) ((h.0.0, ends), h.1)
        | inr miss ↦ rw miss (h.0, update_metadata-HasNul (v ∷ value) mds ends h.1)
      ]

  -- After a value of one to 255 bytes has been written under a key of one to 99 bytes, that key up to
  -- case reads the value, and every other key reads what it read before, in a list whose keys and
  -- values all have their NUL; this they have afterwards too.
  pub add_metadata-read :
      (value j : Bytes) (mds : List Metadata)
      → key ≢ []
      → value ≢ []
      → length value ≤ 255
      → All HasNul mds
      → (read j (add_metadata key value mds) ≡ (if eq_nocase key j then some value else read j mds))
        × All HasNul (add_metadata key value mds)
  add_metadata-read value j mds k n ends h = rw (add_metadata-update key value mds k) (
    update_metadata-read value j mds n
        ∙ ap (λ (t : Bytes). if eq_nocase key j then some t else read j mds)
            (take-eq_self 256 value (omega arith)),
    update_metadata-HasNul value mds ends h,
  )

get_metadata-none :
    (key k : Bytes) (mds : List Metadata)
    → eq_nocase k key ≡ true
    → All (λ m. eq_nocase (key_text m) k ≡ false) mds
    → get_metadata key mds ≡ none
unfolding get_metadata
get_metadata-none key k [] e h = refl
get_metadata-none key k (md ∷ mds) e h = elim (Bool-cases (eq_nocase (key_text md) key)) [
  | inl hit ↦ cc (h.0, eq_nocase_join (key_text md) k key hit e)
  | inr miss ↦ rw miss (get_metadata-none key k mds e h.1)
]

get_metadata-delete :
    (key : Bytes) (mds : List Metadata)
    → OneEach mds
    → get_metadata key mds ≢ none
    → get_metadata key (update_metadata key [] mds) ≡ none
unfolding get_metadata update_metadata update_entry
get_metadata-delete key [] one there = absurd (there refl)
get_metadata-delete key (md ∷ mds) one there = elim (Bool-cases (eq_nocase (key_text md) key)) [
  | inl hit ↦ rw hit (get_metadata-none key (key_text md) mds hit one.0)
  | inr miss ↦ rw (miss, miss) (get_metadata-delete key mds one.1 (rw miss at there))
]

-- Where no key has two entries, writing the empty value under a key that is not empty and has one
-- takes it out: the key reads nothing afterwards.
pub add_metadata-delete :
    (key : Bytes) (mds : List Metadata)
    → key ≢ []
    → OneEach mds
    → get_metadata key mds ≢ none
    → get_metadata key (add_metadata key [] mds) ≡ none
add_metadata-delete key mds k one there =
    rw (add_metadata-update key [] mds k) (get_metadata-delete key mds one there)
