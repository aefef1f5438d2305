-- ===== src/Metadata.antt =====
-- src/metadata.c: the key-value list of a user or a channel. `add_metadata_user` and
-- `add_metadata_channel` run the same code on the two lists.
pub mod Lookup
use omega_services.Prelude.{
  Bool, true, false, Option, none, some, List, [], ◌∷◌, ◌++◌, Bytes, length, ltb, take, eq_nocase,
  if◌then◌else◌,
}

pub record Metadata : Type 0 where
  pub key : Bytes
  pub value : Bytes

-- `strncpy` into `key[100]` and `value[256]`; a text that fills its array has no NUL of its own.
abbrev pub cut_key : Bytes → Bytes
cut_key = take 100

abbrev pub cut_value : Bytes → Bytes
cut_value = take 256

-- The key as `strcasecmp` reads it: `value` stands behind it in the `struct`, and is read on into where
-- the key has no NUL. What stands behind a value without a NUL is not in the model.
abbrev pub key_text : Metadata → Bytes
key_text md = if ltb (length md.key) 100 then md.key else md.key ++ md.value

unfoldable pub get_metadata : Bytes → List Metadata → Option Metadata
get_metadata key [] = none
get_metadata key (md ∷ mds) = if eq_nocase (key_text md) key then some md else get_metadata key mds

-- What happens at the entry that was found: an empty value deletes it.
unfoldable pub update_entry : Bytes → Metadata → List Metadata → List Metadata
update_entry [] md mds = mds
update_entry (v ∷ value) md mds = record md { value = cut_value (v ∷ value) } ∷ mds

unfoldable pub update_metadata : Bytes → Bytes → List Metadata → List Metadata
unfolding update_entry
update_metadata key value [] = record { key = cut_key key; value = cut_value value } ∷ []
update_metadata key value (md ∷ mds) =
    if eq_nocase (key_text md) key
    then update_entry value md mds
    else md ∷ update_metadata key value mds

-- `if (!*key) return 0;`; what the function returns, 1 for a deletion, is not modelled.
unfoldable pub add_metadata : Bytes → Bytes → List Metadata → List Metadata
unfolding update_metadata
add_metadata [] value mds = mds
add_metadata (k ∷ key) value mds = update_metadata (k ∷ key) value mds
