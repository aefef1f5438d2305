-- ===== src/Database/Rows.antt =====
-- What the database reads after a write, an insertion and a deletion.
use omega_services.Prelude.{
  ◌<◌, ◌≡◌, refl, sym, ap, ◌∙◌, Bool, true, false, ◌&&◌, Option, none, some, List, [], ◌∷◌, ◌++◌,
  Bytes, length, take-eq_self, eq_nocase, eq_nocase-congruence, eq_nocase_join, eq_nocase_comm,
  if◌then◌else◌, arith, Bool-cases, inl, inr,
}
use mathlib.Core.Option
use mathlib.Core.Path.{subst}
use omega_services.Access.{fit}
use omega_services.Database.{
  DbEntry, DbContainer, Db, find_entry, set_entry, or_else, getfrom_db_entry, put_row, set_value,
  insert_entry, append_entry, new_entry, or_insert, addto_db_entry, create_dbcontainer,
}
use omega_services.Database.Entries.{
  value_of, find_entry-congruence, find_entry-append, set_entry-none, Written, set_entry-Written,
}

abbrev pub read : Bytes → Bytes → Db → Option Bytes
read rname key db = value_of (getfrom_db_entry rname key db)

both : (a b : Bool) → (a && b) ≡ true → (a ≡ true) × (b ≡ true)
both a b h = ground arith

or_else-none : (a : Option Bytes) → or_else a none ≡ a
or_else-none none = refl
or_else-none (some x) = refl

mine_none : (a : Option DbEntry) (rest : Option Bytes) → or_else (value_of a) rest ≡ none → a ≡ none
mine_none none rest h = refl
mine_none (some de) rest h = cc

value_of-or_else :
    (a b : Option DbEntry) → value_of (or_else a b) ≡ or_else (value_of a) (value_of b)
value_of-or_else none b = refl
value_of-or_else (some de) b = refl

-- What a row reads for `rname`, and the rows behind it.
abbrev row : Bool → Option Bytes → Option Bytes → Option Bytes
row here mine rest = if here then or_else mine rest else rest

read-row :
    (rname key : Bytes) (dc : DbContainer) (dcs : Db)
    → read rname key (dc ∷ dcs)
      ≡ row (eq_nocase dc.r_name rname) (value_of (find_entry key dc.entries)) (read rname key dcs)
unfolding getfrom_db_entry
read-row rname key dc dcs = at (eq_nocase dc.r_name rname)
  where
    at :
        (b : Bool)
        → value_of (
            if b
            then or_else (find_entry key dc.entries) (getfrom_db_entry rname key dcs)
            else getfrom_db_entry rname key dcs)
          ≡ row b (value_of (find_entry key dc.entries)) (read rname key dcs)
    at true = value_of-or_else (find_entry key dc.entries) (getfrom_db_entry rname key dcs)
    at false = refl

module _ (rname key value rname' j : Bytes) where
  abbrev asked : Bool
  asked = eq_nocase rname rname' && eq_nocase key j

  -- The reading of one row name and key after a write.
  abbrev Changed : Db → Db → Type 0
  Changed db db' = read rname' j db' ≡ (if asked then some value else read rname' j db)

  abbrev ChangedIf : Db → Option Db → Type 0
  ChangedIf db none = Unit
  ChangedIf db (some db') = Changed db db'

  -- A row that has not been written is passed over, if it has no such entry.
  passed :
      (here hit : Bool) (mine rest rest' : Option Bytes)
      → (here ≡ true → hit ≡ true → mine ≡ none)
      → rest' ≡ (if hit then some value else rest)
      → row here mine rest' ≡ (if hit then some value else row here mine rest)
  passed false hit mine rest rest' skip h = h
  passed true true mine rest rest' skip h = rw (skip refl refl, h) refl
  passed true false mine rest rest' skip h = rw h refl

  Changed-behind :
      (dc : DbContainer) (db db' : Db)
      → (eq_nocase dc.r_name rname' ≡ true
          → asked ≡ true
          → value_of (find_entry j dc.entries) ≡ none)
      → Changed db db'
      → Changed (dc ∷ db) (dc ∷ db')
  Changed-behind dc db db' skip h =
      rw (read-row rname' j dc db, read-row rname' j dc db')
        (passed (eq_nocase dc.r_name rname') asked _ _ _ skip h)

  row-none : (b : Bool) → row b none none ≡ none
  row-none true = refl
  row-none false = refl

  -- A row of that name is written.
  written :
      (named keyed : Bool) (mine mine' rest : Option Bytes)
      → mine' ≡ (if keyed then some value else mine)
      → row named mine' rest ≡ (if named && keyed then some value else row named mine rest)
  written false keyed mine mine' rest h = refl
  written true true mine mine' rest h = rw h refl
  written true false mine mine' rest h = rw h refl

  Changed-row :
      (dc dc' : DbContainer) (db : Db)
      → dc'.r_name ≡ dc.r_name
      → eq_nocase dc.r_name rname ≡ true
      → value_of (find_entry j dc'.entries)
        ≡ (if eq_nocase key j then some value else value_of (find_entry j dc.entries))
      → Changed (dc ∷ db) (dc' ∷ db)
  Changed-row dc dc' db same named h =
      rw
        (
          read-row rname' j dc db,
          read-row rname' j dc' db,
          same,
          eq_nocase-congruence dc.r_name rname rname' named,
        )
        (written (eq_nocase rname rname') (eq_nocase key j) _ _ _ h)

  -- The row has another name, or has no entry of that key.
  skipped :
      (dc : DbContainer)
      → (eq_nocase dc.r_name rname ≡ true → find_entry key dc.entries ≡ none)
      → eq_nocase dc.r_name rname' ≡ true
      → asked ≡ true
      → value_of (find_entry j dc.entries) ≡ none
  skipped dc empty here hit =
      let (named, keyed) = both (eq_nocase rname rname') (eq_nocase key j) hit in
      ap value_of (
        sym (find_entry-congruence key j dc.entries keyed)
        ∙ empty (eq_nocase_join dc.r_name rname rname' here named))

  ChangedIf-behind :
      (dc : DbContainer) (db : Db) (r : Option Db)
      → (eq_nocase dc.r_name rname ≡ true → find_entry key dc.entries ≡ none)
      → ChangedIf db r
      → ChangedIf (dc ∷ db) (Option.map (λ (l : Db). dc ∷ l) r)
  ChangedIf-behind dc db none empty h = tt
  ChangedIf-behind dc db (some l) empty h = Changed-behind dc db l (skipped dc empty) h

  set_value-Changed : (db : Db) → ChangedIf db (set_value rname key value db)
  unfolding set_value
  set_value-Changed [] = tt
  set_value-Changed (dc ∷ db) = elim (Bool-cases (eq_nocase dc.r_name rname)) [
    | inl named ↦
        rw named (in_row (set_value-Changed db) named (set_entry key value dc.entries) refl)
    | inr other ↦ rw other (
        ChangedIf-behind dc db (set_value rname key value db) (λ named. cc (other, named))
          (set_value-Changed db))
  ]
    where
      in_row :
          ChangedIf db (set_value rname key value db)
          → eq_nocase dc.r_name rname ≡ true
          → (r : Option (List DbEntry)) → set_entry key value dc.entries ≡ r
          → ChangedIf (dc ∷ db) (put_row dc r db (set_value rname key value db))
      in_row ih named none e =
          ChangedIf-behind dc db (set_value rname key value db)
            (λ n. set_entry-none key value dc.entries e) ih
      in_row ih named (some des) e =
          Changed-row dc (record dc { entries = des }) db refl named
            (subst (Written key value j dc.entries) e (set_entry-Written key value j dc.entries))

  set_value-none : (db : Db) → set_value rname key value db ≡ none → read rname key db ≡ none
  unfolding set_value getfrom_db_entry
  set_value-none [] h = refl
  set_value-none (dc ∷ db) h = elim (Bool-cases (eq_nocase dc.r_name rname)) [
    | inl named ↦
        rw (read-row rname key dc db, named)
          (in_row (λ e. set_value-none db e) (set_entry key value dc.entries) refl (rw named at h))
    | inr other ↦
        rw (read-row rname key dc db, other)
          (set_value-none db (no_cons (set_value rname key value db) (rw other at h)))
  ]
    where
      no_cons : (r : Option Db) → Option.map (λ (l : Db). dc ∷ l) r ≡ none → r ≡ none
      no_cons none e = refl
      no_cons (some l) e = cc

      in_row :
          (set_value rname key value db ≡ none → read rname key db ≡ none)
          → (r : Option (List DbEntry)) → set_entry key value dc.entries ≡ r
          → put_row dc r db (set_value rname key value db) ≡ none
          → row true (value_of (find_entry key dc.entries)) (read rname key db) ≡ none
      in_row ih none e h =
          rw (set_entry-none key value dc.entries e) (ih (no_cons (set_value rname key value db) h))
      in_row ih (some des) e h = cc

  -- Where the database has no such entry, an entry with that key and value is put in.
  module _ (de : DbEntry) (same_key : de.key ≡ key) (same_value : de.value ≡ value) where
    appended :
        (des : List DbEntry)
        → find_entry key des ≡ none
        → value_of (find_entry j (des ++ de ∷ []))
          ≡ (if eq_nocase key j then some value else value_of (find_entry j des))
    appended des empty =
        rw
          (
            find_entry-append j des de,
            value_of-or_else (find_entry j des) (if eq_nocase j de.key then some de else none),
            same_key,
            eq_nocase_comm j key,
          )
          (elim (Bool-cases (eq_nocase key j)) [
            | inl e ↦ rw (e, sym (find_entry-congruence key j des e), empty, same_value) refl
            | inr e ↦ rw e (or_else-none (value_of (find_entry j des)))
          ])

    insert_entry-Changed :
        (db : Db)
        → length rname < 32
        → read rname key db ≡ none
        → Changed db (insert_entry rname de db)
    unfolding insert_entry getfrom_db_entry find_entry
    insert_entry-Changed [] short none_yet =
        rw (read-row rname' j (append_entry de (create_dbcontainer rname)) []) (
          unfold create_dbcontainer in
          rw (take-eq_self 32 rname (omega arith)) (
            written (eq_nocase rname rname') (eq_nocase key j) none _ none (appended [] refl)
            ∙ ap (λ (o : Option Bytes). if asked then some value else o)
                (row-none (eq_nocase rname rname'))))
    insert_entry-Changed (dc ∷ db) short none_yet = elim (Bool-cases (eq_nocase dc.r_name rname)) [
      | inl named ↦ rw named (
          Changed-row dc (append_entry de dc) db refl named (appended dc.entries (row_empty named)))
      | inr other ↦ rw other (
          Changed-behind dc db (insert_entry rname de db)
            (λ here hit. cc (
              other,
              eq_nocase_join dc.r_name rname rname' here (both (eq_nocase rname rname') _ hit).0,
            ))
            (insert_entry-Changed db short (rw (read-row rname key dc db, other) at none_yet)))
    ]
      where
        row_empty : eq_nocase dc.r_name rname ≡ true → find_entry key dc.entries ≡ none
        row_empty named =
            mine_none (find_entry key dc.entries) (read rname key db)
              (rw (read-row rname key dc db, named) at none_yet)

-- After `addto_db_entry` of a row name and a key that fit their arrays, that row and key, up to case,
-- read the first 1024 bytes of the value, and every other row and key read what they read before.
pub addto_db_entry-read :
    (rname key text rname' j : Bytes) (db : Db)
    → length rname < 32
    → length key < 100
    → read rname' j (addto_db_entry rname key text db).1 ≡ (
        if eq_nocase rname rname' && eq_nocase key j
        then some (fit 1025 text)
        else read rname' j db)
unfolding addto_db_entry
addto_db_entry-read rname key text rname' j db short fits =
    either (set_value rname key (fit 1025 text) db) refl
  where
    either :
        (r : Option Db)
        → set_value rname key (fit 1025 text) db ≡ r
        → Changed rname key
            (fit 1025 text)
            rname'
            j
            db
            (or_insert r (insert_entry rname (new_entry rname key (fit 1025 text)) db)).1
    either none e =
        insert_entry-Changed rname key (fit 1025 text) rname' j
          (new_entry rname key (fit 1025 text)) (take-eq_self 99 key (omega arith)) refl db short
          (set_value-none rname key (fit 1025 text) rname' j db e)
    either (some l) e =
        subst (ChangedIf rname key (fit 1025 text) rname' j db) e
          (set_value-Changed rname key (fit 1025 text) rname' j db)
