-- ===== src/Database.antt =====
-- src/dbmanager.c: the database in memory, rows of entries under a row name and a key. The database is
-- there; what its module reads and writes in files, and the calls of its functions, are left out, and
-- so is a malloc that fails.
pub mod Entries
pub mod Rows
use omega_services.Prelude.{
  ℕ, suc, ◌+◌, Bool, true, false, Option, none, some, List, [], ◌∷◌, ◌++◌, Bytes, take, eq_nocase,
  if◌then◌else◌,
}
use mathlib.Core.Option
use omega_services.Access.{fit}

-- `DBEntry`; its row name, type and time are written only, or never.
pub record DbEntry : Type 0 where
  pub r_name : Bytes
  pub key : Bytes
  pub value : Bytes

-- `DBContainer`
pub record DbContainer : Type 0 where
  pub r_name : Bytes
  pub entry_count : ℕ
  pub entries : List DbEntry

-- The list `entries` of `DBInfo`.
abbrev pub Db : Type 0
Db = List DbContainer

-- `getfrom_db_rows`, and `get_db_rows` on the main database.
unfoldable pub getfrom_db_rows : Bytes → Db → Option DbContainer
getfrom_db_rows rname [] = none
getfrom_db_rows rname (dc ∷ dcs) =
    if eq_nocase dc.r_name rname then some dc else getfrom_db_rows rname dcs

-- The inner loop of `getfrom_db_entry`.
unfoldable pub find_entry : Bytes → List DbEntry → Option DbEntry
find_entry key [] = none
find_entry key (de ∷ des) = if eq_nocase key de.key then some de else find_entry key des

abbrev pub or_else {ℓ} : {A : Type ℓ} → Option A → Option A → Option A
or_else none b = b
or_else (some a) b = some a

-- `getfrom_db_entry`, and `get_db_entry` on the main database: every row of that name is searched.
unfoldable pub getfrom_db_entry : Bytes → Bytes → Db → Option DbEntry
unfolding find_entry
getfrom_db_entry rname key [] = none
getfrom_db_entry rname key (dc ∷ dcs) =
    let rest = getfrom_db_entry rname key dcs in
    if eq_nocase dc.r_name rname then or_else (find_entry key dc.entries) rest else rest

-- The write of a value into the entry that `find_entry` finds; `none` if it finds none.
unfoldable pub set_entry : Bytes → Bytes → List DbEntry → Option (List DbEntry)
set_entry key value [] = none
set_entry key value (de ∷ des) =
    let rest = Option.map (λ (l : List DbEntry). de ∷ l) (set_entry key value des) in
    if eq_nocase key de.key then some (record de { value = value } ∷ des) else rest

abbrev pub put_row : DbContainer → Option (List DbEntry) → Db → Option Db → Option Db
put_row dc none dcs rest = Option.map (λ (l : Db). dc ∷ l) rest
put_row dc (some des) dcs rest = some (record dc { entries = des } ∷ dcs)

-- The write of a value into the entry that `getfrom_db_entry` finds.
unfoldable pub set_value : Bytes → Bytes → Bytes → Db → Option Db
unfolding set_entry
set_value rname key value [] = none
set_value rname key value (dc ∷ dcs) =
    let rest = set_value rname key value dcs in
    put_row dc (if eq_nocase dc.r_name rname then set_entry key value dc.entries else none) dcs rest

-- `create_dbcontainer`. The copy writes no NUL behind a name of 32 bytes, and what a comparison then
-- reads behind it is left out.
unfoldable pub create_dbcontainer : Bytes → DbContainer
create_dbcontainer rname = record { r_name = take 32 rname; entry_count = 0; entries = [] }

abbrev pub append_entry : DbEntry → DbContainer → DbContainer
append_entry de dc = record dc { entry_count = dc.entry_count + 1; entries = dc.entries ++ de ∷ [] }

-- The first row of that name gets the entry, or else a new row at the end.
unfoldable pub insert_entry : Bytes → DbEntry → Db → Db
unfolding create_dbcontainer
insert_entry rname de [] = append_entry de (create_dbcontainer rname) ∷ []
insert_entry rname de (dc ∷ dcs) =
    if eq_nocase dc.r_name rname then append_entry de dc ∷ dcs else dc ∷ insert_entry rname de dcs

abbrev pub new_entry : Bytes → Bytes → Bytes → DbEntry
new_entry rname key value = record { r_name = fit 32 rname; key = fit 100 key; value = value }

abbrev pub or_insert : Option Db → Db → ℕ × Db
or_insert none inserted = (1, inserted)
or_insert (some changed) inserted = (2, changed)

-- `addto_db_entry`, with `text` what `vsnprintf` makes of the format and its arguments.
unfoldable pub addto_db_entry : Bytes → Bytes → (text : Bytes) → Db → ℕ × Db
unfolding set_value insert_entry
addto_db_entry rname key text db =
    let value = fit 1025 text in
    or_insert (set_value rname key value db) (insert_entry rname (new_entry rname key value) db)

-- `add_db_entry`: the text is passed on as a format, of which `format` makes the value.
unfoldable pub add_db_entry :
    (format : Bytes → Bytes) → Bytes → Bytes → (text : Bytes) → Db → ℕ × Db
unfolding addto_db_entry
add_db_entry format rname key text db = addto_db_entry rname key (format (fit 512 text)) db

unfoldable pub drop_entry : Bytes → List DbEntry → List DbEntry
drop_entry key [] = []
drop_entry key (de ∷ des) = if eq_nocase de.key key then des else de ∷ drop_entry key des

-- `del_db_entry`: the first row of that name loses the first entry with that key; `entry_count` stays.
unfoldable pub del_db_entry : Bytes → Bytes → Db → ℕ × Db
unfolding drop_entry
del_db_entry rname key [] = (0, [])
del_db_entry rname key (dc ∷ dcs) =
    let (rc, rest) = del_db_entry rname key dcs in
    if eq_nocase dc.r_name rname
    then (1, record dc { entries = drop_entry key dc.entries } ∷ dcs)
    else (rc, dc ∷ rest)
