-- ===== src/Samples/Database.antt =====
-- The database in memory.
use omega_services.Prelude.{◌≡◌, refl, some, none, [], codes, eq_nocase, arith}
use omega_services.Database.{
  Db, addto_db_entry, del_db_entry, add_db_entry, getfrom_db_rows, getfrom_db_entry,
}
use omega_services.Database.Rows.{read, addto_db_entry-read}

abbrev accounts : Db
accounts = (addto_db_entry (codes "AC") (codes "Guest") (codes "u") []).1

rows : getfrom_db_rows (codes "AC") [] ≡ none
unfolding getfrom_db_rows
rows = refl

deleted :
    read (codes "ac") (codes "guest") (del_db_entry (codes "AC") (codes "Guest") accounts).1 ≡ none
unfolding addto_db_entry del_db_entry eq_nocase getfrom_db_entry
deleted = refl

-- The value of `add_db_entry` is a format.
formatted :
    (add_db_entry (λ text. codes "x") (codes "AC") (codes "Guest") (codes "%c") []).1
    ≡ (addto_db_entry (codes "AC") (codes "Guest") (codes "x") []).1
unfolding add_db_entry
formatted = refl

addto_db_entry-read_example :
    read
      (codes "ac")
      (codes "guest")
      (addto_db_entry (codes "AC") (codes "Guest") (codes "amls") accounts).1
    ≡ some (codes "amls")
unfolding eq_nocase
addto_db_entry-read_example =
    addto_db_entry-read (codes "AC") (codes "Guest") (codes "amls") (codes "ac") (codes "guest")
      accounts (omega arith) (omega arith)
