-- ===== src/Database/Entries.antt =====
-- The entries of one row.
use omega_services.Prelude.{
  ◌≡◌, refl, sym, Bool, true, false, Option, none, some, List, [], ◌∷◌, ◌++◌, Bytes, eq_nocase,
  eq_nocase-congruence, eq_nocase_comm, if◌then◌else◌, arith, Bool-cases, inl, inr,
}
use mathlib.Core.Option
use omega_services.Database.{DbEntry, find_entry, set_entry, or_else}

abbrev pub value_of : Option DbEntry → Option Bytes
value_of none = none
value_of (some de) = some de.value

pub find_entry-congruence :
    (key j : Bytes) (des : List DbEntry)
    → eq_nocase key j ≡ true
    → find_entry key des ≡ find_entry j des
unfolding find_entry
find_entry-congruence key j [] e = refl
find_entry-congruence key j (de ∷ des) e =
    rw (eq_nocase-congruence key j de.key e, find_entry-congruence key j des e)

pub set_entry-none :
    (key value : Bytes) (des : List DbEntry)
    → set_entry key value des ≡ none
    → find_entry key des ≡ none
unfolding set_entry find_entry
set_entry-none key value [] h = refl
set_entry-none key value (de ∷ des) h = ground (arith, set_entry-none key value des)

-- What the entries read after a write.
abbrev pub Written : Bytes → Bytes → Bytes → List DbEntry → Option (List DbEntry) → Type 0
Written key value j des none = Unit
Written key value j des (some des') =
    value_of (find_entry j des')
    ≡ (if eq_nocase key j then some value else value_of (find_entry j des))

set_entry-behind :
    (key value j : Bytes) (de : DbEntry) (des : List DbEntry) (r : Option (List DbEntry))
    → eq_nocase key de.key ≡ false
    → Written key value j des r
    → Written key value j (de ∷ des) (Option.map (λ l. de ∷ l) r)
unfolding find_entry
set_entry-behind key value j de des none miss h = tt
set_entry-behind key value j de des (some l) miss h = elim (Bool-cases (eq_nocase j de.key)) [
  | inl here ↦
      let apart : eq_nocase key j ≡ false = other (eq_nocase key j) refl here in
      rw (here, apart) refl
  | inr there ↦ rw there h
]
  where
    other : (b : Bool) → b ≡ eq_nocase key j → eq_nocase j de.key ≡ true → eq_nocase key j ≡ false
    other true e here = cc (miss, eq_nocase-congruence key j de.key (sym e), here)
    other false e here = sym e

pub set_entry-Written :
    (key value j : Bytes) (des : List DbEntry) → Written key value j des (set_entry key value des)
unfolding set_entry
set_entry-Written key value j [] = tt
set_entry-Written key value j (de ∷ des) = elim (Bool-cases (eq_nocase key de.key)) [
  | inl hit ↦
      rw (hit, eq_nocase-congruence key de.key j hit, eq_nocase_comm de.key j)
        (unfold find_entry in written (eq_nocase j de.key))
  | inr miss ↦ rw miss (
      set_entry-behind key value j de des (set_entry key value des) miss
        (set_entry-Written key value j des))
]
  where
    written :
        (b : Bool)
        → value_of (if b then some (record de { value = value }) else find_entry j des)
          ≡ (if b then some value else value_of (if b then some de else find_entry j des))
    written true = refl
    written false = refl

pub find_entry-append :
    (j : Bytes) (des : List DbEntry) (de : DbEntry)
    → find_entry j (des ++ de ∷ [])
      ≡ or_else (find_entry j des) (if eq_nocase j de.key then some de else none)
unfolding find_entry
find_entry-append j [] de = refl
find_entry-append j (d ∷ des) de = rw (find_entry-append j des de) (ground arith)
