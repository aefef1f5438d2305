-- ===== src/Access.antt =====
-- src/access.c: the access list, the table of named flags, and the access that a user is given.
-- Texts are lists of bytes; the sizes of the C arrays are written out where the code bounds a copy.
-- Messages to the log are left out.
pub mod Flags
pub mod Grants
use omega_services.Prelude.{
  ℕ, zero, suc, ◌+◌, ◌-◌, ◌<◌, Bool, true, false, ◌&&◌, ◌||◌, not, Option, none, some, List, [],
  ◌∷◌, ◌++◌, Bytes, codes, take, length, ltb, ◌==◌, eq_nocase, has_char, ℤ, pos, negsuc,
  if◌then◌else◌,
}
use omega_services.Match.Wild.{match_wild}
use omega_services.Metadata.{Metadata, add_metadata}

-- `struct access_`; `cname` is never set.
pub record Access : Type 0 where
  pub name : Bytes
  pub flags : Bytes
  pub hosts : List Bytes
  pub non_config : Bool

pub record AccessFlag : Type 0 where
  pub name : Bytes
  pub flag : Bytes

-- The fields of `struct USER` that access control reads and writes.
pub record Account : Type 0 where
  pub nick : Bytes
  pub user : Bytes
  pub host : Bytes
  pub ip : Bytes
  pub oper : Bool
  pub service : Bool
  pub access : Bytes
  pub metadata : List Metadata

-- `find_access_flag`: by name, ignoring case.
unfoldable pub find_access_flag : Bytes → List AccessFlag → Option AccessFlag
find_access_flag name [] = none
find_access_flag name (af ∷ afs) =
    if eq_nocase name af.name then some af else find_access_flag name afs

-- `strlcpy` into an array of `n` bytes
abbrev pub fit : ℕ → Bytes → Bytes
fit n s = take (n - 1) s

-- `add_access_flag`: refused with -1 (false) if the name or the flag is the name of an entry.
unfoldable pub add_access_flag : Bytes → Bytes → List AccessFlag → Bool × List AccessFlag
unfolding find_access_flag
add_access_flag name flag afs = elim (find_access_flag name afs) [
  | some af ↦ (false, afs)
  | none ↦ elim (find_access_flag flag afs) [
    | some af ↦ (false, afs)
    | none ↦ (true, afs ++ record { name = fit 50 name; flag = fit 50 flag } ∷ [])
  ]
]

-- The loop of `set_access_flag`. `ptr` stands behind what is written and the array was zeroed, so
-- the test looks for the byte in the empty text and never finds it.
unfoldable pub copy_flags : Bytes → Bytes → Bytes
unfolding has_char
copy_flags written [] = written
copy_flags written (f ∷ fs) =
    copy_flags (if not (has_char [] f) then written ++ f ∷ [] else written) fs

-- `set_access_flag`: the flags of a named entry, or the text itself.
unfoldable pub set_access_flag : List AccessFlag → Access → Bytes → Access
unfolding copy_flags find_access_flag
set_access_flag afs a flags = record a {
  flags = copy_flags [] (elim (find_access_flag flags afs) [ some af ↦ af.flag | none ↦ flags ]);
}

-- `check_access` for a user that is there: no level is asked, or its first byte is a flag. `strchr`
-- finds the NUL of an empty level.
unfoldable pub check_access : Account → Option Bytes → Bool
unfolding has_char
check_access u none = true
check_access u (some []) = true
check_access u (some (c ∷ level)) = has_char u.access c

-- `user@host`, `user@ip` and `nick!user@host`, cut to their arrays
abbrev host_pattern : Account → Bytes
host_pattern u = fit 150 (u.user ++ b'@' ∷ u.host)

abbrev ip_pattern : Account → Bytes
ip_pattern u = fit 150 (u.user ++ b'@' ∷ u.ip)

abbrev nick_pattern : Account → Bytes → Bytes
nick_pattern u p = fit 250 (u.nick ++ b'!' ∷ p)

abbrev either_way : Bytes → Bytes → Bool
either_way host p = match_wild host p false || match_wild p host false

-- One round of the inner loop of `find_access`.
unfoldable pub host_matches : Account → Bytes → Bool
host_matches u host =
    if has_char host b'!'
    then either_way host (nick_pattern u (host_pattern u))
      || either_way host (nick_pattern u (ip_pattern u))
    else match_wild host (host_pattern u) false || match_wild host (ip_pattern u) false

unfoldable pub any_host : Account → List Bytes → Bool
unfolding host_matches
any_host u [] = false
any_host u (host ∷ hosts) = if host_matches u host then true else any_host u hosts

unfoldable pub first_match : Account → List Access → Option Access
unfolding any_host
first_match u [] = none
first_match u (a ∷ as') = if any_host u a.hosts then some a else first_match u as'

-- `find_access`: nothing for a user who has more than four flags already.
unfoldable pub find_access : List Access → Account → Option Access
unfolding first_match
find_access accesslist u = if ltb 4 (length u.access) then none else first_match u accesslist

-- `strncat (dst, src, n)` without the bound of the array
abbrev append_n : Bytes → Bytes → ℕ → Bytes
append_n dst src n = dst ++ take n src

abbrev pub acc_flag_user : Bytes
acc_flag_user = codes "u"

abbrev pub acc_flag_oper : Bytes
acc_flag_oper = codes "o"

-- The branches of `setAccess` behind a match. `operonly` is `CfgSettings.operonly`; a user who is
-- no operator has left before if it is set, and "o" is not yet in the access at this point.
unfoldable pub grant : Bool → Access → Account → Account × Bool
grant operonly a u = if not u.oper && operonly then (u, false) else (
  let with_oper = append_n u.access acc_flag_oper (128 - length u.access) in
      record u {
        access = append_n with_oper a.flags (128 - length with_oper);
        metadata = add_metadata (codes "using-access") a.name u.metadata;
      },
  true,
)

-- `memset`, and `strncat` of "u", which is not in the access after that
abbrev pub reset : Account → Account
reset u = record u { access = acc_flag_user }

abbrev pub grant_found : Bool → Option Access → Account → Account × Bool
grant_found operonly none u = (u, false)
grant_found operonly (some a) u = grant operonly a u

-- `setAccess`; a network service is left alone.
unfoldable pub set_access : Bool → List Access → Account → Account × Bool
unfolding find_access grant
set_access operonly accesslist u =
    if u.service
    then (u, false)
    else grant_found operonly (find_access accesslist (reset u)) (reset u)

-- One round of `refresh_access`: services, and in `operonly` mode all who are no operators, are
-- passed over.
unfoldable pub refresh_one : Bool → List Access → Account → Account
unfolding set_access
refresh_one operonly accesslist u =
    if (not u.oper && operonly) || u.service then u else (set_access operonly accesslist u).0

unfoldable pub refresh_access : Bool → List Access → List Account → List Account
unfolding refresh_one
refresh_access operonly accesslist [] = []
refresh_access operonly accesslist (u ∷ us) =
    refresh_one operonly accesslist u ∷ refresh_access operonly accesslist us

-- `access_exists`
unfoldable pub access_exists : Bytes → List Access → Option Access
access_exists name [] = none
access_exists name (a ∷ as') = if eq_nocase a.name name then some a else access_exists name as'

-- `DestAccList`: with `running` the entries that did not come from the configuration stay.
unfoldable pub dest_acc_list : Bool → List Access → List Access
dest_acc_list running [] = []
dest_acc_list running (a ∷ as') =
    let rest = dest_acc_list running as' in if a.non_config && running then a ∷ rest else rest

-- `del_access` of a name that is not empty: the first entry of that name goes.
unfoldable pub remove_access : Bytes → List Access → List Access
remove_access name [] = []
remove_access name (a ∷ as') = if eq_nocase a.name name then as' else a ∷ remove_access name as'

-- The result is -1, 0 or 1.
unfoldable pub del_access : Bytes → List Access → ℤ × List Access
unfolding access_exists remove_access
del_access [] accesslist = (negsuc 0, accesslist)
del_access (c ∷ name) accesslist = elim (access_exists (c ∷ name) accesslist) [
  | none ↦ (pos 0, accesslist)
  | some a ↦ (pos 1, remove_access (c ∷ name) accesslist)
]
