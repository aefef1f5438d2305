-- ===== src/Access/Flags.antt =====
-- What `set_access_flag` stores.
use omega_services.Prelude.{
  ◌≡◌, sym, append-nil, ◌∙◌, none, some, List, [], ◌∷◌, ◌++◌, Bytes, append_assoc,
}
use omega_services.Access.{Access, AccessFlag, find_access_flag, copy_flags, set_access_flag}

copy_flags-append : (written fs : Bytes) → copy_flags written fs ≡ written ++ fs
unfolding copy_flags
copy_flags-append written [] = sym (append-nil written)
copy_flags-append written (f ∷ fs) =
    copy_flags-append (written ++ f ∷ []) fs ∙ append_assoc written (f ∷ []) fs

-- `set_access_flag` stores every byte of the flags of a named entry, or of the text itself if no
-- entry has that name, in order: a flag that comes twice is stored twice.
pub set_access_flag-all :
    (afs : List AccessFlag) (a : Access) (flags : Bytes)
    → (set_access_flag afs a flags).flags
      ≡ elim (find_access_flag flags afs) [ some af ↦ af.flag | none ↦ flags ]
unfolding set_access_flag
set_access_flag-all afs a flags = copy_flags-append [] _
