-- ===== src/Access/Grants.antt =====
-- Who gets which access from `setAccess`, and what `check_access` then lets through.
use omega_services.Prelude.{
  ℕ, ◌≡◌, refl, ap, ◌∙◌, Bool, true, false, ◌||◌, ◌⊎◌, inl, inr, not, Option, none, some, List, [],
  ◌∷◌, ◌++◌, Bytes, has_char, if◌then◌else◌, arith, ◌==◌, take,
}
use omega_services.Access.{
  Access, Account, check_access, host_matches, any_host, first_match, find_access, grant, reset,
  grant_found, set_access, acc_flag_user, acc_flag_oper,
}

-- The masks are compared with the user's names only.
any_host-reset : (u : Account) (hosts : List Bytes) → any_host (reset u) hosts ≡ any_host u hosts
unfolding any_host
any_host-reset u [] = refl
any_host-reset u (host ∷ hosts) =
    unfold host_matches in
    ap (λ (b : Bool). if host_matches u host then true else b) (any_host-reset u hosts)

first_match-reset :
    (u : Account) (as' : List Access) → first_match (reset u) as' ≡ first_match u as'
unfolding first_match
first_match-reset u [] = refl
first_match-reset u (a ∷ as') = rw (any_host-reset u a.hosts, first_match-reset u as')

-- An operator, or anybody while `operonly` is off.
abbrev pub may_hold : Bool → Account → Bool
may_hold operonly u = u.oper || not operonly

-- The flags that `setAccess` gives to a user who is no service: "u", and for the first entry of the
-- access list with a mask that fits the user, "o" and that entry's flags as far as they fit, if the
-- user may hold access.
abbrev pub granted : Bool → Option Access → Account → Bytes
granted operonly none u = acc_flag_user
granted operonly (some a) u =
    if may_hold operonly u
    then acc_flag_user ++ acc_flag_oper ++ take 126 a.flags
    else acc_flag_user

if_false : (b : Bool) (x y : Account × Bool) → b ≡ false → (if b then x else y) ≡ y
if_false true x y h = cc
if_false false x y h = refl

grant_found-granted :
    (operonly : Bool) (found : Option Access) (u : Account)
    → (grant_found operonly found (reset u)).0.access ≡ granted operonly found u
unfolding grant
grant_found-granted operonly none u = refl
grant_found-granted operonly (some a) u = ground arith

-- `setAccess` gives a user who is no service exactly the granted flags, whatever the user had.
pub set_access-granted :
    (operonly : Bool) (accesslist : List Access) (u : Account)
    → u.service ≡ false
    → (set_access operonly accesslist u).0.access ≡ granted operonly (first_match u accesslist) u
unfolding set_access find_access grant
set_access-granted operonly accesslist u h =
    ap (λ (r : Account × Bool). r.0.access) (if_false u.service (u, false) _ h)
    ∙ ap (λ (o : Option Access). (grant_found operonly o (reset u)).0.access)
        (first_match-reset u accesslist)
    ∙ grant_found-granted operonly (first_match u accesslist) u

-- A user who is no service and may not hold access, or whom no entry fits, passes `check_access`
-- after `setAccess` for just those levels whose first byte is "u", whatever access the user had.
pub check_access-denied :
    (operonly : Bool) (accesslist : List Access) (u : Account) (c : ℕ) (level : Bytes)
    → u.service ≡ false
    → (may_hold operonly u ≡ false) ⊎ (first_match u accesslist ≡ none)
    → check_access (set_access operonly accesslist u).0 (some (c ∷ level)) ≡ (c == b'u')
unfolding check_access
check_access-denied operonly accesslist u c level h (inl no_oper) =
    ap (λ (t : Bytes). has_char t c)
      (set_access-granted operonly accesslist u h ∙ refused (first_match u accesslist))
    ∙ only_u
  where
    refused : (found : Option Access) → granted operonly found u ≡ acc_flag_user
    refused none = refl
    refused (some a) = rw no_oper

    only_u : has_char acc_flag_user c ≡ (c == b'u')
    only_u = ground arith
check_access-denied operonly accesslist u c level h (inr unknown) =
    ap (λ (t : Bytes). has_char t c)
      (set_access-granted operonly accesslist u h
        ∙ ap (λ (o : Option Access). granted operonly o u) unknown)
    ∙ only_u
  where
    only_u : has_char acc_flag_user c ≡ (c == b'u')
    only_u = ground arith
