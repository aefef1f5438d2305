-- ===== src/Modes/User.antt =====
-- `read_usermode_string` and `create_usermode_string`. An operator who comes or goes has the access
-- looked up again, by `setAccess`.
pub mod Granted
use omega_services.Prelude.{
  ℕ, zero, suc, ◌+◌, Bool, true, false, ◌&&◌, ◌||◌, not, Option, none, some, List, [], ◌∷◌, ◌++◌,
  Bytes, get_elem?, ◌==◌, eq_bytes, if◌then◌else◌,
}
use omega_services.Access.{Account, Access, set_access, fit}

-- The fields of `struct USER` that modes read and write; `oper` and `service` are in the account.
pub record ModeUser : Type 0 where
  pub account : Account
  pub registered : Bool
  pub invis : Bool
  pub ssl : Bool
  pub bot : Bool
  pub cloak : Bool
  pub vhost : Bool
  pub priv : Bool
  pub admin : Bool
  pub webtv : Bool
  pub hideoper : Bool

-- `ircd_umodes`: `none` is a NULL, and so is what follows the list.
abbrev pub UModes : Type 0
UModes = List (Option Bytes)

-- The loop over the table, from index `i`.
unfoldable pub find_umode : ℕ → UModes → ℕ → Option ℕ
unfolding eq_bytes
find_umode i [] mode = none
find_umode i (none ∷ table) mode = find_umode (suc i) table mode
find_umode i (some ch ∷ table) mode =
    let rest = find_umode (suc i) table mode in if eq_bytes ch (mode ∷ []) then some i else rest

module _ (operonly : Bool) (accesslist : List Access) where
  unfoldable pub set_oper : Bool → Account → Account
  set_oper toadd u = (set_access operonly accesslist (record u { oper = toadd })).0

  -- `switch (i)`
  unfoldable pub apply_umode : ℕ → Bool → ModeUser → ModeUser
  unfolding set_oper
  apply_umode i toadd u =
      if i == 0
      then record u { registered = toadd }
      else if i == 1
      then record u { account = set_oper toadd u.account }
      else if i == 2
      then record u { invis = toadd }
      else if i == 4
      then record u { ssl = toadd }
      else if i == 5
      then record u { bot = toadd }
      else if i == 6
      then record u { account = record u.account { service = toadd } }
      else if i == 7
      then record u { cloak = toadd }
      else if i == 8
      then record u { vhost = toadd }
      else if i == 9
      then record u { priv = toadd }
      else if i == 10
      then record u { admin = toadd }
      else if i == 11
      then record u { webtv = toadd }
      else if i == 12
      then record u { hideoper = toadd }
      else u

  abbrev pub apply_found : Option ℕ → Bool → ModeUser → ModeUser
  apply_found none toadd u = u
  apply_found (some i) toadd u = apply_umode i toadd u

  -- The loop of `read_usermode_string`, with `toadd` as it is.
  unfoldable pub umode_loop : UModes → Bytes → Bool → ModeUser → ModeUser
  unfolding find_umode apply_umode
  umode_loop table [] toadd u = u
  umode_loop table (mode ∷ umodes) toadd u =
      let sign = (mode == b'+') || (mode == b'-') in
      umode_loop table umodes (if sign then mode == b'+' else toadd)
        (if sign then u else apply_found (find_umode 0 table mode) toadd u)

  -- `read_usermode_string`
  unfoldable pub read_usermode_string : UModes → ModeUser → Bytes → ModeUser
  unfolding umode_loop
  read_usermode_string table u umodes = umode_loop table umodes false u

abbrev pub umode_of : Option (Option Bytes) → Bytes
umode_of none = []
umode_of (some none) = []
umode_of (some (some ch)) = ch

-- `create_usermode_string`
unfoldable pub create_usermode_string : UModes → ModeUser → Bytes
create_usermode_string table u =
    let letter = λ (b : Bool) (i : ℕ). if b then umode_of (get_elem? table i) else [] in
    fit 1024 (
      b'+' ∷ letter u.registered 0
      ++ (letter u.account.oper 1
          ++ (letter u.invis 2
              ++ (letter u.ssl 4
                  ++ (letter u.bot 5
                      ++ (letter u.account.service 6
                          ++ (letter u.cloak 7
                              ++ (letter u.vhost 8
                                  ++ (letter u.priv 9
                                      ++ (letter u.admin 10 ++ letter u.hideoper 12))))))))))
