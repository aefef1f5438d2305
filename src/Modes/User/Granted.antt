-- ===== src/Modes/User/Granted.antt =====
-- A user's access under changes of modes.
use omega_services.Prelude.{
  ℕ, ◌≡◌, ◌≢◌, refl, sym, ap, ◌∙◌, Bool, ◌&&◌, not, true, false, ◌||◌, Option, none, some, List, [],
  ◌∷◌, Bytes, All, ◌==◌, ==_iff, if◌then◌else◌, Bool-cases, inl, inr, arith,
}
use omega_services.Access.{
  Account, Access, set_access, first_match, any_host, host_matches, find_access, grant, grant_found,
  reset,
}
use omega_services.Access.Grants.{granted, set_access-granted}
use mathlib.Core.Path.{subst}
use omega_services.Metadata.{Metadata}
use omega_services.Modes.User.{
  ModeUser, UModes, find_umode, set_oper, apply_umode, apply_found, umode_loop,
  read_usermode_string,
}

-- The masks are compared with the user's names only.
module _ (u : Account) (access : Bytes) (metadata : List Metadata) where
  any_host-rest :
      (hosts : List Bytes)
      → any_host (record u { access = access; metadata = metadata }) hosts ≡ any_host u hosts
  unfolding any_host
  any_host-rest [] = refl
  any_host-rest (host ∷ hosts) =
      unfold host_matches in
      ap (λ (b : Bool). if host_matches u host then true else b) (any_host-rest hosts)

  first_match-rest :
      (as' : List Access)
      → first_match (record u { access = access; metadata = metadata }) as' ≡ first_match u as'
  unfolding first_match
  first_match-rest [] = refl
  first_match-rest (a ∷ as') = rw (any_host-rest a.hosts, first_match-rest as')

module _ (operonly : Bool) (accesslist : List Access) where
  -- The access is what `setAccess` would give.
  abbrev pub IsGranted : Account → Type 0
  IsGranted u = u.access ≡ granted operonly (first_match u accesslist) u

  -- Only the access and the metadata differ.
  abbrev Touched : Account → Account → Type 0
  Touched u v = v ≡ record u { access = v.access; metadata = v.metadata }

  grant_found-Touched :
      (u : Account) (found : Option Access) → Touched u (grant_found operonly found (reset u)).0
  unfolding grant
  grant_found-Touched u none = refl
  grant_found-Touched u (some a) = elim (Bool-cases (not u.oper && operonly)) [
    | inl e ↦ rw e refl
    | inr e ↦ rw e refl
  ]

  if-Touched :
      (u : Account) (b : Bool) (r : Account × Bool)
      → Touched u r.0
      → Touched u (if b then (u, false) else r).0
  if-Touched u true r h = refl
  if-Touched u false r h = h

  -- `setAccess` writes the access and the metadata only.
  set_access-Touched : (u : Account) → Touched u (set_access operonly accesslist u).0
  unfolding set_access find_access
  set_access-Touched u =
      if-Touched u u.service (grant_found operonly (first_match (reset u) accesslist) (reset u))
        (grant_found-Touched u (first_match (reset u) accesslist))

  granted-rest :
      (found : Option Access) (u v : Account)
      → granted operonly found (record u { access = v.access; metadata = v.metadata })
        ≡ granted operonly found u
  granted-rest none u v = refl
  granted-rest (some a) u v = refl

  granted-Touched :
      (u v : Account)
      → Touched u v
      → granted operonly (first_match v accesslist) v
        ≡ granted operonly (first_match u accesslist) u
  granted-Touched u v h =
      ap (λ (w : Account). granted operonly (first_match w accesslist) w) h
      ∙ granted-rest
          (first_match (record u { access = v.access; metadata = v.metadata }) accesslist) u v
      ∙ ap (λ (o : Option Access). granted operonly o u)
          (first_match-rest u v.access v.metadata accesslist)

  set_oper-IsGranted :
      (toadd : Bool) (u : Account)
      → u.service ≡ false
      → IsGranted (set_oper operonly accesslist toadd u)
        × ((set_oper operonly accesslist toadd u).service ≡ false)
  unfolding set_oper
  set_oper-IsGranted toadd u h =
      let u' : Account = record u { oper = toadd } in
      let touched = set_access-Touched u' in
      (
        set_access-granted operonly accesslist u' h ∙ sym (granted-Touched u' _ touched),
        ap (λ (w : Account). w.service) touched ∙ h,
      )

  -- A user's access is the granted one, and the user is no service.
  abbrev pub InStep : ModeUser → Type 0
  InStep u = IsGranted u.account × (u.account.service ≡ false)

  apply_umode-account :
      (i : ℕ) (toadd : Bool) (u : ModeUser)
      → (i == 6) ≡ false
      → (i == 1) ≡ false
      → (apply_umode operonly accesslist i toadd u).account ≡ u.account
  unfolding apply_umode
  apply_umode-account i toadd u no_service no_oper = rw (no_service, no_oper) (ground arith)

  apply_umode-InStep :
      (i : ℕ) (toadd : Bool) (u : ModeUser)
      → (i == 6) ≡ false
      → InStep u
      → InStep (apply_umode operonly accesslist i toadd u)
  apply_umode-InStep i toadd u no_service h = elim (Bool-cases (i == 1)) [
    | inl e ↦
        subst (λ j. InStep (apply_umode operonly accesslist j toadd u)) (sym ((==_iff i 1).0 e))
          (unfold apply_umode in set_oper-IsGranted toadd u.account h.1)
    | inr e ↦ rw (apply_umode-account i toadd u no_service e) h
  ]

  apply_found-InStep :
      (found : Option ℕ) (toadd : Bool) (u : ModeUser)
      → found ≢ some 6
      → InStep u
      → InStep (apply_found operonly accesslist found toadd u)
  apply_found-InStep none toadd u no_service h = h
  apply_found-InStep (some i) toadd u no_service h = apply_umode-InStep i toadd u (ground arith) h

  umode_loop-InStep :
      (table : UModes) (umodes : Bytes) (toadd : Bool) (u : ModeUser)
      → All (λ x. find_umode 0 table x ≢ some 6) umodes
      → InStep u
      → InStep (umode_loop operonly accesslist table umodes toadd u)
  unfolding umode_loop
  umode_loop-InStep table [] toadd u no_service h = h
  umode_loop-InStep table (x ∷ umodes) toadd u no_service h =
      umode_loop-InStep table umodes _ _ no_service.1 (step ((x == b'+') || (x == b'-')))
    where
      step :
          (sign : Bool)
          → InStep
              (if sign then u else apply_found operonly accesslist (find_umode 0 table x) toadd u)
      step true = h
      step false = apply_found-InStep (find_umode 0 table x) toadd u no_service.0 h

  -- A user who is no service, and whose access is what `setAccess` would give, has such access after
  -- every text of modes, whichever operator modes it sets and unsets, if it has no letter of the mode
  -- of services.
  pub read_usermode_string-InStep :
      (table : UModes) (u : ModeUser) (umodes : Bytes)
      → All (λ x. find_umode 0 table x ≢ some 6) umodes
      → IsGranted u.account
      → u.account.service ≡ false
      → InStep (read_usermode_string operonly accesslist table u umodes)
  unfolding read_usermode_string
  read_usermode_string-InStep table u umodes no_service h s =
      umode_loop-InStep table umodes false u no_service (h, s)
