-- ===== src/Sessions/Exempted.antt =====
-- The counts that EXEMPT of modules/client/g_sessions.c lets into the list of exemptions.
use omega_services.Prelude.{
  ℕ, ◌<◌, ◌≤◌, ◌≡◌, Bool, true, false, ◌||◌, Option, none, some, List, [], ◌∷◌, Bytes, codes,
  get_elem?, ltb, leb, eq_nocase, if◌then◌else◌, ℤ, pos, negsuc, arith, All, All-append, Bool-cases,
  inl, inr,
}
use omega_services.Links.{is_empty}
use omega_services.Modes.Channel.Decimal.{atol}
use omega_services.Sessions.{SessionExempt, add_exempt, find_exempt, exempt_matches, del_exempt}
use omega_services.Sessions.Commands.{
  Reply, Exempts, exempt_add, exempt_del, exempt_command, cmd_exempt, host_limit,
}

-- A count that an exemption may have.
abbrev pub InRange : SessionExempt → Type 0
InRange se = (host_limit < se.count) × (se.count ≤ 100)

abbrev pub AllInRange : Exempts → Type 0
AllInRange st = All InRange st.exemptlist

-- Either branch.
if_lem {ℓ κ} :
    {A : Type ℓ} (P : A → Type κ) (b : Bool) {x y : A} → P x → P y → P (if b then x else y)
if_lem P true kx ky = kx
if_lem P false kx ky = ky

-- Either answer of a search.
found_lem {ℓ κ μ} :
    {A : Type ℓ} {B : Type κ} (P : A → Type μ) (r : Option B) (m : A) (f : B → A)
    → P m
    → ((b : B) → P (f b))
    → P (elim r [ none ↦ m | some b ↦ f b ])
found_lem P none m f km kf = km
found_lem P (some b) m f km kf = kf b

add_exempt-InRange :
    (now : ℕ) (host : Bytes) (n : ℕ) (list : List SessionExempt)
    → host_limit < n
    → n ≤ 100
    → All InRange list
    → All InRange (add_exempt now host n list).1
unfolding add_exempt
add_exempt-InRange now host n list low high keep =
    found_lem (λ (r : Bool × List SessionExempt). All InRange r.1) (find_exempt host list) _ _
      (All-append InRange list _ keep ((low, high), tt)) (λ se. keep)

exempt_add-InRange :
    (now : ℕ) (host : Bytes) (n : ℤ) (st : Exempts)
    → AllInRange st
    → AllInRange (exempt_add now host n st).1
unfolding exempt_add
exempt_add-InRange now host (negsuc n) st keep = keep
exempt_add-InRange now host (pos n) st keep = elim (Bool-cases (leb n host_limit || ltb 100 n)) [
  | inl bad ↦ rw bad keep
  | inr good ↦
      rw good (add_exempt-InRange now host n st.exemptlist (ground arith) (ground arith) keep)
]

del_exempt-InRange :
    (host : Bytes) (list : List SessionExempt)
    → All InRange list
    → All InRange (del_exempt host list)
unfolding del_exempt
del_exempt-InRange host [] keep = keep
del_exempt-InRange host (se ∷ list) keep = elim (Bool-cases (exempt_matches host se)) [
  | inl gone ↦ rw gone (del_exempt-InRange host list keep.1)
  | inr stays ↦ rw stays (keep.0, del_exempt-InRange host list keep.1)
]

-- An answer and the state after it.
abbrev InRangeThen : Reply × Exempts → Type 0
InRangeThen r = AllInRange r.1

exempt_command-InRange :
    (now : ℕ) (rows : List SessionExempt) (name : Bytes) (params : List Bytes) (st : Exempts)
    → All InRange rows
    → AllInRange st
    → AllInRange (exempt_command now rows name params st).1
unfolding exempt_command exempt_del
exempt_command-InRange now rows name params st good keep =
    let P : Reply × Exempts → Type 0 = InRangeThen in
    if_lem P (is_empty name) keep (
      if_lem P (eq_nocase name (codes "LIST")) keep (
        if_lem P (eq_nocase name (codes "ADD"))
          (found_lem P (get_elem? params 1) _ _ keep (λ host.
            found_lem P (get_elem? params 2) _ _ keep
              (λ count. exempt_add-InRange now host (atol count) st keep)))
          (if_lem P (eq_nocase name (codes "DEL"))
            (found_lem P (get_elem? params 1) _ _ keep
              (λ host. del_exempt-InRange host st.exemptlist keep))
            (if_lem P (eq_nocase name (codes "SAVE")) keep
              (if_lem P (eq_nocase name (codes "LOAD")) good keep)))))

-- Whatever EXEMPT is told, each exemption in the list has a count above 4, the limit that is built in,
-- and at most 100, if this was so before and holds for what the database gives.
pub cmd_exempt-InRange :
    (now : ℕ) (rows : List SessionExempt) (params : List Bytes) (st : Exempts) (reply : Reply)
    (st' : Exempts)
    → All InRange rows
    → AllInRange st
    → cmd_exempt now rows params st ≡ some (reply, st')
    → AllInRange st'
unfolding cmd_exempt
cmd_exempt-InRange now rows [] st reply st' good keep e = cc e
cmd_exempt-InRange now rows (name ∷ params) st reply st' good keep e =
    let same : exempt_command now rows name (name ∷ params) st ≡ (reply, st') = cc e in
    (let kept : AllInRange (exempt_command now rows name (name ∷ params) st).1 =
        exempt_command-InRange now rows name (name ∷ params) st good keep in
      rw same at kept)
