-- ===== src/Links/Search.antt =====
-- Searches for a server, and the server that `new_serv` adds.
use omega_services.Prelude.{
  ◌<◌, ◌≡◌, refl, ap, ◌∙◌, Bool, true, false, Option, none, some, List, [], ◌∷◌, ◌++◌, Bytes,
  length, ◌==◌, ==_iff, if◌then◌else◌, arith, Bool-cases, inl, inr, take-eq_self, eq_nocase_refl,
}
use omega_services.Access.{fit}
use omega_services.Network.{Ptr, update, ◌>>=◌}
use omega_services.Links.{Link, Links, is_serv, find_serv_in, find_serv, new_serv, add_serv}

abbrev pub member : Ptr → List Ptr → Bool
member p [] = false
member p (q ∷ qs) = if q == p then true else member p qs

flip : (p q : Ptr) → (q == p) ≡ false → (p == q) ≡ false
flip p q h = ground arith

taken : (p q : Ptr) (ps : List Ptr) → (q == p) ≡ true → member p (q ∷ ps) ≡ true
taken p q ps h = rw h

-- Writing at an address that is not in the list changes no search.
find_serv_in-update :
    (srv : Ptr → Option Link) (serv : Bytes) (p : Ptr) (v : Option Link) (ps : List Ptr)
    → member p ps ≡ false
    → find_serv_in (update srv p v) serv ps ≡ find_serv_in srv serv ps
unfolding find_serv_in
find_serv_in-update srv serv p v [] h = refl
find_serv_in-update srv serv p v (q ∷ ps) h = elim (Bool-cases (q == p)) [
  | inl same ↦ cc (h, taken p q ps same)
  | inr other ↦
      rw (flip p q other) (unchanged (srv q) (find_serv_in-update srv serv p v ps (rw other at h)))
]
  where
    unchanged :
        (o : Option Link)
        → find_serv_in (update srv p v) serv ps ≡ find_serv_in srv serv ps
        → (o >>= λ li.
            if is_serv serv li then some (some q) else find_serv_in (update srv p v) serv ps)
          ≡ (o >>= λ li. if is_serv serv li then some (some q) else find_serv_in srv serv ps)
    unchanged o e =
        ap
          (λ (rest : Option (Option Ptr)).
            o >>= λ li. if is_serv serv li then some (some q) else rest)
          e

find_serv_in-append :
    (srv : Ptr → Option Link) (serv : Bytes) (ps : List Ptr) (p : Ptr) (li : Link)
    → find_serv_in srv serv ps ≡ some none
    → srv p ≡ some li
    → is_serv serv li ≡ true
    → find_serv_in srv serv (ps ++ p ∷ []) ≡ some (some p)
unfolding find_serv_in
find_serv_in-append srv serv [] p li h e here = rw (e, here)
find_serv_in-append srv serv (q ∷ ps) p li h e here =
    ground (arith, find_serv_in-append srv serv ps p li)

-- If the search of the list meets no freed server, `new_serv` returns the server that is then found by
-- the name: the one that was there, with nothing changed, or a new one, for a name that fits its array
-- and an address that is not in the list.
pub find_serv-new_serv :
    (fresh : Ptr) (uplink : Option Ptr) (name : Bytes) (st : Links) (r : Option Ptr)
    → find_serv name st ≡ some r
    → member fresh st.servlist ≡ false
    → length name < 65
    → (p : Ptr) × (st' : Links) × (new_serv fresh uplink name st ≡ some (p, st'))
      × (find_serv name st' ≡ some (some p))
unfolding new_serv find_serv
find_serv-new_serv fresh uplink name st (some p) found away fits = (p, st, rw found, found)
find_serv-new_serv fresh uplink name st none found away fits =
    let new : Link = record { name = name; sid = []; uplink = uplink; eos = false } in
    let added : update st.srv fresh (some new) fresh ≡ some new =
      rw ((==_iff fresh fresh).1 refl) in
    let named : is_serv name new ≡ true = unfold is_serv in rw (eq_nocase_refl name) in
    let full : fit 65 name ≡ name = take-eq_self 64 name (omega arith) in
    (
      fresh,
      add_serv fresh uplink name st,
      rw found,
      rw full (
          find_serv_in-append (update st.srv fresh (some new)) name st.servlist fresh new
            (find_serv_in-update st.srv name fresh (some new) st.servlist away ∙ found) added
            named),
    )
