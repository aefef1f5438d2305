-- ===== src/Links/Dangling.antt =====
-- `exit_serv` where a call of itself frees the node that its walk has kept as the next one.
use omega_services.Prelude.{
  ℕ, zero, suc, ◌≡◌, refl, ap, ◌∙◌, sym, false, true, Option, none, some, List, [], ◌∷◌, ◌++◌,
  append_assoc, Bytes, All, length, eq_nocase, arith,
}
use mathlib.Core.Path.{subst}
use omega_services.Network.{Ptr}
use omega_services.Links.{Link, Links, find_serv, head_of, next_of, visit, walk, exit_serv}
use omega_services.Links.Search.{member}
use omega_services.Links.Walk.{
  Distinct, Distinct-Behind, Behind, Behind-pass, NotBelow, next_of-append, visit-quiet,
}

next_of-freed : (p : Ptr) (ps : List Ptr) → member p ps ≡ false → next_of p ps ≡ none
unfolding next_of
next_of-freed p [] h = refl
next_of-freed p (q ∷ ps) h = ground (arith, next_of-freed p ps)

module _ (exit : Bytes → Links → Option Links) (s : Ptr) (st st' : Links) (sl : Link)
    (there : st.srv s ≡ some sl) (b c : Ptr) (after : List Ptr)
    (exits : visit exit s b st ≡ some st') (freed : member c st'.servlist ≡ false) where
  walk-dangling :
      (before ps : List Ptr) (k : ℕ)
      → st.servlist ≡ before ++ (ps ++ b ∷ c ∷ after)
      → Behind before (ps ++ b ∷ c ∷ after)
      → All (NotBelow st.srv sl.name) ps
      → walk exit s k (head_of (ps ++ b ∷ c ∷ after)) st ≡ none
  unfolding walk
  walk-dangling before ps zero all behind quiet = refl
  walk-dangling before [] (suc zero) all behind quiet =
      let next : next_of b st.servlist ≡ some (some c) =
        ap (next_of b) all ∙ next_of-append before (c ∷ after) b behind.0 in
      rw (next, exits) refl
  walk-dangling before [] (suc (suc k)) all behind quiet =
      let next : next_of b st.servlist ≡ some (some c) =
        ap (next_of b) all ∙ next_of-append before (c ∷ after) b behind.0 in
      rw (next, exits, next_of-freed c st'.servlist freed) refl
  walk-dangling before (p ∷ ps) (suc k) all behind quiet =
      let rest : List Ptr = ps ++ b ∷ c ∷ after in
      let next : next_of p st.servlist ≡ some (head_of rest) =
        ap (next_of p) all ∙ next_of-append before rest p behind.0 in
      rw (next, visit-quiet exit s st sl there p quiet.0)
        (walk-dangling (before ++ p ∷ []) ps k (all ∙ sym (append_assoc before (p ∷ []) rest))
          (Behind-pass before rest p behind.1 behind.2) quiet.1)

-- If no server of the list before `b` is below the one that exits, `b` is linked right below it, and the
-- exit of `b` takes off the list the server whose node is behind that of `b`, then `exit_serv` reads that
-- node when it has been freed.
pub exit_serv-dangling :
    (serv_of : Ptr → Option Ptr) (fuel : ℕ) (serv : Bytes) (st st' : Links) (ps : List Ptr)
    (b c : Ptr) (after : List Ptr) {s up : Ptr} {sl bl ul : Link}
    → find_serv serv st ≡ some (some s)
    → st.srv s ≡ some sl
    → st.servlist ≡ ps ++ b ∷ c ∷ after
    → Distinct st.servlist
    → All (NotBelow st.srv sl.name) ps
    → st.srv b ≡ some bl
    → bl.uplink ≡ some up
    → st.srv up ≡ some ul
    → eq_nocase ul.name sl.name ≡ true
    → exit_serv serv_of fuel bl.name st ≡ some st'
    → member c st'.servlist ≡ false
    → exit_serv serv_of (suc fuel) serv st ≡ none
unfolding exit_serv
exit_serv-dangling serv_of fuel serv st st' ps b c after {s} {up} {sl} found there all distinct
      quiet b_there linked up_there named exits freed =
    rw (found, walk_none) refl
  where
    visited : visit (exit_serv serv_of fuel) s b st ≡ some st'
    visited = unfold visit in rw (b_there, linked, up_there, there, named) exits

    walk_none :
        walk (exit_serv serv_of fuel) s (suc (length st.servlist)) (head_of st.servlist) st ≡ none
    walk_none = rw (ap head_of all) (
        walk-dangling (exit_serv serv_of fuel) s st st' sl there b c after visited freed [] ps
          (suc (length st.servlist)) all
          (subst (Behind []) all (Distinct-Behind st.servlist distinct)) quiet)
