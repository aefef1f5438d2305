-- ===== src/Links/Walk.antt =====
-- The walk of `exit_serv` over a list in which no server is below the one that exits.
use omega_services.Prelude.{
  ℕ, zero, suc, ◌<◌, ◌≡◌, refl, ap, ◌∙◌, sym, false, Option, none, some, List, [], ◌∷◌, ◌++◌,
  append_assoc, Bytes, All, length, ◌==◌, ==_iff, arith, Option-cases, inl, inr, eq_nocase,
}
use omega_services.Network.{Ptr}
use omega_services.Links.{Link, Links, head_of, next_of, visit, walk}
use omega_services.Links.Search.{member}

-- No server stands in the list twice.
abbrev pub Distinct : List Ptr → Type 0
Distinct [] = Unit
Distinct (p ∷ ps) = (member p ps ≡ false) × Distinct ps

-- The servers `ps` stand neither in `before`, nor twice.
abbrev pub Behind : List Ptr → List Ptr → Type 0
Behind before [] = Unit
Behind before (p ∷ ps) = (member p before ≡ false) × (member p ps ≡ false) × Behind before ps

pub next_of-append :
    (before ps : List Ptr) (p : Ptr)
    → member p before ≡ false
    → next_of p (before ++ p ∷ ps) ≡ some (head_of ps)
unfolding next_of
next_of-append [] ps p h = rw ((==_iff p p).1 refl)
next_of-append (q ∷ before) ps p h = ground (arith, next_of-append before ps p)

member-append :
    (p q : Ptr) (ps : List Ptr)
    → member p ps ≡ false
    → (q == p) ≡ false
    → member p (ps ++ q ∷ []) ≡ false
member-append p q [] h e = ground arith
member-append p q (r ∷ ps) h e = ground (arith, member-append p q ps)

not_first :
    (p q : Ptr) (ps : List Ptr)
    → member p (q ∷ ps) ≡ false
    → ((p == q) ≡ false) × (member p ps ≡ false)
not_first p q ps h = ground arith

pub Behind-pass :
    (before ps : List Ptr) (p : Ptr)
    → member p ps ≡ false
    → Behind before ps
    → Behind (before ++ p ∷ []) ps
Behind-pass before [] p h b = tt
Behind-pass before (q ∷ ps) p h b =
    let (apart, rest) = not_first p q ps h in
    (member-append q p before b.0 apart, b.1, Behind-pass before ps p rest b.2)

pub Distinct-Behind : (ps : List Ptr) → Distinct ps → Behind [] ps
Distinct-Behind [] h = tt
Distinct-Behind (p ∷ ps) h = (refl, h.0, Distinct-Behind ps h.1)

abbrev pub UplinkIsOther : (Ptr → Option Link) → Bytes → Option Ptr → Type 0
UplinkIsOther srv name none = Unit
UplinkIsOther srv name (some up) =
    (ul : Link) × (srv up ≡ some ul) × (eq_nocase ul.name name ≡ false)

-- The server has no uplink, or one of another name than `name`.
abbrev pub NotBelow : (Ptr → Option Link) → Bytes → Ptr → Type 0
NotBelow srv name p = (li : Link) × (srv p ≡ some li) × (UplinkIsOther srv name li.uplink)

module _ (exit : Bytes → Links → Option Links) (s : Ptr) (st : Links) (sl : Link)
    (there : st.srv s ≡ some sl) where
  pub visit-quiet : (p : Ptr) → NotBelow st.srv sl.name p → visit exit s p st ≡ some st
  unfolding visit
  visit-quiet p (li, here, other) = elim (Option-cases li.uplink) [
    | inl e ↦ rw (here, e) refl
    | inr (up, e) ↦
        let below : UplinkIsOther st.srv sl.name (some up) = rw e at (other) in
        let (ul, up_there, apart) = below in rw (here, e, up_there, there, apart) refl
  ]

  pub walk-quiet :
      (before ps : List Ptr) (k : ℕ)
      → st.servlist ≡ before ++ ps
      → length ps < k
      → Behind before ps
      → All (NotBelow st.srv sl.name) ps
      → walk exit s k (head_of ps) st ≡ some st
  unfolding walk
  walk-quiet before [] zero all fuel b quiet = absurd (omega arith)
  walk-quiet before [] (suc k) all fuel b quiet = refl
  walk-quiet before (p ∷ ps) zero all fuel b quiet = absurd (omega arith)
  walk-quiet before (p ∷ ps) (suc k) all fuel b quiet =
      let next : next_of p st.servlist ≡ some (head_of ps) =
        ap (next_of p) all ∙ next_of-append before ps p b.0 in
      rw (next, visit-quiet p quiet.0)
        (walk-quiet (before ++ p ∷ []) ps k (all ∙ sym (append_assoc before (p ∷ []) ps))
          (omega arith) (Behind-pass before ps p b.1 b.2) quiet.1)
