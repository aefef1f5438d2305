-- ===== src/Dlink/Links.antt =====
-- What the two bridges of a deletion do to the cells on their side.
use omega_services.Prelude.{
  ℕ, ◌≡◌, refl, ◌∙◌, false, Option, none, some, List, [], ◌∷◌, ◌==◌, arith, All,
}
use omega_services.Network.{Ptr, update}
use omega_services.Dlink.{Node, Heap, DlinkList, set_next, set_prev, bridge_next, bridge_prev}
use omega_services.Dlink.Cells.{Cell, first_of, last_of, IsSeg, Apart, AreDistinct, IsSeg-same}

-- The heap is the same at all nodes that are none of the cells.
abbrev pub SameOff : Heap → Heap → List Cell → Type 0
SameOff h h' cs = (r : Ptr) → Apart r cs → h' r ≡ h r

update_here : (h : Heap) (p : Ptr) (v : Option Node) → update h p v p ≡ v
update_here h p v = ground arith

update_off :
    (h : Heap) (p : Ptr) (v : Option Node) (r : Ptr) → (r == p) ≡ false → update h p v r ≡ h r
update_off h p v r e = ground arith

-- `next` of the last of some cells is changed: they are then linked to what it was changed to.
pub set_next-last :
    (h : Heap) (before : Option Ptr) (p : Ptr) (d : ℕ) (as' : List Cell) (x y : Option Ptr)
    → IsSeg h before ((p, d) ∷ as') x
    → AreDistinct ((p, d) ∷ as')
    → (q : Ptr) × (h' : Heap) × (last_of before ((p, d) ∷ as') ≡ some q)
      × (set_next q y h ≡ some h')
      × IsSeg h' before ((p, d) ∷ as') y
      × SameOff h h' ((p, d) ∷ as')
unfolding set_next
set_next-last h before p d [] x y seg dis =
    let v = some (record { data_of = d; next = y; prev = before }) in
    (
      p,
      update h p v,
      refl,
      rw seg.0 refl,
      (update_here h p v, tt),
      λ r off. update_off h p v r off.0,
    )
set_next-last h before p d ((p2, d2) ∷ as') x y seg dis =
    let (q, h', at, done, seg', same) = set_next-last h (some p) p2 d2 as' x y seg.1 dis.1 in
    (q, h', at, done, (same p dis.0 ∙ seg.0, seg'), λ r off. same r off.1)

pub bridge_next-IsSeg :
    (l : DlinkList) (h : Heap) (as' : List Cell) (x y : Option Ptr)
    → IsSeg h none as' x
    → AreDistinct as'
    → l.head ≡ first_of as' x
    → (l' : DlinkList) × (h' : Heap) × (bridge_next (last_of none as') y l h ≡ some (l', h'))
      × IsSeg h' none as' y
      × SameOff h h' as'
      × (l'.head ≡ first_of as' y)
      × (l'.tail ≡ l.tail)
      × (l'.count ≡ l.count)
unfolding bridge_next
bridge_next-IsSeg l h [] x y seg dis at =
    (record l { head = y }, h, refl, tt, λ r off. refl, refl, refl, refl)
bridge_next-IsSeg l h ((p, d) ∷ as') x y seg dis at =
    let (q, h', last, done, seg', same) = set_next-last h none p d as' x y seg dis in
    (l, h', rw (last, done) refl, seg', same, at, refl, refl)

pub bridge_prev-IsSeg :
    (l : DlinkList) (h : Heap) (bs : List Cell) (x y : Option Ptr)
    → IsSeg h x bs none
    → AreDistinct bs
    → l.tail ≡ last_of x bs
    → (l' : DlinkList) × (h' : Heap) × (bridge_prev (first_of bs none) y l h ≡ some (l', h'))
      × IsSeg h' y bs none
      × SameOff h h' bs
      × (l'.tail ≡ last_of y bs)
      × (l'.head ≡ l.head)
      × (l'.count ≡ l.count)
unfolding bridge_prev set_prev
bridge_prev-IsSeg l h [] x y seg dis at =
    (record l { tail = y }, h, refl, tt, λ r off. refl, refl, refl, refl)
bridge_prev-IsSeg l h ((p, d) ∷ bs) x y seg dis at =
    let v = some (record { data_of = d; next = first_of bs none; prev = y }) in
    (
      l,
      update h p v,
      rw seg.0 refl,
      (update_here h p v, IsSeg-same h (update h p v) (some p) bs none (others v bs dis.0) seg.1),
      λ r off. update_off h p v r off.0,
      at,
      refl,
      refl,
    )
  where
    others :
        (v : Option Node) (cs : List Cell)
        → Apart p cs
        → All (λ (c : Cell). update h p v c.0 ≡ h c.0) cs
    others v [] off = tt
    others v (c ∷ cs) off = (ground arith, others v cs off.1)
