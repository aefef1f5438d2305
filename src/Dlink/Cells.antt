-- ===== src/Dlink/Cells.antt =====
-- What it means that a heap holds a list of cells, each an address and its data, and what a write to
-- another address leaves alone.
use omega_services.Prelude.{
  ℕ, ◌≡◌, refl, ◌∙◌, false, Option, none, some, List, [], ◌∷◌, ◌++◌, length, ◌==◌, pos, arith, All,
  All-append,
}
use omega_services.Network.{Ptr}
use omega_services.Dlink.{Heap, DlinkList}

abbrev pub Cell : Type 0
Cell = Ptr × ℕ

abbrev pub first_of : List Cell → Option Ptr → Option Ptr
first_of [] after = after
first_of ((p, d) ∷ cs) after = some p

abbrev pub last_of : Option Ptr → List Cell → Option Ptr
last_of before [] = before
last_of before ((p, d) ∷ cs) = last_of (some p) cs

-- The cells are linked in both directions, from what stands before them to what stands behind.
abbrev pub IsSeg : Heap → Option Ptr → List Cell → Option Ptr → Type 0
IsSeg h before [] after = Unit
IsSeg h before ((p, d) ∷ cs) after =
    (h p ≡ some (record { data_of = d; next = first_of cs after; prev = before }))
    × IsSeg h (some p) cs after

abbrev pub Apart : Ptr → List Cell → Type 0
Apart p cs = All (λ (c : Cell). (p == c.0) ≡ false) cs

abbrev pub AreDistinct : List Cell → Type 0
AreDistinct [] = Unit
AreDistinct ((p, d) ∷ cs) = Apart p cs × AreDistinct cs

-- The list has just these cells, and no node twice.
pub record IsList (h : Heap) (l : DlinkList) (cs : List Cell) : Type 0 where
  pub at_head : l.head ≡ first_of cs none
  pub at_tail : l.tail ≡ last_of none cs
  pub counted : l.count ≡ pos (length cs)
  pub linked : IsSeg h none cs none
  pub distinct : AreDistinct cs

pub IsSeg-same :
    (h h' : Heap) (before : Option Ptr) (cs : List Cell) (after : Option Ptr)
    → All (λ (c : Cell). h' c.0 ≡ h c.0) cs
    → IsSeg h before cs after
    → IsSeg h' before cs after
IsSeg-same h h' before [] after same seg = tt
IsSeg-same h h' before ((p, d) ∷ cs) after same seg =
    (same.0 ∙ seg.0, IsSeg-same h h' (some p) cs after same.1 seg.1)

pub first_of-append :
    (as' bs : List Cell) (after : Option Ptr)
    → first_of (as' ++ bs) after ≡ first_of as' (first_of bs after)
first_of-append [] bs after = refl
first_of-append ((p, d) ∷ as') bs after = refl

pub last_of-append :
    (before : Option Ptr) (as' bs : List Cell)
    → last_of before (as' ++ bs) ≡ last_of (last_of before as') bs
last_of-append before [] bs = refl
last_of-append before ((p, d) ∷ as') bs = last_of-append (some p) as' bs

pub IsSeg-split :
    (h : Heap) (before : Option Ptr) (as' bs : List Cell) (after : Option Ptr)
    → IsSeg h before (as' ++ bs) after
    → IsSeg h before as' (first_of bs after) × IsSeg h (last_of before as') bs after
IsSeg-split h before [] bs after seg = (tt, seg)
IsSeg-split h before ((p, d) ∷ as') bs after seg =
    let (left, right) = IsSeg-split h (some p) as' bs after seg.1 in
    ((rw (← first_of-append as' bs after) seg.0, left), right)

pub IsSeg-append :
    (h : Heap) (before : Option Ptr) (as' bs : List Cell) (after : Option Ptr)
    → IsSeg h before as' (first_of bs after)
    → IsSeg h (last_of before as') bs after
    → IsSeg h before (as' ++ bs) after
IsSeg-append h before [] bs after left right = right
IsSeg-append h before ((p, d) ∷ as') bs after left right =
    (rw (first_of-append as' bs after) left.0, IsSeg-append h (some p) as' bs after left.1 right)

pub apart_sym : (p q : Ptr) → (p == q) ≡ false → (q == p) ≡ false
apart_sym p q e = ground arith

pub Apart-swap : (p : Ptr) (bs : List Cell) → Apart p bs → All (λ (c : Cell). (c.0 == p) ≡ false) bs
Apart-swap p [] h = tt
Apart-swap p (b ∷ bs) h = (apart_sym p b.0 h.0, Apart-swap p bs h.1)

pub Apart-append : (p : Ptr) (as' bs : List Cell) → Apart p (as' ++ bs) → Apart p as' × Apart p bs
Apart-append p [] bs h = (tt, h)
Apart-append p (a ∷ as') bs h =
    let (left, right) = Apart-append p as' bs h.1 in ((h.0, left), right)

pub Apart-join : (p : Ptr) (as' bs : List Cell) → Apart p as' → Apart p bs → Apart p (as' ++ bs)
Apart-join p as' bs left right = All-append (λ (c : Cell). (p == c.0) ≡ false) as' bs left right

zip-Apart :
    (p : Ptr) (d : ℕ) (as' bs : List Cell)
    → All (λ (c : Cell). (c.0 == p) ≡ false) bs
    → All (λ (c : Cell). Apart c.0 as') bs
    → All (λ (c : Cell). Apart c.0 ((p, d) ∷ as')) bs
zip-Apart p d as' [] h k = tt
zip-Apart p d as' (b ∷ bs) h k = ((h.0, k.0), zip-Apart p d as' bs h.1 k.1)

-- Both parts of a list have no node twice, and no node is in both.
pub AreDistinct-append :
    (as' bs : List Cell)
    → AreDistinct (as' ++ bs)
    → AreDistinct as'
      × AreDistinct bs
      × All (λ (c : Cell). Apart c.0 as') bs
      × All (λ (c : Cell). Apart c.0 bs) as'
AreDistinct-append [] bs h = (tt, h, none_apart bs, tt)
  where
    none_apart : (cs : List Cell) → All (λ (c : Cell). Apart c.0 []) cs
    none_apart [] = tt
    none_apart (c ∷ cs) = (tt, none_apart cs)
AreDistinct-append ((p, d) ∷ as') bs h =
    let (left, right, from_left, from_right) = AreDistinct-append as' bs h.1 in
    let (near, far) = Apart-append p as' bs h.0 in
    ((near, left), right, zip-Apart p d as' bs (Apart-swap p bs far) from_left, (far, from_right))

-- A list without one of its cells still has no node twice.
pub AreDistinct-remove :
    (as' : List Cell) (c : Cell) (bs : List Cell)
    → AreDistinct (as' ++ c ∷ bs)
    → AreDistinct (as' ++ bs)
AreDistinct-remove [] c bs h = h.1
AreDistinct-remove ((p, d) ∷ as') c bs h =
    let (near, far) = Apart-append p as' (c ∷ bs) h.0 in
    (Apart-join p as' bs near far.1, AreDistinct-remove as' c bs h.1)

pub AreDistinct-last :
    (as' : List Cell) (p : Ptr) (d : ℕ)
    → AreDistinct as'
    → Apart p as'
    → AreDistinct (as' ++ (p, d) ∷ [])
AreDistinct-last [] p d h new = (tt, tt)
AreDistinct-last ((q, e) ∷ as') p d h new = (
  Apart-join q as' ((p, d) ∷ []) h.0 (apart_sym p q new.0, tt),
  AreDistinct-last as' p d h.1 new.1,
)
