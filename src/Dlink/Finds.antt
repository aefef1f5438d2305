-- ===== src/Dlink/Finds.antt =====
-- `dlink_find_delete` takes out the first cell with some data.
use omega_services.Prelude.{
  ℕ, zero, suc, ◌<◌, ◌≡◌, refl, sym, ap, ◌∙◌, true, false, Option, none, some, List, [], ◌∷◌, ◌++◌,
  length, ◌==◌, pred_ℤ, arith, All,
}
use omega_services.Network.{Ptr, update}
use omega_services.Dlink.{
  Node, Heap, DlinkList, set_next, set_prev, find_from, dlink_find, clear_links, unlink,
  dlink_find_delete,
}
use omega_services.Dlink.Cells.{
  Cell, first_of, last_of, IsSeg, Apart, IsList, Apart-swap, IsSeg-same, IsSeg-split, IsSeg-append,
  first_of-append, last_of-append, AreDistinct-append, AreDistinct-remove,
}
use omega_services.Dlink.Links.{bridge_next-IsSeg, bridge_prev-IsSeg}
use omega_services.Dlink.Edits.{same_at, drop_first, count_removed}

clear_links-same :
    (m : Ptr) (h : Heap) {n : Node}
    → h m ≡ some n
    → (h' : Heap) × (clear_links m h ≡ some h') × ((r : Ptr) → (r == m) ≡ false → h' r ≡ h r)
unfolding clear_links set_prev set_next
clear_links-same m h {n} there =
    let n1 = record n { prev = none } in
    let h1 = update h m (some n1) in
    let here1 : h1 m ≡ some n1 = ground arith in
    (update h1 m (some (record n1 { next = none })), rw (there, here1) refl, λ r e. ground arith)

off_one :
    (m : Ptr) (h h' : Heap) (cs : List Cell)
    → ((r : Ptr) → (r == m) ≡ false → h' r ≡ h r)
    → All (λ (c : Cell). (c.0 == m) ≡ false) cs
    → All (λ (c : Cell). h' c.0 ≡ h c.0) cs
off_one m h h' [] same off = tt
off_one m h h' (c ∷ cs) same off = (same c.0 off.0, off_one m h h' cs same off.1)

firsts :
    (x : Cell) (bs as' : List Cell)
    → All (λ (c : Cell). Apart c.0 (x ∷ bs)) as'
    → All (λ (c : Cell). (c.0 == x.0) ≡ false) as'
firsts x bs [] h = tt
firsts x bs (a ∷ as') h = (h.0.0, firsts x bs as' h.1)

unlink-IsList :
    (l : DlinkList) (h : Heap) (as' : List Cell) (m : Ptr) (d : ℕ) (bs : List Cell)
    → IsList h l (as' ++ (m, d) ∷ bs)
    → (l' : DlinkList) × (h' : Heap) × (unlink m l h ≡ some (l', h')) × IsList h' l' (as' ++ bs)
unfolding unlink
unlink-IsList l h as' m d bs whole =
    let (left, right) = IsSeg-split h none as' ((m, d) ∷ bs) none whole.linked in
    let (dis_l, dis_r, off_l, off_r) = AreDistinct-append as' ((m, d) ∷ bs) whole.distinct in
    let (l1, h1, done1, seg1, same1, tail1, head1, count1) =
      bridge_prev-IsSeg l h bs (some m) (last_of none as') right.1 dis_r.1
        (whole.at_tail ∙ last_of-append none as' ((m, d) ∷ bs)) in
    let there1 = same1 m dis_r.0 ∙ right.0 in
    let left1 =
      IsSeg-same h h1 none as' (some m) (same_at h h1 bs as' same1 (drop_first (m, d) bs as' off_r))
        left in
    let (l2, h2, done2, seg2, same2, head2, tail2, count2) =
      bridge_next-IsSeg l1 h1 as' (some m) (first_of bs none) left1 dis_l
        (head1 ∙ whole.at_head ∙ first_of-append as' ((m, d) ∷ bs) none) in
    let right2 =
      IsSeg-same h1 h2 (last_of none as') bs none (same_at h1 h2 as' bs same2 off_l.1) seg1 in
    let (h3, done3, same3) = clear_links-same m h2 (same2 m off_l.0 ∙ there1) in
    (
      record l2 { count = pred_ℤ l2.count },
      h3,
      rw (right.0, done1, there1, done2, done3) refl,
      record {
        at_head = head2 ∙ sym (first_of-append as' bs none);
        at_tail = tail2 ∙ tail1 ∙ sym (last_of-append none as' bs);
        counted = ap pred_ℤ (count2 ∙ count1 ∙ whole.counted) ∙ count_removed as' (m, d) bs;
        linked =
            IsSeg-append h3 none as' bs none
              (IsSeg-same h2 h3 none as' (first_of bs none)
                (off_one m h2 h3 as' same3 (firsts (m, d) bs as' off_r)) seg2)
              (IsSeg-same h2 h3 (last_of none as') bs none
                (off_one m h2 h3 bs same3 (Apart-swap m bs dis_r.0)) right2);
        distinct = AreDistinct-remove as' (m, d) bs whole.distinct;
      },
    )

find_from-first :
    (fuel d : ℕ) (h : Heap) (before : Option Ptr) (as' : List Cell) (m : Ptr) (bs : List Cell)
    → IsSeg h before (as' ++ (m, d) ∷ bs) none
    → All (λ (c : Cell). (c.1 == d) ≡ false) as'
    → length as' < fuel
    → find_from fuel d (first_of (as' ++ (m, d) ∷ bs) none) h ≡ some (some m)
unfolding find_from
find_from-first zero d h before as' m bs seg other enough = absurd (omega arith)
find_from-first (suc fuel) d h before [] m bs seg other enough =
    let own : (d == d) ≡ true = ground arith in rw (seg.0, own) refl
find_from-first (suc fuel) d h before ((p, e) ∷ as') m bs seg other enough =
    rw (seg.0, other.0) (find_from-first fuel d h (some p) as' m bs seg.1 other.1 (omega arith))

-- `dlink_find_delete` of data that a list holds returns the first node with that data, if the
-- fuel is above the number of cells before it, and the list then has the other cells, in order.
pub dlink_find_delete-IsList :
    (fuel : ℕ) (l : DlinkList) (h : Heap) (as' : List Cell) (m : Ptr) (d : ℕ) (bs : List Cell)
    → IsList h l (as' ++ (m, d) ∷ bs)
    → All (λ (c : Cell). (c.1 == d) ≡ false) as'
    → length as' < fuel
    → (l' : DlinkList) × (h' : Heap) × (dlink_find_delete fuel d l h ≡ some (some m, l', h'))
      × IsList h' l' (as' ++ bs)
unfolding dlink_find_delete dlink_find
dlink_find_delete-IsList fuel l h as' m d bs whole other enough =
    let found = find_from-first fuel d h none as' m bs whole.linked other enough in
    let (l', h', done, rest) = unlink-IsList l h as' m d bs whole in
    (l', h', rw (whole.at_head, found, done) refl, rest)
