-- ===== src/Dlink/Edits.antt =====
-- `dlink_delete` takes a cell out of a list.
use omega_services.Prelude.{
  ℕ, suc, ◌+◌, ◌≡◌, refl, sym, ap, ◌∙◌, none, some, List, [], ◌∷◌, ◌++◌, length, length-append, pos,
  pred_ℤ, arith, All,
}
use omega_services.Network.{Ptr}
use omega_services.Dlink.{Heap, DlinkList, dlink_delete}
use omega_services.Dlink.Cells.{
  Cell, first_of, last_of, Apart, IsList, IsSeg-same, IsSeg-split, IsSeg-append, first_of-append,
  last_of-append, AreDistinct-append, AreDistinct-remove,
}
use omega_services.Dlink.Links.{SameOff, bridge_next-IsSeg, bridge_prev-IsSeg}

pub same_at :
    (h h' : Heap) (as' bs : List Cell)
    → SameOff h h' as'
    → All (λ (c : Cell). Apart c.0 as') bs
    → All (λ (c : Cell). h' c.0 ≡ h c.0) bs
same_at h h' as' [] same off = tt
same_at h h' as' (b ∷ bs) same off = (same b.0 off.0, same_at h h' as' bs same off.1)

pub drop_first :
    (x : Cell) (bs as' : List Cell)
    → All (λ (c : Cell). Apart c.0 (x ∷ bs)) as'
    → All (λ (c : Cell). Apart c.0 bs) as'
drop_first x bs [] h = tt
drop_first x bs (a ∷ as') h = (h.0.1, drop_first x bs as' h.1)

pub count_removed :
    (as' : List Cell) (c : Cell) (bs : List Cell)
    → pred_ℤ (pos (length (as' ++ c ∷ bs))) ≡ pos (length (as' ++ bs))
count_removed as' c bs =
    ap pred_ℤ (ap pos (length-append as' (c ∷ bs) ∙ more (length as') (length bs)))
    ∙ ap pos (sym (length-append as' bs))
  where
    more : (m n : ℕ) → m + suc n ≡ suc (m + n)
    more m n = omega arith

-- `dlink_delete` of a node of the list returns, and the list then has the other cells, in order.
pub dlink_delete-IsList :
    (l : DlinkList) (h : Heap) (as' : List Cell) (m : Ptr) (d : ℕ) (bs : List Cell)
    → IsList h l (as' ++ (m, d) ∷ bs)
    → (l' : DlinkList) × (h' : Heap) × (dlink_delete m l h ≡ some (l', h'))
      × IsList h' l' (as' ++ bs)
unfolding dlink_delete
dlink_delete-IsList l h as' m d bs whole =
    let (left, right) = IsSeg-split h none as' ((m, d) ∷ bs) none whole.linked in
    let (dis_l, dis_r, off_l, off_r) = AreDistinct-append as' ((m, d) ∷ bs) whole.distinct in
    let (l1, h1, done1, seg1, same1, head1, tail1, count1) =
      bridge_next-IsSeg l h as' (some m) (first_of bs none) left dis_l
        (whole.at_head ∙ first_of-append as' ((m, d) ∷ bs) none) in
    let there1 = same1 m off_l.0 ∙ right.0 in
    let right1 = IsSeg-same h h1 (some m) bs none (same_at h h1 as' bs same1 off_l.1) right.1 in
    let (l2, h2, done2, seg2, same2, tail2, head2, count2) =
      bridge_prev-IsSeg l1 h1 bs (some m) (last_of none as') right1 dis_r.1
        (tail1 ∙ whole.at_tail ∙ last_of-append none as' ((m, d) ∷ bs)) in
    let left2 =
      IsSeg-same h1 h2 none as' (first_of bs none)
        (same_at h1 h2 bs as' same2 (drop_first (m, d) bs as' off_r)) seg1 in
    (
      record l2 { count = pred_ℤ l2.count },
      h2,
      rw (right.0, done1, there1, done2) refl,
      record {
        at_head = head2 ∙ head1 ∙ sym (first_of-append as' bs none);
        at_tail = tail2 ∙ sym (last_of-append none as' bs);
        counted = ap pred_ℤ (count2 ∙ count1 ∙ whole.counted) ∙ count_removed as' (m, d) bs;
        linked = IsSeg-append h2 none as' bs none left2 seg2;
        distinct = AreDistinct-remove as' (m, d) bs whole.distinct;
      },
    )
