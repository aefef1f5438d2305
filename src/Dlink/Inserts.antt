-- ===== src/Dlink/Inserts.antt =====
-- `dlink_add_before` puts a node before a cell of a list.
use omega_services.Prelude.{
  ℕ, ◌≡◌, refl, sym, ap, ◌∙◌, false, true, Option, none, some, List, [], ◌∷◌, ◌++◌, length,
  length-append, pos, suc_ℤ, arith, All, ◌==◌,
}
use omega_services.Network.{Ptr, update}
use omega_services.Dlink.{
  dlink_add, is_head, Node, Heap, DlinkList, set_next, set_prev, set_data, link_before,
  dlink_add_before,
}
use omega_services.Dlink.Cells.{
  Cell, Apart, AreDistinct, IsList, IsSeg-same, IsSeg-split, IsSeg-append, last_of-append,
  AreDistinct-append, Apart-join, Apart-append, apart_sym,
}
use omega_services.Dlink.Edits.{same_at}
use omega_services.Dlink.Links.{set_next-last}
use omega_services.Dlink.Tails.{off_self, written, dlink_add-IsList}

-- A cell that is not in a list can stand anywhere in it.
AreDistinct-insert :
    (as' : List Cell) (m : Ptr) (d : ℕ) (bs : List Cell)
    → Apart m (as' ++ bs)
    → AreDistinct (as' ++ bs)
    → AreDistinct (as' ++ (m, d) ∷ bs)
AreDistinct-insert [] m d bs new dis = (new, dis)
AreDistinct-insert ((p, x) ∷ as') m d bs new dis =
    let (near, far) = Apart-append p as' bs dis.0 in
    (
      Apart-join p as' ((m, d) ∷ bs) near (apart_sym m p new.0, far),
      AreDistinct-insert as' m d bs new.1 dis.1,
    )

count_inserted :
    (as' : List Cell) (c : Cell) (bs : List Cell)
    → suc_ℤ (pos (length (as' ++ bs))) ≡ pos (length (as' ++ c ∷ bs))
count_inserted as' c bs = ap pos (omega (arith, length-append as' bs, length-append as' (c ∷ bs)))

-- Two nodes are all that differs.
off_two :
    (m b : Ptr) (h h' : Heap) (cs : List Cell)
    → ((r : Ptr) → (m == r) ≡ false → (b == r) ≡ false → h' r ≡ h r)
    → Apart m cs
    → Apart b cs
    → All (λ (c : Cell). h' c.0 ≡ h c.0) cs
off_two m b h h' [] same off_m off_b = tt
off_two m b h h' (c ∷ cs) same off_m off_b =
    (same c.0 off_m.0 off_b.0, off_two m b h h' cs same off_m.1 off_b.1)

set_prev_lem :
    (h : Heap) (p : Ptr) (v : Option Ptr) (n : Node)
    → h p ≡ some n
    → set_prev p v h ≡ some (update h p (some (record n { prev = v })))
unfolding set_prev
set_prev_lem h p v n there = rw there refl

set_next_lem :
    (h : Heap) (p : Ptr) (v : Option Ptr) (n : Node)
    → h p ≡ some n
    → set_next p v h ≡ some (update h p (some (record n { next = v })))
unfolding set_next
set_next_lem h p v n there = rw there refl

-- What the links are after `link_before`, where the last cell before `b` is at `q`.
link_before-links :
    (h h1 : Heap) (b m q : Ptr) (n k : Node)
    → h b ≡ some n
    → n.prev ≡ some q
    → h m ≡ some k
    → set_next q (some m) h ≡ some h1
    → h1 b ≡ some n
    → h1 m ≡ some k
    → (m == b) ≡ false
    → (b == m) ≡ false
    → (h' : Heap) × (link_before b m h ≡ some h')
      × (h' m ≡ some (record k { next = some b; prev = some q }))
      × (h' b ≡ some (record n { prev = some m }))
      × ((r : Ptr) → (m == r) ≡ false → (b == r) ≡ false → h' r ≡ h1 r)
unfolding link_before
link_before-links h h1 b m q n k there back old done there1 old1 apart apart' =
    let h2 = update h1 m (some (record k { prev = some q })) in
    let h3 = update h2 b (some (record n { prev = some m })) in
    let h4 = update h3 m (some (record k { next = some b; prev = some q })) in
    let there2 : h2 b ≡ some n = rw apart there1 in
    let here3 : h3 m ≡ some (record k { prev = some q }) = ground arith in
    (
      h4,
      rw
          (
            there,
            back,
            done,
            there1,
            back,
            set_prev_lem h1 m (some q) k old1,
            set_prev_lem h2 b (some m) n there2,
            set_next_lem h3 m (some b) (record k { prev = some q }) here3,
          )
          refl,
      ground arith,
      ground arith,
      λ r off_m off_b. rw (off_m, off_b) refl,
    )

same_address : (p : ℕ) → (p == p) ≡ true
same_address p = ground arith

add_first :
    (b : Ptr) (d : ℕ) (m : Ptr) (l : DlinkList) (h : Heap)
    → is_head b l.head ≡ true
    → dlink_add_before b d m l h ≡ dlink_add d m l h
unfolding dlink_add_before
add_first b d m l h same = rw same refl

-- `dlink_add_before` of a node that is on the heap, but not in the list, returns, and the list then has
-- that node just before the given one, wherever this stands.
pub dlink_add_before-IsList :
    (l : DlinkList) (h : Heap) (as' : List Cell) (b : Ptr) (e : ℕ) (bs : List Cell) (m : Ptr)
    (d : ℕ) (old : Node)
    → IsList h l (as' ++ (b, e) ∷ bs)
    → h m ≡ some old
    → Apart m (as' ++ (b, e) ∷ bs)
    → (l' : DlinkList) × (h' : Heap) × (dlink_add_before b d m l h ≡ some (l', h'))
      × IsList h' l' (as' ++ (m, d) ∷ (b, e) ∷ bs)
unfolding dlink_add_before set_data
dlink_add_before-IsList l h [] b e bs m d old whole there new =
    let (l', h', done, after) = dlink_add-IsList l h ((b, e) ∷ bs) m d old whole there new in
    (l', h', add_first b d m l h (rw (whole.at_head, same_address b) refl) ∙ done, after)
dlink_add_before-IsList l h ((p, x) ∷ as') b e bs m d old whole there new =
    let front : List Cell = (p, x) ∷ as' in
    let back : List Cell = (b, e) ∷ bs in
    let k = record old { data_of = d } in
    let h0 = update h m (some k) in
    let (new_l, new_r) = Apart-append m front back new in
    let (dis_l, dis_r, off_l, off_r) = AreDistinct-append front back whole.distinct in
    let seg0 =
      IsSeg-same h h0 none (front ++ back) none (off_self m h (some k) (front ++ back) new)
        whole.linked in
    let (left, right) = IsSeg-split h0 none front back none seg0 in
    let (q, h1, last, done, seg1, same1) =
      set_next-last h0 none p x as' (some b) (some m) left dis_l in
    let (h2, linked, here_m, here_b, same2) =
      link_before-links h0 h1 b m q _ k right.0 last (written m h (some k)) done
        (same1 b off_l.0 ∙ right.0) (same1 m new_l ∙ written m h (some k)) new_r.0
        (apart_sym m b new_r.0) in
    (
      record l { count = suc_ℤ l.count },
      h2,
      rw
          (
            whole.at_head,
            apart_sym p b (Apart-append p as' back whole.distinct.0).1.0,
            there,
            linked,
          )
          refl,
      record {
        at_head = whole.at_head;
        at_tail =
            whole.at_tail
            ∙ last_of-append none front back
            ∙ sym (last_of-append none front ((m, d) ∷ back));
        counted = ap suc_ℤ whole.counted ∙ count_inserted front (m, d) back;
        linked =
            IsSeg-append h2 none front ((m, d) ∷ back) none
              (IsSeg-same h1 h2 none front (some m) (off_two m b h1 h2 front same2 new_l off_l.0)
                seg1)
              (
                here_m
                    ∙ ap
                        (λ (t : Option Ptr). some (record { data_of = d; next = some b; prev = t }))
                        (sym last),
                (
                  here_b,
                  IsSeg-same h1 h2 (some b) bs none (off_two m b h1 h2 bs same2 new_r.1 dis_r.0) (
                      IsSeg-same h0 h1 (some b) bs none (same_at h0 h1 front bs same1 off_l.1)
                        right.1),
                ),
              );
        distinct = AreDistinct-insert front m d back new whole.distinct;
      },
    )
