-- ===== src/Dlink/Tails.antt =====
-- `dlink_add_tail` puts a node behind the cells of a list, and `dlink_add` before them.
use omega_services.Prelude.{
  ℕ, ◌≡◌, refl, sym, ap, ◌∙◌, Option, none, some, List, [], ◌∷◌, ◌++◌, length, length-append, pos,
  suc_ℤ, arith, All,
}
use omega_services.Network.{Ptr, update, ◌>>=◌}
use omega_services.Dlink.{
  Node, Heap, DlinkList, set_next, set_prev, fill, dlink_add, dlink_add_tail,
}
use omega_services.Dlink.Cells.{
  Cell, first_of, Apart, IsList, IsSeg-same, IsSeg-append, last_of-append, AreDistinct-last,
}
use omega_services.Dlink.Links.{set_next-last}

pub off_self :
    (m : Ptr) (h : Heap) (v : Option Node) (cs : List Cell)
    → Apart m cs
    → All (λ (c : Cell). update h m v c.0 ≡ h c.0) cs
off_self m h v [] off = tt
off_self m h v (c ∷ cs) off = (ground arith, off_self m h v cs off.1)

pub written : (m : Ptr) (h : Heap) (v : Option Node) → update h m v m ≡ v
written m h v = ground arith

count_added : (cs : List Cell) (c : Cell) → suc_ℤ (pos (length cs)) ≡ pos (length (cs ++ c ∷ []))
count_added cs c = ap pos (omega (arith, length-append cs (c ∷ [])))

add_step :
    (l : DlinkList) (m : Ptr) (h1 h2 : Heap) (first tail : Option Ptr) (q : Ptr) {p : Ptr}
    → first ≡ some p
    → tail ≡ some q
    → set_next q (some m) h1 ≡ some h2
    → ◌≡◌ {A = Option (DlinkList × Heap)}
        (elim first [
          | none ↦ some (record { head = some m; tail = some m; count = suc_ℤ l.count }, h1)
          | some x ↦ elim tail [
            | none ↦ some (record l { tail = some m; count = suc_ℤ l.count }, h1)
            | some last ↦ set_next last (some m) h1 >>= λ h2.
                some (record l { tail = some m; count = suc_ℤ l.count }, h2)
          ]
        ])
        (some (record l { tail = some m; count = suc_ℤ l.count }, h2))
add_step l m h1 h2 first tail q at last done = rw (at, last, done) refl

-- `dlink_add_tail` of a node that is on the heap, but not in the list, returns, and the list then has
-- that node at its end.
pub dlink_add_tail-IsList :
    (l : DlinkList) (h : Heap) (cs : List Cell) (m : Ptr) (d : ℕ) (old : Node)
    → IsList h l cs
    → h m ≡ some old
    → Apart m cs
    → (l' : DlinkList) × (h' : Heap) × (dlink_add_tail d m l h ≡ some (l', h'))
      × IsList h' l' (cs ++ (m, d) ∷ [])
unfolding dlink_add_tail fill
dlink_add_tail-IsList l h [] m d old whole there new = (
  record { head = some m; tail = some m; count = pos 1 },
  update h m (some (record { data_of = d; next = none; prev = none })),
  rw (there, whole.at_head, whole.at_tail, whole.counted) refl,
  record {
    at_head = refl;
    at_tail = refl;
    counted = refl;
    linked = (ground arith, tt);
    distinct = (tt, tt);
  },
)
dlink_add_tail-IsList l h ((p, e) ∷ cs) m d old whole there new =
    let cells : List Cell = (p, e) ∷ cs in
    let v = some (record { data_of = d; next = none; prev = l.tail }) in
    let h1 = update h m v in
    let seg1 = IsSeg-same h h1 none cells none (off_self m h v cells new) whole.linked in
    let (q, h2, last, done, seg2, same) =
      set_next-last h1 none p e cs none (some m) seg1 whole.distinct in
    (
      record l { tail = some m; count = suc_ℤ l.count },
      h2,
      rw there (add_step l m h1 h2 l.head l.tail q whole.at_head (whole.at_tail ∙ last) done),
      record {
        at_head = whole.at_head;
        at_tail = sym (last_of-append none cells ((m, d) ∷ []));
        counted = ap suc_ℤ whole.counted ∙ count_added cells (m, d);
        linked = IsSeg-append h2 none cells ((m, d) ∷ []) none seg2 (
          same m new
              ∙ written m h v
              ∙ ap (λ (t : Option Ptr). some (record { data_of = d; next = none; prev = t }))
                  whole.at_tail,
          tt,
        );
        distinct = AreDistinct-last cells m d whole.distinct new;
      },
    )

-- `dlink_add` of a node that is on the heap, but not in the list, returns, and the list then has that
-- node at its front.
pub dlink_add-IsList :
    (l : DlinkList) (h : Heap) (cs : List Cell) (m : Ptr) (d : ℕ) (old : Node)
    → IsList h l cs
    → h m ≡ some old
    → Apart m cs
    → (l' : DlinkList) × (h' : Heap) × (dlink_add d m l h ≡ some (l', h'))
      × IsList h' l' ((m, d) ∷ cs)
unfolding dlink_add fill set_prev
dlink_add-IsList l h [] m d old whole there new = (
  record { head = some m; tail = some m; count = pos 1 },
  update h m (some (record { data_of = d; next = none; prev = none })),
  rw (there, whole.at_head, whole.at_tail, whole.counted, whole.at_head) refl,
  record {
    at_head = refl;
    at_tail = refl;
    counted = refl;
    linked = (ground arith, tt);
    distinct = (tt, tt);
  },
)
dlink_add-IsList l h ((p, e) ∷ cs) m d old whole there new =
    let v = some (record { data_of = d; next = some p; prev = none }) in
    let h1 = update h m v in
    let w = some (record { data_of = e; next = first_of cs none; prev = some m }) in
    let there1 = off_self m h v ((p, e) ∷ cs) new in
    let first1 = there1.0 ∙ whole.linked.0 in
    let rest1 = IsSeg-same h h1 (some p) cs none there1.1 whole.linked.1 in
    (
      record { head = some m; tail = l.tail; count = suc_ℤ l.count },
      update h1 p w,
      rw (there, whole.at_head, whole.at_head, first1) refl,
      record {
        at_head = refl;
        at_tail = whole.at_tail;
        counted = ap suc_ℤ whole.counted;
        linked = (
          ground arith,
          (
            written p h1 w,
            IsSeg-same h1 (update h1 p w) (some p) cs none (off_self p h1 w cs whole.distinct.0)
                rest1,
          ),
        );
        distinct = (new, whole.distinct);
      },
    )
