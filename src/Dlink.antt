-- ===== src/Dlink.antt =====
-- src/dlink.c: doubly linked lists, on a heap of nodes. `none` as a result is a read or a write through
-- NULL or a dangling pointer, or a walk that runs out of fuel. The counters of nodes in use are left
-- out.
pub mod Cells
pub mod Links
pub mod Edits
pub mod Finds
pub mod Tails
pub mod Inserts
use omega_services.Prelude.{
  ℕ, zero, suc, Bool, true, false, Option, none, some, ◌==◌, if◌then◌else◌, ℤ, pos, suc_ℤ, pred_ℤ,
}
use omega_services.Network.{Ptr, update, ◌>>=◌}

-- `dlink_node`
pub record Node : Type 0 where
  pub data_of : ℕ
  pub next : Option Ptr
  pub prev : Option Ptr

abbrev pub Heap : Type 0
Heap = Ptr → Option Node

-- `dlink_list`
pub record DlinkList : Type 0 where
  pub head : Option Ptr
  pub tail : Option Ptr
  pub count : ℤ

-- `p->next = v` and `p->prev = v`
unfoldable pub set_next : Ptr → Option Ptr → Heap → Option Heap
set_next p v h = h p >>= λ n. some (update h p (some (record n { next = v })))

unfoldable pub set_prev : Ptr → Option Ptr → Heap → Option Heap
set_prev p v h = h p >>= λ n. some (update h p (some (record n { prev = v })))

-- The three assignments to the fields of `m`.
unfoldable pub fill : Ptr → Node → Heap → Option Heap
fill m node h = h m >>= λ old. some (update h m (some node))

-- `dlink_add`
unfoldable pub dlink_add : ℕ → Ptr → DlinkList → Heap → Option (DlinkList × Heap)
unfolding set_prev fill
dlink_add d m l h = fill m (record { data_of = d; next = l.head; prev = none }) h >>= λ h1.
    elim l.head [
      | some first ↦ set_prev first (some m) h1 >>= λ h2.
          some (record l { head = some m; count = suc_ℤ l.count }, h2)
      | none ↦ some (
        record {
          head = some m;
          tail = elim l.tail [ none ↦ some m | some last ↦ some last ];
          count = suc_ℤ l.count;
        },
        h1,
      )
    ]

abbrev pub is_head : Ptr → Option Ptr → Bool
is_head b none = false
is_head b (some p) = b == p

-- `m->data = data`
unfoldable pub set_data : Ptr → ℕ → Heap → Option Heap
set_data m d h = h m >>= λ n. some (update h m (some (record n { data_of = d })))

-- The assignments of `dlink_add_before` to the links, where `b` is not the first; `b->prev` is read twice.
unfoldable pub link_before : Ptr → Ptr → Heap → Option Heap
unfolding set_next set_prev
link_before b m h = h b >>= λ n. n.prev >>= λ p. set_next p (some m) h >>= λ h1.
    h1 b >>= λ n1. set_prev m n1.prev h1 >>= λ h2. set_prev b (some m) h2 >>= set_next m (some b)

-- `dlink_add_before`
unfoldable pub dlink_add_before : Ptr → ℕ → Ptr → DlinkList → Heap → Option (DlinkList × Heap)
unfolding set_data link_before dlink_add
dlink_add_before b d m l h =
    if is_head b l.head
    then dlink_add d m l h
    else (set_data m d h >>= link_before b m >>= λ h'.
        some (record l { count = suc_ℤ l.count }, h'))

-- `dlink_add_tail` of a node that is there.
unfoldable pub dlink_add_tail : ℕ → Ptr → DlinkList → Heap → Option (DlinkList × Heap)
unfolding set_next fill
dlink_add_tail d m l h = fill m (record { data_of = d; next = none; prev = l.tail }) h >>= λ h1.
    elim l.head [
      | none ↦ some (record { head = some m; tail = some m; count = suc_ℤ l.count }, h1)
      | some first ↦ elim l.tail [
        | none ↦ some (record l { tail = some m; count = suc_ℤ l.count }, h1)
        | some last ↦ set_next last (some m) h1 >>= λ h2.
            some (record l { tail = some m; count = suc_ℤ l.count }, h2)
      ]
    ]

-- `if (m->prev == NULL) list->head = m->next; else m->prev->next = m->next;`
unfoldable pub bridge_next : Option Ptr → Option Ptr → DlinkList → Heap → Option (DlinkList × Heap)
unfolding set_next
bridge_next none v l h = some (record l { head = v }, h)
bridge_next (some p) v l h = set_next p v h >>= λ h1. some (l, h1)

-- `if (m->next == NULL) list->tail = m->prev; else m->next->prev = m->prev;`
unfoldable pub bridge_prev : Option Ptr → Option Ptr → DlinkList → Heap → Option (DlinkList × Heap)
unfolding set_prev
bridge_prev none v l h = some (record l { tail = v }, h)
bridge_prev (some p) v l h = set_prev p v h >>= λ h1. some (l, h1)

-- `dlink_delete`; `m->next` and `m->prev` are read again after the first bridge.
unfoldable pub dlink_delete : Ptr → DlinkList → Heap → Option (DlinkList × Heap)
unfolding bridge_next bridge_prev
dlink_delete m l h = h m >>= λ n. bridge_next n.prev n.next l h >>= λ r1. r1.1 m >>= λ n1.
    bridge_prev n1.next n1.prev r1.0 r1.1 >>= λ r2.
    some (record r2.0 { count = pred_ℤ r2.0.count }, r2.1)

-- The walk of `dlink_find`, from `ptr`.
unfoldable pub find_from : ℕ → ℕ → Option Ptr → Heap → Option (Option Ptr)
find_from fuel d none h = some none
find_from zero d (some p) h = none
find_from (suc fuel) d (some p) h =
    let rest = λ (n : Node). find_from fuel d n.next h in
    h p >>= λ n. if n.data_of == d then some (some p) else rest n

-- `dlink_find`
unfoldable pub dlink_find : ℕ → ℕ → DlinkList → Heap → Option (Option Ptr)
unfolding find_from
dlink_find fuel d l h = find_from fuel d l.head h

-- `ptr->next = ptr->prev = NULL;`
unfoldable pub clear_links : Ptr → Heap → Option Heap
unfolding set_next set_prev
clear_links p h = set_prev p none h >>= set_next p none

-- What `dlink_find_delete` does to the node that it finds: the two bridges, the last link first.
unfoldable pub unlink : Ptr → DlinkList → Heap → Option (DlinkList × Heap)
unfolding bridge_prev bridge_next clear_links
unlink p l h = h p >>= λ n. bridge_prev n.next n.prev l h >>= λ r1. r1.1 p >>= λ n1.
    bridge_next n1.prev n1.next r1.0 r1.1 >>= λ r2.
    clear_links p r2.1 >>= λ h3. some (record r2.0 { count = pred_ℤ r2.0.count }, h3)

-- `dlink_find_delete`
unfoldable pub dlink_find_delete : ℕ → ℕ → DlinkList → Heap → Option (Option Ptr × DlinkList × Heap)
unfolding dlink_find unlink
dlink_find_delete fuel d l h = dlink_find fuel d l h >>= λ r. elim r [
  | none ↦ some (none, l, h)
  | some p ↦ unlink p l h >>= λ r. some (some p, r.0, r.1)
]
