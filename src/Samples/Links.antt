-- ===== src/Samples/Links.antt =====
-- Doubly linked lists.
use omega_services.Prelude.{◌≡◌, refl, none, some, [], ◌∷◌, ◌==◌, if◌then◌else◌, pos, arith}
use omega_services.Dlink.{
  Heap, DlinkList, dlink_add_before, dlink_add_tail, dlink_delete, dlink_find_delete,
}
use omega_services.Dlink.Cells.{IsList}
use omega_services.Dlink.Edits.{dlink_delete-IsList}
use omega_services.Dlink.Finds.{dlink_find_delete-IsList}
use omega_services.Dlink.Inserts.{dlink_add_before-IsList}
use omega_services.Dlink.Tails.{dlink_add_tail-IsList}

-- Nodes 1 and 2 hold 70 and 80; node 3 is in no list.
abbrev nodes : Heap
nodes p =
    if p == 1
    then some (record { data_of = 70; next = some 2; prev = none })
    else if p == 2
    then some (record { data_of = 80; next = none; prev = some 1 })
    else if p == 3
    then some (record { data_of = 0; next = none; prev = none })
    else none

abbrev two : DlinkList
two = record { head = some 1; tail = some 2; count = pos 2 }

two-IsList : IsList nodes two ((1, 70) ∷ (2, 80) ∷ [])
two-IsList = record {
  at_head = refl;
  at_tail = refl;
  counted = refl;
  linked = (refl, (refl, tt));
  distinct = ((refl, tt), (tt, tt));
}

dlink_delete-IsList_example :
    (l' : DlinkList) × (h' : Heap) × (dlink_delete 2 two nodes ≡ some (l', h'))
    × IsList h' l' ((1, 70) ∷ [])
dlink_delete-IsList_example = dlink_delete-IsList two nodes ((1, 70) ∷ []) 2 80 [] two-IsList

dlink_find_delete-IsList_example :
    (l' : DlinkList) × (h' : Heap) × (dlink_find_delete 2 80 two nodes ≡ some (some 2, l', h'))
    × IsList h' l' ((1, 70) ∷ [])
dlink_find_delete-IsList_example =
    dlink_find_delete-IsList 2 two nodes ((1, 70) ∷ []) 2 80 [] two-IsList (refl, tt) (omega arith)

dlink_add_before-IsList_example :
    (l' : DlinkList) × (h' : Heap) × (dlink_add_before 2 90 3 two nodes ≡ some (l', h'))
    × IsList h' l' ((1, 70) ∷ (3, 90) ∷ (2, 80) ∷ [])
dlink_add_before-IsList_example =
    dlink_add_before-IsList two nodes ((1, 70) ∷ []) 2 80 [] 3 90
      (record { data_of = 0; next = none; prev = none }) two-IsList refl (refl, (refl, tt))

dlink_add_tail-IsList_example :
    (l' : DlinkList) × (h' : Heap) × (dlink_add_tail 90 3 two nodes ≡ some (l', h'))
    × IsList h' l' ((1, 70) ∷ (2, 80) ∷ (3, 90) ∷ [])
dlink_add_tail-IsList_example =
    dlink_add_tail-IsList two nodes ((1, 70) ∷ (2, 80) ∷ []) 3 90
      (record { data_of = 0; next = none; prev = none }) two-IsList refl (refl, (refl, tt))
