-- ===== src/Cmds/Table.antt =====
-- The table of commands under `AddCmd` and `DelCmd`.
use omega_services.Prelude.{
  ℕ, suc, ◌<◌, ◌≡◌, refl, ap, ◌∙◌, Bool, true, false, Option, none, some, List, [], ◌∷◌, ◌++◌,
  Bytes, length, length-append, ◌==◌, if◌then◌else◌, arith, pos, ℤ, ==_iff, Bool-cases, inl, inr,
}
use omega_services.Events.{Handler}
use omega_services.Tools.Hash.{hash_safe}
use omega_services.Network.{◌>>=◌}
use omega_services.Cmds.{
  CmdBase, CmdHash, CmdTable, open_slot, put_at, cmd_hash_key, eq_handler, new_entry, add_cmd,
  del_cmd, del_cmd_in, del_cmd_at, append_entry, without_cmd, unless_empty,
}

-- A list of the table is not empty, and `entry_cnt` is its length.
abbrev pub SlotIsCounted : Option CmdHash → Type 0
SlotIsCounted none = Unit
SlotIsCounted (some ch) = (ch.entry_cnt ≡ pos (length ch.commands)) × (0 < length ch.commands)

-- The tables that calls of `AddCmd` and `DelCmd` make, from the empty one, in any order.
pub data Built : CmdTable → Type 0 where
  start : Built (λ i. none)
  added :
      {t : CmdTable}
      → Built t
      → (left : CmdBase) (nick name : Bytes) (access : Option Bytes) (fnct hlp : Option Handler)
      → Built (add_cmd left nick name access fnct hlp t).1
  deleted :
      {t : CmdTable}
      → Built t
      → (nick : Bytes) (fnct : Option Handler) → Built (del_cmd nick fnct t)

shorter :
    (cb : CmdBase) (cbs : List CmdBase) (here : Bool) (r : Option (List CmdBase))
    {left : List CmdBase}
    → ((l : List CmdBase) → r ≡ some l → length cbs ≡ suc (length l))
    → (if here then some cbs else (r >>= λ l. some (cb ∷ l))) ≡ some left
    → length (cb ∷ cbs) ≡ suc (length left)
shorter cb cbs true r h e = ground arith
shorter cb cbs false none h e = ground arith
shorter cb cbs false (some l) h e = ground (arith, h l refl)

length-del_cmd_in :
    (fnct : Option Handler) (cbs : List CmdBase) {left : List CmdBase}
    → del_cmd_in fnct cbs ≡ some left
    → length cbs ≡ suc (length left)
unfolding del_cmd_in
length-del_cmd_in fnct [] h = ground arith
length-del_cmd_in fnct (cb ∷ cbs) h =
    shorter cb cbs (eq_handler cb.fnct fnct) (del_cmd_in fnct cbs)
      (λ l e. length-del_cmd_in fnct cbs e) h

unless_empty-IsCounted :
    (name : Bytes) (cs : List CmdBase) (n : ℤ)
    → n ≡ pos (length cs)
    → SlotIsCounted (unless_empty (record { name = name; commands = cs; entry_cnt = n }))
unless_empty-IsCounted name [] n e = rw e tt
unless_empty-IsCounted name (c ∷ cs) n e = rw e (refl, omega arith)

without_cmd-entry_cnt :
    (fnct : Option Handler) (ch : CmdHash)
    → SlotIsCounted (some ch)
    → (r : Option (List CmdBase)) → del_cmd_in fnct ch.commands ≡ r
    → (without_cmd ch r).entry_cnt ≡ pos (length (without_cmd ch r).commands)
without_cmd-entry_cnt fnct ch h none e = h.0
without_cmd-entry_cnt fnct ch h (some left) e = ground (arith, length-del_cmd_in fnct ch.commands e)

del_cmd_at-IsCounted :
    (fnct : Option Handler) (slot : Option CmdHash)
    → SlotIsCounted slot
    → SlotIsCounted (del_cmd_at fnct slot)
del_cmd_at-IsCounted fnct none h = tt
del_cmd_at-IsCounted fnct (some ch) h =
    unless_empty-IsCounted _ _ _ (without_cmd-entry_cnt fnct ch h _ refl)

append_entry-IsCounted :
    (nick : Bytes) (slot : Option CmdHash) (cb : CmdBase)
    → SlotIsCounted slot
    → SlotIsCounted (some (append_entry (open_slot nick slot) cb))
append_entry-IsCounted nick none cb h = ground arith
append_entry-IsCounted nick (some ch) cb h = ground (arith, length-append ch.commands (cb ∷ []))

put_at-IsCounted :
    (t : CmdTable) (k : ℕ) (slot : Option CmdHash)
    → SlotIsCounted slot
    → (i : ℕ) → SlotIsCounted (t i)
    → SlotIsCounted (put_at t k slot i)
put_at-IsCounted t k slot h i old = elim (Bool-cases (k == i)) [ inl e ↦ rw e h | inr e ↦ rw e old ]

-- However commands are added and deleted, no list in the table is empty, and the count of each list is
-- its length.
pub Built-IsCounted : {t : CmdTable} → Built t → (i : ℕ) → SlotIsCounted (t i)
unfolding add_cmd del_cmd
Built-IsCounted start i = tt
Built-IsCounted (added {t} b left nick name access fnct hlp) i =
    put_at-IsCounted t _ _ (append_entry-IsCounted nick (t _) _ (Built-IsCounted b _)) i
      (Built-IsCounted b i)
Built-IsCounted (deleted {t} b nick fnct) i =
    put_at-IsCounted t _ _ (del_cmd_at-IsCounted fnct (t _) (Built-IsCounted b _)) i
      (Built-IsCounted b i)

del_cmd_in-append :
    (f : Handler) (cbs : List CmdBase) (cb : CmdBase)
    → cb.fnct ≡ some f
    → del_cmd_in (some f) cbs ≡ none
    → del_cmd_in (some f) (cbs ++ cb ∷ []) ≡ some cbs
unfolding del_cmd_in
del_cmd_in-append f [] cb e h = rw e (ground arith)
del_cmd_in-append f (c ∷ cbs) cb e h =
    passed (eq_handler c.fnct (some f)) (del_cmd_in (some f) cbs) (del_cmd_in-append f cbs cb e) h
  where
    passed :
        (here : Bool) (r : Option (List CmdBase))
        → (r ≡ none → del_cmd_in (some f) (cbs ++ cb ∷ []) ≡ some cbs)
        → (if here then some cbs else (r >>= λ l. some (c ∷ l))) ≡ none
        → (if here
            then some (cbs ++ cb ∷ [])
            else (del_cmd_in (some f) (cbs ++ cb ∷ []) >>= λ l. some (c ∷ l)))
          ≡ some (c ∷ cbs)
    passed true r ih e = ground arith
    passed false none ih e = rw (ih refl)
    passed false (some l) ih e = ground arith

del_cmd_at-append_entry :
    (f : Handler) (nick : Bytes) (slot : Option CmdHash) (cb : CmdBase)
    → SlotIsCounted slot
    → cb.fnct ≡ some f
    → del_cmd_in (some f) (open_slot nick slot).commands ≡ none
    → del_cmd_at (some f) (some (append_entry (open_slot nick slot) cb)) ≡ slot
del_cmd_at-append_entry f nick none cb c e new = rw (del_cmd_in-append f [] cb e new) refl
del_cmd_at-append_entry f nick (some ch) cb c e new =
    rw (del_cmd_in-append f ch.commands cb e new) (ground arith)

-- `DelCmd` right after `AddCmd` of a function that no entry of the list has makes the table as it was.
pub del_cmd-add_cmd :
    {t : CmdTable}
    → Built t
    → (left : CmdBase) (nick name : Bytes) (access : Option Bytes) (f : Handler)
      (hlp : Option Handler)
    → del_cmd_in (some f) (open_slot nick (t (hash_safe nick cmd_hash_key))).commands ≡ none
    → (i : ℕ) → del_cmd nick (some f) (add_cmd left nick name access (some f) hlp t).1 i ≡ t i
unfolding add_cmd del_cmd
del_cmd-add_cmd {t} b left nick name access f hlp new i =
    elim (Bool-cases (hash_safe nick cmd_hash_key == i)) [
      | inl e ↦
          rw (e, (==_iff (hash_safe nick cmd_hash_key) _).1 refl)
            (del_cmd_at-append_entry f nick (t (hash_safe nick cmd_hash_key))
                (new_entry left name access (some f) hlp) (Built-IsCounted b _) refl new
              ∙ ap t ((==_iff _ _).0 e))
      | inr e ↦ rw e refl
    ]
