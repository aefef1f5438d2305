-- ===== src/Cmds/Runs.antt =====
-- Which command functions `do_cmd` runs, and for whom.
use omega_services.Prelude.{
  ℕ, ◌≡◌, refl, ap, ◌∙◌, Bool, true, false, ◌||◌, not, Option, none, some, List, [], ◌∷◌, ◌++◌,
  Bytes, All, codes, ◌==◌, ==_iff, arith, Bool-cases, inl, inr, ◌⊎◌, eq_nocase,
}
use omega_services.Events.{Handler}
use omega_services.Access.{Account, Access, check_access, set_access, fit, first_match}
use omega_services.Access.Grants.{may_hold, check_access-denied}
use omega_services.Tools.Hash.{hash_safe}
use omega_services.Cmds.{
  CmdBase, CmdHash, CmdTable, HelpTable, Effect, ran, notice, logged, limited_to, helped, log_line,
  cmd_hash_key, run_in, run_at, do_cmd, add_cmd, new_entry, open_slot,
}

-- The list that the client of that nick uses.
abbrev pub commands_of : CmdTable → Bytes → List CmdBase
commands_of t nick = (open_slot nick (t (hash_safe nick cmd_hash_key))).commands

-- No effect is a run of a command's function.
abbrev pub NoRun : Effect → Type 0
NoRun (ran f av) = ⊥
NoRun (notice text) = Unit
NoRun (limited_to level) = Unit
NoRun (helped h) = Unit
NoRun (logged cmd) = Unit

module _ (verbose : Bool) (u : Account) (cmd : Bytes) (av : List Bytes) where
  -- No entry runs for a user who lacks the level of each.
  run_in-denied :
      (cs : List CmdBase)
      → All (λ (c : CmdBase). check_access u (some c.access) ≡ false) cs
      → All NoRun (run_in verbose u cmd av cs).1
  unfolding run_in
  run_in-denied [] h = tt
  run_in-denied (c ∷ cs) h = elim (Bool-cases (eq_nocase c.name cmd)) [
    | inl e ↦ rw (e, h.0) (tt, tt)
    | inr e ↦ rw e (run_in-denied cs h.1)
  ]

  -- The entries before the first one of that name are passed over.
  run_in-append :
      (cs : List CmdBase) (c : CmdBase) (f : Handler)
      → All (λ (d : CmdBase). eq_nocase d.name cmd ≡ false) cs
      → eq_nocase c.name cmd ≡ true
      → check_access u (some c.access) ≡ true
      → c.fnct ≡ some f
      → run_in verbose u cmd av (cs ++ c ∷ []) ≡ (0, ran f av ∷ log_line (verbose || c.log) cmd)
  unfolding run_in
  run_in-append [] c f h name level e = rw (name, level, e)
  run_in-append (d ∷ cs) c f h name level e = rw (h.0) (run_in-append cs c f h.1 name level e)

-- A command level that has a byte, which is not the "u" of every user.
abbrev pub asks : Bytes → Bool
asks [] = false
asks (x ∷ level) = not (x == b'u')

run_at-denied :
    (verbose : Bool) (u : Account) (cmd : Bytes) (av : List Bytes) (nick : Bytes)
    (slot : Option CmdHash)
    → All (λ (c : CmdBase). check_access u (some c.access) ≡ false) (open_slot nick slot).commands
    → All NoRun (run_at verbose u cmd av slot).1
run_at-denied verbose u cmd av nick none h = tt
run_at-denied verbose u cmd av nick (some ch) h = run_in-denied verbose u cmd av ch.commands h

module _ (operonly : Bool) (accesslist : List Access) (u : Account) (h : u.service ≡ false)
    (no_entry : (may_hold operonly u ≡ false) ⊎ (first_match u accesslist ≡ none)) where
  asks-denied :
      (level : Bytes)
      → asks level ≡ true
      → check_access (set_access operonly accesslist u).0 (some level) ≡ false
  asks-denied [] e = absurd (ground arith)
  asks-denied (x ∷ level) e =
      check_access-denied operonly accesslist u x level h no_entry ∙ ground arith

  All-denied :
      (cs : List CmdBase)
      → All (λ (c : CmdBase). asks c.access ≡ true) cs
      → All
          (λ (c : CmdBase).
            check_access (set_access operonly accesslist u).0 (some c.access) ≡ false)
          cs
  All-denied [] e = tt
  All-denied (c ∷ cs) e = (asks-denied c.access e.0, All-denied cs e.1)

  -- A user whom `setAccess` has given no entry of the access list cannot make a client of the services
  -- run any command, but for HELP, where every entry for the client asks for a flag other than "u".
  pub do_cmd-set_access :
      (verbose : Bool) (t : CmdTable) (ht : HelpTable) (cmd nick : Bytes) (av : List Bytes)
      → eq_nocase cmd (codes "HELP") ≡ false
      → All (λ (c : CmdBase). asks c.access ≡ true) (commands_of t nick)
      → (rc : ℕ) × (es : List Effect) × (do_cmd verbose t ht cmd nick
            (set_access operonly accesslist u).0
            av
          ≡ some (rc, es))
        × All NoRun es
  unfolding do_cmd
  do_cmd-set_access verbose t ht cmd nick av no_help all =
      let r : ℕ × List Effect =
        run_at verbose (set_access operonly accesslist u).0 cmd av
          (t (hash_safe nick cmd_hash_key)) in
      (
        r.0,
        r.1,
        rw no_help,
        run_at-denied verbose (set_access operonly accesslist u).0 cmd av nick
            (t (hash_safe nick cmd_hash_key)) (All-denied _ all),
      )

-- A command that `AddCmd` has added with a level and a function is the one that `do_cmd` runs, for a
-- user who has the level as far as it fits, if its name as far as it fits is the first of the client's
-- list that is equal to the word up to case, and the word is not HELP.
pub do_cmd-add_cmd :
    (verbose : Bool) (left : CmdBase) (t : CmdTable) (ht : HelpTable) (nick name level : Bytes)
    (f : Handler) (hlp : Option Handler) (cmd : Bytes) (u : Account) (av : List Bytes)
    → eq_nocase cmd (codes "HELP") ≡ false
    → All (λ (d : CmdBase). eq_nocase d.name cmd ≡ false) (commands_of t nick)
    → eq_nocase (fit 50 name) cmd ≡ true
    → check_access u (some (fit 12 level)) ≡ true
    → do_cmd verbose (add_cmd left nick name (some level) (some f) hlp t).1 ht cmd nick u av
      ≡ some (0, ran f av ∷ log_line (verbose || left.log) cmd)
unfolding do_cmd add_cmd
do_cmd-add_cmd verbose left t ht nick name level f hlp cmd u av no_help others here may =
    rw (no_help, (==_iff (hash_safe nick cmd_hash_key) _).1 refl)
      (ap some (
        run_in-append verbose u cmd av (commands_of t nick)
          (new_entry left name (some level) (some f) hlp) f others here may refl))
