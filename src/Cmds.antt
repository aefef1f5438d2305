-- ===== src/Cmds.antt =====
-- src/cmds.c: the commands that users give to the clients of the services, and the help on them. The
-- table has 1024 lists, selected by the hash of the client's nick. Functions are named by their
-- addresses; what a command function itself does is outside this model. The module field of an entry
-- and the log are left out.
pub mod Table
pub mod Runs
pub mod Words
use omega_services.Prelude.{
  ℕ, zero, suc, ◌+◌, Bool, true, false, ◌&&◌, ◌||◌, not, Option, none, some, List, [], ◌∷◌, ◌++◌,
  Bytes, codes, length, get_elem?, ltb, ◌==◌, eq_nocase, if◌then◌else◌, ℤ, pos, suc_ℤ, pred_ℤ,
  is_zero,
}
use omega_services.Events.{Handler}
use omega_services.Access.{Account, check_access, fit}
use omega_services.Tools.Hash.{hash_safe}
use omega_services.Network.{◌>>=◌}

-- `CmdBase`; a NULL function is `none`.
pub record CmdBase : Type 0 where
  pub name : Bytes
  pub access : Bytes
  pub log : Bool
  pub fnct : Option Handler
  pub ext_help : Option Handler

-- `struct cmdhash_`; its list of short help is never used.
pub record CmdHash : Type 0 where
  pub name : Bytes
  pub commands : List CmdBase
  pub entry_cnt : ℤ

-- `UserCmdHash`
abbrev pub CmdTable : Type 0
CmdTable = ℕ → Option CmdHash

-- `cmd_help`
abbrev pub HelpTable : Type 0
HelpTable = ℕ → List (Option Handler)

abbrev pub cmd_hash_key : ℕ
cmd_hash_key = 1024

abbrev pub put_at {ℓ} : {A : Type ℓ} → (ℕ → A) → ℕ → A → ℕ → A
put_at t i a j = if i == j then a else t j

-- A function argument that is given is stored; if none is, the field keeps what `malloc` has left.
abbrev pub store : Option Handler → Option Handler → Option Handler
store none left = left
store (some f) left = some f

abbrev pub store_access : Option Bytes → Bytes → Bytes
store_access none left = left
store_access (some level) left = fit 12 level

abbrev pub append_entry : CmdHash → CmdBase → CmdHash
append_entry ch cb = record ch { commands = ch.commands ++ cb ∷ []; entry_cnt = suc_ℤ ch.entry_cnt }

abbrev pub open_slot : Bytes → Option CmdHash → CmdHash
open_slot nick none = record { name = fit 30 nick; commands = []; entry_cnt = pos 0 }
open_slot nick (some ch) = ch

-- The entry that `AddCmd` fills, in a block that held `left`. Its argument `log` is not used.
abbrev pub new_entry : CmdBase → Bytes → Option Bytes → Option Handler → Option Handler → CmdBase
new_entry left name access fnct hlp = record left {
  name = fit 50 name;
  access = store_access access left.access;
  fnct = store fnct left.fnct;
  ext_help = store hlp left.ext_help;
}

-- `AddCmd` for the client of that nick, which is there.
unfoldable pub add_cmd :
    (left : CmdBase)
    → Bytes
    → Bytes
    → Option Bytes
    → (fnct hlp : Option Handler) → CmdTable
    → ℕ × CmdTable
add_cmd left nick name access fnct hlp t =
    let index = hash_safe nick cmd_hash_key in
    (
      index,
      put_at t index
          (some (append_entry (open_slot nick (t index)) (new_entry left name access fnct hlp))),
    )

abbrev pub eq_handler : Option Handler → Option Handler → Bool
eq_handler none none = true
eq_handler none (some g) = false
eq_handler (some f) none = false
eq_handler (some f) (some g) = f == g

-- The loop of `DelCmd`: the first entry with that function goes, whatever its name; `none` if there is
-- no such entry.
unfoldable pub del_cmd_in : Option Handler → List CmdBase → Option (List CmdBase)
del_cmd_in fnct [] = none
del_cmd_in fnct (cb ∷ cbs) =
    let rest = del_cmd_in fnct cbs >>= λ left. some (cb ∷ left) in
    if eq_handler cb.fnct fnct then some cbs else rest

abbrev pub without_cmd : CmdHash → Option (List CmdBase) → CmdHash
without_cmd ch none = ch
without_cmd ch (some left) = record ch { commands = left; entry_cnt = pred_ℤ ch.entry_cnt }

abbrev pub unless_empty : CmdHash → Option CmdHash
unless_empty ch = if is_zero ch.entry_cnt then none else some ch

abbrev pub del_cmd_at : Option Handler → Option CmdHash → Option CmdHash
del_cmd_at fnct none = none
del_cmd_at fnct (some ch) = unless_empty (without_cmd ch (del_cmd_in fnct ch.commands))

-- `DelCmd`: an empty list is taken out of the table.
unfoldable pub del_cmd : Bytes → Option Handler → CmdTable → CmdTable
unfolding del_cmd_in
del_cmd nick fnct t =
    let index = hash_safe nick cmd_hash_key in put_at t index (del_cmd_at fnct (t index))

-- `AddHelp`
unfoldable pub add_help : Bytes → Option Handler → HelpTable → HelpTable
add_help nick helpcmd t =
    let index = hash_safe nick cmd_hash_key in put_at t index (t index ++ helpcmd ∷ [])

unfoldable pub del_help_in : Option Handler → List (Option Handler) → List (Option Handler)
del_help_in helpcmd [] = []
del_help_in helpcmd (he ∷ hes) = if eq_handler he helpcmd then hes else he ∷ del_help_in helpcmd hes

-- `DelHelp`
unfoldable pub del_help : Bytes → Option Handler → HelpTable → HelpTable
unfolding del_help_in
del_help nick helpcmd t =
    let index = hash_safe nick cmd_hash_key in put_at t index (del_help_in helpcmd (t index))

-- What a command makes happen, in order: a notice to the user, a call of the command's function or of
-- a help function, or a line in the channel of the logs.
pub data Effect : Type 0 where
  notice limited_to : Bytes → Effect
  ran : Handler → List Bytes → Effect
  helped : Handler → Effect
  logged : Bytes → Effect

abbrev pub no_help : Effect
no_help = notice (codes "There is currently no help available for that command.")

abbrev pub denied : Effect
denied = notice (codes "Permission Denied.")

-- The loop over the entries for `HELP <word>`; `none` is a call through NULL.
unfoldable pub help_on : Bytes → List CmdBase → Option (List Effect)
help_on word [] = some []
help_on word (c ∷ cs) =
    let rest = help_on word cs in
    if eq_nocase c.name word
    then (c.ext_help >>= λ h. rest >>= λ es. some (helped h ∷ limited_to c.access ∷ es))
    else rest

abbrev pub or_no_help : List Effect → List Effect
or_no_help [] = no_help ∷ []
or_no_help (e ∷ es) = e ∷ es

unfoldable pub all_help : List (Option Handler) → List Effect
all_help [] = []
all_help (none ∷ hs) = all_help hs
all_help (some h ∷ hs) = helped h ∷ all_help hs

abbrev pub log_line : Bool → Bytes → List Effect
log_line true cmd = logged cmd ∷ []
log_line false cmd = []

-- The loop over the entries for a command: the value that is returned, and the effects. `verbose`
-- stands for `logcmds || debug > 1`.
unfoldable pub run_in : Bool → Account → Bytes → List Bytes → List CmdBase → ℕ × List Effect
unfolding check_access
run_in verbose u cmd av [] = (1, [])
run_in verbose u cmd av (c ∷ cs) =
    let rest = run_in verbose u cmd av cs in
    if eq_nocase c.name cmd
    then if not (check_access u (some c.access))
      then (1, denied ∷ [])
      else elim c.fnct [ none ↦ rest | some f ↦ (0, ran f av ∷ log_line (verbose || c.log) cmd) ]
    else rest

abbrev pub do_help : List Bytes → Option CmdHash → List (Option Handler) → Option (List Effect)
do_help [] ch hs = some (all_help hs)
do_help (word ∷ av) none hs = some (no_help ∷ [])
do_help (word ∷ av) (some ch) hs = help_on word ch.commands >>= λ es. some (or_no_help es)

abbrev pub run_at : Bool → Account → Bytes → List Bytes → Option CmdHash → ℕ × List Effect
run_at verbose u cmd av none = (4, [])
run_at verbose u cmd av (some ch) = run_in verbose u cmd av ch.commands

-- `do_cmd` from the user `u` to the client of that nick, both there; `av` holds `ac` words.
unfoldable pub do_cmd :
    Bool → CmdTable → HelpTable → Bytes → Bytes → Account → List Bytes → Option (ℕ × List Effect)
unfolding help_on all_help run_in
do_cmd verbose t ht cmd nick u av =
    let index = hash_safe nick cmd_hash_key in
    if eq_nocase cmd (codes "HELP")
    then (do_help av (t index) (ht index) >>= λ es. some (0, es))
    else some (run_at verbose u cmd av (t index))

-- The cuts of `HandleClientCmds`: at every space.
unfoldable pub cut_words : Bytes → Bytes × List Bytes
cut_words [] = ([], [])
cut_words (c ∷ s) = let (w, ws) = cut_words s in if c == b' ' then ([], w ∷ ws) else (c ∷ w, ws)

-- `CmdErr`
unfoldable pub cmd_err : ℕ → Option Bytes
cmd_err err =
    get_elem?
      (codes "Command success, no error."
        ∷ codes "Invalid command - No such command found."
        ∷ codes "Permission Denied."
        ∷ codes "Command Error, Invalid paramaters."
        ∷ codes "Command Error, Invalid index."
        ∷ codes "Command Error, HASH does not exsist."
        ∷ [])
      err

-- What is sent for a value that `do_cmd` returns.
abbrev pub report : ℕ × List Effect → Option (List Effect)
report (rc, es) =
    if not (rc == 0) && ltb rc 3
    then (cmd_err rc >>= λ text. some (es ++ notice text ∷ []))
    else some es

abbrev pub starts : ℕ → Bytes → Bool
starts x [] = false
starts x (c ∷ s) = c == x

-- `HandleClientCmds` with `av[1]` the target and `av[2]` the text, if there is one; `find_user` finds
-- the client's nick. `params` has 15 elements, but the loop that clears it writes 16, and the words are
-- written without a bound. `room` is how many can be written from its start on without harm: 15 in the
-- language, more where the compiler leaves a gap behind it. `none` is a write behind that, or a call
-- through NULL.
unfoldable pub handle_client_cmds :
    (room : ℕ)
    → Bool
    → CmdTable
    → HelpTable
    → (find_user : Bytes → Option Bytes) → Account
    → Bytes
    → Option Bytes
    → Option (List Effect)
unfolding cut_words do_cmd cmd_err
handle_client_cmds room verbose t ht find_user u target none = some []
handle_client_cmds room verbose t ht find_user u target (some text) =
    if starts b'#' target || starts 1 text then some [] else elim (find_user target) [
      | none ↦ some []
      | some nick ↦
          let (cmd, params) = cut_words text in
          if ltb room 16 || ltb room (length params)
          then none
          else (do_cmd verbose t ht cmd nick u params >>= report)
    ]
