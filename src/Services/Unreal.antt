-- ===== src/Services/Unreal.antt =====
-- modules/protocol/unreal32.c: the commands that its Module_Init puts into the tables of src/eventhandler.c,
-- and what a line of the uplink makes of the state of the services: the parser finds the sender in the
-- lists of servers and users, the tables the handlers. The functions that modules register for events
-- are not run.
pub mod Args
pub mod Channels
pub mod Servers
pub mod Kills
pub mod Burst
use omega_services.Prelude.{
  ℕ, zero, suc, ◌+◌, Bool, true, false, Option, none, some, List, [], ◌∷◌, ◌++◌, Bytes, codes,
  get_elem?, if◌then◌else◌,
}
use omega_services.Commands.{
  ServCmdTable, UserCmdTable, add_serv_cmd, add_user_cmd, handle_serv_cmd, handle_user_cmd,
}
use omega_services.Events.{Handler}
use omega_services.Links.{find_serv}
use omega_services.Modes.User.{UModes}
use omega_services.Network.{Ptr, ◌>>=◌}
use omega_services.Parser.{Directory, Call, null_read, serv_cmd, touch, user_cmd, parse}
use omega_services.Services.{Services, Config, Env}
use omega_services.Users.{find_user, find_uid}
use Args.{Argv}
use Channels.{
  omega_sjoin, omega_join, omega_mode, omega_svsmode, omega_kick, omega_part, omega_sapart,
  omega_sajoin, omega_invite,
}
use Kills.{omega_kill, omega_svskill, omega_skill}
use Servers.{
  omega_nick, omega_server, omega_eos, omega_ping, omega_pong, omega_squit, omega_quit, omega_unick,
  omega_rehash,
}

-- `umodes`, which Module_Init copies to `ircd_umodes`.
abbrev pub umodes : UModes
umodes =
    some (codes "r")
    ∷ some (codes "o")
    ∷ some (codes "i")
    ∷ some (codes "w")
    ∷ some (codes "z")
    ∷ some (codes "B")
    ∷ some (codes "S")
    ∷ some (codes "x")
    ∷ some (codes "v")
    ∷ some (codes "p")
    ∷ some (codes "A")
    ∷ some (codes "V")
    ∷ some (codes "H")
    ∷ []

-- The handlers of the commands of users.
pub data UserCommand : Type 0 where
  privmsg quit mode part join kill sajoin sapart unick ukick invite rehash : UserCommand

-- The handlers of the commands of servers.
pub data ServCommand : Type 0 where
  skick netinfo sjoin nick eos server ping squit svsmode svskill skill pong serv_null : ServCommand

unfoldable pub user_commands : List (Bytes × UserCommand)
user_commands =
    (codes "PRIVMSG", privmsg)
    ∷ (codes "QUIT", quit)
    ∷ (codes "MODE", mode)
    ∷ (codes "PART", part)
    ∷ (codes "JOIN", join)
    ∷ (codes "KILL", kill)
    ∷ (codes "SAJOIN", sajoin)
    ∷ (codes "SAPART", sapart)
    ∷ (codes "NICK", unick)
    ∷ (codes "KICK", ukick)
    ∷ (codes "INVITE", invite)
    ∷ (codes "REHASH", rehash)
    ∷ []

unfoldable pub serv_commands : List (Bytes × ServCommand)
serv_commands =
    (codes "KICK", skick)
    ∷ (codes "NETINFO", netinfo)
    ∷ (codes "SJOIN", sjoin)
    ∷ (codes "NICK", nick)
    ∷ (codes "EOS", eos)
    ∷ (codes "SERVER", server)
    ∷ (codes "PING", ping)
    ∷ (codes "SQUIT", squit)
    ∷ (codes "SVSMODE", svsmode)
    ∷ (codes "SVS2MODE", svsmode)
    ∷ (codes "SVSKILL", svskill)
    ∷ (codes "KILL", skill)
    ∷ (codes "PONG", pong)
    ∷ (codes "SWHOIS", serv_null)
    ∷ (codes "SENDSNO", serv_null)
    ∷ []

-- The calls of `AddUserCmd` and `AddServCmd`. The handler at each place of the list has that number.
unfoldable pub add_user_cmds : ℕ → List (Bytes × UserCommand) → UserCmdTable → UserCmdTable
unfolding add_user_cmd
add_user_cmds i [] t = t
add_user_cmds i ((name, c) ∷ cs) t = add_user_cmds (suc i) cs (add_user_cmd name i t)

unfoldable pub add_serv_cmds : ℕ → List (Bytes × ServCommand) → ServCmdTable → ServCmdTable
unfolding add_serv_cmd
add_serv_cmds i [] t = t
add_serv_cmds i ((name, c) ∷ cs) t = add_serv_cmds (suc i) cs (add_serv_cmd name i t)

-- What the rest of the program does with commands: what it has put into the tables before Module_Init and
-- puts there later, and what its handlers do, which stand beyond those of this module. One of them is
-- `HandleClientCmds`, which `psr_init` of src/parser.c gives to PRIVMSG.
pub record Modules : Type 0 where
  pub user_before : List (Bytes × Handler)
  pub user_later : List (Bytes × Handler)
  pub serv_before : List (Bytes × Handler)
  pub serv_later : List (Bytes × Handler)
  pub on_user : Handler → Ptr → ℕ → Argv → Services → Option Services
  pub on_serv : Handler → Option Ptr → ℕ → Argv → Services → Option Services

unfoldable pub add_user_handlers : List (Bytes × Handler) → UserCmdTable → UserCmdTable
unfolding add_user_cmd
add_user_handlers [] t = t
add_user_handlers ((name, h) ∷ hs) t = add_user_handlers hs (add_user_cmd name h t)

unfoldable pub add_serv_handlers : List (Bytes × Handler) → ServCmdTable → ServCmdTable
unfolding add_serv_cmd
add_serv_handlers [] t = t
add_serv_handlers ((name, h) ∷ hs) t = add_serv_handlers hs (add_serv_cmd name h t)

-- `UserCmdTable` and `ServCmdTable` with all that was put there.
unfoldable pub user_table : Modules → UserCmdTable
unfolding add_user_handlers add_user_cmds user_commands
user_table m =
    add_user_handlers m.user_later
      (add_user_cmds 0 user_commands (add_user_handlers m.user_before (λ i. [])))

unfoldable pub serv_table : Modules → ServCmdTable
unfolding add_serv_handlers add_serv_cmds serv_commands
serv_table m =
    add_serv_handlers m.serv_later
      (add_serv_cmds 0 serv_commands (add_serv_handlers m.serv_before (λ i. [])))

-- The handler of a user's command.
unfoldable pub run_user : Config → Env → UserCommand → Ptr → ℕ → Argv → Services → Option Services
unfolding omega_quit omega_mode omega_part omega_join omega_kill omega_sajoin omega_sapart
    omega_unick omega_kick omega_invite omega_rehash
run_user cfg env privmsg u argc argv st = some st
run_user cfg env quit u argc argv st = omega_quit u st
run_user cfg env mode u argc argv st = omega_mode cfg env u argc argv st
run_user cfg env part u argc argv st = omega_part u argc argv st
run_user cfg env join u argc argv st = omega_join u argv st
run_user cfg env kill u argc argv st = omega_kill cfg argv st
run_user cfg env sajoin u argc argv st = omega_sajoin cfg env argc argv st
run_user cfg env sapart u argc argv st = omega_sapart argc argv st
run_user cfg env unick u argc argv st = omega_unick u argv st
run_user cfg env ukick u argc argv st = omega_kick argv st
run_user cfg env invite u argc argv st = omega_invite cfg env u argc argv st
run_user cfg env rehash u argc argv st = omega_rehash u st

-- Nothing, for a command that needs a server where the uplink sent it without a name.
abbrev if_named : Option Ptr → Option Services → Services → Option Services
if_named none o st = some st
if_named (some li) o st = o

-- The handler of a server's command.
unfoldable pub run_serv :
    Config → Env → ServCommand → Option Ptr → ℕ → Argv → Services → Option Services
unfolding omega_kick omega_sjoin omega_nick omega_eos omega_server omega_ping omega_squit
    omega_svsmode omega_svskill omega_skill omega_pong
run_serv cfg env skick li argc argv st = omega_kick argv st
run_serv cfg env netinfo li argc argv st = some st
run_serv cfg env sjoin li argc argv st = omega_sjoin cfg env argc argv st
run_serv cfg env nick li argc argv st = omega_nick cfg env argc argv st
run_serv cfg env eos li argc argv st = omega_eos cfg argv st
run_serv cfg env server li argc argv st = omega_server cfg env li argc argv st
run_serv cfg env ping li argc argv st = omega_ping cfg li st
run_serv cfg env squit li argc argv st = omega_squit argv st
run_serv cfg env svsmode li argc argv st = if_named li (omega_svsmode cfg argv st) st
run_serv cfg env svskill li argc argv st = omega_svskill cfg env argv st
run_serv cfg env skill li argc argv st = omega_skill cfg env argv st
run_serv cfg env pong li argc argv st = omega_pong env li st
run_serv cfg env serv_null li argc argv st = some st

-- The handlers that a table gives for a command, one after the other, until `exit` is called.
unfoldable pub run_handlers :
    (Handler → Services → Option Services) → List Handler → Services → Option Services
run_handlers run [] st = some st
run_handlers run (h ∷ hs) st = (if st.exited then some st else run h st) >>= run_handlers run hs

abbrev pub user_handler :
    Modules → Config → Env → Ptr → ℕ → Argv → Handler → Services → Option Services
user_handler m cfg env u argc argv h st = elim (get_elem? user_commands h) [
  | none ↦ m.on_user h u argc argv st
  | some c ↦ run_user cfg env c.1 u argc argv st
]

abbrev pub serv_handler :
    Modules → Config → Env → Option Ptr → ℕ → Argv → Handler → Services → Option Services
serv_handler m cfg env li argc argv h st = elim (get_elem? serv_commands h) [
  | none ↦ m.on_serv h li argc argv st
  | some c ↦ run_serv cfg env c.1 li argc argv st
]

-- The answer of a search as the parser takes it: `some none` is a search that reads freed memory.
abbrev pub answer : Option (Option Ptr) → Option (Option Ptr)
answer none = some none
answer (some none) = none
answer (some (some p)) = some (some p)

abbrev pub directory : Services → Directory (Option Ptr) (Option Ptr)
directory st = record {
  find_serv = λ name. answer (find_serv name st.links);
  find_user = λ name. answer (find_user st.links.net name);
  find_uid = λ uid. answer (find_uid st.links.net uid);
}

-- A call of the parser; `lastsent` of a user is not in the state.
unfoldable pub run_call :
    Modules → Config → Env → Call (Option Ptr) (Option Ptr) → Services → Option Services
unfolding run_user run_serv run_handlers user_table serv_table user_commands serv_commands
    handle_serv_cmd handle_user_cmd
run_call m cfg env null_read st = none
run_call m cfg env (touch u) st = u >>= λ p. some st
run_call m cfg env (serv_cmd command none argc argv) st = command >>= λ name.
    run_handlers (serv_handler m cfg env none argc argv) (handle_serv_cmd name (serv_table m)) st
run_call m cfg env (serv_cmd command (some li) argc argv) st = li >>= λ p. command >>= λ name.
    run_handlers (serv_handler m cfg env (some p) argc argv) (handle_serv_cmd name (serv_table m))
      st
run_call m cfg env (user_cmd command u argc argv) st = u >>= λ p. command >>= λ name.
    run_handlers (user_handler m cfg env p argc argv) (handle_user_cmd name argc (user_table m)) st

unfoldable pub run_calls :
    Modules → Config → Env → List (Call (Option Ptr) (Option Ptr)) → Services → Option Services
unfolding run_call
run_calls m cfg env [] st = some st
run_calls m cfg env (c ∷ cs) st = run_call m cfg env c st >>= run_calls m cfg env cs

-- `parse`, with what it calls.
unfoldable pub run_line : Modules → Config → Env → Bytes → Services → Option Services
unfolding run_calls parse
run_line m cfg env line st =
    if st.exited then some st else run_calls m cfg env (parse (directory st) cfg.p10 line) st

-- The lines of the uplink, each in a world of its own.
unfoldable pub run_lines : Modules → Config → List (Env × Bytes) → Services → Option Services
unfolding run_line
run_lines m cfg [] st = some st
run_lines m cfg ((env, line) ∷ lines) st = run_line m cfg env line st >>= run_lines m cfg lines
