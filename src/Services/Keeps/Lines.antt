-- ===== src/Services/Keeps/Lines.antt =====
-- Whatever lines the uplink sends: the users of each channel stay counted.
use omega_services.Prelude.{
  ℕ, ◌≡◌, Option, none, some, List, [], ◌∷◌, Bytes, get_elem?, if◌then◌else◌,
}
use omega_services.Commands.{handle_serv_cmd}
use omega_services.Events.{Handler}
use omega_services.Network.{Ptr}
use omega_services.Parser.{Call, null_read, serv_cmd, touch, user_cmd, parse}
use omega_services.Services.{Services, Config, Env}
use omega_services.Services.Keeps.Channels.{
  omega_sjoin-Counted, omega_mode-Counted, omega_sajoin-Counted, omega_invite-Counted,
  omega_svsmode-Counted, omega_kick-Counted, omega_part-Counted, omega_sapart-Counted,
  omega_join-Counted,
}
use omega_services.Services.Keeps.Rules.{
  Gives, Counted, Gives-none, Gives-some, Gives-if, Gives-bind, Gives-then, Gives-found,
}
use omega_services.Services.Keeps.Servers.{
  omega_squit-Counted, omega_server-Counted, omega_eos-Counted, omega_ping-Counted,
  omega_pong-Counted,
}
use omega_services.Services.Keeps.Users.{
  omega_kill-Counted, omega_svskill-Counted, omega_skill-Counted, omega_nick-Counted,
  omega_quit-Counted, omega_unick-Counted,
}
use omega_services.Services.Unreal.{
  UserCommand, ServCommand, user_commands, serv_commands, Modules, serv_table, run_user, run_serv,
  run_handlers, user_handler, serv_handler, directory, run_call, run_calls, run_line, run_lines,
  privmsg, quit, mode, part, join, kill, sajoin, sapart, unick, ukick, invite, rehash, skick,
  netinfo, sjoin, nick, eos, server, ping, squit, svsmode, svskill, skill, pong, serv_null,
}
use omega_services.Services.Unreal.Args.{Argv}
use omega_services.Services.Unreal.Servers.{omega_rehash}

-- The handlers of the rest of the program keep the users of each channel counted.
pub record KeepsCounted (m : Modules) : Type 0 where
  pub user :
      (h : Handler) (u : Ptr) (argc : ℕ) (argv : Argv) (st : Services)
      → Counted st
      → Gives Counted (m.on_user h u argc argv st)
  pub serv :
      (h : Handler) (li : Option Ptr) (argc : ℕ) (argv : Argv) (st : Services)
      → Counted st
      → Gives Counted (m.on_serv h li argc argv st)

module _ (cfg : Config) (env : Env) where
  run_user-Counted :
      (c : UserCommand) (u : Ptr) (argc : ℕ) (argv : Argv) (st : Services)
      → Counted st
      → Gives Counted (run_user cfg env c u argc argv st)
  unfolding run_user omega_rehash
  run_user-Counted privmsg u argc argv st k = Gives-some st k
  run_user-Counted quit u argc argv st k = omega_quit-Counted u st k
  run_user-Counted mode u argc argv st k = omega_mode-Counted cfg env u argc argv st k
  run_user-Counted part u argc argv st k = omega_part-Counted u argc argv st k
  run_user-Counted join u argc argv st k = omega_join-Counted u argv st k
  run_user-Counted kill u argc argv st k = omega_kill-Counted cfg argv st k
  run_user-Counted sajoin u argc argv st k = omega_sajoin-Counted cfg env argc argv st k
  run_user-Counted sapart u argc argv st k = omega_sapart-Counted argc argv st k
  run_user-Counted unick u argc argv st k = omega_unick-Counted u argv st k
  run_user-Counted ukick u argc argv st k = omega_kick-Counted argv st k
  run_user-Counted invite u argc argv st k = omega_invite-Counted cfg env u argc argv st k
  run_user-Counted rehash u argc argv st k = Gives-some _ k

  run_serv-Counted :
      (c : ServCommand) (li : Option Ptr) (argc : ℕ) (argv : Argv) (st : Services)
      → Counted st
      → Gives Counted (run_serv cfg env c li argc argv st)
  unfolding run_serv
  run_serv-Counted skick li argc argv st k = omega_kick-Counted argv st k
  run_serv-Counted netinfo li argc argv st k = Gives-some st k
  run_serv-Counted sjoin li argc argv st k = omega_sjoin-Counted cfg env argc argv st k
  run_serv-Counted nick li argc argv st k = omega_nick-Counted cfg env argc argv st k
  run_serv-Counted eos li argc argv st k = omega_eos-Counted cfg argv st k
  run_serv-Counted server li argc argv st k = omega_server-Counted cfg env li argc argv st k
  run_serv-Counted ping li argc argv st k = omega_ping-Counted cfg li st k
  run_serv-Counted squit li argc argv st k = omega_squit-Counted argv st k
  run_serv-Counted svsmode none argc argv st k = Gives-some st k
  run_serv-Counted svsmode (some li) argc argv st k = omega_svsmode-Counted cfg argv st k
  run_serv-Counted svskill li argc argv st k = omega_svskill-Counted cfg env argv st k
  run_serv-Counted skill li argc argv st k = omega_skill-Counted cfg env argv st k
  run_serv-Counted pong li argc argv st k = omega_pong-Counted env li st k
  run_serv-Counted serv_null li argc argv st k = Gives-some st k

  run_handlers-Counted :
      (run : Handler → Services → Option Services)
      → ((h : Handler) (st : Services) → Counted st → Gives Counted (run h st))
      → (hs : List Handler) (st : Services) → Counted st
      → Gives Counted (run_handlers run hs st)
  unfolding run_handlers
  run_handlers-Counted run keep [] st k = Gives-some st k
  run_handlers-Counted run keep (h ∷ hs) st k =
      Gives-then (if st.exited then some st else run h st) _
        (Gives-if st.exited (Gives-some st k) (keep h st k))
        λ st' k'. run_handlers-Counted run keep hs st' k'

module _ (m : Modules) (others : KeepsCounted m) (cfg : Config) (env : Env) where
  serv_cmd-Counted :
      (name : Bytes) (li : Option Ptr) (argc : ℕ) (argv : Argv) (st : Services)
      → Counted st
      → Gives Counted (
          run_handlers
            (serv_handler m cfg env li argc argv)
            (handle_serv_cmd name (serv_table m))
            st)
  serv_cmd-Counted name li argc argv st k =
      run_handlers-Counted cfg env (serv_handler m cfg env li argc argv)
        (λ h st' k'.
          Gives-found (get_elem? serv_commands h) _ _ (others.serv h li argc argv st' k')
            (λ c. run_serv-Counted cfg env c.1 li argc argv st' k'))
        _ st k

  run_call-Counted :
      (c : Call (Option Ptr) (Option Ptr)) (st : Services)
      → Counted st
      → Gives Counted (run_call m cfg env c st)
  unfolding run_call
  run_call-Counted null_read st k = Gives-none
  run_call-Counted (touch u) st k = Gives-bind u _ λ p _. Gives-some st k
  run_call-Counted (serv_cmd command none argc argv) st k =
      Gives-bind command _ λ name _. serv_cmd-Counted name none argc argv st k
  run_call-Counted (serv_cmd command (some li) argc argv) st k =
      Gives-bind li _
        λ p _. Gives-bind command _ λ name _. serv_cmd-Counted name (some p) argc argv st k
  run_call-Counted (user_cmd command u argc argv) st k = Gives-bind u _ λ p _.
      Gives-bind command _ λ name _.
        run_handlers-Counted cfg env (user_handler m cfg env p argc argv)
          (λ h st' k'.
            Gives-found (get_elem? user_commands h) _ _ (others.user h p argc argv st' k')
              (λ c. run_user-Counted cfg env c.1 p argc argv st' k'))
          _ st k

  run_calls-Counted :
      (cs : List (Call (Option Ptr) (Option Ptr))) (st : Services)
      → Counted st
      → Gives Counted (run_calls m cfg env cs st)
  unfolding run_calls
  run_calls-Counted [] st k = Gives-some st k
  run_calls-Counted (c ∷ cs) st k =
      Gives-then (run_call m cfg env c st) _ (run_call-Counted c st k)
        λ st' k'. run_calls-Counted cs st' k'

  run_line-Counted :
      (line : Bytes) (st : Services) → Counted st → Gives Counted (run_line m cfg env line st)
  unfolding run_line
  run_line-Counted line st k =
      Gives-if st.exited (Gives-some st k)
        (run_calls-Counted (parse (directory st) cfg.p10 line) st k)

-- Whatever lines an uplink of the unreal32 protocol sends, in any order, `usercnt` is the number of
-- users of each channel after them if it was before and they return: through the parser, the tables of
-- commands, and every handler of modules/protocol/unreal32.c that these give for a line, netsplits
-- included, and whatever `malloc` and uninitialised memory hold. This is for handlers of the rest of
-- the program that keep this too, wherever they stand in the tables, and without the functions that
-- are registered for events.
pub run_lines-Counted :
    (m : Modules) (cfg : Config) (lines : List (Env × Bytes)) (st st' : Services)
    → KeepsCounted m
    → Counted st
    → run_lines m cfg lines st ≡ some st'
    → Counted st'
unfolding run_lines
run_lines-Counted m cfg lines st st' others k e = (keep lines st k).at st' e
  where
    keep :
        (lines : List (Env × Bytes)) (st : Services)
        → Counted st
        → Gives Counted (run_lines m cfg lines st)
    keep [] st k = Gives-some st k
    keep ((env, line) ∷ lines) st k =
        Gives-then (run_line m cfg env line st) _ (run_line-Counted m others cfg env line st k)
          λ st1 k1. keep lines st1 k1
