-- ===== src/Services/Unreal/Kills.antt =====
-- The handlers of modules/protocol/unreal32.c for a KILL. A client of the services comes back; the count of
-- attempts is to stop two services that kill each other.
use omega_services.Prelude.{
  ℕ, ◌+◌, true, ◌&&◌, ◌||◌, Option, none, some, Bytes, ltb, leb, ◌==◌, if◌then◌else◌,
}
use omega_services.Network.{Ptr, ◌>>=◌}
use omega_services.Services.{kill_line, Services, Config, Env, emit_line, user_of, exit_named}
use omega_services.Services.Unreal.Args.{Argv, arg, unreal_add_user, rejoin, is_our_client}

-- `exit_user` of a text that may be NULL.
abbrev pub exit_text : Option Bytes → Services → Option Services
exit_text none st = some st
exit_text (some user) st = exit_named user st

-- A client of ours is shown again and joins its channels.
abbrev pub come_back : Config → Ptr → Services → Option Services
come_back cfg u st =
    unreal_add_user u st >>= λ st1. st1.links.net.user u >>= λ us. rejoin cfg u us.channels st1

-- `omega_kill`
unfoldable pub omega_kill : Config → Argv → Services → Option Services
unfolding is_our_client unreal_add_user rejoin exit_named
omega_kill cfg argv st = is_our_client cfg (arg argv 1) st >>= λ r. elim r [
  | some u ↦ come_back cfg u st
  | none ↦ exit_text (arg argv 1) st
]

-- `if (!last_attempt)`
unfoldable pub start_clock : ℕ → Services → Services
start_clock now st = if st.last_attempt == 0 then record st { last_attempt = now + 600 } else st

-- The counters are reset while there are fewer than three attempts.
unfoldable pub reset_attempts : ℕ → Services → Services
reset_attempts now st =
    if ltb st.last_attempt now && ltb st.introduce_attempts 3
    then record st { introduce_attempts = 0; last_attempt = now + 600 }
    else st

-- One more attempt, or `exit (0)`.
unfoldable pub count_attempt : ℕ → Services → Services
unfolding start_clock reset_attempts
count_attempt now st =
    let st1 = reset_attempts now (start_clock now st) in
    if (st1.introduce_attempts == 0) || leb st1.introduce_attempts 3
    then record st1 { introduce_attempts = st1.introduce_attempts + 1 }
    else record st1 { exited = true }

-- `omega_svskill`
unfoldable pub omega_svskill : Config → Env → Argv → Services → Option Services
unfolding count_attempt omega_kill
omega_svskill cfg env argv st =
    let st1 = count_attempt env.now st in if st1.exited then some st1 else omega_kill cfg argv st1

-- `omega_skill`: whoever has the nick of a client of ours is killed before it comes back.
unfoldable pub omega_skill : Config → Env → Argv → Services → Option Services
unfolding count_attempt is_our_client unreal_add_user rejoin exit_named
omega_skill cfg env argv st =
    let st1 = count_attempt env.now st in
    if st1.exited
    then some st1
    else (is_our_client cfg (arg argv 1) st1 >>= λ r. elim r [
      | some u ↦ user_of (arg argv 1) st1.links.net >>= λ named.
          come_back cfg u (emit_line (kill_line named) st1)
      | none ↦ exit_text (arg argv 1) st1
    ])
