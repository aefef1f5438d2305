-- ===== src/Services/Unreal/Servers.antt =====
-- The handlers of modules/protocol/unreal32.c for servers, and for users who come, go and change nick.
use omega_services.Prelude.{
  ◌-◌, ℕ, ◌+◌, Bool, true, false, ◌&&◌, ◌||◌, not, Option, none, some, [], ◌∷◌, ◌++◌, Bytes, length,
  ltb, leb, eq_nocase, if◌then◌else◌,
}
use omega_services.Links.{Links, new_serv, find_serv, exit_serv, link_count}
use omega_services.Network.{Ptr, update, ◌>>=◌}
use omega_services.Services.{
  exit_one, after_exits, is_con, is_bursting, ping_line, linked, rehashing, Services, Config, Env,
  put_net, put_links, emit_line, user_of, serv_of,
}
use omega_services.Services.Clients.{add_user}
use omega_services.Services.Unreal.Burst.{burst_local_users}
use omega_services.Services.Unreal.Args.{Argv, arg}
use omega_services.Users.{new_nick}

-- `omega_nick`: a new user, told in nine words or more; `decode_ip` reads the eleventh.
unfoldable pub omega_nick : Config → Env → ℕ → Argv → Services → Option Services
unfolding add_user
omega_nick cfg env argc argv st =
    if ltb 3 argc && not (ltb argc 9)
    then (user_of (arg argv 1) st.links.net >>= λ r. elim r [
      | some u ↦ some st
      | none ↦ arg argv 10 >>= λ ip. arg argv 1 >>= λ nick. arg argv 11 >>= λ realname.
          add_user cfg env nick (arg argv 4) (arg argv 5) realname (arg argv 6) (arg argv 8) none
            (arg argv 9) (some (env.address ip)) st
          >>= λ r. some r.1
    ])
    else some st

-- The own entry gets the uplink, if there is one.
unfoldable pub set_uplink : Config → Ptr → Links → Option Links
set_uplink cfg li l = elim cfg.me [
  | none ↦ some l
  | some me ↦ l.srv me >>= λ own.
      some (record l { srv = update l.srv me (some (record own { uplink = some li })) })
]

abbrev pub is_null : Option Bytes → Bool
is_null none = true
is_null (some a) = false

-- A server that a server tells of, and the uplink itself.
abbrev pub add_known : Config → Env → Option Ptr → Option Bytes → Bytes → Services → Option Services
add_known cfg env lk (some source) name st =
    new_serv env.fresh lk name st.links >>= λ r. some (put_links r.1 st)
add_known cfg env lk none name st = new_serv env.fresh none name st.links >>= λ r.
    set_uplink cfg r.0 r.1 >>= λ l.
    some (record st { links = l; uplink = some r.0; lastpong = env.now })

-- `omega_server`
unfoldable pub omega_server : Config → Env → Option Ptr → ℕ → Argv → Services → Option Services
unfolding new_serv set_uplink
omega_server cfg env lk argc argv st =
    if leb argc 2 || is_null (arg argv 1)
    then some st
    else (arg argv 1 >>= λ name. add_known cfg env lk (arg argv 0) name st)

-- The end of the burst of our uplink: the event BURST runs `burst_local_users`.
unfoldable pub end_burst : Config → Services → Option Services
unfolding burst_local_users link_count
end_burst cfg st =
    if is_bursting st.sync
    then (burst_local_users cfg st >>= λ st'.
        some (record st' { sync = is_con; sent = st'.sent ++ linked (link_count st'.links) ∷ [] }))
    else some st

-- `omega_eos`
unfoldable pub omega_eos : Config → Argv → Services → Option Services
unfolding find_serv end_burst
omega_eos cfg argv st = serv_of (arg argv 0) st.links >>= λ r. elim r [
  | none ↦ some st
  | some li ↦ find_serv cfg.servername st.links >>= λ q. elim q [
    | none ↦ some st
    | some own ↦ st.links.srv own >>= λ ol. elim ol.uplink [
      | none ↦ some st
      | some up ↦ st.links.srv up >>= λ ul.
          arg argv 0 >>= λ name. if eq_nocase ul.name name then end_burst cfg st else some st
    ]
  ]
]

-- `omega_ping`: to the server that asks, or to our uplink.
unfoldable pub omega_ping : Config → Option Ptr → Services → Option Services
unfolding find_serv
omega_ping cfg (some li) st = st.links.srv li >>= λ l. some (emit_line (ping_line l.name) st)
omega_ping cfg none st = find_serv cfg.servername st.links >>= λ r. r >>= λ own.
    st.links.srv own >>= λ ol.
    ol.uplink >>= λ up. st.links.srv up >>= λ ul. some (emit_line (ping_line ul.name) st)

-- `omega_pong`
unfoldable pub omega_pong : Env → Option Ptr → Services → Option Services
omega_pong env none st = some st
omega_pong env (some source) st = elim st.uplink [
  | none ↦ some st
  | some up ↦ st.links.srv source >>= λ sl. st.links.srv up >>= λ ul.
      some (if eq_nocase sl.name ul.name then record st { lastpong = env.now } else st)
]

-- `omega_squit`: `exit_serv` calls itself for servers below, and there are no more than the list has. Each
-- user who exits is an event, and is taken off the list.
unfoldable pub omega_squit : Argv → Services → Option Services
unfolding exit_serv
omega_squit argv st = elim (arg argv 1) [
  | none ↦ some st
  | some serv ↦
      exit_serv (λ u. (st.profile u).serv) (length st.links.servlist + 1) serv st.links >>= λ l.
      let exits = length st.links.net.userlist - length l.net.userlist in
      some (put_links l (record st { usercnt = after_exits st.logging exits st.usercnt }))
]

-- `omega_quit`
unfoldable pub omega_quit : Ptr → Services → Option Services
unfolding exit_one
omega_quit u st = exit_one u st

-- `omega_unick`
unfoldable pub omega_unick : Ptr → Argv → Services → Option Services
unfolding new_nick
omega_unick u argv st = elim (arg argv 1) [
  | none ↦ some st
  | some nick ↦ new_nick u nick st.links.net >>= λ n. some (put_net n st)
]

-- `omega_rehash`
unfoldable pub omega_rehash : Ptr → Services → Option Services
omega_rehash u st = some (emit_line (rehashing u) st)
