-- ===== src/Services/Unreal/Channels.antt =====
-- The handlers of modules/protocol/unreal32.c for who is in which channel, and for modes.
use omega_services.Prelude.{
  ℕ, ◌-◌, Bool, true, false, Option, none, some, List, [], ◌∷◌, Bytes, codes, take, drop, ltb, ◌==◌,
  eq_nocase, if◌then◌else◌, ℤ, pos, negsuc,
}
use omega_services.Modes.Channel.{read_chanmode_string}
use omega_services.Modes.Channel.Decimal.{atol_long}
use omega_services.Modes.User.{read_usermode_string}
use omega_services.Network.{Ptr, Net, ◌>>=◌, new_chan, add_to_channel_u, del_from_channel, part_all}
use omega_services.Services.{
  Room, is_bursting, part_line, denied, Services, Config, Env, put_net, put_room, put_modes,
  emit_line, named, user_of, channel_of,
}
use omega_services.Services.Unreal.Args.{Argv, arg, present, unreal_join}
use omega_services.Tools.Tokens.{generictoken}
use omega_services.Users.Sjoin.{add_to_channel}

abbrev gt_ℤ : ℤ → ℤ → Bool
gt_ℤ (pos a) (pos b) = ltb b a
gt_ℤ (pos a) (negsuc b) = true
gt_ℤ (negsuc a) (pos b) = false
gt_ℤ (negsuc a) (negsuc b) = ltb a b

-- What `new_chan` sets of the modes and the time; the key and the flood mode stay as `malloc` leaves them.
unfoldable pub new_room : Env → Room
new_room env = record {
  modes = record {
    registered = false;
    onlyoptopic = true;
    external = true;
    haskey = false;
    key = env.old_room.modes.key;
    limit = pos 0;
    modef = env.old_room.modes.modef;
    unknownmodes = [];
  };
  channelts = pos env.now;
}

-- `find_channel`, else `new_chan`.
unfoldable pub channel_for : Env → Option Bytes → Services → Option (Ptr × Services)
unfolding new_room
channel_for env name st = channel_of name st.links.net >>= λ r. elim r [
  | some c ↦ some (c, st)
  | none ↦ name >>= λ text. new_chan env.fresh text st.links.net >>= λ made.
      some (made.0, put_room made.0 (new_room env) (put_net made.1 st))
]

-- The older time stamp stays.
abbrev pub older : ℤ → Room → Room
older ts r = if gt_ℤ r.channelts ts then record r { channelts = ts } else r

unfoldable pub set_modes : Config → Env → Ptr → Bytes → List Bytes → Services → Option Services
unfolding read_chanmode_string
set_modes cfg env c modes params st =
    let r = st.room c in
    read_chanmode_string cfg.cmodes env.toadd r.modes modes params >>= λ m.
    some (put_room c (record r { modes = m }) st)

-- The names of a burst join one by one.
unfoldable pub add_names : Config → Env → List Bytes → Ptr → Net → Option Net
unfolding add_to_channel
add_names cfg env [] c n = some n
add_names cfg env (user ∷ users) c n =
    add_to_channel cfg.cmodes env.junk user c n >>= add_names cfg env users c

abbrev pub names_in : Option Bytes → List Bytes
names_in none = []
names_in (some text) = generictoken b' ' 512 text

-- The modes of a burst stand in it if there are more than four words, with at most four parameters.
unfoldable pub sjoin_modes : Config → Env → ℕ → Argv → Ptr → Services → Option Services
unfolding set_modes
sjoin_modes cfg env argc argv c st =
    let params = present (take (argc - 5) (take 4 (drop 4 argv))) in
    if ltb 4 argc then (arg argv 3 >>= λ modes. set_modes cfg env c modes params st) else some st

-- `omega_sjoin`, with the channel that is found or made.
unfoldable pub sjoin_into : Config → Env → ℕ → Argv → Ptr → Services → Option Services
unfolding sjoin_modes add_names generictoken
sjoin_into cfg env argc argv c st = arg argv 1 >>= λ ts.
    sjoin_modes cfg env argc argv c (put_room c (older (atol_long ts) (st.room c)) st) >>= λ st2.
    add_names cfg env (names_in (arg argv (argc - 1))) c st2.links.net >>= λ n. some (put_net n st2)

-- `omega_sjoin`
unfoldable pub omega_sjoin : Config → Env → ℕ → Argv → Services → Option Services
unfolding channel_for sjoin_into
omega_sjoin cfg env argc argv st =
    if ltb argc 4
    then some st
    else (channel_for env (arg argv 2) st >>= λ found. sjoin_into cfg env argc argv found.0 found.1)

-- `omega_join`: `JOIN 0` leaves all channels; other names are ignored.
unfoldable pub omega_join : Ptr → Argv → Services → Option Services
unfolding part_all
omega_join u argv st = arg argv 1 >>= λ name.
    if eq_nocase name (codes "0")
    then (st.links.net.user u >>= λ us.
        part_all u us.channels st.links.net >>= λ n. some (put_net n st))
    else some st

abbrev pub is_channel : Bytes → Bool
is_channel [] = false
is_channel (c ∷ s) = c == b'#'

-- The parameters of the modes stand in one word.
abbrev pub mode_params : ℕ → Argv → List Bytes
mode_params argc argv =
    if ltb 3 argc
    then elim (arg argv 3) [ none ↦ [] | some text ↦ generictoken b' ' 15 text ]
    else []

-- `omega_mode`
unfoldable pub omega_mode : Config → Env → Ptr → ℕ → Argv → Services → Option Services
unfolding set_modes read_usermode_string generictoken
omega_mode cfg env u argc argv st = arg argv 1 >>= λ target.
    if is_channel target
    then (channel_of (some target) st.links.net >>= λ r. elim r [
      | none ↦ some st
      | some c ↦ arg argv 2 >>= λ modes. set_modes cfg env c modes (mode_params argc argv) st
    ])
    else (arg argv 2 >>= λ modes. st.links.net.user u >>= λ us. some (
        put_modes u
          (read_usermode_string cfg.operonly cfg.accesslist cfg.umodes (named us (st.profile u))
            modes)
          st))

-- `omega_svsmode`, from a server that is there.
unfoldable pub omega_svsmode : Config → Argv → Services → Option Services
unfolding read_usermode_string
omega_svsmode cfg argv st = user_of (arg argv 1) st.links.net >>= λ r. elim r [
  | none ↦ some st
  | some u ↦ arg argv 2 >>= λ modes. st.links.net.user u >>= λ us. some (
      put_modes u
        (read_usermode_string cfg.operonly cfg.accesslist cfg.umodes (named us (st.profile u))
          modes)
        st)
]

-- `omega_ukick` and `omega_skick`
unfoldable pub omega_kick : Argv → Services → Option Services
unfolding del_from_channel
omega_kick argv st = channel_of (arg argv 1) st.links.net >>= λ r. elim r [
  | none ↦ some st
  | some c ↦ user_of (arg argv 2) st.links.net >>= λ q. elim q [
    | none ↦ some st
    | some u ↦ del_from_channel u c st.links.net >>= λ n. some (put_net n st)
  ]
]

-- `omega_part`
unfoldable pub omega_part : Ptr → ℕ → Argv → Services → Option Services
unfolding del_from_channel
omega_part u argc argv st =
    if ltb argc 2
    then some st
    else (channel_of (arg argv 1) st.links.net >>= λ r. elim r [
      | none ↦ some st
      | some c ↦ del_from_channel u c st.links.net >>= λ n. some (put_net n st)
    ])

-- `omega_sapart`
unfoldable pub omega_sapart : ℕ → Argv → Services → Option Services
unfolding del_from_channel
omega_sapart argc argv st =
    if ltb argc 3
    then some st
    else (user_of (arg argv 1) st.links.net >>= λ r. elim r [
      | none ↦ some st
      | some u ↦ channel_of (arg argv 2) st.links.net >>= λ q. elim q [
        | none ↦ some st
        | some c ↦ del_from_channel u c st.links.net >>= λ n.
            arg argv 2 >>= λ name. some (emit_line (part_line u name) (put_net n st))
      ]
    ])

-- `AddToChannelU` and `unreal_join`
unfoldable pub bring_in : Config → Env → Ptr → Ptr → Services → Option Services
unfolding add_to_channel_u unreal_join
bring_in cfg env u c st = add_to_channel_u env.junk (is_bursting st.sync) u c st.links.net >>= λ n.
    unreal_join cfg u c (put_net n st)

-- `omega_sajoin`
unfoldable pub omega_sajoin : Config → Env → ℕ → Argv → Services → Option Services
unfolding bring_in
omega_sajoin cfg env argc argv st =
    if ltb argc 3
    then some st
    else (user_of (arg argv 1) st.links.net >>= λ r. elim r [
      | none ↦ some st
      | some u ↦ channel_of (arg argv 2) st.links.net >>= λ q. elim q [
        | none ↦ some st
        | some c ↦ bring_in cfg env u c st
      ]
    ])

-- What `omega_invite` does for an operator.
unfoldable pub invite : Config → Env → Argv → Services → Option Services
unfolding bring_in
invite cfg env argv st = channel_of (arg argv 2) st.links.net >>= λ q. elim q [
  | none ↦ some st
  | some c ↦ user_of (arg argv 1) st.links.net >>= λ r. elim r [
    | none ↦ some st
    | some u ↦ bring_in cfg env u c st
  ]
]

-- `omega_invite`: anybody else is told that it is denied.
unfoldable pub omega_invite : Config → Env → Ptr → ℕ → Argv → Services → Option Services
unfolding invite
omega_invite cfg env u argc argv st =
    if ltb argc 3
    then some st
    else if (st.profile u).modes.account.oper
    then invite cfg env argv st
    else some (emit_line (denied u) st)
