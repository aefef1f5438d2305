-- ===== src/Services/Unreal/Burst.antt =====
-- What the services tell a new uplink of their own clients: `introduce_users` and `burst_local_users` of src/user.c,
-- with the lines of modules/protocol/unreal32.c; and `DelClient`.
use omega_services.Prelude.{
  Bool, true, false, Option, none, some, List, [], ◌∷◌, Bytes, if◌then◌else◌,
}
use omega_services.Network.{Ptr, ◌>>=◌}
use omega_services.Services.{exit_one, Services, Config, bursting}
use omega_services.Services.Unreal.Args.{unreal_add_user, rejoin}
use omega_services.Users.{find_user}

-- The loop of `introduce_users`: a user who is not ours ends it.
unfoldable pub introduce_in : List Ptr → Services → Option Services
unfolding unreal_add_user
introduce_in [] st = some st
introduce_in (u ∷ us) st = st.links.net.user u >>= λ v.
    if v.myconnect then (unreal_add_user u st >>= introduce_in us) else some st

-- `introduce_users`
unfoldable pub introduce_users : Services → Option Services
unfolding introduce_in
introduce_users st = introduce_in st.links.net.userlist st

-- `unreal_connect`, which with `unreal_server` names the services; the event CONNECT runs `introduce_users`.
unfoldable pub unreal_connect : Services → Option Services
unfolding introduce_users
unreal_connect st = introduce_users (record st { sync = bursting })

-- The loop of `burst_local_users`.
unfoldable pub burst_users : Config → List Ptr → Services → Option Services
unfolding rejoin
burst_users cfg [] st = some st
burst_users cfg (u ∷ us) st = st.links.net.user u >>= λ v.
    if v.myconnect then (rejoin cfg u v.channels st >>= burst_users cfg us) else some st

-- `burst_local_users`
unfoldable pub burst_local_users : Config → Services → Option Services
unfolding burst_users
burst_local_users cfg st = burst_users cfg st.links.net.userlist st

-- `DelClient`, with -1 (false) for a client that is not there.
unfoldable pub del_client : Bytes → Services → Option (Bool × Services)
unfolding find_user exit_one
del_client client st = find_user st.links.net client >>= λ r. elim r [
  | none ↦ some (false, st)
  | some u ↦ exit_one u st >>= λ st'. some (true, st')
]
