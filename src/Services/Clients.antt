-- ===== src/Services/Clients.antt =====
-- `AddUser` and `NewClient` of src/user.c: users of the network and clients of the services. Both start
-- from `new_user`, which leaves the texts and the server of the new user as `malloc` does.
use omega_services.Prelude.{
  ℕ, Bool, true, false, ◌||◌, Option, none, some, [], Bytes, codes, ◌==◌, if◌then◌else◌, ℤ, pos,
  negsuc, suc_ℤ,
}
use omega_services.Access.{fit, set_access}
use omega_services.IrcString.{valid_hostname}
use omega_services.Links.{find_serv}
use omega_services.Modes.User.{ModeUser, read_usermode_string}
use omega_services.Network.{Ptr, put_user, ◌>>=◌}
use omega_services.Users.{new_user}
use omega_services.Services.{
  Profile, is_bursting, nick_line, userconn, Services, Config, Env, put_net, put_profile, emit_line,
  serv_of, exit_named,
}

-- What `new_user` sets of a new user: no mode, no access and no metadata.
abbrev pub new_profile : Bytes → Profile → Profile
new_profile nick old = record {
  modes = record {
    account = record {
      nick = fit 50 nick;
      user = old.modes.account.user;
      host = old.modes.account.host;
      ip = [];
      oper = false;
      service = false;
      access = [];
      metadata = [];
    };
    registered = false;
    invis = false;
    ssl = false;
    bot = false;
    cloak = false;
    vhost = false;
    priv = false;
    admin = false;
    webtv = false;
    hideoper = false;
  };
  realname = old.realname;
  virthost = old.virthost;
  serv = old.serv;
}

-- The host of a user: a name that is not valid is replaced.
unfoldable pub host_of : Option Bytes → Bytes
unfolding valid_hostname
host_of none = codes "invalid.hostname"
host_of (some host) = if valid_hostname host then fit 64 host else codes "invalid.hostname"

-- The virtual host stays as it was if the name is not valid.
unfoldable pub virthost_of : Option Bytes → Bytes → Bytes
unfolding valid_hostname
virthost_of none old = old
virthost_of (some vhost) old = if valid_hostname vhost then fit 63 vhost else old

abbrev text_of : Option Bytes → ℕ → Bytes → Bytes
text_of none size old = old
text_of (some s) size old = fit size s

-- The user id, where the uplink has any: `strlcpy` of a NULL under P10.
abbrev pub uid_of : Config → Option Bytes → Option Bytes
uid_of cfg none = if cfg.p10 then none else some []
uid_of cfg (some uid) = some (if cfg.p10 || cfg.ts6 then fit 15 uid else [])

abbrev modes_of : Config → Option Bytes → ModeUser → ModeUser
modes_of cfg none m = m
modes_of cfg (some modes) m = read_usermode_string cfg.operonly cfg.accesslist cfg.umodes m modes

-- What `AddUser` writes before it looks for the server.
unfoldable pub fill_user :
    Config
    → (nick : Bytes) (user host : Option Bytes) (realname : Bytes) (modes : Option Bytes) → Profile
    → Profile
unfolding host_of
fill_user cfg nick user host realname modes old =
    let blank = new_profile nick old in
    let account = record blank.modes.account {
      host = host_of host;
      user = text_of user 10 blank.modes.account.user;
    } in
    record blank {
      realname = fit 50 realname;
      modes = modes_of cfg modes (record blank.modes { account = account });
    }

-- What `AddUser` writes of a user whose server it has found.
unfoldable pub settle_user : Config → Ptr → (vhost ip : Option Bytes) → Profile → Profile
unfolding virthost_of
settle_user cfg li vhost ip p =
    let account = record p.modes.account { ip = text_of ip 46 p.modes.account.ip } in
    record p {
      serv = some li;
      virthost = virthost_of vhost p.virthost;
      modes = record p.modes { account = (set_access cfg.operonly cfg.accesslist account).0 };
    }

abbrev is_zero : ℤ → Bool
is_zero (pos n) = n == 0
is_zero (negsuc n) = false

-- `usercnt++`, and the first maximum.
abbrev pub count_user : Services → Services
count_user st =
    let cnt = suc_ℤ st.usercnt in
    record st { usercnt = cnt; maxusers = if is_zero st.maxusers then cnt else st.maxusers }

-- The end of `AddUser`: a user from a server that is not known is taken back by its nick.
unfoldable pub place_user :
    Config
    → (nick : Bytes) (server vhost ip : Option Bytes) → Ptr
    → Profile
    → Services
    → Option (Option Ptr × Services)
unfolding settle_user exit_named
place_user cfg nick server vhost ip u filled st = serv_of server st.links >>= λ r. elim r [
  | none ↦ exit_named nick st >>= λ st'. some (none, st')
  | some li ↦ some (
    some u,
    emit_line (userconn u) (count_user (put_profile u (settle_user cfg li vhost ip filled) st)),
  )
]

-- `AddUser`, with the new user in the result.
unfoldable pub add_user :
    Config
    → Env
    → (nick : Bytes) (user host : Option Bytes) (realname : Bytes)
      (server modes uid vhost ip : Option Bytes)
    → Services
    → Option (Option Ptr × Services)
unfolding new_user fill_user place_user
add_user cfg env nick user host realname server modes uid vhost ip st =
    new_user env.fresh nick st.links.net >>= λ made. elim made.0 [
      | none ↦ some (none, st)
      | some u ↦
          let filled = fill_user cfg nick user host realname modes env.old_user in
          uid_of cfg uid >>= λ id. made.1.user u >>= λ us.
          place_user cfg nick server vhost ip u filled
            (put_profile u filled (put_net (put_user u (record us { uid = id }) made.1) st))
    ]

-- What `NewClient` writes of a client whose server it has found; `uid` is a new id of the services.
unfoldable pub client_profile :
    Config → (umode nick ident host name : Bytes) → Ptr → Profile → Profile
client_profile cfg umode nick ident host name li old =
    let blank = new_profile nick old in
    let account = record blank.modes.account {
      host = fit 64 host;
      user = fit 10 ident;
      ip = codes "127.0.0.1";
    } in
    let modes = modes_of cfg (some umode) (record blank.modes { account = account }) in
    record blank {
      realname = fit 50 name;
      serv = some li;
      modes = record modes { account = record modes.account { oper = true; service = true } };
    }

-- `NewClient`. Without an entry of the services' own server the user stays in the list.
unfoldable pub new_client :
    Config
    → Env
    → (umode uid nick ident host name : Bytes) → Services
    → Option (Option Ptr × Services)
unfolding new_user client_profile
new_client cfg env umode uid nick ident host name st =
    new_user env.fresh nick st.links.net >>= λ made. elim made.0 [
      | none ↦ some (none, st)
      | some u ↦
          let st1 = put_profile u (new_profile nick env.old_user) (put_net made.1 st) in
          find_serv cfg.servername st1.links >>= λ r. elim r [
            | none ↦ some (none, st1)
            | some li ↦ made.1.user u >>= λ us.
                let id = if cfg.ts6 || cfg.p10 then uid else [] in
                let us' = record us { uid = id; myconnect = true } in
                let st2 = put_net (put_user u us' made.1) st1 in
                let st3 =
                  put_profile u (client_profile cfg umode nick ident host name li env.old_user)
                    st2 in
                some (some u, if is_bursting st3.sync then st3 else emit_line (nick_line u) st3)
          ]
    ]
