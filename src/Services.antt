-- ===== src/Services.antt =====
-- The state of the services as the modules share it: users, channels, servers, the modes of users and
-- channels, and what is sent to the uplink. The parts are those of Links, Network, Users and Modes.
-- `none` as a result is a read through NULL, or of memory that is freed or was never set.
pub mod Clients
pub mod Unreal
pub mod Keeps
pub mod Attempts
pub mod Counts
use omega_services.Prelude.{
  ℕ, zero, suc, ◌+◌, Bool, true, false, ◌&&◌, ◌||◌, not, Option, none, some, List, [], ◌∷◌, ◌++◌,
  Bytes, codes, ◌==◌, if◌then◌else◌, ℤ, pos, suc_ℤ, pred_ℤ, eq_nocase,
}
use omega_services.Access.{Account, Access, fit}
use omega_services.IrcString.{valid_hostname}
use omega_services.Links.{Link, Links, find_serv}
use omega_services.Modes.Channel.{CMode, ChanModes}
use omega_services.Modes.User.{ModeUser, UModes}
use omega_services.Network.{Ptr, Flags, User, Net, update, ◌>>=◌, find_channel, exit_one_user}
use omega_services.Users.{find_user, exit_user}

-- What `struct USER` has besides the fields in Network. The nick of the account is a copy.
pub record Profile : Type 0 where
  pub modes : ModeUser
  pub realname : Bytes
  pub virthost : Bytes
  pub serv : Option Ptr

-- What `struct channel_` has besides the fields in Network.
pub record Room : Type 0 where
  pub modes : ChanModes
  pub channelts : ℤ

-- `sync_state`
pub data Sync : Type 0 where
  starting : Sync
  bursting : Sync
  is_con : Sync

abbrev pub is_bursting : Sync → Bool
is_bursting bursting = true
is_bursting starting = false
is_bursting is_con = false

-- The lines that go to the uplink and the event of a new user, in order.
pub data Sent : Type 0 where
  nick_line : Ptr → Sent
  sjoin_line : Ptr → Ptr → Sent
  part_line : Ptr → Bytes → Sent
  kill_line : Option Ptr → Sent
  ping_line : Bytes → Sent
  userconn : Ptr → Sent
  linked : ℕ → Sent
  denied : Ptr → Sent
  rehashing : Ptr → Sent
  ban_line kick_line : Ptr → Ptr → Sent
  gline : Bytes → Sent
  reserved : Ptr → Sent

-- `logging` tells whether modules/client/g_log.c is loaded.
pub record Services : Type 0 where
  pub links : Links
  pub profile : Ptr → Profile
  pub room : Ptr → Room
  pub usercnt : ℤ
  pub maxusers : ℤ
  pub sync : Sync
  pub uplink : Option Ptr
  pub lastpong : ℕ
  pub introduce_attempts : ℕ
  pub last_attempt : ℕ
  pub sent : List Sent
  pub exited : Bool
  pub logging : Bool

-- The settings, the tables of the protocol, and the access list.
pub record Config : Type 0 where
  pub servername : Bytes
  pub me : Option Ptr
  pub umodes : UModes
  pub cmodes : List CMode
  pub operonly : Bool
  pub accesslist : List Access
  pub ts6 : Bool
  pub p10 : Bool

-- What the world gives to one command: the time, the address that `malloc` returns and what the
-- block holds, what local variables hold before they are set, and the address that `decode_ip` and
-- `str_ntoa` make of a text.
pub record Env : Type 0 where
  pub now : ℕ
  pub fresh : Ptr
  pub old_user : Profile
  pub old_room : Room
  pub junk : Flags
  pub toadd : Bool
  pub address : Bytes → Bytes

abbrev pub put_net : Net → Services → Services
put_net n st = record st { links = record st.links { net = n } }

abbrev pub put_links : Links → Services → Services
put_links l st = record st { links = l }

abbrev pub emit_line : Sent → Services → Services
emit_line s st = record st { sent = st.sent ++ s ∷ [] }

abbrev pub put {ℓ} : {A : Type ℓ} → (Ptr → A) → Ptr → A → Ptr → A
put f p v q = if p == q then v else f q

abbrev pub put_profile : Ptr → Profile → Services → Services
put_profile p v st = record st { profile = put st.profile p v }

abbrev pub put_room : Ptr → Room → Services → Services
put_room c r st = record st { room = put st.room c r }

-- `(u->serv)? u->serv->name : "Unknown"`, which the log of an exit reads.
abbrev pub name_at : Option Ptr → Links → Option Bytes
name_at none l = some (codes "Unknown")
name_at (some p) l = l.srv p >>= λ li. some li.name

-- The event USEREXIT: the function that modules/client/g_log.c registers for it counts the user down.
abbrev pub after_exits : (logging : Bool) → ℕ → ℤ → ℤ
after_exits false n usercnt = usercnt
after_exits true zero usercnt = usercnt
after_exits true (suc n) usercnt = after_exits true n (pred_ℤ usercnt)

-- `exit_user`, with the count of users.
unfoldable pub exit_named : Bytes → Services → Option Services
unfolding find_user exit_user
exit_named name st = find_user st.links.net name >>= λ r. elim r [
  | none ↦ some st
  | some u ↦ name_at (st.profile u).serv st.links >>= λ server. exit_user name st.links.net >>= λ n.
      some (put_net n (record st { usercnt = pred_ℤ (after_exits st.logging 1 st.usercnt) }))
]

-- `exit_one_user`, which leaves the count to the event.
unfoldable pub exit_one : Ptr → Services → Option Services
unfolding exit_one_user
exit_one u st = name_at (st.profile u).serv st.links >>= λ server.
    exit_one_user u st.links.net >>= λ n.
    some (put_net n (record st { usercnt = after_exits st.logging 1 st.usercnt }))

-- The account of a user with the nick as it is now.
abbrev pub account_of : User → Profile → Account
account_of us p = record p.modes.account { nick = us.nick }

abbrev pub named : User → Profile → ModeUser
named us p = record p.modes { account = account_of us p }

-- A change of the modes of a user by `read_usermode_string`.
abbrev pub put_modes : Ptr → ModeUser → Services → Services
put_modes u m st = let p = st.profile u in put_profile u (record p { modes = m }) st

-- `find_user`, `find_channel` and `find_serv` answer NULL to NULL.
abbrev pub user_of : Option Bytes → Net → Option (Option Ptr)
user_of none n = some none
user_of (some name) n = find_user n name

abbrev pub channel_of : Option Bytes → Net → Option (Option Ptr)
channel_of none n = some none
channel_of (some name) n = find_channel n name n.channels

abbrev pub serv_of : Option Bytes → Links → Option (Option Ptr)
serv_of none l = some none
serv_of (some name) l = find_serv name l
