-- ===== src/Watch/Actions.antt =====
-- The actions of modules/client/g_watch.c and what they do to a user.
use omega_services.Prelude.{
  ℕ, Bool, ◌&&◌, ◌||◌, Option, some, List, [], ◌∷◌, Bytes, codes, ◌==◌, eq_nocase, if◌then◌else◌, ℤ,
  pos, negsuc,
}
use omega_services.Access.{check_access, acc_flag_user}
use omega_services.Network.{Ptr, User, ◌>>=◌, del_from_channel}
use omega_services.Services.{
  Services, kill_line, ban_line, kick_line, gline, put_net, emit_line, exit_named, account_of,
}

-- `struct watch_`; the bits of `options` are fields.
pub record Watch : Type 0 where
  pub channel : Option Ptr
  pub action : ℤ
  pub ignoreoper : Bool
  pub ignoreaccess : Bool
  pub regex : Bool
  pub message : Bytes
  pub nickpattern : Bytes
  pub channame : Bytes
  pub existing : Bool
  pub bantime : ℤ
  pub config : Bool

abbrev pub kick : ℕ
kick = 1

abbrev pub kill : ℕ
kill = 2

abbrev pub gline_action : ℕ
gline_action = 3

-- `actions`
unfoldable pub actions : List (ℕ × Bytes)
actions =
    (0, codes "none")
    ∷ (kick, codes "kick")
    ∷ (kick, codes "kickban")
    ∷ (kill, codes "kill")
    ∷ (gline_action, codes "gline")
    ∷ (gline_action, codes "zline")
    ∷ (gline_action, codes "gzline")
    ∷ (gline_action, codes "kline")
    ∷ []

unfoldable pub action_in : Bytes → List (ℕ × Bytes) → ℕ
action_in name [] = 0
action_in name ((action, known) ∷ rest) =
    let more = action_in name rest in if eq_nocase known name then action else more

-- `find_action`
unfoldable pub find_action : Bytes → ℕ
unfolding action_in actions
find_action name = action_in name actions

unfoldable pub name_in : ℤ → List (ℕ × Bytes) → Bytes
name_in action [] = codes "Unknown"
name_in (negsuc n) (a ∷ rest) = name_in (negsuc n) rest
name_in (pos n) ((action, known) ∷ rest) =
    let more = name_in (pos n) rest in if action == n then known else more

-- `action_num_to_name`
unfoldable pub action_num_to_name : ℤ → Bytes
unfolding name_in actions
action_num_to_name action = name_in action actions

-- The exemptions of `take_action`.
unfoldable pub is_exempt : Watch → User → Services → Ptr → Bool
unfolding check_access
is_exempt w us s u =
    us.myconnect
    || ((w.ignoreoper && (s.profile u).modes.account.oper)
        || (w.ignoreaccess && check_access (account_of us (s.profile u)) (some acc_flag_user)))

-- The ban and the kick from the watched channel, which has to be there.
unfoldable pub kick_out : Watch → Ptr → Services → Option Services
unfolding del_from_channel
kick_out w u s = w.channel >>= λ c. s.links.net.chan c >>= λ ch.
    del_from_channel u c s.links.net >>= λ n.
    some (put_net n (emit_line (kick_line u c) (emit_line (ban_line u c) s)))

-- `switch (watch->action)`. For a G-line the host is read behind `exit_user`.
unfoldable pub act : ℤ → Watch → Ptr → User → Services → Option Services
unfolding kick_out exit_named
act (negsuc k) w u us s = some s
act (pos k) w u us s =
    if k == kick
    then kick_out w u s
    else if k == kill
    then exit_named us.nick (emit_line (kill_line (some u)) s)
    else if k == gline_action
    then (exit_named us.nick (emit_line (kill_line (some u)) s) >>= λ s'.
        s'.links.net.user u >>= λ us'.
        some (emit_line (gline (s'.profile u).modes.account.host) s'))
    else some s

-- `take_action`
unfoldable pub take_action : Watch → Ptr → Services → Option Services
unfolding is_exempt act
take_action w u s =
    s.links.net.user u >>= λ us. if is_exempt w us s u then some s else act w.action w u us s
