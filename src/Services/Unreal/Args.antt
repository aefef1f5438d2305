-- ===== src/Services/Unreal/Args.antt =====
-- What the handlers of modules/protocol/unreal32.c share: their parameters, where a word that is not there is
-- NULL, and the lines by which a client of the services is shown to the uplink.
use omega_services.Prelude.{
  ℕ, zero, suc, Bool, true, false, Option, none, some, List, [], ◌∷◌, Bytes, eq_nocase,
  if◌then◌else◌,
}
use omega_services.Modes.Channel.{create_chanmode_string}
use omega_services.Network.{Ptr, ◌>>=◌}
use omega_services.Services.{
  Services, Config, nick_line, sjoin_line, reserved, emit_line, put_profile, user_of,
}

abbrev pub Argv : Type 0
Argv = List (Option Bytes)

-- `argv[i]`
abbrev pub arg : Argv → ℕ → Option Bytes
arg [] i = none
arg (a ∷ argv) zero = a
arg (a ∷ argv) (suc i) = arg argv i

-- The words up to the first NULL.
abbrev pub present : Argv → List Bytes
present [] = []
present (none ∷ argv) = []
present (some a ∷ argv) = a ∷ present argv

-- An operator's mode is hidden for a client of ours.
abbrev pub hide_oper : Bool → Ptr → Services → Services
hide_oper true u st =
    let p = st.profile u in
    put_profile u (record p { modes = record p.modes { hideoper = true } }) st
hide_oper false u st = st

-- The nick of a service is reserved.
abbrev pub reserve : Bool → Ptr → Services → Services
reserve true u st = emit_line (reserved u) st
reserve false u st = st

-- `unreal_add_user`
unfoldable pub unreal_add_user : Ptr → Services → Option Services
unreal_add_user u st = st.links.net.user u >>= λ us.
    let service = (st.profile u).modes.account.service in
    some (reserve service u (emit_line (nick_line u) (hide_oper us.myconnect u st)))

-- `unreal_join`
unfoldable pub unreal_join : Config → Ptr → Ptr → Services → Option Services
unfolding create_chanmode_string
unreal_join cfg u c st = st.links.net.chan c >>= λ ch.
    create_chanmode_string cfg.cmodes (st.room c).modes >>= λ modes.
    some (emit_line (sjoin_line u c) st)

-- The loop over the channels of a client that joins them again.
unfoldable pub rejoin : Config → Ptr → List Ptr → Services → Option Services
unfolding unreal_join
rejoin cfg u [] st = some st
rejoin cfg u (c ∷ cs) st = unreal_join cfg u c st >>= rejoin cfg u cs

-- `isOurClient`: a user without a server is a read of memory that was never set.
unfoldable pub is_our_client : Config → Option Bytes → Services → Option (Option Ptr)
is_our_client cfg client st = user_of client st.links.net >>= λ r. elim r [
  | none ↦ some none
  | some u ↦ (st.profile u).serv >>= λ s.
      st.links.srv s >>= λ li. some (if eq_nocase li.name cfg.servername then some u else none)
]
