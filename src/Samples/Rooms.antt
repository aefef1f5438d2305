-- ===== src/Samples/Rooms.antt =====
-- Users and channels.
use omega_services.Prelude.{
  ◌≡◌, refl, true, false, eq_bytes, none, some, [], ◌∷◌, codes, ◌==◌, arith, eq_nocase, pos,
  if◌then◌else◌,
}
use omega_services.Network.{
  Flags, ChanUser, Channel, User, Net, take_chanuser, del_from_channel, add_to_channel_u,
  kick_from_channel, exit_one_user, part_all, part, farewell, find_delete,
}
use omega_services.Network.Members.{IsCounted}
use omega_services.Network.Exits.{del_from_channel-member, kick_from_channel-miscounts}
use omega_services.Modes.Channel.{ircd_cmodes}
use omega_services.Users.{find_user}
use omega_services.Users.Sjoin.{read_prefixes, create_sjoin_nicklist, add_to_channel}

abbrev no_flags : Flags
no_flags = record { owner = false; protect = false; op = false; halfop = false; voice = false }

abbrev nick : User
nick = record { nick = codes "Nick"; uid = codes "1AAAAAAAA"; myconnect = false; channels = 8 ∷ [] }

abbrev only_nick : ChanUser
only_nick = record { user = 3; flags = no_flags }

abbrev lobby : Channel
lobby = record { name = codes "#lobby"; users = only_nick ∷ []; usercnt = pos 1 }

-- Nick is in the lobby.
abbrev in_lobby : Net
in_lobby = record {
  user = λ p. if p == 3 then some nick else none;
  chan = λ p. if p == 8 then some lobby else none;
  userlist = 3 ∷ [];
  channels = 8 ∷ [];
  output = [];
}

in_lobby-IsCounted : IsCounted in_lobby
in_lobby-IsCounted c ch e = ground arith

del_from_channel-member_example :
    (n' : Net) × (del_from_channel 3 8 in_lobby ≡ some n') × (n'.chan 8 ≡ none) × (n'.channels ≡ [])
unfolding take_chanuser eq_nocase find_delete
del_from_channel-member_example =
    del_from_channel-member 3 8 nick lobby only_nick [] in_lobby refl refl refl in_lobby-IsCounted

kick_from_channel-miscounts_example :
    (n' : Net) × (kick_from_channel 3 8 in_lobby ≡ some n')
    × (n'.chan 8 ≡ some (record lobby { users = [] }))
    × (n'.channels ≡ 8 ∷ [])
    × ¬ IsCounted n'
unfolding take_chanuser eq_nocase
kick_from_channel-miscounts_example =
    kick_from_channel-miscounts 3 8 nick lobby only_nick [] in_lobby refl refl refl
      in_lobby-IsCounted

exit_runs : exit_one_user 3 in_lobby ≡ some (farewell 3 nick (part 3 8 nick lobby [] in_lobby))
unfolding exit_one_user part_all del_from_channel take_chanuser eq_nocase
exit_runs = refl

burst_name : read_prefixes ircd_cmodes false (codes "@+Nick") ≡ (true, codes "Nick")
unfolding read_prefixes ircd_cmodes eq_bytes
burst_name = refl

burst_names : create_sjoin_nicklist ircd_cmodes in_lobby 8 ≡ some (codes "Nick")
unfolding create_sjoin_nicklist
burst_names = refl

-- Nick is in the lobby already.
burst_again : add_to_channel ircd_cmodes no_flags (codes "Nick") 8 in_lobby ≡ some in_lobby
unfolding add_to_channel add_to_channel_u find_user eq_nocase
burst_again = refl
