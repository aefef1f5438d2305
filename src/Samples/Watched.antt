-- ===== src/Samples/Watched.antt =====
-- Channels and nicks that are watched.
use omega_services.Prelude.{
  arith, ◌≡◌, refl, Bool, true, false, Option, none, some, List, [], ◌∷◌, Bytes, codes, eq_nocase,
  ◌==◌, if◌then◌else◌, pos,
}
use omega_services.Network.{Ptr, User, find_channel, new_chan, in_channel, add_to_channel_u}
use omega_services.Samples.Unreal.{config, world, at_first}
use omega_services.Services.{Services, put_net}
use omega_services.Users.{find_user}
use omega_services.Watch.Add.{add_watch}
use omega_services.Watch.Entries.{Watches, Options, new_watch, is_watched}
use omega_services.Watch.Actions.{is_exempt, Watch, take_action, find_action, action_num_to_name}
use omega_services.Watch.Commanded.{cmd_watch-NoKick}
use omega_services.Watch.Commands.{Reply, added, cmd_watch}
use omega_services.Watch.Kicks.{NoKick}
use omega_services.Match.Wild.{match_wild, same_char}
use omega_services.Tools.Times.{time_to_sec}
use omega_services.Tools.Tokens.{expand_parv}
use omega_services.Watch.Added.{add_watch-long}
use omega_services.Watch.Glines.{take_action-gline}

abbrev guardian : User
guardian = record { nick = codes "Guardian"; uid = []; myconnect = true; channels = [] }

abbrev ann : User
ann = record { nick = codes "ann"; uid = []; myconnect = false; channels = [] }

abbrev people : Ptr → Option User
people p = if p == 3 then some guardian else if p == 4 then some ann else none

abbrev with_people : Services
with_people =
    put_net
      (record {
        user = people;
        chan = λ c. none;
        userlist = 3 ∷ 4 ∷ [];
        channels = [];
        output = [];
      })
      at_first

abbrev no_option : Options
no_option = record { ignoreoper = false; ignoreaccess = false; regex = false }

abbrev gline_rule : Watch
gline_rule = new_watch no_option no_option (codes "gline") none (pos 0) false

abbrev no_regx : Bytes → Bytes → Bool
no_regx nick pattern = false

abbrev none_watched : Watches
none_watched = record {
  services = with_people;
  watch = λ p. none;
  watchlist = [];
  watchqueue = [];
  timer = true;
  db = [];
}

abbrev watches_of : Option (Ptr × Watches) → Watches
watches_of none = none_watched
watches_of (some r) = r.1

abbrev long_name : Bytes
long_name = codes "#omegabot"

abbrev made : Option (Ptr × Watches)
made = add_watch config (world 60) 3 no_regx 70 long_name gline_rule none_watched

made_lem : made ≡ some (70, watches_of made)
unfolding add_watch is_watched eq_nocase find_channel new_chan in_channel add_to_channel_u
made_lem = refl

add_watch-long_example : is_watched long_name (watches_of made) ≡ some none
unfolding is_watched
add_watch-long_example =
    add_watch-long config (world 60) 3 no_regx 70 70 long_name gline_rule none_watched
      (watches_of made) refl refl (omega arith) tt refl made_lem

take_action-gline_example : take_action gline_rule 4 with_people ≡ none
unfolding find_user eq_nocase is_exempt find_action
take_action-gline_example = take_action-gline gline_rule 4 ann with_people refl refl refl refl

kline_is_gline : action_num_to_name (pos (find_action (codes "KLINE"))) ≡ codes "gline"
unfolding action_num_to_name find_action eq_nocase
kline_is_gline = refl

-- A rule for nicks that is to kick.
abbrev add_words : List Bytes
add_words =
    codes "ADD" ∷ codes "spam*" ∷ codes "kickban" ∷ codes "1h" ∷ codes "go" ∷ codes "away" ∷ []

abbrev commanded : Option (Reply × Watches)
commanded = cmd_watch config (world 60) 3 no_regx no_option 70 add_words none_watched

abbrev then_state : Option (Reply × Watches) → Watches
then_state none = none_watched
then_state (some r) = r.1

commanded_lem : commanded ≡ some (added (codes "spam*"), then_state commanded)
unfolding cmd_watch add_watch is_watched eq_nocase find_action match_wild time_to_sec expand_parv
    same_char
commanded_lem = refl

cmd_watch-NoKick_example : NoKick (then_state commanded).watch
cmd_watch-NoKick_example =
    cmd_watch-NoKick config (world 60) 3 no_regx no_option 70 add_words (added (codes "spam*"))
      none_watched (then_state commanded) (λ p w e. cc e) commanded_lem
