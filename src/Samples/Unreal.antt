-- ===== src/Samples/Unreal.antt =====
-- A session with an uplink of the unreal32 protocol.
use omega_services.Prelude.{
  tolower, eq_nocase, ◌≡◌, refl, Bool, true, false, Option, none, some, List, [], ◌∷◌, Bytes, codes,
  pos, negsuc, arith,
}
use omega_services.Links.{Link, find_serv}
use omega_services.Modes.Channel.{ircd_cmodes}
use omega_services.Network.{Ptr, find_channel, new_chan}
use omega_services.Samples.Servers.{tree}
use omega_services.Services.{
  Services, emit_line, denied, exit_named, Config, Env, Profile, Room, bursting,
}
use omega_services.Services.Attempts.{count_kills, count_kills-exits}
use omega_services.Services.Clients.{add_user}
use omega_services.Services.Counts.{quit-usercnt, add_user-unknown_server}
use omega_services.Services.Keeps.Lines.{KeepsCounted, run_lines-Counted}
use omega_services.Services.Keeps.Rules.{Counted, Gives-some}
use omega_services.Services.Unreal.{Modules, umodes, run_lines}
use omega_services.Services.Unreal.Servers.{omega_quit}
use omega_services.Users.{find_user}
use omega_services.Tools.Hash.{hash_safe}

abbrev pub config : Config
config = record {
  servername = codes "omega.example";
  me = some 1;
  umodes = umodes;
  cmodes = ircd_cmodes;
  operonly = false;
  accesslist = [];
  ts6 = false;
  p10 = false;
}

abbrev old : Profile
old = record {
  modes = record {
    account = record {
      nick = [];
      user = [];
      host = [];
      ip = [];
      oper = false;
      service = false;
      access = [];
      metadata = [];
    };
    registered = false;
    invis = false;
    ssl = false;
    bot = false;
    cloak = false;
    vhost = false;
    priv = false;
    admin = false;
    webtv = false;
    hideoper = false;
  };
  realname = [];
  virthost = [];
  serv = none;
}

abbrev old_room : Room
old_room = record {
  modes = record {
    registered = false;
    onlyoptopic = false;
    external = false;
    haskey = false;
    key = [];
    limit = pos 0;
    modef = [];
    unknownmodes = [];
  };
  channelts = pos 0;
}

abbrev pub world : Ptr → Env
world fresh = record {
  now = 1000;
  fresh = fresh;
  old_user = old;
  old_room = old_room;
  junk = record { owner = false; protect = false; op = false; halfop = false; voice = false };
  toadd = true;
  address = λ text. text;
}

abbrev pub at_first : Services
at_first = record {
  links = tree;
  profile = λ p. old;
  room = λ c. old_room;
  usercnt = pos 0;
  maxusers = pos 0;
  sync = bursting;
  uplink = none;
  lastpong = 0;
  introduce_attempts = 0;
  last_attempt = 0;
  sent = [];
  exited = false;
  logging = false;
}

-- The handlers of the rest of the program: 100 is for PRIVMSG, and sends a reply.
abbrev modules : Modules
modules = record {
  user_before = (codes "PRIVMSG", 100) ∷ [];
  user_later = [];
  serv_before = [];
  serv_later = [];
  on_user = λ h u argc argv st. some (emit_line (denied u) st);
  on_serv = λ h li argc argv st. some st;
}

modules-KeepsCounted : KeepsCounted modules
modules-KeepsCounted = record {
  user = λ h u argc argv st k. Gives-some _ k;
  serv = λ h li argc argv st k. Gives-some st k;
}

abbrev told : List (Env × Bytes)
told =
    (world 50, codes "NICK ann 2 1217 ann host.example up.example 1 +i v.example 2Fac :Ann")
    ∷ (world 51, codes "SJOIN 1214 #c +nt :@ann")
    ∷ (world 52, codes ":ann PRIVMSG Omega :HELP")
    ∷ (world 53, codes ":ann PART #c")
    ∷ []

abbrev state_of : Option Services → Services
state_of none = at_first
state_of (some st) = st

abbrev did_run : Option Services → Bool
did_run none = false
did_run (some st) = true

runs : (o : Option Services) → did_run o ≡ true → o ≡ some (state_of o)
runs none h = cc
runs (some st) h = refl

told_runs : did_run (run_lines modules config told at_first) ≡ true
unfolding run_lines hash_safe tolower eq_nocase find_channel new_chan ircd_cmodes
told_runs = refl

-- The services' own entry, the uplink and its servers, and nobody.
at_first-Counted : Counted at_first
at_first-Counted c ch e = cc

run_lines-Counted_example : Counted (state_of (run_lines modules config told at_first))
run_lines-Counted_example =
    run_lines-Counted modules config told at_first
      (state_of (run_lines modules config told at_first)) modules-KeepsCounted at_first-Counted
      (runs (run_lines modules config told at_first) told_runs)

-- The user who parted is the only one that is left.
told_usercnt : (state_of (run_lines modules config told at_first)).usercnt ≡ pos 1
unfolding run_lines hash_safe tolower eq_nocase find_channel new_chan ircd_cmodes
told_usercnt = refl

told_channels : (state_of (run_lines modules config told at_first)).links.net.channels ≡ []
unfolding run_lines hash_safe tolower eq_nocase find_channel new_chan ircd_cmodes
told_channels = refl

-- The entry of the server of the user.
abbrev uplink_server : Link
uplink_server = record { name = codes "up.example"; sid = []; uplink = some 1; eos = false }

quit-usercnt_example :
    (st1 st2 st3 : Services) × (add_user config
        (world 50)
        (codes "ann")
        none
        none
        (codes "Ann")
        (some (codes "up.example"))
        none
        none
        none
        none
        at_first
      ≡ some (some 50, st1))
    × (omega_quit 50 st1 ≡ some st2)
    × (exit_named (codes "ann") st1 ≡ some st3)
    × (st2.links.net.user 50 ≡ none)
    × (st3.links.net.user 50 ≡ none)
    × (st2.usercnt ≡ pos 1)
    × (st3.usercnt ≡ pos 0)
unfolding find_user find_serv eq_nocase
quit-usercnt_example =
    quit-usercnt config (world 50) (codes "ann") none none (codes "Ann") (some (codes "up.example"))
      none none none none at_first refl refl refl 2 uplink_server refl refl tt (omega arith)

add_user-unknown_server_example :
    (st' : Services) × (add_user config
        (world 50)
        (codes "ann")
        none
        none
        (codes "Ann")
        (some (codes "lost.example"))
        none
        none
        none
        none
        at_first
      ≡ some (none, st'))
    × (st'.links.net.user 50 ≡ none)
    × (st'.usercnt ≡ negsuc 0)
unfolding find_user find_serv eq_nocase
add_user-unknown_server_example =
    add_user-unknown_server config (world 50) (codes "ann") none none (codes "Ann")
      (some (codes "lost.example")) none none none none at_first refl refl refl refl tt
      (omega arith)

abbrev at_third : Services
at_third = record at_first { introduce_attempts = 3; last_attempt = 1000 }

count_kills-exits_example : (count_kills (100000 ∷ 200000 ∷ []) at_third).exited ≡ true
count_kills-exits_example = count_kills-exits 100000 200000 [] at_third (omega arith)
