-- ===== src/Samples/Letters.antt =====
-- Texts of modes.
use omega_services.Prelude.{
  ◌≡◌, refl, true, false, some, List, [], ◌∷◌, ◌++◌, Bytes, codes, pos, spaced, arith, eq_bytes,
  codes,
}
use omega_services.Modes.Channel.{
  ChanModes, ircd_cmodes, create_chanmode_string, read_chanmode_string, mode_letters,
  findcmode_bysymbol,
}
use omega_services.Modes.Channel.Reads.{no_modes}
use omega_services.Modes.Channel.Restored.{read_chanmode_string-create}
use omega_services.Modes.User.{
  ModeUser, UModes, create_usermode_string, read_usermode_string, find_umode,
}
use omega_services.Modes.User.Granted.{read_usermode_string-InStep, InStep}
use omega_services.Access.{set_access, first_match}
use omega_services.Modes.Channel.Decimal.{print_decimal, put_decimal}

abbrev modes : ChanModes
modes = record {
  registered = true;
  onlyoptopic = true;
  external = false;
  haskey = true;
  key = codes "se cret";
  limit = pos 25;
  modef = [];
  unknownmodes = codes "sm";
}

chanmode_string : create_chanmode_string ircd_cmodes modes ≡ some (codes "+rtsmkl se cret 25")
unfolding create_chanmode_string ircd_cmodes print_decimal put_decimal
chanmode_string = refl

symbol : findcmode_bysymbol ircd_cmodes (codes "@") ≡ pos 2
unfolding findcmode_bysymbol ircd_cmodes eq_bytes
symbol = refl

read_chanmode_string-create_example :
    (args : List Bytes) × (create_chanmode_string ircd_cmodes modes
      ≡ some (mode_letters ircd_cmodes modes ++ spaced args))
    × (read_chanmode_string ircd_cmodes true no_modes (mode_letters ircd_cmodes modes) args
        ≡ some (record modes { registered = false; modef = [] }))
unfolding ircd_cmodes eq_bytes
read_chanmode_string-create_example = read_chanmode_string-create true modes (record {
  unknown = ground arith;
  few = omega arith;
  key_fits = omega arith;
  limit_fits = omega arith;
})

abbrev umodes : UModes
umodes = some (codes "r") ∷ some (codes "o") ∷ some (codes "i") ∷ []

abbrev anyone : ModeUser
anyone = record {
  account = record {
    nick = codes "Nick";
    user = codes "me";
    host = codes "example.org";
    ip = codes "192.0.2.7";
    oper = false;
    service = false;
    access = codes "u";
    metadata = [];
  };
  registered = false;
  invis = false;
  ssl = false;
  bot = false;
  cloak = false;
  vhost = false;
  priv = false;
  admin = false;
  webtv = false;
  hideoper = false;
}

usermode_string :
    create_usermode_string umodes (read_usermode_string true [] umodes anyone (codes "+oir-r"))
    ≡ codes "+oi"
unfolding create_usermode_string read_usermode_string set_access
usermode_string = refl

read_usermode_string-InStep_example :
    InStep true [] (read_usermode_string true [] umodes anyone (codes "+oir-o"))
unfolding find_umode first_match
read_usermode_string-InStep_example =
    read_usermode_string-InStep true [] umodes anyone (codes "+oir-o")
      (cc, (cc, (cc, (cc, (cc, (cc, tt)))))) refl refl
