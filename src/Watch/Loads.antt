-- ===== src/Watch/Loads.antt =====
-- load_watch and Module_Close of modules/client/g_watch.c: the entries of the settings, and the end of the
-- module. The settings are an argument: for each entry what is written under each of its keys.
use omega_services.Prelude.{
  ℕ, Bool, true, false, Option, none, some, List, [], ◌∷◌, Bytes, codes, eq_nocase, pos,
  if◌then◌else◌,
}
use omega_services.Network.{Ptr, ◌>>=◌}
use omega_services.Services.{Config, Env}
use omega_services.Tools.Times.{time_to_sec}
use omega_services.Tools.Tokens.{generictoken}
use omega_services.Watch.Add.{add_watch}
use omega_services.Watch.Entries.{Watches, Options, key_of, is_watched, new_watch, save_watchdb}
use omega_services.Watch.Remove.{del_watch}

-- `ConfBase`, at the keys that are read.
pub record WatchEntry : Type 0 where
  pub pattern : Option Bytes
  pub action : Option Bytes
  pub reason : Option Bytes
  pub flags : Option Bytes
  pub bantime : Option Bytes

-- The bit of a flag.
abbrev pub set_flag : Bytes → Options → Options
set_flag flag o =
    if eq_nocase flag (codes "IGNOREOPERS")
    then record o { ignoreoper = true }
    else if eq_nocase flag (codes "IGNOREACCESS")
    then record o { ignoreaccess = true }
    else if eq_nocase flag (codes "REGEX")
    then record o { regex = true }
    else o

unfoldable pub set_flags : List Bytes → Options → Options
set_flags [] o = o
set_flags (flag ∷ flags) o = set_flags flags (set_flag flag o)

unfoldable pub options_of : Option Bytes → Options
unfolding set_flags generictoken
options_of none = record { ignoreoper = false; ignoreaccess = false; regex = false }
options_of (some flags) =
    set_flags (generictoken b',' 50 flags)
      (record { ignoreoper = false; ignoreaccess = false; regex = false })

-- The span of time, or 0.
abbrev pub span_of : Option Bytes → Option ℕ
span_of none = some 0
span_of (some span) = time_to_sec span

module _ (guardian : Ptr) where
  -- The first loop of `load_watch`: the entries from the settings go.
  unfoldable pub forget_config : (unloading : Bool) → List Ptr → Watches → Option Watches
  unfolding del_watch
  forget_config unloading [] st = some st
  forget_config unloading (p ∷ ps) st = st.watch p >>= λ w.
      (if w.config then del_watch guardian unloading (key_of w) st else some st)
      >>= forget_config unloading ps

  -- The loop of `Module_Close`.
  unfoldable pub close_in : List Ptr → Watches → Option Watches
  unfolding del_watch
  close_in [] st = some st
  close_in (p ∷ ps) st = st.watch p >>= λ w. del_watch guardian true (key_of w) st >>= close_in ps

  -- `Module_Close`, after it has taken its functions back.
  unfoldable pub module_close : Watches → Option Watches
  unfolding save_watchdb close_in
  module_close st = save_watchdb (record st { timer = false }) >>= λ st'. close_in st'.watchlist st'

module _ (cfg : Config) (guardian : Ptr) (regx : Bytes → Bytes → Bool) (defaults : Options) where
  -- An entry with a pattern, an action and a reason.
  unfoldable pub load_full :
      Env → Ptr → (pattern action reason : Bytes) → WatchEntry → Watches → Option Watches
  unfolding is_watched add_watch options_of
  load_full env fresh pattern action reason e st = is_watched pattern st >>= λ r. elim r [
    | some p ↦ some st
    | none ↦ span_of e.bantime >>= λ bantime.
        add_watch cfg env guardian regx fresh pattern
          (new_watch defaults (options_of e.flags) action (some reason) (pos bantime) true) st
        >>= λ made. some made.1
  ]

  -- An entry of the settings; one that lacks a key that it needs is passed over.
  abbrev pub load_one : Env → Ptr → WatchEntry → Watches → Option Watches
  load_one env fresh e st = elim e.pattern [
    | none ↦ some st
    | some pattern ↦ elim e.action [
      | none ↦ some st
      | some action ↦ elim e.reason [
        | none ↦ some st
        | some reason ↦ load_full env fresh pattern action reason e st
      ]
    ]
  ]

  -- The second loop of `load_watch`; each entry comes with what `malloc` returns for it.
  unfoldable pub load_in : List ((Env × Ptr) × WatchEntry) → Watches → Option Watches
  unfolding load_full
  load_in [] st = some st
  load_in (((env, fresh), e) ∷ es) st = load_one env fresh e st >>= load_in es

  -- `load_watch`, also on REHASH; `none` are settings without an entry of the name watchentry.
  unfoldable pub load_watch :
      (unloading : Bool) → Option (List ((Env × Ptr) × WatchEntry)) → Watches → Option Watches
  unfolding forget_config load_in
  load_watch unloading none st = forget_config guardian unloading st.watchlist st
  load_watch unloading (some es) st =
      forget_config guardian unloading st.watchlist st >>= load_in es
