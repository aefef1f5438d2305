-- ===== src/Watch/Commands.antt =====
-- cmd_watch of modules/client/g_watch.c: the command WATCH of an operator. The text of a reply is a value.
use omega_services.Prelude.{
  ℕ, Bool, true, false, ◌&&◌, ◌||◌, not, Option, none, some, List, [], ◌∷◌, ◌++◌, Bytes, codes,
  length, get_elem?, ltb, ◌==◌, eq_nocase, if◌then◌else◌, ℤ, pos,
}
use omega_services.Links.{is_empty}
use omega_services.Network.{Ptr, update, ◌>>=◌}
use omega_services.Services.{Config, Env}
use omega_services.Tools.Times.{time_to_sec}
use omega_services.Tools.Tokens.{expand_parv}
use omega_services.Watch.Actions.{Watch}
use omega_services.Watch.Add.{add_watch}
use omega_services.Watch.Entries.{
  Watches, Options, add_db_entry, key_of, is_watched, is_alpha, action_of, kill_for_kick, new_watch,
}
use omega_services.Watch.Remove.{del_watch}

-- What the user is told.
pub data Reply : Type 0 where
  listed : List Bytes → Reply
  help syntax_add syntax_set moved nick_only silent : Reply
  already added not_watched removed set_message : Bytes → Reply
  set_action : ℤ → Reply
  turned : (option : Bytes) → (on : Bool) → Reply

-- The entries that LIST shows, by name.
unfoldable pub names_in : (Ptr → Option Watch) → List Ptr → Option (List Bytes)
names_in watch [] = some []
names_in watch (p ∷ ps) = watch p >>= λ w. names_in watch ps >>= λ more.
    some (if is_empty w.nickpattern && is_empty w.channame then more else key_of w ∷ more)

abbrev starts_alpha : Bytes → Bool
starts_alpha [] = false
starts_alpha (c ∷ s) = is_alpha c

abbrev pub no_flags : Options
no_flags = record { ignoreoper = false; ignoreaccess = false; regex = false }

-- An entry that is not from the settings is written to the database.
abbrev pub save_entry : Watch → Watches → Watches
save_entry w st = if w.config then st else record st { db = st.db ++ add_db_entry (key_of w) ∷ [] }

abbrev pub put_watch : Ptr → Watch → Watches → Watches
put_watch p w st = record st { watch = update st.watch p (some w) }

-- `strcasecmp (params[3], "ON")`, or "YES"
abbrev pub is_on : Bytes → Bool
is_on value = eq_nocase value (codes "ON") || eq_nocase value (codes "YES")

-- ACTION. A nick cannot be kicked.
unfoldable pub with_action : Bytes → Watch → Watch
with_action value w =
    let action = action_of value in
    record w { action = if is_empty w.nickpattern then action else kill_for_kick action }

-- A bit that has the value already is not told of.
abbrev pub told : Bytes → (old on : Bool) → Reply
told option old on =
    if on
    then (if old then silent else turned option true)
    else if old
    then turned option false
    else silent

-- The options of SET that are written to the database, with the reply; `none` is a span of time that C gives no meaning.
unfoldable pub set_option : (option value : Bytes) → Watch → Option (Reply × Watch)
unfolding time_to_sec
set_option option value w =
    let on = is_on value in
    if eq_nocase option (codes "IGNOREOPERS")
    then some (told (codes "IGNOREOPERS") w.ignoreoper on, record w { ignoreoper = on })
    else if eq_nocase option (codes "IGNOREACCESS")
    then some (told (codes "IGNOREACCESS") w.ignoreaccess on, record w { ignoreaccess = on })
    else if eq_nocase option (codes "REGEX")
    then some (told (codes "REGEX") w.regex on, record w { regex = on })
    else if eq_nocase option (codes "BANTIME")
    then (time_to_sec value >>= λ t. some (silent, record w { bantime = pos t }))
    else some (silent, w)

-- SET of an entry that is there.
unfoldable pub set_entry :
    Ptr → Watch → (option value : Bytes) → List Bytes → Watches → Option (Reply × Watches)
unfolding with_action set_option expand_parv
set_entry p w option value params st =
    if eq_nocase option (codes "ACTION")
    then (let w' = with_action value w in some (set_action w'.action, put_watch p w' st))
    else if eq_nocase option (codes "MESSAGE")
    then (expand_parv 2049 3 params >>= λ s.
        some (set_message s, put_watch p (record w { message = s }) st))
    else if eq_nocase option (codes "REGEX") && is_empty w.nickpattern
    then some (nick_only, st)
    else (set_option option value w >>= λ r. some (r.0, save_entry r.1 (put_watch p r.1 st)))

-- SET
unfoldable pub watch_set : List Bytes → Watches → Option (Reply × Watches)
unfolding is_watched set_entry
watch_set params st =
    if ltb (length params) 4
    then some (syntax_set, st)
    else (get_elem? params 1 >>= λ option. get_elem? params 2 >>= λ rule.
        get_elem? params 3 >>= λ value. is_watched rule st >>= λ r. elim r [
          | none ↦ some (not_watched rule, st)
          | some p ↦ st.watch p >>= λ w. set_entry p w option value params st
        ])

-- REMOVE; the module is not being unloaded.
unfoldable pub watch_remove : Ptr → List Bytes → Watches → Option (Reply × Watches)
unfolding is_watched del_watch
watch_remove guardian params st =
    if ltb (length params) 2
    then some (silent, st)
    else (get_elem? params 1 >>= λ rule. is_watched rule st >>= λ r. elim r [
      | none ↦ some (not_watched rule, st)
      | some p ↦ del_watch guardian false rule st >>= λ st'. some (removed rule, st')
    ])

-- What the reply of ADD calls an entry: a channel by its name, which is read again.
unfoldable pub told_name : Watch → Watches → Option Bytes
told_name w st =
    if is_empty w.nickpattern
    then (w.channel >>= λ c. st.services.links.net.chan c >>= λ ch. some ch.name)
    else some w.nickpattern

module _ (cfg : Config) (env : Env) (guardian : Ptr) (regx : Bytes → Bytes → Bool)
    (defaults : Options) where
  -- ADD of a name that is not watched, with its span of time and the words from the message on.
  unfoldable pub add_new :
      (fresh : Ptr)
      → (pattern action reason : Bytes) → (bantime : ℕ) → Watches
      → Option (Reply × Watches)
  unfolding add_watch told_name
  add_new fresh pattern action reason bantime st =
      let new = new_watch defaults no_flags action (some reason) (pos bantime) false in
      add_watch cfg env guardian regx fresh pattern new st >>= λ made. made.1.watch made.0 >>= λ w.
      told_name w made.1 >>= λ name. some (added name, save_entry w made.1)

  -- ADD. The message is not there where a span of time is the last word; then it is what the stack holds, and this has no result.
  unfoldable pub watch_add : (fresh : Ptr) → List Bytes → Watches → Option (Reply × Watches)
  unfolding add_new time_to_sec expand_parv is_watched
  watch_add fresh params st =
      if ltb (length params) 4
      then some (syntax_add, st)
      else (get_elem? params 1 >>= λ pattern. get_elem? params 2 >>= λ action.
          get_elem? params 3 >>= λ word.
          if not (starts_alpha word) && ltb (length params) 5
          then some (syntax_add, st)
          else (time_to_sec word >>= λ bantime. is_watched pattern st >>= λ r. elim r [
            | some p ↦ some (already pattern, st)
            | none ↦ expand_parv 2048 (if bantime == 0 then 3 else 4) params >>= λ reason.
                add_new fresh pattern action reason bantime st
          ]))

  -- `cmd_watch`, with the name of the command first.
  unfoldable pub watch_command :
      (fresh : Ptr) → (name : Bytes) → List Bytes → Watches → Option (Reply × Watches)
  unfolding names_in watch_add watch_remove watch_set
  watch_command fresh name params st =
      if eq_nocase name (codes "LIST")
      then (names_in st.watch st.watchlist >>= λ names. some (listed names, st))
      else if eq_nocase name (codes "HELP")
      then some (help, st)
      else if eq_nocase name (codes "ADD")
      then watch_add fresh params st
      else if eq_nocase name (codes "REMOVE")
      then watch_remove guardian params st
      else if eq_nocase name (codes "CHANGE")
      then some (moved, st)
      else if eq_nocase name (codes "SET")
      then watch_set params st
      else some (silent, st)

  -- `cmd_watch`: without a parameter it compares a NULL.
  unfoldable pub cmd_watch : (fresh : Ptr) → List Bytes → Watches → Option (Reply × Watches)
  unfolding watch_command
  cmd_watch fresh params st = get_elem? params 0 >>= λ name. watch_command fresh name params st
