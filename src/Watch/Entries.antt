-- ===== src/Watch/Entries.antt =====
-- The entries of modules/client/g_watch.c: the list, the search in it, new entries, and what is saved.
use omega_services.Prelude.{
  ℕ, Bool, false, ◌&&◌, ◌||◌, not, Option, none, some, List, [], ◌∷◌, ◌++◌, Bytes, codes, leb, ◌==◌,
  eq_nocase, if◌then◌else◌, ℤ, pos, negsuc,
}
use omega_services.Access.{fit}
use omega_services.Match.Wild.{match_wild}
use omega_services.Modes.Channel.Decimal.{atol}
use omega_services.Network.{Ptr, ◌>>=◌}
use omega_services.Services.{Services}
use omega_services.Links.{is_empty}
use omega_services.Watch.Actions.{Watch, kick, kill, find_action}

-- The state of the module: `timer` is the event `WatchQueue`, and `db` has the keys that were written to and taken from the database.
pub data DbCall : Type 0 where
  add_db_entry del_db_entry : Bytes → DbCall

pub record Watches : Type 0 where
  pub services : Services
  pub watch : Ptr → Option Watch
  pub watchlist : List Ptr
  pub watchqueue : List (Ptr × Ptr)
  pub timer : Bool
  pub db : List DbCall

abbrev pub put_services : Services → Watches → Watches
put_services s st = record st { services = s }

-- `strlcpy` into `message[MAXLEN + 1]`
abbrev pub message_of : Option Bytes → Bytes
message_of none = codes "Watched Pattern"
message_of (some reason) = fit 2049 reason

abbrev pub key_of : Watch → Bytes
key_of w = elim w.nickpattern [ [] ↦ w.channame | c ∷ s ↦ w.nickpattern ]

abbrev pub name_of : Watch → Bytes
name_of w = elim w.channame [ [] ↦ w.nickpattern | c ∷ s ↦ w.channame ]

-- The loop of `is_watched`.
unfoldable pub is_watched_in : (Ptr → Option Watch) → Bytes → List Ptr → Option (Option Ptr)
is_watched_in watch ch [] = some none
is_watched_in watch ch (p ∷ ps) =
    let rest = is_watched_in watch ch ps in
    watch p >>= λ w. if eq_nocase (key_of w) ch then some (some p) else rest

-- `is_watched`
unfoldable pub is_watched : Bytes → Watches → Option (Option Ptr)
unfolding is_watched_in
is_watched ch st = is_watched_in st.watch ch st.watchlist

-- `isalpha`, in the C locale
abbrev pub is_alpha : ℕ → Bool
is_alpha c = (leb b'A' c && leb c b'Z') || (leb b'a' c && leb c b'z')

-- An action is told by its number or by its name.
abbrev pub action_of : Bytes → ℤ
action_of [] = atol []
action_of (c ∷ s) = if is_alpha c then pos (find_action (c ∷ s)) else atol (c ∷ s)

-- A nick cannot be kicked.
abbrev pub kill_for_kick : ℤ → ℤ
kill_for_kick (pos n) = if n == kick then pos kill else pos n
kill_for_kick (negsuc n) = negsuc n

-- The bits of `options`.
pub record Options : Type 0 where
  pub ignoreoper : Bool
  pub ignoreaccess : Bool
  pub regex : Bool

abbrev pub no_options : Options → Bool
no_options o = not (o.ignoreoper || (o.ignoreaccess || o.regex))

-- A new entry, with the default options if none are given.
abbrev pub new_watch :
    Options → Options → (action : Bytes) → (reason : Option Bytes) → (bantime : ℤ) → Bool → Watch
new_watch defaults given action reason bantime config =
    let o = if no_options given then defaults else given in
    record {
      channel = none;
      action = action_of action;
      ignoreoper = o.ignoreoper;
      ignoreaccess = o.ignoreaccess;
      regex = o.regex;
      message = message_of reason;
      nickpattern = [];
      channame = [];
      existing = false;
      bantime = bantime;
      config = config;
    }

-- A nick against a pattern, where `regx` is PCRE.
unfoldable pub nick_matches : (regx : Bytes → Bytes → Bool) → Watch → Bytes → Bool
unfolding match_wild
nick_matches regx w nick =
    if w.regex then regx nick w.nickpattern else match_wild w.nickpattern nick false

-- The loop of `save_watchdb`: an entry of the settings is not saved, nor one without a name.
unfoldable pub save_in : (Ptr → Option Watch) → List Ptr → List DbCall → Option (List DbCall)
save_in watch [] db = some db
save_in watch (p ∷ ps) db = watch p >>= λ w.
    let unnamed = is_empty w.nickpattern && is_empty w.channame in
    save_in watch ps (if w.config || unnamed then db else db ++ add_db_entry (key_of w) ∷ [])

-- `save_watchdb`
unfoldable pub save_watchdb : Watches → Option Watches
unfolding save_in
save_watchdb st = save_in st.watch st.watchlist st.db >>= λ db. some (record st { db = db })
