-- ===== src/Sessions/Commands.antt =====
-- cmd_exempt and cmd_sessions of modules/client/g_sessions.c: the commands EXEMPT and SESSION. The text of a
-- reply is a value.
use omega_services.Prelude.{
  ℕ, zero, suc, ◌+◌, Bool, false, ◌||◌, Option, none, some, List, [], ◌∷◌, ◌++◌, Bytes, codes,
  length, get_elem?, ltb, leb, eq_nocase, if◌then◌else◌, ℤ, pos, negsuc,
}
use omega_services.Links.{is_empty}
use omega_services.Modes.Channel.Decimal.{atol}
use omega_services.Network.{◌>>=◌}
use omega_services.Sessions.{
  Session, SessionExempt, SessionsList, slist_size, add_exempt, exempt_matches, del_exempt,
}

abbrev pub host_limit : ℕ
host_limit = 4

-- What the user is told.
pub data Reply : Type 0 where
  no_argument invalid bad_count saving loading bad_threshold : Reply
  exempts : List SessionExempt → Reply
  limit_set : Bytes → ℕ → Reply
  already removed not_listed : Bytes → Reply
  users : List Bytes → Reply
  sessions : List Session → Reply

-- The exemptions in memory, and what was written to and taken from the database.
pub data DbCall : Type 0 where
  add_db_entry : Bytes → ℕ → DbCall
  del_db_entry : Bytes → DbCall

pub record Exempts : Type 0 where
  pub exemptlist : List SessionExempt
  pub db : List DbCall

-- ADD of a count that has been read: a number above HOST_LIMIT, and at most 100.
unfoldable pub exempt_add : (now : ℕ) → Bytes → ℤ → Exempts → Reply × Exempts
unfolding add_exempt
exempt_add now host (negsuc n) st = (bad_count, st)
exempt_add now host (pos n) st =
    let (is_new, list) = add_exempt now host n st.exemptlist in
    let db = if is_new then st.db ++ add_db_entry host n ∷ [] else st.db in
    if leb n host_limit || ltb 100 n
    then (bad_count, st)
    else (if is_new then limit_set host n else already host, record { exemptlist = list; db = db })

-- Whether `del_exempt` finds any exemption.
unfoldable pub any_matches : Bytes → List SessionExempt → Bool
unfolding exempt_matches
any_matches host [] = false
any_matches host (se ∷ ses) = exempt_matches host se || any_matches host ses

-- DEL
unfoldable pub exempt_del : Bytes → Exempts → Reply × Exempts
unfolding del_exempt any_matches
exempt_del host st = (
  if any_matches host st.exemptlist then removed host else not_listed host,
  record { exemptlist = del_exempt host st.exemptlist; db = st.db ++ del_db_entry host ∷ [] },
)

-- `cmd_exempt` with its command; `rows` are the exemptions that the database has for LOAD.
unfoldable pub exempt_command :
    (now : ℕ) (rows : List SessionExempt) (name : Bytes) → List Bytes → Exempts → Reply × Exempts
unfolding exempt_add exempt_del
exempt_command now rows name params st =
    if is_empty name
    then (no_argument, st)
    else if eq_nocase name (codes "LIST")
    then (exempts st.exemptlist, st)
    else if eq_nocase name (codes "ADD")
    then elim (get_elem? params 1) [
      | none ↦ (no_argument, st)
      | some host ↦ elim (get_elem? params 2) [
        | none ↦ (no_argument, st)
        | some count ↦ exempt_add now host (atol count) st
      ]
    ]
    else if eq_nocase name (codes "DEL")
    then elim (get_elem? params 1) [ none ↦ (no_argument, st) | some host ↦ exempt_del host st ]
    else if eq_nocase name (codes "SAVE")
    then (saving, st)
    else if eq_nocase name (codes "LOAD")
    then (loading, record st { exemptlist = rows })
    else (invalid, st)

-- `cmd_exempt`: without a parameter it reads through a NULL.
unfoldable pub cmd_exempt :
    (now : ℕ) (rows : List SessionExempt) → List Bytes → Exempts → Option (Reply × Exempts)
unfolding exempt_command
cmd_exempt now rows params st =
    get_elem? params 0 >>= λ name. some (exempt_command now rows name params st)

-- The nicks of the users from a host, of all the users by nick and host.
unfoldable pub users_from : Bytes → List (Bytes × Bytes) → List Bytes
users_from host [] = []
users_from host ((nick, from) ∷ us) =
    let rest = users_from host us in if eq_nocase from host then nick ∷ rest else rest

-- The sessions of one list that are not below the threshold.
unfoldable pub sessions_over : ℕ → List Session → List Session
sessions_over threshold [] = []
sessions_over threshold (s ∷ ss) =
    let rest = sessions_over threshold ss in if ltb s.count threshold then rest else s ∷ rest

-- The lists from an index on.
unfoldable pub lists_over : (threshold left index : ℕ) → SessionsList → List Session
unfolding sessions_over
lists_over threshold zero index t = []
lists_over threshold (suc left) index t =
    sessions_over threshold (t index) ++ lists_over threshold left (index + 1) t

unfoldable pub show_over : ℤ → SessionsList → Reply
unfolding lists_over
show_over (negsuc n) t = bad_threshold
show_over (pos n) t =
    let found = lists_over n slist_size 0 t in
    if leb n 1 || ltb 100 n then bad_threshold else sessions found

-- `cmd_sessions`: any word but SHOW asks for the sessions.
unfoldable pub cmd_sessions :
    (userlist : List (Bytes × Bytes)) → List Bytes → SessionsList → Option Reply
unfolding users_from show_over
cmd_sessions userlist params t = get_elem? params 0 >>= λ name.
    if eq_nocase name (codes "SHOW")
    then (if ltb (length params) 2
        then some invalid
        else (get_elem? params 1 >>= λ host. some (users (users_from host userlist))))
    else elim (get_elem? params 1) [
      | none ↦ some (show_over (pos 3) t)
      | some count ↦ some (show_over (atol count) t)
    ]
