-- ===== src/Sessions.antt =====
-- modules/client/g_sessions.c: how many users each host has connected, the limit on them, and the
-- exemptions from it. The list of sessions is an array of lists that the hash of the host selects.
pub mod Counts
pub mod Visits
pub mod Limits
pub mod Commands
pub mod Exempted
use omega_services.Prelude.{
  ℕ, zero, suc, ◌+◌, ◌-◌, Bool, true, false, ◌&&◌, ◌||◌, not, Option, none, some, List, [], ◌∷◌,
  ◌++◌, Bytes, take, eq_nocase, ltb, ◌==◌, if◌then◌else◌,
}
use omega_services.Tools.Hash.{hash_safe}
use omega_services.Match.Wild.{match_wild}

pub record Session : Type 0 where
  pub age : ℕ
  pub count : ℕ
  pub host : Bytes

abbrev pub slist_size : ℕ
slist_size = 1024

-- `SessionsList`
abbrev pub SessionsList : Type 0
SessionsList = ℕ → List Session

abbrev pub put_bucket : SessionsList → ℕ → List Session → SessionsList
put_bucket t i b j = if i == j then b else t j

-- The entry of a host in a bucket, up to case.
unfoldable pub find_session : Bytes → List Session → Option Session
find_session host [] = none
find_session host (s ∷ ss) = if eq_nocase s.host host then some s else find_session host ss

-- The bucket after `add_session`: the first entry of the host counts one more, and a host without
-- an entry gets one at the end.
unfoldable pub add_to_bucket : ℕ → Bytes → List Session → List Session
add_to_bucket now host [] = record { age = now; count = 1; host = take 99 host } ∷ []
add_to_bucket now host (s ∷ ss) =
    if eq_nocase s.host host
    then record s { count = s.count + 1 } ∷ ss
    else s ∷ add_to_bucket now host ss

-- The bucket after `del_session`: an entry goes only if its count was 0 before.
unfoldable pub del_from_bucket : Bytes → List Session → List Session
del_from_bucket host [] = []
del_from_bucket host (s ∷ ss) =
    if eq_nocase s.host host
    then (if ltb 0 s.count then record s { count = s.count - 1 } ∷ ss else ss)
    else s ∷ del_from_bucket host ss

-- `add_session`: nothing for a network service. The result is the entry.
unfoldable pub add_session : ℕ → Bool → Bytes → SessionsList → Option Session × SessionsList
unfolding add_to_bucket find_session
add_session now service host t =
    let index = hash_safe host slist_size in
    let bucket = add_to_bucket now host (t index) in
    if service then (none, t) else (find_session host bucket, put_bucket t index bucket)

-- `del_session`, the table that is left; no caller reads its result.
unfoldable pub del_session : Bytes → SessionsList → SessionsList
unfolding del_from_bucket
del_session host t =
    let index = hash_safe host slist_size in put_bucket t index (del_from_bucket host (t index))

pub record SessionExempt : Type 0 where
  pub age : ℕ
  pub host : Bytes
  pub count : ℕ

-- `find_exempt`: the first entry whose mask fits the host.
unfoldable pub find_exempt : Bytes → List SessionExempt → Option SessionExempt
find_exempt host [] = none
find_exempt host (se ∷ ses) =
    if match_wild se.host host false then some se else find_exempt host ses

-- `add_exempt`: 2 (false) if a mask of the list fits the host already, else the new entry, which
-- the database is given too.
unfoldable pub add_exempt : ℕ → Bytes → ℕ → List SessionExempt → Bool × List SessionExempt
unfolding find_exempt
add_exempt now host count exempts = elim (find_exempt host exempts) [
  | some se ↦ (false, exempts)
  | none ↦ (true, exempts ++ record { age = now; host = take 99 host; count = count } ∷ [])
]

-- The test of `del_exempt`: the masks fit one another in one of the two directions.
unfoldable pub exempt_matches : Bytes → SessionExempt → Bool
exempt_matches host se = match_wild se.host host false || match_wild host se.host false

-- `del_exempt`, the list that is left; its result, whether an entry went, is not modelled.
unfoldable pub del_exempt : Bytes → List SessionExempt → List SessionExempt
unfolding exempt_matches
del_exempt host [] = []
del_exempt host (se ∷ ses) =
    let rest = del_exempt host ses in if exempt_matches host se then rest else se ∷ rest

-- The limit that `event_usercon` reports for a session, if it reports one.
unfoldable pub reported_limit : ℕ → List SessionExempt → Session → Option ℕ
unfolding find_exempt
reported_limit session_host_limit exempts s =
    if ltb session_host_limit s.count
    then elim (find_exempt s.host exempts) [
      | none ↦ some session_host_limit
      | some se ↦ if ltb se.count s.count then some se.count else none
    ]
    else none

abbrev report_of : ℕ → List SessionExempt → Option Session → Option ℕ
report_of limit exempts none = none
report_of limit exempts (some s) = reported_limit limit exempts s

-- `event_usercon`, called with one argument as it is for USERCONN: the user is counted, and what is
-- reported to the log channel is a limit.
unfoldable pub event_usercon :
    ℕ → ℕ → List SessionExempt → Bool → Bytes → SessionsList → Option ℕ × SessionsList
unfolding add_session reported_limit
event_usercon now limit exempts service host t =
    let (s, t') = add_session now service host t in (report_of limit exempts s, t')

-- `event_userexit`: also a network service is discounted.
unfoldable pub event_userexit : Bool → Bytes → SessionsList → SessionsList
unfolding del_session
event_userexit service host t = del_session host t
