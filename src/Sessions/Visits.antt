-- ===== src/Sessions/Visits.antt =====
-- The sessions of a host after any run of the events USERCONN and USEREXIT.
use omega_services.Prelude.{
  ℕ, ◌+◌, ◌-◌, ◌≤◌, ◌≡◌, ◌≢◌, ap, ◌∙◌, true, false, none, List, [], ◌∷◌, Bytes, take, take-eq_self,
  length, eq_nocase, eq_nocase_refl, ◌==◌, if◌then◌else◌, arith,
}
use omega_services.Tools.Hash.{hash_safe}
use omega_services.Sessions.{
  Session, SessionsList, slist_size, find_session, add_to_bucket, del_from_bucket, add_session,
  del_session,
}

-- A user of the network who is no service, by host: the event USERCONN or USEREXIT.
pub data Visit : Type 0 where
  arrives leaves : Bytes → Visit

unfoldable pub visit : ℕ → Visit → SessionsList → SessionsList
visit now (arrives host) t = (add_session now false host t).1
visit now (leaves host) t = del_session host t

unfoldable pub visits : ℕ → List Visit → SessionsList → SessionsList
visits now [] t = t
visits now (v ∷ vs) t = visits now vs (visit now v t)

abbrev pub host_of : Visit → Bytes
host_of (arrives host) = host
host_of (leaves host) = host

-- The number that the sessions of `j` stand for: one up for each arrival, and one down, not below
-- zero, for each departure.
unfoldable pub tally : Bytes → List Visit → ℕ → ℕ
tally j [] n = n
tally j (arrives host ∷ vs) n = tally j vs (if eq_nocase host j then n + 1 else n)
tally j (leaves host ∷ vs) n = tally j vs (if eq_nocase host j then n - 1 else n)

find_session-del-add :
    (now : ℕ) (host : Bytes) (b : List Session)
    → length host ≤ 99
    → find_session host (del_from_bucket host (add_to_bucket now host b)) ≢ none
unfolding find_session del_from_bucket add_to_bucket
find_session-del-add now host [] fits e =
    kept now host (take 99 host)
      (ap (λ (h : Bytes). eq_nocase h host) (take-eq_self 99 host fits) ∙ eq_nocase_refl host) e
  where
    kept :
        (now : ℕ) (host h : Bytes)
        → eq_nocase h host ≡ true
        → find_session host (del_from_bucket host (record { age = now; count = 1; host = h } ∷ []))
          ≢ none
    kept now host h e = ground arith
find_session-del-add now host (s ∷ ss) fits e =
    ground (arith, find_session-del-add now host ss fits)

-- When a user from a host of at most 99 bytes arrives and leaves again, the entry of the host
-- stays in the table: `del_session` counts it down and does not free it.
pub entry_stays :
    (now : ℕ) (host : Bytes) (t : SessionsList)
    → length host ≤ 99
    → find_session host
        (del_session host (add_session now false host t).1 (hash_safe host slist_size))
      ≢ none
unfolding del_session add_session
entry_stays now host t fits = stays (hash_safe host slist_size)
  where
    stays :
        (i : ℕ)
        → find_session host (
            if i == i
            then del_from_bucket host (if i == i then add_to_bucket now host (t i) else t i)
            else (if i == i then add_to_bucket now host (t i) else t i))
          ≢ none
    stays i = ground (arith, find_session-del-add now host (t i) fits)
