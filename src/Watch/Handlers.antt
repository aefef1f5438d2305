-- ===== src/Watch/Handlers.antt =====
-- The events of modules/client/g_watch.c: users who connect or join, and the queue of those who came
-- during a burst.
use omega_services.Prelude.{
  ℕ, zero, suc, Bool, false, ◌&&◌, ◌||◌, not, Option, none, some, List, [], ◌∷◌, ◌++◌, Bytes,
  if◌then◌else◌,
}
use omega_services.Network.{Ptr, User, ◌>>=◌}
use omega_services.Services.{Services, is_bursting}
use omega_services.Links.{is_empty}
use omega_services.Watch.Actions.{Watch, take_action}
use omega_services.Watch.Entries.{Watches, put_services, is_watched, nick_matches}

module _ (regx : Bytes → Bytes → Bool) where
  -- A user who came during a burst waits in the queue.
  abbrev pub queue_or_act : Ptr → Ptr → Watches → Option Watches
  queue_or_act u p st =
      if is_bursting st.services.sync
      then some (record st { watchqueue = st.watchqueue ++ (u, p) ∷ [] })
      else (st.watch p >>= λ w. take_action w u st.services >>= λ s. some (put_services s st))

  abbrev is_ours : Ptr → User → Services → Bool
  is_ours u us s = us.myconnect || (s.profile u).modes.account.service

  -- `evh_chan_join`
  unfoldable pub evh_chan_join : Ptr → Ptr → Watches → Option Watches
  unfolding is_watched take_action
  evh_chan_join u c st = st.services.links.net.user u >>= λ us.
      if is_ours u us st.services
      then some st
      else (st.services.links.net.chan c >>= λ ch.
          is_watched ch.name st >>= λ r. elim r [ none ↦ some st | some p ↦ queue_or_act u p st ])

  -- The loop of `evh_user`: the first entry that matches.
  unfoldable pub match_in : (Ptr → Option Watch) → Bytes → List Ptr → Option (Option Ptr)
  unfolding nick_matches
  match_in watch nick [] = some none
  match_in watch nick (p ∷ ps) =
      let rest = match_in watch nick ps in
      watch p >>= λ w.
      if not (is_empty w.nickpattern) && nick_matches regx w nick then some (some p) else rest

  -- `evh_user`
  unfoldable pub evh_user : Ptr → Watches → Option Watches
  unfolding match_in take_action
  evh_user u st = st.services.links.net.user u >>= λ us.
      if is_ours u us st.services
      then some st
      else (match_in st.watch us.nick st.watchlist >>= λ r. elim r [
        | none ↦ some st
        | some p ↦ queue_or_act u p st
      ])

  -- The loop of `evh_watchqueue`, with so many rounds left before it waits for the next call.
  unfoldable pub run_queue : ℕ → List (Ptr × Ptr) → Watches → Option Watches
  unfolding take_action
  run_queue rounds [] st = some (record st { watchqueue = []; timer = false })
  run_queue zero (q ∷ qs) st = some (record st { watchqueue = q ∷ qs })
  run_queue (suc k) ((u, p) ∷ qs) st = st.watch p >>= λ w. st.services.links.net.user u >>= λ us.
      take_action w u st.services >>= λ s. run_queue k qs (put_services s st)

  -- `evh_watchqueue`
  unfoldable pub evh_watchqueue : Watches → Option Watches
  unfolding run_queue
  evh_watchqueue st =
      if is_bursting st.services.sync then some st else run_queue 26 st.watchqueue st
