-- ===== src/Watch/Add.antt =====
-- add_watch of modules/client/g_watch.c: a new entry, and what it does to those it finds at once.
use omega_services.Prelude.{
  Bool, true, false, Option, none, some, List, [], ◌∷◌, ◌++◌, Bytes, if◌then◌else◌,
}
use omega_services.Access.{fit}
use omega_services.Network.{Ptr, ChanUser, update, ◌>>=◌, in_channel, add_to_channel_u}
use omega_services.Services.{Services, Config, Env, is_bursting, put_net}
use omega_services.Services.Unreal.Channels.{channel_for, is_channel}
use omega_services.Watch.Actions.{Watch, take_action}
use omega_services.Watch.Entries.{
  Watches, add_db_entry, put_services, key_of, is_watched, kill_for_kick, nick_matches,
}

module _ (cfg : Config) (env : Env) (guardian : Ptr) (regx : Bytes → Bytes → Bool) where
  -- `take_action` on each user of a channel.
  unfoldable pub act_on : Watch → List ChanUser → Services → Option Services
  unfolding take_action
  act_on w [] s = some s
  act_on w (cu ∷ cus) s = take_action w cu.user s >>= act_on w cus

  -- `take_action` on each user whose nick matches.
  unfoldable pub act_on_nicks : Watch → List Ptr → Services → Option Services
  unfolding take_action nick_matches
  act_on_nicks w [] s = some s
  act_on_nicks w (u ∷ us) s = s.links.net.user u >>= λ v.
      (if nick_matches regx w v.nick then take_action w u s else some s) >>= act_on_nicks w us

  -- s_Guardian joins the channel, unless it is there; `existing` says so.
  unfoldable pub guard_channel : Ptr → Services → Option (Bool × Services)
  unfolding in_channel add_to_channel_u
  guard_channel c s = s.links.net.user guardian >>= λ g. s.links.net.chan c >>= λ ch.
      in_channel s.links.net ch.name g.channels >>= λ there.
      if there
      then some (true, s)
      else (add_to_channel_u env.junk (is_bursting s.sync) guardian c s.links.net >>= λ n.
          some (false, put_net n s))

  -- What `add_watch` does for a channel: `sizeof(watch->channel)` is the size of a pointer.
  unfoldable pub watch_channel : Bytes → Watch → Services → Option (Watch × Services)
  unfolding channel_for guard_channel act_on
  watch_channel pattern w s = channel_for env (some pattern) s >>= λ found.
      found.1.links.net.chan found.0 >>= λ ch. guard_channel found.0 found.1 >>= λ joined.
      let w' = record w { channel = some found.0; channame = fit 8 ch.name; existing = joined.0 } in
      joined.1.links.net.chan found.0 >>= λ ch'.
      act_on w' ch'.users joined.1 >>= λ s'. some (w', s')

  -- What `add_watch` does for nicks.
  unfoldable pub watch_nicks : Bytes → Watch → Services → Option (Watch × Services)
  unfolding act_on_nicks
  watch_nicks pattern w s =
      let w' = record w {
        nickpattern = fit 512 pattern;
        ignoreoper = true;
        action = kill_for_kick w.action;
      } in
      act_on_nicks w' s.links.net.userlist s >>= λ s'. some (w', s')

  -- The new entry at the end of the list; only one that is not from the settings goes to the database.
  abbrev pub append_watch : Ptr → Watch → Watches → Watches
  append_watch fresh w st = record st {
    watch = update st.watch fresh (some w);
    watchlist = st.watchlist ++ fresh ∷ [];
    db = if w.config then st.db else st.db ++ add_db_entry (key_of w) ∷ [];
  }

  -- `add_watch`, at the address that `malloc` returns for the entry.
  unfoldable pub add_watch : Ptr → Bytes → Watch → Watches → Option (Ptr × Watches)
  unfolding is_watched watch_channel watch_nicks
  add_watch fresh pattern w st = is_watched pattern st >>= λ r. elim r [
    | some p ↦ some (p, st)
    | none ↦
        (if is_channel pattern
          then watch_channel pattern w st.services
          else watch_nicks pattern w st.services)
        >>= λ made. some (fresh, append_watch fresh made.0 (put_services made.1 st))
  ]
