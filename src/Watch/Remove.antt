-- ===== src/Watch/Remove.antt =====
-- del_watch of modules/client/g_watch.c.
use omega_services.Prelude.{
  Bool, ◌&&◌, not, Option, none, some, List, [], ◌∷◌, ◌++◌, Bytes, eq_nocase, if◌then◌else◌,
}
use omega_services.Network.{Ptr, update, ◌>>=◌, in_channel, del_from_channel, find_delete}
use omega_services.Services.{
  Services, Sync, part_line, emit_line, starting, bursting, is_con, put_net,
}
use omega_services.Links.{is_empty}
use omega_services.Watch.Actions.{Watch}
use omega_services.Watch.Entries.{Watches, DbCall, del_db_entry, put_services, name_of, is_watched}

-- The PART line, in a session that is up.
abbrev pub say_part : Sync → Ptr → Bytes → Services → Services
say_part is_con u name s = emit_line (part_line u name) s
say_part starting u name s = s
say_part bursting u name s = s

module _ (guardian : Ptr) where
  -- s_Guardian leaves a channel that is no longer watched, if it joined it for that.
  unfoldable pub unguard : Watch → Services → Option Services
  unfolding in_channel del_from_channel
  unguard w s = elim w.channel [
    | none ↦ some s
    | some c ↦ s.links.net.user guardian >>= λ g. s.links.net.chan c >>= λ ch.
        in_channel s.links.net ch.name g.channels >>= λ there.
        if there && not w.existing
        then (del_from_channel guardian c s.links.net >>= λ n.
            some (put_net n (say_part s.sync guardian ch.name s)))
        else some s
  ]

  abbrev pub forget_entry : (unloading : Bool) → Watch → Bytes → List DbCall → List DbCall
  forget_entry unloading w key db =
      if not w.config && not unloading then db ++ del_db_entry key ∷ [] else db

  abbrev pub drop_watch : Ptr → Watches → Watches
  drop_watch p st = record st {
    watch = update st.watch p none;
    watchlist = find_delete p st.watchlist;
  }

  -- One round of `del_watch` on an entry with the key.
  unfoldable pub del_found : (unloading : Bool) → Ptr → Watch → Watches → Option Watches
  unfolding unguard find_delete
  del_found unloading p w st =
      let st1 = record st { db = forget_entry unloading w (name_of w) st.db } in
      (if is_empty w.channame then some st1.services else unguard w st1.services) >>= λ s.
      some (drop_watch p (put_services s st1))

  -- The loop of `del_watch`.
  unfoldable pub del_in : (unloading : Bool) → Bytes → List Ptr → Watches → Option Watches
  unfolding del_found
  del_in unloading pattern [] st = some st
  del_in unloading pattern (p ∷ ps) st =
      let rest = del_in unloading pattern ps st in
      st.watch p >>= λ w.
      if is_empty w.channame && is_empty w.nickpattern
      then rest
      else if eq_nocase (name_of w) pattern
      then del_found unloading p w st
      else rest

  -- `del_watch`
  unfoldable pub del_watch : (unloading : Bool) → Bytes → Watches → Option Watches
  unfolding is_watched del_in
  del_watch unloading pattern st = is_watched pattern st >>= λ r. elim r [
    | none ↦ some st
    | some p ↦ del_in unloading pattern st.watchlist st
  ]
