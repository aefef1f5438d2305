-- ===== src/Watch/Kicks.antt =====
-- The entries of modules/client/g_watch.c for nicks: kick is not an action of theirs. Removing and adding
-- entries.
use omega_services.Prelude.{
  ◌≡◌, refl, Bool, true, false, ◌&&◌, not, Option, none, some, List, [], ◌∷◌, Bytes, ◌==◌,
  eq_nocase, Bool-cases, inl, inr, if◌then◌else◌, ℤ, pos, negsuc, arith,
}
use omega_services.Access.{fit}
use omega_services.Links.{is_empty}
use omega_services.Network.{Ptr, update}
use omega_services.Services.{Services, Config, Env}
use omega_services.Services.Keeps.Rules.{
  Gives, Gives-some, Gives-if, Gives-bind, Gives-then, Gives-found,
}
use omega_services.Services.Unreal.Channels.{channel_for, is_channel}
use omega_services.Watch.Actions.{Watch, kick}
use omega_services.Watch.Add.{
  act_on, act_on_nicks, guard_channel, watch_channel, watch_nicks, add_watch,
}
use omega_services.Watch.Entries.{Watches, kill_for_kick, name_of, is_watched}
use omega_services.Watch.Remove.{unguard, del_found, del_in, del_watch}

abbrev is_kick : ℤ → Bool
is_kick (pos n) = n == kick
is_kick (negsuc n) = false

-- A rule for nicks that kicks, for which there is no channel.
abbrev pub nick_kicked : Watch → Bool
nick_kicked w = not (is_empty w.nickpattern) && is_kick w.action

-- No entry kicks nicks.
abbrev pub NoKick : (Ptr → Option Watch) → Type 0
NoKick watch = (p : Ptr) (w : Watch) → watch p ≡ some w → nick_kicked w ≡ false

-- The state that an operation returns.
abbrev pub NoKicks : Watches → Type 0
NoKicks st = NoKick st.watch

pub and_false : (b : Bool) {c : Bool} → c ≡ false → (b && c) ≡ false
and_false true h = h
and_false false h = refl

pub update-NoKick :
    (watch : Ptr → Option Watch) (p : Ptr) (w : Watch)
    → NoKick watch
    → nick_kicked w ≡ false
    → NoKick (update watch p (some w))
update-NoKick watch p w keep good q v e = elim (Bool-cases (p == q)) [
  | inl same ↦ (let k : some w ≡ some v = rw (← e, same) refl in cc (k, good))
  | inr other ↦ keep q v (rw (← e, other) refl)
]

drop-NoKick : (watch : Ptr → Option Watch) (p : Ptr) → NoKick watch → NoKick (update watch p none)
drop-NoKick watch p keep q v e = elim (Bool-cases (p == q)) [
  | inl same ↦ (let k : none ≡ some v = rw (← e, same) refl in cc k)
  | inr other ↦ keep q v (rw (← e, other) refl)
]

pub kill_for_kick-kills : (action : ℤ) → is_kick (kill_for_kick action) ≡ false
kill_for_kick-kills (pos n) = ground arith
kill_for_kick-kills (negsuc n) = refl

module _ (guardian : Ptr) where
  del_found-NoKick :
      (unloading : Bool) (p : Ptr) (w : Watch) (st : Watches)
      → NoKicks st
      → Gives NoKicks (del_found guardian unloading p w st)
  unfolding del_found
  del_found-NoKick unloading p w st keep =
      Gives-bind (if is_empty w.channame then some st.services else unguard guardian w st.services)
        _ λ s _. Gives-some _ (drop-NoKick st.watch p keep)

  del_in-NoKick :
      (unloading : Bool) (pattern : Bytes) (ps : List Ptr) (st : Watches)
      → NoKicks st
      → Gives NoKicks (del_in guardian unloading pattern ps st)
  unfolding del_in
  del_in-NoKick unloading pattern [] st keep = Gives-some st keep
  del_in-NoKick unloading pattern (p ∷ ps) st keep = Gives-bind (st.watch p) _ λ w _.
      let rest = del_in-NoKick unloading pattern ps st keep in
      Gives-if (is_empty w.channame && is_empty w.nickpattern) rest
        (Gives-if (eq_nocase (name_of w) pattern) (del_found-NoKick unloading p w st keep) rest)

  pub del_watch-NoKick :
      (unloading : Bool) (pattern : Bytes) (st : Watches)
      → NoKicks st
      → Gives NoKicks (del_watch guardian unloading pattern st)
  unfolding del_watch
  del_watch-NoKick unloading pattern st keep = Gives-bind (is_watched pattern st) _ λ r _.
      Gives-found r _ _ (Gives-some st keep)
        (λ p. del_in-NoKick unloading pattern st.watchlist st keep)

module _ (cfg : Config) (env : Env) (guardian : Ptr) (regx : Bytes → Bytes → Bool) where
  watch_channel-NoKick :
      (pattern : Bytes) (w : Watch) (s : Services)
      → w.nickpattern ≡ []
      → Gives
          (λ (made : Watch × Services). nick_kicked made.0 ≡ false)
          (watch_channel cfg env guardian regx pattern w s)
  unfolding watch_channel
  watch_channel-NoKick pattern w s plain =
      Gives-bind (channel_for env (some pattern) s) _ λ found _.
        Gives-bind (found.1.links.net.chan found.0) _ λ ch _.
          Gives-bind (guard_channel cfg env guardian regx found.0 found.1) _ λ joined _.
            Gives-bind (joined.1.links.net.chan found.0) _ λ ch' _.
              let w' = record w {
                channel = some found.0;
                channame = fit 8 ch.name;
                existing = joined.0;
              } in
              Gives-bind (act_on cfg env guardian regx w' ch'.users joined.1) _
                λ s' _. Gives-some (w', s') (rw plain refl)

  watch_nicks-NoKick :
      (pattern : Bytes) (w : Watch) (s : Services)
      → Gives
          (λ (made : Watch × Services). nick_kicked made.0 ≡ false)
          (watch_nicks cfg env guardian regx pattern w s)
  unfolding watch_nicks
  watch_nicks-NoKick pattern w s =
      let w' = record w {
        nickpattern = fit 512 pattern;
        ignoreoper = true;
        action = kill_for_kick w.action;
      } in
      Gives-bind (act_on_nicks cfg env guardian regx w' s.links.net.userlist s) _ λ s' _.
        Gives-some (w', s')
          (and_false (not (is_empty (fit 512 pattern))) (kill_for_kick-kills w.action))

  pub add_watch-NoKick :
      (fresh : Ptr) (pattern : Bytes) (w : Watch) (st : Watches)
      → w.nickpattern ≡ []
      → NoKicks st
      → Gives
          (λ (r : Ptr × Watches). NoKick r.1.watch)
          (add_watch cfg env guardian regx fresh pattern w st)
  unfolding add_watch
  add_watch-NoKick fresh pattern w st plain keep = Gives-bind (is_watched pattern st) _ λ r _.
      Gives-found r _ _
        (Gives-then _ _
          (Gives-if (is_channel pattern) (watch_channel-NoKick pattern w st.services plain)
            (watch_nicks-NoKick pattern w st.services))
          λ made good. Gives-some _ (update-NoKick st.watch fresh made.0 keep good))
        (λ p. Gives-some _ keep)
