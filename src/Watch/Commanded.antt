-- ===== src/Watch/Commanded.antt =====
-- What the command WATCH of modules/client/g_watch.c makes of the entries.
use omega_services.Prelude.{
  ℕ, ◌≡◌, refl, Bool, false, ◌&&◌, some, List, Bytes, codes, length, get_elem?, ltb, ◌==◌,
  eq_nocase, Bool-cases, inl, inr, if◌then◌else◌, pos,
}
use omega_services.Links.{is_empty}
use omega_services.Network.{Ptr}
use omega_services.Services.{Config, Env}
use omega_services.Services.Keeps.Rules.{
  Gives, Gives-some, Gives-if, Gives-bind, Gives-then, Gives-found,
}
use omega_services.Tools.Times.{time_to_sec}
use omega_services.Tools.Tokens.{expand_parv}
use omega_services.Watch.Actions.{Watch}
use omega_services.Watch.Commands.{
  Reply, added, names_in, put_watch, save_entry, with_action, set_option, set_entry, watch_set,
  watch_remove, no_flags, told_name, add_new, watch_add, watch_command, cmd_watch,
}
use omega_services.Watch.Entries.{Watches, Options, action_of, is_watched, new_watch}
use omega_services.Watch.Remove.{del_watch}
use omega_services.Watch.Kicks.{
  nick_kicked, NoKick, NoKicks, update-NoKick, del_watch-NoKick, add_watch-NoKick,
  kill_for_kick-kills,
}

with_action-kills : (value : Bytes) (w : Watch) → nick_kicked (with_action value w) ≡ false
unfolding with_action
with_action-kills value w = elim (Bool-cases (is_empty w.nickpattern)) [
  | inl plain ↦ rw plain refl
  | inr nick ↦ rw (nick, kill_for_kick-kills (action_of value)) refl
]

set_option-NoKick :
    (option value : Bytes) (w : Watch)
    → nick_kicked w ≡ false
    → Gives (λ (r : Reply × Watch). nick_kicked r.1 ≡ false) (set_option option value w)
unfolding set_option
set_option-NoKick option value w good =
    Gives-if (eq_nocase option (codes "IGNOREOPERS")) (Gives-some _ good) (
      Gives-if (eq_nocase option (codes "IGNOREACCESS")) (Gives-some _ good) (
        Gives-if (eq_nocase option (codes "REGEX")) (Gives-some _ good) (
          Gives-if (eq_nocase option (codes "BANTIME"))
            (Gives-bind (time_to_sec value) _ λ t _. Gives-some _ good) (Gives-some _ good))))

save_entry-watch : (w : Watch) (st : Watches) → (save_entry w st).watch ≡ st.watch
save_entry-watch w st = elim (Bool-cases w.config) [
  | inl fixed ↦ rw fixed refl
  | inr own ↦ rw own refl
]

-- The state that comes with a reply.
abbrev NoKicksThen : Reply × Watches → Type 0
NoKicksThen r = NoKick r.1.watch

set_entry-NoKick :
    (p : Ptr) (w : Watch) (option value : Bytes) (params : List Bytes) (st : Watches)
    → st.watch p ≡ some w
    → NoKicks st
    → Gives NoKicksThen (set_entry p w option value params st)
unfolding set_entry
set_entry-NoKick p w option value params st here keep =
    Gives-if (eq_nocase option (codes "ACTION"))
      (Gives-some _
        (update-NoKick st.watch p (with_action value w) keep (with_action-kills value w)))
      (Gives-if (eq_nocase option (codes "MESSAGE"))
        (Gives-bind (expand_parv 2049 3 params) _ λ s _.
          Gives-some _ (update-NoKick st.watch p (record w { message = s }) keep (keep p w here)))
        (Gives-if (eq_nocase option (codes "REGEX") && is_empty w.nickpattern) (Gives-some _ keep) (
          Gives-then (set_option option value w) _
            (set_option-NoKick option value w (keep p w here))
            λ r good. Gives-some _ (
              rw (save_entry-watch r.1 (put_watch p r.1 st))
                (update-NoKick st.watch p r.1 keep good)))))

watch_set-NoKick :
    (params : List Bytes) (st : Watches) → NoKicks st → Gives NoKicksThen (watch_set params st)
unfolding watch_set
watch_set-NoKick params st keep = Gives-if (ltb (length params) 4) (Gives-some _ keep) (
    Gives-bind (get_elem? params 1) _ λ option _. Gives-bind (get_elem? params 2) _ λ rule _.
      Gives-bind (get_elem? params 3) _ λ value _. Gives-bind (is_watched rule st) _ λ r _.
        Gives-found r _ _ (Gives-some _ keep) (λ p.
          Gives-bind (st.watch p) _
            λ w here. set_entry-NoKick p w option value params st here keep))

watch_remove-NoKick :
    (guardian : Ptr) (params : List Bytes) (st : Watches)
    → NoKicks st
    → Gives NoKicksThen (watch_remove guardian params st)
unfolding watch_remove
watch_remove-NoKick guardian params st keep = Gives-if (ltb (length params) 2) (Gives-some _ keep) (
    Gives-bind (get_elem? params 1) _ λ rule _. Gives-bind (is_watched rule st) _ λ r _.
      Gives-found r _ _ (Gives-some _ keep) (λ p.
        Gives-then (del_watch guardian false rule st) _
          (del_watch-NoKick guardian false rule st keep) λ st' kept. Gives-some _ kept))

module _ (cfg : Config) (env : Env) (guardian : Ptr) (regx : Bytes → Bytes → Bool)
    (defaults : Options) where
  watch_add-NoKick :
      (fresh : Ptr) (params : List Bytes) (st : Watches)
      → NoKicks st
      → Gives NoKicksThen (watch_add cfg env guardian regx defaults fresh params st)
  unfolding watch_add add_new
  watch_add-NoKick fresh params st keep = Gives-if (ltb (length params) 4) (Gives-some _ keep) (
      Gives-bind (get_elem? params 1) _ λ pattern _. Gives-bind (get_elem? params 2) _ λ action _.
        Gives-bind (get_elem? params 3) _ λ word _. Gives-if _ (Gives-some _ keep) (
          Gives-bind (time_to_sec word) _ λ bantime _. Gives-bind (is_watched pattern st) _ λ r _.
            Gives-found r _ _
              (Gives-bind (expand_parv 2048 (if bantime == 0 then 3 else 4) params) _
                λ reason _. add_new-NoKick fresh pattern action reason bantime st keep)
              (λ p. Gives-some _ keep)))
    where
      add_new-NoKick :
          (fresh : Ptr) (pattern action reason : Bytes) (bantime : ℕ) (st : Watches)
          → NoKicks st
          → Gives NoKicksThen
              (add_new cfg env guardian regx defaults fresh pattern action reason bantime st)
      add_new-NoKick fresh pattern action reason bantime st keep =
          Gives-then _ _
            (add_watch-NoKick cfg env guardian regx fresh pattern
              (new_watch defaults no_flags action (some reason) (pos bantime) false) st refl keep)
            λ made kept. Gives-bind (made.1.watch made.0) _ λ w _.
              Gives-bind (told_name w made.1) _ λ name _.
                Gives-some (added name, save_entry w made.1) (rw (save_entry-watch w made.1) kept)

  -- No entry for nicks kicks, whatever WATCH is told: an entry with the action kick is one for a channel,
  -- after each command if it was before.
  pub cmd_watch-NoKick :
      (fresh : Ptr) (params : List Bytes) (reply : Reply) (st st' : Watches)
      → NoKick st.watch
      → cmd_watch cfg env guardian regx defaults fresh params st ≡ some (reply, st')
      → NoKick st'.watch
  unfolding cmd_watch watch_command
  cmd_watch-NoKick fresh params reply st st' keep e = kept.at (reply, st') e
    where
      kept : Gives NoKicksThen (cmd_watch cfg env guardian regx defaults fresh params st)
      kept = Gives-bind (get_elem? params 0) _ λ name _.
          Gives-if (eq_nocase name (codes "LIST"))
            (Gives-bind (names_in st.watch st.watchlist) _ λ names _. Gives-some _ keep)
            (Gives-if (eq_nocase name (codes "HELP")) (Gives-some _ keep) (
              Gives-if (eq_nocase name (codes "ADD")) (watch_add-NoKick fresh params st keep) (
                Gives-if (eq_nocase name (codes "REMOVE"))
                  (watch_remove-NoKick guardian params st keep)
                  (Gives-if (eq_nocase name (codes "CHANGE")) (Gives-some _ keep) (
                    Gives-if (eq_nocase name (codes "SET")) (watch_set-NoKick params st keep)
                      (Gives-some _ keep))))))
