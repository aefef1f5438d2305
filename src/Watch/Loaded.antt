-- ===== src/Watch/Loaded.antt =====
-- What the settings make of the entries of modules/client/g_watch.c.
use omega_services.Prelude.{
  ◌≡◌, refl, Bool, true, Option, none, some, List, [], ◌∷◌, Bytes, if◌then◌else◌, pos,
}
use omega_services.Network.{Ptr}
use omega_services.Services.{Config, Env}
use omega_services.Services.Keeps.Rules.{
  Gives, Gives-some, Gives-if, Gives-bind, Gives-then, Gives-found,
}
use omega_services.Watch.Entries.{Watches, Options, key_of, is_watched, new_watch}
use omega_services.Watch.Loads.{
  WatchEntry, span_of, options_of, forget_config, load_full, load_one, load_in, load_watch,
}
use omega_services.Watch.Remove.{del_watch}
use omega_services.Watch.Kicks.{NoKick, NoKicks, del_watch-NoKick, add_watch-NoKick}

forget_config-NoKick :
    (guardian : Ptr) (unloading : Bool) (ps : List Ptr) (st : Watches)
    → NoKicks st
    → Gives NoKicks (forget_config guardian unloading ps st)
unfolding forget_config
forget_config-NoKick guardian unloading [] st keep = Gives-some st keep
forget_config-NoKick guardian unloading (p ∷ ps) st keep = Gives-bind (st.watch p) _ λ w _.
    Gives-then (if w.config then del_watch guardian unloading (key_of w) st else some st) _
      (Gives-if w.config (del_watch-NoKick guardian unloading (key_of w) st keep)
        (Gives-some st keep))
      λ st' kept. forget_config-NoKick guardian unloading ps st' kept

module _ (cfg : Config) (guardian : Ptr) (regx : Bytes → Bytes → Bool) (defaults : Options) where
  load_full-NoKick :
      (env : Env) (fresh : Ptr) (pattern action reason : Bytes) (e : WatchEntry) (st : Watches)
      → NoKicks st
      → Gives NoKicks (load_full cfg guardian regx defaults env fresh pattern action reason e st)
  unfolding load_full
  load_full-NoKick env fresh pattern action reason e st keep =
      Gives-bind (is_watched pattern st) _ λ r _.
        Gives-found r _ _
          (Gives-bind (span_of e.bantime) _ λ bantime _.
            Gives-then _ _
              (add_watch-NoKick cfg env guardian regx fresh pattern
                (new_watch defaults (options_of e.flags) action (some reason) (pos bantime) true) st
                refl keep)
              λ made kept. Gives-some _ kept)
          (λ p. Gives-some st keep)

  load_in-NoKick :
      (es : List ((Env × Ptr) × WatchEntry)) (st : Watches)
      → NoKicks st
      → Gives NoKicks (load_in cfg guardian regx defaults es st)
  unfolding load_in
  load_in-NoKick [] st keep = Gives-some st keep
  load_in-NoKick (((env, fresh), e) ∷ es) st keep =
      Gives-then (load_one cfg guardian regx defaults env fresh e st) _
        (Gives-found e.pattern _ _ (Gives-some st keep) λ pattern.
          Gives-found e.action _ _ (Gives-some st keep) λ action.
            Gives-found e.reason _ _ (Gives-some st keep)
              λ reason. load_full-NoKick env fresh pattern action reason e st keep)
        λ st' kept. load_in-NoKick es st' kept

  -- The settings make no entry that kicks nicks, either.
  pub load_watch-NoKick :
      (unloading : Bool) (entries : Option (List ((Env × Ptr) × WatchEntry))) (st st' : Watches)
      → NoKick st.watch
      → load_watch cfg guardian regx defaults unloading entries st ≡ some st'
      → NoKick st'.watch
  unfolding load_watch
  load_watch-NoKick unloading none st st' keep e =
      (forget_config-NoKick guardian unloading st.watchlist st keep).at st' e
  load_watch-NoKick unloading (some es) st st' keep e =
      (Gives-then (forget_config guardian unloading st.watchlist st)
          (load_in cfg guardian regx defaults es)
          (forget_config-NoKick guardian unloading st.watchlist st keep) (load_in-NoKick es)).at
        st' e
