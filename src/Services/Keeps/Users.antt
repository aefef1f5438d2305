-- ===== src/Services/Keeps/Users.antt =====
-- Users who come, go and are killed: the counts stay right.
use omega_services.Prelude.{
  ℕ, Bool, true, false, ◌&&◌, not, Option, none, some, List, [], ◌∷◌, Bytes, ltb, arith,
}
use omega_services.Network.{Ptr, put_user, exit_one_user}
use omega_services.Network.Counted.{exit_one_user-IsCounted}
use omega_services.Services.{
  Services, Config, Env, put_net, user_of, serv_of, exit_named, exit_one, name_at, emit_line,
  put_profile, kill_line, nick_line, Profile,
}
use omega_services.Services.Clients.{add_user, place_user, fill_user, uid_of}
use omega_services.Services.Keeps.Channels.{unreal_join-Counted}
use omega_services.Services.Keeps.Rules.{
  Gives, Counted, Gives-some, Gives-if, Gives-bind, Gives-then, Gives-found,
}
use omega_services.Services.Unreal.Args.{
  Argv, arg, unreal_join, rejoin, hide_oper, reserve, unreal_add_user, is_our_client,
}
use omega_services.Services.Unreal.Kills.{
  exit_text, come_back, omega_kill, start_clock, reset_attempts, count_attempt, omega_svskill,
  omega_skill,
}
use omega_services.Services.Unreal.Servers.{omega_nick, omega_quit, omega_unick}
use omega_services.Users.{find_user, new_user, new_nick, exit_user}
use omega_services.Users.Reach.{new_user-IsCounted, new_nick-IsCounted, exit_user-IsCounted}

exit_named-Counted :
    (name : Bytes) (st : Services) → Counted st → Gives Counted (exit_named name st)
unfolding exit_named
exit_named-Counted name st k = Gives-bind (find_user st.links.net name) _ λ r _.
    Gives-found r _ _ (Gives-some st k) (λ u.
      Gives-bind (name_at (st.profile u).serv st.links) _ λ server _.
        Gives-bind (exit_user name st.links.net) _
          λ n e. Gives-some _ (exit_user-IsCounted name st.links.net n k e))

exit_text-Counted :
    (name : Option Bytes) (st : Services) → Counted st → Gives Counted (exit_text name st)
exit_text-Counted none st k = Gives-some st k
exit_text-Counted (some name) st k = exit_named-Counted name st k

module _ (cfg : Config) where
  place_user-Counted :
      (nick : Bytes) (server vhost ip : Option Bytes) (u : Ptr) (filled : Profile) (st : Services)
      → Counted st
      → Gives
          (λ (r : Option Ptr × Services). Counted r.1)
          (place_user cfg nick server vhost ip u filled st)
  unfolding place_user
  place_user-Counted nick server vhost ip u filled st k =
      Gives-bind (serv_of server st.links) _ λ r _.
        Gives-found r _ _
          (Gives-then (exit_named nick st) _ (exit_named-Counted nick st k)
            λ st' k'. Gives-some _ k')
          (λ li. Gives-some _ k)

  pub add_user-Counted :
      (env : Env) (nick : Bytes) (user host : Option Bytes) (realname : Bytes)
      (server modes uid vhost ip : Option Bytes) (st : Services)
      → Counted st
      → Gives
          (λ (r : Option Ptr × Services). Counted r.1)
          (add_user cfg env nick user host realname server modes uid vhost ip st)
  unfolding add_user
  add_user-Counted env nick user host realname server modes uid vhost ip st k =
      Gives-bind (new_user env.fresh nick st.links.net) _ λ made e.
        Gives-found made.0 _ _ (Gives-some _ k) (λ u.
          let filled = fill_user cfg nick user host realname modes env.old_user in
          Gives-bind (uid_of cfg uid) _ λ id _. Gives-bind (made.1.user u) _ λ us _.
            place_user-Counted nick server vhost ip u filled
              (put_profile u filled (put_net (put_user u (record us { uid = id }) made.1) st))
              (new_user-IsCounted env.fresh nick st.links.net made.1 made.0 k e))

  pub rejoin-Counted :
      (u : Ptr) (cs : List Ptr) (st : Services) → Counted st → Gives Counted (rejoin cfg u cs st)
  unfolding rejoin
  rejoin-Counted u [] st k = Gives-some st k
  rejoin-Counted u (c ∷ cs) st k =
      Gives-then (unreal_join cfg u c st) _ (unreal_join-Counted cfg u c st k)
        λ st' k'. rejoin-Counted u cs st' k'

  unreal_add_user-Counted :
      (u : Ptr) (st : Services) → Counted st → Gives Counted (unreal_add_user u st)
  unfolding unreal_add_user
  unreal_add_user-Counted u st k =
      Gives-bind (st.links.net.user u) _
        λ us _. Gives-some _ (shown us.myconnect (st.profile u).modes.account.service)
    where
      shown :
          (ours service : Bool)
          → Counted (reserve service u (emit_line (nick_line u) (hide_oper ours u st)))
      shown true true = k
      shown true false = k
      shown false true = k
      shown false false = k

  come_back-Counted : (u : Ptr) (st : Services) → Counted st → Gives Counted (come_back cfg u st)
  come_back-Counted u st k =
      Gives-then (unreal_add_user u st) _ (unreal_add_user-Counted u st k)
        λ st1 k1. Gives-bind (st1.links.net.user u) _ λ us _. rejoin-Counted u us.channels st1 k1

  pub omega_kill-Counted :
      (argv : Argv) (st : Services) → Counted st → Gives Counted (omega_kill cfg argv st)
  unfolding omega_kill
  omega_kill-Counted argv st k =
      Gives-bind (is_our_client cfg (arg argv 1) st) _ λ r _.
        Gives-found r _ _ (exit_text-Counted (arg argv 1) st k) (λ u. come_back-Counted u st k)

  count_attempt-Counted : (now : ℕ) (st : Services) → Counted st → Counted (count_attempt now st)
  unfolding count_attempt start_clock reset_attempts
  count_attempt-Counted now st k c ch e = ground (arith, k c ch)

  pub omega_svskill-Counted :
      (env : Env) (argv : Argv) (st : Services)
      → Counted st
      → Gives Counted (omega_svskill cfg env argv st)
  unfolding omega_svskill
  omega_svskill-Counted env argv st k =
      let st1 = count_attempt env.now st in
      let k1 = count_attempt-Counted env.now st k in
      Gives-if st1.exited (Gives-some st1 k1) (omega_kill-Counted argv st1 k1)

  pub omega_skill-Counted :
      (env : Env) (argv : Argv) (st : Services)
      → Counted st
      → Gives Counted (omega_skill cfg env argv st)
  unfolding omega_skill
  omega_skill-Counted env argv st k =
      let st1 = count_attempt env.now st in
      let k1 = count_attempt-Counted env.now st k in
      Gives-if st1.exited (Gives-some st1 k1) (
        Gives-bind (is_our_client cfg (arg argv 1) st1) _ λ r _.
          Gives-found r _ _ (exit_text-Counted (arg argv 1) st1 k1) (λ u.
            Gives-bind (user_of (arg argv 1) st1.links.net) _
              λ named _. come_back-Counted u (emit_line (kill_line named) st1) k1))

  pub omega_nick-Counted :
      (env : Env) (argc : ℕ) (argv : Argv) (st : Services)
      → Counted st
      → Gives Counted (omega_nick cfg env argc argv st)
  unfolding omega_nick
  omega_nick-Counted env argc argv st k =
      Gives-if (ltb 3 argc && not (ltb argc 9))
        (Gives-bind (user_of (arg argv 1) st.links.net) _ λ r _.
          Gives-found r _ _
            (Gives-bind (arg argv 10) _ λ ip _. Gives-bind (arg argv 1) _ λ nick _.
              Gives-bind (arg argv 11) _ λ realname _.
                Gives-then _ _
                  (add_user-Counted env nick (arg argv 4) (arg argv 5) realname (arg argv 6)
                    (arg argv 8) none (arg argv 9) (some (env.address ip)) st k)
                  (λ made km. Gives-some _ km))
            (λ u. Gives-some st k))
        (Gives-some st k)

pub omega_quit-Counted : (u : Ptr) (st : Services) → Counted st → Gives Counted (omega_quit u st)
unfolding omega_quit exit_one
omega_quit-Counted u st k = Gives-bind (name_at (st.profile u).serv st.links) _ λ server _.
    Gives-bind (exit_one_user u st.links.net) _
      λ n e. Gives-some _ (exit_one_user-IsCounted u st.links.net n k e)

pub omega_unick-Counted :
    (u : Ptr) (argv : Argv) (st : Services) → Counted st → Gives Counted (omega_unick u argv st)
unfolding omega_unick
omega_unick-Counted u argv st k = Gives-found (arg argv 1) _ _ (Gives-some st k) (λ nick.
    Gives-bind (new_nick u nick st.links.net) _
      λ n e. Gives-some _ (new_nick-IsCounted u nick st.links.net n k e))
