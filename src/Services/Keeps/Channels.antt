-- ===== src/Services/Keeps/Channels.antt =====
-- The handlers for membership and modes keep the counts.
use omega_services.Prelude.{ℕ, ◌-◌, Option, some, List, [], ◌∷◌, Bytes, codes, ltb, eq_nocase}
use omega_services.Network.{Ptr, Net, ◌>>=◌, new_chan, add_to_channel_u, del_from_channel, part_all}
use omega_services.Network.Counted.{
  new_chan-IsCounted, add_to_channel_u-IsCounted, part_all-IsCounted,
}
use omega_services.Network.Members.{IsCounted, del_from_channel-IsCounted}
use omega_services.Services.{
  Services, Config, Env, put_room, put_net, is_bursting, user_of, channel_of,
}
use omega_services.Modes.Channel.{read_chanmode_string, create_chanmode_string}
use omega_services.Modes.Channel.Decimal.{atol_long}
use omega_services.Services.Keeps.Rules.{
  Gives, Counted, Gives-some, Gives-if, Gives-bind, Gives-then, Gives-found,
}
use omega_services.Services.Unreal.Args.{Argv, arg, unreal_join}
use omega_services.Services.Unreal.Channels.{
  channel_for, set_modes, sjoin_modes, sjoin_into, older, names_in, is_channel, add_names,
  omega_sjoin, omega_join, omega_mode, omega_svsmode, omega_kick, omega_part, omega_sapart,
  bring_in, omega_sajoin, invite, omega_invite,
}
use omega_services.Users.Sjoin.{add_to_channel, add_to_channel-IsCounted}

pub unreal_join-Counted :
    (cfg : Config) (u c : Ptr) (st : Services) → Counted st → Gives Counted (unreal_join cfg u c st)
unfolding unreal_join
unreal_join-Counted cfg u c st k = Gives-bind (st.links.net.chan c) _ λ ch _.
    Gives-bind (create_chanmode_string cfg.cmodes (st.room c).modes) _ λ modes _. Gives-some _ k

module _ (cfg : Config) (env : Env) where
  channel_for-Counted :
      (name : Option Bytes) (st : Services)
      → Counted st
      → Gives (λ (found : Ptr × Services). Counted found.1) (channel_for env name st)
  unfolding channel_for
  channel_for-Counted name st k = Gives-bind (channel_of name st.links.net) _ λ r _.
      Gives-found r _ _
        (Gives-bind name _ λ text _.
          Gives-bind (new_chan env.fresh text st.links.net) _ λ made e.
            Gives-some _ (new_chan-IsCounted env.fresh text st.links.net made.1 made.0 k e))
        (λ c. Gives-some (c, st) k)

  add_names-IsCounted :
      (names : List Bytes) (c : Ptr) (n : Net)
      → IsCounted n
      → Gives IsCounted (add_names cfg env names c n)
  unfolding add_names
  add_names-IsCounted [] c n k = Gives-some n k
  add_names-IsCounted (user ∷ users) c n k =
      Gives-bind (add_to_channel cfg.cmodes env.junk user c n) _ λ n' e.
        add_names-IsCounted users c n'
          (add_to_channel-IsCounted cfg.cmodes env.junk user c n n' k e)

  set_modes-Counted :
      (c : Ptr) (modes : Bytes) (params : List Bytes) (st : Services)
      → Counted st
      → Gives Counted (set_modes cfg env c modes params st)
  unfolding set_modes
  set_modes-Counted c modes params st k =
      Gives-bind (read_chanmode_string cfg.cmodes env.toadd (st.room c).modes modes params) _
        λ m _. Gives-some _ k

  sjoin_modes-Counted :
      (argc : ℕ) (argv : Argv) (c : Ptr) (st : Services)
      → Counted st
      → Gives Counted (sjoin_modes cfg env argc argv c st)
  unfolding sjoin_modes
  sjoin_modes-Counted argc argv c st k =
      Gives-if (ltb 4 argc) (Gives-bind (arg argv 3) _ λ modes _. set_modes-Counted c modes _ st k)
        (Gives-some st k)

  sjoin_into-Counted :
      (argc : ℕ) (argv : Argv) (c : Ptr) (st : Services)
      → Counted st
      → Gives Counted (sjoin_into cfg env argc argv c st)
  unfolding sjoin_into
  sjoin_into-Counted argc argv c st k = Gives-bind (arg argv 1) _ λ ts _.
      let st1 = put_room c (older (atol_long ts) (st.room c)) st in
      Gives-then (sjoin_modes cfg env argc argv c st1) _ (sjoin_modes-Counted argc argv c st1 k)
        λ st2 k2.
          let names = names_in (arg argv (argc - 1)) in
          Gives-bind (add_names cfg env names c st2.links.net) _
            λ n e. Gives-some _ ((add_names-IsCounted names c st2.links.net k2).at n e)

  pub omega_sjoin-Counted :
      (argc : ℕ) (argv : Argv) (st : Services)
      → Counted st
      → Gives Counted (omega_sjoin cfg env argc argv st)
  unfolding omega_sjoin
  omega_sjoin-Counted argc argv st k = Gives-if (ltb argc 4) (Gives-some st k) (
      Gives-bind (channel_for env (arg argv 2) st) _ λ found e.
        sjoin_into-Counted argc argv found.0 found.1
          ((channel_for-Counted (arg argv 2) st k).at found e))

  pub omega_mode-Counted :
      (u : Ptr) (argc : ℕ) (argv : Argv) (st : Services)
      → Counted st
      → Gives Counted (omega_mode cfg env u argc argv st)
  unfolding omega_mode
  omega_mode-Counted u argc argv st k = Gives-bind (arg argv 1) _ λ target _.
      Gives-if (is_channel target)
        (Gives-bind (channel_of (some target) st.links.net) _ λ r _.
          Gives-found r _ _ (Gives-some st k)
            (λ c. Gives-bind (arg argv 2) _ λ modes _. set_modes-Counted c modes _ st k))
        (Gives-bind (arg argv 2) _
          λ modes _. Gives-bind (st.links.net.user u) _ λ us _. Gives-some _ k)

  pub bring_in-Counted :
      (u c : Ptr) (st : Services) → Counted st → Gives Counted (bring_in cfg env u c st)
  unfolding bring_in
  bring_in-Counted u c st k =
      let bursting = is_bursting st.sync in
      Gives-bind (add_to_channel_u env.junk bursting u c st.links.net) _ λ n e.
        unreal_join-Counted cfg u c (put_net n st)
          (add_to_channel_u-IsCounted env.junk bursting u c st.links.net n k e)

  pub omega_sajoin-Counted :
      (argc : ℕ) (argv : Argv) (st : Services)
      → Counted st
      → Gives Counted (omega_sajoin cfg env argc argv st)
  unfolding omega_sajoin
  omega_sajoin-Counted argc argv st k = Gives-if (ltb argc 3) (Gives-some st k) (
      Gives-bind (user_of (arg argv 1) st.links.net) _ λ r _.
        Gives-found r _ _ (Gives-some st k) (λ u.
          Gives-bind (channel_of (arg argv 2) st.links.net) _
            λ q _. Gives-found q _ _ (Gives-some st k) (λ c. bring_in-Counted u c st k)))

  pub omega_invite-Counted :
      (u : Ptr) (argc : ℕ) (argv : Argv) (st : Services)
      → Counted st
      → Gives Counted (omega_invite cfg env u argc argv st)
  unfolding omega_invite invite
  omega_invite-Counted u argc argv st k = Gives-if (ltb argc 3) (Gives-some st k) (
      Gives-if (st.profile u).modes.account.oper
        (Gives-bind (channel_of (arg argv 2) st.links.net) _ λ q _.
          Gives-found q _ _ (Gives-some st k) (λ c.
            Gives-bind (user_of (arg argv 1) st.links.net) _
              λ r _. Gives-found r _ _ (Gives-some st k) (λ w. bring_in-Counted w c st k)))
        (Gives-some _ k))

pub omega_svsmode-Counted :
    (cfg : Config) (argv : Argv) (st : Services)
    → Counted st
    → Gives Counted (omega_svsmode cfg argv st)
unfolding omega_svsmode
omega_svsmode-Counted cfg argv st k = Gives-bind (user_of (arg argv 1) st.links.net) _ λ r _.
    Gives-found r _ _ (Gives-some st k) (λ u.
      Gives-bind (arg argv 2) _
        λ modes _. Gives-bind (st.links.net.user u) _ λ us _. Gives-some _ k)

-- `DelFromChannel`, with what is sent behind it.
left-Counted :
    (u c : Ptr) (st : Services) (f : Net → Option Services)
    → Counted st
    → ((n : Net) → IsCounted n → Gives Counted (f n))
    → Gives Counted (del_from_channel u c st.links.net >>= f)
left-Counted u c st f k kf =
    Gives-bind (del_from_channel u c st.links.net) f
      λ n e. kf n (del_from_channel-IsCounted u c st.links.net n k e)

pub omega_kick-Counted :
    (argv : Argv) (st : Services) → Counted st → Gives Counted (omega_kick argv st)
unfolding omega_kick
omega_kick-Counted argv st k = Gives-bind (channel_of (arg argv 1) st.links.net) _ λ r _.
    Gives-found r _ _ (Gives-some st k) (λ c.
      Gives-bind (user_of (arg argv 2) st.links.net) _ λ q _.
        Gives-found q _ _ (Gives-some st k)
          (λ u. left-Counted u c st _ k (λ n kn. Gives-some _ kn)))

pub omega_part-Counted :
    (u : Ptr) (argc : ℕ) (argv : Argv) (st : Services)
    → Counted st
    → Gives Counted (omega_part u argc argv st)
unfolding omega_part
omega_part-Counted u argc argv st k = Gives-if (ltb argc 2) (Gives-some st k) (
    Gives-bind (channel_of (arg argv 1) st.links.net) _ λ r _.
      Gives-found r _ _ (Gives-some st k) (λ c. left-Counted u c st _ k (λ n kn. Gives-some _ kn)))

pub omega_sapart-Counted :
    (argc : ℕ) (argv : Argv) (st : Services)
    → Counted st
    → Gives Counted (omega_sapart argc argv st)
unfolding omega_sapart
omega_sapart-Counted argc argv st k = Gives-if (ltb argc 3) (Gives-some st k) (
    Gives-bind (user_of (arg argv 1) st.links.net) _ λ r _.
      Gives-found r _ _ (Gives-some st k) (λ u.
        Gives-bind (channel_of (arg argv 2) st.links.net) _ λ q _.
          Gives-found q _ _ (Gives-some st k) (λ c.
            left-Counted u c st _ k λ n kn. Gives-bind (arg argv 2) _ λ name _. Gives-some _ kn)))

pub omega_join-Counted :
    (u : Ptr) (argv : Argv) (st : Services) → Counted st → Gives Counted (omega_join u argv st)
unfolding omega_join
omega_join-Counted u argv st k = Gives-bind (arg argv 1) _ λ name _.
    Gives-if (eq_nocase name (codes "0"))
      (Gives-bind (st.links.net.user u) _ λ us _.
        Gives-bind (part_all u us.channels st.links.net) _
          λ n e. Gives-some _ (part_all-IsCounted u us.channels st.links.net n k e))
      (Gives-some st k)
