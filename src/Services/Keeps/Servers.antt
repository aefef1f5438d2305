-- ===== src/Services/Keeps/Servers.antt =====
-- The handlers for servers, users and kills keep the counts.
use omega_services.Prelude.{
  ℕ, zero, suc, ◌+◌, Bool, true, false, ◌||◌, Option, none, some, List, [], ◌∷◌, Bytes, length, leb,
  eq_nocase, if◌then◌else◌,
}
use omega_services.Links.{
  Link, Links, new_serv, find_serv, exit_serv, exit_users, leave, walk, visit, next_of, on_server,
  head_of,
}
use omega_services.Network.{Ptr, Net, exit_one_user}
use omega_services.Network.Counted.{exit_one_user-IsCounted}
use omega_services.Network.Members.{IsCounted}
use omega_services.Services.{Services, Config, Env, serv_of, is_bursting}
use omega_services.Services.Keeps.Rules.{
  Gives, Counted, Gives-none, Gives-some, Gives-if, Gives-bind, Gives-then, Gives-found,
}
use omega_services.Services.Unreal.Args.{rejoin, Argv, arg}
use omega_services.Services.Keeps.Users.{rejoin-Counted}
use omega_services.Services.Unreal.Burst.{burst_users, burst_local_users}
use omega_services.Services.Unreal.Servers.{
  set_uplink, add_known, is_null, omega_server, omega_eos, end_burst, omega_ping, omega_pong,
  omega_squit,
}

-- The network of the servers.
abbrev NetCounted : Links → Type 0
NetCounted l = IsCounted l.net

module _ (serv_at : Ptr → Option Ptr) where
  exit_users-IsCounted :
      (srv : Ptr → Option Link) (name : Bytes) (us : List Ptr) (n : Net)
      → IsCounted n
      → Gives IsCounted (exit_users serv_at srv name us n)
  unfolding exit_users
  exit_users-IsCounted srv name [] n k = Gives-some n k
  exit_users-IsCounted srv name (u ∷ us) n k = Gives-bind (on_server serv_at srv name u) _ λ here _.
      Gives-then (if here then exit_one_user u n else some n) _
        (Gives-if here (record { at = λ n' e. exit_one_user-IsCounted u n n' k e })
          (Gives-some n k))
        λ n' k'. exit_users-IsCounted srv name us n' k'

  leave-NetCounted : (s : Ptr) (l : Links) → NetCounted l → Gives NetCounted (leave serv_at s l)
  unfolding leave
  leave-NetCounted s l k = Gives-bind (l.srv s) _ λ sl _. Gives-bind sl.uplink _ λ up _.
      Gives-bind (l.srv up) _ λ ul _.
        Gives-bind (exit_users serv_at l.srv sl.name l.net.userlist l.net) _
          λ n e. Gives-some _ ((exit_users-IsCounted l.srv sl.name l.net.userlist l.net k).at n e)

module _ (exit : Bytes → Links → Option Links)
    (keep : (name : Bytes) (l : Links) → NetCounted l → Gives NetCounted (exit name l))
    (s : Ptr) where
  visit-NetCounted : (li : Ptr) (l : Links) → NetCounted l → Gives NetCounted (visit exit s li l)
  unfolding visit
  visit-NetCounted li l k = Gives-bind (l.srv li) _ λ ll _.
      Gives-found ll.uplink _ _ (Gives-some l k) (λ up. Gives-bind (l.srv up) _ λ ul _.
        Gives-bind (l.srv s) _
          λ sl _. Gives-if (eq_nocase ul.name sl.name) (keep ll.name l k) (Gives-some l k))

  walk-NetCounted :
      (rounds : ℕ) (cur : Option Ptr) (l : Links)
      → NetCounted l
      → Gives NetCounted (walk exit s rounds cur l)
  unfolding walk
  walk-NetCounted zero cur l k = Gives-none
  walk-NetCounted (suc n) none l k = Gives-some l k
  walk-NetCounted (suc n) (some li) l k = Gives-bind (next_of li l.servlist) _ λ tdl _.
      Gives-then (visit exit s li l) _ (visit-NetCounted li l k)
        λ l' k'. walk-NetCounted n tdl l' k'

pub exit_serv-NetCounted :
    (serv_at : Ptr → Option Ptr) (fuel : ℕ) (serv : Bytes) (l : Links)
    → NetCounted l
    → Gives NetCounted (exit_serv serv_at fuel serv l)
unfolding exit_serv
exit_serv-NetCounted serv_at zero serv l k = Gives-none
exit_serv-NetCounted serv_at (suc f) serv l k = Gives-bind (find_serv serv l) _ λ r _.
    Gives-found r _ _ (Gives-some l k) (λ s.
      Gives-then (walk (exit_serv serv_at f) s (suc (length l.servlist)) (head_of l.servlist) l) _
        (walk-NetCounted (exit_serv serv_at f) (exit_serv-NetCounted serv_at f) s
          (suc (length l.servlist)) (head_of l.servlist) l k)
        λ l' k'. leave-NetCounted serv_at s l' k')

pub omega_squit-Counted :
    (argv : Argv) (st : Services) → Counted st → Gives Counted (omega_squit argv st)
unfolding omega_squit
omega_squit-Counted argv st k = Gives-found (arg argv 1) _ _ (Gives-some st k) (λ serv.
    let serv_at = λ (u : Ptr). (st.profile u).serv in
    let depth = length st.links.servlist + 1 in
    Gives-bind (exit_serv serv_at depth serv st.links) _
      λ l e. Gives-some _ ((exit_serv-NetCounted serv_at depth serv st.links k).at l e))

new_serv-NetCounted :
    (fresh : Ptr) (uplink : Option Ptr) (name : Bytes) (l : Links)
    → NetCounted l
    → Gives (λ (r : Ptr × Links). NetCounted r.1) (new_serv fresh uplink name l)
unfolding new_serv
new_serv-NetCounted fresh uplink name l k =
    Gives-bind (find_serv name l) _ λ r _. Gives-found r _ _ (Gives-some _ k) (λ p. Gives-some _ k)

set_uplink-NetCounted :
    (cfg : Config) (li : Ptr) (l : Links) → NetCounted l → Gives NetCounted (set_uplink cfg li l)
unfolding set_uplink
set_uplink-NetCounted cfg li l k =
    Gives-found cfg.me _ _ (Gives-some l k) (λ me. Gives-bind (l.srv me) _ λ own _. Gives-some _ k)

add_known-Counted :
    (cfg : Config) (env : Env) (lk : Option Ptr) (source : Option Bytes) (name : Bytes)
    (st : Services)
    → Counted st
    → Gives Counted (add_known cfg env lk source name st)
add_known-Counted cfg env lk (some source) name st k =
    Gives-then _ _ (new_serv-NetCounted env.fresh lk name st.links k) λ r kr. Gives-some _ kr
add_known-Counted cfg env lk none name st k =
    Gives-then _ _ (new_serv-NetCounted env.fresh none name st.links k)
      λ r kr. Gives-then _ _ (set_uplink-NetCounted cfg r.0 r.1 kr) λ l kl. Gives-some _ kl

pub omega_server-Counted :
    (cfg : Config) (env : Env) (lk : Option Ptr) (argc : ℕ) (argv : Argv) (st : Services)
    → Counted st
    → Gives Counted (omega_server cfg env lk argc argv st)
unfolding omega_server
omega_server-Counted cfg env lk argc argv st k =
    Gives-if (leb argc 2 || is_null (arg argv 1)) (Gives-some st k)
      (Gives-bind (arg argv 1) _ λ name _. add_known-Counted cfg env lk (arg argv 0) name st k)

burst_users-Counted :
    (cfg : Config) (us : List Ptr) (st : Services)
    → Counted st
    → Gives Counted (burst_users cfg us st)
unfolding burst_users
burst_users-Counted cfg [] st k = Gives-some st k
burst_users-Counted cfg (u ∷ us) st k = Gives-bind (st.links.net.user u) _ λ v _.
    Gives-if v.myconnect
      (Gives-then (rejoin cfg u v.channels st) _ (rejoin-Counted cfg u v.channels st k)
        λ st' k'. burst_users-Counted cfg us st' k')
      (Gives-some st k)

end_burst-Counted : (cfg : Config) (st : Services) → Counted st → Gives Counted (end_burst cfg st)
unfolding end_burst burst_local_users
end_burst-Counted cfg st k =
    Gives-if (is_bursting st.sync)
      (Gives-then (burst_users cfg st.links.net.userlist st) _
        (burst_users-Counted cfg st.links.net.userlist st k) λ st' k'. Gives-some _ k')
      (Gives-some st k)

pub omega_eos-Counted :
    (cfg : Config) (argv : Argv) (st : Services)
    → Counted st
    → Gives Counted (omega_eos cfg argv st)
unfolding omega_eos
omega_eos-Counted cfg argv st k = Gives-bind (serv_of (arg argv 0) st.links) _ λ r _.
    Gives-found r _ _ (Gives-some st k) (λ li.
      Gives-bind (find_serv cfg.servername st.links) _ λ q _.
        Gives-found q _ _ (Gives-some st k) (λ own. Gives-bind (st.links.srv own) _ λ ol _.
          Gives-found ol.uplink _ _ (Gives-some st k) (λ up. Gives-bind (st.links.srv up) _ λ ul _.
            Gives-bind (arg argv 0) _ λ name _.
              Gives-if (eq_nocase ul.name name) (end_burst-Counted cfg st k) (Gives-some st k))))

pub omega_ping-Counted :
    (cfg : Config) (lk : Option Ptr) (st : Services)
    → Counted st
    → Gives Counted (omega_ping cfg lk st)
unfolding omega_ping
omega_ping-Counted cfg (some li) st k = Gives-bind (st.links.srv li) _ λ l _. Gives-some _ k
omega_ping-Counted cfg none st k = Gives-bind (find_serv cfg.servername st.links) _ λ r _.
    Gives-bind r _ λ own _.
      Gives-bind (st.links.srv own) _
        λ ol _. Gives-bind ol.uplink _ λ up _. Gives-bind (st.links.srv up) _ λ ul _. Gives-some _ k

pub omega_pong-Counted :
    (env : Env) (lk : Option Ptr) (st : Services)
    → Counted st
    → Gives Counted (omega_pong env lk st)
unfolding omega_pong
omega_pong-Counted env none st k = Gives-some st k
omega_pong-Counted env (some source) st k = Gives-found st.uplink _ _ (Gives-some st k) (λ up.
    Gives-bind (st.links.srv source) _ λ sl _.
      Gives-bind (st.links.srv up) _ λ ul _. Gives-some _ (same (eq_nocase sl.name ul.name)))
  where
    same : (b : Bool) → Counted (if b then record st { lastpong = env.now } else st)
    same true = k
    same false = k
