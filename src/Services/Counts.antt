-- ===== src/Services/Counts.antt =====
-- The count that the services keep of users, `usercnt`, through AddUser of src/user.c and QUIT.
use omega_services.Prelude.{
  ℤ, zero, suc, pos, negsuc, if◌then◌else◌, Bool, ℕ, ◌≤◌, ◌≡◌, refl, ap, true, false, Option, none,
  some, [], Bytes, length, take, take-eq_self, eq_nocase_refl, All, ◌∙◌, Bool-cases, inl, inr,
  ==_iff, ◌==◌, suc_ℤ, pred_ℤ,
}
use mathlib.Core.Path.{fun_ext}
use omega_services.Links.{Link, Links, find_serv}
use omega_services.Network.{◌>>=◌, Ptr, User, Net, update, exit_one_user, part_all, farewell}
use omega_services.Services.{
  emit_line, userconn, Profile, put_profile, put_net, Services, Config, Env, serv_of, exit_named,
  exit_one, name_at, after_exits,
}
use omega_services.Services.Clients.{
  add_user, uid_of, count_user, settle_user, fill_user, place_user,
}
use omega_services.Services.Unreal.Servers.{omega_quit}
use omega_services.Users.Unique.{with_user, find_user-with_user}
use omega_services.Users.{find_user, new_user, exit_user}

same_address : (p : ℕ) → (p == p) ≡ true
same_address p = (==_iff p p).1 refl

serv_of-net :
    (server : Option Bytes) (n : Net) (l : Links)
    → serv_of server (record l { net = n }) ≡ serv_of server l
unfolding find_serv
serv_of-net none n l = refl
serv_of-net (some name) n l = refl

uid_of-none :
    (cfg : Config) (uid : Option Bytes)
    → cfg.p10 ≡ false
    → cfg.ts6 ≡ false
    → uid_of cfg uid ≡ some []
uid_of-none cfg none no_p10 no_ts6 = rw no_p10 refl
uid_of-none cfg (some uid) no_p10 no_ts6 = rw (no_p10, no_ts6) refl

update_twice {ℓ} :
    {A : Type ℓ} (f : Ptr → Option A) (p : Ptr) (v : Option A)
    → update (update f p v) p v ≡ update f p v
update_twice f p v =
    fun_ext
      (λ q. elim (Bool-cases (p == q)) [ inl same ↦ rw same refl | inr other ↦ rw other refl ])

pred_ℤ-suc_ℤ : (z : ℤ) → pred_ℤ (suc_ℤ z) ≡ z
pred_ℤ-suc_ℤ (pos n) = refl
pred_ℤ-suc_ℤ (negsuc zero) = refl
pred_ℤ-suc_ℤ (negsuc (suc n)) = refl

counted_quit :
    (logging : Bool) (z : ℤ) → after_exits logging 1 (suc_ℤ z) ≡ (if logging then z else suc_ℤ z)
counted_quit true z = pred_ℤ-suc_ℤ z
counted_quit false z = refl

counted_kill :
    (logging : Bool) (z : ℤ)
    → pred_ℤ (after_exits logging 1 (suc_ℤ z)) ≡ (if logging then pred_ℤ z else z)
counted_kill true z = ap pred_ℤ (pred_ℤ-suc_ℤ z)
counted_kill false z = pred_ℤ-suc_ℤ z

counted_back :
    (logging : Bool) (z : ℤ)
    → pred_ℤ (after_exits logging 1 z) ≡ (if logging then pred_ℤ (pred_ℤ z) else pred_ℤ z)
counted_back true z = refl
counted_back false z = refl

name_at-net :
    (p : Option Ptr) (n : Net) (l : Links) → name_at p (record l { net = n }) ≡ name_at p l
name_at-net none n l = refl
name_at-net (some p) n l = refl

read_name :
    (name : Option Bytes) (st : Services)
    → ◌≡◌ {A = Option (Option Ptr × Services)}
        (name >>= (λ s. some st) >>= λ st'. some (none, st'))
        (name >>= λ s. some (none, st))
read_name none st = refl
read_name (some s) st = refl

module _ (cfg : Config) (env : Env) (nick : Bytes) (user host : Option Bytes) (realname : Bytes)
    (server modes uid vhost ip : Option Bytes) (st : Services)
    (unknown : find_user st.links.net nick ≡ some none) (no_p10 : cfg.p10 ≡ false)
    (no_ts6 : cfg.ts6 ≡ false) where
  abbrev filled : Profile
  filled = fill_user cfg nick user host realname modes env.old_user

  abbrev new_one : User
  new_one = record { nick = take 49 nick; uid = []; myconnect = false; channels = [] }

  -- The network with the new user.
  abbrev joined : Net
  joined = with_user env.fresh (take 49 nick) st.links.net

  -- The state from which `AddUser` looks for the server.
  abbrev filled_state : Services
  filled_state = put_profile env.fresh filled (put_net joined st)

  add_user-place :
      add_user cfg env nick user host realname server modes uid vhost ip st
      ≡ place_user cfg nick server vhost ip env.fresh filled filled_state
  unfolding add_user new_user
  add_user-place =
      rw (unknown, uid_of-none cfg uid no_p10 no_ts6, same_address env.fresh)
        (ap
          (λ (f : Ptr → Option User).
            place_user cfg nick server vhost ip env.fresh filled
              (put_profile env.fresh filled (put_net (record joined { user = f }) st)))
          (update_twice st.links.net.user env.fresh (some new_one)))

  abbrev own_user : User
  own_user = record { nick = take 49 nick; uid = []; myconnect = false; channels = [] }

  -- The state after AddUser has placed the user on a server.
  abbrev placed : Ptr → Services
  placed li =
      emit_line (userconn env.fresh)
        (count_user (put_profile env.fresh (settle_user cfg li vhost ip filled) filled_state))

  find-joined :
      All (λ p. (p == env.fresh) ≡ false) st.links.net.userlist
      → length nick ≤ 49
      → find_user joined nick ≡ some (some env.fresh)
  find-joined new fits = rw (take-eq_self 49 nick fits) (
      find_user-with_user env.fresh nick nick st.links.net new
      ∙ rw (unknown, eq_nocase_refl nick) refl)

  exit-joined :
      All (λ p. (p == env.fresh) ≡ false) st.links.net.userlist
      → length nick ≤ 49
      → exit_user nick joined ≡ some (farewell env.fresh own_user joined)
  unfolding exit_user part_all farewell
  exit-joined new fits = rw (find-joined new fits, same_address env.fresh) refl

  -- A user of an uplink without user ids connects from a known server that is there, under a new nick of
  -- at most 49 bytes, at an address that is not in the list. With modules/client/g_log.c loaded, a QUIT
  -- leaves `usercnt` as it was before, and the exit by the nick, as for a KILL, leaves it one lower;
  -- without it, QUIT leaves it one higher, and the exit by the nick as it was. Both free the user. No other
  -- function that is registered for an event is run.
  pub quit-usercnt :
      (li : Ptr) (own : Link)
      → serv_of server st.links ≡ some (some li)
      → st.links.srv li ≡ some own
      → All (λ p. (p == env.fresh) ≡ false) st.links.net.userlist
      → length nick ≤ 49
      → (st1 st2 st3 : Services) × (add_user cfg env nick user host realname server modes uid vhost
            ip st
          ≡ some (some env.fresh, st1))
        × (omega_quit env.fresh st1 ≡ some st2)
        × (exit_named nick st1 ≡ some st3)
        × (st2.links.net.user env.fresh ≡ none)
        × (st3.links.net.user env.fresh ≡ none)
        × (st2.usercnt ≡ (if st.logging then st.usercnt else suc_ℤ st.usercnt))
        × (st3.usercnt ≡ (if st.logging then pred_ℤ st.usercnt else st.usercnt))
  unfolding place_user omega_quit exit_named exit_one exit_one_user part_all farewell
  quit-usercnt li own known there new fits =
      let gone : Net = farewell env.fresh own_user joined in
      let quit = after_exits st.logging 1 (suc_ℤ st.usercnt) in
      (
        placed li,
        put_net gone (record (placed li) { usercnt = quit }),
        put_net gone (record (placed li) { usercnt = pred_ℤ quit }),
        add_user-place ∙ rw (serv_of-net server joined st.links, known) refl,
        rw (same_address env.fresh, there) refl,
        rw (find-joined new fits, exit-joined new fits, same_address env.fresh, there) refl,
        rw (same_address env.fresh) refl,
        rw (same_address env.fresh) refl,
        counted_quit st.logging st.usercnt,
        counted_kill st.logging st.usercnt,
      )

  -- For an uplink without user ids, a user from a server that is not known, under a new nick of at most 49
  -- bytes, is taken back by AddUser, if the user's address is not in the list before. For its log AddUser then reads the name of the user's server
  -- through the pointer that `malloc` left there, and does not return if no server is at that address.
  -- Else the user is freed, and `usercnt`, which did not count it, is one lower than before, or two
  -- with modules/client/g_log.c loaded. No other function that is registered for an event is run.
  pub add_user-unknown_server :
      serv_of server st.links ≡ some none
      → All (λ p. (p == env.fresh) ≡ false) st.links.net.userlist
      → length nick ≤ 49
      → (st' : Services) × (add_user cfg env nick user host realname server modes uid vhost ip st
          ≡ (name_at env.old_user.serv st.links >>= λ name. some (none, st')))
        × (st'.links.net.user env.fresh ≡ none)
        × (st'.usercnt ≡ (if st.logging then pred_ℤ (pred_ℤ st.usercnt) else pred_ℤ st.usercnt))
  unfolding place_user exit_named farewell fill_user
  add_user-unknown_server unknown_server new fits =
      let after : Services = record filled_state {
        usercnt = pred_ℤ (after_exits st.logging 1 st.usercnt);
      } in
      let st' = put_net (farewell env.fresh own_user joined) after in
      (
        st',
        add_user-place
            ∙ rw
                (
                  serv_of-net server joined st.links,
                  unknown_server,
                  find-joined new fits,
                  exit-joined new fits,
                  same_address env.fresh,
                  name_at-net env.old_user.serv joined st.links,
                )
                (read_name (name_at env.old_user.serv st.links) st'),
        rw (same_address env.fresh) refl,
        counted_back st.logging st.usercnt,
      )
