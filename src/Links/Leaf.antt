-- ===== src/Links/Leaf.antt =====
-- `exit_serv` of a server that no other server is linked below.
use omega_services.Prelude.{
  ℕ, suc, ◌≡◌, refl, Option, none, some, [], ◌∷◌, ◌++◌, Bytes, All, length, arith,
}
use omega_services.Network.{Ptr, Net, update, find_delete}
use omega_services.Links.{Link, Links, find_serv, exit_users, leave, exit_serv, serverexit}
use omega_services.Links.Walk.{Distinct, Distinct-Behind, NotBelow, walk-quiet}

-- `exit_serv` of a server that has an uplink, and that no server of the list is linked below, returns,
-- with no call of itself, if the exits of the users on it return: its users have exited, it is announced,
-- freed and taken off the list, and nothing else has changed.
pub exit_serv-leaf :
    (serv_of : Ptr → Option Ptr) (fuel : ℕ) (serv : Bytes) (st : Links) {s up : Ptr} {sl ul : Link}
    {n : Net}
    → find_serv serv st ≡ some (some s)
    → st.srv s ≡ some sl
    → sl.uplink ≡ some up
    → st.srv up ≡ some ul
    → Distinct st.servlist
    → All (NotBelow st.srv sl.name) st.servlist
    → exit_users serv_of st.srv sl.name st.net.userlist st.net ≡ some n
    → exit_serv serv_of (suc fuel) serv st
      ≡ some (record st {
        net = n;
        events = st.events ++ serverexit s ∷ [];
        servlist = find_delete s st.servlist;
        srv = update st.srv s none;
      })
unfolding exit_serv leave
exit_serv-leaf serv_of fuel serv st {s} {sl} found there linked up_there distinct quiet users =
    rw
      (
        found,
        walk-quiet (exit_serv serv_of fuel) s st sl there [] st.servlist (suc (length st.servlist))
            refl (omega arith) (Distinct-Behind st.servlist distinct) quiet,
      )
      (rw (there, linked, up_there, users) refl)
