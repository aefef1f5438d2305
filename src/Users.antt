-- ===== src/Users.antt =====
-- src/user.c: the list of users, by nick and by user id, on the heap of Network: new users, changes
-- of nick, and exits. What is read on the way from the server of a user, its metadata,
-- the number of users and the log are left out.
pub mod Unique
pub mod Sjoin
pub mod Reach
use omega_services.Prelude.{
  ℕ, Bool, true, false, ◌&&◌, ◌||◌, Option, none, some, List, [], ◌∷◌, ◌++◌, Bytes, take, eq_nocase,
  if◌then◌else◌,
}
use omega_services.Network.{
  Ptr, User, Net, Output, usernick, emit, put_user, ◌>>=◌, exit_one_user, part_all, farewell,
}

-- `HasId`, and a user id that is the text.
unfoldable pub is_uid : Bytes → User → Bool
is_uid uid us = elim us.uid [ [] ↦ false | c ∷ s ↦ eq_nocase us.uid uid ]

unfoldable pub is_user : Bytes → User → Bool
unfolding is_uid
is_user name us = eq_nocase us.nick name || is_uid name us

module _ (n : Net) where
  -- The loop of `find_user`.
  unfoldable pub find_in : (User → Bool) → List Ptr → Option (Option Ptr)
  find_in test [] = some none
  find_in test (p ∷ ps) =
      let rest = find_in test ps in n.user p >>= λ us. if test us then some (some p) else rest

  -- `find_user`: by nick or user id.
  unfoldable pub find_user : Bytes → Option (Option Ptr)
  unfolding find_in is_user
  find_user name = find_in (is_user name) n.userlist

  -- `find_uid`
  unfoldable pub find_uid : Bytes → Option (Option Ptr)
  unfolding find_in is_uid
  find_uid uid = find_in (is_uid uid) n.userlist

-- `new_user`, at the address that `malloc` returns: NULL if the nick is known.
unfoldable pub new_user : Ptr → Bytes → Net → Option (Option Ptr × Net)
unfolding find_user
new_user fresh nick n = find_user n nick >>= λ r. elim r [
  | some p ↦ some (none, n)
  | none ↦ some (
    some fresh,
    record (put_user fresh
        (record { nick = take 49 nick; uid = []; myconnect = false; channels = [] }) n) {
          userlist = n.userlist ++ fresh ∷ [];
        },
  )
]

-- `NewNick`: nothing if the nick is known. The event has the old nick, cut to `oldnick[32]`.
unfoldable pub new_nick : Ptr → Bytes → Net → Option Net
unfolding find_user
new_nick u nick n = find_user n nick >>= λ r. elim r [
  | some p ↦ some n
  | none ↦ n.user u >>= λ us.
      some (emit (usernick u (take 31 us.nick)) (put_user u (record us { nick = take 49 nick }) n))
]

-- `exit_user`: the steps of `exit_one_user` on the user of that name; the reason of the QUIT line is
-- not modelled.
unfoldable pub exit_user : Bytes → Net → Option Net
unfolding find_user part_all farewell
exit_user user n = find_user n user >>= λ r. elim r [
  | none ↦ some n
  | some u ↦ n.user u >>= λ us. part_all u us.channels n >>= λ n1. some (farewell u us n1)
]

-- `exit_local_users` and `exit_remote_users`: the walk reads the next node before it frees one.
unfoldable pub exit_where : (User → Bool) → List Ptr → Net → Option Net
unfolding exit_one_user
exit_where test [] n = some n
exit_where test (p ∷ ps) n =
    n.user p >>= λ us. (if test us then exit_one_user p n else some n) >>= exit_where test ps

unfoldable pub exit_local_users : Net → Option Net
unfolding exit_where
exit_local_users n = exit_where (λ us. us.myconnect) n.userlist n

unfoldable pub exit_remote_users : Net → Option Net
unfolding exit_where
exit_remote_users n = exit_where (λ us. if us.myconnect then false else true) n.userlist n
