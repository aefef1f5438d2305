-- ===== src/Samples/Nicks.antt =====
-- Nicks of users.
use omega_services.Prelude.{
  ◌≡◌, refl, false, none, some, [], ◌∷◌, codes, eq_nocase, arith, ◌==◌, if◌then◌else◌,
}
use omega_services.Network.{User, Net}
use omega_services.Users.{find_user, find_in, is_user, is_uid, new_user}
use omega_services.Users.Unique.{new_user-find}

abbrev ann : User
ann = record { nick = codes "Ann"; uid = codes "1AAAAAAAA"; myconnect = false; channels = [] }

abbrev ann_alone : Net
ann_alone = record {
  user = λ p. if p == 3 then some ann else none;
  chan = λ p. none;
  userlist = 3 ∷ [];
  channels = [];
  output = [];
}

find_runs : find_user ann_alone (codes "1aaaaaaaa") ≡ some (some 3)
unfolding find_user find_in is_user is_uid eq_nocase
find_runs = refl

new_user-find_example :
    (n' : Net) × (new_user 5 (codes "Bob") ann_alone ≡ some (some 5, n'))
    × (find_user n' (codes "Bob") ≡ some (some 5))
    × (find_user n' (codes "ANN") ≡ find_user ann_alone (codes "ANN"))
unfolding find_user find_in is_user is_uid eq_nocase
new_user-find_example =
    new_user-find 5 (codes "Bob") (codes "ANN") ann_alone refl (refl, tt) (omega arith) refl
