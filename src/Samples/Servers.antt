-- ===== src/Samples/Servers.antt =====
-- Servers that link and split.
use omega_services.Prelude.{
  ◌≡◌, ◌==◌, refl, false, some, none, Option, [], ◌∷◌, Bytes, codes, if◌then◌else◌, eq_nocase,
}
use mathlib.Core.Option
use omega_services.Network.{Ptr, Net, update, find_delete}
use omega_services.Links.{
  Link, Links, find_serv, exit_serv, exit_users, exit_all_servs, burst_in, serverexit,
}
use omega_services.Links.Dangling.{exit_serv-dangling}
use omega_services.Links.Leaf.{exit_serv-leaf}

abbrev entry : Bytes → Option Ptr → Link
entry name uplink = record { name = name; sid = []; uplink = uplink; eos = false }

abbrev link : Bytes → Option Ptr → Option Link
link name uplink = some (entry name uplink)

-- Omega, its uplink, a hub below that and a leaf below the hub.
abbrev pub servers : Ptr → Option Link
servers p =
    if p == 1
    then link (codes "omega.example") none
    else if p == 2
    then link (codes "up.example") (some 1)
    else if p == 3
    then link (codes "hub.example") (some 2)
    else if p == 4
    then link (codes "leaf.example") (some 3)
    else none

abbrev pub nobody : Net
nobody = record { user = λ p. none; chan = λ c. none; userlist = []; channels = []; output = [] }

abbrev pub tree : Links
tree = record {
  srv = servers;
  servlist = 1 ∷ 2 ∷ 3 ∷ 4 ∷ [];
  servernum = 4;
  net = nobody;
  events = [];
}

abbrev on_none : Ptr → Option Ptr
on_none u = none

left_over :
    Option.map (λ (st : Links). st.servlist) (exit_all_servs (codes "omega.example") tree)
    ≡ some (1 ∷ [])
unfolding exit_all_servs eq_nocase
left_over = refl

announced : burst_in (codes "omega.example") servers (1 ∷ 2 ∷ 3 ∷ 4 ∷ []) ≡ some (2 ∷ [])
unfolding burst_in eq_nocase
announced = refl

exit_serv-leaf_example :
    exit_serv on_none 1 (codes "leaf.example") tree
    ≡ some (record tree {
      events = serverexit 4 ∷ [];
      servlist = 1 ∷ 2 ∷ 3 ∷ [];
      srv = update servers 4 none;
    })
unfolding find_serv eq_nocase exit_users find_delete
exit_serv-leaf_example =
    exit_serv-leaf on_none 0 (codes "leaf.example") tree refl refl refl refl
      (refl, (refl, (refl, (refl, tt))))
      (
        (entry (codes "omega.example") none, refl, tt),
        (
          (
            entry (codes "up.example") (some 1),
            refl,
            (entry (codes "omega.example") none, refl, refl),
          ),
          (
            (
              entry (codes "hub.example") (some 2),
              refl,
              (entry (codes "up.example") (some 1), refl, refl),
            ),
            (
              (
                entry (codes "leaf.example") (some 3),
                refl,
                (entry (codes "hub.example") (some 2), refl, refl),
              ),
              tt,
            ),
          ),
        ),
      )
      refl

-- The tree after the exit of the hub and its leaf.
abbrev hub_left : Links
hub_left = record tree {
  srv = update (update servers 4 none) 3 none;
  servlist = 1 ∷ 2 ∷ [];
  events = serverexit 4 ∷ serverexit 3 ∷ [];
}

exit_serv-dangling_example : exit_serv on_none 9 (codes "up.example") tree ≡ none
unfolding exit_serv eq_nocase
exit_serv-dangling_example =
    exit_serv-dangling on_none 8 (codes "up.example") tree hub_left (1 ∷ 2 ∷ []) 3 4 []
      {bl = entry (codes "hub.example") (some 2)} refl refl refl (refl, (refl, (refl, (refl, tt))))
      (
        (entry (codes "omega.example") none, refl, tt),
        (
          (
            entry (codes "up.example") (some 1),
            refl,
            (entry (codes "omega.example") none, refl, refl),
          ),
          tt,
        ),
      )
      refl refl refl refl refl refl
