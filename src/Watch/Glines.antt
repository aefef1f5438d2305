-- ===== src/Watch/Glines.antt =====
-- The action of a G-line in modules/client/g_watch.c.
use omega_services.Prelude.{◌≡◌, refl, ap, ◌∙◌, ℤ, false, Option, none, some, Bytes, ==_iff, pos}
use omega_services.Network.{Ptr, User, Net, ◌>>=◌, part_all, farewell}
use omega_services.Services.{Services, exit_named, name_at, emit_line, kill_line}
use omega_services.Services.Keeps.Rules.{Gives, Gives-some, Gives-bind}
use omega_services.Users.{find_user, exit_user}
use omega_services.Watch.Actions.{Watch, is_exempt, act, take_action, gline_action}

exit_user-gone :
    (name : Bytes) (u : Ptr) (n : Net)
    → find_user n name ≡ some (some u)
    → Gives (λ (m : Net). m.user u ≡ none) (exit_user name n)
unfolding exit_user farewell
exit_user-gone name u n found = rw found (
    Gives-bind (n.user u) _ λ us _.
      Gives-bind (part_all u us.channels n) _ λ m _. Gives-some _ (rw ((==_iff u u).1 refl) refl))

exit_named-gone :
    (name : Bytes) (u : Ptr) (s : Services)
    → find_user s.links.net name ≡ some (some u)
    → Gives (λ (t : Services). t.links.net.user u ≡ none) (exit_named name s)
unfolding exit_named
exit_named-gone name u s found = rw found (
    Gives-bind (name_at (s.profile u).serv s.links) _ λ server _.
      Gives-bind (exit_user name s.links.net) _
        λ m e. Gives-some _ ((exit_user-gone name u s.links.net found).at m e))

none-bind :
    {A : Type 0} (o : Option A) (f : A → Option Services)
    → Gives (λ a. f a ≡ none) o
    → (o >>= f) ≡ none
none-bind none f k = refl
none-bind (some a) f k = k.at a refl

act-gline :
    (w : Watch) (u : Ptr) (us : User) (s : Services)
    → find_user s.links.net us.nick ≡ some (some u)
    → act (pos gline_action) w u us s ≡ none
unfolding act
act-gline w u us s found =
    let s1 = emit_line (kill_line (some u)) s in
    none-bind (exit_named us.nick s1) _
      (record { at = λ t e. rw ((exit_named-gone us.nick u s1 found).at t e) refl })

-- A rule whose action is a G-line reads the host of the user from freed memory: `take_action` cannot
-- return for a user who is not exempt and whom the search by the nick finds.
pub take_action-gline :
    (w : Watch) (u : Ptr) (us : User) (s : Services)
    → s.links.net.user u ≡ some us
    → find_user s.links.net us.nick ≡ some (some u)
    → is_exempt w us s u ≡ false
    → w.action ≡ pos gline_action
    → take_action w u s ≡ none
unfolding take_action
take_action-gline w u us s here found hit gline =
    rw (here, hit) (ap (λ (k : ℤ). act k w u us s) gline ∙ act-gline w u us s found)
