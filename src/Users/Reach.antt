-- ===== src/Users/Reach.antt =====
-- Everything that the services do to users and the members of channels, kicks apart, as a step
-- relation.
use omega_services.Prelude.{
  ◌≡◌, sym, ap, ◌∙◌, Bool, true, false, Option, none, some, List, [], ◌∷◌, ◌++◌, Bytes, take, arith,
  if◌then◌else◌,
}
use omega_services.Network.{
  Ptr, Flags, Channel, User, Net, put_user, usernick, emit, ◌>>=◌, new_chan, add_to_channel_u,
  del_from_channel, part_all, farewell, exit_one_user,
}
use omega_services.Network.Members.{IsCounted, del_from_channel-IsCounted, >>=-eq-some}
use omega_services.Network.Counted.{
  new_chan-IsCounted, add_to_channel_u-IsCounted, part_all-IsCounted, farewell-IsCounted,
  exit_one_user-IsCounted,
}
use omega_services.Users.{
  find_user, new_user, new_nick, exit_user, exit_where, exit_local_users, exit_remote_users,
}
use omega_services.Users.Sjoin.{add_to_channel, add_to_channel-IsCounted}
use omega_services.Modes.Channel.{CMode}

-- A change that leaves the channels on the heap as they are.
IsCounted-same : (n n' : Net) → n'.chan ≡ n.chan → IsCounted n → IsCounted n'
IsCounted-same n n' same counted c ch e =
    counted c ch (ap (λ (f : Ptr → Option Channel). f c) (sym same) ∙ e)

pub new_user-IsCounted :
    (fresh : Ptr) (nick : Bytes) (n n' : Net) (r : Option Ptr)
    → IsCounted n
    → new_user fresh nick n ≡ some (r, n')
    → IsCounted n'
unfolding new_user
new_user-IsCounted fresh nick n n' r counted h =
    let (found, hf, h1) = >>=-eq-some (find_user n nick) _ h in
    IsCounted-same n n' (split found h1) counted
  where
    split :
        (found : Option Ptr)
        → ◌≡◌ {A = Option (Option Ptr × Net)}
            (elim found [
              | some p ↦ some (none, n)
              | none ↦ some (
                some fresh,
                record (put_user fresh
                    (record { nick = take 49 nick; uid = []; myconnect = false; channels = [] })
                    n) { userlist = n.userlist ++ fresh ∷ [] },
              )
            ])
            (some (r, n'))
        → n'.chan ≡ n.chan
    split none e = ground arith
    split (some p) e = ground arith

pub new_nick-IsCounted :
    (u : Ptr) (nick : Bytes) (n n' : Net) → IsCounted n → new_nick u nick n ≡ some n' → IsCounted n'
unfolding new_nick
new_nick-IsCounted u nick n n' counted h =
    let (found, hf, h1) = >>=-eq-some (find_user n nick) _ h in
    IsCounted-same n n' (split found (n.user u) h1) counted
  where
    split :
        (found : Option Ptr) (o : Option User)
        → ◌≡◌ {A = Option Net}
            (elim found [
              | some p ↦ some n
              | none ↦ o >>= λ us. some (
                  emit
                    (usernick u (take 31 us.nick))
                    (put_user u (record us { nick = take 49 nick }) n))
            ])
            (some n')
        → n'.chan ≡ n.chan
    split none none e = cc
    split none (some us) e = ground arith
    split (some p) o e = ground arith

pub exit_user-IsCounted :
    (name : Bytes) (n n' : Net) → IsCounted n → exit_user name n ≡ some n' → IsCounted n'
unfolding exit_user
exit_user-IsCounted name n n' counted h =
    let (found, hf, h1) = >>=-eq-some (find_user n name) _ h in split found h1
  where
    split :
        (found : Option Ptr)
        → ◌≡◌ {A = Option Net}
            (elim found [
              | none ↦ some n
              | some u ↦
                  n.user u >>= λ us. part_all u us.channels n >>= λ n1. some (farewell u us n1)
            ])
            (some n')
        → IsCounted n'
    split none e = let same : n ≡ n' = cc e in rw (← same) counted
    split (some u) e =
        let (us, hu, h2) = >>=-eq-some (n.user u) _ e in
        let (n1, hp, h3) = >>=-eq-some (part_all u us.channels n) _ h2 in
        let same : farewell u us n1 ≡ n' = cc h3 in
        rw (← same) (farewell-IsCounted u us n1 (part_all-IsCounted u us.channels n n1 counted hp))

exit_where-IsCounted :
    (test : User → Bool) (ps : List Ptr) (n n' : Net)
    → IsCounted n
    → exit_where test ps n ≡ some n'
    → IsCounted n'
unfolding exit_where
exit_where-IsCounted test [] n n' counted h = let same : n ≡ n' = cc h in rw (← same) counted
exit_where-IsCounted test (p ∷ ps) n n' counted h =
    let (us, hu, h1) = >>=-eq-some (n.user p) _ h in
    let (n1, hx, h2) = >>=-eq-some (if test us then exit_one_user p n else some n) _ h1 in
    exit_where-IsCounted test ps n1 n' (one (test us) n1 hx) h2
  where
    one : (b : Bool) (n1 : Net) → (if b then exit_one_user p n else some n) ≡ some n1 → IsCounted n1
    one true n1 e = exit_one_user-IsCounted p n n1 counted e
    one false n1 e = let same : n ≡ n1 = cc e in rw (← same) counted

-- A change of the network by one of the operations.
pub data Step (n n' : Net) : Type 0 where
  created :
      (fresh : Ptr) (name : Bytes) (c : Ptr) → new_chan fresh name n ≡ some (c, n') → Step n n'
  joined :
      (junk : Flags) (bursting : Bool) (u c : Ptr)
      → add_to_channel_u junk bursting u c n ≡ some n'
      → Step n n'
  sjoined :
      (table : List CMode) (junk : Flags) (user : Bytes) (c : Ptr)
      → add_to_channel table junk user c n ≡ some n'
      → Step n n'
  left : (u c : Ptr) → del_from_channel u c n ≡ some n' → Step n n'
  exited : (u : Ptr) → exit_one_user u n ≡ some n' → Step n n'
  quit : (name : Bytes) → exit_user name n ≡ some n' → Step n n'
  connected :
      (fresh : Ptr) (nick : Bytes) (r : Option Ptr)
      → new_user fresh nick n ≡ some (r, n')
      → Step n n'
  renamed : (u : Ptr) (nick : Bytes) → new_nick u nick n ≡ some n' → Step n n'
  locals_exited : exit_local_users n ≡ some n' → Step n n'
  remotes_exited : exit_remote_users n ≡ some n' → Step n n'

pub data Reach (n : Net) : Net → Type 0 where
  here : Reach n n
  next : {m m' : Net} → Reach n m → Step m m' → Reach n m'

-- As long as nobody is kicked, `usercnt` is the number of users of each channel: whatever channels
-- are created, and whoever connects, changes nick, joins, leaves or exits, in any order.
pub Reach-IsCounted : {n m : Net} → IsCounted n → Reach n m → IsCounted m
unfolding exit_local_users exit_remote_users
Reach-IsCounted counted here = counted
Reach-IsCounted counted (next r st) = keep (Reach-IsCounted counted r) st
  where
    keep : {m m' : Net} → IsCounted m → Step m m' → IsCounted m'
    keep {m} {m'} k (created fresh name c e) = new_chan-IsCounted fresh name m m' c k e
    keep {m} {m'} k (joined junk bursting u c e) =
        add_to_channel_u-IsCounted junk bursting u c m m' k e
    keep {m} {m'} k (sjoined table junk user c e) =
        add_to_channel-IsCounted table junk user c m m' k e
    keep {m} {m'} k (left u c e) = del_from_channel-IsCounted u c m m' k e
    keep {m} {m'} k (exited u e) = exit_one_user-IsCounted u m m' k e
    keep {m} {m'} k (quit name e) = exit_user-IsCounted name m m' k e
    keep {m} {m'} k (connected fresh nick r e) = new_user-IsCounted fresh nick m m' r k e
    keep {m} {m'} k (renamed u nick e) = new_nick-IsCounted u nick m m' k e
    keep {m} {m'} k (locals_exited e) =
        exit_where-IsCounted (λ us. us.myconnect) m.userlist m m' k e
    keep {m} {m'} k (remotes_exited e) =
        exit_where-IsCounted (λ us. if us.myconnect then false else true) m.userlist m m' k e
