-- ===== src/Network/Counted.antt =====
-- `usercnt` through new channels, joins and exits.
use omega_services.Prelude.{
  ◌≡◌, Bool, true, false, Option, none, some, List, [], ◌∷◌, ◌++◌, Bytes, take, arith,
  if◌then◌else◌, pos,
}
use omega_services.Network.{
  Ptr, Flags, Channel, User, Net, put_chan, find_channel, new_chan, in_channel, join,
  add_to_channel_u, del_from_channel, part_all, farewell, exit_one_user,
}
use omega_services.Network.Members.{
  IsCounted, join-IsCounted, del_from_channel-IsCounted, >>=-eq-some,
}

pub add_to_channel_u-IsCounted :
    (junk : Flags) (bursting : Bool) (u c : Ptr) (n n' : Net)
    → IsCounted n
    → add_to_channel_u junk bursting u c n ≡ some n'
    → IsCounted n'
unfolding add_to_channel_u
add_to_channel_u-IsCounted junk bursting u c n n' counted h =
    let (us, hu, h1) = >>=-eq-some (n.user u) _ h in
    let (ch, hc, h2) = >>=-eq-some (n.chan c) _ h1 in
    let (already, ha, h3) = >>=-eq-some (in_channel n ch.name us.channels) _ h2 in
    result us ch hc already h3
  where
    result :
        (us : User) (ch : Channel)
        → n.chan c ≡ some ch
        → (already : Bool) → some (if already then n else join junk bursting u c us ch n) ≡ some n'
        → IsCounted n'
    result us ch hc true e = let same : n ≡ n' = ground arith in rw (← same) counted
    result us ch hc false e =
        let same : join junk bursting u c us ch n ≡ n' = ground arith in
        rw (← same) (join-IsCounted junk bursting u c us ch n hc counted)

pub new_chan-IsCounted :
    (fresh : Ptr) (name : Bytes) (n n' : Net) (c : Ptr)
    → IsCounted n
    → new_chan fresh name n ≡ some (c, n')
    → IsCounted n'
unfolding new_chan
new_chan-IsCounted fresh name n n' c counted h =
    let (r, hr, h1) = >>=-eq-some (find_channel n name n.channels) _ h in result r h1
  where
    made : Net
    made = record (put_chan fresh (record { name = take 33 name; users = []; usercnt = pos 0 }) n) {
      channels = n.channels ++ fresh ∷ [];
    }

    result :
        (r : Option Ptr)
        → ◌≡◌ {A = Option (Ptr × Net)}
            (elim r [ some d ↦ some (d, n) | none ↦ some (fresh, made) ])
            (some (c, n'))
        → IsCounted n'
    result (some d) e = let same : n ≡ n' = ground arith in rw (← same) counted
    result none e =
        let same : made ≡ n' = ground arith in rw (← same) (λ d dh g. ground (arith, counted d dh))

pub part_all-IsCounted :
    (u : Ptr) (cs : List Ptr) (n n' : Net) → IsCounted n → part_all u cs n ≡ some n' → IsCounted n'
unfolding part_all
part_all-IsCounted u [] n n' counted h = let same : n ≡ n' = ground arith in rw (← same) counted
part_all-IsCounted u (c ∷ cs) n n' counted h =
    let (n1, h1, h2) = >>=-eq-some (del_from_channel u c n) _ h in
    part_all-IsCounted u cs n1 n' (del_from_channel-IsCounted u c n n1 counted h1) h2

pub farewell-IsCounted : (u : Ptr) (us : User) (n : Net) → IsCounted n → IsCounted (farewell u us n)
unfolding farewell
farewell-IsCounted u us n counted c ch e = ground (arith, counted c ch)

pub exit_one_user-IsCounted :
    (u : Ptr) (n n' : Net) → IsCounted n → exit_one_user u n ≡ some n' → IsCounted n'
unfolding exit_one_user
exit_one_user-IsCounted u n n' counted h =
    let (us, hu, h1) = >>=-eq-some (n.user u) _ h in
    let (n1, hp, h2) = >>=-eq-some (part_all u us.channels n) _ h1 in
    let same : farewell u us n1 ≡ n' = cc h2 in
    rw (← same) (farewell-IsCounted u us n1 (part_all-IsCounted u us.channels n n1 counted hp))
