-- ===== src/Network.antt =====
-- Who is in which channel: the parts of `struct USER` and `struct channel_` (include/user.h,
-- include/channel.h) that membership needs, and the operations of src/channel.c on them. Users and
-- channels live on a heap, so that a freed one can be seen; `none` as a result is a read through a
-- dangling pointer. The counters of memory use, the metadata and the log are left out.
pub mod Members
pub mod Exits
pub mod Counted
use omega_services.Prelude.{
  ℕ, zero, suc, ◌+◌, Bool, true, false, ◌&&◌, ◌||◌, not, Option, none, some, List, [], ◌∷◌, ◌++◌,
  Bytes, take, eq_nocase, ◌==◌, if◌then◌else◌, ℤ, pos, negsuc, suc_ℤ, pred_ℤ, is_positive,
}

abbrev pub Ptr : Type 0
Ptr = ℕ

pub record Flags : Type 0 where
  pub owner : Bool
  pub protect : Bool
  pub op : Bool
  pub halfop : Bool
  pub voice : Bool

pub record ChanUser : Type 0 where
  pub user : Ptr
  pub flags : Flags

pub record Channel : Type 0 where
  pub name : Bytes
  pub users : List ChanUser
  pub usercnt : ℤ

pub record User : Type 0 where
  pub nick : Bytes
  pub uid : Bytes
  pub myconnect : Bool
  pub channels : List Ptr

-- The events and the calls of the protocol module, in order.
pub data Output : Type 0 where
  chanjoin chanpart chankick ircd_join : Ptr → Ptr → Output
  userexit quit_line : Ptr → Output
  usernick : Ptr → Bytes → Output

pub record Net : Type 0 where
  pub user : Ptr → Option User
  pub chan : Ptr → Option Channel
  pub userlist : List Ptr
  pub channels : List Ptr
  pub output : List Output

abbrev pub update {ℓ} : {A : Type ℓ} → (Ptr → Option A) → Ptr → Option A → Ptr → Option A
update f p v q = if p == q then v else f q

infixl 5 ◌>>=◌
abbrev pub ◌>>=◌ {ℓ κ} : {A : Type ℓ} {B : Type κ} → Option A → (A → Option B) → Option B
none >>= f = none
some a >>= f = f a

-- `dlink_find_delete`: the first node with the value goes.
unfoldable pub find_delete : Ptr → List Ptr → List Ptr
find_delete p [] = []
find_delete p (q ∷ qs) = if q == p then qs else q ∷ find_delete p qs

abbrev pub emit : Output → Net → Net
emit o n = record n { output = n.output ++ o ∷ [] }

abbrev pub put_user : Ptr → User → Net → Net
put_user p u n = record n { user = update n.user p (some u) }

abbrev pub put_chan : Ptr → Channel → Net → Net
put_chan p c n = record n { chan = update n.chan p (some c) }

-- What the loop of `find_chanuser` answers behind a node that is not the one.
abbrev pub push_left :
    ChanUser → Option (ChanUser × List ChanUser) → Option (Option (ChanUser × List ChanUser))
push_left cu none = some none
push_left cu (some (found, left)) = some (some (found, cu ∷ left))

module _ (n : Net) where
  -- `find_channel`
  unfoldable pub find_channel : Bytes → List Ptr → Option (Option Ptr)
  find_channel name [] = some none
  find_channel name (c ∷ cs) =
      let rest = find_channel name cs in
      n.chan c >>= λ ch. if eq_nocase ch.name name then some (some c) else rest

  -- The loop of `in_channel` over the channels of a user.
  unfoldable pub in_channel : Bytes → List Ptr → Option Bool
  in_channel name [] = some false
  in_channel name (c ∷ cs) =
      let rest = in_channel name cs in
      n.chan c >>= λ ch. if eq_nocase ch.name name then some true else rest

  -- `find_chanuser`, and the list without the node that it finds.
  unfoldable pub take_chanuser : Bytes → List ChanUser → Option (Option (ChanUser × List ChanUser))
  take_chanuser nick [] = some none
  take_chanuser nick (cu ∷ cus) =
      let rest = take_chanuser nick cus in
      n.user cu.user >>= λ v.
      if eq_nocase v.nick nick then some (some (cu, cus)) else rest >>= push_left cu

-- `new_chan`: the channel of that name, or a new one at the address that `malloc` returns.
unfoldable pub new_chan : Ptr → Bytes → Net → Option (Ptr × Net)
unfolding find_channel
new_chan fresh name n = find_channel n name n.channels >>= λ r. elim r [
  | some c ↦ some (c, n)
  | none ↦ some (
    fresh,
    record (put_chan fresh (record { name = take 33 name; users = []; usercnt = pos 0 }) n) {
      channels = n.channels ++ fresh ∷ [];
    },
  )
]

-- What `AddToChannelU` does to a user who is not in the channel. The five flags are local variables
-- that are never set, so what they hold (`junk`) goes into the new `ChanUser`.
unfoldable pub join : Flags → Bool → Ptr → Ptr → User → Channel → Net → Net
join junk bursting u c us ch n =
    let n1 =
      put_chan c
        (record ch {
          users = ch.users ++ record { user = u; flags = junk } ∷ [];
          usercnt = suc_ℤ ch.usercnt;
        })
        n in
    let n2 = put_user u (record us { channels = us.channels ++ c ∷ [] }) n1 in
    let n3 = if us.myconnect && not bursting then emit (ircd_join u c) n2 else n2 in
    emit (chanjoin u c) n3

-- `AddToChannelU`
unfoldable pub add_to_channel_u : Flags → Bool → Ptr → Ptr → Net → Option Net
unfolding join in_channel
add_to_channel_u junk bursting u c n = n.user u >>= λ us. n.chan c >>= λ ch.
    in_channel n ch.name us.channels >>= λ already.
    some (if already then n else join junk bursting u c us ch n)

-- `if (c->usercnt <= 0)`: the channel leaves the list and is freed.
unfoldable pub drop_if_empty : Ptr → ℤ → Net → Net
unfolding find_delete
drop_if_empty c usercnt n =
    if is_positive usercnt
    then n
    else record n { channels = find_delete c n.channels; chan = update n.chan c none }

-- What `DelFromChannel` does once it has the `ChanUser`.
unfoldable pub part : Ptr → Ptr → User → Channel → List ChanUser → Net → Net
unfolding drop_if_empty find_delete
part u c us ch left n =
    let n1 = emit (chanpart u c) n in
    let n2 = put_chan c (record ch { users = left; usercnt = pred_ℤ ch.usercnt }) n1 in
    let n3 = put_user u (record us { channels = find_delete c us.channels }) n2 in
    drop_if_empty c (pred_ℤ ch.usercnt) n3

unfoldable pub del_from_channel : Ptr → Ptr → Net → Option Net
unfolding part take_chanuser
del_from_channel u c n = n.user u >>= λ us. n.chan c >>= λ ch.
    take_chanuser n us.nick ch.users >>= λ r. elim r [
      | none ↦ some n
      | some (cu, left) ↦ some (part u c us ch left n)
    ]

-- What `KickFromChannel` does once it has the `ChanUser`: `usercnt` is tested, but it was not
-- counted down.
unfoldable pub kick : Ptr → Ptr → User → Channel → List ChanUser → Net → Net
unfolding find_delete
kick u c us ch left n =
    let n1 = put_chan c (record ch { users = left }) n in
    let n2 = put_user u (record us { channels = find_delete c us.channels }) n1 in
    let n3 = emit (chankick u c) n2 in
    elim ch.usercnt [
      | pos k ↦
          (if k == 0
            then record n3 { channels = find_delete c n3.channels; chan = update n3.chan c none }
            else n3)
      | negsuc k ↦ n3
    ]

unfoldable pub kick_from_channel : Ptr → Ptr → Net → Option Net
unfolding kick take_chanuser
kick_from_channel u c n = n.user u >>= λ us. n.chan c >>= λ ch.
    take_chanuser n us.nick ch.users >>= λ r. elim r [
      | none ↦ some n
      | some (cu, left) ↦ some (kick u c us ch left n)
    ]

-- The loop of `exit_one_user` over the channels of the user.
unfoldable pub part_all : Ptr → List Ptr → Net → Option Net
unfolding del_from_channel
part_all u [] n = some n
part_all u (c ∷ cs) n = del_from_channel u c n >>= part_all u cs

-- The rest of `exit_one_user`: the QUIT line for a client of ours, and the user is freed.
unfoldable pub farewell : Ptr → User → Net → Net
unfolding find_delete
farewell u us n =
    let n1 = if us.myconnect then emit (quit_line u) n else n in
    let n2 = emit (userexit u) n1 in
    record n2 { userlist = find_delete u n2.userlist; user = update n2.user u none }

-- `exit_one_user`; the walk over the channels deletes only the node that it stands on.
unfoldable pub exit_one_user : Ptr → Net → Option Net
unfolding part_all farewell
exit_one_user u n = n.user u >>= λ us. part_all u us.channels n >>= λ n1. some (farewell u us n1)
