-- ===== src/Network/Exits.antt =====
-- What leaving a channel does to the channel: by `DelFromChannel` and by `KickFromChannel`.
use omega_services.Prelude.{
  suc, ◌≡◌, ap, ◌∙◌, Option, none, some, List, [], ◌∷◌, length, arith, pos,
}
use omega_services.Network.{
  Ptr, ChanUser, Channel, User, Net, take_chanuser, drop_if_empty, part, del_from_channel, kick,
  kick_from_channel, find_delete,
}
use omega_services.Network.Members.{IsCounted, length-take_chanuser}

-- What a channel is after one of its members has left: nothing, if nobody is left in it.
abbrev pub left_chan : Channel → List ChanUser → Option Channel
left_chan ch [] = none
left_chan ch (x ∷ l) = some (record ch { users = x ∷ l; usercnt = pos (length (x ∷ l)) })

abbrev pub left_list : Ptr → List ChanUser → List Ptr → List Ptr
left_list c [] cs = find_delete c cs
left_list c (x ∷ l) cs = cs

part-left :
    (u c : Ptr) (us : User) (ch : Channel) (left : List ChanUser) (n : Net)
    → ch.usercnt ≡ pos (suc (length left))
    → ((part u c us ch left n).chan c ≡ left_chan ch left)
      × ((part u c us ch left n).channels ≡ left_list c left n.channels)
unfolding part drop_if_empty
part-left u c us ch [] n k = rw k (ground arith)
part-left u c us ch (x ∷ l) n k = rw k (ground arith)

kick-miscounts :
    (u c : Ptr) (us : User) (ch : Channel) (left : List ChanUser) (n : Net)
    → ch.usercnt ≡ pos (suc (length left))
    → ((kick u c us ch left n).chan c ≡ some (record ch { users = left }))
      × ((kick u c us ch left n).channels ≡ n.channels)
      × ¬ IsCounted (kick u c us ch left n)
unfolding kick
kick-miscounts u c us ch left n k = (
  chan_of,
  ground arith,
  λ counted. ground (arith, counted c (record ch { users = left }) chan_of),
)
  where
    chan_of : (kick u c us ch left n).chan c ≡ some (record ch { users = left })
    chan_of = ground arith

module _ (u c : Ptr) (us : User) (ch : Channel) (cu : ChanUser) (left : List ChanUser) (n : Net)
    (user_there : n.user u ≡ some us) (chan_there : n.chan c ≡ some ch)
    (member : take_chanuser n us.nick ch.users ≡ some (some (cu, left)))
    (counted : IsCounted n) where
  one_more : ch.usercnt ≡ pos (suc (length left))
  one_more = counted c ch chan_there ∙ ap pos (length-take_chanuser n us.nick ch.users member)

  del_from_channel-part : del_from_channel u c n ≡ some (part u c us ch left n)
  unfolding del_from_channel
  del_from_channel-part = rw (user_there, chan_there, member)

  kick_from_channel-kick : kick_from_channel u c n ≡ some (kick u c us ch left n)
  unfolding kick_from_channel
  kick_from_channel-kick = rw (user_there, chan_there, member)

  -- When a member leaves a channel whose count is right, `DelFromChannel` returns; it has freed the
  -- channel and taken it off the list if nobody is left in it, else the channel stays, with the
  -- others as its users and their number as its count.
  pub del_from_channel-member :
      (n' : Net) × (del_from_channel u c n ≡ some n')
      × (n'.chan c ≡ left_chan ch left)
      × (n'.channels ≡ left_list c left n.channels)
  del_from_channel-member =
      let (freed, listed) = part-left u c us ch left n one_more in
      (part u c us ch left n, del_from_channel-part, freed, listed)

  -- When a member is kicked from a channel whose count is right, `KickFromChannel` returns; it has
  -- taken the member out of the list of users but left the count as it was: the channel stays in
  -- the list of channels, even if nobody is left in it, and its count is wrong from then on.
  pub kick_from_channel-miscounts :
      (n' : Net) × (kick_from_channel u c n ≡ some n')
      × (n'.chan c ≡ some (record ch { users = left }))
      × (n'.channels ≡ n.channels)
      × ¬ IsCounted n'
  kick_from_channel-miscounts =
      let (kept, listed, wrong) = kick-miscounts u c us ch left n one_more in
      (kick u c us ch left n, kick_from_channel-kick, kept, listed, wrong)
