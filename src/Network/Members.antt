-- ===== src/Network/Members.antt =====
-- `usercnt` against the list of users, for each operation on the members of a channel.
use omega_services.Prelude.{
  suc, ◌≡◌, refl, Bool, Option, none, some, List, [], ◌∷◌, Bytes, length, length-append, arith,
  eq_nocase, if◌then◌else◌, pos, Bool-cases, inl, inr,
}
use omega_services.Network.{
  Ptr, Flags, ChanUser, Channel, User, Net, ◌>>=◌, push_left, take_chanuser, join, drop_if_empty,
  part, del_from_channel,
}

-- `usercnt` is the number of entries in the list of users.
abbrev pub IsCounted : Net → Type 0
IsCounted n = (c : Ptr) (ch : Channel) → n.chan c ≡ some ch → ch.usercnt ≡ pos (length ch.users)

length-push_left :
    (cu : ChanUser) (cus : List ChanUser) (rest : Option (Option (ChanUser × List ChanUser)))
    {found : ChanUser} {left : List ChanUser}
    → ((f : ChanUser) (l : List ChanUser) → rest ≡ some (some (f, l)) → length cus ≡ suc (length l))
    → (rest >>= push_left cu) ≡ some (some (found, left))
    → suc (length cus) ≡ suc (length left)
length-push_left cu cus none ih h = cc
length-push_left cu cus (some none) ih h = cc
length-push_left cu cus (some (some (f, l))) ih h = ground (arith, ih f l refl)

length-take_step :
    (nick : Bytes) (cu : ChanUser) (cus : List ChanUser) (o : Option User)
    (rest : Option (Option (ChanUser × List ChanUser))) {found : ChanUser} {left : List ChanUser}
    → ((f : ChanUser) (l : List ChanUser) → rest ≡ some (some (f, l)) → length cus ≡ suc (length l))
    → (o >>= λ v. if eq_nocase v.nick nick then some (some (cu, cus)) else rest >>= push_left cu)
      ≡ some (some (found, left))
    → suc (length cus) ≡ suc (length left)
length-take_step nick cu cus none rest ih h = cc
length-take_step nick cu cus (some v) rest ih h = elim (Bool-cases (eq_nocase v.nick nick)) [
  | inl hit ↦ first (rw hit at h)
  | inr miss ↦ length-push_left cu cus rest ih (rw miss at h)
]
  where
    first :
        {found : ChanUser} {left : List ChanUser}
        → ◌≡◌ {A = Option (Option (ChanUser × List ChanUser))}
            (some (some (cu, cus)))
            (some (some (found, left)))
        → suc (length cus) ≡ suc (length left)
    first e = ground arith

pub length-take_chanuser :
    (n : Net) (nick : Bytes) (cus : List ChanUser) {found : ChanUser} {left : List ChanUser}
    → take_chanuser n nick cus ≡ some (some (found, left))
    → length cus ≡ suc (length left)
unfolding take_chanuser
length-take_chanuser n nick [] h = cc
length-take_chanuser n nick (cu ∷ cus) h =
    length-take_step nick cu cus (n.user cu.user) (take_chanuser n nick cus)
      (λ f l. length-take_chanuser n nick cus) h

pub join-IsCounted :
    (junk : Flags) (bursting : Bool) (u c : Ptr) (us : User) (ch : Channel) (n : Net)
    → n.chan c ≡ some ch
    → IsCounted n
    → IsCounted (join junk bursting u c us ch n)
unfolding join
join-IsCounted junk bursting u c us ch n e h d dh g =
    ground (arith, h c ch, h d dh, length-append ch.users (record { user = u; flags = junk } ∷ []))

part-IsCounted :
    (u c : Ptr) (us : User) (ch : Channel) (left : List ChanUser) (n : Net)
    → n.chan c ≡ some ch
    → length ch.users ≡ suc (length left)
    → IsCounted n
    → IsCounted (part u c us ch left n)
unfolding part drop_if_empty
part-IsCounted u c us ch left n e l h d dh g = ground (arith, h c ch, h d dh)

-- Inversion of a chain of reads.
pub >>=-eq-some {ℓ κ} :
    {A : Type ℓ} {B : Type κ} (m : Option A) (f : A → Option B) {b : B}
    → (m >>= f) ≡ some b
    → (a : A) × (m ≡ some a) × (f a ≡ some b)
>>=-eq-some none f h = cc
>>=-eq-some (some a) f h = (a, refl, h)

-- A part that was carried out: the user, the channel and the list that is left, or nothing was done.
pub data Parted (u c : Ptr) (n n' : Net) : Type 0 where
  absent : n' ≡ n → Parted u c n n'
  parted :
      (us : User) (ch : Channel) (cu : ChanUser) (left : List ChanUser)
      → n.user u ≡ some us
      → n.chan c ≡ some ch
      → take_chanuser n us.nick ch.users ≡ some (some (cu, left))
      → n' ≡ part u c us ch left n
      → Parted u c n n'

pub del_from_channel-Parted :
    (u c : Ptr) (n n' : Net) → del_from_channel u c n ≡ some n' → Parted u c n n'
unfolding del_from_channel
del_from_channel-Parted u c n n' h =
    let (us, hu, h1) = >>=-eq-some (n.user u) _ h in
    let (ch, hc, h2) = >>=-eq-some (n.chan c) _ h1 in
    let (r, ht, h3) = >>=-eq-some (take_chanuser n us.nick ch.users) _ h2 in
    found us ch hu hc r ht h3
  where
    found :
        (us : User) (ch : Channel)
        → n.user u ≡ some us
        → n.chan c ≡ some ch
        → (r : Option (ChanUser × List ChanUser)) → take_chanuser n us.nick ch.users ≡ some r
        → elim r [ none ↦ some n | some (cu, left) ↦ some (part u c us ch left n) ] ≡ some n'
        → Parted u c n n'
    found us ch hu hc none ht e = absent (ground arith)
    found us ch hu hc (some (cu, left)) ht e = parted us ch cu left hu hc ht (ground arith)

-- `DelFromChannel` keeps the counts right.
pub del_from_channel-IsCounted :
    (u c : Ptr) (n n' : Net) → IsCounted n → del_from_channel u c n ≡ some n' → IsCounted n'
del_from_channel-IsCounted u c n n' h e = keep (del_from_channel-Parted u c n n' e)
  where
    keep : Parted u c n n' → IsCounted n'
    keep (absent p) = rw p h
    keep (parted us ch cu left hu hc ht p) =
        rw p (part-IsCounted u c us ch left n hc (length-take_chanuser n us.nick ch.users ht) h)
