-- ===== src/Users/Sjoin.antt =====
-- The names of a burst, of src/channel.c: `AddToChannel`, which reads one with its prefixes, and
-- `create_sjoin_nicklist`, which writes those of a channel.
use omega_services.Prelude.{
  ℕ, ◌≡◌, Bool, true, false, ◌||◌, Option, none, some, List, [], ◌∷◌, ◌++◌, Bytes, codes, get_elem?,
  has_char, ◌==◌, if◌then◌else◌, ℤ, pos, negsuc,
}
use omega_services.Access.{fit}
use omega_services.Network.{Ptr, Flags, ChanUser, Net, ◌>>=◌, add_to_channel_u}
use omega_services.Network.Members.{IsCounted, >>=-eq-some}
use omega_services.Network.Counted.{add_to_channel_u-IsCounted}
use omega_services.Modes.Channel.{CMode, findcmode_bysymbol}
use omega_services.Users.{find_user}

-- `case 2`
abbrev is_op : ℤ → Bool
is_op (pos i) = i == 2
is_op (negsuc i) = false

abbrev is_prefix : ℕ → Bool
is_prefix c = has_char (codes "~&@%+*") c

-- The loop of `AddToChannel` over the prefixes, and a comma behind each.
unfoldable pub read_prefixes : List CMode → Bool → Bytes → Bool × Bytes
unfolding has_char findcmode_bysymbol
read_prefixes table op [] = (op, [])
read_prefixes table op (c ∷ []) =
    if is_prefix c then (op || is_op (findcmode_bysymbol table (c ∷ [])), []) else (op, c ∷ [])
read_prefixes table op (c ∷ d ∷ user) =
    let op' = op || is_op (findcmode_bysymbol table (c ∷ [])) in
    let behind_comma = read_prefixes table op' user in
    let behind = read_prefixes table op' (d ∷ user) in
    if is_prefix c then if d == b',' then behind_comma else behind else (op, c ∷ d ∷ user)

-- `AddToChannel` to the channel `c`; `junk` is what the five local variables hold. Once it has the user
-- it does what `AddToChannelU` does, but for the JOIN line.
unfoldable pub add_to_channel : List CMode → Flags → Bytes → Ptr → Net → Option Net
unfolding read_prefixes
add_to_channel table junk user c n =
    let (op, name) = read_prefixes table junk.op user in
    find_user n name >>= λ r. elim r [
      | none ↦ some n
      | some u ↦ add_to_channel_u (record junk { op = op }) true u c n
    ]

abbrev symbol_of : Option CMode → Option Bytes
symbol_of none = none
symbol_of (some m) = m.symbol

abbrev spaced_from : Bytes → Bytes
spaced_from [] = []
spaced_from (x ∷ s) = b' ' ∷ []

-- The loop of `create_sjoin_nicklist`, behind the names in `nicklist`. A text that is too long for its
-- array is cut at the end.
unfoldable pub nicklist_from : List CMode → Net → Bytes → List ChanUser → Option Bytes
nicklist_from table n nicklist [] = some nicklist
nicklist_from table n nicklist (cu ∷ cus) = n.user cu.user >>= λ us.
    (if cu.flags.op then symbol_of (get_elem? table 2) else some []) >>= λ symbol.
    nicklist_from table n (nicklist ++ (spaced_from nicklist ++ (symbol ++ us.nick))) cus

-- `create_sjoin_nicklist`
unfoldable pub create_sjoin_nicklist : List CMode → Net → Ptr → Option Bytes
unfolding nicklist_from
create_sjoin_nicklist table n c =
    n.chan c >>= λ ch. nicklist_from table n [] ch.users >>= λ text. some (fit 1024 text)

pub add_to_channel-IsCounted :
    (table : List CMode) (junk : Flags) (user : Bytes) (c : Ptr) (n n' : Net)
    → IsCounted n
    → add_to_channel table junk user c n ≡ some n'
    → IsCounted n'
unfolding add_to_channel
add_to_channel-IsCounted table junk user c n n' counted h =
    let (r, hr, h1) = >>=-eq-some (find_user n (read_prefixes table junk.op user).1) _ h in
    found r h1
  where
    found :
        (r : Option Ptr)
        → ◌≡◌ {A = Option Net}
            (elim r [
              | none ↦ some n
              | some u ↦
                  add_to_channel_u
                    (record junk { op = (read_prefixes table junk.op user).0 })
                    true
                    u
                    c
                    n
            ])
            (some n')
        → IsCounted n'
    found none e = let same : n ≡ n' = cc e in rw (← same) counted
    found (some u) e = add_to_channel_u-IsCounted _ true u c n n' counted e
