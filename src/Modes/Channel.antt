-- ===== src/Modes/Channel.antt =====
-- `read_chanmode_string`, `create_chanmode_string` and what they use. A letter's parameter is taken from
-- a list, which ends where the source has a NULL. `none` is a read through NULL, or a write behind
-- `limit[10]`.
pub mod Decimal
pub mod Reads
pub mod Restored
use Decimal.{print_decimal, atol}
use omega_services.Prelude.{
  ℕ, zero, suc, ◌+◌, ◌^◌, Bool, true, false, ◌&&◌, ◌||◌, not, Option, none, some, List, [], ◌∷◌,
  ◌++◌, Bytes, codes, take, get_elem?, ltb, ◌==◌, eq_bytes, if◌then◌else◌, ℤ, pos, negsuc,
  is_positive,
}
use omega_services.Access.{fit}
use omega_services.Network.{◌>>=◌}

-- `struct CMode`
pub record CMode : Type 0 where
  pub character : Option Bytes
  pub setparam : Bool
  pub unsetparam : Bool
  pub symbol : Option Bytes

abbrev pub cmode : Bytes → Bool → Bool → Option Bytes → CMode
cmode character setparam unsetparam symbol = record {
  character = some character;
  setparam = setparam;
  unsetparam = unsetparam;
  symbol = symbol;
}

-- `ircd_cmodes` before a protocol module changes it; what follows has no character and no symbol.
unfoldable pub ircd_cmodes : List CMode
ircd_cmodes =
    cmode (codes "q") true true (some (codes "~"))
    ∷ cmode (codes "a") true true (some (codes "&"))
    ∷ cmode (codes "o") true true (some (codes "@"))
    ∷ cmode (codes "h") true true (some (codes "%"))
    ∷ cmode (codes "v") true true (some (codes "+"))
    ∷ cmode (codes "n") false false none
    ∷ cmode (codes "t") false false none
    ∷ cmode (codes "r") false false none
    ∷ cmode (codes "p") false false none
    ∷ cmode (codes "k") true false none
    ∷ cmode (codes "l") true false none
    ∷ cmode (codes "f") true false none
    ∷ []

-- The loop of `findcmode_bysymbol` from index `i`.
unfoldable pub find_symbol : ℕ → List CMode → Bytes → ℤ
find_symbol i [] symbol = negsuc 0
find_symbol i (m ∷ ms) symbol = elim m.symbol [
  | none ↦ find_symbol (suc i) ms symbol
  | some s ↦ let rest = find_symbol (suc i) ms symbol in if eq_bytes s symbol then pos i else rest
]

-- `findcmode_bysymbol` of a symbol that is there.
unfoldable pub findcmode_bysymbol : List CMode → Bytes → ℤ
unfolding find_symbol
findcmode_bysymbol table symbol = find_symbol 0 table symbol

-- The fields of `struct channel_` that hold modes.
pub record ChanModes : Type 0 where
  pub registered : Bool
  pub onlyoptopic : Bool
  pub external : Bool
  pub haskey : Bool
  pub key : Bytes
  pub limit : ℤ
  pub modef : Bytes
  pub unknownmodes : Bytes

abbrev pub set_key : Bool → Option Bytes → ChanModes → Option ChanModes
set_key true none c = none
set_key true (some p) c = some (record c { haskey = true; key = fit 15 p })
set_key false p c = some (record c { haskey = false; key = [] })

abbrev pub set_limit : Bool → Option Bytes → ChanModes → Option ChanModes
set_limit true none c = none
set_limit true (some p) c = some (record c { limit = atol p })
set_limit false p c = some (record c { limit = pos 0 })

-- The bound of the copy is that of `key`.
abbrev pub set_modef : Bool → Option Bytes → ChanModes → Option ChanModes
set_modef true none c = none
set_modef true (some p) c = some (record c { modef = fit 15 p })
set_modef false p c = some (record c { modef = [] })

-- `switch (i)`
unfoldable pub apply_mode : ℕ → Bool → Option Bytes → ChanModes → Option ChanModes
unfolding atol
apply_mode i toadd p c =
    if i == 5
    then some (record c { external = toadd })
    else if i == 6
    then some (record c { onlyoptopic = toadd })
    else if i == 9
    then set_key toadd p c
    else if i == 10
    then set_limit toadd p c
    else if i == 11
    then set_modef toadd p c
    else some c

-- The variables of `read_chanmode_string`: `params` is what `paramcnt` has not passed yet.
pub record Reading : Type 0 where
  pub toadd : Bool
  pub params : List Bytes
  pub p : Option Bytes
  pub modes : ChanModes

-- A match at index `i`: `none` inside is the `continue` at a parameter that is missing.
abbrev pub take_param : Bool → List Bytes → Option Bytes → Option (List Bytes × Option Bytes)
take_param false params p = some (params, p)
take_param true [] p = none
take_param true (x ∷ params) p = some (params, some x)

abbrev pub needs_param : CMode → Bool → Bool
needs_param m toadd = if toadd then m.setparam else m.unsetparam

-- The loop over the table, from index `i`; the flag says whether the letter was found.
unfoldable pub find_mode : ℕ → List CMode → ℕ → Bool → Reading → Option (Bool × Reading)
unfolding apply_mode eq_bytes
find_mode i [] mode found r = some (found, r)
find_mode i (m ∷ ms) mode found r = elim m.character [
  | none ↦ find_mode (suc i) ms mode found r
  | some ch ↦ elim (eq_bytes ch (mode ∷ [])) [
    | true ↦ elim (take_param (needs_param m r.toadd) r.params r.p) [
      | none ↦ find_mode (suc i) ms mode true r
      | some (params, p) ↦ apply_mode i r.toadd p r.modes >>= λ c.
          some (true, record r { params = params; p = p; modes = c })
    ]
    | false ↦ elim found [ true ↦ some (true, r) | false ↦ find_mode (suc i) ms mode false r ]
  ]
]

-- `strlcat` into `unknownmodes[32]`
abbrev pub add_unknown : ℕ → Reading → Reading
add_unknown mode r = record r {
  modes = record r.modes { unknownmodes = fit 32 (r.modes.unknownmodes ++ mode ∷ []) };
}

abbrev pub after_search : ℕ → Bool × Reading → Reading
after_search mode (found, r) = if not found && not (mode == b'b') then add_unknown mode r else r

-- One round, on the byte `mode`.
unfoldable pub read_mode : List CMode → ℕ → Reading → Option Reading
unfolding find_mode
read_mode table mode r =
    if mode == b'+'
    then some (record r { toadd = true })
    else if mode == b'-'
    then some (record r { toadd = false })
    else if mode == b','
    then some r
    else (find_mode 0 table mode false r >>= λ q. some (after_search mode q))

unfoldable pub read_loop : List CMode → Bytes → Reading → Option Reading
unfolding read_mode
read_loop table [] r = some r
read_loop table (mode ∷ modes) r = read_mode table mode r >>= λ r'. read_loop table modes r'

-- `read_chanmode_string`; `toadd` is what the variable holds before the first sign.
unfoldable pub read_chanmode_string :
    List CMode → (toadd : Bool) → ChanModes → Bytes → List Bytes → Option ChanModes
unfolding read_loop
read_chanmode_string table toadd c modes params =
    read_loop table modes (record { toadd = toadd; params = params; p = none; modes = c }) >>= λ r.
    some r.modes

abbrev pub character_of : Option CMode → Option Bytes
character_of none = none
character_of (some m) = m.character

abbrev pub letter_if : Bool → Option Bytes → Bytes
letter_if true (some ch) = ch
letter_if true none = []
letter_if false ch = []

-- The letters of `create_chanmode_string`.
unfoldable pub mode_letters : List CMode → ChanModes → Bytes
mode_letters table c =
    let letter = λ (i : ℕ). character_of (get_elem? table i) in
    b'+' ∷ letter_if c.registered (letter 7)
    ++ (letter_if c.onlyoptopic (letter 6)
        ++ (letter_if c.external (letter 5)
            ++ (c.unknownmodes
                ++ (letter_if c.haskey (letter 9) ++ letter_if (is_positive c.limit) (letter 10)))))

abbrev pub arg_if : Bool → Option Bytes → Bytes → List Bytes
arg_if true (some ch) arg = arg ∷ []
arg_if true none arg = []
arg_if false ch arg = []

-- A parameter is put behind a space, if one stands before it that is not empty.
unfoldable pub join_args : Bytes → List Bytes → Bytes
join_args params [] = params
join_args [] (arg ∷ args) = join_args arg args
join_args (x ∷ params) (arg ∷ args) = join_args (x ∷ params ++ b' ' ∷ arg) args

abbrev pub behind : Bytes → Bytes → Bytes
behind letters [] = letters
behind letters (x ∷ params) = letters ++ b' ' ∷ x ∷ params

abbrev pub limit_text : ℤ → Option Bytes
limit_text (pos n) = if ltb n (10 ^ 9) then some (print_decimal n) else none
limit_text (negsuc n) = some []

-- `sprintf (limit, "%d", c->limit)` into ten bytes, where a limit is to be written.
abbrev pub limit_arg : Bool → Option Bytes → ℤ → Option (List Bytes)
limit_arg false ch limit = some []
limit_arg true none limit = some []
limit_arg true (some ch) limit = limit_text limit >>= λ text. some (text ∷ [])

-- `create_chanmode_string`
unfoldable pub create_chanmode_string : List CMode → ChanModes → Option Bytes
unfolding mode_letters join_args
create_chanmode_string table c =
    let letter = λ (i : ℕ). character_of (get_elem? table i) in
    (limit_arg (is_positive c.limit) (letter 10) c.limit >>= λ limit. some (
      fit 1024
        (behind (mode_letters table c) (join_args [] (arg_if c.haskey (letter 9) c.key ++ limit)))))
