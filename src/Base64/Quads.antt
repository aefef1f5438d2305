-- ===== src/Base64/Quads.antt =====
-- `b64_encode` and `b64_decode`, with the buffer `target` given: a text of bytes in groups of three, as
-- four digits each. The result is what stands in `target`, before the index that is returned; `none` is
-- -1.
pub mod Inverse
use omega_services.Prelude.{
  ℕ, ◌+◌, ◌*◌, ◌/◌, ◌%◌, Bool, true, false, ◌&&◌, ◌||◌, Option, none, some, List, [], ◌∷◌, Bytes,
  codes, get_elem?, ltb, leb, ◌==◌, if◌then◌else◌,
}
use mathlib.Core.Option
use Prim.Native.Nat.{bit_or}

-- The table `Base64`.
abbrev base64 : Bytes
base64 = codes "ABCDEFGHIJKLMNOPQRSTUVWXYZabcdefghijklmnopqrstuvwxyz0123456789+/"

unfoldable digit : ℕ → ℕ
digit i = elim (get_elem? base64 i) [ none ↦ 0 | some c ↦ c ]

-- `strchr (Base64, ch) - Base64`
unfoldable place : Bytes → ℕ → Option ℕ
place [] ch = none
place (c ∷ s) ch = if c == ch then some 0 else Option.map (λ i. i + 1) (place s ch)

-- `isspace` in the C locale
unfoldable isspace : ℕ → Bool
isspace c = (leb 9 c && leb c 13) || c == 32

-- The digits of one group: the source's `output`.
abbrev first : ℕ → ℕ
first a = digit (a / 4)

abbrev second : ℕ → ℕ → ℕ
second a b = digit (a % 4 * 16 + b / 16)

abbrev third : ℕ → ℕ → ℕ
third b c = digit (b % 16 * 4 + c / 64)

abbrev fourth : ℕ → ℕ
fourth c = digit (c % 64)

-- The loop of `b64_encode` from `datalength`, and the padding behind it.
unfoldable b64_encode_from : ℕ → ℕ → Bytes → Option Bytes
unfolding digit
b64_encode_from targsize datalength [] = if leb targsize datalength then none else some []
b64_encode_from targsize datalength (a ∷ []) =
    if ltb targsize (datalength + 4)
    then none
    else if leb targsize (datalength + 4)
    then none
    else some (first a ∷ second a 0 ∷ b'=' ∷ b'=' ∷ [])
b64_encode_from targsize datalength (a ∷ b ∷ []) =
    if ltb targsize (datalength + 4)
    then none
    else if leb targsize (datalength + 4)
    then none
    else some (first a ∷ second a b ∷ third b 0 ∷ b'=' ∷ [])
b64_encode_from targsize datalength (a ∷ b ∷ c ∷ src) =
    if ltb targsize (datalength + 4)
    then none
    else Option.map (λ s. first a ∷ second a b ∷ third b c ∷ fourth c ∷ s)
        (b64_encode_from targsize (datalength + 4) src)

unfoldable pub b64_encode : Bytes → ℕ → Option Bytes
unfolding b64_encode_from
b64_encode src targsize = b64_encode_from targsize 0 src

-- The source's `state` 0 to 3, with the byte at `target[tarindex]` where the state has written it.
pub data Phase : Type 0 where
  at0 : Phase
  at1 : ℕ → Phase
  at2 : ℕ → Phase
  at3 : ℕ → Phase

-- The `switch` of the loop, on the digit `d` and `tarindex`: the byte that is complete, if one is, and
-- the state; `none` is a return of -1.
unfoldable step : ℕ → Phase → ℕ → ℕ → Option (Option ℕ × Phase)
step targsize at0 tarindex d =
    if leb targsize tarindex then none else some (none, at1 (d * 4 % 256))
step targsize (at1 p) tarindex d =
    if leb targsize (tarindex + 1) then none else some (some (bit_or p (d / 16)), at2 (d % 16 * 16))
step targsize (at2 p) tarindex d =
    if leb targsize (tarindex + 1) then none else some (some (bit_or p (d / 4)), at3 (d % 4 * 64))
step targsize (at3 p) tarindex d =
    if leb targsize tarindex then none else some (some (bit_or p d), at0)

-- Only whitespace, and no bits left in the last byte.
unfoldable only_spaces : ℕ → Bytes → Bool
unfolding isspace
only_spaces p [] = p == 0
only_spaces p (c ∷ s) = isspace c && only_spaces p s

-- After the first `=` of two: spaces, the second `=`, and spaces.
unfoldable second_pad : ℕ → Bytes → Bool
unfolding only_spaces isspace
second_pad p [] = false
second_pad p (c ∷ s) = if isspace c then second_pad p s else (c == b'=') && only_spaces p s

-- After the first `=`.
unfoldable padded : Phase → Bytes → Bool
unfolding second_pad only_spaces
padded at0 s = false
padded (at1 p) s = false
padded (at2 p) s = second_pad p s
padded (at3 p) s = only_spaces p s

abbrev is_at0 : Phase → Bool
is_at0 at0 = true
is_at0 (at1 p) = false
is_at0 (at2 p) = false
is_at0 (at3 p) = false

abbrev when : Bool → Option Bytes
when b = if b then some [] else none

-- What one round of the loop leaves to the next.
abbrev proceed : (ℕ → Phase → Option Bytes) → ℕ → Option (Option ℕ × Phase) → Option Bytes
proceed next tarindex none = none
proceed next tarindex (some (none, phase)) = next tarindex phase
proceed next tarindex (some (some byte, phase)) =
    Option.map (λ s. byte ∷ s) (next (tarindex + 1) phase)

-- One digit, or a return of -1 at any other byte.
abbrev take_digit : (ℕ → Phase → Option Bytes) → ℕ → Phase → ℕ → Option ℕ → Option Bytes
take_digit next targsize phase tarindex none = none
take_digit next targsize phase tarindex (some d) =
    proceed next tarindex (step targsize phase tarindex d)

-- The loop of `b64_decode` from `state` and `tarindex`.
unfoldable b64_decode_from : ℕ → Bytes → ℕ → Phase → Option Bytes
unfolding step padded place isspace
b64_decode_from targsize [] tarindex phase = when (is_at0 phase)
b64_decode_from targsize (ch ∷ src) tarindex phase = elim (isspace ch) [
  | true ↦ b64_decode_from targsize src tarindex phase
  | false ↦ elim (ch == b'=') [
    | true ↦ when (padded phase src)
    | false ↦ take_digit (b64_decode_from targsize src) targsize phase tarindex (place base64 ch)
  ]
]

unfoldable pub b64_decode : Bytes → ℕ → Option Bytes
unfolding b64_decode_from
b64_decode src targsize = b64_decode_from targsize src 0 at0
