-- ===== src/Base64/Numbers.antt =====
-- `base64enc` and `base64dec` for time stamps, and `inttobase64` and `base64toint` for P10.
pub mod RoundTrip
use omega_services.Prelude.{
  ℕ, zero, suc, ◌+◌, ◌-◌, ◌*◌, ◌/◌, ◌%◌, ◌^◌, Bool, true, false, ◌&&◌, Option, none, some, List, [],
  ◌∷◌, ◌++◌, Bytes, codes, get_elem?, leb, ltb, ◌==◌, if◌then◌else◌, ℤ, pos, negsuc,
}

abbrev pub between : ℕ → ℕ → ℕ → Bool
between lo hi c = leb lo c && leb c hi

abbrev or_zero : Option ℕ → ℕ
or_zero none = 0
or_zero (some c) = c

abbrev digits_dec : Bytes
digits_dec = codes "0123456789ABCDEFGHIJKLMNOPQRSTUVWXYZabcdefghijklmnopqrstuvwxyz{}"

abbrev digits_p10 : Bytes
digits_p10 = codes "ABCDEFGHIJKLMNOPQRSTUVWXYZabcdefghijklmnopqrstuvwxyz0123456789[]"

-- The tables `int6_to_base64_map` and `convert2y`, at an index below 64.
unfoldable pub int6_to_base64_map : ℕ → ℕ
int6_to_base64_map i = or_zero (get_elem? digits_dec i)

unfoldable pub convert2y : ℕ → ℕ
convert2y i = or_zero (get_elem? digits_p10 i)

-- An `int` is its pattern of 32 bits.
abbrev pub word : ℕ
word = 2 ^ 32

abbrev minus_one : ℕ
minus_one = word - 1

-- The table `base64_to_int6_map`.
unfoldable pub base64_to_int6_map : ℕ → ℕ
base64_to_int6_map c =
    if between b'0' b'9' c
    then c - b'0'
    else if between b'A' b'Z' c
    then c - b'A' + 10
    else if between b'a' b'z' c
    then c - b'a' + 36
    else if c == b'{'
    then 62
    else if c == b'}'
    then 63
    else minus_one

-- The table `convert2n`.
unfoldable pub convert2n : ℕ → ℕ
convert2n c =
    if between b'0' b'9' c
    then c - b'0' + 52
    else if between b'A' b'Z' c
    then c - b'A'
    else if between b'a' b'z' c
    then c - b'a' + 26
    else if c == b'['
    then 62
    else if c == b']'
    then 63
    else 0

-- The loop of `int_to_base64`, with `i` places of `base64buf` left; `none` is a write before it.
unfoldable pub put_digits : ℕ → ℕ → Bytes → Option Bytes
unfolding int6_to_base64_map
put_digits zero val out = none
put_digits (suc i) val out =
    let out' = int6_to_base64_map (val % 64) ∷ out in
    let more = put_digits i (val / 64) out' in if val / 64 == 0 then some out' else more

-- `int_to_base64`; `none` also stands for the failed assertion.
unfoldable pub int_to_base64 : ℕ → Option Bytes
unfolding put_digits
int_to_base64 val = let text = put_digits 7 val [] in if ltb val 2147483647 then text else none

-- `base64enc`
unfoldable pub base64enc : ℤ → Option Bytes
unfolding int_to_base64
base64enc (pos i) = int_to_base64 i
base64enc (negsuc i) = some (codes "0")

-- The loop of `base64_to_int`.
unfoldable pub get_digits : ℕ → Bytes → ℕ
unfolding base64_to_int6_map
get_digits v [] = v
get_digits v (c ∷ s) = get_digits ((v * 64 + base64_to_int6_map c) % word) s

-- `base64_to_int`; with no byte at all it steps over the NUL (`none`).
unfoldable pub base64_to_int : Bytes → Option ℕ
unfolding get_digits base64_to_int6_map
base64_to_int [] = none
base64_to_int (c ∷ s) = some (get_digits (base64_to_int6_map c) s)

-- `base64dec` of a text that is there.
unfoldable pub base64dec : Bytes → Option ℕ
unfolding base64_to_int
base64dec b64 = base64_to_int b64

-- `base64toint`: at most `count` bytes.
unfoldable pub to_int_loop : ℕ → ℕ → Bytes → ℕ
unfolding convert2n
to_int_loop zero i s = i
to_int_loop (suc count) i [] = i
to_int_loop (suc count) i (c ∷ s) = to_int_loop count ((i * 64 + convert2n c) % word) s

unfoldable pub base64toint : Bytes → ℕ → ℕ
unfolding to_int_loop
base64toint s count = to_int_loop count 0 s

-- The loop of `inttobase64`: `count` digits, the last one first.
unfoldable pub to_text_loop : ℕ → ℕ → Bytes → Bytes
unfolding convert2y
to_text_loop zero v out = out
to_text_loop (suc count) v out = to_text_loop count (v / 64) (convert2y (v % 64) ∷ out)

unfoldable pub inttobase64 : ℕ → ℕ → Bytes
unfolding to_text_loop
inttobase64 v count = to_text_loop count v []
