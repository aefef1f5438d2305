-- ===== src/IrcString/Attrs.antt =====
-- The table `CharAttrs` of src/irc_string.c, as runs of bytes with the same attributes, and the tests of
-- include/irc_string.h that the validators use. An attribute is one bit, so `|` is a sum here.
use omega_services.Prelude.{
  ℕ, ◌+◌, ◌-◌, ◌/◌, ◌%◌, ◌^◌, Bool, ◌||◌, List, [], ◌∷◌, ◌++◌, ltb, ◌==◌, if◌then◌else◌,
}

abbrev pub print_c : ℕ
print_c = 2 ^ 0

abbrev pub cntrl_c : ℕ
cntrl_c = 2 ^ 1

abbrev pub alpha_c : ℕ
alpha_c = 2 ^ 2

abbrev pub digit_c : ℕ
digit_c = 2 ^ 4

abbrev pub space_c : ℕ
space_c = 2 ^ 5

abbrev pub nick_c : ℕ
nick_c = 2 ^ 6

abbrev pub chan_c : ℕ
chan_c = 2 ^ 7

abbrev pub kwild_c : ℕ
kwild_c = 2 ^ 8

abbrev pub chanpfx_c : ℕ
chanpfx_c = 2 ^ 9

abbrev pub user_c : ℕ
user_c = 2 ^ 10

abbrev pub host_c : ℕ
host_c = 2 ^ 11

abbrev pub noneos_c : ℕ
noneos_c = 2 ^ 12

abbrev pub serv_c : ℕ
serv_c = 2 ^ 13

abbrev pub eol_c : ℕ
eol_c = 2 ^ 14

abbrev pub mwild_c : ℕ
mwild_c = 2 ^ 15

abbrev pub let_c : ℕ
let_c = 2 ^ 16

abbrev pub fchan_c : ℕ
fchan_c = 2 ^ 17

-- How many bytes in a row, and their attributes.
unfoldable pub ascii_attrs : List (ℕ × ℕ)
ascii_attrs =
    (1, cntrl_c)
    ∷ (1, cntrl_c + chan_c + noneos_c)
    ∷ (2, cntrl_c + chan_c + fchan_c + noneos_c)
    ∷ (3, cntrl_c + chan_c + noneos_c)
    ∷ (1, cntrl_c + noneos_c)
    ∷ (1, cntrl_c + chan_c + noneos_c)
    ∷ (1, cntrl_c + space_c + chan_c + noneos_c)
    ∷ (1, cntrl_c + space_c + chan_c + noneos_c + eol_c)
    ∷ (2, cntrl_c + space_c + chan_c + noneos_c)
    ∷ (1, cntrl_c + space_c + chan_c + noneos_c + eol_c)
    ∷ (8, cntrl_c + chan_c + noneos_c)
    ∷ (1, cntrl_c + chan_c + fchan_c + noneos_c)
    ∷ (8, cntrl_c + chan_c + noneos_c)
    ∷ (1, cntrl_c + chan_c + fchan_c + noneos_c)
    ∷ (1, print_c + space_c)
    ∷ (1, print_c + kwild_c + chan_c + noneos_c)
    ∷ (1, print_c + chan_c + noneos_c)
    ∷ (1, print_c + mwild_c + chanpfx_c + chan_c + noneos_c)
    ∷ (1, print_c + chan_c + noneos_c + user_c)
    ∷ (1, print_c + chan_c + noneos_c)
    ∷ (1, print_c + chanpfx_c + chan_c + noneos_c)
    ∷ (3, print_c + chan_c + noneos_c)
    ∷ (1, print_c + kwild_c + mwild_c + chan_c + noneos_c + serv_c)
    ∷ (1, print_c + chan_c + noneos_c)
    ∷ (1, print_c + noneos_c)
    ∷ (1, print_c + nick_c + chan_c + noneos_c + user_c + host_c)
    ∷ (1, print_c + kwild_c + chan_c + noneos_c + user_c + host_c + serv_c)
    ∷ (1, print_c + kwild_c + chan_c + noneos_c)
    ∷ (10, print_c + digit_c + nick_c + chan_c + noneos_c + user_c + host_c)
    ∷ (1, print_c + chan_c + noneos_c + host_c)
    ∷ (4, print_c + chan_c + noneos_c)
    ∷ (2, print_c + kwild_c + mwild_c + chan_c + noneos_c)
    ∷ (26, print_c + alpha_c + let_c + nick_c + chan_c + noneos_c + user_c + host_c)
    ∷ (4, print_c + alpha_c + nick_c + chan_c + noneos_c + user_c)
    ∷ (2, print_c + nick_c + chan_c + noneos_c + user_c)
    ∷ (26, print_c + alpha_c + let_c + nick_c + chan_c + noneos_c + user_c + host_c)
    ∷ (3, print_c + alpha_c + nick_c + chan_c + noneos_c + user_c)
    ∷ (1, print_c + alpha_c + chan_c + noneos_c + user_c)
    ∷ (1, chan_c + noneos_c)
    ∷ []

-- The bytes from 0x80 on.
unfoldable pub high_attrs : List (ℕ × ℕ)
high_attrs =
    (32, chan_c + noneos_c) ∷ (1, chan_c + fchan_c + noneos_c) ∷ (95, chan_c + noneos_c) ∷ []

-- `CharAttrs[c]`; a byte behind the table has none.
unfoldable pub attrs_in : List (ℕ × ℕ) → ℕ → ℕ
attrs_in [] c = 0
attrs_in ((n, attrs) ∷ runs) c = let rest = attrs_in runs (c - n) in if ltb c n then attrs else rest

unfoldable pub has_attr : ℕ → ℕ → Bool
unfolding attrs_in ascii_attrs high_attrs
has_attr attr c = attrs_in (ascii_attrs ++ high_attrs) c / attr % 2 == 1

-- `IsHostChar`
unfoldable pub is_host_char : ℕ → Bool
unfolding has_attr
is_host_char c = has_attr host_c c

-- `IsUserChar`
unfoldable pub is_user_char : ℕ → Bool
unfolding has_attr
is_user_char c = has_attr user_c c

-- `IsServChar`
unfoldable pub is_serv_char : ℕ → Bool
unfolding has_attr
is_serv_char c = has_attr nick_c c || has_attr serv_c c
