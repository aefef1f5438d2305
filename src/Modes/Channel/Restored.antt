-- ===== src/Modes/Channel/Restored.antt =====
-- What `read_chanmode_string` restores of the modes that `create_chanmode_string` has written.
use omega_services.Prelude.{
  ℕ, zero, suc, ◌^◌, ◌<◌, ◌≤◌, ◌≡◌, refl, sym, ap, ◌∙◌, Bool, true, false, Option, none, some, List,
  [], ◌∷◌, ◌++◌, append-nil, Bytes, codes, All, length, length-append, take-eq_self, spaced, lt→ltb,
  ℤ, pos, negsuc, is_positive, arith,
}
use omega_services.Access.{fit}
use omega_services.Network.{◌>>=◌}
use omega_services.Modes.Channel.Decimal.Back.{atol-print_decimal}
use omega_services.Modes.Channel.{
  ircd_cmodes, ChanModes, Reading, read_loop, read_chanmode_string, letter_if, mode_letters,
  create_chanmode_string, limit_arg, arg_if, behind, join_args,
}
use omega_services.Modes.Channel.Reads.{
  IsUnknown, no_modes, reading, read_loop-registered, read_loop-topic, read_loop-external,
  read_loop-unknown, read_loop-key, read_loop-limit,
}

abbrev pub KeyFits : Bool → Bytes → Type 0
KeyFits true key = (0 < length key) × (length key < 15)
KeyFits false key = key ≡ []

abbrev pub LimitFits : ℤ → Type 0
LimitFits (pos n) = n < 10 ^ 9
LimitFits (negsuc n) = ⊥

-- Modes that fit their fields and the texts.
pub record IsPrintable (c : ChanModes) : Type 0 where
  pub unknown : All IsUnknown c.unknownmodes
  pub few : length c.unknownmodes < 32
  pub key_fits : KeyFits c.haskey c.key
  pub limit_fits : LimitFits c.limit

-- The parameters for a key and a limit, as they are written and read.
record Args (topic external haskey : Bool) (key : Bytes) (limit : ℤ) (unknown : Bytes)
    : Type 0 where
  args : List Bytes
  p : Option Bytes
  limit_args : List Bytes
  restored :
      read_loop ircd_cmodes
        (letter_if haskey (some (codes "k")) ++ letter_if (is_positive limit) (some (codes "l")))
        (reading args none topic external false [] (pos 0) unknown)
      ≡ some (reading [] p topic external haskey key limit unknown)
  printed : limit_arg (is_positive limit) (some (codes "l")) limit ≡ some limit_args
  joined :
      (letters : Bytes)
      → behind letters (join_args [] (arg_if haskey (some (codes "k")) key ++ limit_args))
        ≡ letters ++ spaced args
  short : length (spaced args) ≤ 26

fit_key : (key : Bytes) → length key < 15 → fit 15 key ≡ key
fit_key key h = take-eq_self 14 key (omega arith)

key_and_limit :
    (topic external haskey : Bool) (key : Bytes) (limit : ℤ) (unknown : Bytes)
    → KeyFits haskey key
    → LimitFits limit
    → Args topic external haskey key limit unknown
unfolding join_args
key_and_limit topic external false [] (pos zero) unknown k l = record {
  args = [];
  p = none;
  limit_args = [];
  restored = (unfold read_loop in refl);
  printed = refl;
  joined = λ letters. sym (append-nil letters);
  short = omega arith;
}
key_and_limit topic external false [] (pos (suc n)) unknown k l =
    let (x, s, text, len, value) = atol-print_decimal (suc n) l in
    record {
      args = (x ∷ s) ∷ [];
      p = some (x ∷ s);
      limit_args = (x ∷ s) ∷ [];
      restored =
          read_loop-limit none topic external false [] (x ∷ s) unknown []
          ∙ (unfold read_loop in
              ap (λ v. some (reading [] (some (x ∷ s)) topic external false [] v unknown)) value);
      printed = rw (lt→ltb _ _ l, text);
      joined = λ letters. ap (λ t. letters ++ b' ' ∷ x ∷ t) (sym (append-nil s));
      short = omega (arith, len, length-append s []);
    }
key_and_limit topic external false [] (negsuc n) unknown k l = elim l [ ]
key_and_limit topic external false (x ∷ key) limit unknown k l = cc
key_and_limit topic external true [] limit unknown k l = absurd (omega arith)
key_and_limit topic external true (c ∷ key) (pos zero) unknown k l = record {
  args = (c ∷ key) ∷ [];
  p = some (c ∷ key);
  limit_args = [];
  restored =
      read_loop-key [] topic external (c ∷ key) (pos 0) unknown []
      ∙ (unfold read_loop in
          ap (λ v. some (reading [] (some (c ∷ key)) topic external true v (pos 0) unknown))
            (fit_key (c ∷ key) k.1));
  printed = refl;
  joined = λ letters. ap (λ t. letters ++ b' ' ∷ c ∷ t) (sym (append-nil key));
  short = omega (arith, k.1, length-append key []);
}
key_and_limit topic external true (c ∷ key) (pos (suc n)) unknown k l =
    let (x, s, text, len, value) = atol-print_decimal (suc n) l in
    record {
      args = (c ∷ key) ∷ (x ∷ s) ∷ [];
      p = some (x ∷ s);
      limit_args = (x ∷ s) ∷ [];
      restored =
          read_loop-key ((x ∷ s) ∷ []) topic external (c ∷ key) (pos 0) unknown (codes "l")
          ∙ read_loop-limit (some (c ∷ key)) topic external true (fit 15 (c ∷ key)) (x ∷ s) unknown
              []
          ∙ (unfold read_loop in
              rw (fit_key (c ∷ key) k.1) (
                ap (λ v. some (reading [] (some (x ∷ s)) topic external true (c ∷ key) v unknown))
                  value));
      printed = rw (lt→ltb _ _ l, text);
      joined =
          λ letters. ap (λ t. letters ++ b' ' ∷ c ∷ (key ++ b' ' ∷ x ∷ t)) (sym (append-nil s));
      short = omega (arith, len, k.1, length-append s [], length-append key (b' ' ∷ x ∷ s ++ []));
    }
key_and_limit topic external true (c ∷ key) (negsuc n) unknown k l = elim l [ ]

length-letter_if : (b : Bool) (x : ℕ) → length (letter_if b (some (x ∷ []))) ≤ 1
length-letter_if true x = omega arith
length-letter_if false x = omega arith

length-mode_letters :
    (c : ChanModes) → length c.unknownmodes < 32 → length (mode_letters ircd_cmodes c) ≤ 37
unfolding mode_letters ircd_cmodes
length-mode_letters c few = grind (arith, length-append, length-letter_if)

-- The letters behind the sign.
abbrev unsigned : ChanModes → Bytes
unsigned c =
    letter_if c.registered (some (codes "r"))
    ++ (letter_if c.onlyoptopic (some (codes "t"))
        ++ (letter_if c.external (some (codes "n"))
            ++ (c.unknownmodes
                ++ (letter_if c.haskey (some (codes "k"))
                    ++ letter_if (is_positive c.limit) (some (codes "l"))))))

sign :
    (toadd : Bool) (c : ChanModes) (args : List Bytes)
    → read_loop ircd_cmodes
        (mode_letters ircd_cmodes c)
        (record { toadd = toadd; params = args; p = none; modes = no_modes })
      ≡ read_loop ircd_cmodes (unsigned c) (reading args none false false false [] (pos 0) [])
unfolding read_loop mode_letters ircd_cmodes
sign toadd c args = refl

restored_letters :
    (toadd : Bool) (c : ChanModes)
    → IsPrintable c
    → (a : Args c.onlyoptopic c.external c.haskey c.key c.limit c.unknownmodes)
    → read_loop ircd_cmodes
        (mode_letters ircd_cmodes c)
        (record { toadd = toadd; params = a.args; p = none; modes = no_modes })
      ≡ some (reading [] a.p c.onlyoptopic c.external c.haskey c.key c.limit c.unknownmodes)
restored_letters toadd c h a =
    sign toadd c a.args
    ∙ read_loop-registered a.args none c.registered false false false [] (pos 0) [] _
    ∙ read_loop-topic a.args none c.onlyoptopic false false [] (pos 0) [] _
    ∙ read_loop-external a.args none c.external c.onlyoptopic false [] (pos 0) [] _
    ∙ read_loop-unknown a.args none c.onlyoptopic c.external false [] (pos 0) [] c.unknownmodes _
        h.unknown (omega (arith, h.few))
    ∙ a.restored

-- Modes that fit are written as letters, and parameters behind a space each; read into a channel without
-- modes, the letters and the parameters restore all of them but "r", and the mode "f" is not written.
pub read_chanmode_string-create :
    (toadd : Bool) (c : ChanModes)
    → IsPrintable c
    → (args : List Bytes) × (create_chanmode_string ircd_cmodes c
        ≡ some (mode_letters ircd_cmodes c ++ spaced args))
      × (read_chanmode_string ircd_cmodes toadd no_modes (mode_letters ircd_cmodes c) args
          ≡ some (record c { registered = false; modef = [] }))
unfolding create_chanmode_string read_chanmode_string
read_chanmode_string-create toadd c h =
    let a =
      key_and_limit c.onlyoptopic c.external c.haskey c.key c.limit c.unknownmodes h.key_fits
        h.limit_fits in
    let size : length (mode_letters ircd_cmodes c ++ spaced a.args) ≤ 1023 = omega (
      arith,
      length-mode_letters c h.few,
      a.short,
      length-append (mode_letters ircd_cmodes c) (spaced a.args),
    ) in
    (
      a.args,
      unfold ircd_cmodes in
          rw (a.printed) (ap some (ap (fit 1024) (a.joined _) ∙ take-eq_self 1023 _ size)),
      ap (λ o. o >>= λ (r : Reading). some r.modes) (restored_letters toadd c h a),
    )
