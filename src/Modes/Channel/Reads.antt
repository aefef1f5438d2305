-- ===== src/Modes/Channel/Reads.antt =====
-- How `read_chanmode_string` reads each letter, from a state with the sign `+`.
use omega_services.Prelude.{
  ℕ, suc, ◌+◌, ◌<◌, ◌≡◌, refl, sym, ap, ◌∙◌, Bool, true, false, Option, none, some, List, [], ◌∷◌,
  ◌++◌, append_assoc, append-nil, Bytes, codes, Option-cases, inl, inr, eq_bytes, All, length,
  length-append, take-eq_self, ◌==◌, ℤ, pos, arith,
}
use omega_services.Access.{fit}
use omega_services.Modes.Channel.Decimal.{atol}
use omega_services.Modes.Channel.{
  CMode, ircd_cmodes, ChanModes, Reading, read_mode, read_loop, letter_if, find_mode,
}

abbrev pub names : Option Bytes → ℕ → Bool
names none x = false
names (some ch) x = eq_bytes ch (x ∷ [])

-- A byte that is no letter of the table, no sign, no comma and not the "b" of a ban.
abbrev pub IsUnknown : ℕ → Type 0
IsUnknown x =
    All (λ (m : CMode). names m.character x ≡ false) ircd_cmodes
    × All (λ y. (x == y) ≡ false) (codes "+-,b")

find_mode-unknown :
    (i : ℕ) (ms : List CMode) (x : ℕ) (r : Reading)
    → All (λ (m : CMode). names m.character x ≡ false) ms
    → find_mode i ms x false r ≡ some (false, r)
unfolding find_mode
find_mode-unknown i [] x r h = refl
find_mode-unknown i (m ∷ ms) x r h = elim (Option-cases m.character) [
  | inl e ↦ rw e (find_mode-unknown (suc i) ms x r h.1)
  | inr (ch, e) ↦
      let other : eq_bytes ch (x ∷ []) ≡ false = rw e at (h.0) in
      rw (e, other) (find_mode-unknown (suc i) ms x r h.1)
]

abbrev pub no_modes : ChanModes
no_modes = record {
  registered = false;
  onlyoptopic = false;
  external = false;
  haskey = false;
  key = [];
  limit = pos 0;
  modef = [];
  unknownmodes = [];
}

module _ (params : List Bytes) (p : Option Bytes) where
  abbrev pub reading : Bool → Bool → Bool → Bytes → ℤ → Bytes → Reading
  reading topic external haskey key limit unknown = record {
    toadd = true;
    params = params;
    p = p;
    modes = record no_modes {
      onlyoptopic = topic;
      external = external;
      haskey = haskey;
      key = key;
      limit = limit;
      unknownmodes = unknown;
    };
  }

  pub read_loop-registered :
      (b topic external haskey : Bool) (key : Bytes) (limit : ℤ) (unknown s : Bytes)
      → read_loop ircd_cmodes
          (letter_if b (some (codes "r")) ++ s)
          (reading topic external haskey key limit unknown)
        ≡ read_loop ircd_cmodes s (reading topic external haskey key limit unknown)
  unfolding read_loop ircd_cmodes
  read_loop-registered true topic external haskey key limit unknown s = refl
  read_loop-registered false topic external haskey key limit unknown s = refl

  pub read_loop-topic :
      (b external haskey : Bool) (key : Bytes) (limit : ℤ) (unknown s : Bytes)
      → read_loop ircd_cmodes
          (letter_if b (some (codes "t")) ++ s)
          (reading false external haskey key limit unknown)
        ≡ read_loop ircd_cmodes s (reading b external haskey key limit unknown)
  unfolding read_loop ircd_cmodes
  read_loop-topic true external haskey key limit unknown s = refl
  read_loop-topic false external haskey key limit unknown s = refl

  pub read_loop-external :
      (b topic haskey : Bool) (key : Bytes) (limit : ℤ) (unknown s : Bytes)
      → read_loop ircd_cmodes
          (letter_if b (some (codes "n")) ++ s)
          (reading topic false haskey key limit unknown)
        ≡ read_loop ircd_cmodes s (reading topic b haskey key limit unknown)
  unfolding read_loop ircd_cmodes
  read_loop-external true topic haskey key limit unknown s = refl
  read_loop-external false topic haskey key limit unknown s = refl

  read_mode-unknown :
      (topic external haskey : Bool) (key : Bytes) (limit : ℤ) (unknown : Bytes) (x : ℕ)
      → IsUnknown x
      → length unknown < 31
      → read_mode ircd_cmodes x (reading topic external haskey key limit unknown)
        ≡ some (reading topic external haskey key limit (unknown ++ x ∷ []))
  unfolding read_mode
  read_mode-unknown topic external haskey key limit unknown x
        (letter, (plus, (minus, (comma, (ban, _))))) few =
      rw
        (
          plus,
          minus,
          comma,
          find_mode-unknown 0 ircd_cmodes x (reading topic external haskey key limit unknown)
              letter,
          ban,
        )
        (ap (λ s. some (reading topic external haskey key limit s))
          (take-eq_self 31 (unknown ++ x ∷ []) (omega (arith, length-append unknown (x ∷ [])))))

  pub read_loop-unknown :
      (topic external haskey : Bool) (key : Bytes) (limit : ℤ) (unknown new s : Bytes)
      → All IsUnknown new
      → length unknown + length new < 32
      → read_loop ircd_cmodes (new ++ s) (reading topic external haskey key limit unknown)
        ≡ read_loop ircd_cmodes s (reading topic external haskey key limit (unknown ++ new))
  unfolding read_loop
  read_loop-unknown topic external haskey key limit unknown [] s h few =
      ap (λ u. read_loop ircd_cmodes s (reading topic external haskey key limit u))
        (sym (append-nil unknown))
  read_loop-unknown topic external haskey key limit unknown (x ∷ new) s h few =
      rw (read_mode-unknown topic external haskey key limit unknown x h.0 (omega arith)) (
        read_loop-unknown topic external haskey key limit (unknown ++ x ∷ []) new s h.1
          (omega (arith, length-append unknown (x ∷ [])))
        ∙ ap (λ u. read_loop ircd_cmodes s (reading topic external haskey key limit u))
            (append_assoc unknown (x ∷ []) new))

pub read_loop-key :
    (params : List Bytes) (topic external : Bool) (key : Bytes) (limit : ℤ) (unknown s : Bytes)
    → read_loop ircd_cmodes
        (b'k' ∷ s)
        (reading (key ∷ params) none topic external false [] limit unknown)
      ≡ read_loop ircd_cmodes s
          (reading params (some key) topic external true (fit 15 key) limit unknown)
unfolding read_loop ircd_cmodes
read_loop-key params topic external key limit unknown s = refl

pub read_loop-limit :
    (p : Option Bytes) (topic external haskey : Bool) (key text : Bytes) (unknown s : Bytes)
    → read_loop ircd_cmodes
        (b'l' ∷ s)
        (reading (text ∷ []) p topic external haskey key (pos 0) unknown)
      ≡ read_loop ircd_cmodes s
          (reading [] (some text) topic external haskey key (atol text) unknown)
unfolding read_loop ircd_cmodes
read_loop-limit p topic external haskey key text unknown s = refl
