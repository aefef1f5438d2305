-- ===== src/Parser/RoundTrip.antt =====
-- Printing a protocol line and reading it back.
use omega_services.Prelude.{
  ℕ, zero, suc, ◌+◌, ◌≤◌, ◌≡◌, ◌≢◌, refl, ap, ◌∙◌, false, some, List, [], ◌∷◌, ◌++◌, Bytes, length,
  arith, All, length-append,
}
use omega_services.Parser.Params.{
  split_space, skip_spaces, starts_colon, after_word, read_params, string_to_array,
}
use omega_services.Parser.{with_params, cut_line, read_line}

-- A parameter that can stand before the last one: not empty, no space in it, no colon at its start.
pub record IsWord (w : Bytes) : Type 0 where
  pub filled : w ≢ []
  pub one_piece : All (λ c. c ≢ b' ') w
  pub no_colon : starts_colon w ≡ false

-- `w1 w2 ... :last`
unfoldable pub print_params : List Bytes → Bytes → Bytes
print_params [] last = b':' ∷ last
print_params (w ∷ ws) last = w ++ b' ' ∷ print_params ws last

pub split_space-append :
    (w s : Bytes) → All (λ c. c ≢ b' ') w → split_space (w ++ b' ' ∷ s) ≡ (w, some s)
unfolding split_space
split_space-append [] s h = refl
split_space-append (c ∷ w) s h = ground (arith, split_space-append w s h.1)

skip_spaces-print_params :
    (ws : List Bytes) (last : Bytes)
    → All IsWord ws
    → skip_spaces (print_params ws last) ≡ print_params ws last
unfolding skip_spaces print_params
skip_spaces-print_params [] last h = refl
skip_spaces-print_params ([] ∷ ws) last h = absurd (h.0.filled refl)
skip_spaces-print_params ((c ∷ w) ∷ ws) last h = ground (arith, h.0.one_piece.0)

after_word-some :
    (go : Bytes → Bytes → List Bytes) (w p : Bytes) {c : ℕ} {s : Bytes}
    → skip_spaces p ≡ c ∷ s
    → after_word go (w, some p) ≡ w ∷ go p (c ∷ s)
unfolding after_word
after_word-some go w p e = rw (e, after_word)

after_word-print_params :
    (go : Bytes → Bytes → List Bytes) (w : Bytes) (ws : List Bytes) (last : Bytes)
    → All IsWord ws
    → after_word go (w, some (print_params ws last))
      ≡ w ∷ go (print_params ws last) (print_params ws last)
unfolding print_params
after_word-print_params go w [] last h =
    after_word-some go w (b':' ∷ last) (skip_spaces-print_params [] last h)
after_word-print_params go w ([] ∷ ws) last h = absurd (h.0.filled refl)
after_word-print_params go w ((c ∷ r) ∷ ws) last h =
    after_word-some go w (c ∷ r ++ b' ' ∷ print_params ws last)
      (skip_spaces-print_params ((c ∷ r) ∷ ws) last h)

starts_colon-append : (w s : Bytes) → IsWord w → starts_colon (w ++ s) ≡ false
unfolding starts_colon
starts_colon-append [] s h = absurd (h.filled refl)
starts_colon-append (c ∷ w) s h = h.no_colon

read_params-print_params :
    (n : ℕ) (ws : List Bytes) (last : Bytes)
    → All IsWord ws
    → length ws ≤ n + 1
    → read_params n (print_params ws last) ≡ ws ++ last ∷ []
unfolding read_params print_params
read_params-print_params zero [] last h l = refl
read_params-print_params (suc n) [] last h l = refl
read_params-print_params zero (w ∷ []) last h l =
    rw
      (
        starts_colon-append w (b' ' ∷ b':' ∷ last) h.0,
        split_space-append w (b':' ∷ last) h.0.one_piece,
      )
      refl
read_params-print_params zero (w ∷ v ∷ ws) last h l = absurd (omega arith)
read_params-print_params (suc n) (w ∷ ws) last h l =
    rw
      (
        starts_colon-append w (b' ' ∷ print_params ws last) h.0,
        split_space-append w (print_params ws last) h.0.one_piece,
      )
      (after_word-print_params (λ p next. read_params n next) w ws last h.1
        ∙ ap (λ (t : List Bytes). w ∷ t) (read_params-print_params n ws last h.1 (omega arith)))

-- The parameters that `string_to_array` reads from a printed line are the printed ones, if at
-- most 14 words, with no space in them and no colon at their start, stand before the last
-- parameter, which may hold any bytes.
pub string_to_array-print_params :
    (ws : List Bytes) (last : Bytes)
    → All IsWord ws
    → length ws ≤ 14
    → string_to_array (print_params ws last) ≡ ws ++ last ∷ []
unfolding string_to_array print_params
string_to_array-print_params [] last h l = read_params-print_params 13 [] last h (omega arith)
string_to_array-print_params ([] ∷ ws) last h l = absurd (h.0.filled refl)
string_to_array-print_params ((c ∷ w) ∷ ws) last h l =
    read_params-print_params 13 ((c ∷ w) ∷ ws) last h (omega arith)

-- `:source command w1 w2 ... :last`
unfoldable pub print_line : Bytes → Bytes → List Bytes → Bytes → Bytes
print_line source command ws last =
    b':' ∷ (source ++ (b' ' ∷ (command ++ (b' ' ∷ print_params ws last))))

-- A line that is printed from its parts is read back into the same parts: the source without its
-- colon, the command, and all parameters with their count, for a source and a command without a
-- space and at most 14 words before the last parameter.
pub read_line-print_line :
    (source command : Bytes) (ws : List Bytes) (last : Bytes)
    → All (λ c. c ≢ b' ') source
    → All (λ c. c ≢ b' ') command
    → All IsWord ws
    → length ws ≤ 14
    → read_line (print_line source command ws last) ≡ record {
      source = some source;
      command = command;
      parv = ws ++ last ∷ [];
      parc = length ws + 2;
    }
unfolding read_line print_line cut_line with_params
read_line-print_line source command ws last hs hc h l =
    let params = print_params ws last in
    let after = command ++ (b' ' ∷ params) in
    rw
      (
        split_space-append (b':' ∷ source) after (omega arith, hs),
        split_space-append command params hc,
        string_to_array-print_params ws last h l,
        length-append ws (last ∷ []),
      )
      (ground arith)
