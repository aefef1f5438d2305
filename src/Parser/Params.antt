-- ===== src/Parser/Params.antt =====
-- `string_to_array` of src/parser.c. The C code cuts the line in place; here the words are lists.
use omega_services.Prelude.{
  ℕ, zero, suc, ◌+◌, ◌≤◌, Bool, false, Option, none, some, List, [], ◌∷◌, Bytes, ◌==◌,
  if◌then◌else◌, length, arith,
}

-- `strchr (buf, ' ')`: the text up to the first space, and what follows that space.
unfoldable pub split_space : Bytes → Bytes × Option Bytes
split_space [] = ([], none)
split_space (c ∷ s) =
    let (word, rest) = split_space s in if c == b' ' then ([], some s) else (c ∷ word, rest)

-- `while (*buf == ' ') buf++;`
unfoldable pub skip_spaces : Bytes → Bytes
skip_spaces [] = []
skip_spaces (c ∷ s) = if c == b' ' then skip_spaces s else c ∷ s

unfoldable pub starts_colon : Bytes → Bool
starts_colon [] = false
starts_colon (c ∷ s) = c == b':'

abbrev pub rest_of : Bytes → Bytes
rest_of [] = []
rest_of (c ∷ s) = s

-- The round after a word: `p` stands behind the space, `go` is told `p` and `buf`.
unfoldable pub after_word : (Bytes → Bytes → List Bytes) → Bytes × Option Bytes → List Bytes
unfolding skip_spaces
after_word go (word, none) = word ∷ []
after_word go (word, some p) = elim (skip_spaces p) [ [] ↦ word ∷ [] | c ∷ s ↦ word ∷ go p (c ∷ s) ]

-- What stands behind the loop: the rest of the line is the last parameter.
unfoldable pub last_param : Bytes → List Bytes
unfolding starts_colon
last_param p = (if starts_colon p then rest_of p else p) ∷ []

-- The `do` loop. The number counts the rounds after this one, up to `x < MAXPARA`.
unfoldable pub read_params : ℕ → Bytes → List Bytes
unfolding after_word last_param split_space starts_colon
read_params zero buf =
    if starts_colon buf
    then rest_of buf ∷ []
    else after_word (λ p next. last_param p) (split_space buf)
read_params (suc n) buf =
    if starts_colon buf
    then rest_of buf ∷ []
    else after_word (λ p next. read_params n next) (split_space buf)

abbrev pub max_para : ℕ
max_para = 15

-- `x` starts at 1 and each round adds one, so there are at most 14 rounds.
unfoldable pub string_to_array : Bytes → List Bytes
unfolding read_params
string_to_array [] = []
string_to_array (c ∷ s) = read_params 13 (c ∷ s)

after_word-length :
    (go : Bytes → Bytes → List Bytes) (n : ℕ) (w : Bytes × Option Bytes)
    → ((p s : Bytes) → length (go p s) ≤ n)
    → length (after_word go w) ≤ n + 1
unfolding after_word
after_word-length go n (word, none) h = omega arith
after_word-length go n (word, some p) h = split (skip_spaces p)
  where
    split : (b : Bytes) → length (elim b [ [] ↦ word ∷ [] | c ∷ s ↦ word ∷ go p (c ∷ s) ]) ≤ n + 1
    split [] = omega arith
    split (c ∷ s) = omega (arith, h p (c ∷ s))

read_params-length : (n : ℕ) (buf : Bytes) → length (read_params n buf) ≤ n + 2
unfolding read_params
read_params-length zero buf =
    ground
      (arith, after_word-length (λ p next. last_param p) 1 (split_space buf) (λ p s. omega arith))
read_params-length (suc n) buf = ground (
  arith,
  after_word-length (λ p next. read_params n next) (n + 2) (split_space buf)
      (λ p s. read_params-length n s),
)

-- Whatever the text, `string_to_array` writes at most `MAXPARA` parameters: with the source in
-- `para[0]` and the closing NULL they fit `para[MAXPARA + 2]`.
pub string_to_array-length : (s : Bytes) → length (string_to_array s) ≤ max_para
unfolding string_to_array
string_to_array-length [] = omega arith
string_to_array-length (c ∷ s) = omega (arith, read_params-length 13 (c ∷ s))
