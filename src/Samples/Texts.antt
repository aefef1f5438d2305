-- ===== src/Samples/Texts.antt =====
-- Masks and protocol lines.
use omega_services.Prelude.{
  ℕ, ◌≡◌, refl, ◌↔◌, true, false, none, some, List, [], ◌∷◌, Bytes, codes, length, All, eq_nocase,
  if◌then◌else◌, arith,
}
use omega_services.Match.Wild.{match_wild, same_char}
use omega_services.Match.Wild.Language.{Matches}
use omega_services.Match.Wild.Decides.{match_wild_iff}
use omega_services.Parser.{read_line, Directory, null_read, touch, user_cmd, parse, params}
use omega_services.Parser.Bare.{parse-null}
use omega_services.Parser.Params.{string_to_array, starts_colon}
use omega_services.Parser.RoundTrip.{IsWord, print_params, print_line, read_line-print_line}

mask_runs : match_wild (codes "*!*@*.Example.org") (codes "nick!u@irc.example.ORG") false ≡ true
unfolding match_wild same_char
mask_runs = refl

match_wild_iff_example :
    (match_wild (codes "?*c") (codes "abc") true ≡ true) ↔ Matches true (codes "?*c") (codes "abc")
match_wild_iff_example =
    match_wild_iff true (codes "?*c") (codes "abc") (λ e. cc e) (λ e. cc e) (omega arith)

abbrev words : List Bytes
words = codes "#chan" ∷ codes "+o" ∷ []

words-IsWord : All IsWord words
unfolding starts_colon
words-IsWord = (
  record { filled = λ e. cc e; one_piece = omega arith; no_colon = refl },
  (record { filled = λ e. cc e; one_piece = omega arith; no_colon = refl }, tt),
)

last_param_runs : length (string_to_array (codes "a b c d e f g h i j k l m n o p q")) ≡ 15
unfolding string_to_array
last_param_runs = refl

read_line-print_line_example :
    read_line (codes ":irc.example.org MODE #chan +o :two words") ≡ record {
      source = some (codes "irc.example.org");
      command = codes "MODE";
      parv = codes "#chan" ∷ codes "+o" ∷ codes "two words" ∷ [];
      parc = 4;
    }
unfolding print_line print_params
read_line-print_line_example =
    read_line-print_line (codes "irc.example.org") (codes "MODE") words (codes "two words")
      (omega arith) (omega arith) words-IsWord (omega arith)

-- One server with address 7 and one user with address 9.
abbrev directory : Directory ℕ ℕ
directory = record {
  find_serv = λ s. if eq_nocase s (codes "irc.example.org") then some 7 else none;
  find_user = λ s. if eq_nocase s (codes "Nick") then some 9 else none;
  find_uid = λ s. none;
}

parse_runs :
    parse directory false (codes ":nick PRIVMSG guardian :HELP")
    ≡ touch 9
      ∷ user_cmd
          (some (codes "PRIVMSG"))
          9
          3
          (some (codes "nick") ∷ params (codes "guardian" ∷ codes "HELP" ∷ []))
      ∷ []
unfolding parse eq_nocase
parse_runs = refl

parse-null_example : parse directory false (codes ":nowhere notice") ≡ null_read ∷ []
unfolding eq_nocase
parse-null_example =
    parse-null directory (codes "nowhere") (codes "notice") (omega arith) (omega arith) refl refl
      refl
