-- ===== src/Parser.antt =====
-- src/parser.c: how a line from the uplink becomes a command with its parameters, and which handler
-- table gets it. The lookups of servers and users are an interface, which the modules that keep
-- those lists fill.
pub mod Params
pub mod RoundTrip
pub mod Bare
use omega_services.Prelude.{
  ℕ, zero, suc, ◌+◌, Bool, true, false, ◌&&◌, Option, none, some, List, [], ◌∷◌, Bytes, ◌==◌, ltb,
  length, codes, eq_nocase, if◌then◌else◌,
}
use Params.{split_space, starts_colon, rest_of, string_to_array, max_para}

-- What `parse` has cut out of the line. `parv` is `para[1]` and what follows, and `parc` is the `n`
-- that the handlers are given: one more than there are, but if no text follows the command, the
-- `MAXPARA` at which the loop before has left it.
pub record Line : Type 0 where
  pub source : Option Bytes
  pub command : Bytes
  pub parv : List Bytes
  pub parc : ℕ

-- `if (s) n = string_to_array (s, para);`
unfoldable pub with_params : Option Bytes → Bytes → Option Bytes → Line
unfolding string_to_array
with_params source command none = record {
  source = source;
  command = command;
  parv = [];
  parc = max_para;
}
with_params source command (some s) =
    let parv = string_to_array s in
    record { source = source; command = command; parv = parv; parc = length parv + 1 }

unfoldable pub cut_line : Bytes → Bytes × Option Bytes → Line
unfolding with_params split_space
cut_line inbuf (first, none) = with_params none inbuf none
cut_line inbuf (first, some pos) =
    if starts_colon inbuf
    then (let (command, s) = split_space pos in with_params (some (rest_of first)) command s)
    else with_params none first (some pos)

unfoldable pub read_line : Bytes → Line
unfolding cut_line split_space
read_line inbuf = cut_line inbuf (split_space inbuf)

-- The lookups that `parse` makes in the lists of servers and users.
pub record Directory (S U : Type 0) : Type 0 where
  pub find_serv : Bytes → Option S
  pub find_user : Bytes → Option U
  pub find_uid : Bytes → Option U

-- The calls that `parse` makes, in order: a command for a server's handlers (`none` is the uplink),
-- the time stamp `u->lastsent`, and a command for a user's handlers. A command of `none` is NULL.
-- `null_read` is `strcasecmp` of NULL.
pub data Call (S U : Type 0) : Type 0 where
  null_read : Call S U
  serv_cmd : Option Bytes → Option S → ℕ → List (Option Bytes) → Call S U
  touch : U → Call S U
  user_cmd : Option Bytes → U → ℕ → List (Option Bytes) → Call S U

abbrev pub params : List Bytes → List (Option Bytes)
params [] = []
params (p ∷ ps) = some p ∷ params ps

abbrev pub first_param : List Bytes → Option Bytes
first_param [] = none
first_param (p ∷ ps) = some p

module _ {S U : Type 0} (d : Directory S U) where
  -- `para[0]` and what follows, with the source as it stands.
  para : Option Bytes → List Bytes → List (Option Bytes)
  para source parv = source ∷ params parv

  -- P10: the sender is the first word, with no colon before it.
  dispatch_p10 : Line → Option S → Option U → List (Call S U)
  unfolding para
  dispatch_p10 l (some li) u =
      serv_cmd (first_param l.parv) (some li) l.parc (para (some l.command) l.parv) ∷ []
  dispatch_p10 l none (some u) =
      user_cmd (first_param l.parv) u l.parc (para (some l.command) l.parv) ∷ []
  dispatch_p10 l none none = serv_cmd (some l.command) none l.parc (para l.source l.parv) ∷ []

  -- An unknown prefix: nothing but the log is left, but the test for `NOTICE AUTH` reads `para[1]`.
  unknown_prefix : Line → List (Call S U)
  unknown_prefix l =
      if ltb 2 l.parc && eq_nocase l.command (codes "NOTICE")
      then elim l.parv [ [] ↦ null_read ∷ [] | p ∷ ps ↦ [] ]
      else []

  dispatch_found : Line → Option S → Option U → List (Call S U)
  unfolding para unknown_prefix
  dispatch_found l (some li) u =
      serv_cmd (some l.command) (some li) l.parc (para l.source l.parv) ∷ []
  dispatch_found l none (some u) =
      touch u ∷ user_cmd (some l.command) u l.parc (para l.source l.parv) ∷ []
  dispatch_found l none none = unknown_prefix l

  dispatch : Line → Option Bytes → List (Call S U)
  unfolding dispatch_found para
  dispatch l none = serv_cmd (some l.command) none l.parc (para none l.parv) ∷ []
  dispatch l (some source) = dispatch_found l (d.find_serv source) (d.find_user source)

  -- `parse`
  unfoldable pub parse : Bool → Bytes → List (Call S U)
  unfolding dispatch dispatch_p10 read_line
  parse p10 [] = []
  parse p10 (c ∷ s) =
      let l = read_line (c ∷ s) in
      if p10
      then dispatch_p10 l (d.find_serv l.command) (d.find_uid l.command)
      else dispatch l l.source
