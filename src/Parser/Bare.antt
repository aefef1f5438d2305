-- ===== src/Parser/Bare.antt =====
-- A command with no text behind it.
use omega_services.Prelude.{
  ◌≡◌, ◌≢◌, refl, true, false, none, some, [], ◌∷◌, ◌++◌, Bytes, codes, eq_nocase, arith, All,
}
use omega_services.Parser.Params.{split_space, max_para}
use omega_services.Parser.RoundTrip.{split_space-append}
use omega_services.Parser.{
  Directory, null_read, with_params, cut_line, read_line, unknown_prefix, dispatch_found, dispatch,
  parse,
}

split_space-one : (w : Bytes) → All (λ c. c ≢ b' ') w → split_space w ≡ (w, none)
unfolding split_space
split_space-one [] h = refl
split_space-one (c ∷ w) h = ground (arith, split_space-one w h.1)

-- A line of a source and a command without a space, and no parameter, is read with a count of
-- `MAXPARA`, and a line of such a command alone likewise.
pub read_line-bare :
    (source command : Bytes)
    → All (λ c. c ≢ b' ') source
    → All (λ c. c ≢ b' ') command
    → (read_line (b':' ∷ (source ++ (b' ' ∷ command)))
        ≡ record { source = some source; command = command; parv = []; parc = max_para })
      × (read_line command
          ≡ record { source = none; command = command; parv = []; parc = max_para })
unfolding read_line cut_line with_params
read_line-bare source command hs hc = (
  rw (split_space-append (b':' ∷ source) command (omega arith, hs), split_space-one command hc)
      (ground arith),
  rw (split_space-one command hc) refl,
)

-- With no P10 uplink, a NOTICE with no parameter, in any case, from a source that is neither a
-- known server nor a known user, makes `parse` read through the NULL in `para[1]`, for a source
-- without a space.
pub parse-null :
    {S U : Type 0} (d : Directory S U) (source command : Bytes)
    → All (λ c. c ≢ b' ') source
    → All (λ c. c ≢ b' ') command
    → d.find_serv source ≡ none
    → d.find_user source ≡ none
    → eq_nocase command (codes "NOTICE") ≡ true
    → parse d false (b':' ∷ (source ++ (b' ' ∷ command))) ≡ null_read ∷ []
unfolding parse dispatch dispatch_found unknown_prefix
parse-null d source command hs hc no_serv no_user notice =
    rw ((read_line-bare source command hs hc).0, no_serv, no_user, notice) refl
