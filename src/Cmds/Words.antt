-- ===== src/Cmds/Words.antt =====
-- How a text becomes a command and its words, and what `HandleClientCmds` makes of too many.
use omega_services.Prelude.{
  ◌≡◌, refl, ℕ, ◌&&◌, Bool, false, Option, none, some, List, [], ◌∷◌, ◌++◌, Bytes, All, length, leb,
  has_char, spaced, if◌then◌else◌, arith,
}
use omega_services.Access.{Account}
use omega_services.Network.{◌>>=◌}
use omega_services.Cmds.{CmdTable, HelpTable, cut_words, do_cmd, handle_client_cmds, starts, report}

abbrev pub IsWord : Bytes → Type 0
IsWord w = has_char w b' ' ≡ false

cut_words-spaced :
    (w : Bytes) (ws : List Bytes) → IsWord w → All IsWord ws → cut_words (w ++ spaced ws) ≡ (w, ws)
unfolding cut_words has_char
cut_words-spaced [] [] h hs = refl
cut_words-spaced [] (w ∷ ws) h hs = rw (cut_words-spaced w ws hs.0 hs.1)
cut_words-spaced (c ∷ w) ws h hs = ground (arith, cut_words-spaced w ws)

-- A user's line of a command and words, none of them with a space in it, is run by `do_cmd` with just
-- those words, if 16 elements and as many as there are words can be written from the start of `params`
-- on; else the code writes where it must not. As `params` has 15 elements, this is so for every line
-- unless the compiler leaves a gap behind it. This is for a line that does not start with a 1 byte,
-- to a client that `find_user` finds and that is no channel.
pub handle_client_cmds-spaced :
    (room : ℕ) (verbose : Bool) (t : CmdTable) (ht : HelpTable) (find_user : Bytes → Option Bytes)
    (u : Account) (target nick cmd : Bytes) (ws : List Bytes)
    → IsWord cmd
    → All IsWord ws
    → starts b'#' target ≡ false
    → starts 1 (cmd ++ spaced ws) ≡ false
    → find_user target ≡ some nick
    → handle_client_cmds room verbose t ht find_user u target (some (cmd ++ spaced ws)) ≡ (
        if leb 16 room && leb (length ws) room
        then (do_cmd verbose t ht cmd nick u ws >>= report)
        else none)
unfolding handle_client_cmds
handle_client_cmds-spaced room verbose t ht find_user u target nick cmd ws hc hw ch ctcp found =
    rw (ch, ctcp, found, cut_words-spaced cmd ws hc hw) (ground arith)
