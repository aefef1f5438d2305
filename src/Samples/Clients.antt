-- ===== src/Samples/Clients.antt =====
-- Commands of users to a client of the services.
use omega_services.Prelude.{
  ◌≡◌, refl, eq_nocase, has_char, spaced, ℕ, true, false, some, none, Option, List, [], ◌∷◌, ◌++◌,
  Bytes, codes, inl, All,
}
use omega_services.Access.{Account, set_access}
use omega_services.Tools.Hash.{hash_safe}
use omega_services.Network.{◌>>=◌}
use omega_services.Cmds.{
  CmdBase, CmdTable, HelpTable, Effect, add_cmd, do_cmd, handle_client_cmds, report,
}
use omega_services.Cmds.Words.{handle_client_cmds-spaced}
use omega_services.Cmds.Table.{Built, Built-IsCounted, SlotIsCounted}
use omega_services.Cmds.Runs.{do_cmd-set_access, NoRun}

abbrev blank : CmdBase
blank = record { name = []; access = []; log = false; fnct = none; ext_help = none }

abbrev guest : Account
guest = record {
  nick = codes "Guest";
  user = codes "me";
  host = codes "example.org";
  ip = codes "192.0.2.7";
  oper = false;
  service = false;
  access = codes "uso";
  metadata = [];
}

abbrev no_help : HelpTable
no_help i = []

abbrev one_command : CmdTable
one_command =
    (add_cmd blank (codes "Omega") (codes "KILL") (some (codes "s")) (some 7) none (λ i. none)).1

abbrev directory : Bytes → Option Bytes
directory target = some (codes "Omega")

Built-IsCounted_example : SlotIsCounted (one_command (hash_safe (codes "Omega") 1024))
Built-IsCounted_example =
    Built-IsCounted
      (Built.added Built.start blank (codes "Omega") (codes "KILL") (some (codes "s")) (some 7)
        none)
      (hash_safe (codes "Omega") 1024)

handle_client_cmds-spaced_example :
    handle_client_cmds 16 false one_command no_help directory guest
      (codes "Omega")
      (some (codes "KILL" ++ spaced (codes "a" ∷ codes "b" ∷ [])))
    ≡ (do_cmd false one_command no_help
          (codes "KILL")
          (codes "Omega")
          guest
          (codes "a" ∷ codes "b" ∷ [])
        >>= report)
unfolding has_char
handle_client_cmds-spaced_example =
    handle_client_cmds-spaced 16 false one_command no_help directory guest (codes "Omega")
      (codes "Omega") (codes "KILL") (codes "a" ∷ codes "b" ∷ []) refl (refl, (refl, tt)) refl refl
      refl

do_cmd-set_access_example :
    (rc : ℕ) × (es : List Effect) × (do_cmd false one_command no_help
        (codes "kill")
        (codes "Omega")
        (set_access true [] guest).0
        []
      ≡ some (rc, es))
    × All NoRun es
unfolding eq_nocase add_cmd hash_safe
do_cmd-set_access_example =
    do_cmd-set_access true [] guest refl (inl refl) false one_command no_help (codes "kill")
      (codes "Omega") [] refl (refl, tt)
