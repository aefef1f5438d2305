-- ===== src/Samples/Dispatch.antt =====
-- Tables of commands.
use omega_services.Prelude.{[]}
use omega_services.Commands.{ServCmdTable, UserCmdTable}

abbrev no_serv_cmds : ServCmdTable
no_serv_cmds i = []

abbrev no_user_cmds : UserCmdTable
no_user_cmds i = []
