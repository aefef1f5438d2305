-- ===== src/Commands.antt =====
-- The tables of commands in src/eventhandler.c: 1024 lists each for the commands of servers and of
-- users, selected by the hash of the name. A handler is named by its address; what is modelled of a
-- command that comes in is the list of handlers that are called, in order. A handler that itself
-- adds or deletes commands is outside this model.
pub mod Calls
use omega_services.Prelude.{
  ℕ, zero, suc, Bool, true, false, Option, List, [], ◌∷◌, ◌++◌, Bytes, eq_nocase, ◌==◌,
  if◌then◌else◌,
}
use omega_services.Events.{Handler}
use omega_services.Tools.Hash.{hash_safe}

abbrev pub table_size : ℕ
table_size = 1024

-- `struct servcmd_`; `strcpy` fills `name[40]`, which a longer name overruns.
pub record ServCmd : Type 0 where
  pub name : Bytes
  pub fnct : Handler

-- `struct usercmd_`: it has no name; `active` is never read.
pub record UserCmd : Type 0 where
  pub routine : Handler

abbrev pub ServCmdTable : Type 0
ServCmdTable = ℕ → List ServCmd

abbrev pub UserCmdTable : Type 0
UserCmdTable = ℕ → List UserCmd

abbrev pub put_list {ℓ} : {A : Type ℓ} → (ℕ → List A) → ℕ → List A → ℕ → List A
put_list t i b j = if i == j then b else t j

-- `AddServCmd`
unfoldable pub add_serv_cmd : Bytes → Handler → ServCmdTable → ServCmdTable
add_serv_cmd cmd fnct t =
    let index = hash_safe cmd table_size in
    put_list t index (t index ++ record { name = cmd; fnct = fnct } ∷ [])

-- The loop of `HandleServCmd`: every entry of that name, up to case.
unfoldable pub serv_calls : Bytes → List ServCmd → List Handler
serv_calls command [] = []
serv_calls command (c ∷ cs) =
    let rest = serv_calls command cs in if eq_nocase c.name command then c.fnct ∷ rest else rest

-- `HandleServCmd`
unfoldable pub handle_serv_cmd : Bytes → ServCmdTable → List Handler
unfolding serv_calls
handle_serv_cmd command t = serv_calls command (t (hash_safe command table_size))

-- The loop of `DelServCmd`: the first entry of the list with that function goes, whatever its name.
unfoldable pub del_serv_in : Handler → List ServCmd → List ServCmd
del_serv_in fnct [] = []
del_serv_in fnct (c ∷ cs) = if c.fnct == fnct then cs else c ∷ del_serv_in fnct cs

-- `DelServCmd`
unfoldable pub del_serv_cmd : Bytes → Handler → ServCmdTable → ServCmdTable
unfolding del_serv_in
del_serv_cmd cmd fnct t =
    let index = hash_safe cmd table_size in put_list t index (del_serv_in fnct (t index))

-- `AddUserCmd`
unfoldable pub add_user_cmd : Bytes → Handler → UserCmdTable → UserCmdTable
add_user_cmd cmd fnct t =
    let index = hash_safe cmd table_size in
    put_list t index (t index ++ record { routine = fnct } ∷ [])

-- The loop of `DelUserCmd`.
unfoldable pub del_user_in : Handler → List UserCmd → List UserCmd
del_user_in fnct [] = []
del_user_in fnct (c ∷ cs) = if c.routine == fnct then cs else c ∷ del_user_in fnct cs

-- `DelUserCmd`
unfoldable pub del_user_cmd : Bytes → Handler → UserCmdTable → UserCmdTable
unfolding del_user_in
del_user_cmd cmd fnct t =
    let index = hash_safe cmd table_size in put_list t index (del_user_in fnct (t index))

-- The loop of `HandleUserCmd`: every entry of the list.
unfoldable pub user_calls : List UserCmd → List Handler
user_calls [] = []
user_calls (c ∷ cs) = c.routine ∷ user_calls cs

-- `HandleUserCmd` for a user that is there: nothing if `arc` is 0.
unfoldable pub handle_user_cmd : Bytes → ℕ → UserCmdTable → List Handler
unfolding user_calls
handle_user_cmd command arc t =
    let calls = user_calls (t (hash_safe command table_size)) in if arc == 0 then [] else calls
