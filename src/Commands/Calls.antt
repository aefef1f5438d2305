-- ===== src/Commands/Calls.antt =====
-- Which handlers a command calls after handlers were added and deleted.
use omega_services.Prelude.{
  ℕ, ◌≡◌, ◌≢◌, refl, sym, ap, true, false, List, [], ◌∷◌, ◌++◌, append-nil, Bytes, eq_nocase, ◌==◌,
  if◌then◌else◌, arith, All, Bool-cases, inl, inr,
}
use omega_services.Events.{Handler}
use omega_services.Tools.Hash.{hash_safe, hash_safe-bucket}
use omega_services.Commands.{
  ServCmd, UserCmd, ServCmdTable, UserCmdTable, table_size, put_list, add_serv_cmd, serv_calls,
  handle_serv_cmd, del_serv_in, del_serv_cmd, add_user_cmd, user_calls, handle_user_cmd,
}

serv_calls-append :
    (command : Bytes) (cs : List ServCmd) (c : ServCmd)
    → serv_calls command (cs ++ c ∷ [])
      ≡ serv_calls command cs ++ (if eq_nocase c.name command then c.fnct ∷ [] else [])
unfolding serv_calls
serv_calls-append command [] c = ground arith
serv_calls-append command (d ∷ cs) c = rw (serv_calls-append command cs c) (ground arith)

serv_calls-put :
    (command : Bytes) (t : ServCmdTable) (c : ServCmd) (x y : ℕ)
    → (eq_nocase c.name command ≡ true → x ≡ y)
    → serv_calls command (if x == y then t x ++ c ∷ [] else t y)
      ≡ serv_calls command (t y) ++ (if eq_nocase c.name command then c.fnct ∷ [] else [])
serv_calls-put command t c x y same_list = elim (Bool-cases (x == y)) [
  | inl e ↦ (let is_y : x ≡ y = ground arith in rw (e, is_y) (serv_calls-append command (t y) c))
  | inr e ↦
      (let differ : eq_nocase c.name command ≡ false = ground arith in
        rw (e, differ) (sym (append-nil (serv_calls command (t y)))))
]

user_calls-append :
    (cs : List UserCmd) (c : UserCmd) → user_calls (cs ++ c ∷ []) ≡ user_calls cs ++ c.routine ∷ []
unfolding user_calls
user_calls-append [] c = refl
user_calls-append (d ∷ cs) c = ap (λ (l : List Handler). d.routine ∷ l) (user_calls-append cs c)

user_calls-put :
    (t : UserCmdTable) (c : UserCmd) (x y : ℕ)
    → user_calls (if x == y then t x ++ c ∷ [] else t y)
      ≡ user_calls (t y) ++ (if x == y then c.routine ∷ [] else [])
user_calls-put t c x y = elim (Bool-cases (x == y)) [
  | inl e ↦ (let is_y : x ≡ y = ground arith in rw (e, is_y) (user_calls-append (t y) c))
  | inr e ↦ rw e (sym (append-nil (user_calls (t y))))
]

del_serv_in-append :
    (fnct : Handler) (cs : List ServCmd) (c : ServCmd)
    → All (λ d. (d.fnct == fnct) ≡ false) cs
    → (c.fnct == fnct) ≡ true
    → del_serv_in fnct (cs ++ c ∷ []) ≡ cs
unfolding del_serv_in
del_serv_in-append fnct [] c new mine = rw mine refl
del_serv_in-append fnct (d ∷ cs) c new mine =
    rw new.0 (ap (λ (l : List ServCmd). d ∷ l) (del_serv_in-append fnct cs c new.1 mine))

del_serv_in-put :
    (t : ServCmdTable) (c : ServCmd) (x i : ℕ)
    → All (λ d. (d.fnct == c.fnct) ≡ false) (t x)
    → put_list
        (put_list t x (t x ++ c ∷ []))
        x
        (del_serv_in c.fnct (put_list t x (t x ++ c ∷ []) x))
        i
      ≡ t i
del_serv_in-put t c x i new =
    let own : (x == x) ≡ true = ground arith in
    let back = del_serv_in-append c.fnct (t x) c new (ground arith) in rw own (ground (arith, back))

-- After `AddServCmd` a command of a server calls the handlers that it called before, and the new one
-- behind them exactly if the command has the new name, up to case.
pub handle_serv_cmd-add_serv_cmd :
    (cmd command : Bytes) (fnct : Handler) (t : ServCmdTable)
    → handle_serv_cmd command (add_serv_cmd cmd fnct t)
      ≡ handle_serv_cmd command t ++ (if eq_nocase cmd command then fnct ∷ [] else [])
unfolding handle_serv_cmd add_serv_cmd
handle_serv_cmd-add_serv_cmd cmd command fnct t =
    serv_calls-put command t (record { name = cmd; fnct = fnct }) (hash_safe cmd table_size)
      (hash_safe command table_size)
      (λ e. (hash_safe-bucket cmd command table_size (omega arith) e).0)

-- After `AddUserCmd` a command of a user, with an argument count that is not 0, calls, besides
-- the handlers that it called before, the new one exactly if its name has the hash of the new
-- name: also for another name that falls into the same list.
pub handle_user_cmd-add_user_cmd :
    (cmd command : Bytes) (fnct : Handler) (arc : ℕ) (t : UserCmdTable)
    → arc ≢ 0
    → handle_user_cmd command arc (add_user_cmd cmd fnct t)
      ≡ handle_user_cmd command arc t
        ++ (if hash_safe cmd table_size == hash_safe command table_size then fnct ∷ [] else [])
unfolding handle_user_cmd add_user_cmd
handle_user_cmd-add_user_cmd cmd command fnct arc t given =
    let some_args : (arc == 0) ≡ false = ground arith in
    rw some_args (
      user_calls-put t (record { routine = fnct }) (hash_safe cmd table_size)
        (hash_safe command table_size))

-- `DelServCmd` right after `AddServCmd` gives the table back, if no entry of the list had the
-- function before.
pub del_serv_cmd-add_serv_cmd :
    (cmd : Bytes) (fnct : Handler) (t : ServCmdTable) (i : ℕ)
    → All (λ c. (c.fnct == fnct) ≡ false) (t (hash_safe cmd table_size))
    → del_serv_cmd cmd fnct (add_serv_cmd cmd fnct t) i ≡ t i
unfolding del_serv_cmd add_serv_cmd
del_serv_cmd-add_serv_cmd cmd fnct t i new =
    del_serv_in-put t (record { name = cmd; fnct = fnct }) (hash_safe cmd table_size) i new
