-- ===== src/Wait.antt =====
-- Exit codes for processes that wait: src/harlin/proc/wait.c. Process numbers and exit codes are
-- only stored and compared here; they are the 32-bit words of the `int`s.
pub mod Codes
pub mod Loops
pub mod Calls
mod Examples
use har_lin_kernel.Base.{
  ℕ, zero, suc, Bool, true, false, not, ◌&&◌, Option, none, some, List, [], ◌∷◌, ◌==◌,
  if◌then◌else◌, replicate,
}

abbrev pub exit_count : ℕ
exit_count = 64

-- `struct wait_exit`
pub record Exit : Type 0 where
  pub used : Bool
  pub child : ℕ
  pub code : ℕ
  pub reaped : Bool

abbrev pub no_exit : Exit
no_exit = record { used = false; child = 0; code = 0; reaped = false }

-- The table, and whether it was set up.
pub record State : Type 0 where
  pub inited : Bool
  pub exits : List Exit

-- `Harlin_WaitInit`
pub init : State → State
init s = if s.inited then s else record { inited = true; exits = replicate exit_count no_exit }

-- The entry that stands for process `pid`.
abbrev pub stands_for : ℕ → Exit → Bool
stands_for pid e = e.used && e.child == pid

-- An entry in front of the rest of the table, which a loop has changed or gone through.
abbrev pub behind {ℓ} : {A : Type ℓ} → Exit → Option (A × List Exit) → Option (A × List Exit)
behind e none = none
behind e (some (a, rest)) = some (a, e ∷ rest)

-- What a loop returns that has nothing to return but the table.
pub data Done : Type 0 where
  done : Done

-- The first loop of `Harlin_NotifyExit`.
pub renew : ℕ → ℕ → List Exit → Option (Done × List Exit)
renew pid code [] = none
renew pid code (e ∷ rest) =
    let later = renew pid code rest in
    if stands_for pid e then some (done, record e { code = code } ∷ rest) else behind e later

-- Its second loop.
pub enter : ℕ → ℕ → List Exit → Option (Done × List Exit)
enter pid code [] = none
enter pid code (e ∷ rest) =
    let later = enter pid code rest in
    if e.used
    then behind e later
    else some (done, record { used = true; child = pid; code = code; reaped = false } ∷ rest)

-- The state with a new table.
abbrev pub with_exits : State → List Exit → State
with_exits s exits = record s { exits = exits }

notify_enter : Option (Done × List Exit) → State → Bool × State
notify_enter none s = (false, s)
notify_enter (some (_, exits)) s = (true, with_exits s exits)

notify_renew : Option (Done × List Exit) → ℕ → ℕ → State → Bool × State
notify_renew none pid code s = notify_enter (enter pid code s.exits) s
notify_renew (some (_, exits)) pid code s = (true, with_exits s exits)

-- `Harlin_NotifyExit`: whether it succeeds, and the state.
pub notify_exit : ℕ → ℕ → State → Bool × State
unfolding notify_renew notify_enter
notify_exit pid code s = let s' = init s in notify_renew (renew pid code s'.exits) pid code s'

-- The entry after its code was read.
abbrev pub reap : Exit → Exit
reap e = if e.reaped then e else record e { used = false; reaped = true }

-- The loop of `Harlin_Wait`.
pub collect : ℕ → List Exit → Option (ℕ × List Exit)
collect pid [] = none
collect pid (e ∷ rest) =
    let later = collect pid rest in
    if stands_for pid e then some (e.code, reap e ∷ rest) else behind e later

wait_found : Option (ℕ × List Exit) → State → Option ℕ × State
wait_found none s = (none, s)
wait_found (some (code, exits)) s = (some code, with_exits s exits)

-- `Harlin_Wait`: the code, with `none` for the result -2.
pub wait : ℕ → State → Option ℕ × State
unfolding wait_found
wait pid s = let s' = init s in wait_found (collect pid s'.exits) s'

-- The loop of `Harlin_WaitAny`: the process and its code.
pub collect_any : List Exit → Option ((ℕ × ℕ) × List Exit)
collect_any [] = none
collect_any (e ∷ rest) =
    let later = collect_any rest in
    if e.used && not e.reaped
    then some ((e.child, e.code), record e { used = false; reaped = true } ∷ rest)
    else behind e later

wait_any_found : Option ((ℕ × ℕ) × List Exit) → State → Option (ℕ × ℕ) × State
wait_any_found none s = (none, s)
wait_any_found (some (r, exits)) s = (some r, with_exits s exits)

-- `Harlin_WaitAny`
pub wait_any : State → Option (ℕ × ℕ) × State
unfolding wait_any_found
wait_any s = let s' = init s in wait_any_found (collect_any s'.exits) s'
