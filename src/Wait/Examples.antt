-- ===== src/Wait/Examples.antt =====
-- The theorems about wait.c at a small table.
use har_lin_kernel.Base.{refl, ◌≡◌, false, none, replicate}
use har_lin_kernel.Wait.{State, no_exit, exit_count, notify_exit, wait}
use har_lin_kernel.Wait.Calls.{
  kept, IsValid, Now, wait_lem, not_inited-IsValid, notify_exit-IsValid,
}

-- Before the first call.
abbrev cold : State
cold = record { inited = false; exits = replicate exit_count no_exit }

cold-IsValid : IsValid cold
cold-IsValid = not_inited-IsValid cold refl

abbrev one_exit : State
one_exit = (notify_exit 5 7 cold).1

one_exit-IsValid : IsValid one_exit
one_exit-IsValid = notify_exit-IsValid 5 7 cold cold-IsValid

wait_lem_example :
    (let (code, s') = wait 5 one_exit in (code ≡ kept 5 one_exit) × Now 5 none one_exit s')
wait_lem_example = wait_lem 5 one_exit one_exit-IsValid
