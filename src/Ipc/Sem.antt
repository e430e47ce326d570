-- ===== src/Ipc/Sem.antt =====
-- Semaphores: the `Harlin_Sem...` functions of src/harlin/proc/ipc.c. The array `blocked_procs` up
-- to `num_blocked` is a list. A process that goes to sleep in `Harlin_SemWait` gets the answer
-- `asleep`; when it is woken it makes another pass of the loop, `wait_pass`.
pub mod Steps
pub mod Overlap
use har_lin_kernel.Base.{
  ℕ, zero, suc, ◌+◌, ◌-◌, Bool, true, false, not, ◌||◌, Option, none, some, List, [], ◌∷◌, ◌++◌,
  leb, ◌==◌, if◌then◌else◌, length, get_or, set, replicate, ℤ, pos, negsuc, index,
}

abbrev pub sem_count : ℕ
sem_count = 16

-- The places of `blocked_procs`.
abbrev pub blocked_max : ℕ
blocked_max = 16

-- `struct ipc_semaphore`. Its `count` is an int; a post at 2 ^ 31 - 1, which overflows, is left
-- out.
pub record Semaphore : Type 0 where
  pub used : Bool
  pub count : ℕ
  pub blocked : List ℕ

abbrev pub no_semaphore : Semaphore
no_semaphore = record { used = false; count = 0; blocked = [] }

-- `find_free_sem`, with slot `i` first in the rest of the table.
pub find_free : List Semaphore → ℕ → Option ℕ
find_free [] i = none
find_free (s ∷ rest) i = let later = find_free rest (i + 1) in if s.used then later else some i

-- The count for an `initial` value.
abbrev pub start_count : ℤ → ℕ
start_count (pos n) = n
start_count (negsuc n) = 0

create_at : Option ℕ → ℕ → List Semaphore → ℤ × List Semaphore
create_at none n table = (negsuc 0, table)
create_at (some i) n table = (pos i, set table i (record { used = true; count = n; blocked = [] }))

-- `Harlin_SemCreate`
pub create : ℤ → List Semaphore → ℤ × List Semaphore
unfolding create_at find_free
create initial table = create_at (find_free table 0) (start_count initial) table

-- How a pass of a waiting loop ends: with an error, with what the process waits for, or asleep.
pub data Pass : Type 0 where
  refused : Pass
  passed : Pass
  asleep : Pass

-- What `Harlin_SemWait` does once it has found the count at 0.
abbrev pub fall_asleep : ℕ → Semaphore → Pass × Semaphore
fall_asleep pid s =
    if leb blocked_max (length s.blocked)
    then (refused, s)
    else (asleep, record s { blocked = s.blocked ++ (pid ∷ []) })

-- One pass of the loop of `Harlin_SemWait`, up to the next sleep, that nothing interrupts.
unfoldable pub wait_pass : ℕ → Semaphore → Pass × Semaphore
wait_pass pid s =
    if s.count == 0 then fall_asleep pid s else (passed, record s { count = s.count - 1 })

-- The semaphore that a number names, if it is in use.
abbrev pub in_use : ℤ → List Semaphore → Option ℕ
in_use sid table = elim (index sem_count sid) [
  | none ↦ none
  | some i ↦ if (get_or table i no_semaphore).used then some i else none
]

wait_at : Option ℕ → ℕ → List Semaphore → Pass × List Semaphore
wait_at none pid table = (refused, table)
wait_at (some i) pid table =
    let (p, s) = wait_pass pid (get_or table i no_semaphore) in (p, set table i s)

-- `Harlin_SemWait`, up to the first sleep.
pub wait : ℤ → ℕ → List Semaphore → Pass × List Semaphore
unfolding wait_at wait_pass
wait sid pid table = wait_at (in_use sid table) pid table

-- The process woken, if one is blocked, and the processes that stay blocked.
abbrev pub wake_first : List ℕ → List ℕ × List ℕ
wake_first [] = ([], [])
wake_first (pid ∷ rest) = (pid ∷ [], rest)

-- What `Harlin_SemPost` does to a semaphore: the processes woken, and the semaphore.
unfoldable pub post_used : Semaphore → List ℕ × Semaphore
post_used s =
    let (woken, rest) = wake_first s.blocked in
    (woken, record s { count = s.count + 1; blocked = rest })

post_at : Option ℕ → List Semaphore → ℤ × List ℕ × List Semaphore
post_at none table = (negsuc 0, [], table)
post_at (some i) table =
    let (woken, s) = post_used (get_or table i no_semaphore) in (pos 0, woken, set table i s)

-- `Harlin_SemPost`: its result, the processes that it wakes, and the table.
pub post : ℤ → List Semaphore → ℤ × List ℕ × List Semaphore
unfolding post_at post_used
post sid table = post_at (in_use sid table) table

-- What `Harlin_SemDestroy` does to a semaphore.
pub destroy_used : Semaphore → List ℕ × Semaphore
destroy_used s = (s.blocked, record s { used = false })

destroy_at : Option ℕ → List Semaphore → ℤ × List ℕ × List Semaphore
destroy_at none table = (negsuc 0, [], table)
destroy_at (some i) table =
    let (woken, s) = destroy_used (get_or table i no_semaphore) in (pos 0, woken, set table i s)

-- `Harlin_SemDestroy`
pub destroy : ℤ → List Semaphore → ℤ × List ℕ × List Semaphore
unfolding destroy_at destroy_used
destroy sid table = destroy_at (in_use sid table) table
