-- ===== src/Notify/Examples.antt =====
-- The test of signal.c, and its theorems at concrete tables.
use har_lin_kernel.Base.{ℕ, ◌≡◌, refl, not, ◌&&◌, ◌||◌, arith, ◌==◌, pos, some, [], ◌∷◌}
use har_lin_kernel.Notify.{
  Table, init, failed, send, send_at, pop, pop_at, mask, unmask, pump, deliverable,
}
use har_lin_kernel.Notify.View.{pends, blocks, IsValid, init-IsValid}
use har_lin_kernel.Notify.Change.{send_lem, mask_lem, unmask_lem}
use har_lin_kernel.Notify.Pump.{Pumped, ready_from, pump_lem}
use har_lin_kernel.Notify.Run.{send_to, pop_from, call, run, run-IsValid}

-- Two user events for task 1, as in `Harlin_NotifyTest`.
abbrev two_sent : Table
two_sent = run init (send_to (pos 1) (pos 12) ∷ send_to (pos 1) (pos 10) ∷ [])

-- Event 0 and event 12 for task 1.
abbrev zero_sent : Table
zero_sent = run init (send_to (pos 1) (pos 0) ∷ send_to (pos 1) (pos 12) ∷ [])

two_sent-IsValid : IsValid two_sent
two_sent-IsValid =
    run-IsValid init (send_to (pos 1) (pos 12) ∷ send_to (pos 1) (pos 10) ∷ []) init-IsValid

zero_sent-IsValid : IsValid zero_sent
zero_sent-IsValid =
    run-IsValid init (send_to (pos 1) (pos 0) ∷ send_to (pos 1) (pos 12) ∷ []) init-IsValid

pop_takes_lowest : (pop two_sent (pos 1)).0 ≡ pos 10
unfolding pop pop_at deliverable run call send send_at init
pop_takes_lowest = refl

killed_is_blocked : (pop (send init (pos 1) (pos 9)).1 (pos 1)).0 ≡ failed
unfolding pop pop_at deliverable send init
killed_is_blocked = refl

send_lem_example :
    let (r, t') = send init (pos 1) (pos 10) in
    (r ≡ pos 0)
    × IsValid t'
    × ((q j : ℕ) → pends t' q j ≡ (pends init q j || (1 == q && 10 == j)))
    × (t'.blocked ≡ init.blocked)
send_lem_example = send_lem init 1 10 init-IsValid (omega arith) (omega arith)

mask_lem_example :
    let (r, t') = mask init (pos 1) (pos 10) in
    (r ≡ pos 0)
    × IsValid t'
    × ((q j : ℕ) → blocks t' q j ≡ (blocks init q j || (1 == q && 10 == j)))
    × (t'.pending ≡ init.pending)
mask_lem_example = mask_lem init 1 10 init-IsValid (omega arith) (omega arith)

unmask_lem_example :
    let (r, t') = unmask init (pos 1) (pos 9) in
    (r ≡ pos 0)
    × IsValid t'
    × ((q j : ℕ) → blocks t' q j ≡ (blocks init q j && not (1 == q && 9 == j)))
    × (t'.pending ≡ init.pending)
unmask_lem_example = unmask_lem init 1 8 init-IsValid (omega arith) (omega arith)

pump_lem_example :
    (t' : Table) × (pump two_sent (pos 1) ≡ some (ready_from 31 1 two_sent 1, t'))
    × Pumped two_sent 1 t'
unfolding run call send send_at init
pump_lem_example = pump_lem two_sent 1 two_sent-IsValid (omega arith) refl

run-IsValid_example : IsValid (run init (send_to (pos 40) (pos 3) ∷ pop_from (pos 2) ∷ []))
run-IsValid_example =
    run-IsValid init (send_to (pos 40) (pos 3) ∷ pop_from (pos 2) ∷ []) init-IsValid

-- Task 2 blocks event 0.
abbrev zero_blocked : Table
zero_blocked = (mask init (pos 2) (pos 0)).1

zero_blocked-IsValid : IsValid zero_blocked
zero_blocked-IsValid = (mask_lem init 2 0 init-IsValid (omega arith) (omega arith)).1
