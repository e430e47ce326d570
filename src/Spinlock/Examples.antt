-- ===== src/Spinlock/Examples.antt =====
-- The locks of src/harlin/core/spinlock.c with two processors, and with a word behind them that is
-- not 0.
use har_lin_kernel.Base.{ℕ, ◌≡◌, ◌≢◌, refl, false, [], ◌∷◌, arith}
use har_lin_kernel.Spinlock.{
  Cell, outside, spinning, holding, System, tries, Reached, start, next, try_acquire, acquire, spin,
  init,
}
use har_lin_kernel.Spinlock.Exclusion.{mutual_exclusion, stuck_beside}

-- A cell that another use has left.
abbrev old : Cell
old = record { lock = 5; beside = 0 }

abbrev taken : System
taken = record { cell = record { lock = 1; beside = 0 }; cpus = outside ∷ holding ∷ [] }

taken-Reached : Reached 2 old taken
unfolding init try_acquire
taken-Reached = next start (tries 1 (omega arith) refl)

abbrev owner : ℕ
owner = 1

mutual_exclusion_example : owner ≡ owner
mutual_exclusion_example = mutual_exclusion owner owner taken-Reached refl refl

acquires_free :
    spin 2 spinning (record { lock = 0; beside = 0 }) ≡ (holding, record { lock = 1; beside = 0 })
unfolding spin acquire
acquires_free = refl

stuck_beside_example :
    let m : Cell = record { lock = 0; beside = 3 } in
    (try_acquire m ≡ (false, m)) × ((spin 7 spinning m).0 ≢ holding) × ((spin 7 spinning m).1 ≡ m)
stuck_beside_example = stuck_beside (record { lock = 0; beside = 3 }) 7 (λ e. omega (arith, e))
