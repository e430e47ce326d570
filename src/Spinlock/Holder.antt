-- ===== src/Spinlock/Holder.antt =====
-- The number of processors that hold a lock of src/harlin/core/spinlock.c.
use har_lin_kernel.Base.{
  ℕ, zero, suc, ◌+◌, ◌<◌, ◌≤◌, ◌≡◌, ◌≢◌, refl, ap, List, [], ◌∷◌, arith, get_or, set, replicate,
  length,
}
use har_lin_kernel.Spinlock.{Stage, outside, spinning, attempting, holding}

abbrev pub one : Stage → ℕ
one outside = 0
one spinning = 0
one attempting = 0
one holding = 1

abbrev pub holders : List Stage → ℕ
holders [] = 0
holders (s ∷ ss) = one s + holders ss

pub holders-replicate : (n : ℕ) → holders (replicate n outside) ≡ 0
holders-replicate zero = refl
holders-replicate (suc n) = omega (arith, holders-replicate n)

-- A processor that is not in the list stands outside, and a write for it does nothing.
pub holders-set :
    (ss : List Stage) (c : ℕ) (s : Stage)
    → c < length ss
    → holders (set ss c s) + one (get_or ss c outside) ≡ holders ss + one s
holders-set [] c s h = absurd (omega (arith, h))
holders-set (t ∷ ss) zero s h = omega arith
holders-set (t ∷ ss) (suc c) s h = omega (arith, holders-set ss c s (omega (arith, h)))

pub one-holders : (ss : List Stage) (c : ℕ) → one (get_or ss c outside) ≤ holders ss
one-holders [] c = omega arith
one-holders (t ∷ ss) zero = omega arith
one-holders (t ∷ ss) (suc c) = omega (arith, one-holders ss c)

pub two-holders :
    (ss : List Stage) (c d : ℕ)
    → c ≢ d
    → one (get_or ss c outside) + one (get_or ss d outside) ≤ holders ss
two-holders [] c d h = omega arith
two-holders (t ∷ ss) zero zero h = absurd (h refl)
two-holders (t ∷ ss) zero (suc d) h = omega (arith, one-holders ss d)
two-holders (t ∷ ss) (suc c) zero h = omega (arith, one-holders ss c)
two-holders (t ∷ ss) (suc c) (suc d) h = omega (arith, two-holders ss c d (λ e. h (ap suc e)))
