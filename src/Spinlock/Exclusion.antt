-- ===== src/Spinlock/Exclusion.antt =====
-- What the locks of src/harlin/core/spinlock.c promise, and where they fail.
use har_lin_kernel.Base.{
  ℕ, zero, suc, ◌+◌, ◌*◌, ◌^◌, ◌<◌, ◌≤◌, ◌≡◌, ◌≢◌, refl, ap, Bool, true, false, arith, ◌==◌, set,
  length, Bool-cases, inl, inr,
}
use native.Mathlib.Decide.{ℕ_discrete}
use har_lin_kernel.Spinlock.{
  Cell, Stage, outside, spinning, attempting, holding, System, Step, enters, acquires, tries,
  releases, stores, Reached, start, next, stage, got, cmpxchg, try_acquire, acquire, release, init,
  spin,
}
use har_lin_kernel.Spinlock.Holder.{
  one, holders, holders-replicate, holders-set, one-holders, two-holders,
}

-- The word of the lock counts the processors that hold it.
pub record IsValid (s : System) : Type 0 where
  pub counted : holders s.cpus ≡ s.cell.lock
  pub at_most_one : s.cell.lock ≤ 1

-- `atomic_cmpxchg` on a lock: it writes where both words are 0.
data Swapped (m : Cell) : Bool × Cell → Type 0 where
  swapped : (m' : Cell) → m.lock ≡ 0 → m.beside ≡ 0 → m'.lock ≡ 1 → Swapped m (true, m')
  kept : Swapped m (false, m)

cmpxchg-Swapped : (m : Cell) → Swapped m (cmpxchg 0 1 m)
unfolding cmpxchg
cmpxchg-Swapped m = elim (Bool-cases (m.lock + m.beside * 2 ^ 32 == 0)) [
  | inl e ↦ rw e (swapped _ (ground (arith, e)) (ground (arith, e)) refl)
  | inr e ↦ rw e kept
]

-- What a processor in state `s` may leave.
record Fair (s : Stage) (m : Cell) (r : Stage × Cell) : Type 0 where
  balance : one r.0 + m.lock ≡ one s + r.1.lock
  bound : m.lock ≤ 1 → r.1.lock ≤ 1

swap-Fair :
    (s t : Stage) (m : Cell) (r : Bool × Cell)
    → one s ≡ 0
    → one t ≡ 0
    → Swapped m r
    → Fair s m (got r.0 t, r.1)
swap-Fair s t m _ y z (swapped m' e f g) = record {
  balance = omega (arith, y, e, g);
  bound = λ h. omega (arith, g);
}
swap-Fair s t m _ y z kept = record { balance = omega (arith, y, z); bound = λ h. h }

acquire-Fair : (s : Stage) (m : Cell) → Fair s m (acquire s m)
unfolding acquire
acquire-Fair outside m = record { balance = refl; bound = λ h. h }
acquire-Fair spinning m = elim (Bool-cases (m.lock == 0)) [
  | inl e ↦ rw e (record { balance = refl; bound = λ h. h })
  | inr e ↦ rw e (record { balance = refl; bound = λ h. h })
]
acquire-Fair attempting m = swap-Fair attempting spinning m _ refl refl (cmpxchg-Swapped m)
acquire-Fair holding m = record { balance = refl; bound = λ h. h }

Fair-IsValid :
    (s : System) (c : ℕ) (r : Stage × Cell)
    → c < length s.cpus
    → IsValid s
    → Fair (stage s c) s.cell r
    → IsValid (record { cell = r.1; cpus = set s.cpus c r.0 })
Fair-IsValid s c r h v f = record {
  counted = omega (arith, v.counted, f.balance, holders-set s.cpus c r.0 h);
  at_most_one = f.bound v.at_most_one;
}

Step-IsValid : {s t : System} → Step s t → IsValid s → IsValid t
unfolding release try_acquire
Step-IsValid {s} (enters c h e) v =
    Fair-IsValid s c (spinning, s.cell) h v
      (record { balance = omega (arith, ap one e); bound = λ k. k })
Step-IsValid {s} (acquires c h) v = Fair-IsValid s c _ h v (acquire-Fair (stage s c) s.cell)
Step-IsValid {s} (tries c h e) v =
    Fair-IsValid s c _ h v
      (swap-Fair (stage s c) outside s.cell _ (ap one e) refl (cmpxchg-Swapped s.cell))
Step-IsValid {s} (releases c h e) v =
    Fair-IsValid s c (outside, release s.cell) h v
      (record {
        balance = omega (arith, ap one e, v.counted, v.at_most_one, one-holders s.cpus c);
        bound = λ k. omega arith;
      })
Step-IsValid (stores x) v = record { counted = v.counted; at_most_one = v.at_most_one }

Reached-IsValid : {n : ℕ} {m : Cell} {s : System} → Reached n m s → IsValid s
unfolding init
Reached-IsValid {n} start = record { counted = holders-replicate n; at_most_one = omega arith }
Reached-IsValid (next r t) = Step-IsValid t (Reached-IsValid r)

-- Whatever the steps of `n` processors and the stores to the word behind the lock, as long as only
-- a processor that holds the lock releases it, from `spinlock_init` on no two processors hold it.
pub mutual_exclusion :
    {n : ℕ} {m : Cell} {s : System} (c d : ℕ)
    → Reached n m s
    → stage s c ≡ holding
    → stage s d ≡ holding
    → c ≡ d
mutual_exclusion {s = s} c d r e f = elim (ℕ_discrete c d) [
  | yes same ↦ same
  | no differ ↦
      (let v = Reached-IsValid r in
        absurd (
          omega
            (arith, two-holders s.cpus c d differ, ap one e, ap one f, v.counted, v.at_most_one)))
]

cmpxchg-beside : (m : Cell) → m.beside ≢ 0 → cmpxchg 0 1 m ≡ (false, m)
unfolding cmpxchg
cmpxchg-beside m h =
    let differ : (m.lock + m.beside * 2 ^ 32 == 0) ≡ false = ground (arith, h) in rw differ refl

-- In one of the loops of `spinlock_acquire`.
data Waits : Stage → Type 0 where
  inner : Waits spinning
  outer : Waits attempting

Waits-holding : {s : Stage} → Waits s → s ≢ holding
Waits-holding inner e = omega (arith, ap one e)
Waits-holding outer e = omega (arith, ap one e)

spin-Waits :
    (m : Cell) (rounds : ℕ) {s : Stage}
    → m.beside ≢ 0
    → Waits s
    → Waits (spin rounds s m).0 × ((spin rounds s m).1 ≡ m)
unfolding spin acquire
spin-Waits m zero h w = (w, refl)
spin-Waits m (suc rounds) h inner = elim (Bool-cases (m.lock == 0)) [
  | inl e ↦ rw (spin, e) (spin-Waits m rounds h outer)
  | inr e ↦ rw (spin, e) (spin-Waits m rounds h inner)
]
spin-Waits m (suc rounds) h outer = rw (spin, cmpxchg-beside m h) (spin-Waits m rounds h inner)

-- As long as the word behind a free lock is not 0, `spinlock_try_acquire` fails, and
-- `spinlock_acquire` never ends: after any number of its steps the processor does not hold the
-- lock, and the memory is unchanged.
pub stuck_beside :
    (m : Cell) (rounds : ℕ)
    → m.beside ≢ 0
    → (try_acquire m ≡ (false, m))
      × ((spin rounds spinning m).0 ≢ holding)
      × ((spin rounds spinning m).1 ≡ m)
unfolding try_acquire
stuck_beside m rounds h =
    let (waits, same) = spin-Waits m rounds h inner in
    (cmpxchg-beside m h, Waits-holding waits, same)
