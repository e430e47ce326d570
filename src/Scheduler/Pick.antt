-- ===== src/Scheduler/Pick.antt =====
-- `pick_next_process` of src/harlin/proc/scheduler.c: the process with the smallest key.
use har_lin_kernel.Base.{
  ℕ, suc, ◌+◌, ◌≤◌, ◌<◌, ◌≡◌, ap, ◌∙◌, Bool, true, false, ◌&&◌, Option, none, some, List, [], ◌∷◌,
  arith, ltb, length, get_or, Bool-cases, inl, inr,
}
use mathlib.Core.Path.{subst}
use native.Mathlib.Decide.{ℕ_discrete}
use har_lin_kernel.Scheduler.{
  Process, no_process, Sched, process, runnable, better, pick_loop, pick_next_process,
}

-- Up to the next number.
below_suc {ℓ} : {P : ℕ → Type ℓ} (n : ℕ) → ((j : ℕ) → j < n → P j) → P n → (j : ℕ) → j < suc n → P j
below_suc {P} n h here j lt = elim (ℕ_discrete n j) [
  | yes e ↦ subst P (e) here
  | no ne ↦ h j (omega arith)
]

-- Among the first `n` of the numbers that `run` allows, `best` is the first with the smallest key.
data Best (run : ℕ → Bool) (key : ℕ → ℕ) (n : ℕ) : Option (ℕ × ℕ) → Type 0 where
  none_yet : ((j : ℕ) → j < n → run j ≡ false) → Best run key n none
  best_yet :
      (i : ℕ)
      → i < n
      → run i ≡ true
      → ((j : ℕ) → j < n → run j ≡ true → key i ≤ key j)
      → ((j : ℕ) → j < i → run j ≡ true → key i < key j)
      → Best run key n (some (i, key i))

-- What `pick_next_process` returns: no process can run on the CPU, or the one that it returns can,
-- no process that can has a smaller key, and none in front of it an equal one.
pub data Picked (cpu : ℕ) (s : Sched) : Option ℕ → Type 0 where
  nobody :
      ((j : ℕ) → j < length s.processes → runnable cpu (process s j) ≡ false) → Picked cpu s none
  picked :
      (i : ℕ)
      → i < length s.processes
      → runnable cpu (process s i) ≡ true
      → ((j : ℕ)
          → j < length s.processes
          → runnable cpu (process s j) ≡ true
          → (process s i).fair_key ≤ (process s j).fair_key)
      → ((j : ℕ)
          → j < i
          → runnable cpu (process s j) ≡ true
          → (process s i).fair_key < (process s j).fair_key)
      → Picked cpu s (some i)

module _ (cpu : ℕ) (s : Sched) where
  run : ℕ → Bool
  run j = runnable cpu (process s j)

  key : ℕ → ℕ
  key j = (process s j).fair_key

  -- One round.
  better-Best :
      (n : ℕ) (best : Option (ℕ × ℕ))
      → Best run key n best
      → Best run key (suc n) (better cpu n (process s n) best)
  unfolding better run key
  better-Best n none (none_yet h) = elim (Bool-cases (runnable cpu (process s n))) [
    | inl t ↦ rw t (
        best_yet n (omega arith) t
          (below_suc n (λ j lt r. absurd (ground (arith, h j lt))) (λ r. omega arith))
          (λ j lt r. absurd (ground (arith, h j lt))))
    | inr f ↦ rw f (none_yet (below_suc n h f))
  ]
  better-Best n (some _) (best_yet i lt r least first) =
      elim (Bool-cases
        (runnable cpu (process s n) && ltb (process s n).fair_key (process s i).fair_key)) [
          | inl t ↦ rw t (
              best_yet n (omega arith) (ground arith)
                (below_suc n (λ j l h. ground (arith, least j l h)) (λ h. omega arith))
                (λ j l h. ground (arith, least j l h)))
          | inr f ↦ rw f (best_yet i (omega arith) r (below_suc n least (λ h. ground arith)) first)
        ]

  -- The rest of the loop, where `rest` is the table from process `n` on.
  pick_loop-Best :
      (rest : List Process) (n : ℕ) (best : Option (ℕ × ℕ))
      → ((k : ℕ) → get_or rest k no_process ≡ process s (n + k))
      → Best run key n best
      → Best run key (n + length rest) (pick_loop cpu rest n best)
  unfolding pick_loop
  pick_loop-Best [] n best same b = let e : n + 0 ≡ n = omega arith in rw e b
  pick_loop-Best (p ∷ rest) n best same b =
      let here : p ≡ process s n = same 0 ∙ ap (process s) (omega arith) in
      let size : n + suc (length rest) ≡ n + 1 + length rest = omega arith in
      rw (size, here)
        (pick_loop-Best rest (n + 1) _ (λ k. same (suc k) ∙ ap (process s) (omega arith))
          (let e : n + 1 ≡ suc n = omega arith in rw e (better-Best n best b)))

  Best-Picked :
      (best : Option (ℕ × ℕ))
      → Best run key (length s.processes) best
      → Picked cpu s (elim best [ none ↦ none | some (i, _) ↦ some i ])
  unfolding run key
  Best-Picked none (none_yet h) = nobody h
  Best-Picked (some _) (best_yet i lt r least first) = picked i lt r least first

-- `pick_next_process` returns the first of the processes that can run on the CPU with the smallest
-- key, or fails when no process can run there.
pub pick_next_process-Picked : (cpu : ℕ) (s : Sched) → Picked cpu s (pick_next_process cpu s)
unfolding pick_next_process
pick_next_process-Picked cpu s =
    let size : 0 + length s.processes ≡ length s.processes = omega arith in
    Best-Picked cpu s _ (
      rw size at (
        pick_loop-Best cpu s s.processes 0 none (λ k. ap (process s) (omega arith))
          (none_yet (λ j lt. absurd (omega arith)))))
