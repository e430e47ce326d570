-- ===== src/Ipc/Sem/Overlap.antt =====
-- A post between the two halves of a wait: `Harlin_SemWait` of src/harlin/proc/ipc.c takes no lock.
use har_lin_kernel.Base.{
  ℕ, ◌≡◌, refl, ap, List, [], ◌∷◌, ◌++◌, leb, ◌==◌, length, Bool-cases, inl, inr,
}
use har_lin_kernel.Ipc.Sem.{Semaphore, asleep, fall_asleep, wait_pass, post_used, blocked_max}

-- Passes of `Harlin_SemWait` by these processes.
pub passes : List ℕ → Semaphore → Semaphore
passes [] s = s
passes (pid ∷ pids) s = passes pids (wait_pass pid s).1

pass-keeps :
    (pid other : ℕ) (rest : List ℕ) (s : Semaphore)
    → s.blocked ≡ pid ∷ rest
    → (rest' : List ℕ) × ((wait_pass other s).1.blocked ≡ pid ∷ rest')
unfolding wait_pass
pass-keeps pid other rest s e = elim (Bool-cases (s.count == 0)) [
  | inl z ↦ elim (Bool-cases (leb blocked_max (length s.blocked))) [
    | inl full ↦ (rest, rw (z, full) e)
    | inr room ↦ (rest ++ (other ∷ []), rw (z, room) (ap (λ xs. xs ++ (other ∷ [])) e))
  ]
  | inr some_left ↦ (rest, rw some_left e)
]

passes-keep :
    (pid : ℕ) (others rest : List ℕ) (s : Semaphore)
    → s.blocked ≡ pid ∷ rest
    → (rest' : List ℕ) × ((passes others s).blocked ≡ pid ∷ rest')
unfolding passes
passes-keep pid [] rest s e = (rest, e)
passes-keep pid (other ∷ others) rest s e =
    let (rest', f) = pass-keeps pid other rest s e in
    passes-keep pid others rest' (wait_pass other s).1 f

-- A process finds the count of a semaphore at 0, with nobody blocked, and so is about to fall
-- asleep. When a post comes before it has entered the blocked processes, that post wakes nobody;
-- the process still falls asleep, with the count at 1, and stays blocked through any passes of
-- other waits.
pub post_between :
    (s : Semaphore) (pid : ℕ) (others : List ℕ)
    → s.count ≡ 0
    → s.blocked ≡ []
    → let (woken, posted) = post_used s in
      let (answer, entered) = fall_asleep pid posted in
      (wait_pass pid s ≡ fall_asleep pid s)
      × (woken ≡ [])
      × (answer ≡ asleep)
      × (entered.count ≡ 1)
      × ((rest : List ℕ) × ((passes others entered).blocked ≡ pid ∷ rest))
unfolding wait_pass post_used
post_between s pid others z e =
    let entered : Semaphore = record { used = s.used; count = 1; blocked = pid ∷ [] } in
    rw (z, e) (refl, refl, refl, refl, passes-keep pid others [] entered refl)
