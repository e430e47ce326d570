-- ===== src/Pipe/Waiters.antt =====
-- The processes that wait for a pipe: `pipe_add_waiter`, `pipe_wake_some` and the wake-ups of
-- `pipe_close` in src/harlin/proc/pipe.c, as a queue of processes.
use har_lin_kernel.Base.{
  ℕ, zero, suc, ◌+◌, ◌≤◌, ◌≡◌, ◌≢◌, refl, ap, sym, ◌∙◌, ◌↔◌, ◌-◌, false, List, [], ◌∷◌, ◌++◌, arith,
  ◌==◌, length, length-append, replicate, Option, some, none,
}
use mathlib.Core.Path.{ap₂}
use mathlib.Core.List.{append_assoc, append-nil}
use har_lin_kernel.Pipe.{add_waiter, wake_some, waiting, wait_max}

-- None of the processes is process 0, whose number marks a free slot.
pub data NoZero : List ℕ → Type 0 where
  nil : NoZero []
  cons : {p : ℕ} {ps : List ℕ} → p ≢ 0 → NoZero ps → NoZero (p ∷ ps)

-- The slots with the processes `ps` in front and `m` free ones behind.
abbrev pub slots : List ℕ → ℕ → List ℕ
slots ps m = ps ++ replicate m 0

add_waiter-slots :
    {ps : List ℕ} (v : NoZero ps) (m i count pid : ℕ)
    → i + length ps ≤ count
    → count ≤ i + length ps + 1
    → add_waiter (slots ps (suc m)) i count pid
      ≡ some (ps ++ (pid ∷ replicate m 0), i + length ps + 1)
unfolding add_waiter
add_waiter-slots nil m i count pid h k = ground arith
add_waiter-slots (cons {p} {ps} n v) m i count pid h k =
    let ih = add_waiter-slots v m (i + 1) count pid (omega arith) (omega arith) in
    let taken : (p == 0) ≡ false = ground arith in
    let sum : i + 1 + length ps + 1 ≡ i + suc (length ps) + 1 = omega arith in
    rw (taken, ih, sum) refl

add_waiter-full : {ps : List ℕ} (v : NoZero ps) (i count pid : ℕ) → add_waiter ps i count pid ≡ none
unfolding add_waiter
add_waiter-full nil i count pid = refl
add_waiter-full (cons {p} {ps} n v) i count pid =
    let taken : (p == 0) ≡ false = ground arith in
    rw (taken, add_waiter-full v (i + 1) count pid) refl

wake_some-slots :
    (ps : List ℕ) (m : ℕ)
    → wake_some (slots ps m) (length ps) ≡ (ps, slots (replicate (length ps) 0) m)
unfolding wake_some
wake_some-slots [] m = refl
wake_some-slots (p ∷ ps) m = rw (wake_some-slots ps m) refl

waiting-slots : {ps : List ℕ} (v : NoZero ps) (m : ℕ) → waiting (slots ps m) (length ps) ≡ ps
unfolding waiting
waiting-slots nil m = refl
waiting-slots (cons {p} n v) m =
    let taken : (p == 0) ≡ false = ground arith in rw taken (ap (λ t. p ∷ t) (waiting-slots v m))

-- The next call, on what the last one left.
abbrev pub and_then : Option (List ℕ × ℕ) → (List ℕ → ℕ → Option (List ℕ × ℕ)) → Option (List ℕ × ℕ)
and_then none call = none
and_then (some r) call = call r.0 r.1

-- The processes call `pipe_add_waiter` one after the other.
abbrev pub add_all : List ℕ → List ℕ → ℕ → Option (List ℕ × ℕ)
add_all [] waits count = some (waits, count)
add_all (pid ∷ pids) waits count = and_then (add_waiter waits 0 count pid) (add_all pids)

NoZero-snoc : {ps : List ℕ} {p : ℕ} → NoZero ps → p ≢ 0 → NoZero (ps ++ (p ∷ []))
NoZero-snoc nil h = cons h nil
NoZero-snoc (cons n v) h = cons n (NoZero-snoc v h)

add_all-slots :
    {pids : List ℕ} (v : NoZero pids) {ps : List ℕ} (w : NoZero ps) (m : ℕ)
    → add_all pids (slots ps (length pids + m)) (length ps)
      ≡ some (slots (ps ++ pids) m, length (ps ++ pids))
add_all-slots nil {ps} w m = let sum : 0 + m ≡ m = omega arith in rw (sum, append-nil ps) refl
add_all-slots (cons {p} {ps = pids} n v) {ps} w m =
    let sum : suc (length pids) + m ≡ suc (length pids + m) = omega arith in
    let here = add_waiter-slots w (length pids + m) 0 (length ps) p (omega arith) (omega arith) in
    let count : length (ps ++ (p ∷ [])) ≡ 0 + length ps + 1 =
      omega (arith, length-append ps (p ∷ [])) in
    let ih = add_all-slots v (NoZero-snoc w n) m in
    rw (sum, here)
      (ap₂ (add_all pids) (sym (append_assoc ps (p ∷ []) (replicate (length pids + m) 0)))
          (sym count)
        ∙ ih
        ∙ ap (λ t. some (slots t m, length t)) (append_assoc ps (p ∷ []) pids))

replicate-append : (n m : ℕ) → slots (replicate n 0) m ≡ replicate (n + m) 0
replicate-append zero m = let sum : 0 + m ≡ m = omega arith in rw sum refl
replicate-append (suc n) m =
    let sum : suc n + m ≡ suc (n + m) = omega arith in rw (sum, replicate-append n m) refl

-- There is no place exactly when no slot is free.
add_waiter-none :
    {ps : List ℕ} (v : NoZero ps) (m pid : ℕ)
    → (add_waiter (slots ps m) 0 (length ps) pid ≡ none) ↔ (m ≡ 0)
add_waiter-none {ps} v zero pid =
    (λ e. refl, λ e. rw (append-nil ps) (add_waiter-full v 0 (length ps) pid))
add_waiter-none {ps} v (suc m) pid =
    let found = add_waiter-slots v m 0 (length ps) pid (omega arith) (omega arith) in
    (λ e. absurd (cc), λ e. absurd (omega arith))

-- The slots for the processes that wait at one end of a pipe are a queue of 32 places: from empty
-- slots on, processes of which none is process 0 and that are at most 32 are all entered by
-- `pipe_add_waiter`. On the slots that this leaves, `pipe_wake_some` returns exactly these
-- processes, in the order in which they came, and frees all slots; the loop of `pipe_close` returns
-- the same ones. One process more finds no place when there are 32, and only then. This is about
-- the slots alone, not about the lock under which the functions run.
pub waiters_fifo :
    {pids : List ℕ}
    → NoZero pids
    → (pid : ℕ) → length pids ≤ wait_max
    → (r : List ℕ × ℕ) × (add_all pids (replicate wait_max 0) 0 ≡ some r)
      × (wake_some r.0 r.1 ≡ (pids, replicate wait_max 0))
      × (waiting r.0 r.1 ≡ pids)
      × ((add_waiter r.0 0 r.1 pid ≡ none) ↔ (length pids ≡ wait_max))
waiters_fifo {pids} v pid h =
    let m : ℕ = wait_max - length pids in
    let room : length pids + m ≡ wait_max = omega arith in
    let entered = add_all-slots v nil m in
    let woken = wake_some-slots pids m ∙ ap (λ t. (pids, t)) (replicate-append (length pids) m) in
    let last = add_waiter-none v m pid in
    (
      (slots pids m, length pids),
      rw room at entered,
      rw room at woken,
      waiting-slots v m,
      (λ e. omega (arith, last.0 e), λ e. last.1 (omega arith)),
    )

-- Process 0 as a waiter leaves no trace: behind any queue of other processes with a slot free, its
-- call of `pipe_add_waiter` succeeds but leaves all slots as they were, and the next process that
-- waits gets the very slots and count that it would have got without it.
pub process_zero_lost :
    {pids : List ℕ}
    → NoZero pids
    → (m pid : ℕ)
    → (add_waiter (slots pids (suc m)) 0 (length pids) 0
        ≡ some (slots pids (suc m), length pids + 1))
      × (add_waiter (slots pids (suc m)) 0 (length pids + 1) pid
          ≡ add_waiter (slots pids (suc m)) 0 (length pids) pid)
process_zero_lost {pids} v m pid =
    let plus_one : 0 + length pids + 1 ≡ length pids + 1 = omega arith in
    (
      add_waiter-slots v m 0 (length pids) 0 (omega arith) (omega arith)
          ∙ ap (λ n. some (slots pids (suc m), n)) plus_one,
      add_waiter-slots v m 0 (length pids + 1) pid (omega arith) (omega arith)
          ∙ sym (add_waiter-slots v m 0 (length pids) pid (omega arith) (omega arith)),
    )
