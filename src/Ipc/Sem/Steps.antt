-- ===== src/Ipc/Sem/Steps.antt =====
-- Several processes at one semaphore of src/harlin/proc/ipc.c. Each pass of a wait and each post
-- runs to its end before the next one starts; the code itself takes no lock for this (see Overlap).
use har_lin_kernel.Base.{
  ℕ, suc, ◌+◌, ◌-◌, ◌^◌, ◌≤◌, ◌<◌, ◌≡◌, ◌≢◌, refl, ap, true, false, List, [], ◌∷◌, ◌++◌, leb, ◌==◌,
  length, length-append, Bool-cases, inl, inr, ◌⊎◌, arith,
}
use har_lin_kernel.Ipc.Sem.{
  Semaphore, Pass, refused, passed, asleep, wait_pass, post_used, wake_first, destroy_used,
  blocked_max,
}

-- The semaphore, the processes that were woken and have not run since, how often a wait succeeded,
-- and the number of posts.
pub record System : Type 0 where
  pub sem : Semaphore
  pub ready : List ℕ
  pub served : ℕ
  pub posts : ℕ

abbrev pub is_passed : Pass → ℕ
is_passed passed = 1
is_passed refused = 0
is_passed asleep = 0

-- A pass of `Harlin_SemWait` by process `pid`.
unfoldable pub waits : ℕ → System → System
waits pid s =
    let (p, sem) = wait_pass pid s.sem in record s { sem = sem; served = s.served + is_passed p }

-- A call of `Harlin_SemPost`.
unfoldable pub posts_one : System → System
posts_one s =
    let (woken, sem) = post_used s.sem in
    record s { sem = sem; ready = s.ready ++ woken; posts = s.posts + 1 }

-- The states that are reached from a new semaphore that starts at `n`: some process calls wait,
-- some process that was woken goes on, or some process posts, which does not overflow the count.
pub data Reached (n : ℕ) : System → Type 0 where
  start : Reached n (record {
    sem = record { used = true; count = n; blocked = [] };
    ready = [];
    served = 0;
    posts = 0;
  })
  arrives : {s : System} (pid : ℕ) → Reached n s → Reached n (waits pid s)
  resumes :
      {s : System} (pid : ℕ) (before after : List ℕ)
      → Reached n s
      → s.ready ≡ before ++ (pid ∷ after)
      → Reached n (waits pid (record s { ready = before ++ after }))
  posted : {s : System} → Reached n s → s.sem.count + 1 < 2 ^ 31 → Reached n (posts_one s)

-- What holds of every state: the processes that wait are none, or those that were woken suffice to
-- use up the count.
record Sound (n : ℕ) (s : System) : Type 0 where
  balance : s.sem.count + s.served ≡ n + s.posts
  awake : (s.sem.blocked ≡ []) ⊎ (s.sem.count ≤ length s.ready)

one_less :
    {blocked : List ℕ} {count ready : ℕ}
    → (blocked ≡ []) ⊎ (count ≤ suc ready)
    → (blocked ≡ []) ⊎ (count - 1 ≤ ready)
one_less (inl e) = inl e
one_less (inr h) = inr (omega arith)

-- A wait keeps this where one process more may be ready than needed.
waits-Sound :
    (n pid : ℕ) (s : System)
    → s.sem.count + s.served ≡ n + s.posts
    → (s.sem.blocked ≡ []) ⊎ (s.sem.count ≤ suc (length s.ready))
    → Sound n (waits pid s)
unfolding waits wait_pass
waits-Sound n pid s b a = elim (Bool-cases (s.sem.count == 0)) [
  | inl z ↦ rw z (elim (Bool-cases (leb blocked_max (length s.sem.blocked))) [
    | inl full ↦ rw full (record { balance = omega arith; awake = inr (ground arith) })
    | inr room ↦ rw room (record { balance = omega arith; awake = inr (ground arith) })
  ])
  | inr some_left ↦ rw some_left (record { balance = ground arith; awake = one_less a })
]

wake_first_lem :
    (blocked : List ℕ) (count ready : ℕ)
    → (blocked ≡ []) ⊎ (count ≤ ready)
    → ((wake_first blocked).1 ≡ []) ⊎ (count + 1 ≤ ready + length (wake_first blocked).0)
wake_first_lem [] count ready h = inl refl
wake_first_lem (pid ∷ rest) count ready (inl e) = absurd (ground arith)
wake_first_lem (pid ∷ rest) count ready (inr h) = inr (omega arith)

posts_one-Sound : (n : ℕ) (s : System) → Sound n s → Sound n (posts_one s)
unfolding posts_one post_used
posts_one-Sound n s v = record {
  balance = omega (arith, v.balance);
  awake =
      rw (length-append s.ready (wake_first s.sem.blocked).0)
        (wake_first_lem s.sem.blocked s.sem.count (length s.ready) v.awake);
}

more :
    {blocked : List ℕ} {count ready ready' : ℕ}
    → (blocked ≡ []) ⊎ (count ≤ ready)
    → ready ≤ suc ready'
    → (blocked ≡ []) ⊎ (count ≤ suc ready')
more (inl e) h = inl e
more (inr a) h = inr (omega arith)

length-between :
    (before after : List ℕ) (pid : ℕ)
    → length (before ++ (pid ∷ after)) ≤ suc (length (before ++ after))
length-between before after pid =
    omega (arith, length-append before (pid ∷ after), length-append before after)

Reached-Sound : {n : ℕ} {s : System} → Reached n s → Sound n s
Reached-Sound {n} start = record { balance = omega arith; awake = inl refl }
Reached-Sound {n} (arrives {s} pid r) =
    let v = Reached-Sound r in waits-Sound n pid s v.balance (more v.awake (omega arith))
Reached-Sound {n} (resumes {s} pid before after r e) =
    let v = Reached-Sound r in
    waits-Sound n pid (record s { ready = before ++ after }) v.balance
      (more v.awake (omega (arith, ap length e, length-between before after pid)))
Reached-Sound {n} (posted {s} r _) = posts_one-Sound n s (Reached-Sound r)

-- In every state that a new semaphore with count `n` comes to by passes of waits, of new processes
-- and of those that were woken, and by posts, in any order but each run to its end before the next
-- and with no overflow of the count, the count and the waits that succeeded add up to `n` and the
-- posts.
pub count-served : {n : ℕ} {s : System} → Reached n s → s.sem.count + s.served ≡ n + s.posts
count-served r = (Reached-Sound r).balance

-- In every state that a new semaphore comes to by passes of waits and by posts, in any order but
-- each run to its end before the next and with no overflow of the count, no wake-up is lost: if a
-- process is blocked then at least as many processes as the count says were woken and have yet to
-- run.
pub blocked_awaits :
    {n : ℕ} {s : System} → Reached n s → s.sem.blocked ≢ [] → s.sem.count ≤ length s.ready
blocked_awaits r h = elim (Reached-Sound r).awake [ inl e ↦ absurd (h e) | inr a ↦ a ]

-- A process that was blocked when its semaphore was destroyed at count 0, and goes on, is not
-- told: as long as fewer than 16 processes are blocked it is put to sleep again on the semaphore
-- that is no longer in use.
pub waits_destroyed :
    (pid : ℕ) (s : Semaphore)
    → s.count ≡ 0
    → length s.blocked < blocked_max
    → ((destroy_used s).1.used ≡ false)
      × (wait_pass pid (destroy_used s).1
          ≡ (asleep, record (destroy_used s).1 { blocked = s.blocked ++ (pid ∷ []) }))
unfolding wait_pass destroy_used
waits_destroyed pid s z room =
    let room' : leb blocked_max (length s.blocked) ≡ false = ground arith in
    (refl, rw (z, room') refl)
