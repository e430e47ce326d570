-- ===== src/Ipc/Examples.antt =====
-- The theorems about ipc.c at small queues and semaphores.
use har_lin_kernel.Base.{
  ℕ, ◌+◌, ◌≤◌, ◌≡◌, ◌≢◌, refl, true, List, [], ◌∷◌, ◌++◌, arith, length, replicate,
}
use har_lin_kernel.Ipc.Sem.{Semaphore, asleep, wait_pass, fall_asleep, post_used}
use har_lin_kernel.Ipc.Sem.Overlap.{passes, post_between}
use har_lin_kernel.Ipc.Sem.Steps.{
  System, Reached, start, arrives, posted, waits, posts_one, count-served, blocked_awaits,
}
use har_lin_kernel.Ipc.Msg.{Message, Queue, no_queue, blank}
use har_lin_kernel.Ipc.Msg.Order.{message}
use har_lin_kernel.Ipc.Msg.Exchange.{Event, sends, receives}

-- A new semaphore at 1 and three processes, of which two go to sleep; then a post.
abbrev fresh : System
fresh = record {
  sem = record { used = true; count = 1; blocked = [] };
  ready = [];
  served = 0;
  posts = 0;
}

abbrev crowd : System
crowd = posts_one (waits 9 (waits 8 (waits 7 fresh)))

three_wait : (waits 9 (waits 8 (waits 7 fresh))).sem.count ≡ 0
unfolding har_lin_kernel.Ipc.Sem.Steps.waits har_lin_kernel.Ipc.Sem.wait_pass
three_wait = refl

crowd-Reached : Reached 1 crowd
crowd-Reached = posted (arrives 9 (arrives 8 (arrives 7 start))) (omega (arith, three_wait))

crowd_state : (crowd.sem.blocked ≡ 9 ∷ []) × (crowd.ready ≡ 8 ∷ []) × (crowd.served ≡ 1)
unfolding har_lin_kernel.Ipc.Sem.Steps.posts_one har_lin_kernel.Ipc.Sem.Steps.waits
    har_lin_kernel.Ipc.Sem.wait_pass har_lin_kernel.Ipc.Sem.post_used
crowd_state = (refl, refl, refl)

count-served_example : crowd.sem.count + crowd.served ≡ 1 + crowd.posts
count-served_example = count-served crowd-Reached

crowd_blocked : crowd.sem.blocked ≢ []
crowd_blocked = λ e. let (b, r, n) = crowd_state in absurd (ground arith)

blocked_awaits_example : crowd.sem.count ≤ length crowd.ready
blocked_awaits_example = blocked_awaits crowd-Reached crowd_blocked

-- A semaphore at 0.
abbrev drained : Semaphore
drained = record { used = true; count = 0; blocked = [] }

post_between_example :
    let (woken, after) = post_used drained in
    let (answer, entered) = fall_asleep 7 after in
    (wait_pass 7 drained ≡ fall_asleep 7 drained)
    × (woken ≡ [])
    × (answer ≡ asleep)
    × (entered.count ≡ 1)
    × ((rest : List ℕ) × ((passes (8 ∷ 9 ∷ []) entered).blocked ≡ 7 ∷ rest))
post_between_example = post_between drained 7 (8 ∷ 9 ∷ []) refl refl

-- Two messages, of types 1 and 2, and a sender that waits.
abbrev two : List Message
two = message 1 (5 ∷ []) ∷ message 2 (6 ∷ 7 ∷ []) ∷ []

abbrev mixed : Queue
mixed = record no_queue {
  used = true;
  messages = two ++ replicate 14 blank;
  count = 2;
  senders = 4 ∷ [];
}

abbrev events : List Event
events = receives 3 ∷ sends 4 1 (9 ∷ []) ∷ receives 3 ∷ []
