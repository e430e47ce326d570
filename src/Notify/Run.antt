-- ===== src/Notify/Run.antt =====
-- Sequences of calls of signal.c, by any tasks and with any arguments.
use har_lin_kernel.Base.{
  ℕ, zero, suc, ◌<◌, ◌≡◌, refl, true, false, ◌⊎◌, arith, ap, ℤ, pos, negsuc, index, inl, inr, none,
  List, [], ◌∷◌,
}
use native.Mathlib.Decide.{dec_lt}
use har_lin_kernel.Notify.Pump.{blocked-clear}
use har_lin_kernel.Notify.{Table, max_tasks, send, pop, mask, unmask}
use har_lin_kernel.Notify.View.{blocks, IsValid}
use har_lin_kernel.Notify.Change.{send_lem, mask_lem, unmask_lem}
use har_lin_kernel.Notify.Pop.{ready, pop_lem}
use har_lin_kernel.Notify.Change.{clear_lem}

-- A call, with its arguments.
pub data Call : Type 0 where
  send_to : ℤ → ℤ → Call
  pop_from : ℤ → Call
  mask_for : ℤ → ℤ → Call
  unmask_for : ℤ → ℤ → Call

unfoldable pub call : Table → Call → Table
call t (send_to pid what) = (send t pid what).1
call t (pop_from pid) = (pop t pid).1
call t (mask_for pid what) = (mask t pid what).1
call t (unmask_for pid what) = (unmask t pid what).1

unfoldable pub run : Table → List Call → Table
run t [] = t
run t (c ∷ cs) = run (call t c) cs

-- An argument that passes its guard is a number below the bound; any other makes the call fail.
index_cases : (n : ℕ) (z : ℤ) → (index n z ≡ none) ⊎ ((i : ℕ) × (z ≡ pos i) × (i < n))
index_cases n (pos i) = elim (dec_lt i n) [ yes h ↦ inr (i, refl, h) | no h ↦ inl (ground arith) ]
index_cases n (negsuc i) = inl refl

-- Both arguments are in range, or one is not.
abbrev Inside : ℤ → ℤ → Type 0
Inside pid what = (p : ℕ) × (w : ℕ) × (pid ≡ pos p) × (what ≡ pos w) × (p < 32) × (w < 32)

args_cases :
    (pid what : ℤ) → ((index max_tasks pid ≡ none) ⊎ (index 32 what ≡ none)) ⊎ Inside pid what
args_cases pid what = elim (index_cases max_tasks pid) [
  | inl out ↦ inl (inl out)
  | inr (p, e, h) ↦ elim (index_cases 32 what) [
    | inl out ↦ inl (inr out)
    | inr (w, e', h') ↦ inr (p, w, e, e', h, h')
  ]
]

send_outside :
    (t : Table) (pid what : ℤ)
    → (index max_tasks pid ≡ none) ⊎ (index 32 what ≡ none)
    → (send t pid what).1 ≡ t
unfolding send
send_outside t pid what h = ground arith

mask_outside :
    (t : Table) (pid what : ℤ)
    → (index max_tasks pid ≡ none) ⊎ (index 32 what ≡ none)
    → (mask t pid what).1 ≡ t
unfolding mask
mask_outside t pid what h = ground arith

unmask_outside :
    (t : Table) (pid what : ℤ)
    → (index max_tasks pid ≡ none) ⊎ (index 32 what ≡ none)
    → (unmask t pid what).1 ≡ t
unfolding unmask
unmask_outside t pid what h = ground arith

unmask-zero : (t : Table) (pid : ℤ) → (unmask t pid (pos 0)).1 ≡ t
unfolding unmask
unmask-zero t pid = ground arith

pop_outside : (t : Table) (pid : ℤ) → index max_tasks pid ≡ none → (pop t pid).1 ≡ t
unfolding pop
pop_outside t pid h = rw h refl

-- What every call keeps, for one task `q`: the shape of the tables, and a block of event 0.
record Keeps (q : ℕ) (t t' : Table) : Type 0 where
  valid : IsValid t'
  blocked : blocks t q 0 ≡ true → blocks t' q 0 ≡ true

Keeps-same : (q : ℕ) {t t' : Table} → IsValid t → t' ≡ t → Keeps q t t'
Keeps-same q {t} v e = rw e (record { valid = v; blocked = λ b. b })

send-Keeps : (q : ℕ) (t : Table) (pid what : ℤ) → IsValid t → Keeps q t (send t pid what).1
send-Keeps q t pid what v = elim (args_cases pid what) [
  | inl out ↦ Keeps-same q v (send_outside t pid what out)
  | inr (p, w, e, e', h, h') ↦
      rw (e, e')
        (let done = send_lem t p w v h h' in record { valid = done.1; blocked = λ b. rw done.3 b })
]

mask-Keeps : (q : ℕ) (t : Table) (pid what : ℤ) → IsValid t → Keeps q t (mask t pid what).1
mask-Keeps q t pid what v = elim (args_cases pid what) [
  | inl out ↦ Keeps-same q v (mask_outside t pid what out)
  | inr (p, w, e, e', h, h') ↦
      rw (e, e')
        (let done = mask_lem t p w v h h' in
          record { valid = done.1; blocked = λ b. ground (arith, done.2 q 0) })
]

unmask_inside :
    (q : ℕ) (t : Table) (p w : ℕ)
    → IsValid t
    → p < 32
    → w < 32
    → Keeps q t (unmask t (pos p) (pos w)).1
unmask_inside q t p zero v h h' = Keeps-same q v (unmask-zero t (pos p))
unmask_inside q t p (suc w) v h h' =
    let done = unmask_lem t p w v h h' in
    record { valid = done.1; blocked = λ b. ground (arith, done.2 q 0) }

unmask-Keeps : (q : ℕ) (t : Table) (pid what : ℤ) → IsValid t → Keeps q t (unmask t pid what).1
unmask-Keeps q t pid what v = elim (args_cases pid what) [
  | inl out ↦ Keeps-same q v (unmask_outside t pid what out)
  | inr (p, w, e, e', h, h') ↦ rw (e, e') (unmask_inside q t p w v h h')
]

pop_inside : (q : ℕ) (t : Table) (p : ℕ) → IsValid t → p < 32 → Keeps q t (pop t (pos p)).1
pop_inside q t p v h = elim (pop_lem t p v h) [
  | inl idle ↦ Keeps-same q v (ap (λ r. r.1) idle.1)
  | inr (w, popped) ↦ rw (popped.result) (record {
    valid = (clear_lem t p w v h popped.below).0;
    blocked = λ b. rw (blocked-clear t p w) b;
  })
]

pop-Keeps : (q : ℕ) (t : Table) (pid : ℤ) → IsValid t → Keeps q t (pop t pid).1
pop-Keeps q t pid v = elim (index_cases max_tasks pid) [
  | inl out ↦ Keeps-same q v (pop_outside t pid out)
  | inr (p, e, h) ↦ rw e (pop_inside q t p v h)
]

call-Keeps : (q : ℕ) (t : Table) (c : Call) → IsValid t → Keeps q t (call t c)
unfolding call
call-Keeps q t (send_to pid what) v = send-Keeps q t pid what v
call-Keeps q t (pop_from pid) v = pop-Keeps q t pid v
call-Keeps q t (mask_for pid what) v = mask-Keeps q t pid what v
call-Keeps q t (unmask_for pid what) v = unmask-Keeps q t pid what v

run-Keeps : (q : ℕ) (t : Table) (cs : List Call) → IsValid t → Keeps q t (run t cs)
unfolding run
run-Keeps q t [] v = record { valid = v; blocked = λ b. b }
run-Keeps q t (c ∷ cs) v =
    let one = call-Keeps q t c v in
    let more = run-Keeps q (call t c) cs one.valid in
    record { valid = more.valid; blocked = λ b. more.blocked (one.blocked b) }

-- Whatever calls are made, with arguments in range or not, tables that hold one 32-bit mask for
-- each task keep that shape.
pub run-IsValid : (t : Table) (cs : List Call) → IsValid t → IsValid (run t cs)
run-IsValid t cs v = (run-Keeps 0 t cs v).valid

-- From tables of valid shape on: once a task has blocked event 0, no sequence of calls, `unmask`
-- of event 0 included, makes event 0 deliverable to it again.
pub blocked_zero_stays :
    (t : Table) (q : ℕ) (cs : List Call)
    → IsValid t
    → blocks t q 0 ≡ true
    → ready (run t cs) q 0 ≡ false
blocked_zero_stays t q cs v b = ground (arith, (run-Keeps q t cs v).blocked b)
