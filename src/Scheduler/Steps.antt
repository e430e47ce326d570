-- ===== src/Scheduler/Steps.antt =====
-- The functions of src/harlin/proc/scheduler.c but `timer_handler`, in the states where a process
-- runs on one CPU at most.
use har_lin_kernel.Base.{
  ℕ, ◌+◌, ◌%◌, ◌^◌, ◌<◌, ◌≡◌, refl, ◌∙◌, true, Option, none, some, arith, length, get_or,
  Bool-cases, inl, inr, get_or-replicate, ℤ, pos, negsuc, index, Option-cases,
}
use har_lin_kernel.Scheduler.{
  Process, no_process, Sched, Context, process, runnable, is_running, run_on, max_processes,
  max_cpus, init, reset, current_cpu_id, leave_process, leave, dispatch_to, dispatch, schedule,
  tick_process, tick, add_ready_at, add_ready, stop_at, sleep, block_current, wake_process, wake_at,
  wake, try_run_next, try_run_from, try_run_user, save_context, put_back, set_ready, put_to_sleep,
  set_blocked, process_set_current,
}
use har_lin_kernel.Scheduler.Pick.{Picked, picked, pick_next_process-Picked}
use har_lin_kernel.Scheduler.Affinity.{
  IsValid, Keeps, Respects, Keeps-IsValid, Keeps-refl, Keeps-trans, Keeps-change, Keeps-map,
  Keeps-clear, length-map, run_on-IsValid, Home, set_current-IsValid,
}

pub current_cpu_id-lt : (c : ℤ) → current_cpu_id c < max_cpus
unfolding current_cpu_id
current_cpu_id-lt (pos n) = ground arith
current_cpu_id-lt (negsuc n) = omega arith

pub picked_runs-IsValid :
    (cpu next : ℕ) (s : Sched)
    → cpu < max_cpus
    → IsValid s
    → next < length s.processes
    → runnable cpu (process s next) ≡ true
    → IsValid (run_on cpu next s)
picked_runs-IsValid cpu next s c v lt r = run_on-IsValid cpu next s c (omega (arith, v.size)) r v

-- A CPU makes a process current that is at home there, or none.
pub process_set_current-IsValid :
    (cpu : ℕ) (pid : ℤ) (s : Sched)
    → cpu < max_cpus
    → ((i : ℕ) → index max_processes pid ≡ some i → Home s cpu i)
    → IsValid s
    → IsValid (process_set_current cpu pid s)
unfolding process_set_current
process_set_current-IsValid cpu pid s c h v = elim (Option-cases (index max_processes pid)) [
  | inl e ↦ rw e (Keeps-IsValid (Keeps-clear cpu s) v)
  | inr (i, e) ↦ rw e (set_current-IsValid cpu i s c (h i e) v)
]

Keeps-leave_process : (prev : ℕ) (c : Context) (s : Sched) → Keeps s (leave_process prev c s)
unfolding leave_process
Keeps-leave_process prev c s = elim (Bool-cases (is_running (process s prev).state)) [
  | inl r ↦
      rw r (Keeps-change prev (put_back c) s (record { cpu = λ p. refl; stays = λ p h. refl }))
  | inr n ↦ rw n (Keeps-refl s)
]

Keeps-leave : (cpu : ℕ) (c : Context) (s : Sched) → Keeps s (leave cpu c s)
unfolding leave
Keeps-leave cpu c s = elim (Option-cases (get_or s.current cpu none)) [
  | inl e ↦ rw e (Keeps-clear cpu s)
  | inr (prev, e) ↦
      rw e (Keeps-trans (Keeps-leave_process prev c s) (Keeps-clear cpu (leave_process prev c s)))
]

dispatch_to-IsValid :
    (cpu : ℕ) (o : Option ℕ) (s : Sched)
    → cpu < max_cpus
    → Picked cpu s o
    → IsValid s
    → IsValid (dispatch_to cpu o s).1
unfolding dispatch_to
dispatch_to-IsValid cpu none s c _ v = v
dispatch_to-IsValid cpu (some i) s c (picked _ lt r least first) v =
    picked_runs-IsValid cpu i s c v lt r

pub dispatch-IsValid :
    (cpu : ℕ) (s : Sched) → cpu < max_cpus → IsValid s → IsValid (dispatch cpu s).1
unfolding dispatch
dispatch-IsValid cpu s c v = dispatch_to-IsValid cpu _ s c (pick_next_process-Picked cpu s) v

pub schedule-IsValid :
    (cpu : ℕ) (c : Context) (s : Sched) → cpu < max_cpus → IsValid s → IsValid (schedule cpu c s).1
unfolding schedule
schedule-IsValid cpu c s lt v =
    dispatch-IsValid cpu (leave cpu c s) lt (Keeps-IsValid (Keeps-leave cpu c s) v)

tick_process-Respects : (now : ℕ) → Respects (tick_process now)
unfolding tick_process
tick_process-Respects now = record { cpu = λ p. ground arith; stays = λ p h. ground arith }

pub tick_process-absent : (now : ℕ) → tick_process now no_process ≡ no_process
unfolding tick_process
tick_process-absent now = refl

pub Keeps-tick : (s : Sched) → Keeps s (tick s)
unfolding tick
Keeps-tick s =
    let now : ℕ = (s.tick_count + 1) % 2 ^ 32 in
    Keeps-map (tick_process now) now s (tick_process-absent now) (tick_process-Respects now)

pub Keeps-add_ready : (pid : ℤ) (s : Sched) → Keeps s (add_ready pid s)
unfolding add_ready add_ready_at
Keeps-add_ready pid s = elim (Option-cases (index max_processes pid)) [
  | inl e ↦ rw e (Keeps-refl s)
  | inr (i, e) ↦ rw e (Keeps-change i set_ready s (record { cpu = λ p. refl; stays = λ p h. refl }))
]

wake_process-Respects : Respects wake_process
unfolding wake_process
wake_process-Respects = record { cpu = λ p. ground arith; stays = λ p h. ground arith }

pub Keeps-wake : (pid : ℤ) (s : Sched) → Keeps s (wake pid s)
unfolding wake wake_at
Keeps-wake pid s = elim (Option-cases (index max_processes pid)) [
  | inl e ↦ rw e (Keeps-refl s)
  | inr (i, e) ↦ rw e (Keeps-change i _ s wake_process-Respects)
]

stop_at-IsValid :
    (cpu : ℕ) (o : Option ℕ) (c : Context) (f : Process → Process) (s : Sched)
    → cpu < max_cpus
    → Respects f
    → IsValid s
    → IsValid (stop_at cpu o c f s).1
unfolding stop_at
stop_at-IsValid cpu none c f s lt r v = v
stop_at-IsValid cpu (some cp) c f s lt r v = schedule-IsValid cpu c _ lt (
    Keeps-IsValid
      (Keeps-change cp (λ p. f (save_context c p)) s
        (record {
          cpu = λ p. r.cpu (save_context c p);
          stays = λ p h. r.stays (save_context c p) h;
        }))
      v)

pub sleep-IsValid :
    (cpu : ℕ) (c : Context) (ms : ℕ) (s : Sched)
    → cpu < max_cpus
    → IsValid s
    → IsValid (sleep cpu c ms s).1
unfolding sleep
sleep-IsValid cpu c ms s lt v =
    stop_at-IsValid cpu _ c (put_to_sleep ((s.tick_count + ms) % 2 ^ 32)) s lt
      (record { cpu = λ p. refl; stays = λ p h. refl }) v

pub block_current-IsValid :
    (cpu : ℕ) (c : Context) (s : Sched)
    → cpu < max_cpus
    → IsValid s
    → IsValid (block_current cpu c s).1
unfolding block_current
block_current-IsValid cpu c s lt v =
    stop_at-IsValid cpu _ c set_blocked s lt (record { cpu = λ p. refl; stays = λ p h. refl }) v

try_run_next-IsValid :
    (cpu : ℕ) (o : Option ℕ) (s : Sched)
    → cpu < max_cpus
    → Picked cpu s o
    → IsValid s
    → IsValid (try_run_next cpu o s).1
unfolding try_run_next
try_run_next-IsValid cpu none s c _ v = v
try_run_next-IsValid cpu (some i) s c (picked _ lt r least first) v =
    picked_runs-IsValid cpu i s c v lt r

try_run_from-IsValid :
    (cpu : ℕ) (o : Option ℕ) (s : Sched)
    → cpu < max_cpus
    → IsValid s
    → IsValid (try_run_from o cpu s).1
unfolding try_run_from
try_run_from-IsValid cpu none s c v =
    try_run_next-IsValid cpu _ s c (pick_next_process-Picked cpu s) v
try_run_from-IsValid cpu (some _) s c v = v

pub try_run_user-IsValid :
    (cpu : ℕ) (s : Sched) → cpu < max_cpus → IsValid s → IsValid (try_run_user cpu s).1
unfolding try_run_user
try_run_user-IsValid cpu s c v = try_run_from-IsValid cpu _ s c v

-- No CPU runs a process at the start.
pub init-IsValid : (s : Sched) → length s.processes ≡ max_processes → IsValid (init s)
unfolding init
init-IsValid s h = record {
  size = length-map reset s.processes ∙ h;
  cpus = refl;
  home = λ c i e. absurd (ground (arith, get_or-replicate {A = Option ℕ} max_cpus c none none));
}
