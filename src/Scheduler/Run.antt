-- ===== src/Scheduler/Run.antt =====
-- What happens to the scheduler of src/harlin/proc/scheduler.c, in any order and on any CPU. A
-- process is made current by `process_set_current`, which does not check it and which nothing in
-- the kernel calls, only on the CPU that it belongs to. The creation of processes is left out.
use har_lin_kernel.Base.{ℕ, ◌≡◌, none, some, ℤ, length, get_or, index}
use har_lin_kernel.Scheduler.{
  Sched, Context, init, current_cpu_id, schedule, dispatch, tick, add_ready, sleep, block_current,
  wake, try_run_user, max_processes, process_set_current,
}
use har_lin_kernel.Scheduler.Affinity.{IsValid, Home, Keeps-IsValid, one_cpu}
use har_lin_kernel.Scheduler.Steps.{
  current_cpu_id-lt, schedule-IsValid, dispatch-IsValid, Keeps-tick, Keeps-add_ready, sleep-IsValid,
  block_current-IsValid, Keeps-wake, try_run_user-IsValid, init-IsValid,
  process_set_current-IsValid,
}
use har_lin_kernel.Scheduler.Timer.{Frame, timer_handler}
use har_lin_kernel.Scheduler.Timer.OneCpu.{timer_handler-IsValid}
use har_lin_kernel.Scheduler.Life.{Kernel, exit, fork, register_handle, unregister_handle}
use har_lin_kernel.Scheduler.Life.OneCpu.{
  exit-IsValid, fork-IsValid, register_handle-IsValid, unregister_handle-IsValid,
}

-- One call. `c` is what `smp_current_cpu_id` returns on the CPU that makes it.
pub data Step : Sched → Sched → Type 0 where
  timer :
      {s : Sched} (c : ℤ) (frame : Frame) (fs : ℕ)
      → Step s (timer_handler (current_cpu_id c) frame fs s).sched
  schedules : {s : Sched} (c : ℤ) (ctx : Context) → Step s (schedule (current_cpu_id c) ctx s).1
  dispatches : {s : Sched} (c : ℤ) → Step s (dispatch (current_cpu_id c) s).1
  runs_user : {s : Sched} (c : ℤ) → Step s (try_run_user (current_cpu_id c) s).1
  sleeps :
      {s : Sched} (c : ℤ) (ctx : Context) (ms : ℕ) → Step s (sleep (current_cpu_id c) ctx ms s).1
  blocks : {s : Sched} (c : ℤ) (ctx : Context) → Step s (block_current (current_cpu_id c) ctx s).1
  wakes : {s : Sched} (pid : ℤ) → Step s (wake pid s)
  adds_ready : {s : Sched} (pid : ℤ) → Step s (add_ready pid s)
  makes_current :
      {s : Sched} (c pid : ℤ)
      → ((i : ℕ) → index max_processes pid ≡ some i → Home s (current_cpu_id c) i)
      → Step s (process_set_current (current_cpu_id c) pid s)
  ticks_once : {s : Sched} → Step s (tick s)
  registers :
      {s : Sched} (c : ℤ) (kind : ℕ) (id : ℤ)
      → Step s (register_handle (current_cpu_id c) kind id s).1
  unregisters : {s : Sched} (c : ℤ) (id : ℤ) → Step s (unregister_handle (current_cpu_id c) id s)
  forks : {s : Sched} (pid : ℤ) → Step s (fork pid s).1
  exits :
      {s : Sched} (c : ℤ) (ctx : Context) (k : Kernel)
      → k.sched ≡ s
      → Step s (exit (current_cpu_id c) ctx k).2.sched

pub data Reached (s : Sched) : Sched → Type 0 where
  start : Reached s (init s)
  next : {t u : Sched} → Reached s t → Step t u → Reached s u

Step-IsValid : {s t : Sched} → Step s t → IsValid s → IsValid t
Step-IsValid (timer c frame fs) v = timer_handler-IsValid _ frame fs _ (current_cpu_id-lt c) v
Step-IsValid (schedules c ctx) v = schedule-IsValid _ ctx _ (current_cpu_id-lt c) v
Step-IsValid (dispatches c) v = dispatch-IsValid _ _ (current_cpu_id-lt c) v
Step-IsValid (runs_user c) v = try_run_user-IsValid _ _ (current_cpu_id-lt c) v
Step-IsValid (sleeps c ctx ms) v = sleep-IsValid _ ctx ms _ (current_cpu_id-lt c) v
Step-IsValid (blocks c ctx) v = block_current-IsValid _ ctx _ (current_cpu_id-lt c) v
Step-IsValid (wakes pid) v = Keeps-IsValid (Keeps-wake pid _) v
Step-IsValid (adds_ready pid) v = Keeps-IsValid (Keeps-add_ready pid _) v
Step-IsValid (makes_current c pid h) v =
    process_set_current-IsValid _ pid _ (current_cpu_id-lt c) h v
Step-IsValid ticks_once v = Keeps-IsValid (Keeps-tick _) v
Step-IsValid (registers c kind id) v = register_handle-IsValid _ kind id _ v
Step-IsValid (unregisters c id) v = unregister_handle-IsValid _ id _ v
Step-IsValid (forks pid) v = fork-IsValid pid _ v
Step-IsValid (exits c ctx k e) v = exit-IsValid _ ctx k (current_cpu_id-lt c) (rw e v)

pub Reached-IsValid : {s t : Sched} → length s.processes ≡ max_processes → Reached s t → IsValid t
Reached-IsValid h start = init-IsValid _ h
Reached-IsValid h (next r st) = Step-IsValid st (Reached-IsValid h r)

-- From `scheduler_init` on, after any sequence of timer interrupts, calls of `schedule`,
-- `scheduler_tick`, `scheduler_add_ready`, `scheduler_sleep`, `process_block_current`,
-- `process_wake`, `process_exit` and `Harlin_Fork`, first starts of user processes, entries and
-- removals of handles, and calls of `process_set_current` with no process or with a process in use
-- on the CPU whose number it bears, on whichever CPUs and each being one step, no process runs on
-- two CPUs.
pub no_process_twice :
    {s t : Sched} (c d i : ℕ)
    → length s.processes ≡ max_processes
    → Reached s t
    → get_or t.current c none ≡ some i
    → get_or t.current d none ≡ some i
    → c ≡ d
no_process_twice {t} c d i h r e f = one_cpu t c d i (Reached-IsValid h r) e f
