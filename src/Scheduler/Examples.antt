-- ===== src/Scheduler/Examples.antt =====
-- The theorems about scheduler.c at small tables.
use har_lin_kernel.Base.{
  ℕ, zero, suc, ◌+◌, ◌^◌, ◌<◌, ◌≤◌, ◌≡◌, refl, false, none, some, [], ◌∷◌, arith, ltb, ◌==◌,
  if◌then◌else◌, get_or, replicate, set, pos,
}
use har_lin_kernel.Pmm.{Pmm, is_used, page_addr}
use har_lin_kernel.Pmm.Bitmap
use har_lin_kernel.Scheduler.{
  Process, no_process, Sched, Context, ready, sleeping, process, init, dispatch, add_ready, sleep,
  pick_next_process, process_current, max_processes, max_cpus,
}
use har_lin_kernel.Scheduler.Pick.{Picked, pick_next_process-Picked}
use har_lin_kernel.Scheduler.Affinity.{IsValid}
use har_lin_kernel.Scheduler.Sleep.{ticks, ticks-sleep}
use har_lin_kernel.Scheduler.Timer.{Frame, timer_handler, charge}
use har_lin_kernel.Scheduler.Timer.Preempt.{Outcome, timer_handler-Outcome}
use har_lin_kernel.Scheduler.Timer.Charge.{is_greedy, charge_bounds}
use har_lin_kernel.Scheduler.Life.{Kernel, end_process, fork}
use har_lin_kernel.Scheduler.Life.Pages.{HasPage, has_page}
use har_lin_kernel.Scheduler.Life.Forked.{forked_exit_frees}
use har_lin_kernel.Scheduler.Run.{
  Reached, start, next, adds_ready, dispatches, no_process_twice, Reached-IsValid,
}

-- The table of a machine that was switched on.
abbrev cold : Sched
cold = record {
  processes = replicate max_processes no_process;
  current = replicate max_cpus none;
  tick_count = 0;
}

-- Processes 3 and 5 are ready, and CPU 0 looks for one.
abbrev two_ready : Sched
two_ready = add_ready (pos 5) (add_ready (pos 3) (init cold))

abbrev busy : Sched
busy = (dispatch 0 two_ready).1

two_ready-Reached : Reached cold two_ready
two_ready-Reached = next (next start (adds_ready (pos 3))) (adds_ready (pos 5))

busy-Reached : Reached cold busy
unfolding har_lin_kernel.Scheduler.current_cpu_id
busy-Reached = next two_ready-Reached (dispatches (pos 0))

runs_three : process_current 0 busy ≡ some 3
unfolding dispatch add_ready init pick_next_process
runs_three = refl

pick_next_process-Picked_example : Picked 0 two_ready (pick_next_process 0 two_ready)
pick_next_process-Picked_example = pick_next_process-Picked 0 two_ready

current_three : get_or busy.current 0 none ≡ some 3
unfolding dispatch add_ready init pick_next_process
current_three = refl

no_process_twice_example : ◌≡◌ {A = ℕ} 0 0
no_process_twice_example = no_process_twice 0 0 3 refl busy-Reached current_three current_three

busy-IsValid : IsValid busy
busy-IsValid = Reached-IsValid refl busy-Reached

abbrev interrupted : Frame
interrupted = record {
  regs = 1 ∷ 2 ∷ 3 ∷ replicate 12 0;
  word = 0;
  rip = 0x400010;
  cs = 0x2B;
  rflags = 0x202;
  rsp = 0x7FFFF000;
  ss = 0x33;
}

timer_handler-Outcome_example : Outcome 0 3 interrupted busy (timer_handler 0 interrupted 0 busy)
timer_handler-Outcome_example =
    timer_handler-Outcome 0 3 interrupted 0 busy busy-IsValid (omega arith) runs_three

abbrev context : Context
context = record { regs = replicate 15 0; rsp = 0x7FFFE000; rflags = 0x202; fs_base = 0 }

busy_time : busy.tick_count ≡ 0
unfolding dispatch add_ready init pick_next_process
busy_time = refl

-- Asleep at the fourth tick of five.
ticks-sleep_example :
    (process (ticks 4 (sleep 0 context 5 busy).1) 3).state ≡ (if ltb 4 5 then sleeping else ready)
ticks-sleep_example =
    ticks-sleep 0 3 context 5 4 busy busy-IsValid runs_three (omega arith)
      (omega (arith, busy_time)) (omega (arith, busy_time))

abbrev parent : Process
parent = record no_process {
  state = ready;
  page_count = 1;
  user_pages = page_addr 9 ∷ replicate 63 0;
  user_vaddrs = 0x400000 ∷ replicate 63 0;
}

abbrev sixteen_pages : Pmm
sixteen_pages = record {
  bitmap = 0xff ∷ 0b111 ∷ [];
  total_pages = 16;
  top_addr = page_addr 16;
  last_idx = 0;
}

sixteen_bytes : (i : ℕ) → get_or (0xff ∷ 0b111 ∷ []) i 0 < 2 ^ 8
sixteen_bytes zero = omega arith
sixteen_bytes (suc zero) = omega arith
sixteen_bytes (suc (suc i)) = omega arith

sixteen_pages-IsValid : Bitmap.IsValid sixteen_pages
sixteen_pages-IsValid = record {
  bitmap = record { size = refl; bytes = sixteen_bytes };
  some_pages = omega arith;
  few_pages = omega arith;
  last = omega arith;
}

abbrev family : Kernel
family = record {
  sched = record cold { processes = set cold.processes 3 parent };
  pipes = [];
  queues = [];
  semaphores = [];
  pmm = sixteen_pages;
}

abbrev forked : Sched
forked = (fork (pos 3) family.sched).1

fork_zero : fork (pos 3) family.sched ≡ (some 0, forked)
unfolding har_lin_kernel.Scheduler.Life.fork
fork_zero = refl

forked_exit_frees_example :
    let k' = (end_process 0 0 (record family { sched = forked })).1 in
    HasPage (process k'.sched 3) k'.pmm 0 9 × (is_used k'.pmm.bitmap 9 ≡ false)
forked_exit_frees_example =
    forked_exit_frees 0 3 0 0 9 family forked sixteen_pages-IsValid (omega arith) fork_zero
      (omega arith) refl (has_page (omega arith) refl (omega arith))

charge_bounds_example :
    (parent.fair_key ≤ (charge parent).fair_key)
    × ((charge parent).fair_key ≤ parent.fair_key + 1000000)
    × (((charge parent).fair_key == parent.fair_key) ≡ is_greedy parent.nice)
charge_bounds_example = charge_bounds parent refl (omega arith)
