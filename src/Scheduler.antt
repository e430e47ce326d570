-- ===== src/Scheduler.antt =====
-- The scheduler: src/harlin/proc/scheduler.c. A table of 16 processes and, for each of 8 CPUs, the
-- process that it runs. Every function here is one step, also `scheduler_sleep` and
-- `process_block_current`, which turn interrupts off only in `schedule`. Where `schedule` finds no
-- process the CPU halts, and it makes another `dispatch` after the next interrupt.
pub mod Pick
pub mod Timer
pub mod Life
pub mod Affinity
pub mod Steps
pub mod Sleep
pub mod Run
mod Examples
use har_lin_kernel.Base.{
  ℕ, zero, suc, ◌+◌, ◌-◌, ◌*◌, ◌/◌, ◌%◌, ◌^◌, Bool, true, false, not, ◌||◌, ◌&&◌, Option, none,
  some, List, [], ◌∷◌, map, ltb, leb, ◌==◌, if◌then◌else◌, get_or, set, replicate, ℤ, pos, negsuc,
  index,
}

abbrev pub max_processes : ℕ
max_processes = 16

abbrev pub max_cpus : ℕ
max_cpus = 8

abbrev pub default_time_slice : ℕ
default_time_slice = 10

abbrev pub max_pages : ℕ
max_pages = 64

abbrev pub max_handles : ℕ
max_handles = 16

-- The states `PROC_STATE_NONE` to `PROC_STATE_BLOCKED`.
pub data ProcessState : Type 0 where
  absent : ProcessState
  ready : ProcessState
  running : ProcessState
  sleeping : ProcessState
  blocked : ProcessState

-- `struct process`, but for `pid`, which is the index. `regs` are rax to r15 in the order of the
-- struct; `cpu` is `none` for -1.
pub record Process : Type 0 where
  pub regs : List ℕ
  pub rip : ℕ
  pub rsp : ℕ
  pub rflags : ℕ
  pub fs_base : ℕ
  pub state : ProcessState
  pub first_run : Bool
  pub cpu : Option ℕ
  pub priority : ℕ
  pub time_slice : ℕ
  pub sleep_until : ℕ
  pub nice : ℤ
  pub runtime_ns : ℕ
  pub fair_key : ℕ
  pub user_pages : List ℕ
  pub user_vaddrs : List ℕ
  pub page_count : ℕ
  pub next_alloc_virt : ℕ
  pub pml4_phys : ℕ
  pub kernel_stack_top : ℕ
  pub kernel_stack_base : ℕ
  pub kernel_stack_pages_phys : List ℕ
  pub kernel_stack_pages_count : ℕ
  pub handles : List ℤ
  pub handle_kinds : List ℕ
  pub handle_count : ℕ

-- A slot before its first use.
abbrev pub no_process : Process
no_process = record {
  regs = replicate 15 0;
  rip = 0;
  rsp = 0;
  rflags = 0;
  fs_base = 0;
  state = absent;
  first_run = false;
  cpu = none;
  priority = 1;
  time_slice = default_time_slice;
  sleep_until = 0;
  nice = pos 0;
  runtime_ns = 0;
  fair_key = 0;
  user_pages = replicate max_pages 0;
  user_vaddrs = replicate max_pages 0;
  page_count = 0;
  next_alloc_virt = 0;
  pml4_phys = 0;
  kernel_stack_top = 0;
  kernel_stack_base = 0;
  kernel_stack_pages_phys = replicate 4 0;
  kernel_stack_pages_count = 0;
  handles = replicate max_handles (pos 0);
  handle_kinds = replicate max_handles 0;
  handle_count = 0;
}

-- The static variables. `current` has `none` for -1.
pub record Sched : Type 0 where
  pub processes : List Process
  pub current : List (Option ℕ)
  pub tick_count : ℕ

-- What `scheduler_init` does to a slot.
reset : Process → Process
reset p = record p {
  state = absent;
  cpu = none;
  priority = 1;
  time_slice = default_time_slice;
  sleep_until = 0;
  nice = pos 0;
  runtime_ns = 0;
  fair_key = 0;
  next_alloc_virt = 0;
  pml4_phys = 0;
  kernel_stack_top = 0;
  kernel_stack_base = 0;
  kernel_stack_pages_count = 0;
  kernel_stack_pages_phys = replicate 4 0;
  handle_count = 0;
}

-- `scheduler_init`
pub init : Sched → Sched
unfolding reset
init s = record s { processes = map reset s.processes; current = replicate max_cpus none }

-- `current_cpu_id`, of what `smp_current_cpu_id` returns.
pub current_cpu_id : ℤ → ℕ
current_cpu_id c = elim (index max_cpus c) [ none ↦ 0 | some i ↦ i ]

abbrev pub process : Sched → ℕ → Process
process s i = get_or s.processes i no_process

-- An assignment to fields of process `i`.
abbrev pub change : ℕ → (Process → Process) → Sched → Sched
change i f s = record s { processes = set s.processes i (f (process s i)) }

abbrev pub set_current : ℕ → Option ℕ → Sched → Sched
set_current cpu o s = record s { current = set s.current cpu o }

-- `process_set_current`
pub process_set_current : ℕ → ℤ → Sched → Sched
process_set_current cpu pid s = set_current cpu (index max_processes pid) s

-- A process number that is in range.
abbrev pub in_range : Option ℕ → Option ℕ
in_range none = none
in_range (some i) = if ltb i max_processes then some i else none

-- `process_current`: the number of the process that the CPU runs.
abbrev pub process_current : ℕ → Sched → Option ℕ
process_current cpu s = in_range (get_or s.current cpu none)

abbrev pub is_absent : ProcessState → Bool
is_absent absent = true
is_absent ready = false
is_absent running = false
is_absent sleeping = false
is_absent blocked = false

abbrev pub is_running : ProcessState → Bool
is_running absent = false
is_running ready = false
is_running running = true
is_running sleeping = false
is_running blocked = false

abbrev pub is_sleeping : ProcessState → Bool
is_sleeping absent = false
is_sleeping ready = false
is_sleeping running = false
is_sleeping sleeping = true
is_sleeping blocked = false

abbrev pub is_blocked : ProcessState → Bool
is_blocked absent = false
is_blocked ready = false
is_blocked running = false
is_blocked sleeping = false
is_blocked blocked = true

abbrev pub can_run : ProcessState → Bool
can_run absent = false
can_run ready = true
can_run running = true
can_run sleeping = false
can_run blocked = false

-- `cpu == -1 || cpu == here`
abbrev pub may_run_on : ℕ → Option ℕ → Bool
may_run_on here none = true
may_run_on here (some c) = c == here

-- The condition of `pick_next_process`.
abbrev pub runnable : ℕ → Process → Bool
runnable cpu p = can_run p.state && may_run_on cpu p.cpu

-- `best` and `best_key` after process `i` was looked at.
pub better : ℕ → ℕ → Process → Option (ℕ × ℕ) → Option (ℕ × ℕ)
better cpu i p none = if runnable cpu p then some (i, p.fair_key) else none
better cpu i p (some (best, best_key)) =
    if runnable cpu p && ltb p.fair_key best_key
    then some (i, p.fair_key)
    else some (best, best_key)

-- The loop of `pick_next_process` from process `i` on.
pub pick_loop : ℕ → List Process → ℕ → Option (ℕ × ℕ) → Option (ℕ × ℕ)
pick_loop cpu [] i best = best
pick_loop cpu (p ∷ ps) i best = pick_loop cpu ps (i + 1) (better cpu i p best)

-- `pick_next_process`, with `none` for -1.
pub pick_next_process : ℕ → Sched → Option ℕ
unfolding pick_loop better
pick_next_process cpu s = elim (pick_loop cpu s.processes 0 none) [
  | none ↦ none
  | some (best, _) ↦ some best
]

-- The registers of the CPU, as `save_context` and `rdmsr` read them.
pub record Context : Type 0 where
  pub regs : List ℕ
  pub rsp : ℕ
  pub rflags : ℕ
  pub fs_base : ℕ

-- `save_context`
abbrev pub save_context : Context → Process → Process
save_context c p = record p { regs = c.regs; rsp = c.rsp; rflags = c.rflags }

-- What is loaded into the CPU for a process: the page table, the stack for the kernel, and the base
-- of fs; `none` where the register stays.
pub record Loaded : Type 0 where
  pub pml4 : Option ℕ
  pub kernel_stack : Option ℕ
  pub fs_base : Option ℕ

abbrev pub unless_zero : ℕ → Option ℕ
unless_zero n = if n == 0 then none else some n

abbrev pub load : Process → Loaded
load p = record {
  pml4 = unless_zero p.pml4_phys;
  kernel_stack = some p.kernel_stack_top;
  fs_base = some p.fs_base;
}

abbrev pub start_on : ℕ → Process → Process
start_on cpu p = record p {
  state = running;
  time_slice = default_time_slice;
  cpu = some cpu;
  first_run = false;
}

-- The CPU goes on with process `next`.
pub run_on : ℕ → ℕ → Sched → Sched
run_on cpu next s = change next (start_on cpu) (set_current cpu (some next) s)

-- The context is saved, and the process is ready.
abbrev pub put_back : Context → Process → Process
put_back c p = record (save_context c p) { fs_base = c.fs_base; state = ready }

leave_process : ℕ → Context → Sched → Sched
leave_process prev c s = if is_running (process s prev).state then change prev (put_back c) s else s

-- The first part of `schedule`: the CPU gives its process up.
pub leave : ℕ → Context → Sched → Sched
unfolding leave_process
leave cpu c s =
    set_current cpu none
      (elim (get_or s.current cpu none) [ none ↦ s | some prev ↦ leave_process prev c s ])

dispatch_to : ℕ → Option ℕ → Sched → Option Loaded × Sched
dispatch_to cpu none s = (none, s)
dispatch_to cpu (some next) s = (some (load (process s next)), run_on cpu next s)

-- One round of the second part: a process is picked and started, or none is there.
pub dispatch : ℕ → Sched → Option Loaded × Sched
unfolding dispatch_to run_on
dispatch cpu s = dispatch_to cpu (pick_next_process cpu s) s

-- `schedule`, up to the first halt.
pub schedule : ℕ → Context → Sched → Option Loaded × Sched
unfolding leave dispatch
schedule cpu c s = dispatch cpu (leave cpu c s)

-- What `scheduler_tick` does to a process at time `now`.
pub tick_process : ℕ → Process → Process
tick_process now p =
    if is_sleeping p.state && not (p.sleep_until == 0) && leb p.sleep_until now
    then record p { state = ready }
    else p

-- `scheduler_tick`
pub tick : Sched → Sched
unfolding tick_process
tick s =
    let now = (s.tick_count + 1) % 2 ^ 32 in
    record s { tick_count = now; processes = map (tick_process now) s.processes }

abbrev pub set_ready : Process → Process
set_ready p = record p { state = ready }

add_ready_at : Option ℕ → Sched → Sched
add_ready_at none s = s
add_ready_at (some i) s = change i set_ready s

-- `scheduler_add_ready`
pub add_ready : ℤ → Sched → Sched
unfolding add_ready_at
add_ready pid s = add_ready_at (index max_processes pid) s

stop_at : ℕ → Option ℕ → Context → (Process → Process) → Sched → Option Loaded × Sched
stop_at cpu none c f s = (none, s)
stop_at cpu (some cp) c f s = schedule cpu c (change cp (λ p. f (save_context c p)) s)

abbrev pub put_to_sleep : ℕ → Process → Process
put_to_sleep until p = record p { sleep_until = until; state = sleeping }

abbrev pub set_blocked : Process → Process
set_blocked p = record p { state = blocked }

-- `scheduler_sleep`
pub sleep : ℕ → Context → ℕ → Sched → Option Loaded × Sched
unfolding stop_at schedule
sleep cpu c ms s =
    stop_at cpu (process_current cpu s) c (put_to_sleep ((s.tick_count + ms) % 2 ^ 32)) s

-- `process_block_current`
pub block_current : ℕ → Context → Sched → Option Loaded × Sched
unfolding stop_at schedule
block_current cpu c s = stop_at cpu (process_current cpu s) c set_blocked s

-- What `process_wake` does to a process.
pub wake_process : Process → Process
wake_process p = if is_blocked p.state then record p { state = ready } else p

wake_at : Option ℕ → Sched → Sched
wake_at none s = s
wake_at (some i) s = change i wake_process s

-- `process_wake`
pub wake : ℤ → Sched → Sched
unfolding wake_at wake_process
wake pid s = wake_at (index max_processes pid) s

-- `cpu < 0 || processes[i].cpu == cpu`
abbrev pub counts_for : Option ℕ → Option ℕ → Bool
counts_for none _ = true
counts_for (some c) none = false
counts_for (some c) (some d) = d == c

-- The loop of `scheduler_get_load`; `cpu` is `none` for a negative number.
pub count_load : Option ℕ → List Process → ℕ
count_load cpu [] = 0
count_load cpu (p ∷ ps) =
    let rest = count_load cpu ps in
    if not (is_absent p.state) && counts_for cpu p.cpu then rest + 1 else rest

-- `scheduler_get_load`
pub get_load : ℤ → Sched → ℕ
unfolding count_load
get_load (pos c) s = count_load (some c) s.processes
get_load (negsuc c) s = count_load none s.processes

-- What `scheduler_try_run_user` loads.
abbrev load_user : Process → Loaded
load_user p = record {
  pml4 = unless_zero p.pml4_phys;
  kernel_stack = unless_zero p.kernel_stack_top;
  fs_base = none;
}

try_run_next : ℕ → Option ℕ → Sched → Option Loaded × Sched
try_run_next cpu none s = (none, s)
try_run_next cpu (some next) s = (some (load_user (process s next)), run_on cpu next s)

try_run_from : Option ℕ → ℕ → Sched → Option Loaded × Sched
try_run_from none cpu s = try_run_next cpu (pick_next_process cpu s) s
try_run_from (some _) cpu s = (none, s)

-- `scheduler_try_run_user`; `none` for its result -1.
pub try_run_user : ℕ → Sched → Option Loaded × Sched
unfolding try_run_from try_run_next run_on
try_run_user cpu s = try_run_from (get_or s.current cpu none) cpu s
