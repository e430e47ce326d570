-- ===== src/Scheduler/Timer.antt =====
-- `timer_handler` of src/harlin/proc/scheduler.c. The frame that the interrupt saved holds the
-- registers; the function writes those of the process that the CPU goes on with.
pub mod OneCpu
pub mod Preempt
pub mod Charge
use har_lin_kernel.Base.{
  ℕ, zero, suc, ◌+◌, ◌-◌, ◌*◌, ◌/◌, ◌%◌, ◌^◌, Bool, true, false, not, ◌||◌, ◌&&◌, Option, none,
  some, List, [], ◌∷◌, map, ltb, leb, ◌==◌, if◌then◌else◌, get_or, set, ℤ, pos, negsuc,
}
use har_lin_kernel.Scheduler.{
  Process, ProcessState, ready, running, Sched, process, change, set_current, process_current,
  default_time_slice, is_running, pick_next_process, Loaded, load, run_on, tick, set_ready,
}

abbrev pub user_cs : ℕ
user_cs = 0x2B

abbrev pub user_ss : ℕ
user_ss = 0x33

-- The 21 words of the frame: rax to r15, word 15, and what the CPU pushed.
pub record Frame : Type 0 where
  pub regs : List ℕ
  pub word : ℕ
  pub rip : ℕ
  pub cs : ℕ
  pub rflags : ℕ
  pub rsp : ℕ
  pub ss : ℕ

-- The frame for a process that goes on.
pub restore : Process → Frame → Frame
restore p frame = record frame {
  regs = p.regs;
  rip = p.rip;
  cs = user_cs;
  rflags = p.rflags;
  rsp = p.rsp;
  ss = user_ss;
}

-- The frame for a process that the handler switches to: before its first run the registers stay.
pub restore_next : Process → Frame → Frame
restore_next p frame =
    if p.first_run
    then record frame { rip = p.rip; cs = user_cs; rflags = p.rflags; rsp = p.rsp; ss = user_ss }
    else record frame {
      regs = p.regs;
      rip = p.rip;
      cs = user_cs;
      rflags = p.rflags;
      rsp = p.rsp;
      ss = user_ss;
    }

-- The process takes over what the frame holds, and the base of fs.
pub save_frame : Frame → ℕ → Process → Process
save_frame frame fs p = record p {
  regs = frame.regs;
  rip = frame.rip;
  rflags = frame.rflags;
  rsp = frame.rsp;
  fs_base = fs;
}

-- `weight`, of a `nice` value that is first brought into -20 to 19.
pub weight_of : ℤ → ℕ
weight_of (pos n) = let w = 1024 / 2 ^ (if ltb 19 n then 19 else n) in if w == 0 then 1 else w
weight_of (negsuc n) = 1024 * 2 ^ (if ltb 19 n then 20 else n + 1)

-- The share of one tick.
pub delta_of : ℤ → ℕ
unfolding weight_of
delta_of nice = 1000000 / weight_of nice

-- One tick is charged to the process that runs.
pub charge : Process → Process
unfolding delta_of
charge p =
    let spent = (p.runtime_ns + delta_of p.nice) % 2 ^ 64 in
    record p { time_slice = p.time_slice - 1; runtime_ns = spent; fair_key = spent }

-- What the handler does first to the process that runs.
abbrev pub take_over : Frame → ℕ → Process → Process
take_over frame fs p = charge (save_frame frame fs p)

-- `PROC_STATE_RUNNING` becomes `PROC_STATE_READY`.
abbrev pub make_ready : Process → Process
make_ready p = if is_running p.state then record p { state = ready } else p

-- What the handler leaves: what it loads, the frame and the scheduler.
pub record Handled : Type 0 where
  pub loaded : Option Loaded
  pub frame : Frame
  pub sched : Sched

idle_timer : ℕ → Option ℕ → Frame → Sched → Handled
idle_timer cpu none frame s = record { loaded = none; frame = frame; sched = s }
idle_timer cpu (some next) frame s =
    let s' = record s { processes = map make_ready s.processes } in
    let p = process s' next in
    record {
      loaded = some (load p);
      frame = if p.first_run then frame else restore p frame;
      sched = run_on cpu next s';
    }

abbrev pub go_on : Process → Process
go_on p = record p { state = running; time_slice = default_time_slice }

-- The process goes on with a new time slice.
keep_on : ℕ → Frame → Sched → Handled
keep_on cp frame s = record { loaded = none; frame = frame; sched = change cp go_on s }

switch_timer : ℕ → ℕ → Option ℕ → Frame → Sched → Handled
switch_timer cpu cp none frame s = keep_on cp frame s
switch_timer cpu cp (some next) frame s = if next == cp then keep_on cp frame s else record {
  loaded = some (load (process s next));
  frame = restore_next (process s next) frame;
  sched = run_on cpu next s;
}

-- The handler where the CPU runs process `cp`, once it has saved the frame and charged the tick.
busy_timer : ℕ → ℕ → Frame → Sched → Handled
busy_timer cpu cp frame s =
    let s' = change cp set_ready s in
    if ltb 0 (process s cp).time_slice && is_running (process s cp).state
    then record { loaded = none; frame = frame; sched = s }
    else switch_timer cpu cp (pick_next_process cpu s') frame s'

timer_at : ℕ → Option ℕ → Frame → ℕ → Sched → Handled
timer_at cpu none frame fs s = idle_timer cpu (pick_next_process cpu s) frame s
timer_at cpu (some cp) frame fs s = busy_timer cpu cp frame (change cp (take_over frame fs) s)

-- `timer_handler`; `fs` is the base of fs as `rdmsr` reads it.
pub timer_handler : ℕ → Frame → ℕ → Sched → Handled
unfolding timer_at busy_timer switch_timer keep_on idle_timer save_frame charge restore restore_next
timer_handler cpu frame fs s = let s' = tick s in timer_at cpu (process_current cpu s') frame fs s'
