-- ===== src/Scheduler/Timer/OneCpu.antt =====
-- `timer_handler` of src/harlin/proc/scheduler.c in the states where a process runs on one CPU at
-- most.
use har_lin_kernel.Base.{
  ℕ, ◌<◌, ◌≡◌, refl, ap, ◌∙◌, true, ◌&&◌, Option, none, some, arith, ltb, ◌==◌, Bool-cases, inl,
  inr,
}
use har_lin_kernel.Scheduler.{
  Process, Sched, process, change, runnable, is_running, max_cpus, tick, set_ready,
}
use har_lin_kernel.Scheduler.Pick.{Picked, picked, pick_next_process-Picked}
use har_lin_kernel.Scheduler.Affinity.{
  IsValid, Respects, Keeps-IsValid, Keeps-change, Keeps-map, process-map,
}
use har_lin_kernel.Scheduler.Steps.{Keeps-tick, picked_runs-IsValid}
use har_lin_kernel.Scheduler.Timer.{
  Frame, save_frame, charge, make_ready, go_on, take_over, idle_timer, keep_on, switch_timer,
  busy_timer, timer_at, timer_handler,
}

make_ready-Respects : Respects make_ready
make_ready-Respects = record { cpu = λ p. ground arith; stays = λ p h. ground arith }

make_ready_runs :
    (cpu : ℕ) (p : Process) → runnable cpu p ≡ true → runnable cpu (make_ready p) ≡ true
make_ready_runs cpu p h = ground arith

idle_timer-IsValid :
    (cpu : ℕ) (o : Option ℕ) (frame : Frame) (s : Sched)
    → cpu < max_cpus
    → Picked cpu s o
    → IsValid s
    → IsValid (idle_timer cpu o frame s).sched
unfolding idle_timer
idle_timer-IsValid cpu none frame s c _ v = v
idle_timer-IsValid cpu (some i) frame s c (picked _ lt r least first) v =
    let k = Keeps-map make_ready s.tick_count s refl make_ready-Respects in
    picked_runs-IsValid cpu i _ c (Keeps-IsValid k v) (omega (arith, k.same_size)) (
      ap (runnable cpu) (process-map make_ready s.processes i refl)
      ∙ make_ready_runs cpu (process s i) r)

keep_on-IsValid :
    (cp : ℕ) (frame : Frame) (s : Sched) → IsValid s → IsValid (keep_on cp frame s).sched
unfolding keep_on
keep_on-IsValid cp frame s v =
    Keeps-IsValid (Keeps-change cp go_on s (record { cpu = λ p. refl; stays = λ p h. refl })) v

switch_timer-IsValid :
    (cpu cp : ℕ) (o : Option ℕ) (frame : Frame) (s : Sched)
    → cpu < max_cpus
    → Picked cpu s o
    → IsValid s
    → IsValid (switch_timer cpu cp o frame s).sched
unfolding switch_timer
switch_timer-IsValid cpu cp none frame s c _ v = keep_on-IsValid cp frame s v
switch_timer-IsValid cpu cp (some i) frame s c (picked _ lt r least first) v =
    elim (Bool-cases (i == cp)) [
      | inl same ↦ rw same (keep_on-IsValid cp frame s v)
      | inr other ↦ rw other (picked_runs-IsValid cpu i s c v lt r)
    ]

busy_timer-IsValid :
    (cpu cp : ℕ) (frame : Frame) (s : Sched)
    → cpu < max_cpus
    → IsValid s
    → IsValid (busy_timer cpu cp frame s).sched
unfolding busy_timer
busy_timer-IsValid cpu cp frame s c v =
    elim (Bool-cases (ltb 0 (process s cp).time_slice && is_running (process s cp).state)) [
      | inl t ↦ rw t v
      | inr f ↦ rw f (
          switch_timer-IsValid cpu cp _ frame (change cp set_ready s) c
            (pick_next_process-Picked cpu (change cp set_ready s))
            (Keeps-IsValid
              (Keeps-change cp set_ready s (record { cpu = λ p. refl; stays = λ p h. refl })) v))
    ]

take_over-Respects : (frame : Frame) (fs : ℕ) → Respects (take_over frame fs)
unfolding save_frame charge
take_over-Respects frame fs = record { cpu = λ p. refl; stays = λ p h. h }

timer_at-IsValid :
    (cpu : ℕ) (o : Option ℕ) (frame : Frame) (fs : ℕ) (s : Sched)
    → cpu < max_cpus
    → IsValid s
    → IsValid (timer_at cpu o frame fs s).sched
unfolding timer_at
timer_at-IsValid cpu none frame fs s c v =
    idle_timer-IsValid cpu _ frame s c (pick_next_process-Picked cpu s) v
timer_at-IsValid cpu (some cp) frame fs s c v =
    busy_timer-IsValid cpu cp frame (change cp (take_over frame fs) s) c
      (Keeps-IsValid (Keeps-change cp (take_over frame fs) s (take_over-Respects frame fs)) v)

pub timer_handler-IsValid :
    (cpu : ℕ) (frame : Frame) (fs : ℕ) (s : Sched)
    → cpu < max_cpus
    → IsValid s
    → IsValid (timer_handler cpu frame fs s).sched
unfolding timer_handler
timer_handler-IsValid cpu frame fs s c v =
    timer_at-IsValid cpu _ frame fs (tick s) c (Keeps-IsValid (Keeps-tick s) v)
