-- ===== src/Scheduler/Timer/Preempt.antt =====
-- What `timer_handler` of src/harlin/proc/scheduler.c does to the registers of a process that runs.
use har_lin_kernel.Base.{
  ℕ, Bool, true, false, ◌<◌, ◌≡◌, ◌≢◌, refl, ap, sym, ◌∙◌, ◌&&◌, Option, none, some, arith, ltb,
  ◌==◌, length, get_or, get_or-set_self, get_or-set_ne, length-set, Bool-cases, inl, inr,
}
use mathlib.Core.Path.{subst}
use har_lin_kernel.Scheduler.{
  Process, ready, no_process, Sched, process, change, is_running, run_on, max_processes, max_cpus,
  process_current, in_range, tick, load, set_ready, start_on, tick_process,
}
use har_lin_kernel.Scheduler.Pick.{Picked, picked, pick_next_process-Picked}
use har_lin_kernel.Scheduler.Affinity.{IsValid, Keeps-IsValid}
use har_lin_kernel.Scheduler.Steps.{Keeps-tick}
use har_lin_kernel.Scheduler.Sleep.{tick_lem}
use har_lin_kernel.Scheduler.Timer.{
  Frame, Handled, user_cs, user_ss, restore, restore_next, save_frame, charge, take_over, keep_on,
  switch_timer, busy_timer, timer_at, timer_handler,
}

-- The frame of process `p` that goes on: before its first run its registers are not loaded, and
-- all else is.
abbrev pub Resumed : Bool → Process → Frame → Frame → Type 0
Resumed first p before after =
    ((first ≡ false) → after ≡ restore p before)
    × ((first ≡ true) → after ≡ record (restore p before) { regs = before.regs })

-- What becomes of process `cp`, which the CPU runs: it goes on with its frame untouched, or the CPU
-- goes on with another process, and what was saved of `cp` restores its frame.
pub data Outcome (cpu cp : ℕ) (frame : Frame) (s : Sched) (h : Handled) : Type 0 where
  goes_on :
      h.loaded ≡ none → h.frame ≡ frame → h.sched.current ≡ s.current → Outcome cpu cp frame s h
  switched :
      (next : ℕ)
      → next ≢ cp
      → get_or h.sched.current cpu none ≡ some next
      → h.loaded ≡ some (load (process h.sched next))
      → Resumed (process s next).first_run (process h.sched next) frame h.frame
      → (process h.sched cp).state ≡ ready
      → ((other : Frame)
          → restore (process h.sched cp) other
            ≡ record frame { word = other.word; cs = user_cs; ss = user_ss })
      → Outcome cpu cp frame s h

restore_next_resumes :
    (cpu : ℕ) (p : Process) (frame : Frame)
    → Resumed p.first_run (start_on cpu p) frame (restore_next p frame)
unfolding restore_next restore
restore_next_resumes cpu p frame = (λ f. rw f refl, λ t. rw t refl)

restore-take_over :
    (frame : Frame) (fs : ℕ) (q : Process) (other : Frame)
    → restore (set_ready (take_over frame fs q)) other
      ≡ record frame { word = other.word; cs = user_cs; ss = user_ss }
unfolding restore save_frame charge
restore-take_over frame fs q other = refl

module _ (cpu cp : ℕ) (frame : Frame) (fs : ℕ) (q : Process) where
  switch_lem :
      (next : ℕ) (s : Sched)
      → next ≢ cp
      → next < length s.processes
      → cpu < length s.current
      → process s cp ≡ set_ready (take_over frame fs q)
      → (start : Sched) → (process s next).first_run ≡ (process start next).first_run
      → Outcome cpu cp frame start (record {
        loaded = some (load (process s next));
        frame = restore_next (process s next) frame;
        sched = run_on cpu next s;
      })
  unfolding run_on
  switch_lem next s ne n c saved start same =
      let there = get_or-set_self s.processes next (start_on cpu (process s next)) no_process n in
      let left =
        get_or-set_ne s.processes next cp (start_on cpu (process s next)) no_process ne ∙ saved in
      switched next ne (get_or-set_self s.current cpu (some next) none c)
        (ap (λ p. some (load p)) (sym there))
        (subst
          (λ b.
            Resumed b (process (run_on cpu next s) next) frame
              (restore_next (process s next) frame))
          same
          (subst
            (λ p. Resumed (process s next).first_run p frame (restore_next (process s next) frame))
            (sym there) (restore_next_resumes cpu (process s next) frame)))
        (ap (λ p. p.state) left)
        (λ other. ap (λ p. restore p other) left ∙ restore-take_over frame fs q other)

  switch_timer-Outcome :
      (o : Option ℕ) (s start : Sched)
      → Picked cpu s o
      → cpu < length s.current
      → process s cp ≡ set_ready (take_over frame fs q)
      → s.current ≡ start.current
      → ((i : ℕ) → i ≢ cp → (process s i).first_run ≡ (process start i).first_run)
      → Outcome cpu cp frame start (switch_timer cpu cp o frame s)
  unfolding switch_timer keep_on
  switch_timer-Outcome none s start _ c saved e same_run = goes_on refl refl e
  switch_timer-Outcome (some next) s start (picked _ lt r least first) c saved e same_run =
      elim (Bool-cases (next == cp)) [
        | inl same ↦ rw same (goes_on refl refl e)
        | inr other ↦
            (let ne : next ≢ cp = λ h. ground (arith, h, other) in
              rw other (switch_lem next s ne lt c saved start (same_run next ne)))
      ]

busy_timer-Outcome :
    (cpu cp : ℕ) (frame : Frame) (fs : ℕ) (s : Sched)
    → cpu < length s.current
    → cp < length s.processes
    → Outcome cpu cp frame s (busy_timer cpu cp frame (change cp (take_over frame fs) s))
unfolding busy_timer
busy_timer-Outcome cpu cp frame fs s c lt =
    let s' = change cp (take_over frame fs) s in
    let saved = get_or-set_self s.processes cp (take_over frame fs (process s cp)) no_process lt in
    let readied =
      get_or-set_self s'.processes cp (set_ready (process s' cp)) no_process
        (omega (arith, length-set s.processes cp (take_over frame fs (process s cp)))) in
    elim (Bool-cases (ltb 0 (process s' cp).time_slice && is_running (process s' cp).state)) [
      | inl t ↦ rw t (goes_on refl refl refl)
      | inr f ↦ rw f (
          switch_timer-Outcome cpu cp frame fs (process s cp) _ (change cp set_ready s') s
            (pick_next_process-Picked cpu (change cp set_ready s')) c (readied ∙ ap set_ready saved)
            refl
            (λ i ne.
              ap (λ p. p.first_run)
                (get_or-set_ne s'.processes cp i (set_ready (process s' cp)) no_process
                    (λ q. ne (sym q))
                  ∙ get_or-set_ne s.processes cp i (take_over frame fs (process s cp)) no_process
                      (λ q. ne (sym q)))))
    ]

Outcome-start :
    {cpu cp : ℕ} {frame : Frame} {s t : Sched} {h : Handled}
    → s.current ≡ t.current
    → ((i : ℕ) → (process s i).first_run ≡ (process t i).first_run)
    → Outcome cpu cp frame s h
    → Outcome cpu cp frame t h
Outcome-start e same (goes_on l f c) = goes_on l f (c ∙ e)
Outcome-start {frame = frame} {h = h} e same (switched next ne c l r st b) =
    switched next ne c l (subst (λ x. Resumed x (process h.sched next) frame h.frame) (same next) r)
      st b

in_range-lt : (o : Option ℕ) (i : ℕ) → in_range o ≡ some i → i < max_processes
in_range-lt none i e = absurd (ground arith)
in_range-lt (some k) i e = ground arith

tick-first_run : (s : Sched) (i : ℕ) → (process (tick s) i).first_run ≡ (process s i).first_run
unfolding tick_process
tick-first_run s i = ap (λ p. p.first_run) (tick_lem i s).0 ∙ ground arith

tick-current : (s : Sched) → (tick s).current ≡ s.current
unfolding tick
tick-current s = refl

-- A timer interrupt on a CPU that runs process `cp`, in a state where a process runs on one CPU at
-- most: either `cp` goes on, with the frame untouched; or the CPU goes on with another process,
-- which the frame resumes: all its registers if it ran before, all but rax to r15 if not; and what
-- was saved of `cp`, now ready, restores the frame that it was interrupted with, under the
-- selectors of user code.
pub timer_handler-Outcome :
    (cpu cp : ℕ) (frame : Frame) (fs : ℕ) (s : Sched)
    → IsValid s
    → cpu < max_cpus
    → process_current cpu s ≡ some cp
    → Outcome cpu cp frame s (timer_handler cpu frame fs s)
unfolding timer_handler timer_at
timer_handler-Outcome cpu cp frame fs s v c runs =
    let same = tick-current s in
    let w = Keeps-IsValid (Keeps-tick s) v in
    let here : process_current cpu (tick s) ≡ some cp =
      ap (λ t. in_range (get_or t cpu none)) same ∙ runs in
    rw here (
      Outcome-start same (tick-first_run s) (
        busy_timer-Outcome cpu cp frame fs (tick s) (omega (arith, w.cpus))
          (omega (arith, w.size, in_range-lt (get_or s.current cpu none) cp runs))))
