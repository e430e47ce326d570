-- ===== src/Scheduler/Sleep.antt =====
-- How long a process sleeps, in src/harlin/proc/scheduler.c.
use har_lin_kernel.Base.{
  ℕ, zero, suc, ◌+◌, ◌%◌, ◌^◌, ◌<◌, ◌≡◌, refl, ap, ◌∙◌, false, Option, none, some, arith, ltb,
  if◌then◌else◌, get_or, get_or-set_self, get_or-set_ne,
}
use har_lin_kernel.Scheduler.{
  Process, ready, sleeping, no_process, Sched, Context, process, change, can_run, is_running,
  run_on, start_on, max_processes, process_current, in_range, leave, leave_process, dispatch,
  dispatch_to, schedule, sleep, stop_at, put_to_sleep, save_context, tick, tick_process,
}
use har_lin_kernel.Scheduler.Pick.{Picked, picked, pick_next_process-Picked}
use har_lin_kernel.Scheduler.Affinity.{IsValid, process-map}
use har_lin_kernel.Scheduler.Steps.{tick_process-absent}

-- `n` timer ticks.
unfoldable pub ticks : ℕ → Sched → Sched
ticks zero s = s
ticks (suc n) s = tick (ticks n s)

-- Process `i`, and the time, are the same in both states.
record Same (i : ℕ) (s s' : Sched) : Type 0 where
  same_process : process s' i ≡ process s i
  same_time : s'.tick_count ≡ s.tick_count

Same-trans : {i : ℕ} {s t u : Sched} → Same i s t → Same i t u → Same i s u
Same-trans a b = record {
  same_process = b.same_process ∙ a.same_process;
  same_time = b.same_time ∙ a.same_time;
}

-- A CPU that stopped its process `i` leaves it alone.
leave-Same :
    (cpu i : ℕ) (c : Context) (s : Sched)
    → get_or s.current cpu none ≡ some i
    → is_running (process s i).state ≡ false
    → Same i s (leave cpu c s)
unfolding leave leave_process
leave-Same cpu i c s e stopped = rw (e, stopped) (record { same_process = refl; same_time = refl })

dispatch_to-Same :
    (cpu i : ℕ) (o : Option ℕ) (s : Sched)
    → Picked cpu s o
    → can_run (process s i).state ≡ false
    → Same i s (dispatch_to cpu o s).1
unfolding dispatch_to run_on
dispatch_to-Same cpu i none s _ stopped = record { same_process = refl; same_time = refl }
dispatch_to-Same cpu i (some next) s (picked _ lt r least first) stopped = record {
  same_process =
      get_or-set_ne s.processes next i (start_on cpu (process s next)) no_process
        (λ e. ground (arith, ap (λ k. can_run (process s k).state) e));
  same_time = refl;
}

schedule-Same :
    (cpu i : ℕ) (c : Context) (s : Sched)
    → get_or s.current cpu none ≡ some i
    → is_running (process s i).state ≡ false
    → can_run (process s i).state ≡ false
    → Same i s (schedule cpu c s).1
unfolding schedule dispatch
schedule-Same cpu i c s e stopped not_ready =
    let left = leave-Same cpu i c s e stopped in
    Same-trans left (
      dispatch_to-Same cpu i _ (leave cpu c s) (pick_next_process-Picked cpu (leave cpu c s))
        (ap (λ p. can_run p.state) left.same_process ∙ not_ready))

in_range_lem : (o : Option ℕ) (i : ℕ) → in_range o ≡ some i → (o ≡ some i) × (i < max_processes)
in_range_lem none i e = absurd (ground arith)
in_range_lem (some k) i e = (ground arith, ground arith)

-- Process `i` sleeps until time `until`.
record Sleeps (i until : ℕ) (s : Sched) : Type 0 where
  asleep_now : (process s i).state ≡ sleeping
  wakes_at : (process s i).sleep_until ≡ until

current_of :
    (cpu cp : ℕ) (s : Sched)
    → process_current cpu s ≡ some cp
    → (get_or s.current cpu none ≡ some cp) × (cp < max_processes)
current_of cpu cp s e = in_range_lem (get_or s.current cpu none) cp e

sleep-Sleeps :
    (cpu cp : ℕ) (c : Context) (ms : ℕ) (s : Sched)
    → IsValid s
    → process_current cpu s ≡ some cp
    → Sleeps cp ((s.tick_count + ms) % 2 ^ 32) (sleep cpu c ms s).1
      × ((sleep cpu c ms s).1.tick_count ≡ s.tick_count)
unfolding sleep stop_at
sleep-Sleeps cpu cp c ms s v e =
    let (current, small) = current_of cpu cp s e in
    let until : ℕ = (s.tick_count + ms) % 2 ^ 32 in
    let s' = change cp (λ p. put_to_sleep until (save_context c p)) s in
    let there =
      get_or-set_self s.processes cp (put_to_sleep until (save_context c (process s cp))) no_process
        (omega (arith, v.size)) in
    let same =
      schedule-Same cpu cp c s' current (ap (λ p. is_running p.state) there)
        (ap (λ p. can_run p.state) there) in
    rw e (
      record {
        asleep_now = ap (λ p. p.state) (same.same_process ∙ there);
        wakes_at = ap (λ p. p.sleep_until) (same.same_process ∙ there);
      },
      same.same_time,
    )

pub tick_lem :
    (i : ℕ) (s : Sched)
    → (process (tick s) i ≡ tick_process ((s.tick_count + 1) % 2 ^ 32) (process s i))
      × ((tick s).tick_count ≡ (s.tick_count + 1) % 2 ^ 32)
unfolding tick
tick_lem i s = (
  process-map (tick_process ((s.tick_count + 1) % 2 ^ 32)) s.processes i
      (tick_process-absent ((s.tick_count + 1) % 2 ^ 32)),
  refl,
)

-- `n` ticks later.
data After (i from until : ℕ) (n : ℕ) (s : Sched) : Type 0 where
  after :
      s.tick_count ≡ from + n
      → (process s i).state ≡ (if ltb (from + n) until then sleeping else ready)
      → (process s i).sleep_until ≡ until
      → After i from until n s

tick_sleeper :
    (now until : ℕ) (p : Process)
    → 0 < until
    → p.sleep_until ≡ until
    → p.state ≡ (if ltb now until then sleeping else ready)
    → ((tick_process (now + 1) p).state ≡ (if ltb (now + 1) until then sleeping else ready))
      × ((tick_process (now + 1) p).sleep_until ≡ until)
unfolding tick_process
tick_sleeper now until p h e st = (ground arith, ground arith)

ticks-After :
    (i from until n : ℕ) (s : Sched)
    → 0 < until
    → After i from until 0 s
    → from + n < 2 ^ 32
    → After i from until n (ticks n s)
unfolding ticks
ticks-After i from until zero s h a lt = a
ticks-After i from until (suc n) s h a lt = elim (ticks-After i from until n s h a (omega arith)) [
  | after t st u ↦
      let (p, time) = tick_lem i (ticks n s) in
      let now : ((ticks n s).tick_count + 1) % 2 ^ 32 ≡ from + n + 1 = omega (arith, t) in
      let (st', u') = tick_sleeper (from + n) until (process (ticks n s) i) h u st in
      let step = p ∙ ap (λ k. tick_process k (process (ticks n s) i)) now in
      let next : from + n + 1 ≡ from + suc n = omega arith in
      after (time ∙ now ∙ next)
        (ap (λ q. q.state) step ∙ st' ∙ ap (λ k. if ltb k until then sleeping else ready) next)
        (ap (λ q. q.sleep_until) step ∙ u')
]

-- A process that sleeps for `ms`, from 1 on, is asleep for the next `ms - 1` ticks and ready from
-- the tick `ms` on, as long as the count of ticks does not wrap, and nothing but ticks happens.
pub ticks-sleep :
    (cpu cp : ℕ) (c : Context) (ms n : ℕ) (s : Sched)
    → IsValid s
    → process_current cpu s ≡ some cp
    → 0 < ms
    → s.tick_count + ms < 2 ^ 32
    → s.tick_count + n < 2 ^ 32
    → (process (ticks n (sleep cpu c ms s).1) cp).state ≡ (if ltb n ms then sleeping else ready)
ticks-sleep cpu cp c ms n s v e pos_ms fits_ms fits_n =
    let (asleep, time) = sleep-Sleeps cpu cp c ms s v e in
    let until : (s.tick_count + ms) % 2 ^ 32 ≡ s.tick_count + ms = omega arith in
    let start : After cp s.tick_count (s.tick_count + ms) 0 (sleep cpu c ms s).1 =
      after (time ∙ omega arith) (asleep.asleep_now ∙ ground arith) (asleep.wakes_at ∙ until) in
    elim (ticks-After cp s.tick_count (s.tick_count + ms) n (sleep cpu c ms s).1 (omega arith) start
      fits_n) [ after t st u ↦ st ∙ ground arith ]
