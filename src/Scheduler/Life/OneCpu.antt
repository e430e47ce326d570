-- ===== src/Scheduler/Life/OneCpu.antt =====
-- Exit and fork in src/harlin/proc/scheduler.c, in the states where a process runs on one CPU at
-- most.
use har_lin_kernel.Base.{
  ℕ, zero, suc, ◌+◌, ◌<◌, ◌≡◌, ◌≢◌, refl, ap, sym, ◌∙◌, true, Option, none, some, List, [], ◌∷◌,
  arith, leb, ◌==◌, length, get_or, get_or-set_ne, length-set, Bool-cases, Option-cases, inl, inr,
  ℤ, pos,
}
use native.Mathlib.Decide.{ℕ_discrete}
use har_lin_kernel.Pipe
use har_lin_kernel.Ipc.Msg
use har_lin_kernel.Ipc.Sem
use har_lin_kernel.Scheduler.{
  Process, no_process, Sched, Context, process, change, set_current, process_current, in_range,
  is_absent, wake, max_cpus,
}
use har_lin_kernel.Scheduler.Affinity.{
  IsValid, Keeps, Respects, Keeps-IsValid, Keeps-refl, Keeps-trans, Keeps-change, Keeps-clear,
  cleared, one_cpu,
}
use har_lin_kernel.Scheduler.Steps.{Keeps-wake, schedule-IsValid}
use har_lin_kernel.Scheduler.Life.{
  Kernel, wake_all, close_handle, close_loop, close_handles, free_pages, free_kernel_stack,
  no_handles, no_pages, no_kernel_stack, set_absent, end_process, exit_at, exit, add_handle,
  register_at, register_handle, drop_handle, remove_handle, unregister_at, unregister_handle,
  find_absent, fork_child, fork_into, fork_at, fork, handle_kind_pipe, handle_kind_msgq,
  handle_kind_sem, max_handles,
}

Keeps-wake_all : (pids : List ℕ) (s : Sched) → Keeps s (wake_all pids s)
unfolding wake_all
Keeps-wake_all [] s = Keeps-refl s
Keeps-wake_all (p ∷ ps) s = Keeps-trans (Keeps-wake (pos p) s) (Keeps-wake_all ps (wake (pos p) s))

Keeps-close_handle : (kind : ℕ) (id : ℤ) (k : Kernel) → Keeps k.sched (close_handle kind id k).sched
unfolding close_handle
Keeps-close_handle kind id k = elim (Bool-cases (kind == handle_kind_pipe)) [
  | inl p ↦ rw p (Keeps-wake_all (Pipe.close id k.pipes).1 k.sched)
  | inr q ↦ rw q (elim (Bool-cases (kind == handle_kind_msgq)) [
    | inl p ↦ rw p (Keeps-wake_all (Msg.destroy id k.queues).1 k.sched)
    | inr r ↦ rw r (elim (Bool-cases (kind == handle_kind_sem)) [
      | inl p ↦ rw p (Keeps-wake_all (Sem.destroy id k.semaphores).1 k.sched)
      | inr t ↦ rw t (Keeps-refl k.sched)
    ])
  ])
]

Keeps-close_loop : (pid rounds i : ℕ) (k : Kernel) → Keeps k.sched (close_loop pid rounds i k).sched
unfolding close_loop
Keeps-close_loop pid zero i k = Keeps-refl k.sched
Keeps-close_loop pid (suc n) i k =
    let p = process k.sched pid in
    Keeps-trans (Keeps-close_handle (get_or p.handle_kinds i 0) (get_or p.handles i (pos 0)) k)
      (Keeps-close_loop pid n (i + 1) _)

pub Keeps-close_handles : (pid : ℕ) (k : Kernel) → Keeps k.sched (close_handles pid k).sched
unfolding close_handles
Keeps-close_handles pid k =
    let n = (process k.sched pid).handle_count in
    Keeps-trans (Keeps-close_loop pid n 0 k) (
      Keeps-change pid no_handles (close_loop pid n 0 k).sched
        (record { cpu = λ p. refl; stays = λ p h. h }))

pub Keeps-free_pages : (pid : ℕ) (k : Kernel) → Keeps k.sched (free_pages pid k).1.sched
unfolding free_pages
Keeps-free_pages pid k =
    Keeps-change pid no_pages k.sched (record { cpu = λ p. refl; stays = λ p h. h })

pub Keeps-free_kernel_stack :
    (pid : ℕ) (k : Kernel) → Keeps k.sched (free_kernel_stack pid k).1.sched
unfolding free_kernel_stack
Keeps-free_kernel_stack pid k = elim (Bool-cases ((process k.sched pid).kernel_stack_base == 0)) [
  | inl z ↦ rw z (Keeps-refl k.sched)
  | inr n ↦
      rw n (Keeps-change pid no_kernel_stack k.sched (record { cpu = λ p. refl; stays = λ p h. h }))
]

-- A process that no CPU runs can become any other.
change_unused-IsValid :
    (i : ℕ) (f : Process → Process) (s : Sched)
    → ((c : ℕ) → get_or s.current c none ≢ some i)
    → IsValid s
    → IsValid (change i f s)
change_unused-IsValid i f s unused v = record {
  size = length-set s.processes i (f (process s i)) ∙ v.size;
  cpus = v.cpus;
  home = λ c j e.
      let h = v.home c j e in
      let old =
        get_or-set_ne s.processes i j (f (process s i)) no_process
          (λ same. unused c (e ∙ ap some (sym same))) in
      record {
        in_table = h.in_table;
        on = ap (λ p. p.cpu) old ∙ h.on;
        alive = ap (λ p. is_absent p.state) old ∙ h.alive;
      };
}

-- The CPU gives up its process, which goes away; what was done to the process before keeps the
-- rest.
end-IsValid :
    (cpu cp : ℕ) (s t : Sched)
    → get_or s.current cpu none ≡ some cp
    → IsValid s
    → Keeps s t
    → IsValid (change cp set_absent (set_current cpu none t))
end-IsValid cpu cp s t e v k =
    let gone = Keeps-clear cpu t in
    change_unused-IsValid cp set_absent (set_current cpu none t)
      (λ c runs. elim (ℕ_discrete cpu c) [
        | yes same ↦ cleared cpu c cp t same runs
        | no ne ↦ ne (one_cpu s cpu c cp v e (k.no_start c cp (gone.no_start c cp runs)))
      ])
      (Keeps-IsValid (Keeps-trans k gone) v)

end_process-IsValid :
    (cpu cp : ℕ) (k : Kernel)
    → get_or k.sched.current cpu none ≡ some cp
    → IsValid k.sched
    → IsValid (end_process cpu cp k).1.sched
unfolding end_process
end_process-IsValid cpu cp k e v =
    let k' = (free_pages cp (close_handles cp k)).1 in
    end-IsValid cpu cp k.sched (free_kernel_stack cp k').1.sched e v (
      Keeps-trans (Keeps-close_handles cp k)
        (Keeps-trans (Keeps-free_pages cp (close_handles cp k)) (Keeps-free_kernel_stack cp k')))

in_range-some : (o : Option ℕ) (i : ℕ) → in_range o ≡ some i → o ≡ some i
in_range-some none i e = absurd (ground arith)
in_range-some (some k) i e = ground arith

exit_at-IsValid :
    (cpu : ℕ) (k : Kernel)
    → IsValid k.sched
    → IsValid (exit_at cpu (process_current cpu k.sched) k).1.sched
unfolding exit_at
exit_at-IsValid cpu k v = elim (Option-cases (process_current cpu k.sched)) [
  | inl n ↦ rw n v
  | inr (cp, e) ↦
      rw e (end_process-IsValid cpu cp k (in_range-some (get_or k.sched.current cpu none) cp e) v)
]

pub exit-IsValid :
    (cpu : ℕ) (c : Context) (k : Kernel)
    → cpu < max_cpus
    → IsValid k.sched
    → IsValid (exit cpu c k).2.sched
unfolding exit
exit-IsValid cpu c k lt v = schedule-IsValid cpu c _ lt (exit_at-IsValid cpu k v)

add_handle-Respects : (kind : ℕ) (id : ℤ) → Respects (add_handle kind id)
unfolding add_handle
add_handle-Respects kind id = record { cpu = λ p. refl; stays = λ p h. h }

pub register_handle-IsValid :
    (cpu kind : ℕ) (id : ℤ) (s : Sched) → IsValid s → IsValid (register_handle cpu kind id s).1
unfolding register_handle register_at
register_handle-IsValid cpu kind id s v = elim (Option-cases (process_current cpu s)) [
  | inl n ↦ rw n v
  | inr (i, e) ↦ rw e (elim (Bool-cases (leb max_handles (process s i).handle_count)) [
    | inl full ↦ rw full v
    | inr room ↦
        rw room
          (Keeps-IsValid (Keeps-change i (add_handle kind id) s (add_handle-Respects kind id)) v)
  ])
]

remove_handle-Respects : (o : Option ℕ) → Respects (remove_handle o)
unfolding remove_handle
remove_handle-Respects none = record { cpu = λ p. refl; stays = λ p h. h }
remove_handle-Respects (some i) = record { cpu = λ p. refl; stays = λ p h. h }

drop_handle-Respects : (id : ℤ) → Respects (drop_handle id)
unfolding drop_handle
drop_handle-Respects id = record {
  cpu = λ p. (remove_handle-Respects _).cpu p;
  stays = λ p h. (remove_handle-Respects _).stays p h;
}

pub unregister_handle-IsValid :
    (cpu : ℕ) (id : ℤ) (s : Sched) → IsValid s → IsValid (unregister_handle cpu id s)
unfolding unregister_handle unregister_at
unregister_handle-IsValid cpu id s v = elim (Option-cases (process_current cpu s)) [
  | inl n ↦ rw n v
  | inr (i, e) ↦
      rw e (Keeps-IsValid (Keeps-change i (drop_handle id) s (drop_handle-Respects id)) v)
]

pub find_absent_lem :
    (ps : List Process) (i j : ℕ)
    → find_absent ps i ≡ some j
    → (k : ℕ) × (j ≡ i + k) × (k < length ps) × (is_absent (get_or ps k no_process).state ≡ true)
unfolding find_absent
find_absent_lem [] i j e = absurd (ground arith)
find_absent_lem (p ∷ ps) i j e = elim (Bool-cases (is_absent p.state)) [
  | inl a ↦ (0, ground arith, omega arith, a)
  | inr b ↦
      let (k, eq, lt, a) = find_absent_lem ps (i + 1) j (ground arith) in
      (suc k, omega arith, omega arith, a)
]

fork_into-IsValid :
    (parent : ℕ) (o : Option ℕ) (s : Sched)
    → find_absent s.processes 0 ≡ o
    → IsValid s
    → IsValid (fork_into parent o s).1
unfolding fork_into
fork_into-IsValid parent none s e v = v
fork_into-IsValid parent (some child) s e v =
    let (k, eq, lt, a) = find_absent_lem s.processes 0 child e in
    let is : child ≡ k = omega arith in
    change_unused-IsValid child (fork_child (process s parent)) s
      (λ c runs.
        let h = v.home c child runs in
        ground (arith, h.alive, ap (λ i. is_absent (process s i).state) is))
      v

fork_at-IsValid : (o : Option ℕ) (s : Sched) → IsValid s → IsValid (fork_at o s).1
unfolding fork_at
fork_at-IsValid none s v = v
fork_at-IsValid (some i) s v = elim (Bool-cases (is_absent (process s i).state)) [
  | inl a ↦ rw a v
  | inr b ↦ rw b (fork_into-IsValid i _ s refl v)
]

pub fork-IsValid : (pid : ℤ) (s : Sched) → IsValid s → IsValid (fork pid s).1
unfolding fork
fork-IsValid pid s v = fork_at-IsValid _ s v
