-- ===== src/Scheduler/Life/Exit.antt =====
-- Which pages are free after `process_exit` of src/harlin/proc/scheduler.c, also of a process that
-- `Harlin_Fork` made.
use har_lin_kernel.Base.{
  ℕ, zero, suc, ◌+◌, ◌≡◌, ◌≢◌, refl, ap, ◌∙◌, false, List, [], ◌∷◌, arith, ◌==◌, get_or,
  get_or-set_ne, Bool-cases, Option-cases, inl, inr, ℤ, pos, index,
}
use har_lin_kernel.Pmm.{Pmm, is_used}
use har_lin_kernel.Pmm.Bitmap
use har_lin_kernel.Pmm.Free.{Freer, Freer-refl}
use har_lin_kernel.Pipe
use har_lin_kernel.Ipc.Msg
use har_lin_kernel.Ipc.Sem
use har_lin_kernel.Scheduler.{
  Process, no_process, Sched, process, change, wake, wake_at, wake_process, max_processes,
}
use har_lin_kernel.Scheduler.Affinity.{process-change}
use har_lin_kernel.Scheduler.Life.{
  Kernel, wake_all, close_handle, close_loop, close_handles, free_pages, free_kernel_stack,
  end_process, no_handles, no_pages, no_kernel_stack, set_absent, handle_kind_pipe,
  handle_kind_msgq, handle_kind_sem,
}
use har_lin_kernel.Scheduler.Life.Pages.{
  HasPage, has_page, free_loop-Freer, free_stack_loop-Freer, free_loop_frees,
}

-- Process `i` has the same pages in both states.
pub record SamePages (i : ℕ) (s s' : Sched) : Type 0 where
  pub pages : (process s' i).user_pages ≡ (process s i).user_pages
  pub number : (process s' i).page_count ≡ (process s i).page_count

SamePages-refl : (i : ℕ) (s : Sched) → SamePages i s s
SamePages-refl i s = record { pages = refl; number = refl }

SamePages-trans : {i : ℕ} {s t u : Sched} → SamePages i s t → SamePages i t u → SamePages i s u
SamePages-trans a b = record { pages = b.pages ∙ a.pages; number = b.number ∙ a.number }

-- An assignment to other fields, or to another process.
SamePages-change :
    (i j : ℕ) (f : Process → Process) (s : Sched)
    → ((p : Process) → (f p).user_pages ≡ p.user_pages)
    → ((p : Process) → (f p).page_count ≡ p.page_count)
    → SamePages i s (change j f s)
SamePages-change i j f s a b = record {
  pages =
      process-change (λ p. p.user_pages ≡ (process s i).user_pages) j f s i refl (a (process s i));
  number =
      process-change (λ p. p.page_count ≡ (process s i).page_count) j f s i refl (b (process s i));
}

pub SamePages-other :
    (i j : ℕ) (f : Process → Process) (s : Sched) → j ≢ i → SamePages i s (change j f s)
SamePages-other i j f s ne =
    let old = get_or-set_ne s.processes j i (f (process s j)) no_process ne in
    record { pages = ap (λ p. p.user_pages) old; number = ap (λ p. p.page_count) old }

SamePages-wake : (i : ℕ) (pid : ℤ) (s : Sched) → SamePages i s (wake pid s)
unfolding wake wake_at wake_process
SamePages-wake i pid s = elim (Option-cases (index max_processes pid)) [
  | inl e ↦ rw e (SamePages-refl i s)
  | inr (j, e) ↦ rw e (SamePages-change i j wake_process s (λ p. ground arith) (λ p. ground arith))
]

SamePages-wake_all : (i : ℕ) (pids : List ℕ) (s : Sched) → SamePages i s (wake_all pids s)
unfolding wake_all
SamePages-wake_all i [] s = SamePages-refl i s
SamePages-wake_all i (p ∷ ps) s =
    SamePages-trans (SamePages-wake i (pos p) s) (SamePages-wake_all i ps (wake (pos p) s))

-- What closing handles leaves alone.
record Untouched (i : ℕ) (k k' : Kernel) : Type 0 where
  same_pages : SamePages i k.sched k'.sched
  same_pmm : k'.pmm ≡ k.pmm

Untouched-close_handle : (i kind : ℕ) (id : ℤ) (k : Kernel) → Untouched i k (close_handle kind id k)
unfolding close_handle
Untouched-close_handle i kind id k = elim (Bool-cases (kind == handle_kind_pipe)) [
  | inl p ↦ rw p (record {
    same_pages = SamePages-wake_all i (Pipe.close id k.pipes).1 k.sched;
    same_pmm = refl;
  })
  | inr q ↦ rw q (elim (Bool-cases (kind == handle_kind_msgq)) [
    | inl p ↦ rw p (record {
      same_pages = SamePages-wake_all i (Msg.destroy id k.queues).1 k.sched;
      same_pmm = refl;
    })
    | inr r ↦ rw r (elim (Bool-cases (kind == handle_kind_sem)) [
      | inl p ↦ rw p (record {
        same_pages = SamePages-wake_all i (Sem.destroy id k.semaphores).1 k.sched;
        same_pmm = refl;
      })
      | inr t ↦ rw t (record { same_pages = SamePages-refl i k.sched; same_pmm = refl })
    ])
  ])
]

Untouched-close_loop : (i pid rounds h : ℕ) (k : Kernel) → Untouched i k (close_loop pid rounds h k)
unfolding close_loop
Untouched-close_loop i pid zero h k = record {
  same_pages = SamePages-refl i k.sched;
  same_pmm = refl;
}
Untouched-close_loop i pid (suc n) h k =
    let p = process k.sched pid in
    let k' = close_handle (get_or p.handle_kinds h 0) (get_or p.handles h (pos 0)) k in
    let first =
      Untouched-close_handle i (get_or p.handle_kinds h 0) (get_or p.handles h (pos 0)) k in
    let rest = Untouched-close_loop i pid n (h + 1) k' in
    record {
      same_pages = SamePages-trans first.same_pages rest.same_pages;
      same_pmm = rest.same_pmm ∙ first.same_pmm;
    }

Untouched-close_handles : (i pid : ℕ) (k : Kernel) → Untouched i k (close_handles pid k)
unfolding close_handles
Untouched-close_handles i pid k =
    let n = (process k.sched pid).handle_count in
    let closed = Untouched-close_loop i pid n 0 k in
    record {
      same_pages =
          SamePages-trans closed.same_pages (
            SamePages-change i pid no_handles (close_loop pid n 0 k).sched (λ p. refl) (λ p. refl));
      same_pmm = closed.same_pmm;
    }

pub HasPage-moves :
    {i n idx : ℕ} {s s' : Sched} {m m' : Pmm}
    → SamePages i s s'
    → m'.total_pages ≡ m.total_pages
    → HasPage (process s i) m n idx
    → HasPage (process s' i) m' n idx
HasPage-moves {n} same total (has_page lt e h) =
    has_page (omega (arith, same.number)) (ap (λ t. get_or t n 0) same.pages ∙ e)
      (omega (arith, total))

free_pages_frees :
    (cp n idx : ℕ) (k : Kernel)
    → Bitmap.IsValid k.pmm
    → HasPage (process k.sched cp) k.pmm n idx
    → is_used (free_pages cp k).1.pmm.bitmap idx ≡ false
unfolding free_pages
free_pages_frees cp n idx k v (has_page lt e h) =
    free_loop_frees (process k.sched cp) (process k.sched cp).page_count 0 n idx k.pmm v
      (omega arith) (omega arith) e h

free_pages-Freer :
    (cp : ℕ) (k : Kernel) → Bitmap.IsValid k.pmm → Freer k.pmm (free_pages cp k).1.pmm
unfolding free_pages
free_pages-Freer cp k v =
    free_loop-Freer (process k.sched cp) (process k.sched cp).page_count 0 k.pmm v

free_kernel_stack-Freer :
    (cp : ℕ) (k : Kernel) → Bitmap.IsValid k.pmm → Freer k.pmm (free_kernel_stack cp k).1.pmm
unfolding free_kernel_stack
free_kernel_stack-Freer cp k v = elim (Bool-cases ((process k.sched cp).kernel_stack_base == 0)) [
  | inl z ↦ rw z (Freer-refl v)
  | inr n ↦ rw n (
      free_stack_loop-Freer (process k.sched cp) (process k.sched cp).kernel_stack_pages_count 0
        k.pmm v)
]

-- When a process exits, each of its pages is free in the bitmap of the allocator.
pub exit_frees :
    (cpu cp n idx : ℕ) (k : Kernel)
    → Bitmap.IsValid k.pmm
    → HasPage (process k.sched cp) k.pmm n idx
    → is_used (end_process cpu cp k).1.pmm.bitmap idx ≡ false
unfolding end_process
exit_frees cpu cp n idx k v has =
    let closed = Untouched-close_handles cp cp k in
    let w : Bitmap.IsValid (close_handles cp k).pmm = rw closed.same_pmm v in
    let freed =
      free_pages_frees cp n idx (close_handles cp k) w
        (HasPage-moves closed.same_pages (ap (λ m. m.total_pages) closed.same_pmm) has) in
    let v' = (free_pages-Freer cp (close_handles cp k) w).valid in
    (free_kernel_stack-Freer cp (free_pages cp (close_handles cp k)).1 v').still_free idx freed

free_kernel_stack_others :
    (i cp : ℕ) (k : Kernel) → SamePages i k.sched (free_kernel_stack cp k).1.sched
unfolding free_kernel_stack
free_kernel_stack_others i cp k = elim (Bool-cases ((process k.sched cp).kernel_stack_base == 0)) [
  | inl z ↦ rw z (SamePages-refl i k.sched)
  | inr n ↦ rw n (SamePages-change i cp no_kernel_stack k.sched (λ p. refl) (λ p. refl))
]

free_pages_others : (i cp : ℕ) (k : Kernel) → cp ≢ i → SamePages i k.sched (free_pages cp k).1.sched
unfolding free_pages
free_pages_others i cp k ne = SamePages-other i cp no_pages k.sched ne

-- The other processes keep their lists of pages.
pub exit_others :
    (cpu cp i : ℕ) (k : Kernel) → cp ≢ i → SamePages i k.sched (end_process cpu cp k).1.sched
unfolding end_process
exit_others cpu cp i k ne =
    let closed = Untouched-close_handles i cp k in
    let k' = (free_pages cp (close_handles cp k)).1 in
    let freed = free_pages_others i cp (close_handles cp k) ne in
    let stack = free_kernel_stack_others i cp k' in
    let gone = SamePages-other i cp set_absent (free_kernel_stack cp k').1.sched ne in
    SamePages-trans closed.same_pages (
      SamePages-trans freed
        (SamePages-trans stack (record { pages = gone.pages; number = gone.number })))

pub exit_total :
    (cpu cp : ℕ) (k : Kernel)
    → Bitmap.IsValid k.pmm
    → (end_process cpu cp k).1.pmm.total_pages ≡ k.pmm.total_pages
unfolding end_process
exit_total cpu cp k v =
    let closed = Untouched-close_handles cp cp k in
    let w : Bitmap.IsValid (close_handles cp k).pmm = rw closed.same_pmm v in
    let a = free_pages-Freer cp (close_handles cp k) w in
    (free_kernel_stack-Freer cp (free_pages cp (close_handles cp k)).1 a.valid).same_total
    ∙ a.same_total
    ∙ ap (λ m. m.total_pages) closed.same_pmm
