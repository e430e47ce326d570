-- ===== src/Scheduler/Life/Forked.antt =====
-- The pages of a process that `Harlin_Fork` of src/harlin/proc/scheduler.c made, when it exits.
use har_lin_kernel.Base.{
  ℕ, zero, suc, ◌≤◌, ◌<◌, ◌≡◌, ◌≢◌, refl, ap, sym, ◌∙◌, true, false, Option, none, some, List, [],
  ◌∷◌, ◌++◌, arith, length, get_or, get_or-set_self, take, min, Bool-cases, inl, inr, pos,
  index-pos,
}
use mathlib.Core.Path.{subst}
use har_lin_kernel.Pmm.{Pmm, is_used}
use har_lin_kernel.Pmm.Bitmap
use har_lin_kernel.Scheduler.{
  no_process, Sched, process, change, max_processes, max_pages, is_absent,
}
use har_lin_kernel.Scheduler.Life.{
  Kernel, end_process, fork, fork_at, fork_into, fork_child, find_absent,
}
use har_lin_kernel.Scheduler.Life.OneCpu.{find_absent_lem}
use har_lin_kernel.Scheduler.Life.Pages.{HasPage, has_page}
use har_lin_kernel.Scheduler.Life.Exit.{
  SamePages, SamePages-other, HasPage-moves, exit_frees, exit_others, exit_total,
}

get_or-copy {ℓ} :
    {A : Type ℓ} (m n : ℕ) (xs ys : List A) (d : A)
    → n < m
    → n < length xs
    → get_or (take m xs ++ ys) n d ≡ get_or xs n d
get_or-copy zero n xs ys d h k = absurd (omega arith)
get_or-copy (suc m) n [] ys d h k = absurd (omega arith)
get_or-copy (suc m) zero (x ∷ xs) ys d h k = refl
get_or-copy (suc m) (suc n) (x ∷ xs) ys d h k = get_or-copy m n xs ys d (omega arith) (omega arith)

-- What a successful fork has done.
record Forked (i child : ℕ) (s s' : Sched) : Type 0 where
  in_table : child < length s.processes
  other : child ≢ i
  result : s' ≡ change child (fork_child (process s i)) s

fork_into-Forked :
    (i child : ℕ) (o : Option ℕ) (s s' : Sched)
    → find_absent s.processes 0 ≡ o
    → is_absent (process s i).state ≡ false
    → fork_into i o s ≡ (some child, s')
    → Forked i child s s'
unfolding fork_into
fork_into-Forked i child none s s' found alive e = absurd (ground arith)
fork_into-Forked i child (some c) s s' found alive e =
    let (k, eq, lt, a) = find_absent_lem s.processes 0 c found in
    let same : c ≡ child = ground (arith, ap (λ t. t.0) e) in
    let is : k ≡ child = omega arith in
    record {
      in_table = omega arith;
      other = λ h. ground (arith, alive, ap (λ j. is_absent (process s j).state) (is ∙ h));
      result = sym (ap (λ t. t.1) e) ∙ ap (λ j. change j (fork_child (process s i)) s) same;
    }

fork_at-runs :
    (i : ℕ) (s : Sched)
    → is_absent (process s i).state ≡ false
    → fork_at (some i) s ≡ fork_into i (find_absent s.processes 0) s
unfolding fork_at
fork_at-runs i s b = rw b refl

fork_at-absent :
    (i : ℕ) (s : Sched) → is_absent (process s i).state ≡ true → fork_at (some i) s ≡ (none, s)
unfolding fork_at
fork_at-absent i s a = rw a refl

fork-Forked :
    (i child : ℕ) (s s' : Sched)
    → i < max_processes
    → fork (pos i) s ≡ (some child, s')
    → Forked i child s s'
unfolding fork
fork-Forked i child s s' lt e =
    let here = sym (ap (λ o. fork_at o s) (index-pos max_processes i lt)) ∙ e in
    elim (Bool-cases (is_absent (process s i).state)) [
      | inl a ↦ absurd (ground (arith, ap (λ t. t.0) (sym (fork_at-absent i s a) ∙ here)))
      | inr b ↦
          fork_into-Forked i child (find_absent s.processes 0) s s' refl b
            (sym (fork_at-runs i s b) ∙ here)
    ]

-- The child has the pages of its parent.
child_pages :
    (i child n idx : ℕ) (s s' : Sched) (m : Pmm)
    → Forked i child s s'
    → (process s i).page_count ≤ max_pages
    → length (process s i).user_pages ≡ max_pages
    → HasPage (process s i) m n idx
    → HasPage (process s' child) m n idx
unfolding fork_child
child_pages i child n idx s s' m f few full (has_page lt e h) =
    let there : process s' child ≡ fork_child (process s i) (process s child) =
      ap (λ t. process t child) f.result
      ∙ get_or-set_self s.processes child (fork_child (process s i) (process s child)) no_process
          f.in_table in
    has_page (omega (arith, ap (λ p. p.page_count) there, lt))
      (ap (λ p. get_or p.user_pages n 0) there
        ∙ get_or-copy (min (process s i).page_count 64) n (process s i).user_pages _ 0
            (omega (arith, lt)) (omega (arith, lt))
        ∙ e)
      h

-- A child of `Harlin_Fork` shares the pages of its parent, but `process_exit` gives them back: when
-- the child exits first, every page of the parent is free in the bitmap of the allocator, while the
-- parent still has it.
pub forked_exit_frees :
    (cpu i child n idx : ℕ) (k : Kernel) (s' : Sched)
    → Bitmap.IsValid k.pmm
    → i < max_processes
    → fork (pos i) k.sched ≡ (some child, s')
    → (process k.sched i).page_count ≤ max_pages
    → length (process k.sched i).user_pages ≡ max_pages
    → HasPage (process k.sched i) k.pmm n idx
    → let k' = (end_process cpu child (record k { sched = s' })).1 in
      HasPage (process k'.sched i) k'.pmm n idx × (is_used k'.pmm.bitmap idx ≡ false)
forked_exit_frees cpu i child n idx k s' v lt e few full has =
    let f = fork-Forked i child k.sched s' lt e in
    let k1 : Kernel = record k { sched = s' } in
    let same =
      subst (SamePages i k.sched) (sym f.result)
        (SamePages-other i child (fork_child (process k.sched i)) k.sched f.other) in
    let parent : HasPage (process s' i) k.pmm n idx = HasPage-moves same refl has in
    (
      HasPage-moves (exit_others cpu child i k1 f.other) (exit_total cpu child k1 v) parent,
      exit_frees cpu child n idx k1 v (child_pages i child n idx k.sched s' k.pmm f few full has),
    )
