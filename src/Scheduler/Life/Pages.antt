-- ===== src/Scheduler/Life/Pages.antt =====
-- The pages of a process that exits, in src/harlin/proc/scheduler.c, down to the bitmap of
-- src/harlin/mem/pmm.c.
use har_lin_kernel.Base.{
  ℕ, zero, suc, ◌+◌, ◌≤◌, ◌<◌, ◌≡◌, ap, ◌∙◌, false, arith, ◌==◌, get_or, Bool-cases, inl, inr,
}
use native.Mathlib.Decide.{ℕ_discrete}
use har_lin_kernel.Pmm.{Pmm, is_used, page_addr}
use har_lin_kernel.Pmm.Bitmap
use har_lin_kernel.Pmm.Free.{Freer, Freer-refl, Freer-trans, free-Freer, free_page_addr}
use har_lin_kernel.Scheduler.{Process}
use har_lin_kernel.Scheduler.Life.{free_phys, free_loop, free_stack_loop}

free_phys-Freer : (a : ℕ) (m : Pmm) → Bitmap.IsValid m → Freer m (free_phys a m)
free_phys-Freer a m v = elim (Bool-cases (a == 0)) [
  | inl z ↦ rw z (Freer-refl v)
  | inr n ↦ rw n (free-Freer m a v)
]

pub free_loop-Freer :
    (p : Process) (rounds i : ℕ) (m : Pmm) → Bitmap.IsValid m → Freer m (free_loop p rounds i m).1
unfolding free_loop
free_loop-Freer p zero i m v = Freer-refl v
free_loop-Freer p (suc n) i m v =
    let first = free_phys-Freer (get_or p.user_pages i 0) m v in
    Freer-trans first (free_loop-Freer p n (i + 1) _ first.valid)

pub free_stack_loop-Freer :
    (p : Process) (rounds j : ℕ) (m : Pmm)
    → Bitmap.IsValid m
    → Freer m (free_stack_loop p rounds j m).1
unfolding free_stack_loop
free_stack_loop-Freer p zero j m v = Freer-refl v
free_stack_loop-Freer p (suc n) j m v =
    let first = free_phys-Freer (get_or p.kernel_stack_pages_phys j 0) m v in
    Freer-trans first (free_stack_loop-Freer p n (j + 1) _ first.valid)

-- Page `j` of the process is page `idx` of the allocator.
pub data HasPage (p : Process) (m : Pmm) (j idx : ℕ) : Type 0 where
  has_page :
      j < p.page_count
      → get_or p.user_pages j 0 ≡ page_addr idx
      → idx < m.total_pages
      → HasPage p m j idx

pub free_loop_frees :
    (p : Process) (rounds i j idx : ℕ) (m : Pmm)
    → Bitmap.IsValid m
    → i ≤ j
    → j < i + rounds
    → get_or p.user_pages j 0 ≡ page_addr idx
    → idx < m.total_pages
    → is_used (free_loop p rounds i m).1.bitmap idx ≡ false
unfolding free_loop
free_loop_frees p zero i j idx m v le lt e h = absurd (omega arith)
free_loop_frees p (suc n) i j idx m v le lt e h =
    let first = free_phys-Freer (get_or p.user_pages i 0) m v in
    elim (ℕ_discrete i j) [
      | yes same ↦
          let is : get_or p.user_pages i 0 ≡ page_addr idx =
            ap (λ k. get_or p.user_pages k 0) same ∙ e in
          let nonzero : (page_addr idx == 0) ≡ false = ground arith in
          (free_loop-Freer p n (i + 1) _ first.valid).still_free idx
            (rw is (rw nonzero (free_page_addr m idx v h)))
      | no ne ↦
          free_loop_frees p n (i + 1) j idx _ first.valid (omega arith) (omega arith) e
            (omega (arith, first.same_total))
    ]
