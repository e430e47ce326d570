-- ===== src/Pmm/Contiguous.antt =====
-- `pmm_alloc_contiguous` and `pmm_alloc_low`: runs of pages.
use har_lin_kernel.Base.{
  ℕ, zero, suc, ◌+◌, ◌-◌, ◌*◌, ◌/◌, ◌%◌, ◌^◌, ◌≤◌, ◌<◌, ◌≡◌, Bool, true, ◌||◌, ◌&&◌, List, arith,
  ltb, leb, refl, some, none, Option,
}
use native.Mathlib.Nat.{mod-lt}
use har_lin_kernel.Pmm.{
  Pmm, is_used, mark_run, find_run, find_contiguous, alloc_contiguous, alloc_low, page_addr,
  page_size, isa_dma_limit,
}
use har_lin_kernel.Pmm.Bitmap.{IsBytes, IsValid, is_used-mark, mark-IsBytes}
use har_lin_kernel.Pmm.Single.{whole, small_total}
use har_lin_kernel.Pmm.Search.{RunFree, FoundRun, found, missing, find_run-FoundRun}

-- The `n` pages from `base` on, as a test.
abbrev pub in_run : ℕ → ℕ → ℕ → Bool
in_run base n k = leb base k && ltb k (base + n)

mark_run-IsBytes :
    (n base size : ℕ) {bitmap : List ℕ}
    → IsBytes size bitmap
    → base + n ≤ size * 8
    → base + n < 2 ^ 32
    → IsBytes size (mark_run n base bitmap)
unfolding mark_run
mark_run-IsBytes zero base size v h l = v
mark_run-IsBytes (suc n) base size v h l =
    mark_run-IsBytes n ((base + 1) % 2 ^ 32) size (mark-IsBytes v base (omega arith)) (omega arith)
      (omega arith)

-- Marking a run makes its pages used, and no others.
is_used-mark_run :
    (n base size : ℕ) {bitmap : List ℕ}
    → IsBytes size bitmap
    → base + n ≤ size * 8
    → base + n < 2 ^ 32
    → (k : ℕ) → is_used (mark_run n base bitmap) k ≡ (is_used bitmap k || in_run base n k)
unfolding mark_run
is_used-mark_run zero base size v h l k = ground arith
is_used-mark_run (suc n) base size v h l k = ground (
  arith,
  is_used-mark v base (omega arith) k,
  is_used-mark_run n ((base + 1) % 2 ^ 32) size (mark-IsBytes v base (omega arith)) (omega arith)
      (omega arith) k,
)

-- What a call for `count` pages may return: nothing, with no run of free pages that may be used and
-- that starts in a whole byte of the bitmap; or such a run, which is then marked.
pub data Granted (may_use : ℕ → Bool) (count : ℕ) (s : Pmm) (addr : ℕ) (s' : Pmm) : Type 0 where
  refused :
      addr ≡ 0
      → s' ≡ s
      → ((base : ℕ)
          → base < whole s
          → base + count ≤ s.total_pages
          → ¬ RunFree s.bitmap may_use count base)
      → Granted may_use count s addr s'
  run :
      (start : ℕ)
      → addr ≡ page_addr start
      → start + count ≤ s.total_pages
      → RunFree s.bitmap may_use count start
      → ((k : ℕ) → is_used s'.bitmap k ≡ (is_used s.bitmap k || in_run start count k))
      → Granted may_use count s addr s'

-- The second pass starts anew, so what it misses is missing.
second_pass :
    (bitmap : List ℕ) (may_use : ℕ → Bool) (total count cur lo hi : ℕ) (out out' : Option ℕ)
    → FoundRun bitmap may_use total count cur lo hi out
    → FoundRun bitmap may_use total count 0 0 hi out'
    → FoundRun bitmap may_use total count 0 0 hi (elim out [ some idx ↦ some idx | none ↦ out' ])
second_pass bitmap may_use total count cur lo hi out out' (found base e l r) next =
    rw e (found base refl l r)
second_pass bitmap may_use total count cur lo hi out out' (missing e before) next = rw e next

find_contiguous-FoundRun :
    (s : Pmm) (count : ℕ)
    → IsValid s
    → 0 < count
    → s.total_pages + count < 2 ^ 32
    → FoundRun s.bitmap
        (λ _. true)
        s.total_pages
        count
        0
        0
        (whole s)
        (find_contiguous s.bitmap s.total_pages s.last_idx count)
unfolding find_contiguous
find_contiguous-FoundRun s count v c h =
    let bytes : ℕ = s.total_pages / 8 in
    let from : ℕ = s.last_idx / 8 in
    second_pass s.bitmap (λ _. true) s.total_pages count s.last_idx (from * 8) (whole s) _ _
      (find_run-FoundRun s.bitmap (λ _. true) s.total_pages count s.last_idx h bytes (omega arith)
        (bytes - from) from (from * 8) (whole s) c refl (omega arith) (omega arith))
      (find_run-FoundRun s.bitmap (λ _. true) s.total_pages count 0 h bytes (omega arith) bytes 0 0
        (whole s) c (omega arith) (omega arith) (omega arith))

contiguous-missing :
    (s : Pmm) (count : ℕ)
    → s.total_pages % 2 ^ 32 ≡ s.total_pages
    → find_contiguous s.bitmap s.total_pages s.last_idx count ≡ none
    → alloc_contiguous count s ≡ (0, s)
unfolding alloc_contiguous
contiguous-missing s count v e = ground arith

contiguous-found :
    (s : Pmm) (count start : ℕ)
    → s.total_pages % 2 ^ 32 ≡ s.total_pages
    → 0 < count
    → find_contiguous s.bitmap s.total_pages s.last_idx count ≡ some start
    → alloc_contiguous count s ≡ (
      page_addr start,
      record s {
        bitmap = mark_run count start s.bitmap;
        last_idx = (start + count) % 2 ^ 32 % s.total_pages;
      },
    )
unfolding alloc_contiguous
contiguous-found s count start v c e = ground arith

contiguous_cases :
    (s : Pmm) (count : ℕ)
    → IsValid s
    → 0 < count
    → s.total_pages + count < 2 ^ 32
    → FoundRun s.bitmap
        (λ _. true)
        s.total_pages
        count
        0
        0
        (whole s)
        (find_contiguous s.bitmap s.total_pages s.last_idx count)
    → IsValid (alloc_contiguous count s).1
      × Granted (λ _. true) count s (alloc_contiguous count s).0 (alloc_contiguous count s).1
contiguous_cases s count v c h (missing e before) =
    rw (contiguous-missing s count (small_total v) e)
      (v, refused refl refl (λ base p l. before base (omega arith) p (omega arith) l))
contiguous_cases s count v c h (found start e l r) =
    rw (contiguous-found s count start (small_total v) c e) (
      record {
        bitmap = mark_run-IsBytes count start _ v.bitmap (omega arith) (omega arith);
        some_pages = v.some_pages;
        few_pages = v.few_pages;
        last = mod-lt _ v.some_pages;
      },
      run start refl l r (is_used-mark_run count start _ v.bitmap (omega arith) (omega arith)),
    )

-- On a valid allocator, a call of `alloc_contiguous` for at least one page, whose count added to
-- the number of pages fits a `u32`, either returns 0, changes nothing, and there is no run of
-- `count` free pages that starts in a whole byte of the bitmap; or it returns the address of such a
-- run and marks exactly its pages. The validity is kept.
pub alloc_contiguous_lem :
    (s : Pmm) (count : ℕ)
    → IsValid s
    → 0 < count
    → s.total_pages + count < 2 ^ 32
    → IsValid (alloc_contiguous count s).1
      × Granted (λ _. true) count s (alloc_contiguous count s).0 (alloc_contiguous count s).1
alloc_contiguous_lem s count v c h =
    contiguous_cases s count v c h (find_contiguous-FoundRun s count v c h)

-- The pages that a DMA controller of the ISA bus reaches.
abbrev pub is_low : ℕ → Bool
is_low idx = leb (page_addr idx + page_size) isa_dma_limit

low-missing :
    (s : Pmm) (count : ℕ)
    → s.total_pages % 2 ^ 32 ≡ s.total_pages
    → find_run s.bitmap is_low s.total_pages count 0 (s.total_pages / 8) 0 ≡ none
    → alloc_low count s ≡ (0, s)
unfolding alloc_low
low-missing s count v e = ground arith

low-found :
    (s : Pmm) (count start : ℕ)
    → s.total_pages % 2 ^ 32 ≡ s.total_pages
    → 0 < count
    → find_run s.bitmap is_low s.total_pages count 0 (s.total_pages / 8) 0 ≡ some start
    → alloc_low count s ≡ (page_addr start, record s { bitmap = mark_run count start s.bitmap })
unfolding alloc_low
low-found s count start v c e = ground arith

low_cases :
    (s : Pmm) (count : ℕ)
    → IsValid s
    → 0 < count
    → s.total_pages + count < 2 ^ 32
    → FoundRun s.bitmap is_low s.total_pages count 0 0
        (whole s)
        (find_run s.bitmap is_low s.total_pages count 0 (s.total_pages / 8) 0)
    → IsValid (alloc_low count s).1
      × Granted is_low count s (alloc_low count s).0 (alloc_low count s).1
low_cases s count v c h (missing e before) =
    rw (low-missing s count (small_total v) e)
      (v, refused refl refl (λ base p l. before base (omega arith) p (omega arith) l))
low_cases s count v c h (found start e l r) = rw (low-found s count start (small_total v) c e) (
  record {
    bitmap = mark_run-IsBytes count start _ v.bitmap (omega arith) (omega arith);
    some_pages = v.some_pages;
    few_pages = v.few_pages;
    last = v.last;
  },
  run start refl l r (is_used-mark_run count start _ v.bitmap (omega arith) (omega arith)),
)

-- On a valid allocator, a call of `alloc_low` for at least one page, whose count added to the
-- number of pages fits a `u32`, either returns 0, changes nothing, and there is no run of `count`
-- free pages, each ending at or below the limit of ISA DMA, that starts in a whole byte of the
-- bitmap; or it returns the address of such a run and marks exactly its pages. The validity is
-- kept.
pub alloc_low_lem :
    (s : Pmm) (count : ℕ)
    → IsValid s
    → 0 < count
    → s.total_pages + count < 2 ^ 32
    → IsValid (alloc_low count s).1
      × Granted is_low count s (alloc_low count s).0 (alloc_low count s).1
alloc_low_lem s count v c h = low_cases s count v c h (
    find_run-FoundRun s.bitmap is_low s.total_pages count 0 h (s.total_pages / 8) (omega arith)
      (s.total_pages / 8) 0 0 (whole s) c (omega arith) (omega arith) (omega arith))
