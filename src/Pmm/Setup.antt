-- ===== src/Pmm/Setup.antt =====
-- `pmm_init_from_e820`: how many pages there are, and which are in use at the start.
use har_lin_kernel.Base.{
  ℕ, zero, suc, ◌+◌, ◌-◌, ◌*◌, ◌/◌, ◌%◌, ◌^◌, ◌≤◌, ◌<◌, ◌≡◌, true, false, ◌||◌, ◌&&◌, List, arith,
  ltb, leb, get_or, refl, inl, inr, some, none, Bool-cases, replicate, get_or-replicate,
  length-replicate,
}
use har_lin_kernel.Base.Bits.{test_bit-zero}
use har_lin_kernel.Pmm.{
  Pmm, is_used, is_reserved, mark_reserved, clamp_pages, check_layout, init_from_e820, page_addr,
  page_size, base_addr, bitmap_addr, bitmap_bytes, max_pages, total_pages_min,
}
use har_lin_kernel.Pmm.Bitmap.{IsBytes, IsValid, is_used_lem, is_used-mark, mark-IsBytes}

-- Page `k` of the allocator, as a page of memory.
abbrev frame : ℕ → ℕ
frame k = base_addr / page_size + k

module _ (bss_end total size : ℕ) where
  mark_reserved-IsBytes :
      (rounds i k : ℕ) {bitmap : List ℕ}
      → IsBytes size bitmap
      → i ≡ frame k
      → k + rounds ≤ size * 8
      → IsBytes size (mark_reserved bss_end total rounds i bitmap)
  unfolding mark_reserved
  mark_reserved-IsBytes zero i k v e h = v
  mark_reserved-IsBytes (suc rounds) i k v e h =
      let here : i - 768 ≡ k = omega arith in
      elim (Bool-cases (is_reserved bss_end total i)) [
        | inl r ↦
            rw (r, here)
              (mark_reserved-IsBytes rounds (i + 1) (k + 1) (mark-IsBytes v k (omega arith))
                (omega arith) (omega arith))
        | inr r ↦ rw r (mark_reserved-IsBytes rounds (i + 1) (k + 1) v (omega arith) (omega arith))
      ]

  -- The loop marks the reserved pages among those that it visits.
  is_used-mark_reserved :
      (rounds i k : ℕ) {bitmap : List ℕ}
      → IsBytes size bitmap
      → i ≡ frame k
      → k + rounds ≤ size * 8
      → (j : ℕ)
      → is_used (mark_reserved bss_end total rounds i bitmap) j ≡ (
          is_used bitmap j
          || (leb k j && ltb j (k + rounds) && is_reserved bss_end total (frame j)))
  unfolding mark_reserved
  is_used-mark_reserved zero i k v e h j = ground arith
  is_used-mark_reserved (suc rounds) i k v e h j =
      let here : i - 768 ≡ k = omega arith in
      elim (Bool-cases (is_reserved bss_end total i)) [
        | inl r ↦
            rw (r, here)
              (ground (
                arith,
                is_used-mark_reserved rounds (i + 1) (k + 1) (mark-IsBytes v k (omega arith))
                    (omega arith) (omega arith) j,
                is_used-mark v k (omega arith) j,
              ))
        | inr r ↦ rw r (
            ground
              (arith, is_used-mark_reserved rounds (i + 1) (k + 1) v (omega arith) (omega arith) j))
      ]

fresh-IsBytes : (n : ℕ) → IsBytes n (replicate n 0)
fresh-IsBytes n = record {
  size = length-replicate n (zero);
  bytes = λ i. ground (arith, get_or-replicate {A = ℕ} n i 0 0);
}

fresh-unused : (n k : ℕ) → is_used (replicate n 0) k ≡ false
fresh-unused n k =
    let empty : get_or (replicate n 0) (k / 8) 0 ≡ zero =
      ground (arith, get_or-replicate {A = ℕ} n (k / 8) 0 0) in
    rw (is_used_lem, empty) (test_bit-zero (k % 8))

-- The bitmap ends where the pages begin, at the latest, so only the kernel is reserved.
reserved_kernel :
    (bss_end total k : ℕ)
    → bss_end + page_size ≤ 2 ^ 32
    → total ≤ max_pages
    → is_reserved bss_end total (frame k) ≡ ltb (page_addr k) bss_end
unfolding is_reserved
reserved_kernel bss_end total k h l =
    let plain : bss_end % 2 ^ 32 ≡ bss_end = omega arith in
    let plain_sum : (bss_end + page_size - 1) % 2 ^ 32 ≡ bss_end + page_size - 1 = omega arith in
    ground arith

check_layout_fits : (total : ℕ) → total ≤ max_pages → check_layout total ≡ true
unfolding check_layout
check_layout_fits total h = ground arith

-- What the initialisation comes to.
module _ (bss_end top : ℕ) (s : Pmm) where
  abbrev pub pages : ℕ
  pages = clamp_pages ((top - base_addr) / page_size)

  pages_bounds : (total_pages_min ≤ pages) × (pages ≤ max_pages)
  unfolding clamp_pages
  pages_bounds = ground arith

  -- What the initialisation leaves behind.
  abbrev pub ready : Pmm
  ready = record s {
    bitmap =
        mark_reserved bss_end pages pages (base_addr / page_size)
          (replicate (bitmap_bytes pages) 0);
    total_pages = pages;
    top_addr = base_addr + pages * page_size;
  }

  init-ready : base_addr < top → init_from_e820 bss_end top s ≡ some ready
  unfolding init_from_e820
  init-ready h =
      let high : leb top base_addr ≡ false = ground arith in
      rw (high, check_layout_fits pages pages_bounds.1) refl

  bitmap-IsBytes : IsBytes (bitmap_bytes pages) ready.bitmap
  bitmap-IsBytes =
      mark_reserved-IsBytes bss_end pages (bitmap_bytes pages) pages 768 0
        (fresh-IsBytes (bitmap_bytes pages)) refl (omega arith)

  bitmap_bit :
      (k : ℕ)
      → is_used ready.bitmap k ≡ (leb 0 k && ltb k pages && is_reserved bss_end pages (frame k))
  bitmap_bit k = ground (
    arith,
    is_used-mark_reserved bss_end pages (bitmap_bytes pages) pages 768 0
        (fresh-IsBytes (bitmap_bytes pages)) refl (omega arith) k,
    fresh-unused (bitmap_bytes pages) k,
  )

  -- For memory that reaches above the first page and a kernel that ends below 4 GB,
  -- `init_from_e820` succeeds. It then manages from 32000 to 0x100000 pages, of which exactly those
  -- are in use that lie below the end of the kernel, and the bitmap ends before the pages begin.
  -- The state is valid if `last_idx` is below the least number of pages.
  pub init_from_e820_lem :
      base_addr < top
      → bss_end + page_size ≤ 2 ^ 32
      → s.last_idx < total_pages_min
      → (s' : Pmm) × (init_from_e820 bss_end top s ≡ some s')
        × IsValid s'
        × (total_pages_min ≤ s'.total_pages)
        × (bitmap_addr + bitmap_bytes s'.total_pages ≤ base_addr)
        × ((k : ℕ) → is_used s'.bitmap k ≡ (ltb k s'.total_pages && ltb (page_addr k) bss_end))
  init_from_e820_lem h small last = (
    ready,
    init-ready h,
    record {
      bitmap = bitmap-IsBytes;
      some_pages = omega (arith, pages_bounds);
      few_pages = pages_bounds.1;
      last = omega (arith, pages_bounds);
    },
    pages_bounds.0,
    omega (arith, pages_bounds),
    λ k. ground (arith, bitmap_bit k, reserved_kernel bss_end pages k small pages_bounds.1),
  )

-- Memory that ends at or below the first page is refused.
pub init_from_e820_low :
    (bss_end top : ℕ) (s : Pmm) → top ≤ base_addr → init_from_e820 bss_end top s ≡ none
unfolding init_from_e820
init_from_e820_low bss_end top s h = ground arith
