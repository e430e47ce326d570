-- ===== src/Pmm.antt =====
-- The physical page allocator: src/harlin/mem/pmm.c, with the constants of src/head/mem/pmm.h.
-- Every function runs under `pmm_lock`, so each is one atomic step here. The bitmap is the list of
-- its bytes. Page indices are `u32` and stay below 2^32; addresses are `u64`, and `PMM_BASE_ADDR +
-- idx * PMM_PAGE_SIZE` with a `u32` index cannot wrap.
pub mod Bitmap
pub mod Single
pub mod Free
pub mod Search
pub mod Contiguous
pub mod Setup
mod Examples
use Prim.Native.Nat.{bit_and, bit_or}
use har_lin_kernel.Base.{
  ℕ, zero, suc, ◌+◌, ◌-◌, ◌*◌, ◌/◌, ◌%◌, ◌^◌, Bool, true, false, not, ◌||◌, ◌&&◌, Option, none,
  some, List, [], ◌∷◌, ltb, leb, ◌==◌, if◌then◌else◌, get_or, set, replicate,
}
use har_lin_kernel.Base.Bits.{bit_not}

abbrev pub page_size : ℕ
page_size = 4096

abbrev pub base_addr : ℕ
base_addr = 0x300000

abbrev pub bitmap_addr : ℕ
bitmap_addr = 0x200000

abbrev pub total_pages_min : ℕ
total_pages_min = 32000

abbrev pub max_pages : ℕ
max_pages = 0x100000

abbrev pub isa_dma_limit : ℕ
isa_dma_limit = 0x1000000

-- The file's static variables; `last_idx` is that of `pmm_alloc_contiguous`.
pub record Pmm : Type 0 where
  pub bitmap : List ℕ
  pub total_pages : ℕ
  pub top_addr : ℕ
  pub last_idx : ℕ

-- `bitmap[idx / 8] & (1 << (idx % 8))`, as a test
pub is_used : List ℕ → ℕ → Bool
is_used bitmap idx = not (bit_and (get_or bitmap (idx / 8) 0) (2 ^ (idx % 8)) == 0)

-- `bitmap[idx / 8] |= (1 << (idx % 8))`
pub mark : List ℕ → ℕ → List ℕ
mark bitmap idx = set bitmap (idx / 8) (bit_or (get_or bitmap (idx / 8) 0) (2 ^ (idx % 8)))

-- `bitmap[idx / 8] &= ~(1 << (idx % 8))`, on a byte
pub unmark : List ℕ → ℕ → List ℕ
unmark bitmap idx =
    set bitmap (idx / 8) (bit_and (get_or bitmap (idx / 8) 0) (bit_not 8 (2 ^ (idx % 8))))

abbrev pub page_addr : ℕ → ℕ
page_addr idx = base_addr + idx * page_size

-- `pmm_bitmap_bytes`
abbrev pub bitmap_bytes : ℕ → ℕ
bitmap_bytes total_pages = (total_pages + 7) / 8

-- `pmm_check_layout`: does the bitmap end before the pages begin?
pub check_layout : ℕ → Bool
check_layout total_pages = leb (bitmap_addr + bitmap_bytes total_pages) base_addr

-- The number of pages that `pmm_init_from_e820` settles on.
pub clamp_pages : ℕ → ℕ
clamp_pages pages =
    let capped = if ltb max_pages pages then max_pages else pages in
    if ltb capped total_pages_min then total_pages_min else capped

-- `((u32)__bss_end + PMM_PAGE_SIZE - 1) / PMM_PAGE_SIZE`, in `u32`; the linker gives `__bss_end`.
pub kernel_end_page : ℕ → ℕ
kernel_end_page bss_end = (bss_end % 2 ^ 32 + page_size - 1) % 2 ^ 32 / page_size

-- Is page number `i` of memory part of the kernel or of the bitmap?
pub is_reserved : ℕ → ℕ → ℕ → Bool
unfolding kernel_end_page
is_reserved bss_end total_pages i =
    ltb i (kernel_end_page bss_end)
    || (leb (bitmap_addr / page_size) i
        && ltb i ((bitmap_addr + bitmap_bytes total_pages + page_size - 1) / page_size))

-- The loop that marks what is reserved, with `rounds` left, at page number `i`.
pub mark_reserved : ℕ → ℕ → ℕ → ℕ → List ℕ → List ℕ
mark_reserved bss_end total_pages zero i bitmap = bitmap
mark_reserved bss_end total_pages (suc rounds) i bitmap =
    mark_reserved bss_end total_pages rounds (i + 1) (
      if is_reserved bss_end total_pages i then mark bitmap (i - base_addr / page_size) else bitmap)

-- `none` is the result -1. The C code leaves `last_idx` alone.
pub init_from_e820 : ℕ → ℕ → Pmm → Option Pmm
init_from_e820 bss_end top_usable_addr s =
    let total = clamp_pages ((top_usable_addr - base_addr) / page_size) in
    let fresh = replicate (bitmap_bytes total) 0 in
    if leb top_usable_addr base_addr
    then none
    else if check_layout total
    then some (record s {
      bitmap = mark_reserved bss_end total total (base_addr / page_size) fresh;
      total_pages = total;
      top_addr = base_addr + total * page_size;
    })
    else none

-- `pmm_init`
pub init : ℕ → Pmm → Pmm
init bss_end s = elim (init_from_e820 bss_end (base_addr + total_pages_min * page_size) s) [
  | some s' ↦ s'
  | none ↦ record s {
    total_pages = total_pages_min;
    top_addr = base_addr + total_pages_min * page_size;
  }
]

-- The inner loop of `pmm_alloc` over the bits of byte `i`, from bit `j` on.
pub free_bit : ℕ → ℕ → ℕ → ℕ → ℕ → Option ℕ
free_bit total i byte zero j = none
free_bit total i byte (suc rounds) j =
    let rest = free_bit total i byte rounds (j + 1) in
    if leb total (i * 8 + j)
    then none
    else if bit_and byte (2 ^ j) == 0
    then some (i * 8 + j)
    else rest

-- The outer loop of `pmm_alloc` over the bytes, from byte `i` on.
pub free_page : List ℕ → ℕ → ℕ → ℕ → Option ℕ
free_page bitmap total zero i = none
free_page bitmap total (suc rounds) i =
    let byte = get_or bitmap i 0 in
    let rest = free_page bitmap total rounds (i + 1) in
    if byte == 0xff
    then rest
    else elim (free_bit total i byte 8 0) [ some idx ↦ some idx | none ↦ rest ]

-- `pmm_alloc`: the address of a page, or 0.
unfoldable pub alloc : Pmm → ℕ × Pmm
unfolding free_page free_bit mark
alloc s =
    let total = s.total_pages % 2 ^ 32 in
    elim (free_page s.bitmap total (total / 8) 0) [
      | some idx ↦ (page_addr idx, record s { bitmap = mark s.bitmap idx })
      | none ↦ (0, s)
    ]

-- `pmm_free`
pub free : ℕ → Pmm → Pmm
unfolding unmark
free addr s =
    let idx = (addr - base_addr) / page_size % 2 ^ 32 in
    if ltb addr base_addr
    then s
    else if leb s.total_pages idx
    then s
    else record s { bitmap = unmark s.bitmap idx }

-- `pmm_idx_in_range`
pub idx_in_range : ℕ → ℕ → Bool
idx_in_range idx max_addr = leb (page_addr idx + page_size) max_addr

-- The loops over `k` of `pmm_alloc_contiguous` and `pmm_alloc_low`: are these pages free, and may
-- they be used? The first of the two functions lets every page be used.
pub run_free : List ℕ → (ℕ → Bool) → ℕ → ℕ → Bool
run_free bitmap may_use zero idx = true
run_free bitmap may_use (suc rounds) idx =
    let rest = run_free bitmap may_use rounds ((idx + 1) % 2 ^ 32) in
    if is_used bitmap idx then false else if may_use idx then rest else false

pub mark_run : ℕ → ℕ → List ℕ → List ℕ
mark_run zero idx bitmap = bitmap
mark_run (suc rounds) idx bitmap = mark_run rounds ((idx + 1) % 2 ^ 32) (mark bitmap idx)

-- The loop over `j` of the two functions; `cur` is 0 in `pmm_alloc_low`. The pages of a run are
-- checked from the first on, and `base_idx + count` is a sum in `u32`.
pub run_in_byte : List ℕ → (ℕ → Bool) → ℕ → ℕ → ℕ → ℕ → ℕ → ℕ → Option ℕ
unfolding run_free is_used
run_in_byte bitmap may_use total count cur i zero j = none
run_in_byte bitmap may_use total count cur i (suc rounds) j =
    let base_idx = i * 8 + j in
    let rest = run_in_byte bitmap may_use total count cur i rounds (j + 1) in
    if ltb base_idx cur
    then rest
    else if ltb total ((base_idx + count) % 2 ^ 32)
    then rest
    else if run_free bitmap may_use count base_idx
    then some base_idx
    else rest

-- The loop over `i`.
pub find_run : List ℕ → (ℕ → Bool) → ℕ → ℕ → ℕ → ℕ → ℕ → Option ℕ
find_run bitmap may_use total count cur zero i = none
find_run bitmap may_use total count cur (suc rounds) i =
    let rest = find_run bitmap may_use total count cur rounds (i + 1) in
    if get_or bitmap i 0 == 0xff
    then rest
    else elim (run_in_byte bitmap may_use total count cur i 8 0) [
      | some idx ↦ some idx
      | none ↦ rest
    ]

-- The `while` loop of `pmm_alloc_contiguous`: once from `last_idx` on, once from the start.
pub find_contiguous : List ℕ → ℕ → ℕ → ℕ → Option ℕ
unfolding find_run run_in_byte
find_contiguous bitmap total last_idx count =
    let again = find_run bitmap (λ _. true) total count 0 (total / 8) 0 in
    elim (find_run bitmap (λ _. true) total count last_idx (total / 8 - last_idx / 8)
      (last_idx / 8)) [ some idx ↦ some idx | none ↦ again ]

-- `pmm_alloc_contiguous`
pub alloc_contiguous : ℕ → Pmm → ℕ × Pmm
unfolding find_contiguous mark_run mark
alloc_contiguous count s =
    let total = s.total_pages % 2 ^ 32 in
    if count == 0 then (0, s) else elim (find_contiguous s.bitmap total s.last_idx count) [
      | some start ↦ (
        page_addr start,
        record s {
          bitmap = mark_run count start s.bitmap;
          last_idx = (start + count) % 2 ^ 32 % total;
        },
      )
      | none ↦ (0, s)
    ]

-- `pmm_alloc_low`, and `pmm_alloc_contiguous_low`, which calls it.
pub alloc_low : ℕ → Pmm → ℕ × Pmm
unfolding find_run run_in_byte mark_run mark idx_in_range
alloc_low count s =
    let total = s.total_pages % 2 ^ 32 in
    if count == 0
    then (0, s)
    else elim (find_run s.bitmap (λ idx. idx_in_range idx isa_dma_limit) total count 0 (total / 8)
        0) [
          | some start ↦ (page_addr start, record s { bitmap = mark_run count start s.bitmap })
          | none ↦ (0, s)
        ]
