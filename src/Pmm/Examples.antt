-- ===== src/Pmm/Examples.antt =====
-- The theorems about pmm.c at small allocators.
use har_lin_kernel.Base.{
  ℕ, zero, suc, ◌^◌, ◌+◌, ◌<◌, ◌≤◌, ◌≡◌, refl, true, ◌&&◌, [], ◌∷◌, arith, ltb, some, get_or,
}
use har_lin_kernel.Pmm.{
  Pmm, is_used, alloc, alloc_contiguous, alloc_low, init_from_e820, page_addr, base_addr,
  bitmap_addr, bitmap_bytes, total_pages_min,
}
use har_lin_kernel.Pmm.Bitmap.{IsValid}
use har_lin_kernel.Pmm.Single.{Allocated, alloc_lem}
use har_lin_kernel.Pmm.Contiguous.{Granted, is_low, alloc_contiguous_lem, alloc_low_lem}
use har_lin_kernel.Pmm.Setup.{init_from_e820_lem}

-- 16 pages: the first eight in use, and of the others two.
abbrev some_used : Pmm
some_used = record {
  bitmap = 0xff ∷ 0b101 ∷ [];
  total_pages = 16;
  top_addr = page_addr 16;
  last_idx = 3;
}

some_used_bytes : (i : ℕ) → get_or (0xff ∷ 0b101 ∷ []) i 0 < 2 ^ 8
some_used_bytes zero = omega arith
some_used_bytes (suc zero) = omega arith
some_used_bytes (suc (suc i)) = omega arith

some_used-IsValid : IsValid some_used
some_used-IsValid = record {
  bitmap = record { size = refl; bytes = some_used_bytes };
  some_pages = omega arith;
  few_pages = omega arith;
  last = omega arith;
}

-- The first free page is page 9, and the first run of four is from page 11 on.
alloc_first_free : (alloc some_used).0 ≡ page_addr 9
unfolding alloc
alloc_first_free = refl

alloc_first_run : (alloc_contiguous 4 some_used).0 ≡ page_addr 11
unfolding alloc_contiguous
alloc_first_run = refl

alloc_no_run : alloc_contiguous 6 some_used ≡ (0, some_used)
unfolding alloc_contiguous
alloc_no_run = refl

alloc_lem_example :
    IsValid (alloc some_used).1 × Allocated some_used (alloc some_used).0 (alloc some_used).1
alloc_lem_example = alloc_lem some_used some_used-IsValid

alloc_contiguous_lem_example :
    IsValid (alloc_contiguous 4 some_used).1
    × Granted
        (λ _. true)
        4
        some_used
        (alloc_contiguous 4 some_used).0
        (alloc_contiguous 4 some_used).1
alloc_contiguous_lem_example =
    alloc_contiguous_lem some_used 4 some_used-IsValid (omega arith) (omega arith)

alloc_low_lem_example :
    IsValid (alloc_low 2 some_used).1
    × Granted is_low 2 some_used (alloc_low 2 some_used).0 (alloc_low 2 some_used).1
alloc_low_lem_example = alloc_low_lem some_used 2 some_used-IsValid (omega arith) (omega arith)

-- 256 MB of memory, and a kernel that ends at 4 MB.
init_from_e820_lem_example :
    (s' : Pmm) × (init_from_e820 0x400000 0x10000000 some_used ≡ some s')
    × IsValid s'
    × (total_pages_min ≤ s'.total_pages)
    × (bitmap_addr + bitmap_bytes s'.total_pages ≤ base_addr)
    × ((k : ℕ) → is_used s'.bitmap k ≡ (ltb k s'.total_pages && ltb (page_addr k) 0x400000))
init_from_e820_lem_example =
    init_from_e820_lem 0x400000 0x10000000 some_used (omega arith) (omega arith) (omega arith)
