-- ===== src/Pmm/Single.antt =====
-- `pmm_alloc` and `pmm_free`: one page at a time, first fit.
use Prim.Native.Nat.{bit_and}
use har_lin_kernel.Base.{
  ℕ, zero, suc, ◌+◌, ◌-◌, ◌*◌, ◌/◌, ◌%◌, ◌^◌, ◌≤◌, ◌<◌, ◌≡◌, ◌≢◌, true, false, not, ◌||◌, ◌&&◌,
  List, arith, leb, ◌==◌, get_or, refl, ◌⊎◌, inl, inr, some, none, Bool-cases, Option,
}
use native.Mathlib.Decide.{dec_lt}
use native.Mathlib.Nat.{add-zero}
use har_lin_kernel.Base.Bits.{test_bit, and_pow-eq-zero}
use har_lin_kernel.Pmm.{
  Pmm, is_used, mark, unmark, page_size, base_addr, page_addr, free_bit, free_page, alloc, free,
}
use har_lin_kernel.Pmm.Bitmap.{
  IsValid, is_used_lem, is_used-mark, is_used-unmark, mark-IsBytes, unmark-IsBytes,
}

full_byte : (k : ℕ) → k < 8 → test_bit 0xff k ≡ true
full_byte zero h = refl
full_byte (suc zero) h = refl
full_byte (suc (suc zero)) h = refl
full_byte (suc (suc (suc zero))) h = refl
full_byte (suc (suc (suc (suc zero)))) h = refl
full_byte (suc (suc (suc (suc (suc zero))))) h = refl
full_byte (suc (suc (suc (suc (suc (suc zero)))))) h = refl
full_byte (suc (suc (suc (suc (suc (suc (suc zero))))))) h = refl
full_byte (suc (suc (suc (suc (suc (suc (suc (suc k)))))))) h = absurd (omega arith)

-- `out` is the first page from `lo` on, and below `hi`, that is free; `none` says that there is
-- none.
pub data FirstFree (bitmap : List ℕ) (lo hi : ℕ) (out : Option ℕ) : Type 0 where
  found :
      (idx : ℕ)
      → out ≡ some idx
      → lo ≤ idx
      → idx < hi
      → is_used bitmap idx ≡ false
      → ((k : ℕ) → lo ≤ k → k < idx → is_used bitmap k ≡ true)
      → FirstFree bitmap lo hi out
  missing :
      out ≡ none
      → ((k : ℕ) → lo ≤ k → k < hi → is_used bitmap k ≡ true)
      → FirstFree bitmap lo hi out

-- The test of `pmm_alloc` on bit `j` of byte `i` is that of page `i * 8 + j`.
bit_of_page :
    (bitmap : List ℕ) (i j : ℕ)
    → j < 8
    → (bit_and (get_or bitmap i 0) (2 ^ j) == 0) ≡ not (is_used bitmap (i * 8 + j))
bit_of_page bitmap i j h =
    let byte : (i * 8 + j) / 8 ≡ i = omega arith in
    let bit : (i * 8 + j) % 8 ≡ j = omega arith in
    rw (is_used_lem, byte, bit) (and_pow-eq-zero (get_or bitmap i 0) j)

pub full-FirstFree :
    (bitmap : List ℕ) (i : ℕ)
    → get_or bitmap i 0 ≡ 0xff
    → (k : ℕ) → i * 8 ≤ k
    → k < suc i * 8
    → is_used bitmap k ≡ true
full-FirstFree bitmap i e k p q =
    let byte : k / 8 ≡ i = omega arith in
    rw (is_used_lem, byte, e) (full_byte (k % 8) (omega arith))

-- A search goes on where nothing was found.
extend-FirstFree :
    (bitmap : List ℕ) (lo mid hi : ℕ) (out : Option ℕ)
    → lo ≤ mid
    → ((k : ℕ) → lo ≤ k → k < mid → is_used bitmap k ≡ true)
    → FirstFree bitmap mid hi out
    → FirstFree bitmap lo hi out
extend-FirstFree bitmap lo mid hi out h full (found idx e p q u before) =
    found idx e (omega arith) q u
      (λ k s t. elim (dec_lt k mid) [ yes l ↦ full k s l | no l ↦ before k (omega arith) t ])
extend-FirstFree bitmap lo mid hi out h full (missing e before) =
    missing e
      (λ k s t. elim (dec_lt k mid) [ yes l ↦ full k s l | no l ↦ before k (omega arith) t ])

only_page :
    (bitmap : List ℕ) (a b : ℕ)
    → b ≡ a + 1
    → is_used bitmap a ≡ true
    → (k : ℕ) → a ≤ k
    → k < b
    → is_used bitmap k ≡ true
only_page bitmap a b e u k p q = let same : k ≡ a = omega arith in rw same u

free_bit-FirstFree :
    (bitmap : List ℕ) (total i rounds j : ℕ)
    → j + rounds ≡ 8
    → (suc i) * 8 ≤ total
    → FirstFree bitmap (i * 8 + j) (suc i * 8) (free_bit total i (get_or bitmap i 0) rounds j)
unfolding free_bit
free_bit-FirstFree bitmap total i zero j e h = missing refl (λ k p q. absurd (omega arith))
free_bit-FirstFree bitmap total i (suc rounds) j e h =
    let inside : leb total (i * 8 + j) ≡ false = ground arith in
    elim (Bool-cases (is_used bitmap (i * 8 + j))) [
      | inl u ↦
          rw (inside, bit_of_page bitmap i j (omega arith), u)
            (extend-FirstFree bitmap (i * 8 + j) (i * 8 + (j + 1)) (suc i * 8) _ (omega arith)
              (only_page bitmap (i * 8 + j) (i * 8 + (j + 1)) (omega arith) u)
              (free_bit-FirstFree bitmap total i rounds (j + 1) (omega arith) h))
      | inr f ↦
          rw (inside, bit_of_page bitmap i j (omega arith), f)
            (found (i * 8 + j) refl (omega arith) (omega arith) f (λ k p q. absurd (omega arith)))
    ]

-- What one byte gives, and what the bytes behind it give.
join-FirstFree :
    (bitmap : List ℕ) (lo mid lo' hi' hi : ℕ) (out out' : Option ℕ)
    → lo ≤ mid
    → mid ≤ hi
    → lo' ≡ mid
    → hi' ≡ hi
    → FirstFree bitmap lo mid out
    → FirstFree bitmap lo' hi' out'
    → FirstFree bitmap lo hi (elim out [ some idx ↦ some idx | none ↦ out' ])
join-FirstFree bitmap lo mid lo' hi' hi out out' p q e e' (found idx s l m u before) next =
    rw s (found idx refl l (omega arith) u before)
join-FirstFree bitmap lo mid lo' hi' hi out out' p q e e' (missing s full) next =
    rw (s, ← e')
      (extend-FirstFree bitmap lo lo' hi' out' (omega arith) (λ k l m. full k l (omega arith)) next)

-- The whole search of `pmm_alloc`.
free_page-FirstFree :
    (bitmap : List ℕ) (total rounds i lo hi : ℕ)
    → lo ≡ i * 8
    → hi ≡ (i + rounds) * 8
    → hi ≤ total
    → FirstFree bitmap lo hi (free_page bitmap total rounds i)
unfolding free_page
free_page-FirstFree bitmap total zero i lo hi e e' h = missing refl (λ k p q. absurd (omega arith))
free_page-FirstFree bitmap total (suc rounds) i lo hi e e' h =
    let later =
      free_page-FirstFree bitmap total rounds (i + 1) (suc i * 8) hi (omega arith) (omega arith)
        h in
    let here = free_bit-FirstFree bitmap total i 8 0 refl (omega arith) in
    elim (Bool-cases (get_or bitmap i 0 == 0xff)) [
      | inl full ↦ rw full (
          extend-FirstFree bitmap lo (suc i * 8) hi _ (omega arith)
            (λ k p q. full-FirstFree bitmap i (ground arith) k (omega arith) (omega arith)) later)
      | inr part ↦ rw part (
          join-FirstFree bitmap lo (suc i * 8) (suc i * 8) hi hi _ _ (omega arith) (omega arith)
            refl refl (rw e (rw (add-zero (i * 8)) at here)) later)
    ]

-- The pages that `pmm_alloc` looks at: those of the whole bytes of the bitmap.
abbrev pub whole : Pmm → ℕ
whole s = s.total_pages / 8 * 8

-- What a call of `alloc` may return: nothing, with every page in use, or the lowest free page,
-- which is then marked.
pub data Allocated (s : Pmm) (addr : ℕ) (s' : Pmm) : Type 0 where
  full :
      addr ≡ 0 → s' ≡ s → ((k : ℕ) → k < whole s → is_used s.bitmap k ≡ true) → Allocated s addr s'
  page :
      (idx : ℕ)
      → addr ≡ page_addr idx
      → idx < whole s
      → is_used s.bitmap idx ≡ false
      → ((k : ℕ) → k < idx → is_used s.bitmap k ≡ true)
      → ((k : ℕ) → is_used s'.bitmap k ≡ (is_used s.bitmap k || idx == k))
      → Allocated s addr s'

pub small_total : {s : Pmm} → IsValid s → s.total_pages % 2 ^ 32 ≡ s.total_pages
small_total v = omega arith

alloc-missing :
    (s : Pmm)
    → s.total_pages % 2 ^ 32 ≡ s.total_pages
    → free_page s.bitmap s.total_pages (s.total_pages / 8) 0 ≡ none
    → alloc s ≡ (0, s)
unfolding alloc
alloc-missing s fits e = ground arith

alloc-found :
    (s : Pmm) (idx : ℕ)
    → s.total_pages % 2 ^ 32 ≡ s.total_pages
    → free_page s.bitmap s.total_pages (s.total_pages / 8) 0 ≡ some idx
    → alloc s ≡ (page_addr idx, record s { bitmap = mark s.bitmap idx })
unfolding alloc
alloc-found s idx fits e = ground arith

alloc_cases :
    (s : Pmm)
    → IsValid s
    → FirstFree s.bitmap 0 (whole s) (free_page s.bitmap s.total_pages (s.total_pages / 8) 0)
    → IsValid (alloc s).1 × Allocated s (alloc s).0 (alloc s).1
alloc_cases s v (missing e used) =
    rw (alloc-missing s (small_total v) e) (v, full refl refl (λ k h. used k (omega arith) h))
alloc_cases s v (found idx e l h f before) =
    let inside : idx / 8 < (s.total_pages + 7) / 8 = omega arith in
    rw (alloc-found s idx (small_total v) e) (
      record {
        bitmap = mark-IsBytes v.bitmap idx inside;
        some_pages = v.some_pages;
        few_pages = v.few_pages;
        last = v.last;
      },
      page idx refl h f (λ k p. before k (omega arith) p) (is_used-mark v.bitmap idx inside),
    )

-- On a valid allocator, `alloc` either returns 0, changes nothing, and every page of every whole
-- byte of the bitmap is in use; or it returns the address of the lowest such page that was free,
-- and marks exactly that page. The validity is kept.
pub alloc_lem : (s : Pmm) → IsValid s → IsValid (alloc s).1 × Allocated s (alloc s).0 (alloc s).1
alloc_lem s v = alloc_cases s v (
    free_page-FirstFree s.bitmap s.total_pages (s.total_pages / 8) 0 0 (whole s) refl (omega arith)
      (omega arith))

free-unmark :
    (s : Pmm) (addr idx : ℕ)
    → IsValid s
    → idx < s.total_pages
    → page_addr idx ≤ addr
    → addr < page_addr (idx + 1)
    → free addr s ≡ record s { bitmap = unmark s.bitmap idx }
unfolding free
free-unmark s addr idx v h l m =
    let same : (addr - base_addr) / page_size % 2 ^ 32 ≡ idx = omega arith in rw same (ground arith)

-- On a valid allocator, `free` of an address inside page `idx`, one of the allocator's pages, makes
-- exactly that page free and keeps the validity.
pub free_lem :
    (s : Pmm) (addr idx : ℕ)
    → IsValid s
    → idx < s.total_pages
    → page_addr idx ≤ addr
    → addr < page_addr (idx + 1)
    → IsValid (free addr s)
      × ((k : ℕ) → is_used (free addr s).bitmap k ≡ (is_used s.bitmap k && not (idx == k)))
free_lem s addr idx v h l m =
    let inside : idx / 8 < (s.total_pages + 7) / 8 = omega arith in
    rw (free-unmark s addr idx v h l m) (
      record {
        bitmap = unmark-IsBytes v.bitmap idx inside;
        some_pages = v.some_pages;
        few_pages = v.few_pages;
        last = v.last;
      },
      is_used-unmark v.bitmap idx inside,
    )

-- An address below the pages, or between their end and the point where the `u32` page index
-- wraps, is ignored.
pub free_outside :
    (s : Pmm) (addr : ℕ)
    → IsValid s
    → (addr < base_addr) ⊎ (page_addr s.total_pages ≤ addr) × (addr < page_addr (2 ^ 32))
    → free addr s ≡ s
unfolding free
free_outside s addr v h = ground arith

total_pages-alloc : (s : Pmm) → (alloc s).1.total_pages ≡ s.total_pages
unfolding alloc
total_pages-alloc s = ground arith

free-Allocated :
    (s s' : Pmm) (addr k : ℕ)
    → IsValid s'
    → s'.total_pages ≡ s.total_pages
    → Allocated s addr s'
    → addr ≢ 0
    → is_used (free addr s').bitmap k ≡ is_used s.bitmap k
free-Allocated s s' addr k v e (full z same used) ne = absurd (ne z)
free-Allocated s s' addr k v e (page idx a h f before marked) ne =
    ground (arith, (free_lem s' addr idx v (omega arith) (omega arith) (omega arith)).1 k, marked k)

-- On a valid allocator, when `alloc` returns a page, freeing its address restores the use of every
-- page.
pub free-alloc :
    (s : Pmm) (k : ℕ)
    → IsValid s
    → (alloc s).0 ≢ 0
    → is_used (free (alloc s).0 (alloc s).1).bitmap k ≡ is_used s.bitmap k
free-alloc s k v ne =
    let done = alloc_lem s v in
    free-Allocated s (alloc s).1 (alloc s).0 k done.0 (total_pages-alloc s) done.1 ne
