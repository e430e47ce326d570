-- ===== src/Pmm/Bitmap.antt =====
-- The bitmap of pmm.c as a set of pages: what marking and unmarking do to it.
use Prim.Native.Nat.{bit_and, bit_or}
use har_lin_kernel.Base.{
  ℕ, ◌/◌, ◌%◌, ◌^◌, ◌≤◌, ◌<◌, ◌≡◌, not, ◌||◌, ◌&&◌, List, arith, ◌==◌, length, get_or, set,
  length-set, get_or-set,
}
use har_lin_kernel.Base.Bits.{
  test_bit, bit_not, and_pow-eq-zero, test_bit-set, test_bit-clear, bit_or-lt-pow, bit_and-le,
  pow-lt-pow,
}
use har_lin_kernel.Pmm.{Pmm, is_used, mark, unmark, bitmap_bytes, max_pages}

-- `n` bytes
pub record IsBytes (n : ℕ) (bitmap : List ℕ) : Type 0 where
  pub size : length bitmap ≡ n
  pub bytes : (i : ℕ) → get_or bitmap i 0 < 2 ^ 8

-- One bit for each page, and no more pages than the layout has room for.
pub record IsValid (s : Pmm) : Type 0 where
  pub bitmap : IsBytes (bitmap_bytes s.total_pages) s.bitmap
  pub some_pages : 0 < s.total_pages
  pub few_pages : s.total_pages ≤ max_pages
  pub last : s.last_idx < s.total_pages

pub is_used_lem :
    (bitmap : List ℕ) (idx : ℕ)
    → is_used bitmap idx ≡ test_bit (get_or bitmap (idx / 8) 0) (idx % 8)
unfolding is_used
is_used_lem bitmap idx = ground (arith, and_pow-eq-zero (get_or bitmap (idx / 8) 0) (idx % 8))

same_page : (a b : ℕ) → (a / 8 == b / 8 && a % 8 == b % 8) ≡ (a == b)
same_page a b = ground arith

module _ {n : ℕ} {bitmap : List ℕ} (v : IsBytes n bitmap) (idx : ℕ) (h : idx / 8 < n) where
  -- Marking a page makes that page used, and no other.
  pub is_used-mark : (j : ℕ) → is_used (mark bitmap idx) j ≡ (is_used bitmap j || idx == j)
  unfolding mark
  is_used-mark j =
      rw (is_used_lem, is_used_lem)
        (ground (
          arith,
          v.size,
          get_or-set bitmap (idx / 8) (j / 8) (bit_or (get_or bitmap (idx / 8) 0) (2 ^ (idx % 8)))
              0,
          test_bit-set (get_or bitmap (idx / 8) 0) (idx % 8) (j % 8),
          same_page idx j,
        ))

  -- Unmarking a page makes that page free, and no other.
  pub is_used-unmark :
      (j : ℕ) → is_used (unmark bitmap idx) j ≡ (is_used bitmap j && not (idx == j))
  unfolding unmark
  is_used-unmark j =
      rw (is_used_lem, is_used_lem)
        (ground (
          arith,
          v.size,
          get_or-set bitmap (idx / 8) (j / 8)
              (bit_and (get_or bitmap (idx / 8) 0) (bit_not 8 (2 ^ (idx % 8)))) 0,
          test_bit-clear 8 (get_or bitmap (idx / 8) 0) (idx % 8) (j % 8) (v.bytes (idx / 8)),
          same_page idx j,
        ))

  set-IsBytes : (b : ℕ) → b < 2 ^ 8 → IsBytes n (set bitmap (idx / 8) b)
  set-IsBytes b small = record {
    size = omega (arith, length-set bitmap (idx / 8) b, v.size);
    bytes = λ i. ground (arith, get_or-set bitmap (idx / 8) i b 0, v.size, v.bytes i);
  }

  pub mark-IsBytes : IsBytes n (mark bitmap idx)
  unfolding mark
  mark-IsBytes =
      set-IsBytes _ (bit_or-lt-pow 8 _ _ (v.bytes (idx / 8)) (pow-lt-pow (idx % 8) 8 (omega arith)))

  pub unmark-IsBytes : IsBytes n (unmark bitmap idx)
  unfolding unmark
  unmark-IsBytes = set-IsBytes _ (
      omega (
        arith,
        bit_and-le (get_or bitmap (idx / 8) 0) (bit_not 8 (2 ^ (idx % 8))),
        v.bytes (idx / 8),
      ))
