-- ===== src/Pmm/Free.antt =====
-- `pmm_free` of any address.
use har_lin_kernel.Base.{
  ℕ, ◌-◌, ◌/◌, ◌%◌, ◌^◌, ◌<◌, ◌≡◌, ◌∙◌, refl, false, arith, ltb, leb, Bool-cases, inl, inr,
}
use har_lin_kernel.Pmm.{Pmm, is_used, page_size, base_addr, page_addr, free, bitmap_bytes}
use har_lin_kernel.Pmm.Bitmap.{IsValid, is_used-unmark, unmark-IsBytes}
use har_lin_kernel.Pmm.Single.{free_lem}

-- The allocator has the same pages, and those that were free are free.
pub record Freer (s s' : Pmm) : Type 0 where
  pub valid : IsValid s'
  pub same_total : s'.total_pages ≡ s.total_pages
  pub still_free : (k : ℕ) → is_used s.bitmap k ≡ false → is_used s'.bitmap k ≡ false

pub Freer-refl : {s : Pmm} → IsValid s → Freer s s
Freer-refl v = record { valid = v; same_total = refl; still_free = λ k h. h }

pub Freer-trans : {s t u : Pmm} → Freer s t → Freer t u → Freer s u
Freer-trans a b = record {
  valid = b.valid;
  same_total = b.same_total ∙ a.same_total;
  still_free = λ k h. b.still_free k (a.still_free k h);
}

byte_in : (s : Pmm) (idx : ℕ) → idx < s.total_pages → idx / 8 < bitmap_bytes s.total_pages
byte_in s idx h = omega arith

pub free-Freer : (s : Pmm) (addr : ℕ) → IsValid s → Freer s (free addr s)
unfolding free
free-Freer s addr v =
    let idx : ℕ = (addr - base_addr) / page_size % 2 ^ 32 in
    elim (Bool-cases (ltb addr base_addr)) [
      | inl low ↦ rw low (Freer-refl v)
      | inr ok ↦ rw ok (elim (Bool-cases (leb s.total_pages idx)) [
        | inl past ↦ rw past (Freer-refl v)
        | inr inside ↦ rw inside (record {
          valid = record {
            bitmap = unmark-IsBytes v.bitmap idx (byte_in s idx (ground arith));
            some_pages = v.some_pages;
            few_pages = v.few_pages;
            last = v.last;
          };
          same_total = refl;
          still_free =
              λ k h. ground (arith, is_used-unmark v.bitmap idx (byte_in s idx (ground arith)) k);
        })
      ])
    ]

-- `pmm_free` of the address of a page frees this page.
pub free_page_addr :
    (s : Pmm) (idx : ℕ)
    → IsValid s
    → idx < s.total_pages
    → is_used (free (page_addr idx) s).bitmap idx ≡ false
free_page_addr s idx v h =
    let (_, bits) = free_lem s (page_addr idx) idx v h (omega arith) (omega arith) in
    ground (arith, bits idx)
