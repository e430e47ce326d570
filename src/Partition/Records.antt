-- ===== src/Partition/Records.antt =====
-- What the first sector of a disk lists, read as four records of 16 bytes: a specification for
-- src/harlin/fs/partition.c.
use har_lin_kernel.Base.{
  ℕ, zero, suc, ◌+◌, ◌*◌, ◌^◌, ◌<◌, ◌≡◌, ◌≢◌, ◌⊎◌, refl, ap, sym, ◌∙◌, false, List, [], ◌∷◌, ◌++◌,
  take, drop, get_or, Bool-cases, inl, inr, arith,
}
use mathlib.Core.Path.{subst}
use native.Mathlib.Decide.{ℕ_discrete}
use har_lin_kernel.Partition.{
  Entry, read_le32, entry, offset, type_of, start_of, sectors_of, is_plain,
}
use har_lin_kernel.Partition.Primary.{primary, primaries}

-- A number, its lowest byte first.
pub little_endian : List ℕ → ℕ
little_endian [] = 0
little_endian (b ∷ bytes) = b + 256 * little_endian bytes

pub records : ℕ → List ℕ → List (List ℕ)
records zero bytes = []
records (suc n) bytes = take 16 bytes ∷ records n (drop 16 bytes)

-- The type in byte 4, the first sector in bytes 8 to 11, the number of sectors in bytes 12 to 15.
pub described : List ℕ → Entry
unfolding little_endian
described r = record {
  active = 0;
  type = get_or r 4 0;
  start_lba = little_endian (take 4 (drop 8 r));
  sector_count = little_endian (take 4 (drop 12 r));
}

-- The records that stand for a partition: those of any type but 0 (empty), 5 and 15 (extended).
pub data Lists : List (List ℕ) → List Entry → Type 0 where
  nil : Lists [] []
  skipped :
      {r : List ℕ} {rs : List (List ℕ)} {es : List Entry}
      → ((get_or r 4 0 ≡ 0) ⊎ (get_or r 4 0 ≡ 5)) ⊎ (get_or r 4 0 ≡ 15)
      → Lists rs es
      → Lists (r ∷ rs) es
  listed :
      {r : List ℕ} {rs : List (List ℕ)} {es : List Entry}
      → get_or r 4 0 ≢ 0
      → get_or r 4 0 ≢ 5
      → get_or r 4 0 ≢ 15
      → Lists rs es
      → Lists (r ∷ rs) (described r ∷ es)

get_or-take : (n : ℕ) (xs : List ℕ) (i : ℕ) → i < n → get_or (take n xs) i 0 ≡ get_or xs i 0
get_or-take zero xs i h = absurd (omega (arith, h))
get_or-take (suc n) [] i h = refl
get_or-take (suc n) (x ∷ xs) zero h = refl
get_or-take (suc n) (x ∷ xs) (suc i) h = get_or-take n xs i (omega (arith, h))

get_or-drop : (n : ℕ) (xs : List ℕ) (i j : ℕ) → n + i ≡ j → get_or (drop n xs) i 0 ≡ get_or xs j 0
get_or-drop zero xs i j e = ap (λ k. get_or xs k 0) (omega (arith, e))
get_or-drop (suc n) [] i j e = refl
get_or-drop (suc n) (x ∷ xs) i zero e = absurd (omega (arith, e))
get_or-drop (suc n) (x ∷ xs) i (suc j) e = get_or-drop n xs i j (omega (arith, e))

drop-drop : (n m k : ℕ) (xs : List ℕ) → m + n ≡ k → drop n (drop m xs) ≡ drop k xs
drop-drop n zero k xs e = ap (λ j. drop j xs) (omega (arith, e))
drop-drop n (suc m) zero xs e = absurd (omega (arith, e))
drop-drop zero (suc m) (suc k) [] e = refl
drop-drop (suc n) (suc m) (suc k) [] e = refl
drop-drop n (suc m) (suc k) (x ∷ xs) e = drop-drop n m k xs (omega (arith, e))

little_endian-four :
    (xs : List ℕ)
    → little_endian (take 4 xs)
      ≡ get_or xs 0 0 + get_or xs 1 0 * 2 ^ 8 + get_or xs 2 0 * 2 ^ 16 + get_or xs 3 0 * 2 ^ 24
unfolding little_endian
little_endian-four [] = refl
little_endian-four (a ∷ []) = omega arith
little_endian-four (a ∷ b ∷ []) = omega arith
little_endian-four (a ∷ b ∷ c ∷ []) = omega arith
little_endian-four (a ∷ b ∷ c ∷ d ∷ xs) = omega arith

-- Record `i` of the sector.
module _ (sector : List ℕ) (i : ℕ) where
  abbrev the_record : List ℕ
  the_record = take 16 (drop (offset i) sector)

  record_byte : (k j : ℕ) → k < 16 → offset i + k ≡ j → get_or the_record k 0 ≡ get_or sector j 0
  record_byte k j h e =
      get_or-take 16 (drop (offset i) sector) k h ∙ get_or-drop (offset i) sector k j e

  record_number :
      (k j : ℕ)
      → k + 3 < 16
      → offset i + k ≡ j
      → little_endian (take 4 (drop k the_record)) ≡ read_le32 sector j
  unfolding read_le32
  record_number k j h e =
      let at : (m : ℕ) → m < 4 → get_or (drop k the_record) m 0 ≡ get_or sector (j + m) 0 = λ m lt.
        get_or-drop k the_record m (k + m) refl
        ∙ record_byte (k + m) (j + m) (omega (arith, h, lt)) (omega (arith, e)) in
      let zeroth : get_or (drop k the_record) 0 0 ≡ get_or sector j 0 =
        at 0 (omega arith) ∙ ap (λ m. get_or sector m 0) (omega arith) in
      little_endian-four (drop k the_record)
      ∙ omega (arith, zeroth, at 1 (omega arith), at 2 (omega arith), at 3 (omega arith))

  type_same : get_or the_record 4 0 ≡ type_of sector i
  type_same = record_byte 4 (offset i + 4) (omega arith) refl

  described-entry :
      described the_record ≡ entry (start_of sector i) (sectors_of sector i) (type_of sector i)
  unfolding described
  described-entry =
      rw
        (
          type_same,
          record_number 8 (offset i + 8) (omega arith) refl,
          record_number 12 (offset i + 12) (omega arith) refl,
        )
        refl

  no_partition :
      is_plain (type_of sector i) ≡ false
      → ((get_or the_record 4 0 ≡ 0) ⊎ (get_or the_record 4 0 ≡ 5)) ⊎ (get_or the_record 4 0 ≡ 15)
  no_partition p = elim (ℕ_discrete (get_or the_record 4 0) 0) [
    | yes a ↦ inl (inl a)
    | no a ↦ elim (ℕ_discrete (get_or the_record 4 0) 5) [
      | yes b ↦ inl (inr b)
      | no b ↦ inr (ground (arith, a, b, p, type_same))
    ]
  ]

  primary-Lists :
      (rs : List (List ℕ)) (es : List Entry)
      → Lists rs es
      → Lists (the_record ∷ rs) (primary sector i ++ es)
  unfolding primary
  primary-Lists rs es l = elim (Bool-cases (is_plain (type_of sector i))) [
    | inl p ↦ rw p (
        subst (λ e. Lists (the_record ∷ rs) (e ∷ es)) described-entry
          (listed (λ q. ground (arith, q, type_same, p)) (λ q. ground (arith, q, type_same, p))
            (λ q. ground (arith, q, type_same, p)) l))
    | inr p ↦ rw p (skipped (no_partition p) l)
  ]

pub primaries-Lists :
    (sector : List ℕ) (rounds i : ℕ)
    → Lists (records rounds (drop (offset i) sector)) (primaries sector rounds i)
unfolding records primaries
primaries-Lists sector zero i = nil
primaries-Lists sector (suc rounds) i = primary-Lists sector i _ _ (
    subst (λ bytes. Lists (records rounds bytes) (primaries sector rounds (i + 1)))
      (sym (drop-drop 16 (offset i) (offset (i + 1)) sector (omega arith)))
      (primaries-Lists sector rounds (i + 1)))
