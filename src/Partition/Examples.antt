-- ===== src/Partition/Examples.antt =====
-- Runs of src/harlin/fs/partition.c, and instances of the theorems.
use har_lin_kernel.Base.{
  ℕ, zero, suc, ◌<◌, ◌≡◌, refl, ap, Bool, true, Option, none, some, List, [], ◌∷◌, ◌++◌, replicate,
  drop, get_or, ◌≢◌, ◌+◌, ◌*◌, arith,
}
use har_lin_kernel.Partition.{Table, Entry, entry, start_of, sectors_of, read_le32, init}
use har_lin_kernel.Partition.Primary.{Holds, primaries}
use har_lin_kernel.Partition.Records.{records, Lists}
use har_lin_kernel.Partition.Listed.{init-Lists}
use har_lin_kernel.Partition.Chain.{Listing, init-ends}

-- A sector that lists one partition of type 12, of 3 sectors from sector 2 on, in its first entry.
abbrev one_entry : List ℕ
one_entry =
    replicate 450 0
    ++ (12 ∷ 0 ∷ 0 ∷ 0 ∷ 2 ∷ 0 ∷ 0 ∷ 0 ∷ 3 ∷ [])
    ++ replicate 51 0
    ++ (0x55 ∷ 0xaa ∷ [])

abbrev small_disk : ℕ → Option (List ℕ)
small_disk zero = some one_entry
small_disk (suc i) = none

found_one : get_or (primaries one_entry 4 0) 0 (entry 0 0 0) ≡ entry 2 3 12
unfolding primaries read_le32
found_one = refl

no_extended :
    (j : ℕ)
    → j < 4
    → (get_or one_entry (446 + 16 * j + 4) 0 ≢ 5) × (get_or one_entry (446 + 16 * j + 4) 0 ≢ 15)
no_extended zero h = (λ e. ground (arith, e), λ e. ground (arith, e))
no_extended (suc zero) h = (λ e. ground (arith, e), λ e. ground (arith, e))
no_extended (suc (suc zero)) h = (λ e. ground (arith, e), λ e. ground (arith, e))
no_extended (suc (suc (suc zero))) h = (λ e. ground (arith, e), λ e. ground (arith, e))
no_extended (suc (suc (suc (suc j)))) h = absurd (omega (arith, h))

init-Lists_example :
    (t : Table) × (es : List Entry) × (init 0 small_disk ≡ some (true, t))
    × Holds t es
    × Lists (records 4 (drop 446 one_entry)) es
init-Lists_example = init-Lists 0 small_disk one_entry refl refl no_extended

-- An extended partition from sector 1 on, and a sector that lists a partition and links to the next
-- sector.
abbrev extended_entry : List ℕ
extended_entry =
    replicate 450 0
    ++ (5 ∷ 0 ∷ 0 ∷ 0 ∷ 1 ∷ 0 ∷ 0 ∷ 0 ∷ 3 ∷ [])
    ++ replicate 51 0
    ++ (0x55 ∷ 0xaa ∷ [])

abbrev link : List ℕ
link =
    replicate 450 0
    ++ (12 ∷ 0 ∷ 0 ∷ 0 ∷ 2 ∷ 0 ∷ 0 ∷ 0 ∷ 3 ∷ 0 ∷ 0 ∷ 0 ∷ [])
    ++ replicate 4 0
    ++ (5 ∷ 0 ∷ 0 ∷ 0 ∷ 1 ∷ 0 ∷ 0 ∷ 0 ∷ [])
    ++ replicate 36 0
    ++ (0x55 ∷ 0xaa ∷ [])

abbrev chained_disk : ℕ → Option (List ℕ)
chained_disk zero = some extended_entry
chained_disk (suc i) = some link

abbrev count_of : Option (Bool × Table) → ℕ
count_of none = 0
count_of (some (ok, t)) = t.count

-- The chain fills the table.
fills_table : count_of (init 17 chained_disk) ≡ 16
unfolding init
fills_table = refl

numbers :
    (start_of extended_entry 0 ≡ 1)
    × (sectors_of extended_entry 0 ≡ 3)
    × (start_of link 0 ≡ 2)
    × (sectors_of link 0 ≡ 3)
unfolding read_le32
numbers = (refl, refl, refl, refl)

abbrev get_or_sector : Option (List ℕ) → List ℕ
get_or_sector none = []
get_or_sector (some sector) = sector

lists_partition :
    (i : ℕ) (ebr : List ℕ)
    → chained_disk i ≡ some ebr
    → (start_of ebr 0 ≢ 0) × (sectors_of ebr 0 ≢ 0)
lists_partition zero ebr e =
    let same : extended_entry ≡ ebr = ap (λ o. get_or_sector o) e in
    (
      λ q. ground (arith, numbers.0, ap (λ x. start_of x 0) same, q),
      λ q. ground (arith, numbers.1, ap (λ x. sectors_of x 0) same, q),
    )
lists_partition (suc i) ebr e =
    let same : link ≡ ebr = ap (λ o. get_or_sector o) e in
    (
      λ q. ground (arith, numbers.2, ap (λ x. start_of x 0) same, q),
      λ q. ground (arith, numbers.3, ap (λ x. sectors_of x 0) same, q),
    )

chained_disk-Listing : (start : ℕ) → Listing chained_disk start
chained_disk-Listing start = record {
  starts = λ i ebr on e s. (lists_partition i ebr e).0;
  sectors = λ i ebr on e s. (lists_partition i ebr e).1;
}

init-ends_example : (b : Bool × Table) × (init 17 chained_disk ≡ some b)
init-ends_example =
    init-ends 17 chained_disk (λ sector j e h x. chained_disk-Listing (start_of sector j))
      (omega arith)
