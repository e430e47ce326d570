-- ===== src/Partition/Listed.antt =====
-- The table of partitions against the first sector as it stands on the disk:
-- src/harlin/fs/partition.c.
use har_lin_kernel.Base.{
  ℕ, ◌+◌, ◌*◌, ◌<◌, ◌≡◌, ◌≢◌, true, false, Option, some, List, drop, get_or, ap, arith,
}
use har_lin_kernel.Partition.{Entry, Table, is_signed, is_extended, type_of, init}
use har_lin_kernel.Partition.Primary.{Holds, primaries, init-Holds}
use har_lin_kernel.Partition.Records.{records, Lists, primaries-Lists}

not_extended :
    (sector : List ℕ) (j : ℕ)
    → (get_or sector (446 + 16 * j + 4) 0 ≢ 5) × (get_or sector (446 + 16 * j + 4) 0 ≢ 15)
    → is_extended (type_of sector j) ≡ false
not_extended sector j (a, b) =
    let same : 446 + 16 * j + 4 ≡ 0x1be + j * 16 + 4 = omega arith in
    ground (arith, a, b, ap (λ k. get_or sector k 0) same)

-- On a disk whose first sector is signed and has no record of an extended partition (types 5 and
-- 15), `partition_init` succeeds, and the table holds, in their order, exactly the partitions that
-- the four records of 16 bytes from byte 446 on describe, those of type 0 left out, with the
-- numbers read lowest byte first.
pub init-Lists :
    (fuel : ℕ) (disk : ℕ → Option (List ℕ)) (sector : List ℕ)
    → disk 0 ≡ some sector
    → is_signed sector ≡ true
    → ((j : ℕ)
        → j < 4
        → (get_or sector (446 + 16 * j + 4) 0 ≢ 5) × (get_or sector (446 + 16 * j + 4) 0 ≢ 15))
    → (t : Table) × (es : List Entry) × (init fuel disk ≡ some (true, t))
      × Holds t es
      × Lists (records 4 (drop 446 sector)) es
init-Lists fuel disk sector e s f =
    let (t, done, holds) = init-Holds fuel disk sector e s (λ j h. not_extended sector j (f j h)) in
    (t, primaries sector 4 0, done, holds, primaries-Lists sector 4 0)
