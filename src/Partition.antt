-- ===== src/Partition.antt =====
-- The table of partitions: src/harlin/fs/partition.c. The disk is an argument: the sector at an
-- address, or `none` where `ata_read_sectors` fails.
pub mod Primary
pub mod Records
pub mod Listed
pub mod Chain
mod Examples
use har_lin_kernel.Base.{
  ℕ, zero, suc, ◌+◌, ◌*◌, ◌%◌, ◌^◌, Bool, true, false, not, ◌&&◌, ◌||◌, Option, none, some, List,
  leb, ◌==◌, if◌then◌else◌, get_or, set, replicate, ℤ, index,
}

abbrev pub partition_max : ℕ
partition_max = 16

-- `struct partition_entry`
pub record Entry : Type 0 where
  pub active : ℕ
  pub type : ℕ
  pub start_lba : ℕ
  pub sector_count : ℕ

abbrev pub cleared : Entry
cleared = record { active = 0; type = 0; start_lba = 0; sector_count = 0 }

-- `partitions` and `partition_count_value`
pub record Table : Type 0 where
  pub entries : List Entry
  pub count : ℕ

abbrev pub byte : List ℕ → ℕ → ℕ
byte sector i = get_or sector i 0

-- `read_le32` at an offset into a sector of bytes.
pub read_le32 : List ℕ → ℕ → ℕ
read_le32 sector i =
    byte sector i
    + byte sector (i + 1) * 2 ^ 8
    + byte sector (i + 2) * 2 ^ 16
    + byte sector (i + 3) * 2 ^ 24

abbrev pub entry : ℕ → ℕ → ℕ → Entry
entry start sectors type = record {
  active = 0;
  type = type;
  start_lba = start;
  sector_count = sectors;
}

-- `add_partition`
pub add_partition : Entry → Table → Table
add_partition e t =
    if leb partition_max t.count
    then t
    else record { entries = set t.entries t.count e; count = t.count + 1 }

-- The two bytes at the end of a sector.
abbrev pub is_signed : List ℕ → Bool
is_signed sector = (byte sector 510 == 0x55) && (byte sector 511 == 0xaa)

-- The offset of entry `i` of a sector.
abbrev pub offset : ℕ → ℕ
offset i = 0x1be + i * 16

abbrev pub type_of : List ℕ → ℕ → ℕ
type_of sector i = byte sector (offset i + 4)

abbrev pub start_of : List ℕ → ℕ → ℕ
start_of sector i = read_le32 sector (offset i + 8)

abbrev pub sectors_of : List ℕ → ℕ → ℕ
sectors_of sector i = read_le32 sector (offset i + 12)

abbrev pub is_extended : ℕ → Bool
is_extended type = (type == 0x05) || (type == 0x0f)

-- Neither empty nor extended.
abbrev pub is_plain : ℕ → Bool
is_plain type = not (type == 0) && not (is_extended type)

-- What entry `i` of the first sector does: to the extended partition that was seen last,
pub see_extended : List ℕ → ℕ → Option ℕ → Option ℕ
see_extended sector i extended =
    if not (type_of sector i == 0) && is_extended (type_of sector i)
    then some (start_of sector i)
    else extended

-- and to the table.
pub add_primary : List ℕ → ℕ → Table → Table
unfolding add_partition read_le32
add_primary sector i t =
    if is_plain (type_of sector i)
    then add_partition (entry (start_of sector i) (sectors_of sector i) (type_of sector i)) t
    else t

-- The loop over the entries of the first sector, from entry `i` on.
pub mbr_loop : List ℕ → ℕ → ℕ → Option ℕ → Table → Option ℕ × Table
unfolding see_extended add_primary
mbr_loop sector zero i extended t = (extended, t)
mbr_loop sector (suc rounds) i extended t =
    mbr_loop sector rounds (i + 1) (see_extended sector i extended) (add_primary sector i t)

-- What one extended sector adds.
pub add_logical : List ℕ → ℕ → Table → Table
unfolding add_partition read_le32
add_logical ebr start t =
    if (start_of ebr 0 == 0) || (sectors_of ebr 0 == 0)
    then t
    else add_partition
        (entry ((start + start_of ebr 0) % 2 ^ 32) (sectors_of ebr 0) (type_of ebr 0)) t

-- What follows a read of the chain; `rest` is the rest of the loop.
pub follow : (ℕ → Table → Option Table) → ℕ → Table → Option (List ℕ) → Option Table
follow rest start t none = some t
follow rest start t (some ebr) =
    if not (is_signed ebr)
    then some t
    else if start_of ebr 1 == 0
    then some (add_logical ebr start t)
    else rest ((start + start_of ebr 1) % 2 ^ 32) (add_logical ebr start t)

-- The loop over the chain of extended sectors, on fuel; `none` when that runs out.
pub ebr_loop : ℕ → (ℕ → Option (List ℕ)) → ℕ → Table → Option Table
unfolding follow add_logical
ebr_loop zero disk start t = none
ebr_loop (suc fuel) disk start t =
    if leb partition_max t.count
    then some t
    else follow (λ next t'. ebr_loop fuel disk next t') start t (disk start)

pub parse_chain : ℕ → (ℕ → Option (List ℕ)) → Option ℕ × Table → Option Table
unfolding ebr_loop
parse_chain fuel disk (none, t) = some t
parse_chain fuel disk (some start, t) = ebr_loop fuel disk start t

pub finish : Option Table → Option (Bool × Table)
finish none = none
finish (some t) = some (true, t)

pub parse_sector : ℕ → (ℕ → Option (List ℕ)) → Table → Option (List ℕ) → Option (Bool × Table)
unfolding finish parse_chain mbr_loop
parse_sector fuel disk t none = some (false, t)
parse_sector fuel disk t (some sector) =
    if not (is_signed sector)
    then some (false, t)
    else finish (parse_chain fuel disk (mbr_loop sector 4 0 none t))

-- `parse_mbr`: whether it succeeds, and the table.
pub parse_mbr : ℕ → (ℕ → Option (List ℕ)) → Table → Option (Bool × Table)
unfolding parse_sector
parse_mbr fuel disk t = parse_sector fuel disk t (disk 0)

-- `partition_init`
unfoldable pub init : ℕ → (ℕ → Option (List ℕ)) → Option (Bool × Table)
unfolding parse_mbr
init fuel disk =
    parse_mbr fuel disk (record { entries = replicate partition_max cleared; count = 0 })

get_at : Option ℕ → Table → Option Entry
get_at none t = none
get_at (some i) t = some (get_or t.entries i cleared)

-- `partition_get`
pub get : ℤ → Table → Option Entry
unfolding get_at
get i t = get_at (index partition_max i) t
