-- ===== src/Partition/Primary.antt =====
-- The partitions that the first sector of the disk lists: src/harlin/fs/partition.c.
use har_lin_kernel.Base.{
  ℕ, zero, suc, ◌+◌, ◌≤◌, ◌<◌, ◌≡◌, refl, ap, sym, ◌∙◌, true, false, Option, none, some, List, [],
  ◌∷◌, ◌++◌, leb, ◌==◌, if◌then◌else◌, length, set, take, Bool-cases, inl, inr, arith, length-set,
  length-append, replicate,
}
use mathlib.Core.Path.{subst}
use har_lin_kernel.Partition.{
  is_signed, init, parse_mbr, parse_sector, finish, parse_chain, cleared, partition_max, Entry,
  Table, add_partition, entry, type_of, start_of, sectors_of, is_extended, is_plain, see_extended,
  add_primary, mbr_loop,
}

-- A table that holds these partitions.
pub record Holds (t : Table) (xs : List Entry) : Type 0 where
  pub size : length t.entries ≡ partition_max
  pub number : t.count ≡ length xs
  pub start : take t.count t.entries ≡ xs

take-set :
    (xs : List Entry) (k : ℕ) (e : Entry)
    → k < length xs
    → take (suc k) (set xs k e) ≡ take k xs ++ (e ∷ [])
take-set [] k e h = absurd (omega (arith, h))
take-set (x ∷ xs) zero e h = refl
take-set (x ∷ xs) (suc k) e h = ap (λ ys. x ∷ ys) (take-set xs k e (omega (arith, h)))

append-append : (xs ys zs : List Entry) → (xs ++ ys) ++ zs ≡ xs ++ (ys ++ zs)
append-append [] ys zs = refl
append-append (x ∷ xs) ys zs = ap (λ t. x ∷ t) (append-append xs ys zs)

append-nil : (xs : List Entry) → xs ++ [] ≡ xs
append-nil [] = refl
append-nil (x ∷ xs) = ap (λ zs. x ∷ zs) (append-nil xs)

add_partition-Holds :
    {t : Table} {xs : List Entry} (e : Entry)
    → Holds t xs
    → length xs < partition_max
    → Holds (add_partition e t) (xs ++ (e ∷ []))
unfolding add_partition
add_partition-Holds {t} {xs} e h few =
    let room : leb partition_max t.count ≡ false = ground (arith, h.number, few) in
    let later : suc t.count ≡ t.count + 1 = omega arith in
    let inside : t.count < length t.entries = omega (arith, h.number, few, h.size) in
    subst (λ r. Holds r (xs ++ (e ∷ []))) (sym (the_table t e room))
      (record {
        size = length-set t.entries t.count e ∙ h.size;
        number = omega (arith, h.number, length-append xs (e ∷ []));
        start =
            ap (λ k. take k (set t.entries t.count e)) (sym later)
            ∙ take-set t.entries t.count e inside
            ∙ ap (λ ys. ys ++ (e ∷ [])) h.start;
      })
  where
    the_table :
        (t : Table) (e : Entry)
        → leb partition_max t.count ≡ false
        → add_partition e t ≡ record { entries = set t.entries t.count e; count = t.count + 1 }
    the_table t e room = rw room refl

see_extended-none :
    (sector : List ℕ) (i : ℕ)
    → is_extended (type_of sector i) ≡ false
    → see_extended sector i none ≡ none
unfolding see_extended
see_extended-none sector i f = rw f ground (arith, Bool-cases (type_of sector i == 0))

-- The partition of entry `i`, if it has one.
unfoldable pub primary : List ℕ → ℕ → List Entry
primary sector i =
    if is_plain (type_of sector i)
    then entry (start_of sector i) (sectors_of sector i) (type_of sector i) ∷ []
    else []

-- The partitions among the entries from entry `i` on.
unfoldable pub primaries : List ℕ → ℕ → ℕ → List Entry
unfolding primary
primaries sector zero i = []
primaries sector (suc rounds) i = primary sector i ++ primaries sector rounds (i + 1)

add_primary-Holds :
    {t : Table} {xs : List Entry} (sector : List ℕ) (i : ℕ)
    → Holds t xs
    → length xs < partition_max
    → Holds (add_primary sector i t) (xs ++ primary sector i)
      × (length (xs ++ primary sector i) ≤ length xs + 1)
unfolding add_primary primary
add_primary-Holds {t} {xs} sector i h few =
    let e = entry (start_of sector i) (sectors_of sector i) (type_of sector i) in
    let nothing : List Entry = [] in
    elim (Bool-cases (is_plain (type_of sector i))) [
      | inl p ↦ rw p (add_partition-Holds e h few, omega (arith, length-append xs (e ∷ [])))
      | inr p ↦
          rw p (subst (Holds t) (sym (append-nil xs)) h, omega (arith, length-append xs nothing))
    ]

mbr_loop-Holds :
    (sector : List ℕ) (rounds i : ℕ) (o : Option ℕ) (t : Table) (xs : List Entry)
    → Holds t xs
    → length xs + rounds ≤ partition_max
    → Holds (mbr_loop sector rounds i o t).1 (xs ++ primaries sector rounds i)
unfolding mbr_loop primaries
mbr_loop-Holds sector zero i o t xs h few = subst (Holds t) (sym (append-nil xs)) h
mbr_loop-Holds sector (suc rounds) i o t xs h few =
    let (step, more) = add_primary-Holds sector i h (omega (arith, few)) in
    subst
      (Holds (mbr_loop sector rounds (i + 1) (see_extended sector i o) (add_primary sector i t)).1)
      (append-append xs (primary sector i) (primaries sector rounds (i + 1)))
      (mbr_loop-Holds sector rounds (i + 1) (see_extended sector i o) (add_primary sector i t)
        (xs ++ primary sector i) step (omega (arith, few, more)))

mbr_loop-none :
    (sector : List ℕ) (rounds i : ℕ) (t : Table)
    → ((j : ℕ) → j < i + rounds → is_extended (type_of sector j) ≡ false)
    → (mbr_loop sector rounds i none t).0 ≡ none
unfolding mbr_loop
mbr_loop-none sector zero i t f = refl
mbr_loop-none sector (suc rounds) i t f =
    ap (λ o. (mbr_loop sector rounds (i + 1) o (add_primary sector i t)).0)
      (see_extended-none sector i (f i (omega arith)))
    ∙ mbr_loop-none sector rounds (i + 1) (add_primary sector i t) (λ j h. f j (omega (arith, h)))

finish-none :
    (fuel : ℕ) (disk : ℕ → Option (List ℕ)) (r : Option ℕ × Table)
    → r.0 ≡ none
    → finish (parse_chain fuel disk r) ≡ some (true, r.1)
unfolding finish parse_chain
finish-none fuel disk (none, t) e = refl
finish-none fuel disk (some s, t) e = absurd (ground (arith, e))

parse_sector-none :
    (fuel : ℕ) (disk : ℕ → Option (List ℕ)) (sector : List ℕ) (t : Table)
    → is_signed sector ≡ true
    → (mbr_loop sector 4 0 none t).0 ≡ none
    → parse_sector fuel disk t (some sector) ≡ some (true, (mbr_loop sector 4 0 none t).1)
unfolding parse_sector
parse_sector-none fuel disk sector t signed e =
    rw signed (finish-none fuel disk (mbr_loop sector 4 0 none t) e)

-- On a disk whose first sector is signed and lists no extended partition, `partition_init`
-- succeeds, and the table holds exactly the partitions of that sector, in its order.
pub init-Holds :
    (fuel : ℕ) (disk : ℕ → Option (List ℕ)) (sector : List ℕ)
    → disk 0 ≡ some sector
    → is_signed sector ≡ true
    → ((j : ℕ) → j < 4 → is_extended (type_of sector j) ≡ false)
    → (t : Table) × (init fuel disk ≡ some (true, t)) × Holds t (primaries sector 4 0)
unfolding init parse_mbr
init-Holds fuel disk sector e signed f =
    let empty : Table = record { entries = replicate partition_max cleared; count = 0 } in
    let nothing : List Entry = [] in
    let start : Holds empty nothing = record { size = refl; number = refl; start = refl } in
    let r = mbr_loop sector 4 0 none empty in
    (
      r.1,
      ap (parse_sector fuel disk empty) e
          ∙ parse_sector-none fuel disk sector empty signed
              (mbr_loop-none sector 4 0 empty (λ j h. f j (omega (arith, h)))),
      mbr_loop-Holds sector 4 0 none empty nothing start (omega arith),
    )
