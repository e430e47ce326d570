-- ===== src/Partition/Chain.antt =====
-- The chain of extended sectors: src/harlin/fs/partition.c.
use har_lin_kernel.Base.{
  ℕ, zero, suc, ◌+◌, ◌%◌, ◌^◌, ◌≤◌, ◌<◌, ◌≡◌, ◌≢◌, refl, Bool, true, false, not, ◌&&◌, ◌||◌, Option,
  none, some, List, leb, ◌==◌, replicate, Bool-cases, Option-cases, inl, inr, arith,
}
use mathlib.Core.Path.{subst}
use har_lin_kernel.Partition.{
  is_extended, is_plain, see_extended, add_primary, cleared, finish, parse_sector, partition_max,
  Table, add_partition, add_logical, type_of, start_of, sectors_of, is_signed, follow, ebr_loop,
  mbr_loop, parse_chain, parse_mbr, init,
}

-- The sectors of the chain that starts at sector `start`.
pub data OnChain (disk : ℕ → Option (List ℕ)) (start : ℕ) : ℕ → Type 0 where
  here : OnChain disk start start
  onward :
      {i : ℕ} (ebr : List ℕ)
      → OnChain disk start i
      → disk i ≡ some ebr
      → is_signed ebr ≡ true
      → start_of ebr 1 ≢ 0
      → OnChain disk start ((i + start_of ebr 1) % 2 ^ 32)

-- A chain each of whose sectors, as far as they are signed, lists a partition where the code looks
-- for one.
pub record Listing (disk : ℕ → Option (List ℕ)) (start : ℕ) : Type 0 where
  pub starts :
      (i : ℕ) (ebr : List ℕ)
      → OnChain disk start i
      → disk i ≡ some ebr
      → is_signed ebr ≡ true
      → start_of ebr 0 ≢ 0
  pub sectors :
      (i : ℕ) (ebr : List ℕ)
      → OnChain disk start i
      → disk i ≡ some ebr
      → is_signed ebr ≡ true
      → sectors_of ebr 0 ≢ 0

add_logical-count :
    (ebr : List ℕ) (start : ℕ) (t : Table)
    → start_of ebr 0 ≢ 0
    → sectors_of ebr 0 ≢ 0
    → t.count < partition_max
    → (add_logical ebr start t).count ≡ t.count + 1
unfolding add_logical add_partition
add_logical-count ebr start t a b h =
    let p : ((start_of ebr 0 == 0) || (sectors_of ebr 0 == 0)) ≡ false = ground (arith, a, b) in
    let q : leb partition_max t.count ≡ false = ground (arith, h) in rw (p, q) refl

follow-ends :
    {disk : ℕ → Option (List ℕ)} {from : ℕ} (l : Listing disk from)
    (rest : ℕ → Table → Option Table) (start : ℕ) (t : Table)
    → OnChain disk from start
    → t.count < partition_max
    → ((next : ℕ) (t' : Table)
        → OnChain disk from next
        → t'.count ≡ t.count + 1
        → (r : Table) × (rest next t' ≡ some r))
    → (r : Table) × (follow rest start t (disk start) ≡ some r)
unfolding follow
follow-ends {disk} l rest start t on h f = elim (Option-cases (disk start)) [
  | inl e ↦ (t, rw e refl)
  | inr (ebr, e) ↦ elim (Bool-cases (is_signed ebr)) [
    | inl s ↦ elim (Bool-cases (start_of ebr 1 == 0)) [
      | inl z ↦ (add_logical ebr start t, rw (e, s, z) refl)
      | inr z ↦
          (let (r, q) =
              f ((start + start_of ebr 1) % 2 ^ 32) (add_logical ebr start t)
                (onward ebr on e s (λ q. ground (arith, z, q)))
                (add_logical-count ebr start t (l.starts start ebr on e s)
                  (l.sectors start ebr on e s) h) in
            (r, rw (e, s, z) q))
    ]
    | inr s ↦ (t, rw (e, s) refl)
  ]
]

ebr_loop-ends :
    {disk : ℕ → Option (List ℕ)} {from : ℕ} (l : Listing disk from) (fuel start : ℕ) (t : Table)
    → OnChain disk from start
    → t.count ≤ partition_max
    → partition_max < t.count + fuel
    → (r : Table) × (ebr_loop fuel disk start t ≡ some r)
unfolding ebr_loop
ebr_loop-ends l zero start t on k h = absurd (omega (arith, h, k))
ebr_loop-ends {disk} l (suc fuel) start t on k h = elim (Bool-cases (leb partition_max t.count)) [
  | inl f ↦ (t, rw f refl)
  | inr f ↦
      (let room : t.count < partition_max = ground (arith, f) in
        let (r, q) =
          follow-ends l (λ next t'. ebr_loop fuel disk next t') start t on room
            (λ next t' more e.
              ebr_loop-ends l fuel next t' more (omega (arith, e, room)) (omega (arith, e, h))) in
        (r, rw f q))
]

add_primary-count :
    (sector : List ℕ) (i : ℕ) (t : Table)
    → t.count ≤ partition_max
    → (add_primary sector i t).count ≤ partition_max
unfolding add_primary add_partition
add_primary-count sector i t h = elim (Bool-cases (is_plain (type_of sector i))) [
  | inl p ↦ elim (Bool-cases (leb partition_max t.count)) [
    | inl f ↦ rw (p, f) h
    | inr f ↦ rw (p, f) ground (arith, f)
  ]
  | inr p ↦ rw p h
]

mbr_loop-count :
    (sector : List ℕ) (rounds i : ℕ) (o : Option ℕ) (t : Table)
    → t.count ≤ partition_max
    → (mbr_loop sector rounds i o t).1.count ≤ partition_max
unfolding mbr_loop
mbr_loop-count sector zero i o t h = h
mbr_loop-count sector (suc rounds) i o t h =
    mbr_loop-count sector rounds (i + 1) (see_extended sector i o) (add_primary sector i t)
      (add_primary-count sector i t h)

see_extended-one :
    (P : ℕ → Type 0) (sector : List ℕ) (i : ℕ) (o : Option ℕ)
    → (is_extended (type_of sector i) ≡ true → P (start_of sector i))
    → ((s : ℕ) → o ≡ some s → P s)
    → (s : ℕ) → see_extended sector i o ≡ some s
    → P s
unfolding see_extended
see_extended-one P sector i o f g s e =
    elim (Bool-cases (not (type_of sector i == 0) && is_extended (type_of sector i))) [
      | inl x ↦
          (let same : start_of sector i ≡ s = ground (arith, e, x) in
            subst P same (f (ground (arith, x))))
      | inr x ↦ g s (ground (arith, e, x))
    ]

-- The extended partition that is followed is one that the first sector lists.
mbr_loop-extended :
    (P : ℕ → Type 0) (sector : List ℕ) (rounds i : ℕ) (o : Option ℕ) (t : Table)
    → ((j : ℕ) → j < i + rounds → is_extended (type_of sector j) ≡ true → P (start_of sector j))
    → ((s : ℕ) → o ≡ some s → P s)
    → (s : ℕ) → (mbr_loop sector rounds i o t).0 ≡ some s
    → P s
unfolding mbr_loop
mbr_loop-extended P sector zero i o t f g s e = g s e
mbr_loop-extended P sector (suc rounds) i o t f g s e =
    mbr_loop-extended P sector rounds (i + 1) (see_extended sector i o) (add_primary sector i t)
      (λ j h x. f j (omega (arith, h)) x) (see_extended-one P sector i o (f i (omega arith)) g) s e

parse_chain-ends :
    {disk : ℕ → Option (List ℕ)} (fuel : ℕ) (r : Option ℕ × Table)
    → ((start : ℕ) → r.0 ≡ some start → Listing disk start)
    → r.1.count ≤ partition_max
    → partition_max < fuel
    → (b : Bool × Table) × (finish (parse_chain fuel disk r) ≡ some b)
unfolding finish parse_chain
parse_chain-ends fuel (none, t) l h k = ((true, t), refl)
parse_chain-ends {disk} fuel (some start, t) l h k =
    let (t', e) = ebr_loop-ends (l start refl) fuel start t here h (omega (arith, k)) in
    ((true, t'), rw e refl)

parse_sector-ends :
    {disk : ℕ → Option (List ℕ)} (fuel : ℕ) (t : Table) (o : Option (List ℕ))
    → ((sector : List ℕ) (j : ℕ)
        → o ≡ some sector
        → j < 4
        → is_extended (type_of sector j) ≡ true
        → Listing disk (start_of sector j))
    → t.count ≤ partition_max
    → partition_max < fuel
    → (b : Bool × Table) × (parse_sector fuel disk t o ≡ some b)
unfolding parse_sector
parse_sector-ends fuel t none l h k = ((false, t), refl)
parse_sector-ends {disk} fuel t (some sector) l h k = elim (Bool-cases (is_signed sector)) [
  | inl s ↦
      (let (b, e) =
          parse_chain-ends fuel (mbr_loop sector 4 0 none t)
            (mbr_loop-extended (Listing disk) sector 4 0 none t
              (λ j lt x. l sector j refl (omega (arith, lt)) x)
              (λ start e. absurd (ground (arith, e))))
            (mbr_loop-count sector 4 0 none t h) k in
        (b, rw s e))
  | inr s ↦ ((false, t), rw s refl)
]

-- On a disk where, from each extended partition that the first sector lists, every signed sector of
-- the chain lists a partition, the chain is followed for at most 16 sectors, as many as there are
-- entries in the table: `partition_init` ends.
pub init-ends :
    (fuel : ℕ) (disk : ℕ → Option (List ℕ))
    → ((sector : List ℕ) (j : ℕ)
        → disk 0 ≡ some sector
        → j < 4
        → is_extended (type_of sector j) ≡ true
        → Listing disk (start_of sector j))
    → partition_max < fuel
    → (b : Bool × Table) × (init fuel disk ≡ some b)
unfolding init parse_mbr
init-ends fuel disk l k =
    parse_sector-ends fuel (record { entries = replicate partition_max cleared; count = 0 })
      (disk 0) l (omega arith) k
