-- ===== src/Spinlock.antt =====
-- The lock: src/harlin/core/spinlock.c, with the routine atomic_cmpxchg of src/asm/core/atomic.asm.
-- The word of a lock has 32 bits, but the routine compares and writes 64, so that the word behind
-- it in memory is a part of the model. Several processors make their steps in any order.
pub mod Holder
pub mod Exclusion
mod Examples
use har_lin_kernel.Base.{
  ℕ, zero, suc, ◌+◌, ◌*◌, ◌/◌, ◌%◌, ◌^◌, ◌<◌, ◌≡◌, Bool, true, false, List, ◌==◌, if◌then◌else◌,
  get_or, set, replicate, length,
}

-- `struct spinlock`, and the four bytes behind it.
pub record Cell : Type 0 where
  pub lock : ℕ
  pub beside : ℕ

-- `atomic_cmpxchg`: whether it wrote, and the memory.
pub cmpxchg : ℕ → ℕ → Cell → Bool × Cell
cmpxchg expected desired m =
    if m.lock + m.beside * 2 ^ 32 == expected
    then (true, record { lock = desired % 2 ^ 32; beside = desired / 2 ^ 32 % 2 ^ 32 })
    else (false, m)

-- `spinlock_init`
pub init : Cell → Cell
init m = record m { lock = 0 }

-- Where a processor stands: outside, in the inner loop of `spinlock_acquire`, behind it, or with
-- the lock.
pub data Stage : Type 0 where
  outside : Stage
  spinning : Stage
  attempting : Stage
  holding : Stage

-- `spinlock_try_acquire`
pub try_acquire : Cell → Bool × Cell
unfolding cmpxchg
try_acquire m = cmpxchg 0 1 m

abbrev pub got : Bool → Stage → Stage
got true s = holding
got false s = s

-- One step of `spinlock_acquire`: a read of the word, or a call of `atomic_cmpxchg`.
pub acquire : Stage → Cell → Stage × Cell
unfolding cmpxchg
acquire outside m = (outside, m)
acquire spinning m = if m.lock == 0 then (attempting, m) else (spinning, m)
acquire attempting m = let (wrote, m') = cmpxchg 0 1 m in (got wrote spinning, m')
acquire holding m = (holding, m)

-- `spinlock_release`
pub release : Cell → Cell
release m = record m { lock = 0 }

-- A lock, and where each processor stands.
pub record System : Type 0 where
  pub cell : Cell
  pub cpus : List Stage

abbrev pub stage : System → ℕ → Stage
stage s c = get_or s.cpus c outside

-- A step of processor `c`, or a store to the word behind the lock.
pub data Step : System → System → Type 0 where
  enters :
      {s : System} (c : ℕ)
      → c < length s.cpus
      → stage s c ≡ outside
      → Step s (record s { cpus = set s.cpus c spinning })
  acquires :
      {s : System} (c : ℕ)
      → c < length s.cpus
      → Step s (record {
        cell = (acquire (stage s c) s.cell).1;
        cpus = set s.cpus c (acquire (stage s c) s.cell).0;
      })
  tries :
      {s : System} (c : ℕ)
      → c < length s.cpus
      → stage s c ≡ outside
      → Step s (record {
        cell = (try_acquire s.cell).1;
        cpus = set s.cpus c (got (try_acquire s.cell).0 outside);
      })
  releases :
      {s : System} (c : ℕ)
      → c < length s.cpus
      → stage s c ≡ holding
      → Step s (record { cell = release s.cell; cpus = set s.cpus c outside })
  stores : {s : System} (v : ℕ) → Step s (record s { cell = record s.cell { beside = v } })

-- All that `n` processors can do with a lock, from `spinlock_init` on.
pub data Reached (n : ℕ) (m : Cell) : System → Type 0 where
  start : Reached n m (record { cell = init m; cpus = replicate n outside })
  next : {s t : System} → Reached n m s → Step s t → Reached n m t

-- `rounds` steps of `spinlock_acquire` of one processor.
pub spin : ℕ → Stage → Cell → Stage × Cell
unfolding acquire
spin zero s m = (s, m)
spin (suc rounds) s m = let (s', m') = acquire s m in spin rounds s' m'
