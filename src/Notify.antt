-- ===== src/Notify.antt =====
-- Event notification between tasks: src/harlin/proc/signal.c, with the constants of
-- src/head/proc/signal.h. Two tables of 32-bit masks, one for each task. A function that updates
-- the tables returns the new ones beside its result.
pub mod View
pub mod Change
pub mod Pop
pub mod Pump
pub mod Run
mod Examples
use Prim.Native.Nat.{bit_and, bit_or}
use har_lin_kernel.Base.{
  ℕ, zero, suc, ◌+◌, ◌^◌, Bool, Option, none, some, List, [], ◌∷◌, ◌==◌, if◌then◌else◌, get_or, set,
  replicate, ℤ, pos, negsuc, index,
}
use har_lin_kernel.Base.Bits.{bit_not}

abbrev pub max_tasks : ℕ
max_tasks = 32

abbrev pub notify_kill : ℕ
notify_kill = 9

-- `pending_bits` and `blocked_bits`
pub record Table : Type 0 where
  pub pending : List ℕ
  pub blocked : List ℕ

unfoldable pub init : Table
init = record { pending = replicate max_tasks 0; blocked = replicate max_tasks (2 ^ notify_kill) }

-- The error results are -1.
abbrev pub failed : ℤ
failed = negsuc 0

send_at : Table → Option ℕ → Option ℕ → ℤ × Table
send_at t none what = (failed, t)
send_at t (some pid) none = (failed, t)
send_at t (some pid) (some what) =
    (pos 0, record t { pending = set t.pending pid (bit_or (get_or t.pending pid 0) (2 ^ what)) })

pub send : Table → ℤ → ℤ → ℤ × Table
unfolding send_at
send t target_pid what = send_at t (index max_tasks target_pid) (index 32 what)

-- `pending_bits[pid] & ~blocked_bits[pid]`
pub deliverable : Table → ℕ → ℕ
deliverable t pid = bit_and (get_or t.pending pid 0) (bit_not 32 (get_or t.blocked pid 0))

-- The result is read as an unsigned mask; the cast to `int` keeps its bits.
pub poll : Table → ℤ → ℕ
unfolding deliverable
poll t pid = elim (index max_tasks pid) [ none ↦ 0 | some p ↦ deliverable t p ]

-- The loop over `i` with `rounds` left; `what` stays 0 if no bit is set.
pub first_bit : ℕ → ℕ → ℕ → ℕ
first_bit zero i mask = 0
first_bit (suc rounds) i mask =
    let rest = first_bit rounds (i + 1) mask in if bit_and mask (2 ^ i) == 0 then rest else i

-- `pending_bits[pid] &= ~(1u << what)`
pub clear : Table → ℕ → ℕ → Table
clear t pid what = record t {
  pending = set t.pending pid (bit_and (get_or t.pending pid 0) (bit_not 32 (2 ^ what)));
}

pub pop_at : Table → Option ℕ → ℤ × Table
unfolding first_bit clear
pop_at t none = (failed, t)
pop_at t (some pid) =
    let mask = deliverable t pid in
    let what = first_bit 32 0 mask in
    if mask == 0 then (failed, t) else (pos what, clear t pid what)

pub pop : Table → ℤ → ℤ × Table
unfolding pop_at
pop t pid = pop_at t (index max_tasks pid)

mask_at : Table → Option ℕ → Option ℕ → ℤ × Table
mask_at t none what = (failed, t)
mask_at t (some pid) none = (failed, t)
mask_at t (some pid) (some what) =
    (pos 0, record t { blocked = set t.blocked pid (bit_or (get_or t.blocked pid 0) (2 ^ what)) })

pub mask : Table → ℤ → ℤ → ℤ × Table
unfolding mask_at
mask t pid what = mask_at t (index max_tasks pid) (index 32 what)

unmask_at : Table → Option ℕ → Option ℕ → ℤ × Table
unmask_at t none what = (failed, t)
unmask_at t (some pid) none = (failed, t)
unmask_at t (some pid) (some zero) = (failed, t)
unmask_at t (some pid) (some (suc k)) = (
  pos 0,
  record t {
    blocked = set t.blocked pid (bit_and (get_or t.blocked pid 0) (bit_not 32 (2 ^ suc k)));
  },
)

-- The test here is `what <= 0`, so 0 is refused too.
pub unmask : Table → ℤ → ℤ → ℤ × Table
unfolding unmask_at
unmask t pid what = unmask_at t (index max_tasks pid) (index 32 what)

-- `Harlin_NotifyPump` with fuel: the signals that it logs, in order, and the tables. `none` means
-- that the fuel ran out.
pub pump_loop : ℕ → Table → ℤ → Option (List ℕ × Table)
pump_loop zero t pid = none
pump_loop (suc fuel) t pid =
    let popped = pop t pid in
    let rest = pump_loop fuel popped.1 pid in
    elim popped.0 [
      | pos zero ↦ some ([], popped.1)
      | pos (suc k) ↦ elim rest [ none ↦ none | some r ↦ some (suc k ∷ r.0, r.1) ]
      | negsuc n ↦ some ([], popped.1)
    ]

-- Each round but the last clears one of 32 bits.
pub pump : Table → ℤ → Option (List ℕ × Table)
pump t pid = pump_loop 33 t pid
