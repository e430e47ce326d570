-- ===== src/Notify/View.antt =====
-- The tables of signal.c seen as sets: which events are pending and which are blocked, for each
-- task. And the shape that the tables keep.
use har_lin_kernel.Base.{
  ℕ, ◌^◌, ◌<◌, ◌≡◌, refl, Bool, not, ◌&&◌, List, arith, length, get_or, set, length-set, get_or-set,
  get_or-replicate,
}
use har_lin_kernel.Base.Bits.{test_bit, test_bit-and_not}
use har_lin_kernel.Notify.{Table, max_tasks, notify_kill, init, deliverable}

-- Is event `what` pending for task `pid`?
abbrev pub pends : Table → ℕ → ℕ → Bool
pends t pid what = test_bit (get_or t.pending pid 0) what

-- Has task `pid` blocked event `what`?
abbrev pub blocks : Table → ℕ → ℕ → Bool
blocks t pid what = test_bit (get_or t.blocked pid 0) what

-- One mask of 32 bits for each task.
abbrev pub IsWords : List ℕ → Type 0
IsWords l = (length l ≡ max_tasks) × ((pid : ℕ) → get_or l pid 0 < 2 ^ 32)

pub record IsValid (t : Table) : Type 0 where
  pub pending : IsWords t.pending
  pub blocked : IsWords t.blocked

pub IsWords-set : (l : List ℕ) (p v : ℕ) → p < 32 → v < 2 ^ 32 → IsWords l → IsWords (set l p v)
IsWords-set l p v h k w =
    (omega (arith, length-set l p v, w.0), λ q. ground (arith, get_or-set l p q v 0, w.0, w.1 q))

-- `poll` sees what is pending and not blocked.
pub deliverable_bit :
    {t : Table} (pid j : ℕ)
    → IsValid t
    → test_bit (deliverable t pid) j ≡ (pends t pid j && not (blocks t pid j))
unfolding deliverable
deliverable_bit {t} pid j v = test_bit-and_not 32 _ _ j (v.pending.1 pid) (v.blocked.1 pid)

pub init-IsValid : IsValid init
unfolding init
init-IsValid = record {
  pending = (refl, λ p. ground (arith, get_or-replicate {A = ℕ} max_tasks p 0 0));
  blocked = (refl, λ p. ground (arith, get_or-replicate {A = ℕ} max_tasks p (2 ^ notify_kill) 0));
}
