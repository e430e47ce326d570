-- ===== src/Notify/Change.antt =====
-- What `send`, `mask` and `unmask` of signal.c do to the sets of pending and blocked events.
use Prim.Native.Nat.{bit_and, bit_or}
use har_lin_kernel.Base.{
  ℕ, suc, ◌^◌, ◌<◌, ◌≡◌, refl, not, ◌&&◌, ◌||◌, List, arith, ◌==◌, get_or, set, get_or-set, pos,
  index-pos,
}
use har_lin_kernel.Base.Bits.{
  test_bit, bit_not, test_bit-set, test_bit-clear, bit_or-lt-pow, bit_and-le, pow-lt-pow,
}
use har_lin_kernel.Notify.{Table, send, mask, unmask, clear}
use har_lin_kernel.Notify.View.{pends, blocks, IsValid, IsWords, IsWords-set}

-- What setting bit `w` in the word of task `p` does to each bit of the table.
test_bit-set_at :
    (l : List ℕ) (p w q j : ℕ)
    → IsWords l
    → p < 32
    → test_bit (get_or (set l p (bit_or (get_or l p 0) (2 ^ w))) q 0) j
      ≡ (test_bit (get_or l q 0) j || (p == q && w == j))
test_bit-set_at l p w q j v h =
    ground
      (arith, get_or-set l p q (bit_or (get_or l p 0) (2 ^ w)) 0, test_bit-set (get_or l p 0) w j)

test_bit-clear_at :
    (l : List ℕ) (p w q j : ℕ)
    → IsWords l
    → p < 32
    → w < 32
    → test_bit (get_or (set l p (bit_and (get_or l p 0) (bit_not 32 (2 ^ w)))) q 0) j
      ≡ (test_bit (get_or l q 0) j && not (p == q && w == j))
test_bit-clear_at l p w q j v h k = ground (
  arith,
  get_or-set l p q (bit_and (get_or l p 0) (bit_not 32 (2 ^ w))) 0,
  test_bit-clear 32 (get_or l p 0) w j (v.1 p),
)

set_at-IsWords :
    (l : List ℕ) (p w : ℕ)
    → IsWords l
    → p < 32
    → w < 32
    → IsWords (set l p (bit_or (get_or l p 0) (2 ^ w)))
set_at-IsWords l p w v h k =
    IsWords-set l p _ h (bit_or-lt-pow 32 _ _ (v.1 p) (pow-lt-pow w 32 k)) v

clear_at-IsWords :
    (l : List ℕ) (p m : ℕ) → IsWords l → p < 32 → IsWords (set l p (bit_and (get_or l p 0) m))
clear_at-IsWords l p m v h =
    IsWords-set l p _ h (omega (arith, bit_and-le (get_or l p 0) m, v.1 p)) v

-- On tables of valid shape, `send` to a task and with an event in range makes that event pending
-- for that task, changes no other pending bit and no blocked bit, and keeps the shape of the
-- tables.
pub send_lem :
    (t : Table) (p w : ℕ)
    → IsValid t
    → p < 32
    → w < 32
    → let (r, t') = send t (pos p) (pos w) in
      (r ≡ pos 0)
      × IsValid t'
      × ((q j : ℕ) → pends t' q j ≡ (pends t q j || (p == q && w == j)))
      × (t'.blocked ≡ t.blocked)
unfolding send
send_lem t p w v h k =
    rw (index-pos 32 p h, index-pos 32 w k)
      (
        refl,
        record { pending = set_at-IsWords t.pending p w v.pending h k; blocked = v.blocked },
        λ q j. test_bit-set_at t.pending p w q j v.pending h,
        refl,
      )

-- On tables of valid shape `mask`, in range, blocks that event for that task and touches nothing
-- else.
pub mask_lem :
    (t : Table) (p w : ℕ)
    → IsValid t
    → p < 32
    → w < 32
    → let (r, t') = mask t (pos p) (pos w) in
      (r ≡ pos 0)
      × IsValid t'
      × ((q j : ℕ) → blocks t' q j ≡ (blocks t q j || (p == q && w == j)))
      × (t'.pending ≡ t.pending)
unfolding mask
mask_lem t p w v h k =
    rw (index-pos 32 p h, index-pos 32 w k)
      (
        refl,
        record { pending = v.pending; blocked = set_at-IsWords t.blocked p w v.blocked h k },
        λ q j. test_bit-set_at t.blocked p w q j v.blocked h,
        refl,
      )

-- On tables of valid shape, `unmask` of an event from 1 to 31 for a task in range unblocks it for
-- that task, touches no other bit, and keeps the shape.
pub unmask_lem :
    (t : Table) (p w : ℕ)
    → IsValid t
    → p < 32
    → suc w < 32
    → let (r, t') = unmask t (pos p) (pos (suc w)) in
      (r ≡ pos 0)
      × IsValid t'
      × ((q j : ℕ) → blocks t' q j ≡ (blocks t q j && not (p == q && suc w == j)))
      × (t'.pending ≡ t.pending)
unfolding unmask
unmask_lem t p w v h k =
    rw (index-pos 32 p h, index-pos 32 (suc w) k)
      (
        refl,
        record {
          pending = v.pending;
          blocked = clear_at-IsWords t.blocked p (bit_not 32 (2 ^ suc w)) v.blocked h;
        },
        λ q j. test_bit-clear_at t.blocked p (suc w) q j v.blocked h k,
        refl,
      )

-- `clear` takes one pending event away.
pub clear_lem :
    (t : Table) (p w : ℕ)
    → IsValid t
    → p < 32
    → w < 32
    → IsValid (clear t p w)
      × ((q j : ℕ) → pends (clear t p w) q j ≡ (pends t q j && not (p == q && w == j)))
unfolding clear
clear_lem t p w v h k = (
  record {
    pending = clear_at-IsWords t.pending p (bit_not 32 (2 ^ w)) v.pending h;
    blocked = v.blocked;
  },
  λ q j. test_bit-clear_at t.pending p w q j v.pending h k,
)
