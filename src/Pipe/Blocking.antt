-- ===== src/Pipe/Blocking.antt =====
-- `pipe_read_blocking` and `pipe_write_blocking` of src/harlin/proc/pipe.c. A call is a sequence of
-- steps, and between two of them other processes run: a pass of its loop up to the return of
-- `pipe_read` or `pipe_write` with the tests behind it, the call of `pipe_add_waiter` under the
-- lock, and the sleep in `process_block_current`.
pub mod Wake
mod Examples
use har_lin_kernel.Base.{
  ℕ, ◌+◌, ◌-◌, ◌^◌, Bool, not, ◌||◌, ◌&&◌, Option, none, some, List, ltb, ◌==◌, if◌then◌else◌,
  get_or, set, drop, ℤ, pos, index, zero, suc,
}
use har_lin_kernel.Pipe.{
  Pipe, Reply, invalid, no_memory, done, Outcome, pipe_count, unused, open_buffer, add_waiter, read,
  write,
}

-- Where a call stands, with the bytes that it has moved so far.
pub data Phase : Type 0 where
  trying : ℕ → Phase
  entering : ℕ → Phase
  asleep : ℕ → Phase
  returned : Reply → Phase

-- The condition of the loops, `total < (int)len`.
abbrev pub goes_on : ℕ → ℕ → Bool
goes_on len total = ltb len (2 ^ 31) && ltb total len

abbrev pub again : ℕ → ℕ → Phase
again len total = if goes_on len total then trying total else returned (done total)

-- What a pass of a loop leaves: where the call stands, and what `pipe_read` or `pipe_write` left.
pub record Pass : Type 0 where
  pub phase : Phase
  pub call : Outcome

-- `pipe_read_blocking` up to its loop.
read_start_at : Option ℕ → ℕ → List Pipe → Phase
read_start_at none len table = returned invalid
read_start_at (some i) len table = elim (open_buffer (get_or table i unused)) [
  | none ↦ returned invalid
  | some _ ↦ again len 0
]

pub read_start : ℤ → ℕ → List Pipe → Phase
unfolding read_start_at
read_start id len table = read_start_at (index pipe_count id) len table

-- What follows a call that returned; `ends` is the count of the processes at the other end.
pub after_call : Bool → ℕ → ℕ → ℕ → Reply → Phase
after_call used ends len total invalid = returned invalid
after_call used ends len total no_memory = returned no_memory
after_call used ends len total (done zero) =
    if not used || ends == 0 then returned (done total) else entering total
after_call used ends len total (done (suc n)) = again len (total + suc n)

-- One pass of the loop of `pipe_read_blocking` on pipe `i`.
pub read_pass : ℕ → Bool → ℕ → ℕ → List Pipe → Pass
unfolding after_call
read_pass i has_buf len total table =
    let r = read (pos i) has_buf (len - total) table in
    let p = get_or r.table i unused in
    record { phase = after_call p.used p.writers len total r.reply; call = r }

-- A full queue leaves the slots as they are, and the result is not looked at.
abbrev pub entered : Option (List ℕ × ℕ) → List ℕ × ℕ → List ℕ × ℕ
entered none slots = slots
entered (some slots) old = slots

-- The process enters the readers that wait, if there is a current process.
pub enter_reader : Option ℕ → ℕ → List Pipe → List Pipe
enter_reader none i table = table
enter_reader (some pid) i table =
    let p = get_or table i unused in
    let (slots, count) =
      entered (add_waiter p.read_waiters 0 p.read_wait_count pid)
        (p.read_waiters, p.read_wait_count) in
    set table i (record p { read_waiters = slots; read_wait_count = count })

-- `pipe_write_blocking` up to its loop.
write_start_at : Option ℕ → ℕ → List Pipe → Phase
write_start_at none len table = returned invalid
write_start_at (some i) len table = elim (open_buffer (get_or table i unused)) [
  | none ↦ returned invalid
  | some _ ↦ if (get_or table i unused).readers == 0 then returned invalid else again len 0
]

pub write_start : ℤ → ℕ → List Pipe → Phase
unfolding write_start_at
write_start id len table = write_start_at (index pipe_count id) len table

-- What is left of the `len` bytes at `buf`.
abbrev pub left_of : ℕ → Option (List ℕ) → Option (List ℕ)
left_of total none = none
left_of total (some bytes) = some (drop total bytes)

-- One pass of the loop of `pipe_write_blocking` on pipe `i`.
pub write_pass : ℕ → Option (List ℕ) → ℕ → ℕ → List Pipe → Pass
unfolding after_call
write_pass i src len total table =
    let r = write (pos i) (left_of total src) table in
    let p = get_or r.table i unused in
    record { phase = after_call p.used p.readers len total r.reply; call = r }

-- The process enters the writers that wait.
pub enter_writer : Option ℕ → ℕ → List Pipe → List Pipe
enter_writer none i table = table
enter_writer (some pid) i table =
    let p = get_or table i unused in
    let (slots, count) =
      entered (add_waiter p.write_waiters 0 p.write_wait_count pid)
        (p.write_waiters, p.write_wait_count) in
    set table i (record p { write_waiters = slots; write_wait_count = count })

-- What the call does on its own once it has failed to move a byte, and once it is woken.
pub onward : Phase → Phase
onward (trying total) = trying total
onward (entering total) = asleep total
onward (asleep total) = trying total
onward (returned r) = returned r
