-- ===== src/Pipe.antt =====
-- Pipes: src/harlin/proc/pipe.c. A table of 16 rings of bytes with the processes that wait for
-- them. Each function runs under the lock of its pipe, so what stands between acquire and release
-- is one step here. A function that updates the table returns the new one. Calls of `process_wake`
-- are returned as the list of the processes that are woken, in order.
pub mod Ring
pub mod Queue
pub mod Calls
pub mod Open
pub mod Waiters
pub mod Blocking
mod Examples
use har_lin_kernel.Base.{
  ℕ, zero, suc, ◌+◌, ◌-◌, ◌%◌, ◌^◌, Bool, true, false, not, ◌||◌, ◌&&◌, Option, none, some, List,
  [], ◌∷◌, ◌++◌, ltb, leb, ◌==◌, if◌then◌else◌, length, get_or, set, take, replicate, ℤ, pos,
  negsuc, index,
}

abbrev pub pipe_count : ℕ
pipe_count = 16

abbrev pub buffer_size : ℕ
buffer_size = 4096

abbrev pub wait_max : ℕ
wait_max = 32

-- `struct pipe`. `buffer` is `none` for the null pointer; the counts `readers` and `writers` are
-- never negative. A slot of the waiter arrays that holds 0 is free.
pub record Pipe : Type 0 where
  pub buffer : Option (List ℕ)
  pub head : ℕ
  pub tail : ℕ
  pub size : ℕ
  pub readers : ℕ
  pub writers : ℕ
  pub used : Bool
  pub read_waiters : List ℕ
  pub read_wait_count : ℕ
  pub write_waiters : List ℕ
  pub write_wait_count : ℕ

-- A pipe as `pipe_init` leaves it.
abbrev pub unused : Pipe
unused = record {
  buffer = none;
  head = 0;
  tail = 0;
  size = buffer_size;
  readers = 0;
  writers = 0;
  used = false;
  read_waiters = replicate wait_max 0;
  read_wait_count = 0;
  write_waiters = replicate wait_max 0;
  write_wait_count = 0;
}

-- What the functions return as an `int`.
pub data Reply : Type 0 where
  invalid : Reply
  no_memory : Reply
  done : ℕ → Reply

unfoldable pub init : List Pipe
init = replicate pipe_count unused

-- The first slot that is not in use, with `rounds` left from slot `i` on.
pub free_slot : List Pipe → ℕ → ℕ → Option ℕ
free_slot table zero i = none
free_slot table (suc rounds) i =
    let rest = free_slot table rounds (i + 1) in
    if (get_or table i unused).used then rest else some i

create_at : Option ℕ → Option (List ℕ) → List Pipe → Reply × List Pipe
create_at none got table = (no_memory, table)
create_at (some i) none table = (no_memory, table)
create_at (some i) (some buf) table = (
  done i,
  set table i (record unused { buffer = some buf; readers = 1; writers = 1; used = true }),
)

-- `pipe_create`; `got` is what `kmalloc(PIPE_BUFFER_SIZE)` returns, if it is called.
pub create : Option (List ℕ) → List Pipe → Reply × List Pipe
unfolding create_at
create got table = create_at (free_slot table pipe_count 0) got table

-- `pipe_wake_some`: the processes that it wakes, and the cleared slots. The count becomes 0.
pub wake_some : List ℕ → ℕ → List ℕ × List ℕ
wake_some waits zero = ([], waits)
wake_some [] (suc n) = ([], [])
wake_some (pid ∷ waits) (suc n) = let (woken, rest) = wake_some waits n in (pid ∷ woken, 0 ∷ rest)

-- `pipe_add_waiter` from slot `i` on: the slots and the count, or `none` if every slot is taken.
pub add_waiter : List ℕ → ℕ → ℕ → ℕ → Option (List ℕ × ℕ)
add_waiter [] i count pid = none
add_waiter (w ∷ waits) i count pid =
    let rest = add_waiter waits (i + 1) count pid in
    if w == 0
    then some (pid ∷ waits, if ltb count (i + 1) then i + 1 else count)
    else elim rest [ none ↦ none | some r ↦ some (w ∷ r.0, r.1) ]

-- The loop of `pipe_read`, with `rounds = len - count` left: the bytes, and the new `head`.
pub read_loop : List ℕ → ℕ → ℕ → ℕ → ℕ → List ℕ × ℕ
read_loop buffer size tail zero head = ([], head)
read_loop buffer size tail (suc rounds) head =
    let rest = read_loop buffer size tail rounds ((head + 1) % 2 ^ 32 % size) in
    if head == tail then ([], head) else (get_or buffer head 0 ∷ rest.0, rest.1)

-- The loop of `pipe_write` over the bytes that are left: how many it takes, the buffer, and the new
-- `tail`.
pub write_loop : ℕ → ℕ → List ℕ → List ℕ → ℕ → ℕ × List ℕ × ℕ
write_loop size head [] buffer tail = (0, buffer, tail)
write_loop size head (b ∷ src) buffer tail =
    let next = (tail + 1) % 2 ^ 32 % size in
    let rest = write_loop size head src (set buffer tail b) next in
    if next == head then (0, buffer, tail) else (rest.0 + 1, rest.1, rest.2)

-- What `pipe_read` does to a pipe whose buffer is there, once it holds the lock: the bytes that it
-- copies out, the processes that it wakes, and the pipe.
pub read_locked : Pipe → List ℕ → ℕ → List ℕ × List ℕ × Pipe
unfolding read_loop wake_some
read_locked p buffer len =
    let (out, head') = read_loop buffer p.size p.tail len p.head in
    let (woken, slots) = wake_some p.write_waiters p.write_wait_count in
    if p.writers == 0 && p.head == p.tail
    then ([], [], p)
    else if ltb 0 (length out) && ltb 0 p.write_wait_count
    then (out, woken, record p { head = head'; write_waiters = slots; write_wait_count = 0 })
    else (out, [], record p { head = head' })

-- The same of `pipe_write`: the number of bytes taken, with `none` for the result HARLIN_INVALID.
pub write_locked : Pipe → List ℕ → List ℕ → Option ℕ × List ℕ × Pipe
unfolding write_loop wake_some
write_locked p buffer src =
    let (count, buffer', tail') = write_loop p.size p.head src buffer p.tail in
    let (woken, slots) = wake_some p.read_waiters p.read_wait_count in
    if p.readers == 0
    then (none, [], p)
    else if ltb 0 count && ltb 0 p.read_wait_count
    then (
      some count,
      woken,
      record p { buffer = some buffer'; tail = tail'; read_waiters = slots; read_wait_count = 0 },
    )
    else (some count, [], record p { buffer = some buffer'; tail = tail' })

-- What a call leaves: its result, the bytes that it stored through its pointer, the processes that
-- it woke, and the table.
pub record Outcome : Type 0 where
  pub reply : Reply
  pub out : List ℕ
  pub woken : List ℕ
  pub table : List Pipe

-- A call that does nothing but return.
abbrev pub returns : Reply → List Pipe → Outcome
returns r table = record { reply = r; out = []; woken = []; table = table }

-- The buffer, unless `!p->used || !p->buffer`.
abbrev pub open_buffer : Pipe → Option (List ℕ)
open_buffer p = if p.used then p.buffer else none

pub read_open : List Pipe → ℕ → ℕ → Option (List ℕ) → Outcome
read_open table i len none = returns invalid table
read_open table i len (some buffer) =
    let (out, woken, p') = read_locked (get_or table i unused) buffer len in
    record { reply = done (length out); out = out; woken = woken; table = set table i p' }

-- From the check of `buf` and `len` on, at the slot that `id` names.
pub read_at : Option ℕ → Bool → ℕ → List Pipe → Outcome
read_at none has_buf len table = returns invalid table
read_at (some i) has_buf len table =
    if not has_buf || len == 0
    then returns (done 0) table
    else read_open table i len (open_buffer (get_or table i unused))

-- `pipe_read`; `has_buf` says that `buf` is not null.
pub read : ℤ → Bool → ℕ → List Pipe → Outcome
unfolding read_at read_open
read id has_buf len table = read_at (index pipe_count id) has_buf len table

write_open : List Pipe → ℕ → List ℕ → Option (List ℕ) → Outcome
write_open table i src none = returns invalid table
write_open table i src (some buffer) =
    let (count, woken, p') = write_locked (get_or table i unused) buffer src in
    record {
      reply = elim count [ none ↦ invalid | some n ↦ done n ];
      out = [];
      woken = woken;
      table = set table i p';
    }

write_at : Option ℕ → Option (List ℕ) → List Pipe → Outcome
write_at none src table = returns invalid table
write_at (some i) none table = returns (done 0) table
write_at (some i) (some bytes) table =
    if length bytes == 0
    then returns (done 0) table
    else write_open table i bytes (open_buffer (get_or table i unused))

-- `pipe_write`; `src` is what `buf` points to, `len` bytes, and `none` for the null pointer.
pub write : ℤ → Option (List ℕ) → List Pipe → Outcome
unfolding write_at write_open
write id src table = write_at (index pipe_count id) src table

ready_open : Pipe → Option (List ℕ) → Bool
ready_open p none = false
ready_open p (some buffer) = not (p.head == p.tail)

ready_at : Option ℕ → List Pipe → Bool
ready_at none table = false
ready_at (some i) table = ready_open (get_or table i unused) (open_buffer (get_or table i unused))

-- `pipe_ready`
pub ready : ℤ → List Pipe → Bool
unfolding ready_at ready_open
ready id table = ready_at (index pipe_count id) table

-- The sum is taken in `u32`, whose subtractions wrap.
space_open : Pipe → Option (List ℕ) → ℕ
space_open p none = 0
space_open p (some buffer) = (p.head + p.size + (2 ^ 32 - p.tail) + (2 ^ 32 - 1)) % 2 ^ 32 % p.size

space_at : Option ℕ → List Pipe → ℕ
space_at none table = 0
space_at (some i) table = space_open (get_or table i unused) (open_buffer (get_or table i unused))

-- `pipe_space`
pub space : ℤ → List Pipe → ℕ
unfolding space_at space_open
space id table = space_at (index pipe_count id) table

-- The processes among the first `n` slots, without the free slots.
pub waiting : List ℕ → ℕ → List ℕ
waiting waits zero = []
waiting [] (suc n) = []
waiting (w ∷ waits) (suc n) = if w == 0 then waiting waits n else w ∷ waiting waits n

-- What `pipe_close` does to a pipe in use; the flag says that it calls `kfree` on the buffer.
pub close_locked : Pipe → Pipe × Bool
close_locked p =
    let p' = record p {
      readers = p.readers - 1;
      writers = p.writers - 1;
      read_waiters = replicate wait_max 0;
      read_wait_count = 0;
      write_waiters = replicate wait_max 0;
      write_wait_count = 0;
    } in
    if p.readers - 1 == 0 && p.writers - 1 == 0
    then (record p' { buffer = none; used = false }, elim p.buffer [ none ↦ false | some _ ↦ true ])
    else (p', false)

close_at : Option ℕ → List Pipe → List Pipe × List ℕ × Bool
close_at none table = (table, [], false)
close_at (some i) table =
    let p = get_or table i unused in
    let (p', freed) = close_locked p in
    if p.used
    then (
      set table i p',
      waiting p.read_waiters p.read_wait_count ++ waiting p.write_waiters p.write_wait_count,
      freed,
    )
    else (table, [], false)

-- `pipe_close`: the table, the processes that it wakes, and whether the buffer is freed.
pub close : ℤ → List Pipe → List Pipe × List ℕ × Bool
unfolding close_at
close id table = close_at (index pipe_count id) table
