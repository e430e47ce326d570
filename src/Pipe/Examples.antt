-- ===== src/Pipe/Examples.antt =====
-- The theorems about pipe.c at small tables.
use har_lin_kernel.Base.{
  ℕ, ◌+◌, ◌-◌, ◌≡◌, ◌≢◌, ◌↔◌, refl, true, List, [], ◌∷◌, ◌++◌, arith, ltb, length, min, take, drop,
  replicate, length-replicate, some, none, pos,
}
use har_lin_kernel.Pipe.{
  Pipe, Reply, done, invalid, unused, init, create, read, write, ready, space, close, returns,
  buffer_size, pipe_count, wait_max, add_waiter, wake_some, waiting,
}
use har_lin_kernel.Pipe.Queue.{capacity, contents, IsOpen}
use har_lin_kernel.Pipe.Calls.{
  pipe, IsLive, Leaves, read_refines, write_refines, ready-space, Call, reading, writing, transfer,
  transfer-fifo,
}
use har_lin_kernel.Pipe.Waiters.{NoZero, nil, cons, add_all, waiters_fifo}

-- A pipe of 4096 bytes that are all 7, with the five bytes from place 4094 on in its queue.
abbrev busy : Pipe
busy = record {
  buffer = some (replicate buffer_size 7);
  head = 4094;
  tail = 3;
  size = buffer_size;
  readers = 1;
  writers = 1;
  used = true;
  read_waiters = replicate wait_max 0;
  read_wait_count = 0;
  write_waiters = replicate wait_max 0;
  write_wait_count = 0;
}

busy-IsOpen : IsOpen busy (replicate buffer_size 7)
busy-IsOpen = record {
  in_use = refl;
  has_buffer = refl;
  full_size = refl;
  head_in = omega arith;
  tail_in = omega arith;
  buffer_in = length-replicate {A = ℕ} buffer_size 7;
}

-- It stands in slot 2 of the table.
abbrev pipes : List Pipe
pipes = unused ∷ unused ∷ busy ∷ replicate 13 unused

pipes-IsLive : IsLive pipes 2
pipes-IsLive = record {
  slots = refl;
  in_table = omega arith;
  buffer = replicate buffer_size 7;
  opened = busy-IsOpen;
}

read_busy : (read (pos 2) true 4 pipes).out ≡ 7 ∷ 7 ∷ 7 ∷ 7 ∷ []
unfolding read har_lin_kernel.Pipe.read_locked
read_busy = refl

read_refines_example :
    let q = contents (pipe pipes 2) in
    let r = read (pos 2) true 4 pipes in
    (r.out ≡ take 4 q) × (r.reply ≡ done (min 4 (length q))) × Leaves pipes 2 (drop 4 q) r.table
read_refines_example = read_refines pipes 2 4 pipes-IsLive (omega arith)

abbrev word : List ℕ
word = 104 ∷ 105 ∷ []

busy_reader : (pipe pipes 2).readers ≢ 0
busy_reader = λ e. absurd (omega arith)

write_refines_example :
    let q = contents (pipe pipes 2) in
    let r = write (pos 2) (some word) pipes in
    (r.reply ≡ done (min 2 (capacity - length q)))
    × Leaves pipes 2 (q ++ take (capacity - length q) word) r.table
write_refines_example = write_refines pipes 2 word pipes-IsLive (omega arith) busy_reader

ready-space_example :
    let q = contents (pipe pipes 2) in
    (ready (pos 2) pipes ≡ ltb 0 (length q)) × (space (pos 2) pipes + length q ≡ capacity)
ready-space_example = ready-space pipes 2 pipes-IsLive

abbrev calls : List Call
calls = reading 3 ∷ writing word ∷ reading 4 ∷ []

transfer-fifo_example :
    let t = transfer 2 calls pipes in
    t.out ++ contents (pipe t.final 2) ≡ contents (pipe pipes 2) ++ t.accepted
transfer-fifo_example = transfer-fifo 2 calls pipes pipes-IsLive busy_reader

abbrev sleepers : List ℕ
sleepers = 5 ∷ 3 ∷ []

sleepers-NoZero : NoZero sleepers
sleepers-NoZero = cons (λ e. absurd (omega arith)) (cons (λ e. absurd (omega arith)) nil)

waiters_fifo_example :
    (r : List ℕ × ℕ) × (add_all sleepers (replicate wait_max 0) 0 ≡ some r)
    × (wake_some r.0 r.1 ≡ (sleepers, replicate wait_max 0))
    × (waiting r.0 r.1 ≡ sleepers)
    × ((add_waiter r.0 0 r.1 7 ≡ none) ↔ (length sleepers ≡ wait_max))
waiters_fifo_example = waiters_fifo sleepers-NoZero 7 (omega arith)
