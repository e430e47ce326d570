-- ===== src/Pipe/Blocking/Examples.antt =====
-- The blocking calls of src/harlin/proc/pipe.c on an idle pipe.
use har_lin_kernel.Base.{
  ℕ, ◌-◌, ◌≡◌, refl, true, List, [], ◌∷◌, arith, replicate, length-replicate, some, pos,
}
use har_lin_kernel.Pipe.{Pipe, unused, invalid, done, buffer_size, wait_max, write, ready}
use har_lin_kernel.Pipe.Calls.{pipe}
use har_lin_kernel.Pipe.Blocking.{
  trying, entering, asleep, returned, read_start, write_start, after_call, read_pass, enter_reader,
  onward,
}
use har_lin_kernel.Pipe.Blocking.Wake.{IsIdle, lost_wake_up}

-- A pipe of 4096 bytes with nothing in its queue, in slot 0.
abbrev idle : Pipe
idle = record unused {
  buffer = some (replicate buffer_size 7);
  readers = 1;
  writers = 1;
  used = true;
}

abbrev pipes : List Pipe
pipes = idle ∷ replicate 15 unused

pipes-IsIdle : IsIdle pipes 0
pipes-IsIdle = record {
  live = record {
    slots = refl;
    in_table = omega arith;
    buffer = replicate buffer_size 7;
    opened = record {
      in_use = refl;
      has_buffer = refl;
      full_size = refl;
      head_in = omega arith;
      tail_in = omega arith;
      buffer_in = length-replicate {A = ℕ} buffer_size 7;
    };
  };
  drained = refl;
  has_reader = λ e. absurd (omega arith);
  has_writer = λ e. absurd (omega arith);
  no_slots = refl;
  no_count = refl;
}

starts : read_start (pos 0) 5 pipes ≡ trying 0
unfolding read_start
starts = refl

nothing_wanted : write_start (pos 0) 0 pipes ≡ returned (done 0)
unfolding write_start
nothing_wanted = refl

no_such_pipe : read_start (pos 1) 5 pipes ≡ returned invalid
unfolding read_start
no_such_pipe = refl

-- Three bytes more of five, where two came before.
reads_on : after_call true 1 5 2 (done 3) ≡ returned (done 5)
unfolding after_call
reads_on = refl

lost_wake_up_example :
    let tried = read_pass 0 true 5 2 pipes in
    let wrote = write (pos 0) (some (9 ∷ [])) tried.call.table in
    let late = enter_reader (some 4) 0 wrote.table in
    (tried.phase ≡ entering 2)
    × (onward tried.phase ≡ asleep 2)
    × (wrote.woken ≡ [])
    × (ready (pos 0) late ≡ true)
    × ((pipe late 0).read_waiters ≡ 4 ∷ replicate (wait_max - 1) 0)
lost_wake_up_example = lost_wake_up pipes 0 5 2 4 (9 ∷ []) pipes-IsIdle (omega arith) (omega arith)
