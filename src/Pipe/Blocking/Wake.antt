-- ===== src/Pipe/Blocking/Wake.antt =====
-- Whether a process that blocks in `pipe_read_blocking` of src/harlin/proc/pipe.c is woken.
use har_lin_kernel.Base.{
  ℕ, zero, suc, ◌-◌, ◌<◌, ◌≡◌, ◌≢◌, refl, ap, ◌∙◌, true, false, ◌&&◌, List, [], ◌∷◌, arith, ltb,
  ◌==◌, length, set, replicate, some, get_or-set_self, length-set, take, length-take, length-append,
  pos, Bool-cases, inl, inr,
}
use har_lin_kernel.Pipe.{
  Pipe, done, returns, wait_max, unused, read_locked, write_locked, read_loop, write_loop,
  wake_some, add_waiter, read, write, ready,
}
use har_lin_kernel.Pipe.Queue.{capacity, contents, contents_open, IsOpen, write_locked-Put}
use har_lin_kernel.Pipe.Ring.{held}
use har_lin_kernel.Pipe.Calls.{pipe, IsLive, read_runs, write_runs, write_refines, ready-space}
use har_lin_kernel.Pipe.Blocking.{entering, asleep, read_pass, after_call, enter_reader, onward}

set-same : (table : List Pipe) (i : ℕ) → set table i (pipe table i) ≡ table
set-same [] i = refl
set-same (p ∷ table) zero = refl
set-same (p ∷ table) (suc i) = ap (λ t. p ∷ t) (set-same table i)

-- A pipe in use at both ends, with nothing in it and no reader that waits.
pub record IsIdle (table : List Pipe) (i : ℕ) : Type 0 where
  pub live : IsLive table i
  pub drained : (pipe table i).head ≡ (pipe table i).tail
  pub has_reader : (pipe table i).readers ≢ 0
  pub has_writer : (pipe table i).writers ≢ 0
  pub no_slots : (pipe table i).read_waiters ≡ replicate wait_max 0
  pub no_count : (pipe table i).read_wait_count ≡ 0

read_locked-idle :
    (p : Pipe) (buffer : List ℕ) (len : ℕ)
    → p.head ≡ p.tail
    → p.writers ≢ 0
    → read_locked p buffer (suc len) ≡ ([], [], p)
unfolding read_locked read_loop
read_locked-idle p buffer len e w =
    let drained : p.head == p.tail ≡ true = ground arith in
    let open_end : p.writers == 0 ≡ false = ground arith in rw (drained, open_end) refl

read_idle :
    (table : List Pipe) (i len : ℕ)
    → IsIdle table i
    → read (pos i) true (suc len) table ≡ returns (done 0) table
read_idle table i len v =
    read_runs table i (suc len) v.live (omega arith)
    ∙ rw (read_locked-idle (pipe table i) v.live.buffer len v.drained v.has_writer)
        (ap (returns (done 0)) (set-same table i))

-- A pass on an idle pipe moves nothing.
read_pass-idle :
    (table : List Pipe) (i len total : ℕ)
    → IsIdle table i
    → total < len
    → read_pass i true len total table
      ≡ record { phase = entering total; call = returns (done 0) table }
unfolding read_pass after_call
read_pass-idle table i len total v h =
    let more : len - total ≡ suc (len - total - 1) = omega (arith, h) in
    let open_end : (pipe table i).writers == 0 ≡ false = ground (arith, v.has_writer) in
    rw (more, read_idle table i (len - total - 1) v, v.live.opened.in_use, open_end) refl

-- A pipe that a process has entered as the only reader that waits.
abbrev pub with_reader : ℕ → Pipe → Pipe
with_reader pid p = record p {
  read_waiters = pid ∷ replicate (wait_max - 1) 0;
  read_wait_count = 1;
}

enter_reader-alone :
    (table : List Pipe) (i pid : ℕ)
    → (pipe table i).read_waiters ≡ replicate wait_max 0
    → (pipe table i).read_wait_count ≡ 0
    → enter_reader (some pid) i table ≡ set table i (with_reader pid (pipe table i))
unfolding enter_reader add_waiter
enter_reader-alone table i pid e f = simp (e, f)

write_locked-unnoticed :
    (p : Pipe) (buffer src : List ℕ)
    → p.readers ≢ 0
    → p.read_wait_count ≡ 0
    → let r = write_locked p buffer src in
      (r.1 ≡ []) × (r.2.read_waiters ≡ p.read_waiters) × (r.2.read_wait_count ≡ p.read_wait_count)
unfolding write_locked
write_locked-unnoticed p buffer src h e =
    let open_end : p.readers == 0 ≡ false = ground (arith, h) in
    let taken = write_loop p.size p.head src buffer p.tail in
    let quiet : (ltb 0 taken.0 && ltb 0 p.read_wait_count) ≡ false = ground (arith, e) in
    rw (open_end, quiet) (refl, refl, refl)

-- Who waits for a pipe is no matter of its ring.
with_reader-IsOpen :
    (p : Pipe) (buffer : List ℕ) (pid : ℕ) → IsOpen p buffer → IsOpen (with_reader pid p) buffer
with_reader-IsOpen p buffer pid v = record {
  in_use = v.in_use;
  has_buffer = v.has_buffer;
  full_size = v.full_size;
  head_in = v.head_in;
  tail_in = v.tail_in;
  buffer_in = v.buffer_in;
}

write_locked-served :
    (p : Pipe) (buffer src : List ℕ) (pid : ℕ)
    → IsOpen p buffer
    → contents p ≡ []
    → p.readers ≢ 0
    → 0 < length src
    → let r = write_locked (with_reader pid p) buffer src in r.1 ≡ pid ∷ []
unfolding write_locked wake_some
write_locked-served p buffer src pid v e h l =
    let open_end : p.readers == 0 ≡ false = ground (arith, h) in
    let put =
      write_locked-Put (with_reader pid p) buffer src (with_reader-IsOpen p buffer pid v) h in
    let taken = write_loop p.size p.head src buffer p.tail in
    elim (Bool-cases (ltb 0 taken.0)) [
      | inl t ↦ rw (open_end, t) refl
      | inr f ↦
          (let count = rw (open_end, f) at put.count in
            absurd (ground (arith, count, f, ap length e, l)))
    ]

-- A reader that enters leaves the pipe in use.
enter_reader-IsLive :
    (table : List Pipe) (i pid : ℕ)
    → IsLive table i
    → IsLive (set table i (with_reader pid (pipe table i))) i
enter_reader-IsLive table i pid v =
    let inside : i < length table = omega (arith, v.slots, v.in_table) in
    let here = get_or-set_self table i (with_reader pid (pipe table i)) unused inside in
    record {
      slots = length-set table i _ ∙ v.slots;
      in_table = v.in_table;
      buffer = v.buffer;
      opened = rw here (with_reader-IsOpen (pipe table i) v.buffer pid v.opened);
    }

no_contents : (table : List Pipe) (i : ℕ) → IsIdle table i → contents (pipe table i) ≡ []
no_contents table i v =
    let drained : held (pipe table i).head (pipe table i).tail ≡ 0 =
      omega (arith, v.drained, v.live.opened.tail_in) in
    contents_open v.live.opened ∙ rw drained refl

write-unnoticed :
    (table : List Pipe) (i : ℕ) (src : List ℕ)
    → IsIdle table i
    → 0 < length src
    → let w = write (pos i) (some src) table in
      (w.woken ≡ [])
      × ((pipe w.table i).read_waiters ≡ replicate wait_max 0)
      × ((pipe w.table i).read_wait_count ≡ 0)
write-unnoticed table i src v h =
    let p = pipe table i in
    let inside : i < length table = omega (arith, v.live.slots, v.live.in_table) in
    let (quiet, slots, count) =
      write_locked-unnoticed p v.live.buffer src v.has_reader v.no_count in
    let here = get_or-set_self table i (write_locked p v.live.buffer src).2 unused inside in
    rw (write_runs table i src v.live h) (
      quiet,
      ap (λ q. q.read_waiters) here ∙ slots ∙ v.no_slots,
      ap (λ q. q.read_wait_count) here ∙ count ∙ v.no_count,
    )

write-served :
    (table : List Pipe) (i pid : ℕ) (src : List ℕ)
    → IsIdle table i
    → 0 < length src
    → (write (pos i) (some src) (enter_reader (some pid) i table)).woken ≡ pid ∷ []
write-served table i pid src v h =
    let p = pipe table i in
    let inside : i < length table = omega (arith, v.live.slots, v.live.in_table) in
    let here = get_or-set_self table i (with_reader pid p) unused inside in
    let live : IsLive (set table i (with_reader pid p)) i = record {
      slots = length-set table i _ ∙ v.live.slots;
      in_table = v.live.in_table;
      buffer = v.live.buffer;
      opened = rw here (with_reader-IsOpen p v.live.buffer pid v.live.opened);
    } in
    ap (λ t. (write (pos i) (some src) t).woken)
      (enter_reader-alone table i pid v.no_slots v.no_count)
    ∙ ap (λ o. o.woken) (write_runs (set table i (with_reader pid p)) i src live h)
    ∙ ap (λ q. (write_locked q v.live.buffer src).1) here
    ∙ write_locked-served p v.live.buffer src pid v.live.opened (no_contents table i v) v.has_reader
        h

ready-unnoticed :
    (table : List Pipe) (i pid : ℕ) (src : List ℕ)
    → IsIdle table i
    → 0 < length src
    → let t = enter_reader (some pid) i (write (pos i) (some src) table).table in
      (ready (pos i) t ≡ true) × ((pipe t i).read_waiters ≡ pid ∷ replicate (wait_max - 1) 0)
ready-unnoticed table i pid src v h =
    let w = write (pos i) (some src) table in
    let (_, slots, count) = write-unnoticed table i src v h in
    let (_, after) = write_refines table i src v.live h v.has_reader in
    let inside : i < length w.table = omega (arith, after.live.slots, after.live.in_table) in
    let q = pipe w.table i in
    let here = get_or-set_self w.table i (with_reader pid q) unused inside in
    let live = enter_reader-IsLive w.table i pid after.live in
    let bytes : contents (pipe (set w.table i (with_reader pid q)) i) ≡ contents q =
      ap contents here in
    let (says, _) = ready-space (set w.table i (with_reader pid q)) i live in
    let some_left : 0 < length (contents q) = omega (
      arith,
      ap length after.queue,
      ap length (no_contents table i v),
      length-append (contents (pipe table i))
          (take (capacity - length (contents (pipe table i))) src),
      length-take (capacity - length (contents (pipe table i))) src,
    ) in
    rw (enter_reader-alone w.table i pid slots count)
      (says ∙ ground (arith, ap length bytes, some_left), ap (λ r. r.read_waiters) here)

-- A reader that finds a pipe in use empty, with no other reader that waits, is told to wait. When a
-- process writes to the pipe before the reader has entered the processes that wait, the write wakes
-- nobody, and the reader enters and sleeps while the pipe holds bytes.
pub lost_wake_up :
    (table : List Pipe) (i len total pid : ℕ) (src : List ℕ)
    → IsIdle table i
    → total < len
    → 0 < length src
    → let tried = read_pass i true len total table in
      let wrote = write (pos i) (some src) tried.call.table in
      let late = enter_reader (some pid) i wrote.table in
      (tried.phase ≡ entering total)
      × (onward tried.phase ≡ asleep total)
      × (wrote.woken ≡ [])
      × (ready (pos i) late ≡ true)
      × ((pipe late i).read_waiters ≡ pid ∷ replicate (wait_max - 1) 0)
unfolding onward
lost_wake_up table i len total pid src v h l =
    let (waits, entered) = ready-unnoticed table i pid src v l in
    let (quiet, _, _) = write-unnoticed table i src v l in
    rw (read_pass-idle table i len total v h) (refl, refl, quiet, waits, entered)
