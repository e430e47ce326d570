-- ===== src/Pipe/Calls.antt =====
-- `pipe_read`, `pipe_write`, `pipe_ready` and `pipe_space` on the table, against the queues of
-- bytes that its pipes hold.
use har_lin_kernel.Base.{
  ℕ, zero, suc, ◌+◌, ◌-◌, ◌%◌, ◌^◌, ◌<◌, ◌≡◌, ◌≢◌, refl, ap, sym, ◌∙◌, true, false, not, List, [],
  ◌∷◌, ◌++◌, arith, ltb, ◌==◌, length, get_or, set, take, drop, min, length-take, Option, some,
  none, get_or-set_self, get_or-set_ne, length-set, pos, index-pos, take-append-drop, take-min,
}
use mathlib.Core.Path.{ap₂}
use mathlib.Core.List.{append_assoc, append-nil}
use har_lin_kernel.Pipe.{
  Pipe, buffer_size, pipe_count, unused, open_buffer, Reply, done, invalid, no_memory, returns,
  read_locked, write_locked, read_open, write_open, read, write, ready, space,
}
use har_lin_kernel.Pipe.Queue.{
  capacity, contents, IsOpen, length-contents, read_locked-Took, write_locked-Put,
}
use har_lin_kernel.Pipe.Ring.{held}

-- Pipe `i` of the table, as the functions address it.
abbrev pub pipe : List Pipe → ℕ → Pipe
pipe table i = get_or table i unused

-- Pipe `i` is in use, with its buffer in place.
pub record IsLive (table : List Pipe) (i : ℕ) : Type 0 where
  pub slots : length table ≡ pipe_count
  pub in_table : i < pipe_count
  pub buffer : List ℕ
  pub opened : IsOpen (pipe table i) buffer

open_buffer_lem : {p : Pipe} {buffer : List ℕ} → IsOpen p buffer → open_buffer p ≡ some buffer
open_buffer_lem v = ground arith

-- What a call has done to pipe `i`: its queue is now `q`, and the other pipes are as before.
pub record Leaves (table : List Pipe) (i : ℕ) (q : List ℕ) (table' : List Pipe) : Type 0 where
  pub live : IsLive table' i
  pub queue : contents (pipe table' i) ≡ q
  pub readers : (pipe table' i).readers ≡ (pipe table i).readers
  pub others : (j : ℕ) → j ≢ i → pipe table' j ≡ pipe table j

pub Leaves-set :
    (table : List Pipe) (i : ℕ) (p : Pipe) {buffer : List ℕ}
    → IsLive table i
    → IsOpen p buffer
    → p.readers ≡ (pipe table i).readers
    → Leaves table i (contents p) (set table i p)
Leaves-set table i p {buffer} v o same =
    let inside : i < length table = omega (arith, v.slots, v.in_table) in
    let here : pipe (set table i p) i ≡ p = get_or-set_self table i p unused inside in
    record {
      live = record {
        slots = length-set table i p ∙ v.slots;
        in_table = v.in_table;
        buffer = buffer;
        opened = rw here o;
      };
      queue = ap contents here;
      readers = ap (λ r. r.readers) here ∙ same;
      others = λ j ne. get_or-set_ne table i j p unused (λ e. ne (sym e));
    }

pub read_runs :
    (table : List Pipe) (i len : ℕ) (v : IsLive table i)
    → 0 < len
    → let (out, woken, p') = read_locked (pipe table i) v.buffer len in
      read (pos i) true len table
      ≡ record { reply = done (length out); out = out; woken = woken; table = set table i p' }
unfolding read read_open
read_runs table i len v h =
    let here = index-pos pipe_count i v.in_table in
    let some_len : (len == 0) ≡ false = ground arith in
    rw (here, some_len, open_buffer_lem v.opened) refl

-- A read of at least one byte from a pipe in use returns the oldest bytes of its queue, as many as
-- are wanted and there are, reports their number, and leaves the rest; the other pipes stay.
pub read_refines :
    (table : List Pipe) (i len : ℕ)
    → IsLive table i
    → 0 < len
    → let q = contents (pipe table i) in
      let r = read (pos i) true len table in
      (r.out ≡ take len q)
      × (r.reply ≡ done (min len (length q)))
      × Leaves table i (drop len q) r.table
read_refines table i len v h =
    let took = read_locked-Took (pipe table i) v.buffer len v.opened in
    let after = Leaves-set table i _ v took.still took.readers in
    rw (read_runs table i len v h) (
      took.out,
      ap done (ap length took.out ∙ length-take len (contents (pipe table i))),
      rw took.left at after,
    )

pub write_runs :
    (table : List Pipe) (i : ℕ) (src : List ℕ) (v : IsLive table i)
    → 0 < length src
    → let (count, woken, p') = write_locked (pipe table i) v.buffer src in
      write (pos i) (some src) table ≡ record {
        reply = elim count [ none ↦ invalid | some n ↦ done n ];
        out = [];
        woken = woken;
        table = set table i p';
      }
unfolding write write_open
write_runs table i src v h =
    let here = index-pos pipe_count i v.in_table in
    let some_len : (length src == 0) ≡ false = ground arith in
    rw (here, some_len, open_buffer_lem v.opened) refl

-- A write of at least one byte to a pipe in use that has a reader appends to its queue the longest
-- prefix that fits into 4095 bytes, and reports its length; the other pipes stay.
pub write_refines :
    (table : List Pipe) (i : ℕ) (src : List ℕ)
    → IsLive table i
    → 0 < length src
    → (pipe table i).readers ≢ 0
    → let q = contents (pipe table i) in
      let r = write (pos i) (some src) table in
      (r.reply ≡ done (min (length src) (capacity - length q)))
      × Leaves table i (q ++ take (capacity - length q) src) r.table
write_refines table i src v h readers =
    let wrote = write_locked-Put (pipe table i) v.buffer src v.opened readers in
    let after = Leaves-set table i _ v wrote.still wrote.readers in
    rw (write_runs table i src v h) (
      ap (λ (c : Option ℕ). elim c [ none ↦ invalid | some n ↦ done n ]) wrote.count,
      rw wrote.bytes at after,
    )

-- The sum of `pipe_space`, over a ring of `size` bytes.
abbrev space_sum : ℕ → ℕ → ℕ → ℕ
space_sum head size tail = (head + size + (2 ^ 32 - tail) + (2 ^ 32 - 1)) % 2 ^ 32 % size

space_sum-held :
    (head tail : ℕ)
    → head < buffer_size
    → tail < buffer_size
    → space_sum head buffer_size tail + held head tail ≡ capacity
space_sum-held head tail h k = omega arith

space_open_lem :
    {p : Pipe} {buffer : List ℕ}
    → IsOpen p buffer
    → space_sum p.head p.size p.tail + length (contents p) ≡ capacity
space_open_lem {p} v = omega (
  arith,
  ap (λ s. space_sum p.head s p.tail) v.full_size,
  length-contents v,
  space_sum-held p.head p.tail v.head_in v.tail_in,
)

ready_open_lem :
    {p : Pipe} {buffer : List ℕ}
    → IsOpen p buffer
    → not (p.head == p.tail) ≡ ltb 0 (length (contents p))
ready_open_lem {p} v = ground (arith, length-contents v)

-- Of a pipe in use, `pipe_ready` says whether the queue holds a byte, and `pipe_space` how many
-- more bytes fit.
pub ready-space :
    (table : List Pipe) (i : ℕ)
    → IsLive table i
    → let q = contents (pipe table i) in
      (ready (pos i) table ≡ ltb 0 (length q)) × (space (pos i) table + length q ≡ capacity)
unfolding ready space
ready-space table i v =
    rw (index-pos pipe_count i v.in_table, open_buffer_lem v.opened)
      (ready_open_lem v.opened, space_open_lem v.opened)

-- A call on one pipe.
pub data Call : Type 0 where
  reading : ℕ → Call
  writing : List ℕ → Call

-- The bytes that a sequence of calls on pipe `i` takes out, the bytes that it puts in as its calls
-- report, and the table at its end.
pub record Transfer : Type 0 where
  pub out : List ℕ
  pub accepted : List ℕ
  pub final : List Pipe

abbrev pub count_of : Reply → ℕ
count_of (done n) = n
count_of invalid = 0
count_of no_memory = 0

unfoldable pub transfer : ℕ → List Call → List Pipe → Transfer
transfer i [] table = record { out = []; accepted = []; final = table }
transfer i (reading len ∷ calls) table =
    let r = read (pos i) true len table in
    let rest = transfer i calls r.table in record rest { out = r.out ++ rest.out }
transfer i (writing src ∷ calls) table =
    let r = write (pos i) (some src) table in
    let rest = transfer i calls r.table in
    record rest { accepted = take (count_of r.reply) src ++ rest.accepted }

read-zero :
    (table : List Pipe) (i : ℕ)
    → i < pipe_count
    → read (pos i) true 0 table ≡ returns (done 0) table
unfolding read
read-zero table i h = rw (index-pos pipe_count i h) refl

write-nil :
    (table : List Pipe) (i : ℕ)
    → i < pipe_count
    → write (pos i) (some []) table ≡ returns (done 0) table
unfolding write
write-nil table i h = rw (index-pos pipe_count i h) refl

-- Nothing is lost, doubled or reordered: for any sequence of reads and writes on a pipe in use that
-- has a reader, the bytes that it takes out, followed by what is then in the queue, are what was in
-- the queue followed by the bytes that it accepted.
pub transfer-fifo :
    (i : ℕ) (calls : List Call) (table : List Pipe)
    → IsLive table i
    → (pipe table i).readers ≢ 0
    → let t = transfer i calls table in
      t.out ++ contents (pipe t.final i) ≡ contents (pipe table i) ++ t.accepted
unfolding transfer
transfer-fifo i [] table v h = sym (append-nil (contents (pipe table i)))
transfer-fifo i (reading zero ∷ calls) table v h =
    rw (read-zero table i v.in_table) (transfer-fifo i calls table v h)
transfer-fifo i (reading (suc n) ∷ calls) table v h =
    let (out, reply, after) = read_refines table i (suc n) v (omega arith) in
    let q = contents (pipe table i) in
    let r = read (pos i) true (suc n) table in
    let rest = transfer-fifo i calls r.table after.live (λ e. h (sym after.readers ∙ e)) in
    append_assoc r.out _ _
    ∙ ap₂ ◌++◌ out (rest ∙ ap (λ t. t ++ (transfer i calls r.table).accepted) after.queue)
    ∙ sym (append_assoc (take (suc n) q) (drop (suc n) q) _)
    ∙ ap (λ t. t ++ (transfer i calls r.table).accepted) (take-append-drop (suc n) q)
transfer-fifo i (writing [] ∷ calls) table v h =
    rw (write-nil table i v.in_table) (transfer-fifo i calls table v h)
transfer-fifo i (writing (b ∷ src) ∷ calls) table v h =
    let (reply, after) = write_refines table i (b ∷ src) v (omega arith) h in
    let q = contents (pipe table i) in
    let r = write (pos i) (some (b ∷ src)) table in
    let rest = transfer-fifo i calls r.table after.live (λ e. h (sym after.readers ∙ e)) in
    rest
    ∙ ap (λ t. t ++ (transfer i calls r.table).accepted) after.queue
    ∙ append_assoc q (take (capacity - length q) (b ∷ src)) _
    ∙ ap (λ t. q ++ (t ++ (transfer i calls r.table).accepted))
        (sym
          (ap (λ c. take (count_of c) (b ∷ src)) reply ∙ take-min (b ∷ src) (capacity - length q)))
