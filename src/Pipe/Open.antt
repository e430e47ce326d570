-- ===== src/Pipe/Open.antt =====
-- `pipe_create` and `pipe_close` of src/harlin/proc/pipe.c.
use native.Mathlib.Decide.{ℕ_discrete}
use har_lin_kernel.Base.{
  ℕ, zero, suc, ◌+◌, ◌-◌, ◌≤◌, ◌<◌, ◌≡◌, ◌≢◌, refl, ap, sym, ◌∙◌, true, false, ◌&&◌, List, [], ◌++◌,
  arith, ◌==◌, length, get_or, set, Option, some, none, Bool-cases, Option-cases, inl, inr,
  get_or-set_self, get_or-set_ne, length-set, pos, index-pos,
}
use har_lin_kernel.Pipe.{
  Pipe, buffer_size, pipe_count, unused, Reply, done, no_memory, free_slot, create, close,
  close_locked, close_at, waiting, open_buffer, read, write, read_at, write_at, returns, invalid,
}
use har_lin_kernel.Pipe.Queue.{contents, IsOpen}
use har_lin_kernel.Pipe.Calls.{pipe, IsLive}

-- The search from slot `i` on, with `rounds` left.
data Searched (table : List Pipe) (rounds i : ℕ) (o : Option ℕ) : Type 0 where
  all_used :
      o ≡ none
      → ((k : ℕ) → i ≤ k → k < i + rounds → (pipe table k).used ≡ true)
      → Searched table rounds i o
  first_free :
      (j : ℕ)
      → o ≡ some j
      → i ≤ j
      → j < i + rounds
      → (pipe table j).used ≡ false
      → ((k : ℕ) → i ≤ k → k < j → (pipe table k).used ≡ true)
      → Searched table rounds i o

before :
    (table : List Pipe) (i k : ℕ)
    → (pipe table i).used ≡ true
    → (i + 1 ≤ k → (pipe table k).used ≡ true)
    → i ≤ k
    → (pipe table k).used ≡ true
before table i k u h le = elim (ℕ_discrete i k) [ yes e ↦ rw (← e) u | no n ↦ h (omega arith) ]

free_slot-Searched :
    (table : List Pipe) (rounds i : ℕ) → Searched table rounds i (free_slot table rounds i)
unfolding free_slot
free_slot-Searched table zero i = all_used refl (λ k le lt. absurd (omega arith))
free_slot-Searched table (suc rounds) i = elim (Bool-cases (get_or table i unused).used) [
  | inl u ↦ rw u (elim (free_slot-Searched table rounds (i + 1)) [
    | all_used e all ↦ all_used e (λ k le lt. before table i k u (λ h. all k h (omega arith)) le)
    | first_free j e le lt f all ↦
        first_free j e (omega arith) (omega arith) f
          (λ k h l. before table i k u (λ h'. all k h' l) h)
  ])
  | inr f ↦ rw f (first_free i refl (omega arith) (omega arith) f (λ k h l. absurd (omega arith)))
]

-- What `pipe_create` does.
pub data Created (table : List Pipe) (got : Option (List ℕ)) (r : Reply × List Pipe) : Type 0 where
  no_slot :
      r ≡ (no_memory, table)
      → ((k : ℕ) → k < pipe_count → (pipe table k).used ≡ true)
      → Created table got r
  no_buffer : r ≡ (no_memory, table) → got ≡ none → Created table got r
  made :
      (i : ℕ)
      → r.0 ≡ done i
      → (pipe table i).used ≡ false
      → IsLive r.1 i
      → contents (pipe r.1 i) ≡ []
      → (pipe r.1 i).readers ≡ 1
      → (pipe r.1 i).writers ≡ 1
      → ((j : ℕ) → j ≢ i → pipe r.1 j ≡ pipe table j)
      → Created table got r

-- The pipe that `pipe_create` sets up.
fresh : List ℕ → Pipe
fresh buf = record unused { buffer = some buf; readers = 1; writers = 1; used = true }

fresh-IsOpen : (buf : List ℕ) → length buf ≡ buffer_size → IsOpen (fresh buf) buf
unfolding fresh
fresh-IsOpen buf h = record {
  in_use = refl;
  has_buffer = refl;
  full_size = refl;
  head_in = omega arith;
  tail_in = omega arith;
  buffer_in = h;
}

fresh-empty : (buf : List ℕ) → contents (fresh buf) ≡ []
unfolding fresh
fresh-empty buf = refl

fresh-ends : ((buf : List ℕ) → (fresh buf).readers ≡ 1) × ((buf : List ℕ) → (fresh buf).writers ≡ 1)
unfolding fresh
fresh-ends = (λ buf. refl, λ buf. refl)

fresh-Created :
    (table : List Pipe) (i : ℕ) (buf : List ℕ)
    → length table ≡ pipe_count
    → i < pipe_count
    → (pipe table i).used ≡ false
    → length buf ≡ buffer_size
    → Created table (some buf) (done i, set table i (fresh buf))
fresh-Created table i buf h lt f sized =
    let here : pipe (set table i (fresh buf)) i ≡ fresh buf =
      get_or-set_self table i (fresh buf) unused (omega (arith, h)) in
    made i refl f
      (record {
        slots = length-set table i (fresh buf) ∙ h;
        in_table = lt;
        buffer = buf;
        opened = rw here (fresh-IsOpen buf sized);
      })
      (ap contents here ∙ fresh-empty buf) (ap (λ p. p.readers) here ∙ fresh-ends.0 buf)
      (ap (λ p. p.writers) here ∙ fresh-ends.1 buf)
      (λ j ne. get_or-set_ne table i j (fresh buf) unused (λ e. ne (sym e)))

-- On a table of 16 pipes, where a buffer that it is given has 4096 bytes, `pipe_create` either
-- makes a pipe in use, with an empty queue, one reader and one writer, of a slot that was not in
-- use, reports its number and leaves the other pipes alone; or it reports that memory is short and
-- changes nothing, and then every slot is in use or there is no buffer.
pub create_lem :
    (table : List Pipe) (got : Option (List ℕ))
    → length table ≡ pipe_count
    → ((buf : List ℕ) → got ≡ some buf → length buf ≡ buffer_size)
    → Created table got (create got table)
unfolding create fresh
create_lem table got h sized = elim (free_slot-Searched table pipe_count 0) [
  | all_used e all ↦ rw e (no_slot refl (λ k lt. all k (omega arith) (omega arith)))
  | first_free i e le lt f all ↦ rw e (elim (Option-cases got) [
    | inl n ↦ rw n (no_buffer refl refl)
    | inr (buf, s) ↦ rw s (fresh-Created table i buf h (omega arith) f (sized buf s))
  ])
]

-- A pipe that is not in use.
record Shut (table : List Pipe) (i : ℕ) : Type 0 where
  slot : i < pipe_count
  not_used : (pipe table i).used ≡ false

shut_open_buffer : (p : Pipe) → p.used ≡ false → open_buffer p ≡ none
shut_open_buffer p h = ground arith

read-Shut :
    (table : List Pipe) (i len : ℕ)
    → Shut table i
    → 0 < len
    → read (pos i) true len table ≡ returns invalid table
unfolding read read_at
read-Shut table i len v h =
    let some_len : (len == 0) ≡ false = ground arith in
    rw (index-pos pipe_count i v.slot, some_len, shut_open_buffer (pipe table i) v.not_used) refl

write-Shut :
    (table : List Pipe) (i : ℕ) (src : List ℕ)
    → Shut table i
    → 0 < length src
    → write (pos i) (some src) table ≡ returns invalid table
unfolding write write_at
write-Shut table i src v h =
    let some_len : (length src == 0) ≡ false = ground arith in
    rw (index-pos pipe_count i v.slot, some_len, shut_open_buffer (pipe table i) v.not_used) refl

close_locked_lem :
    (p : Pipe) (buffer : List ℕ)
    → IsOpen p buffer
    → p.readers ≤ 1
    → p.writers ≤ 1
    → ((close_locked p).0.used ≡ false) × ((close_locked p).1 ≡ true)
unfolding close_locked
close_locked_lem p buffer v r w =
    let last : (p.readers - 1 == 0 && p.writers - 1 == 0) ≡ true = ground arith in
    rw (last, v.has_buffer) (refl, refl)

close_runs :
    (table : List Pipe) (i : ℕ)
    → i < pipe_count
    → (pipe table i).used ≡ true
    → let p = pipe table i in
      close (pos i) table ≡ (
        set table i (close_locked p).0,
        waiting p.read_waiters p.read_wait_count ++ waiting p.write_waiters p.write_wait_count,
        (close_locked p).1,
      )
unfolding close close_at
close_runs table i h u = rw (index-pos pipe_count i h, u) refl

-- One call of `pipe_close` on a pipe in use with at most one reader and one writer frees its buffer
-- and leaves it out of use, at both ends: from then on a read or a write of at least one byte is
-- refused and changes nothing. The other pipes stay.
pub close_lem :
    (table : List Pipe) (i len : ℕ) (src : List ℕ)
    → IsLive table i
    → (pipe table i).readers ≤ 1
    → (pipe table i).writers ≤ 1
    → 0 < len
    → 0 < length src
    → let (table', woken, freed) = close (pos i) table in
      (freed ≡ true)
      × (read (pos i) true len table' ≡ returns invalid table')
      × (write (pos i) (some src) table' ≡ returns invalid table')
      × ((j : ℕ) → j ≢ i → pipe table' j ≡ pipe table j)
close_lem table i len src v r w some_len some_src =
    let p = pipe table i in
    let closed = close_locked_lem p v.buffer v.opened r w in
    let here : pipe (set table i (close_locked p).0) i ≡ (close_locked p).0 =
      get_or-set_self table i (close_locked p).0 unused (omega (arith, v.slots, v.in_table)) in
    let shut : Shut (set table i (close_locked p).0) i = record {
      slot = v.in_table;
      not_used = ap (λ q. q.used) here ∙ closed.0;
    } in
    rw (close_runs table i v.in_table v.opened.in_use) (
      closed.1,
      read-Shut _ i len shut some_len,
      write-Shut _ i src shut some_src,
      λ j ne. get_or-set_ne table i j (close_locked p).0 unused (λ e. ne (sym e)),
    )
