-- ===== src/Pipe/Queue.antt =====
-- A pipe in use as a queue of at most 4095 bytes.
use har_lin_kernel.Base.{
  ℕ, ◌+◌, ◌-◌, ◌%◌, ◌<◌, ◌≡◌, ◌≢◌, refl, ap, sym, ◌∙◌, true, false, ◌&&◌, List, [], ◌++◌, arith,
  ltb, ◌==◌, length, take, drop, min, take-nil, drop-nil, take-min, Option, some, none, Bool-cases,
  inl, inr,
}
use mathlib.Core.Path.{ap₂}
use har_lin_kernel.Pipe.{Pipe, buffer_size, read_locked, write_locked, read_loop, write_loop}
use har_lin_kernel.Pipe.Ring.{
  stored, held, length-stored, drop-stored, read_loop_lem, Wrote, write_loop-Wrote,
}

-- The most bytes that a pipe holds: one place of the buffer stays free.
abbrev pub capacity : ℕ
capacity = buffer_size - 1

-- The bytes in a pipe, oldest first.
abbrev pub contents : Pipe → List ℕ
contents p = elim p.buffer [ none ↦ [] | some buffer ↦ stored buffer (held p.head p.tail) p.head ]

-- A pipe in use, with its buffer.
pub record IsOpen (p : Pipe) (buffer : List ℕ) : Type 0 where
  pub in_use : p.used ≡ true
  pub has_buffer : p.buffer ≡ some buffer
  pub full_size : p.size ≡ buffer_size
  pub head_in : p.head < buffer_size
  pub tail_in : p.tail < buffer_size
  pub buffer_in : length buffer ≡ buffer_size

pub contents_open :
    {p : Pipe} {buffer : List ℕ}
    → IsOpen p buffer
    → contents p ≡ stored buffer (held p.head p.tail) p.head
contents_open v = ground arith

pub length-contents :
    {p : Pipe} {buffer : List ℕ} → IsOpen p buffer → length (contents p) ≡ held p.head p.tail
length-contents {p} {buffer} v =
    ap length (contents_open v) ∙ length-stored buffer (held p.head p.tail) p.head

-- What `pipe_read` does to the queue.
pub record Took (p : Pipe) (buffer : List ℕ) (len : ℕ) (r : List ℕ × List ℕ × Pipe) : Type 0 where
  pub still : IsOpen r.2 buffer
  pub out : r.0 ≡ take len (contents p)
  pub readers : r.2.readers ≡ p.readers
  pub left : contents r.2 ≡ drop len (contents p)

-- The same pipe, but for its waiters and its head, which has gone forward.
record Advanced (p : Pipe) (buffer : List ℕ) (len : ℕ) (p' : Pipe) : Type 0 where
  in_use : p'.used ≡ true
  has_buffer : p'.buffer ≡ some buffer
  full_size : p'.size ≡ buffer_size
  tail_same : p'.tail ≡ p.tail
  readers : p'.readers ≡ p.readers
  head_on : p'.head ≡ (p.head + min len (held p.head p.tail)) % buffer_size

Advanced-Took :
    (p : Pipe) (buffer : List ℕ) (len : ℕ) (p' : Pipe) (woken : List ℕ)
    → IsOpen p buffer
    → Advanced p buffer len p'
    → Took p buffer len (take len (stored buffer (held p.head p.tail) p.head), woken, p')
Advanced-Took p buffer len p' woken v a = record {
  still = still;
  out = ap (take len) (sym (contents_open v));
  readers = a.readers;
  left =
      contents_open still
      ∙ ap₂ (stored buffer) (omega (arith, a)) (a.head_on)
      ∙ sym (drop-stored buffer len (held p.head p.tail) p.head v.head_in)
      ∙ ap (drop len) (sym (contents_open v));
}
  where
    still : IsOpen p' buffer
    still = record {
      in_use = a.in_use;
      has_buffer = a.has_buffer;
      full_size = a.full_size;
      head_in = omega (arith, a);
      tail_in = omega (arith, a);
      buffer_in = v.buffer_in;
    }

read_loop_open :
    (p : Pipe) (buffer : List ℕ) (len : ℕ)
    → IsOpen p buffer
    → read_loop buffer p.size p.tail len p.head ≡ (
      take len (stored buffer (held p.head p.tail) p.head),
      (p.head + min len (held p.head p.tail)) % buffer_size,
    )
read_loop_open p buffer len v =
    ap (λ s. read_loop buffer s p.tail len p.head) v.full_size
    ∙ read_loop_lem buffer p.tail len (held p.head p.tail) p.head v.head_in v.tail_in refl

-- An empty ring gives no bytes, and stays.
Took-nothing :
    (p : Pipe) (buffer : List ℕ) (len : ℕ)
    → IsOpen p buffer
    → p.head ≡ p.tail
    → Took p buffer len ([], [], p)
Took-nothing p buffer len v e =
    let none_held : held p.head p.tail ≡ 0 = omega arith in
    let empty : contents p ≡ [] = contents_open v ∙ ap (λ n. stored buffer n p.head) none_held in
    record {
      still = v;
      out = rw empty (sym (take-nil len));
      readers = refl;
      left = rw empty (sym (drop-nil len));
    }

pub read_locked-Took :
    (p : Pipe) (buffer : List ℕ) (len : ℕ)
    → IsOpen p buffer
    → Took p buffer len (read_locked p buffer len)
unfolding read_locked
read_locked-Took p buffer len v = elim (Bool-cases (p.writers == 0 && p.head == p.tail)) [
  | inl closed ↦ rw closed (Took-nothing p buffer len v (ground arith))
  | inr live ↦ rw live (
      rw (read_loop_open p buffer len v)
        (elim (Bool-cases (
          ltb 0 (length (take len (stored buffer (held p.head p.tail) p.head)))
          && ltb 0 p.write_wait_count)) [
            | inl wake ↦ rw wake (
                Advanced-Took p buffer len _ _ v (record {
                  in_use = v.in_use;
                  has_buffer = v.has_buffer;
                  full_size = v.full_size;
                  tail_same = refl;
                  readers = refl;
                  head_on = refl;
                }))
            | inr quiet ↦ rw quiet (
                Advanced-Took p buffer len _ _ v (record {
                  in_use = v.in_use;
                  has_buffer = v.has_buffer;
                  full_size = v.full_size;
                  tail_same = refl;
                  readers = refl;
                  head_on = refl;
                }))
          ]))
]

-- What `pipe_write` does to it, when there is a reader.
pub record Put (p : Pipe) (src : List ℕ) (r : Option ℕ × List ℕ × Pipe) : Type 0 where
  pub new_buffer : List ℕ
  pub still : IsOpen r.2 new_buffer
  pub count : r.0 ≡ some (min (length src) (capacity - length (contents p)))
  pub readers : r.2.readers ≡ p.readers
  pub bytes : contents r.2 ≡ contents p ++ take (capacity - length (contents p)) src

-- The same pipe, but for its waiters, with the buffer and the tail that the loop left.
record Grown (p : Pipe) (r : ℕ × List ℕ × ℕ) (p' : Pipe) : Type 0 where
  in_use : p'.used ≡ true
  has_buffer : p'.buffer ≡ some r.1
  full_size : p'.size ≡ buffer_size
  head_same : p'.head ≡ p.head
  readers : p'.readers ≡ p.readers
  tail_on : p'.tail ≡ r.2

Grown-Put :
    (p : Pipe) (buffer src : List ℕ) (p' : Pipe) (woken : List ℕ) (r : ℕ × List ℕ × ℕ)
    → IsOpen p buffer
    → Wrote p.head (held p.head p.tail) src buffer p.tail r
    → Grown p r p'
    → Put p src (some r.0, woken, p')
Grown-Put p buffer src p' woken r v w g = record {
  new_buffer = r.1;
  still = still;
  count = ap some (w.count ∙ ap (λ n. min (length src) (capacity - n)) (sym (length-contents v)));
  readers = g.readers;
  bytes =
      contents_open still
      ∙ ap₂ (stored r.1) (omega (arith, g, w.count, w.new_tail)) g.head_same
      ∙ w.bytes
      ∙ ap₂ ◌++◌ (sym (contents_open v)) (
          ap (λ n. take n src) w.count
          ∙ take-min src (buffer_size - 1 - held p.head p.tail)
          ∙ ap (λ n. take (capacity - n) src) (sym (length-contents v)));
}
  where
    still : IsOpen p' r.1
    still = record {
      in_use = g.in_use;
      has_buffer = g.has_buffer;
      full_size = g.full_size;
      head_in = omega (arith, g);
      tail_in = omega (arith, g, w.new_tail);
      buffer_in = w.kept_size;
    }

pub write_locked-Put :
    (p : Pipe) (buffer src : List ℕ)
    → IsOpen p buffer
    → p.readers ≢ 0
    → Put p src (write_locked p buffer src)
unfolding write_locked
write_locked-Put p buffer src v h =
    let some_reader : (p.readers == 0) ≡ false = ground arith in
    let sized = ap (λ s. write_loop s p.head src buffer p.tail) v.full_size in
    let w =
      write_loop-Wrote p.head (held p.head p.tail) src buffer p.tail v.buffer_in v.head_in v.tail_in
        refl in
    rw some_reader (
      rw sized
        (elim (Bool-cases
          (ltb 0 (write_loop buffer_size p.head src buffer p.tail).0 && ltb 0 p.read_wait_count)) [
            | inl wake ↦ rw wake (
                Grown-Put p buffer src _ _ _ v w (record {
                  in_use = v.in_use;
                  has_buffer = refl;
                  full_size = v.full_size;
                  head_same = refl;
                  readers = refl;
                  tail_on = refl;
                }))
            | inr quiet ↦ rw quiet (
                Grown-Put p buffer src _ _ _ v w (record {
                  in_use = v.in_use;
                  has_buffer = refl;
                  full_size = v.full_size;
                  head_same = refl;
                  readers = refl;
                  tail_on = refl;
                }))
          ]))
