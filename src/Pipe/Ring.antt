-- ===== src/Pipe/Ring.antt =====
-- The ring of a pipe: which bytes lie between `head` and `tail`, and what the loops of `pipe_read`
-- and `pipe_write` do to them.
use har_lin_kernel.Base.{
  ℕ, zero, suc, ◌+◌, ◌-◌, ◌%◌, ◌^◌, ◌<◌, ◌≡◌, ◌≢◌, refl, ap, ◌∙◌, true, false, List, [], ◌∷◌, ◌++◌,
  arith, ◌==◌, length, get_or, set, take, drop, min, length-set, get_or-set_self, get_or-set_ne,
}
use mathlib.Core.List.{append_assoc, append-nil}
use mathlib.Core.Path.{ap₂}
use native.Mathlib.Decide.{ℕ_discrete}
use native.Mathlib.Nat.{add-zero}
use native.Mathlib.Numerals.{add-one}
use har_lin_kernel.Pipe.{buffer_size, read_loop, write_loop}

-- The `n` bytes from index `head` on, round the end of the buffer.
abbrev pub stored : List ℕ → ℕ → ℕ → List ℕ
stored buffer zero head = []
stored buffer (suc n) head = get_or buffer head 0 ∷ stored buffer n ((head + 1) % buffer_size)

-- The number of bytes between `head` and `tail`.
abbrev pub held : ℕ → ℕ → ℕ
held head tail = (tail + buffer_size - head) % buffer_size

pub length-stored : (buffer : List ℕ) (n head : ℕ) → length (stored buffer n head) ≡ n
length-stored buffer zero head = refl
length-stored buffer (suc n) head = ap suc (length-stored buffer n ((head + 1) % buffer_size))

pub drop-stored :
    (buffer : List ℕ) (k n head : ℕ)
    → head < buffer_size
    → drop k (stored buffer n head) ≡ stored buffer (n - k) ((head + min k n) % buffer_size)
drop-stored buffer zero n head h = ap₂ (stored buffer) (omega arith) (omega arith)
drop-stored buffer (suc k) zero head h =
    let nothing : 0 - suc k ≡ 0 = omega arith in rw nothing refl
drop-stored buffer (suc k) (suc n) head h =
    drop-stored buffer k n ((head + 1) % buffer_size) (omega arith)
    ∙ ap₂ (stored buffer) (omega arith) (omega arith)

-- The loop of `pipe_read` takes the oldest bytes, as many as are wanted and there are.
pub read_loop_lem :
    (buffer : List ℕ) (tail rounds n head : ℕ)
    → head < buffer_size
    → tail < buffer_size
    → n ≡ held head tail
    → read_loop buffer buffer_size tail rounds head
      ≡ (take rounds (stored buffer n head), (head + min rounds n) % buffer_size)
unfolding read_loop
read_loop_lem buffer tail zero n head h k e = ap (λ t. ([], t)) (omega arith)
read_loop_lem buffer tail (suc rounds) zero head h k e =
    let same : (head == tail) ≡ true = ground arith in rw same (ap (λ t. ([], t)) (omega arith))
read_loop_lem buffer tail (suc rounds) (suc n) head h k e =
    let differ : (head == tail) ≡ false = ground arith in
    let next : (head + 1) % 2 ^ 32 % buffer_size ≡ (head + 1) % buffer_size = omega arith in
    rw
      (
        differ,
        next,
        read_loop_lem buffer tail rounds n ((head + 1) % buffer_size) (omega arith) k (omega arith),
      )
      (ap
        (λ t. (get_or buffer head 0 ∷ take rounds (stored buffer n ((head + 1) % buffer_size)), t))
        (omega arith))

-- A byte written just behind the stored ones is the next of them.
stored-set :
    (buffer : List ℕ) (b n head tail : ℕ)
    → length buffer ≡ buffer_size
    → head < buffer_size
    → n < buffer_size
    → tail ≡ (head + n) % buffer_size
    → stored (set buffer tail b) (suc n) head ≡ stored buffer n head ++ (b ∷ [])
stored-set buffer b zero head tail l h m e =
    let same : tail ≡ head = omega arith in
    rw (same, get_or-set_self buffer head b 0 (omega arith)) refl
stored-set buffer b (suc n) head tail l h m e =
    ap₂ ◌∷◌ (get_or-set_ne buffer tail head b 0 (omega arith)) (
      stored-set buffer b n ((head + 1) % buffer_size) tail l (omega arith) (omega arith)
        (omega arith))

-- What the loop of `pipe_write` leaves, with `n` bytes stored from `head` on before.
pub record Wrote (head n : ℕ) (src buffer : List ℕ) (tail : ℕ) (r : ℕ × List ℕ × ℕ) : Type 0 where
  pub count : r.0 ≡ min (length src) (buffer_size - 1 - n)
  pub kept_size : length r.1 ≡ buffer_size
  pub new_tail : r.2 ≡ (tail + r.0) % buffer_size
  pub bytes : stored r.1 (n + r.0) head ≡ stored buffer n head ++ take r.0 src

Wrote-cons :
    (head n b : ℕ) (src buffer : List ℕ) (tail : ℕ)
    → length buffer ≡ buffer_size
    → head < buffer_size
    → tail < buffer_size
    → n ≡ held head tail
    → (tail + 1) % buffer_size ≢ head
    → (r : ℕ × List ℕ × ℕ) → Wrote head (suc n) src (set buffer tail b) ((tail + 1) % buffer_size) r
    → Wrote head n (b ∷ src) buffer tail (r.0 + 1, r.1, r.2)
Wrote-cons head n b src buffer tail l h k e room r w = record {
  count = omega (arith, w.count);
  kept_size = w.kept_size;
  new_tail = omega (arith, w.new_tail);
  bytes =
      let more : n + (r.0 + 1) ≡ suc n + r.0 = omega arith in
      ap (λ t. stored r.1 t head) more
      ∙ w.bytes
      ∙ ap (λ t. t ++ take r.0 src)
          (stored-set buffer b n head tail l h (omega arith) (omega arith))
      ∙ rw (append_assoc, add-one) refl;
}

pub write_loop-Wrote :
    (head n : ℕ) (src buffer : List ℕ) (tail : ℕ)
    → length buffer ≡ buffer_size
    → head < buffer_size
    → tail < buffer_size
    → n ≡ held head tail
    → Wrote head n src buffer tail (write_loop buffer_size head src buffer tail)
unfolding write_loop
write_loop-Wrote head n [] buffer tail l h k e = record {
  count = omega arith;
  kept_size = l;
  new_tail = omega arith;
  bytes = rw (add-zero, append-nil) refl;
}
write_loop-Wrote head n (b ∷ src) buffer tail l h k e =
    elim (ℕ_discrete ((tail + 1) % buffer_size) head) [
      | yes full ↦
          let stop : ((tail + 1) % 2 ^ 32 % buffer_size == head) ≡ true = ground arith in
          rw stop (record {
            count = omega arith;
            kept_size = l;
            new_tail = omega arith;
            bytes = rw (add-zero, append-nil) refl;
          })
      | no room ↦
          let go : ((tail + 1) % 2 ^ 32 % buffer_size == head) ≡ false = ground arith in
          let next : (tail + 1) % 2 ^ 32 % buffer_size ≡ (tail + 1) % buffer_size = omega arith in
          rw go (
            rw next (
              Wrote-cons head n b src buffer tail l h k e room _ (
                write_loop-Wrote head (suc n) src (set buffer tail b) ((tail + 1) % buffer_size)
                  (omega (arith, length-set buffer tail b)) h (omega arith) (omega arith))))
    ]
