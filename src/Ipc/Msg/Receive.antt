-- ===== src/Ipc/Msg/Receive.antt =====
-- `Harlin_MsgRecv` of src/harlin/proc/ipc.c, against the list of the messages that wait.
use har_lin_kernel.Base.{
  ℕ, suc, ◌+◌, ◌-◌, ◌≤◌, ◌<◌, ◌≡◌, ◌≢◌, refl, ap, sym, ◌∙◌, true, false, none, some, List, [], ◌∷◌,
  ◌++◌, ltb, leb, if◌then◌else◌, length, get_or, set, take, drop, replicate, min, arith, Bool-cases,
  inl, inr, length-append,
}
use mathlib.Core.Path.{ap₂}
use mathlib.Core.List.{append_assoc}
use har_lin_kernel.Ipc.Sem.{passed, blocked_max}
use har_lin_kernel.Ipc.Msg.{
  Message, Queue, blank, shift, place, messages_max, message_size, fits, find, remove, recv_found,
  recv_pass,
}
use har_lin_kernel.Ipc.Msg.Ring.{get_or-append, set-append, shift-append, last}
use har_lin_kernel.Ipc.Msg.Order.{
  Holds, Holds-same, Unfit, nil, cons, find-Unfit, find_first, wake_first-append,
}

-- The message once it has been received: no longer valid.
abbrev pub spent : Message → Message
spent m = record m { valid = false }

-- The loop and the blanking of the last place drop the first message.
shift_all :
    (ps tail : List Message)
    → length ps ≤ messages_max
    → 0 < length ps
    → set (shift 0 (length ps - 1) 0 (ps ++ tail)) (place 0 (length ps - 1)) blank
      ≡ drop 1 ps ++ (blank ∷ tail)
shift_all [] tail h k = absurd (omega arith)
shift_all (x ∷ rest) tail h k =
    let rounds : suc (length rest) - 1 ≡ length rest = omega arith in
    let here : place 0 (length rest) ≡ length rest = omega arith in
    ap (λ n. set (shift 0 n 0 (x ∷ (rest ++ tail))) (place 0 n) blank) rounds
    ∙ ap₂ (λ t i. set t i blank) (shift-append [] x rest tail 0 refl (omega arith)) here
    ∙ set-append rest tail (last x rest) blank

length-drop_one : (ps : List Message) → length (drop 1 ps) ≡ length ps - 1
length-drop_one [] = omega arith
length-drop_one (x ∷ ps) = omega arith

message_at :
    (before : List Message) (m : Message) (after : List Message) (q : Queue)
    → Holds (before ++ (m ∷ after)) q
    → get_or q.messages (length before) blank ≡ m
message_at before m after q v =
    let tail = replicate v.free blank in
    ap (λ t. get_or t (length before) blank) (v.array ∙ append_assoc before (m ∷ after) tail)
    ∙ get_or-append before (after ++ tail) m blank

-- Removal of message `m`: it is marked, and then the first message goes.
remove-Holds :
    (before : List Message) (m : Message) (after : List Message) (q : Queue)
    (v : Holds (before ++ (m ∷ after)) q)
    → Holds (drop 1 (before ++ (spent m ∷ after))) (remove (length before) q)
unfolding remove
remove-Holds before m after q v =
    let tail = replicate v.free blank in
    let marked = before ++ (spent m ∷ after) in
    let size : length marked ≡ q.count =
      omega (
        arith,
        v.number,
        length-append before (m ∷ after),
        length-append before (spent m ∷ after),
      ) in
    let found = message_at before m after q v in
    let mark =
      ap₂ (λ t x. set t (length before) (spent x)) (v.array ∙ append_assoc before (m ∷ after) tail)
        found
      ∙ set-append before (after ++ tail) m (spent m)
      ∙ sym (append_assoc before (spent m ∷ after) tail) in
    let some_message : 0 < length marked = omega (arith, length-append before (spent m ∷ after)) in
    record {
      from_start = v.from_start;
      free = suc v.free;
      places = omega (arith, length-drop_one marked, v.places, v.number, size);
      array =
          ap₂
            (λ h n.
              set
                (shift h (n - 1) 0 (
                  set q.messages (length before) (spent (get_or q.messages (length before) blank))))
                (place h (n - 1)) blank)
            v.from_start (sym size)
          ∙ ap (λ t. set (shift 0 (length marked - 1) 0 t) (place 0 (length marked - 1)) blank) mark
          ∙ shift_all marked tail (omega (arith, v.places, v.number, size)) some_message;
      number = omega (arith, length-drop_one marked, size);
    }

found_at :
    (before : List Message) (m : Message) (after : List Message) (expected : ℕ) (q : Queue)
    → Holds (before ++ (m ∷ after)) q
    → Unfit expected before
    → fits expected m ≡ true
    → find q.messages q.head expected q.count 0 ≡ some (length before)
found_at before m after expected q v u f =
    let tail = replicate v.free blank in
    let size = length-append before (m ∷ after) in
    let count : q.count ≡ length before + suc (length after) = omega (arith, v.number, size) in
    ap (λ h. find q.messages h expected q.count 0) v.from_start
    ∙ ap₂ (λ t n. find t 0 expected n 0) (v.array ∙ append_assoc before (m ∷ after) tail) count
    ∙ find_first expected [] before m (after ++ tail) (length after) 0 u f refl
        (omega (arith, v.places, size))
    ∙ ap some (omega arith)

copied :
    (len : ℕ) (bytes : List ℕ)
    → take (if ltb message_size len then message_size else len) bytes
      ≡ take (min len message_size) bytes
copied len bytes = ap (λ n. take n bytes) (ground arith)

-- A pass of `Harlin_MsgRecv`, where `m` is the first message that fits.
recv_fitting :
    (before : List Message) (m : Message) (after : List Message) (pid len expected : ℕ) (q : Queue)
    → Holds (before ++ (m ∷ after)) q
    → Unfit expected before
    → fits expected m ≡ true
    → let (p, got, woken, q') = recv_pass pid len expected q in
      (p ≡ passed)
      × (got ≡ some (record { kind = m.kind; bytes = take (min len message_size) m.bytes }))
      × (woken ++ q'.senders ≡ q.senders)
      × Holds (drop 1 (before ++ (spent m ∷ after))) q'
unfolding recv_pass recv_found
recv_fitting before m after pid len expected q v u f =
    let got = message_at before m after q v in
    rw (found_at before m after expected q v u f) (
      refl,
      ap
            (λ x. some (record {
              kind = x.kind;
              bytes = take (if ltb message_size len then message_size else len) x.bytes;
            }))
            got
          ∙ ap (λ b. some (record { kind = m.kind; bytes = b })) (copied len m.bytes),
      wake_first-append q.senders,
      Holds-same _ (remove (length before) q) _ (remove-Holds before m after q v) refl refl refl,
    )

-- A pass of `Harlin_MsgRecv` on a queue whose oldest message fits delivers this message and leaves
-- the others in their order. The process that it wakes, if any, is the first sender that was
-- blocked.
pub recv_oldest :
    (m : Message) (after : List Message) (pid len expected : ℕ) (q : Queue)
    → Holds (m ∷ after) q
    → fits expected m ≡ true
    → let (p, got, woken, q') = recv_pass pid len expected q in
      (p ≡ passed)
      × (got ≡ some (record { kind = m.kind; bytes = take (min len message_size) m.bytes }))
      × (woken ++ q'.senders ≡ q.senders)
      × Holds after q'
recv_oldest m after pid len expected q v f = recv_fitting [] m after pid len expected q v nil f

-- A pass of `Harlin_MsgRecv` on a queue whose oldest message does not fit, but a later one does,
-- delivers the first that fits; but it is the oldest message that it drops from the queue,
-- delivered to nobody, and the place of the message delivered stays taken.
pub recv_skips :
    (oldest : Message) (before : List Message) (m : Message) (after : List Message)
    (pid len expected : ℕ) (q : Queue)
    → Holds (oldest ∷ (before ++ (m ∷ after))) q
    → fits expected oldest ≡ false
    → Unfit expected before
    → fits expected m ≡ true
    → let (p, got, woken, q') = recv_pass pid len expected q in
      (p ≡ passed)
      × (got ≡ some (record { kind = m.kind; bytes = take (min len message_size) m.bytes }))
      × Holds (before ++ (spent m ∷ after)) q'
recv_skips oldest before m after pid len expected q v u us f =
    let (p, got, woken, holds) =
      recv_fitting (oldest ∷ before) m after pid len expected q v (cons u us) f in
    (p, got, holds)

-- A pass where no message fits delivers nothing and leaves the messages alone.
pub recv-Unfit :
    (ps : List Message) (pid len expected : ℕ) (q : Queue)
    → Holds ps q
    → Unfit expected ps
    → let (p, got, woken, q') = recv_pass pid len expected q in
      (p ≢ passed) × (got ≡ none) × Holds ps q'
unfolding recv_pass recv_found
recv-Unfit ps pid len expected q v u =
    let absent : find q.messages q.head expected q.count 0 ≡ none =
      ap (λ h. find q.messages h expected q.count 0) v.from_start
      ∙ ap₂ (λ t n. find t 0 expected n 0) v.array v.number
      ∙ find-Unfit expected [] ps (replicate v.free blank) 0 u refl (omega (arith, v.places)) in
    rw absent (elim (Bool-cases (leb blocked_max (length q.receivers))) [
      | inl full ↦ rw full (λ e. absurd (cc), refl, v)
      | inr room ↦ rw room (λ e. absurd (cc), refl, Holds-same ps q _ v refl refl refl)
    ])
