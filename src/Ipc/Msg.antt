-- ===== src/Ipc/Msg.antt =====
-- Message queues: the `Harlin_Msg...` functions of src/harlin/proc/ipc.c. The arrays of blocked
-- processes up to their counts are lists. A process that goes to sleep gets the answer `asleep`;
-- when it is woken it makes another pass of its loop.
pub mod Ring
pub mod Order
pub mod Receive
pub mod Exchange
use har_lin_kernel.Base.{
  ℕ, zero, suc, ◌+◌, ◌-◌, ◌%◌, Bool, true, false, not, ◌||◌, ◌&&◌, Option, none, some, List, [],
  ◌∷◌, ◌++◌, ltb, leb, ◌==◌, if◌then◌else◌, length, get_or, set, take, drop, replicate, min, ℤ, pos,
  negsuc, index,
}
use har_lin_kernel.Ipc.Sem.{Pass, refused, passed, asleep, wake_first, blocked_max}

abbrev pub queue_count : ℕ
queue_count = 16

abbrev pub messages_max : ℕ
messages_max = 16

abbrev pub message_size : ℕ
message_size = 64

-- `struct ipc_message`
pub record Message : Type 0 where
  pub kind : ℕ
  pub bytes : List ℕ
  pub valid : Bool

-- A message whose bytes are all 0.
abbrev pub blank : Message
blank = record { kind = 0; bytes = replicate message_size 0; valid = false }

-- `struct ipc_queue`; `head` and `count` are never negative.
pub record Queue : Type 0 where
  pub used : Bool
  pub messages : List Message
  pub head : ℕ
  pub count : ℕ
  pub senders : List ℕ
  pub receivers : List ℕ

abbrev pub no_queue : Queue
no_queue = record {
  used = false;
  messages = replicate messages_max blank;
  head = 0;
  count = 0;
  senders = [];
  receivers = [];
}

-- `find_free_queue`, with queue `i` first in the rest of the table.
find_free : List Queue → ℕ → Option ℕ
find_free [] i = none
find_free (q ∷ rest) i = let later = find_free rest (i + 1) in if q.used then later else some i

create_at : Option ℕ → List Queue → ℤ × List Queue
create_at none table = (negsuc 0, table)
create_at (some i) table = (
  pos i,
  set table i (record (get_or table i no_queue) {
    used = true;
    head = 0;
    count = 0;
    senders = [];
    receivers = [];
  }),
)

-- `Harlin_MsgCreate`
pub create : List Queue → ℤ × List Queue
unfolding create_at find_free
create table = create_at (find_free table 0) table

-- The first `length src` bytes are replaced.
abbrev pub overwrite : List ℕ → List ℕ → List ℕ
overwrite old src = src ++ drop (length src) old

-- `Harlin_MsgSend` behind its loop, but for the wake-up: the message goes behind the last one.
pub put : ℕ → List ℕ → Queue → Queue
put kind src q =
    let tail = (q.head + q.count) % messages_max in
    let old = get_or q.messages tail blank in
    record q {
      messages =
          set q.messages tail
            (record { kind = kind; bytes = overwrite old.bytes src; valid = true });
      count = q.count + 1;
    }

-- The rounds of the loop of `Harlin_MsgSend` that wake a receiver while the queue is full: the
-- processes woken, and the receivers that stay.
pub drain : List ℕ → List ℕ × List ℕ
drain [] = ([], [])
drain (pid ∷ rest) = let (woken, left) = drain rest in (pid ∷ woken, left)

-- One pass of `Harlin_MsgSend` by process `pid`, up to the next sleep or the end.
pub send_pass : ℕ → ℕ → List ℕ → Queue → Pass × List ℕ × Queue
unfolding put drain
send_pass pid kind src q =
    let (all, left) = drain q.receivers in
    let (woken, rest) = wake_first q.receivers in
    if leb messages_max q.count
    then (if leb blocked_max (length q.senders)
        then (refused, all, record q { receivers = left })
        else (asleep, all, record q { receivers = left; senders = q.senders ++ (pid ∷ []) }))
    else (passed, woken, record (put kind src q) { receivers = rest })

-- The message at place `k` of the ring counted from `head`.
abbrev pub place : ℕ → ℕ → ℕ
place head k = (head + k) % messages_max

abbrev pub fits : ℕ → Message → Bool
fits expected m = m.valid && (expected == 0 || m.kind == expected)

-- The search of `Harlin_MsgRecv`, with `rounds` left from place `k` on: the index of the first
-- message that fits.
pub find : List Message → ℕ → ℕ → ℕ → ℕ → Option ℕ
find messages head expected zero k = none
find messages head expected (suc rounds) k =
    let later = find messages head expected rounds (k + 1) in
    if fits expected (get_or messages (place head k) blank) then some (place head k) else later

-- The loop of `Harlin_MsgRecv` that moves the messages one place towards the head.
pub shift : ℕ → ℕ → ℕ → List Message → List Message
shift head zero k messages = messages
shift head (suc rounds) k messages =
    shift head rounds (k + 1)
      (set messages (place head k) (get_or messages (place head (k + 1)) blank))

-- What `Harlin_MsgRecv` does to the queue once it has copied message `idx` out, but for the wake-
-- up.
pub remove : ℕ → Queue → Queue
unfolding shift
remove idx q =
    let invalid = set q.messages idx (record (get_or q.messages idx blank) { valid = false }) in
    record q {
      messages = set (shift q.head (q.count - 1) 0 invalid) (place q.head (q.count - 1)) blank;
      count = q.count - 1;
    }

-- What a receiver gets: the type, and the bytes copied to its buffer.
pub record Received : Type 0 where
  pub kind : ℕ
  pub bytes : List ℕ

-- The end of a pass, once the search is done.
pub recv_found : Option ℕ → ℕ → ℕ → Queue → Pass × Option Received × List ℕ × Queue
unfolding remove
recv_found none pid len q =
    if leb blocked_max (length q.receivers)
    then (refused, none, [], q)
    else (asleep, none, [], record q { receivers = q.receivers ++ (pid ∷ []) })
recv_found (some idx) pid len q =
    let m = get_or q.messages idx blank in
    let (woken, rest) = wake_first q.senders in
    (
      passed,
      some (record {
        kind = m.kind;
        bytes = take (if ltb message_size len then message_size else len) m.bytes;
      }),
      woken,
      record (remove idx q) { senders = rest },
    )

-- One pass of `Harlin_MsgRecv` by process `pid`, up to the next sleep or the end.
pub recv_pass : ℕ → ℕ → ℕ → Queue → Pass × Option Received × List ℕ × Queue
unfolding recv_found find
recv_pass pid len expected q = recv_found (find q.messages q.head expected q.count 0) pid len q

-- The queue that a number names, if it is in use.
abbrev pub in_use : ℤ → List Queue → Option ℕ
in_use qid table = elim (index queue_count qid) [
  | none ↦ none
  | some i ↦ if (get_or table i no_queue).used then some i else none
]

send_at : Option ℕ → ℕ → ℕ → List ℕ → List Queue → Pass × List ℕ × List Queue
send_at none pid kind src table = (refused, [], table)
send_at (some i) pid kind src table =
    let (p, woken, q) = send_pass pid kind src (get_or table i no_queue) in
    if ltb message_size (length src) then (refused, [], table) else (p, woken, set table i q)

-- `Harlin_MsgSend`, up to the first sleep; `src` is what `data` points to, `len` bytes.
pub send : ℤ → ℕ → ℕ → List ℕ → List Queue → Pass × List ℕ × List Queue
unfolding send_at send_pass
send qid pid kind src table = send_at (in_use qid table) pid kind src table

recv_at : Option ℕ → Bool → ℕ → ℕ → ℕ → List Queue → Pass × Option Received × List ℕ × List Queue
recv_at none has_pointers pid len expected table = (refused, none, [], table)
recv_at (some i) has_pointers pid len expected table =
    let (p, got, woken, q) = recv_pass pid len expected (get_or table i no_queue) in
    if has_pointers then (p, got, woken, set table i q) else (refused, none, [], table)

-- `Harlin_MsgRecv`, up to the first sleep; `has_pointers` says that `type` and `buf` are not null.
pub recv : ℤ → Bool → ℕ → ℕ → ℕ → List Queue → Pass × Option Received × List ℕ × List Queue
unfolding recv_at recv_pass
recv qid has_pointers pid len expected table =
    recv_at (in_use qid table) has_pointers pid len expected table

destroy_at : Option ℕ → List Queue → ℤ × List ℕ × List Queue
destroy_at none table = (negsuc 0, [], table)
destroy_at (some i) table =
    let q = get_or table i no_queue in
    (pos 0, q.senders ++ q.receivers, set table i (record q { used = false }))

-- `Harlin_MsgDestroy`: its result, the processes that it wakes, and the table.
pub destroy : ℤ → List Queue → ℤ × List ℕ × List Queue
unfolding destroy_at
destroy qid table = destroy_at (in_use qid table) table
