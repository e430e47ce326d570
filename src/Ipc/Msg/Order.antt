-- ===== src/Ipc/Msg/Order.antt =====
-- Sending and receiving in src/harlin/proc/ipc.c, against the list of the messages that wait.
use har_lin_kernel.Base.{
  ℕ, suc, ◌+◌, ◌-◌, ◌%◌, ◌≤◌, ◌<◌, ◌≡◌, refl, ap, sym, ◌∙◌, true, false, Option, none, some, List,
  [], ◌∷◌, ◌++◌, leb, if◌then◌else◌, length, get_or, drop, replicate, arith, length-append,
  length-drop,
}
use mathlib.Core.List.{append_assoc}
use har_lin_kernel.Ipc.Sem.{passed, wake_first}
use har_lin_kernel.Ipc.Msg.{
  Message, Queue, blank, place, messages_max, message_size, fits, find, put, send_pass, overwrite,
}
use har_lin_kernel.Ipc.Msg.Ring.{get_or-append, set-append}

-- The queue holds the messages `ps`, oldest first, from the start of its array on; the other places
-- are blank.
pub record Holds (ps : List Message) (q : Queue) : Type 0 where
  pub from_start : q.head ≡ 0
  pub free : ℕ
  pub places : length ps + free ≡ messages_max
  pub array : q.messages ≡ ps ++ replicate free blank
  pub number : q.count ≡ length ps

-- The message that a sender makes.
abbrev pub message : ℕ → List ℕ → Message
message kind src = record {
  kind = kind;
  bytes = overwrite (replicate message_size 0) src;
  valid = true;
}

put_places :
    (ps : List Message) (free kind : ℕ) (src : List ℕ) (q : Queue)
    → length ps + suc free ≡ messages_max
    → q.head ≡ 0
    → q.messages ≡ ps ++ (blank ∷ replicate free blank)
    → q.count ≡ length ps
    → Holds (ps ++ (message kind src ∷ [])) (put kind src q)
unfolding put
put_places ps free kind src q room h a n =
    let here : (q.head + q.count) % messages_max ≡ length ps = omega arith in
    record {
      from_start = h;
      free = free;
      places = omega (arith, length-append ps (message kind src ∷ []));
      array =
          rw (here, a, get_or-append ps (replicate free blank) blank blank)
            (set-append ps (replicate free blank) blank (message kind src)
              ∙ sym (append_assoc ps (message kind src ∷ []) (replicate free blank)));
      number = omega (arith, length-append ps (message kind src ∷ []));
    }

put-Holds :
    (ps : List Message) (kind : ℕ) (src : List ℕ) (q : Queue) (v : Holds ps q)
    → length ps < messages_max
    → Holds (ps ++ (message kind src ∷ [])) (put kind src q)
put-Holds ps kind src q v room =
    let e : v.free ≡ suc (v.free - 1) = omega (arith, v.places) in
    put_places ps (v.free - 1) kind src q (omega (arith, v.places)) v.from_start
      (v.array ∙ ap (λ n. ps ++ replicate n blank) e) v.number

-- The same messages, whoever is blocked.
pub Holds-same :
    (ps : List Message) (q q' : Queue)
    → Holds ps q
    → q'.messages ≡ q.messages
    → q'.head ≡ q.head
    → q'.count ≡ q.count
    → Holds ps q'
Holds-same ps q q' v m h c = record {
  from_start = h ∙ v.from_start;
  free = v.free;
  places = v.places;
  array = m ∙ v.array;
  number = c ∙ v.number;
}

pub wake_first-append : (pids : List ℕ) → (wake_first pids).0 ++ (wake_first pids).1 ≡ pids
wake_first-append [] = refl
wake_first-append (pid ∷ rest) = refl

length-overwrite :
    (old src : List ℕ) → length src ≤ length old → length (overwrite old src) ≡ length old
length-overwrite old src h =
    omega (arith, length-append src (drop (length src) old), length-drop (length src) old)

pub send_room :
    (ps : List Message) (pid kind : ℕ) (src : List ℕ) (q : Queue)
    → Holds ps q
    → length ps < messages_max
    → let (p, woken, q') = send_pass pid kind src q in
      (p ≡ passed)
      × (woken ++ q'.receivers ≡ q.receivers)
      × Holds (ps ++ (message kind src ∷ [])) q'
unfolding send_pass
send_room ps pid kind src q v room =
    let space : leb messages_max q.count ≡ false = ground (arith, v.number) in
    rw space (
      refl,
      wake_first-append q.receivers,
      Holds-same _ (put kind src q) _ (put-Holds ps kind src q v room) refl refl refl,
    )

-- A pass of `Harlin_MsgSend` with at most 64 bytes, on a queue with less than 16 messages, puts
-- the message, filled up with zeros to 64 bytes, behind those that wait. The processes that it
-- wakes and the receivers that stay blocked are together the receivers that were blocked, in their
-- order.
pub send_pass-Holds :
    (ps : List Message) (pid kind : ℕ) (src : List ℕ) (q : Queue)
    → Holds ps q
    → length ps < messages_max
    → length src ≤ message_size
    → let (p, woken, q') = send_pass pid kind src q in
      (p ≡ passed)
      × (length (message kind src).bytes ≡ message_size)
      × (woken ++ q'.receivers ≡ q.receivers)
      × Holds (ps ++ (message kind src ∷ [])) q'
send_pass-Holds ps pid kind src q v room short =
    let (p, woken, holds) = send_room ps pid kind src q v room in
    (p, length-overwrite (replicate message_size 0) src short, woken, holds)

-- No message fits.
pub data Unfit (expected : ℕ) : List Message → Type 0 where
  nil : Unfit expected []
  cons :
      {m : Message} {ps : List Message}
      → fits expected m ≡ false
      → Unfit expected ps
      → Unfit expected (m ∷ ps)

choose :
    (expected : ℕ) (x m : Message) (i j : ℕ) (o r : Option ℕ)
    → x ≡ m
    → i ≡ j
    → o ≡ r
    → (if fits expected x then some i else o) ≡ (if fits expected m then some j else r)
choose expected x m i j o r e f g = rw (e, f, g) refl

-- One round of the search, at the message behind `front`.
find_round :
    (expected : ℕ) (front : List Message) (m : Message) (rest : List Message) (rounds k : ℕ)
    → k ≡ length front
    → k < messages_max
    → find (front ++ (m ∷ rest)) 0 expected (suc rounds) k ≡ (
        if fits expected m
        then some k
        else find ((front ++ (m ∷ [])) ++ rest) 0 expected rounds (k + 1))
unfolding find
find_round expected front m rest rounds k e h =
    let here : place 0 k ≡ k = omega arith in
    let there =
      ap (λ i. get_or (front ++ (m ∷ rest)) i blank) (here ∙ e)
      ∙ get_or-append front rest m blank in
    choose expected _ m (place 0 k) k _ _ there here
      (ap (λ t. find t 0 expected rounds (k + 1)) (sym (append_assoc front (m ∷ []) rest)))

next_place :
    (front : List Message) (m : Message) (k : ℕ)
    → k ≡ length front
    → k + 1 ≡ length (front ++ (m ∷ []))
next_place front m k e = omega (arith, length-append front (m ∷ []))

find-none :
    (front tail : List Message) (expected k : ℕ) → find (front ++ tail) 0 expected 0 k ≡ none
unfolding find
find-none front tail expected k = refl

pub find-Unfit :
    (expected : ℕ) (front ps tail : List Message) (k : ℕ)
    → Unfit expected ps
    → k ≡ length front
    → k + length ps ≤ messages_max
    → find (front ++ (ps ++ tail)) 0 expected (length ps) k ≡ none
find-Unfit expected front ps tail k nil e h = find-none front tail expected k
find-Unfit expected front ps tail k (cons {m} {ps = rest} u us) e h =
    let ih =
      find-Unfit expected (front ++ (m ∷ [])) rest tail (k + 1) us (next_place front m k e)
        (omega arith) in
    find_round expected front m (rest ++ tail) (length rest) k e (omega arith) ∙ rw u ih

-- The search finds the first message that fits.
pub find_first :
    (expected : ℕ) (front before : List Message) (m : Message) (after : List Message) (rounds k : ℕ)
    → Unfit expected before
    → fits expected m ≡ true
    → k ≡ length front
    → k + length before < messages_max
    → find (front ++ (before ++ (m ∷ after))) 0 expected (length before + suc rounds) k
      ≡ some (k + length before)
find_first expected front before m after rounds k nil f e h =
    let sum : 0 + suc rounds ≡ suc rounds = omega arith in
    let none_before : k + 0 ≡ k = omega arith in
    rw (sum, none_before) (find_round expected front m after rounds k e (omega arith) ∙ rw f refl)
find_first expected front before m after rounds k (cons {m = b} {ps = rest} u us) f e h =
    let sum : suc (length rest) + suc rounds ≡ suc (length rest + suc rounds) = omega arith in
    let there : k + 1 + length rest ≡ k + suc (length rest) = omega arith in
    let ih =
      find_first expected (front ++ (b ∷ [])) rest m after rounds (k + 1) us f
        (next_place front b k e) (omega arith) in
    rw (sum, ← there)
      (find_round expected front b (rest ++ (m ∷ after)) (length rest + suc rounds) k e
          (omega arith)
        ∙ rw u ih)
