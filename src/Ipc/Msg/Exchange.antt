-- ===== src/Ipc/Msg/Exchange.antt =====
-- Any sequence of passes of `Harlin_MsgSend` and of `Harlin_MsgRecv` without an expected type on
-- one queue of src/harlin/proc/ipc.c.
use har_lin_kernel.Base.{
  ℕ, ◌≡◌, refl, true, Option, none, some, List, [], ◌∷◌, ◌++◌, take, min, map,
}
use har_lin_kernel.Ipc.Sem.{Pass, refused, passed, asleep}
use har_lin_kernel.Ipc.Msg.{Message, Queue, message_size, send_pass, Received, recv_pass}
use har_lin_kernel.Ipc.Msg.Order.{Holds, message}

-- A pass by process `pid`: of a send, or of a receive with a buffer of 64 bytes.
pub data Event : Type 0 where
  sends : ℕ → ℕ → List ℕ → Event
  receives : ℕ → Event

-- What a receiver of 64 bytes gets of a message.
abbrev pub view : Message → Received
view m = record { kind = m.kind; bytes = take message_size m.bytes }

-- The messages that were accepted, those that were delivered, and the queue at the end.
pub record Trace : Type 0 where
  pub accepted : List Received
  pub delivered : List Received
  pub final : Queue

abbrev pub if_passed : Pass → Received → List Received
if_passed passed m = m ∷ []
if_passed refused m = []
if_passed asleep m = []

abbrev pub to_list : Option Received → List Received
to_list none = []
to_list (some m) = m ∷ []

unfoldable pub run : List Event → Queue → Trace
run [] q = record { accepted = []; delivered = []; final = q }
run (sends pid kind src ∷ events) q =
    let (p, woken, q') = send_pass pid kind src q in
    let rest = run events q' in
    record rest { accepted = if_passed p (view (message kind src)) ++ rest.accepted }
run (receives pid ∷ events) q =
    let (p, got, woken, q') = recv_pass pid message_size 0 q in
    let rest = run events q' in record rest { delivered = to_list got ++ rest.delivered }

pub data AllValid : List Message → Type 0 where
  nil : AllValid []
  cons : {m : Message} {ps : List Message} → m.valid ≡ true → AllValid ps → AllValid (m ∷ ps)

-- The queue at the end of a run, and what was delivered.
pub record Kept (ps : List Message) (t : Trace) : Type 0 where
  pub waiting : List Message
  pub holds : Holds waiting t.final
  pub valid : AllValid waiting
  pub order : t.delivered ++ map view waiting ≡ map view ps ++ t.accepted

full_copy : min message_size message_size ≡ message_size
full_copy = refl
