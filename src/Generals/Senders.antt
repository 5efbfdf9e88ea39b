-- ===== src/Generals/Senders.antt =====
-- The threads that send messages: the bodies that `Commander::Decide` and `InitNewRound` of
-- src/general.cc hand to `AddThread`.
pub mod Sent
pub mod Joined
mod Tests
use byzantine_agreement.Common.{ℕ, zero, ◌+◌, List, [], ◌∷◌, Result, ok, throw, Exception, map}
use byzantine_agreement.Common.Int.{ℤ}
use byzantine_agreement.Msg.{Message}
use byzantine_agreement.Udp.{Client, Attempt, SendOutcome, acked, exhausted, blocked, raised}
use byzantine_agreement.Generals.Base.{
  General, Platform, Turn, maybe_delay_send, send_message, client_for_id,
}
use byzantine_agreement.Generals.Forward.{Batch}

-- A thread that sends one message: the client and the message that its body captures.
pub record Sender : Type 0 where
  pub client : Client
  pub msg : Message

-- How a thread ends: an exception that leaves it ends the process. `waiting` is not at its end.
pub data Ending : Type 0 where
  finished waiting : Ending
  terminates : Exception → Ending

-- What a thread did: how long it slept, in tenths of a second, and the messages that `SendMessage`
-- returned for, each of which was sent and was acknowledged or given up.
pub record Ran : Type 0 where
  pub slept : ℕ
  pub sent : List (List ℕ)
  pub ending : Ending

-- What follows a call of `SendMessage`: the thread goes on where it returns, acknowledged or not.
unfoldable pub after_send : ℕ → List ℕ × SendOutcome → Ran → Ran
after_send delay (buf, acked) next = record next {
  slept = delay + next.slept;
  sent = buf ∷ next.sent;
}
after_send delay (buf, exhausted) next = record next {
  slept = delay + next.slept;
  sent = buf ∷ next.sent;
}
after_send delay (buf, blocked) next = record { slept = delay; sent = []; ending = waiting }
after_send delay (buf, raised e) next = record { slept = delay; sent = []; ending = terminates e }

-- The loop over the messages of a batch. A list of turns that ends is a thread that sleeps.
unfoldable pub send_each : General → List Message → List Turn → Ran
unfolding after_send maybe_delay_send send_message
send_each g [] turns = record { slept = 0; sent = []; ending = finished }
send_each g (msg ∷ msgs) [] = record { slept = 0; sent = []; ending = waiting }
send_each g (msg ∷ msgs) (t ∷ turns) =
    after_send (maybe_delay_send g t.draw) (send_message msg t.attempts) (send_each g msgs turns)

-- The thread of one batch of a lieutenant.
unfoldable pub run_batch : General → Batch → List Turn → Ran
unfolding send_each
run_batch g b turns = elim (client_for_id g b.pid) [
  | ok client ↦ send_each g b.msgs turns
  | throw e ↦ record { slept = 0; sent = []; ending = terminates e }
]

-- The thread of one lieutenant's message from the commander.
unfoldable pub run_sender : General → Sender → Turn → Ran
unfolding send_each
run_sender g s t = send_each g (s.msg ∷ []) (t ∷ [])

-- The turns from `j` on for the messages of a batch.
unfoldable pub turns_for : (ℕ → Turn) → ℕ → List Message → List Turn
turns_for turns j [] = []
turns_for turns j (msg ∷ msgs) = turns j ∷ turns_for turns (j + 1) msgs

-- How the threads from `i` on of a group end: those of a lieutenant, and those of the commander.
unfoldable pub batch_endings : Platform → General → ℕ → List Batch → List Ending
unfolding run_batch turns_for
batch_endings p g i [] = []
batch_endings p g i (b ∷ bs) =
    (run_batch g b (turns_for (p.turns g.round i) 0 b.msgs)).ending ∷ batch_endings p g (i + 1) bs

unfoldable pub sender_endings : Platform → General → ℕ → List Sender → List Ending
unfolding run_sender
sender_endings p g i [] = []
sender_endings p g i (s ∷ ss) =
    (run_sender g s (p.turns g.round i 0)).ending ∷ sender_endings p g (i + 1) ss

-- What `JoinAll` comes to for threads that end like this. An exception that leaves one of them ends
-- the process, also while another one is waited for.
unfoldable pub join_endings : List Ending → Result (Unit {0})
join_endings [] = ok tt
join_endings (finished ∷ rest) = join_endings rest
join_endings (terminates e ∷ rest) = throw Exception.process_terminated
join_endings (waiting ∷ rest) = elim (join_endings rest) [
  | ok u ↦ throw Exception.join_blocked
  | throw e ↦ throw e
]
