-- ===== src/Generals/Network.antt =====
-- The generals of src/general.cc over an unreliable network: one commander, whose threads were
-- started, and lieutenants that run `Server::Listen` (src/udp_conn.cc). The network may lose,
-- repeat, delay and reorder datagrams, deliver them to any process and from any address, and any
-- process may time out at any moment.
pub mod Orders
pub mod Validity
pub mod Spread
pub mod Taking
pub mod Starting
pub mod Renewing
pub mod Arriving
pub mod Growth
pub mod Induction
pub mod Relaying
pub mod Listing
pub mod Late
pub mod Single
pub mod Accepting
pub mod Paths
pub mod Timely
pub mod Stopping
pub mod Agreement
pub mod Completing
pub mod Ending
pub mod Members
mod Tests
mod Example
mod AgreementTests
mod LateTests
use byzantine_agreement.Common.{ℕ, ◌<◌, ℕ_discrete, ◌≡◌, List, ok, throw, none, Exception, take}
use mathlib.Core.Logic.{ite}
use mathlib.Core.List.{Memᴰ}
use byzantine_agreement.Msg.{Message}
use byzantine_agreement.Wire.{message_buf, byzantine_msg_from_buf}
use byzantine_agreement.Udp.{
  Datagram, Errno, Arrival, received, refused, serve, ServerAction, bufsize,
}
use byzantine_agreement.Generals.Base.{Platform}
use byzantine_agreement.Generals.Senders.{Sender}
use byzantine_agreement.Generals.Forward.{Batch}
use byzantine_agreement.Generals.Lieutenant.{Lieutenant, Readings, on_receive, handle_round_timeout}

-- A lieutenant's process: its server listens, or has stopped, or an exception left it. What it has
-- started stays known, since its threads may still run.
pub data Node : Type 0 where
  listening stopped failed : Lieutenant → Node

abbrev pub state : Node → Lieutenant
state (listening l) = l
state (stopped l) = l
state (failed l) = l

abbrev pub after : Lieutenant × ServerAction → Node
after (l, ServerAction.continue) = listening l
after (l, ServerAction.stop) = stopped l

abbrev pub update : (ℕ → Node) → ℕ → Node → ℕ → Node
update s i n j = ite (ℕ_discrete i j) n (s j)

-- `n` processes; those from 1 on are the lieutenants.
module _ (n : ℕ) (p : ℕ → Platform) (senders : List Sender) where
  -- What may arrive: what a thread of the commander or of a lieutenant sends, once it was started,
  -- and what decodes to no message.
  pub data IsSent (s : ℕ → Node) (bytes : List ℕ) : Type 0 where
    by_commander : (x : Sender) → Memᴰ x senders → bytes ≡ message_buf x.msg → IsSent s bytes
    by_lieutenant :
        (j : ℕ) (b : Batch) (m : Message)
        → j < n
        → Memᴰ b (state (s j)).started
        → Memᴰ m b.msgs
        → bytes ≡ message_buf m
        → IsSent s bytes
    by_stranger : byzantine_msg_from_buf (take bufsize bytes) ≡ none → IsSent s bytes

  abbrev pub MayArrive : (ℕ → Node) → Arrival Readings → Type 0
  MayArrive s (received d x) = IsSent s d.bytes
  MayArrive s (refused e x) = Unit

  -- One lieutenant handles what its server got.
  pub data Step (s : ℕ → Node) : (ℕ → Node) → Type 0 where
    handles :
        (i : ℕ) (l : Lieutenant) (a : Arrival Readings) (r : Lieutenant × ServerAction)
        → 0 < i
        → i < n
        → s i ≡ listening l
        → MayArrive s a
        → serve (on_receive (p i)) (handle_round_timeout (p i)) l a ≡ ok r
        → Step s (update s i (after r))
    throws :
        (i : ℕ) (l : Lieutenant) (a : Arrival Readings) (e : Exception)
        → 0 < i
        → i < n
        → s i ≡ listening l
        → MayArrive s a
        → serve (on_receive (p i)) (handle_round_timeout (p i)) l a ≡ throw e
        → Step s (update s i (failed l))

  -- The states that lieutenants reach from their first ones.
  pub data Reach (ls : ℕ → Lieutenant) : (ℕ → Node) → Type 0 where
    start : Reach ls (λ j. listening (ls j))
    later : {s t : ℕ → Node} → Reach ls s → Step s t → Reach ls t
