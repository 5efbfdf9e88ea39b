-- ===== src/Generals/Forward.antt =====
-- What a lieutenant forwards in a new round: the loops of `InitNewRound` in src/general.cc.
pub mod Content
pub mod Targets
use byzantine_agreement.Common.{
  ℕ, zero, suc, ◌+◌, ◌-◌, ◌%◌, ◌^◌, not, List, [], ◌∷◌, ◌++◌, ◌==◌, if◌then◌else◌, length, contains,
  Result, ok, throw, Exception, ◌>>=◌,
}
use byzantine_agreement.OrderedSet.Vectors.{nat_order, list_order}
use byzantine_agreement.Msg.{Message}
use byzantine_agreement.Msg.Less.{order_order, message_order}
use byzantine_agreement.Generals.Base.{General, Platform, should_send_msg, log_message}

-- The messages for one process, sent one after the other by a thread.
pub record Batch : Type 0 where
  pub pid : ℕ
  pub msgs : List Message

-- `toSend[pid].push_back(msg)`; the map is in the order in which its keys were added.
unfoldable pub push_to : ℕ → Message → List Batch → List Batch
push_to pid msg [] = record { pid = pid; msgs = msg ∷ [] } ∷ []
push_to pid msg (b ∷ rest) =
    if b.pid == pid then record b { msgs = b.msgs ++ msg ∷ [] } ∷ rest else b ∷ push_to pid msg rest

-- The general, whose engine advances, and the batches collected so far.
abbrev pub Sending : Type 0
Sending = General × List Batch

-- Whether to send a message to one process, and if so to add it to its batch.
unfoldable pub forward_to : Platform → Message → ℕ → Sending → Result Sending
forward_to p msg pid (g, to_send) =
    if contains msg.ids pid
    then ok (g, to_send)
    else let (send_it, g') = should_send_msg p g in
      if send_it
      then (log_message p msg >>= λ _. ok (g', push_to pid msg to_send))
      else ok (g', to_send)

-- The loop over the `count` processes from `pid` on.
unfoldable pub forward : Platform → Message → ℕ → ℕ → Sending → Result Sending
forward p msg zero pid st = ok st
forward p msg (suc count) pid st = do
  st' ← forward_to p msg pid st
  forward p msg count (pid + 1) st'

-- A message of the last round as it is forwarded in this one.
unfoldable pub relayed : General → Message → Message
relayed g msg = record msg { round = g.round; ids = msg.ids ++ g.id ∷ [] }

-- The loop over the messages of the round that ended.
unfoldable pub forward_all : Platform → List Message → Sending → Result Sending
forward_all p [] st = ok st
forward_all p (msg ∷ msgs) (g, to_send) =
    if not (msg.round == (g.round + 2 ^ 32 - 1) % 2 ^ 32) then throw Exception.logic_error else do
      st ← forward p (relayed g msg) (length g.processes) 0 (g, to_send)
      forward_all p msgs st
