-- ===== src/Generals/Lieutenant.antt =====
-- `class Lieutenant` of src/general.h and src/general.cc: its state, and its methods as functions
-- to the new state and the action for the server. What the clock reads and whether a send
-- succeeds is an argument, `Readings`. Senders run beside the server and share no state with it
-- but the constants, so that starting one records its batch.
pub mod Valid
pub mod Choice
pub mod Complete
pub mod Rounds
pub mod Changes
pub mod Steps
pub mod Served
pub mod Stale
pub mod Endless
pub mod Outcome
pub mod Validity
mod ValidityTests
pub mod Joining
pub mod Timeouts
pub mod Started
pub mod Later
pub mod TakeAll
pub mod Reordered
mod ReorderedTests
pub mod Relay
mod Tests
use byzantine_agreement.Common.{
  ℕ, zero, suc, ◌+◌, ◌-◌, ◌/◌, ◌%◌, ◌^◌, ◌≡◌, Bool, true, false, not, ◌&&◌, ◌||◌, List, [], ◌∷◌,
  ◌++◌, Option, none, some, ltb, leb, ◌==◌, if◌then◌else◌, get_elem?, get_last?, length, contains,
  list_eq, Result, ok, throw, Exception, ◌>>=◌, map,
}
use byzantine_agreement.OrderedSet.{insert, member, size}
use byzantine_agreement.OrderedSet.Vectors.{nat_order, list_order}
use byzantine_agreement.Msg.{Order, Message, order_eq}
use byzantine_agreement.Msg.Less.{order_order, message_order}
use byzantine_agreement.Wire.{byzantine_msg_from_buf, ack_buf}
use byzantine_agreement.Net.{Address}
use byzantine_agreement.Udp.{
  Client, ServerAction, remote_address, send, SocketCalls, Socket, new_server, Arrival, Listening,
  stopped, running, listen, SocketAddress, Kernel,
}
use byzantine_agreement.Behavior.{MaliciousBehavior}
use byzantine_agreement.Generals.Base.{
  General, Platform, ProcessList, at_or_throw, first_round, last_round, increment_round,
  should_send_msg, log_message, new_general, round_timeout,
}
use byzantine_agreement.Generals.Count.{messages_for_round}
use byzantine_agreement.Generals.Senders.{batch_endings, join_endings}
use byzantine_agreement.Generals.Forward.{Batch, Sending, forward_all}
use byzantine_agreement.Generals.Validation.{valid_message}

-- An acknowledgement that was sent.
pub record SentAck : Type 0 where
  pub to : SocketAddress
  pub bytes : List ℕ

-- The fields of the class. Times are in nanoseconds. `started` and `acks` record what was handed
-- to threads and acknowledged so far, the newest first.
pub record Lieutenant : Type 0 where
  pub general : General
  pub open general use *
  pub server : Socket
  pub orders_seen : List Order
  pub round_start_ts : ℕ
  pub msgs_this_round : List Message
  pub ids_this_round : List (List ℕ)
  pub sender_threads : List Batch
  pub started : List Batch
  pub acks : List SentAck

-- What one callback reads: the clock in `ContinueUnlessTimeout` and in `InitNewRound`, and whether
-- the acknowledgement could be sent.
pub record Readings : Type 0 where
  pub now : ℕ
  pub reset : ℕ
  pub ack_sent : Bool

-- The constructor.
unfoldable pub new_lieutenant :
    Kernel → ProcessList → ℕ → SocketCalls → Bool → ℕ → MaliciousBehavior → Result Lieutenant
unfolding new_server
new_lieutenant k processes id calls bound faulty behavior = do
  g ← new_general k processes id faulty behavior
  s ← new_server calls bound round_timeout
  ok (record {
    general = g;
    server = s;
    orders_seen = [];
    round_start_ts = 0;
    msgs_this_round = [];
    ids_this_round = [];
    sender_threads = [];
    started = [];
    acks = [];
  })

unfoldable pub decide_order : Lieutenant → Order
decide_order l =
    if size l.orders_seen == 1 && member Order.attack l.orders_seen
    then Order.attack
    else Order.retreat

unfoldable pub round_complete : Lieutenant → Bool
round_complete l = size l.ids_this_round == messages_for_round (length l.processes) l.round

-- `JoinAll` on the threads of the round.
unfoldable pub join_senders : Platform → Lieutenant → Result (Unit {0})
unfolding batch_endings join_endings
join_senders p l = join_endings (batch_endings p l.general 0 l.sender_threads)

-- `Clear` on the threads of the round.
unfoldable pub without_senders : Lieutenant → Lieutenant
without_senders l = record l { sender_threads = [] }

unfoldable pub clear_senders : Platform → Lieutenant → Result Lieutenant
clear_senders p l = do _ ← join_senders p l; ok (without_senders l)

-- The end of `InitNewRound`: the senders are started and the sets of the round are cleared.
unfoldable pub start_round : Lieutenant → Readings → Sending → Lieutenant
start_round l x (g, to_send) = record l {
  general = g;
  sender_threads = l.sender_threads ++ to_send;
  started = to_send ++ l.started;
  ids_this_round = [];
  msgs_this_round = [];
  round_start_ts = x.reset;
}

unfoldable pub init_new_round : Platform → Lieutenant → Readings → Result Lieutenant
init_new_round p l x = do
  l₁ ← clear_senders p l
  st ← forward_all p l₁.msgs_this_round (increment_round l₁.general, [])
  ok (start_round l₁ x st)

unfoldable pub move_to_new_round_or_stop :
    Platform → Lieutenant → Readings → Result (Lieutenant × ServerAction)
move_to_new_round_or_stop p l x =
    if last_round l.general
    then (clear_senders p l >>= λ l₁. ok (l₁, ServerAction.stop))
    else (init_new_round p l x >>= λ l'. ok (l', ServerAction.continue))

unfoldable pub handle_round_timeout :
    Platform → Lieutenant → Readings → Result (Lieutenant × ServerAction)
handle_round_timeout p l x =
    if first_round l.general then ok (l, ServerAction.continue) else move_to_new_round_or_stop p l x

-- The action of the timeout is dropped: the answer is always to continue.
unfoldable pub continue_unless_timeout :
    Platform → Lieutenant → Readings → Result (Lieutenant × ServerAction)
continue_unless_timeout p l x =
    if ltb round_timeout ((x.now - l.round_start_ts) / 1000)
    then (handle_round_timeout p l x >>= λ r. ok (r.0, ServerAction.continue))
    else ok (l, ServerAction.continue)

-- A message in the first round: only the first real order counts. The flag says that a new round
-- begins.
unfoldable pub take_first : Lieutenant → Message → Lieutenant × Bool
take_first l msg =
    if not (order_eq msg.order Order.no_order) && size l.orders_seen == 0
    then (
      record l {
        orders_seen = insert msg.order l.orders_seen;
        msgs_this_round = insert msg l.msgs_this_round;
      },
      true,
    )
    else (l, false)

-- A message in a later round, unless its ids were seen in this round.
unfoldable pub take_later : Lieutenant → Message → Lieutenant × Bool
take_later l msg =
    if member msg.ids l.ids_this_round
    then (l, false)
    else let l₁ = record l { ids_this_round = insert msg.ids l.ids_this_round } in
      let l₂ =
        if not (order_eq msg.order Order.no_order) && not (member msg.order l.orders_seen)
        then record l₁ {
          orders_seen = insert msg.order l.orders_seen;
          msgs_this_round = insert msg l.msgs_this_round;
        }
        else record l₁ {
          msgs_this_round = insert (record msg { order = Order.no_order }) l.msgs_this_round;
        } in
      (l₂, round_complete l₂)

unfoldable pub take_message : Lieutenant → Message → Lieutenant × Bool
take_message l msg = if first_round l.general then take_first l msg else take_later l msg

-- `SendAckForRound(client, round_)`
unfoldable pub send_ack_for_round : Lieutenant → Client → Bool → Result Lieutenant
send_ack_for_round l client sent = do
  _ ← send sent
  ok (record l { acks = record { to = client.remote; bytes = ack_buf l.round } ∷ l.acks })

-- How the callback ends once a message was taken.
unfoldable pub finish : Platform → Readings → Lieutenant × Bool → Result (Lieutenant × ServerAction)
finish p x (l, new_round) =
    if new_round then move_to_new_round_or_stop p l x else continue_unless_timeout p l x

-- What is done with a valid message.
unfoldable pub accept :
    Platform → Lieutenant → Client → Message → Readings → Result (Lieutenant × ServerAction)
accept p l client msg x = do
  _ ← log_message p msg
  l₁ ← send_ack_for_round l client x.ack_sent
  finish p x (take_message l₁ msg)

-- What is done with a decoded buffer from an address: a message that is not valid is passed over.
unfoldable pub receive_decoded :
    Platform
    → Lieutenant
    → Client
    → Address
    → Readings
    → Option Message
    → Result (Lieutenant × ServerAction)
receive_decoded p l client from x none = continue_unless_timeout p l x
receive_decoded p l client from x (some msg) = do
  valid ← valid_message l.general msg from
  if valid then accept p l client msg x else continue_unless_timeout p l x

-- The callback for incoming messages.
unfoldable pub on_receive :
    Platform → Lieutenant → Client → List ℕ → Readings → Result (Lieutenant × ServerAction)
on_receive p l client buf x = do
  from ← remote_address p.kernel client
  receive_decoded p l client from x (byzantine_msg_from_buf buf)

-- The order, once listening has stopped.
unfoldable pub decided : Listening Lieutenant → Result (Option Order)
decided (stopped l) = ok (some (decide_order l))
decided (running l) = ok none

-- `Lieutenant::Decide`
unfoldable pub decide : Platform → Lieutenant → List (Arrival Readings) → Result (Option Order)
decide p l arrivals = do r ← listen (on_receive p) (handle_round_timeout p) l arrivals; decided r
