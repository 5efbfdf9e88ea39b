-- ===== src/Generals/Network/Example.antt =====
-- Three processes with a commander that tells one lieutenant to attack and the other to retreat, as
-- `Commander::Decide` and `Lieutenant::Decide` of src/general.cc treat them.
use byzantine_agreement.Common.{ℕ, ◌≡◌, refl, true, List, [], ◌∷◌, some, ok, ◌==◌}
use byzantine_agreement.Msg.{Order, Message}
use byzantine_agreement.Wire.{message_buf, ack_buf, byzantine_msg_from_buf}
use byzantine_agreement.Net.{Address}
use byzantine_agreement.Udp.{
  Client, Datagram, Arrival, received, serve, ServerAction, continue, stop, bufsize,
  client_of_sockaddr, remote_address,
}
use byzantine_agreement.Generals.Base.{Platform, ProcessList}
use byzantine_agreement.Generals.Commander.{Commander, launch}
use byzantine_agreement.Generals.Senders.{Sender}
use byzantine_agreement.Generals.Forward.{Batch}
use byzantine_agreement.Generals.Validation.{valid_message}
use byzantine_agreement.Generals.Lieutenant.{
  Lieutenant, Readings, on_receive, handle_round_timeout, new_lieutenant, decide_order,
}
use byzantine_agreement.Generals.Scenario.{
  address, kernel, platform, client_on, working, readings, socket,
}

abbrev pub processes : ProcessList
processes = address b'a' ∷ address b'b' ∷ address b'c' ∷ []

abbrev pub client_of : ℕ → Client
client_of c = record {
  socket = record { fd = 3; receive_timeout = some (record { tv_sec = 0; tv_usec = 250_000 }) };
  remote = record { ip = c; port = 4000 };
}

-- Its second draw falsifies the order.
abbrev pub falsifying : Platform
falsifying = record platform { wrong_draw = λ d. d == 1 }

abbrev pub commander : Commander
commander = record {
  general = record {
    processes = processes;
    clients =
        (address b'c', client_of b'c')
        ∷ (address b'b', client_of b'b')
        ∷ (address b'a', client_of b'a')
        ∷ [];
    id = 0;
    faulty = 0;
    behavior = 8;
    round = 0;
    partial_draws = 0;
  };
  order = Order.attack;
  wrong_draws = 0;
}

abbrev pub first : Order → Message
first o = record { round = 0; order = o; ids = 0 ∷ [] }

abbrev pub relay : ℕ → Order → Message
relay a o = record { round = 1; order = o; ids = 0 ∷ a ∷ [] }

abbrev pub senders : List Sender
senders =
    record { client = client_of b'b'; msg = first Order.attack }
    ∷ record { client = client_of b'c'; msg = first Order.retreat }
    ∷ []

-- A lieutenant as it was built, once the commander's order has come, and at the end.
abbrev pub fresh : ℕ → Lieutenant
fresh a = record {
  general = record commander.general { id = a; behavior = 0 };
  server = socket;
  orders_seen = [];
  round_start_ts = 0;
  msgs_this_round = [];
  ids_this_round = [];
  sender_threads = [];
  started = [];
  acks = [];
}

-- What a lieutenant sends to the other one.
abbrev pub batch : ℕ → ℕ → Order → Batch
batch a q o = record { pid = q; msgs = relay a o ∷ [] }

abbrev pub told : ℕ → ℕ → Order → Lieutenant
told a q o = record (fresh a) {
  general = record commander.general { id = a; behavior = 0; round = 1 };
  orders_seen = o ∷ [];
  round_start_ts = 6000;
  sender_threads = batch a q o ∷ [];
  started = batch a q o ∷ [];
  acks = record { to = (client_on b'a').remote; bytes = ack_buf 0 } ∷ [];
}

abbrev pub done : ℕ → ℕ → Order → ℕ → Order → Lieutenant
done a q o c v = record (told a q o) {
  orders_seen = Order.retreat ∷ Order.attack ∷ [];
  msgs_this_round = relay q v ∷ [];
  ids_this_round = (0 ∷ q ∷ []) ∷ [];
  sender_threads = [];
  acks =
      record { to = (client_on c).remote; bytes = ack_buf 1 }
      ∷ record { to = (client_on b'a').remote; bytes = ack_buf 0 }
      ∷ [];
}

abbrev pub datagram : ℕ → Message → Datagram
datagram c m = record { from = (client_on c).remote; calls = working; bytes = message_buf m }

abbrev pub Serves : Lieutenant → ℕ → Message → Lieutenant × ServerAction → Type 0
Serves l c m r =
    serve (on_receive platform) (handle_round_timeout platform) l (received (datagram c m) readings)
    ≡ ok r

pub commander_launches : launch falsifying commander ≡ ok (Order.attack, senders)
unfolding launch byzantine_agreement.Generals.Commander.send_from
    byzantine_agreement.Generals.Commander.send_to byzantine_agreement.Generals.Base.should_send_msg
    byzantine_agreement.Generals.Base.log_message byzantine_agreement.Generals.Base.client_for_id
    byzantine_agreement.Generals.Commander.order_for_msg byzantine_agreement.Msg.order_eq
    byzantine_agreement.Msg.order_code byzantine_agreement.Generals.Base.find_client
    byzantine_agreement.Generals.Base.exhibits_behavior byzantine_agreement.Behavior.exhibits
    byzantine_agreement.Behavior.behavior_and byzantine_agreement.Net.address_eq
commander_launches = refl

pub fresh_made : (a : ℕ) → new_lieutenant kernel processes a working true 0 0 ≡ ok (fresh a)
unfolding new_lieutenant byzantine_agreement.Generals.Base.new_general
    byzantine_agreement.Generals.Base.clients_for_process_list
    byzantine_agreement.Generals.Base.add_clients byzantine_agreement.Generals.Base.emplace
    byzantine_agreement.Generals.Base.find_client byzantine_agreement.Udp.new_client
    byzantine_agreement.Udp.create_socket byzantine_agreement.Udp.socket_address
    byzantine_agreement.Udp.new_server byzantine_agreement.Net.address_eq
fresh_made a = refl

pub first-Serves :
    Serves (fresh 1) b'a' (first Order.attack) (told 1 2 Order.attack, continue)
    × Serves (fresh 2) b'a' (first Order.retreat) (told 2 1 Order.retreat, continue)
unfolding serve byzantine_agreement.Wire.message_buf byzantine_agreement.Wire.write_words
    byzantine_agreement.Wire.byzantine_msg_from_buf
    byzantine_agreement.Generals.Lieutenant.on_receive byzantine_agreement.Udp.remote_address
    byzantine_agreement.Generals.Lieutenant.receive_decoded
    byzantine_agreement.Generals.Validation.valid_message
    byzantine_agreement.Generals.Lieutenant.accept byzantine_agreement.Generals.Base.log_message
    byzantine_agreement.Generals.Lieutenant.send_ack_for_round byzantine_agreement.Udp.send
    byzantine_agreement.Generals.Lieutenant.finish
    byzantine_agreement.Generals.Lieutenant.take_message
    byzantine_agreement.Generals.Base.first_round byzantine_agreement.Generals.Lieutenant.take_first
    byzantine_agreement.Msg.order_eq byzantine_agreement.Msg.order_of_code
    byzantine_agreement.Generals.Lieutenant.move_to_new_round_or_stop
    byzantine_agreement.Behavior.behavior_and byzantine_agreement.Behavior.exhibits
    byzantine_agreement.Generals.Base.exhibits_behavior
    byzantine_agreement.Generals.Base.increment_round byzantine_agreement.Generals.Base.last_round
    byzantine_agreement.Generals.Base.should_send_msg
    byzantine_agreement.Generals.Lieutenant.clear_senders
    byzantine_agreement.Generals.Lieutenant.join_senders
    byzantine_agreement.Generals.Lieutenant.without_senders
    byzantine_agreement.Generals.Senders.batch_endings
    byzantine_agreement.Generals.Senders.join_endings byzantine_agreement.Generals.Senders.run_batch
    byzantine_agreement.Generals.Senders.send_each byzantine_agreement.Generals.Senders.after_send
    byzantine_agreement.Generals.Senders.turns_for
    byzantine_agreement.Generals.Lieutenant.continue_unless_timeout
    byzantine_agreement.Generals.Forward.forward byzantine_agreement.Generals.Forward.forward_all
    byzantine_agreement.Generals.Forward.forward_to
    byzantine_agreement.Generals.Lieutenant.handle_round_timeout
    byzantine_agreement.Generals.Lieutenant.init_new_round
    byzantine_agreement.Generals.Forward.push_to byzantine_agreement.Generals.Forward.relayed
    byzantine_agreement.Generals.Validation.scan_ids
    byzantine_agreement.Generals.Lieutenant.start_round byzantine_agreement.Msg.message_less
    byzantine_agreement.Msg.order_code byzantine_agreement.Msg.order_less
    byzantine_agreement.OrderedSet.insert byzantine_agreement.OrderedSet.member
    byzantine_agreement.Udp.client_of_sockaddr byzantine_agreement.Udp.create_socket
    byzantine_agreement.Udp.hostname byzantine_agreement.Udp.is_errno_timeout
    byzantine_agreement.Wire.ack_buf byzantine_agreement.Wire.read_words
    byzantine_agreement.Wire.word_at byzantine_agreement.Wire.word_bytes
    byzantine_agreement.Generals.Base.client_for_id byzantine_agreement.Generals.Base.find_client
    byzantine_agreement.Net.address_eq byzantine_agreement.Generals.Base.maybe_delay_send
    byzantine_agreement.Generals.Base.send_message byzantine_agreement.Udp.send_with_ack
    byzantine_agreement.Udp.send_loop byzantine_agreement.Udp.after_reply
first-Serves = (refl, refl)

pub last-Serves :
    Serves
      (told 1 2 Order.attack)
      b'c'
      (relay 2 Order.retreat)
      (done 1 2 Order.attack b'c' Order.retreat, stop)
    × Serves
        (told 2 1 Order.retreat)
        b'b'
        (relay 1 Order.attack)
        (done 2 1 Order.retreat b'b' Order.attack, stop)
unfolding serve byzantine_agreement.Wire.message_buf byzantine_agreement.Wire.write_words
    byzantine_agreement.Wire.byzantine_msg_from_buf
    byzantine_agreement.Generals.Lieutenant.on_receive byzantine_agreement.Udp.remote_address
    byzantine_agreement.Generals.Lieutenant.receive_decoded
    byzantine_agreement.Generals.Validation.valid_message
    byzantine_agreement.Generals.Lieutenant.accept byzantine_agreement.Generals.Base.log_message
    byzantine_agreement.Generals.Lieutenant.send_ack_for_round byzantine_agreement.Udp.send
    byzantine_agreement.Generals.Lieutenant.finish
    byzantine_agreement.Generals.Lieutenant.take_message
    byzantine_agreement.Generals.Base.first_round byzantine_agreement.Generals.Lieutenant.take_first
    byzantine_agreement.Msg.order_eq byzantine_agreement.Msg.order_of_code
    byzantine_agreement.Generals.Lieutenant.move_to_new_round_or_stop
    byzantine_agreement.Behavior.behavior_and byzantine_agreement.Behavior.exhibits
    byzantine_agreement.Generals.Base.exhibits_behavior
    byzantine_agreement.Generals.Base.increment_round byzantine_agreement.Generals.Base.last_round
    byzantine_agreement.Generals.Base.should_send_msg
    byzantine_agreement.Generals.Lieutenant.clear_senders
    byzantine_agreement.Generals.Lieutenant.join_senders
    byzantine_agreement.Generals.Lieutenant.without_senders
    byzantine_agreement.Generals.Senders.batch_endings
    byzantine_agreement.Generals.Senders.join_endings byzantine_agreement.Generals.Senders.run_batch
    byzantine_agreement.Generals.Senders.send_each byzantine_agreement.Generals.Senders.after_send
    byzantine_agreement.Generals.Senders.turns_for
    byzantine_agreement.Generals.Lieutenant.continue_unless_timeout
    byzantine_agreement.Generals.Forward.forward byzantine_agreement.Generals.Forward.forward_all
    byzantine_agreement.Generals.Forward.forward_to
    byzantine_agreement.Generals.Lieutenant.handle_round_timeout
    byzantine_agreement.Generals.Lieutenant.init_new_round
    byzantine_agreement.Generals.Forward.push_to byzantine_agreement.Generals.Forward.relayed
    byzantine_agreement.Generals.Validation.scan_ids
    byzantine_agreement.Generals.Lieutenant.start_round byzantine_agreement.Msg.message_less
    byzantine_agreement.Msg.order_code byzantine_agreement.Msg.order_less
    byzantine_agreement.OrderedSet.insert byzantine_agreement.OrderedSet.member
    byzantine_agreement.Udp.client_of_sockaddr byzantine_agreement.Udp.create_socket
    byzantine_agreement.Udp.hostname byzantine_agreement.Udp.is_errno_timeout
    byzantine_agreement.Wire.ack_buf byzantine_agreement.Wire.read_words
    byzantine_agreement.Wire.word_at byzantine_agreement.Wire.word_bytes
    byzantine_agreement.Generals.Lieutenant.take_later
    byzantine_agreement.Generals.Lieutenant.round_complete
    byzantine_agreement.Generals.Count.messages_for_round
    byzantine_agreement.Generals.Base.client_for_id byzantine_agreement.Generals.Base.find_client
    byzantine_agreement.Net.address_eq byzantine_agreement.Generals.Base.maybe_delay_send
    byzantine_agreement.Generals.Base.send_message byzantine_agreement.Udp.send_with_ack
    byzantine_agreement.Udp.send_loop byzantine_agreement.Udp.after_reply
last-Serves = (refl, refl)
