-- ===== src/Generals/Network/Tests.antt =====
-- A network of two processes at work: the commander's message arrives, and the round ends.
use byzantine_agreement.Common.{
  ℕ, ◌≡◌, ◌>>=◌, refl, arith, inl, true, false, ℕ_discrete, List, [], ◌∷◌, some, ok,
}
use mathlib.Core.List.{Memᴰ}
use byzantine_agreement.Net.{address_eq}
use byzantine_agreement.Msg.{Order}
use byzantine_agreement.Wire.{message_buf, ack_buf}
use byzantine_agreement.Udp.{Client, Arrival, received, serve, continue, stop}
use byzantine_agreement.Udp
use byzantine_agreement.Generals.Base.{Platform, exhibits_behavior}
use byzantine_agreement.Generals.Commander.{Commander, decide, launch}
use byzantine_agreement.Generals.Senders.{Sender, sender_endings, join_endings}
use byzantine_agreement.Generals.Lieutenant.{
  Lieutenant, Readings, on_receive, handle_round_timeout, new_lieutenant, decide_order,
  decide as run,
}
use byzantine_agreement.Generals.Lieutenant.Timeouts.{timed_out}
use byzantine_agreement.Generals.Network.{
  Node, listening, stopped, update, by_commander, handles, Reach, start, later,
}
use byzantine_agreement.Generals.Network.Validity.{IsNew, network_decides}
use byzantine_agreement.Generals.Scenario.{
  address, kernel, platform, client_on, working, readings, first_message, socket,
}

abbrev client_of : ℕ → Client
client_of c = record {
  socket = record { fd = 3; receive_timeout = some (record { tv_sec = 0; tv_usec = 250_000 }) };
  remote = record { ip = c; port = 4000 };
}

abbrev commander : Commander
commander = record {
  general = record {
    processes = address b'a' ∷ address b'b' ∷ [];
    clients = (address b'b', client_of b'b') ∷ (address b'a', client_of b'a') ∷ [];
    id = 0;
    faulty = 0;
    behavior = 0;
    round = 0;
    partial_draws = 0;
  };
  order = Order.attack;
  wrong_draws = 0;
}

-- The only lieutenant as it was built, in round 1, and at the end.
abbrev fresh : Lieutenant
fresh = record {
  general = record commander.general { id = 1 };
  server = socket;
  orders_seen = [];
  round_start_ts = 0;
  msgs_this_round = [];
  ids_this_round = [];
  sender_threads = [];
  started = [];
  acks = [];
}

abbrev told : Lieutenant
told = record fresh {
  general = record commander.general { id = 1; round = 1 };
  orders_seen = Order.attack ∷ [];
  round_start_ts = 6000;
  acks = record { to = (client_on b'a').remote; bytes = ack_buf 0 } ∷ [];
}

abbrev senders : List Sender
senders = record { client = client_of b'b'; msg = first_message } ∷ []

abbrev order_arrives : Arrival Readings
order_arrives =
    received
      (record {
        from = (client_on b'a').remote;
        calls = working;
        bytes = message_buf first_message;
      })
      readings

abbrev platforms : ℕ → Platform
platforms j = platform

abbrev lieutenants : ℕ → Lieutenant
lieutenants j = fresh

abbrev at_end : ℕ → Node
at_end = update (update (λ j. listening fresh) 1 (listening told)) 1 (stopped told)

commander_launches : launch platform commander ≡ ok (Order.attack, senders)
unfolding launch byzantine_agreement.Generals.Commander.send_from
    byzantine_agreement.Generals.Commander.send_to byzantine_agreement.Generals.Base.should_send_msg
    byzantine_agreement.Generals.Base.log_message byzantine_agreement.Generals.Base.client_for_id
    byzantine_agreement.Generals.Commander.order_for_msg
    byzantine_agreement.Generals.Base.find_client
    byzantine_agreement.Generals.Base.exhibits_behavior byzantine_agreement.Behavior.exhibits
    byzantine_agreement.Behavior.behavior_and byzantine_agreement.Net.address_eq
commander_launches = refl

fresh_made : new_lieutenant kernel commander.processes 1 working true 0 0 ≡ ok fresh
unfolding new_lieutenant byzantine_agreement.Generals.Base.new_general
    byzantine_agreement.Generals.Base.clients_for_process_list
    byzantine_agreement.Generals.Base.add_clients byzantine_agreement.Generals.Base.emplace
    byzantine_agreement.Generals.Base.find_client byzantine_agreement.Udp.new_client
    byzantine_agreement.Udp.create_socket byzantine_agreement.Udp.socket_address
    byzantine_agreement.Udp.new_server byzantine_agreement.Net.address_eq
fresh_made = refl

message_handled :
    serve (on_receive platform) (handle_round_timeout platform) fresh order_arrives
    ≡ ok (told, continue)
unfolding serve byzantine_agreement.Wire.message_buf byzantine_agreement.Wire.write_words
    byzantine_agreement.Wire.byzantine_msg_from_buf
    byzantine_agreement.Generals.Lieutenant.on_receive byzantine_agreement.Udp.remote_address
    byzantine_agreement.Generals.Lieutenant.receive_decoded
    byzantine_agreement.Generals.Validation.valid_message
    byzantine_agreement.Generals.Lieutenant.accept byzantine_agreement.Generals.Base.log_message
    byzantine_agreement.Generals.Lieutenant.send_ack_for_round byzantine_agreement.Udp.send
    byzantine_agreement.Generals.Lieutenant.finish
    byzantine_agreement.Generals.Lieutenant.take_message
    byzantine_agreement.Generals.Base.first_round byzantine_agreement.Generals.Lieutenant.take_first
    byzantine_agreement.Msg.order_eq byzantine_agreement.Msg.order_of_code
    byzantine_agreement.Generals.Lieutenant.move_to_new_round_or_stop
    byzantine_agreement.Behavior.behavior_and byzantine_agreement.Behavior.exhibits
    byzantine_agreement.Generals.Base.exhibits_behavior
    byzantine_agreement.Generals.Base.increment_round byzantine_agreement.Generals.Base.last_round
    byzantine_agreement.Generals.Base.should_send_msg
    byzantine_agreement.Generals.Lieutenant.clear_senders
    byzantine_agreement.Generals.Lieutenant.join_senders
    byzantine_agreement.Generals.Lieutenant.without_senders
    byzantine_agreement.Generals.Senders.batch_endings
    byzantine_agreement.Generals.Senders.join_endings byzantine_agreement.Generals.Senders.run_batch
    byzantine_agreement.Generals.Senders.send_each byzantine_agreement.Generals.Senders.after_send
    byzantine_agreement.Generals.Senders.turns_for
    byzantine_agreement.Generals.Lieutenant.continue_unless_timeout
    byzantine_agreement.Generals.Forward.forward byzantine_agreement.Generals.Forward.forward_all
    byzantine_agreement.Generals.Forward.forward_to
    byzantine_agreement.Generals.Lieutenant.handle_round_timeout
    byzantine_agreement.Generals.Lieutenant.init_new_round
    byzantine_agreement.Generals.Forward.push_to byzantine_agreement.Generals.Forward.relayed
    byzantine_agreement.Generals.Validation.scan_ids
    byzantine_agreement.Generals.Lieutenant.start_round byzantine_agreement.Msg.message_less
    byzantine_agreement.Msg.order_code byzantine_agreement.Msg.order_less
    byzantine_agreement.OrderedSet.insert byzantine_agreement.OrderedSet.member
    byzantine_agreement.Udp.client_of_sockaddr byzantine_agreement.Udp.create_socket
    byzantine_agreement.Udp.hostname byzantine_agreement.Udp.is_errno_timeout
    byzantine_agreement.Wire.ack_buf byzantine_agreement.Wire.read_words
    byzantine_agreement.Wire.word_at byzantine_agreement.Wire.word_bytes
    byzantine_agreement.Generals.Base.client_for_id byzantine_agreement.Generals.Base.find_client
    byzantine_agreement.Net.address_eq byzantine_agreement.Generals.Base.maybe_delay_send
    byzantine_agreement.Generals.Base.send_message byzantine_agreement.Udp.send_with_ack
    byzantine_agreement.Udp.send_loop byzantine_agreement.Udp.after_reply
message_handled = refl

timeout_handled :
    serve (on_receive platform) (handle_round_timeout platform) told (timed_out readings)
    ≡ ok (told, stop)
unfolding serve byzantine_agreement.Wire.message_buf byzantine_agreement.Wire.write_words
    byzantine_agreement.Wire.byzantine_msg_from_buf
    byzantine_agreement.Generals.Lieutenant.on_receive byzantine_agreement.Udp.remote_address
    byzantine_agreement.Generals.Lieutenant.receive_decoded
    byzantine_agreement.Generals.Validation.valid_message
    byzantine_agreement.Generals.Lieutenant.accept byzantine_agreement.Generals.Base.log_message
    byzantine_agreement.Generals.Lieutenant.send_ack_for_round byzantine_agreement.Udp.send
    byzantine_agreement.Generals.Lieutenant.finish
    byzantine_agreement.Generals.Lieutenant.take_message
    byzantine_agreement.Generals.Base.first_round byzantine_agreement.Generals.Lieutenant.take_first
    byzantine_agreement.Msg.order_eq byzantine_agreement.Msg.order_of_code
    byzantine_agreement.Generals.Lieutenant.move_to_new_round_or_stop
    byzantine_agreement.Behavior.behavior_and byzantine_agreement.Behavior.exhibits
    byzantine_agreement.Generals.Base.exhibits_behavior
    byzantine_agreement.Generals.Base.increment_round byzantine_agreement.Generals.Base.last_round
    byzantine_agreement.Generals.Base.should_send_msg
    byzantine_agreement.Generals.Lieutenant.clear_senders
    byzantine_agreement.Generals.Lieutenant.join_senders
    byzantine_agreement.Generals.Lieutenant.without_senders
    byzantine_agreement.Generals.Senders.batch_endings
    byzantine_agreement.Generals.Senders.join_endings byzantine_agreement.Generals.Senders.run_batch
    byzantine_agreement.Generals.Senders.send_each byzantine_agreement.Generals.Senders.after_send
    byzantine_agreement.Generals.Senders.turns_for
    byzantine_agreement.Generals.Lieutenant.continue_unless_timeout
    byzantine_agreement.Generals.Forward.forward byzantine_agreement.Generals.Forward.forward_all
    byzantine_agreement.Generals.Forward.forward_to
    byzantine_agreement.Generals.Lieutenant.handle_round_timeout
    byzantine_agreement.Generals.Lieutenant.init_new_round
    byzantine_agreement.Generals.Forward.push_to byzantine_agreement.Generals.Forward.relayed
    byzantine_agreement.Generals.Validation.scan_ids
    byzantine_agreement.Generals.Lieutenant.start_round byzantine_agreement.Msg.message_less
    byzantine_agreement.Msg.order_code byzantine_agreement.Msg.order_less
    byzantine_agreement.OrderedSet.insert byzantine_agreement.OrderedSet.member
    byzantine_agreement.Udp.client_of_sockaddr byzantine_agreement.Udp.create_socket
    byzantine_agreement.Udp.hostname byzantine_agreement.Udp.is_errno_timeout
    byzantine_agreement.Wire.ack_buf byzantine_agreement.Wire.read_words
    byzantine_agreement.Wire.word_at byzantine_agreement.Wire.word_bytes
    byzantine_agreement.Generals.Base.client_for_id byzantine_agreement.Generals.Base.find_client
    byzantine_agreement.Net.address_eq byzantine_agreement.Generals.Base.maybe_delay_send
    byzantine_agreement.Generals.Base.send_message byzantine_agreement.Udp.send_with_ack
    byzantine_agreement.Udp.send_loop byzantine_agreement.Udp.after_reply
timeout_handled = refl

not_wrong : exhibits_behavior commander.general 8 ≡ false
unfolding exhibits_behavior
not_wrong = refl

fresh-IsNew : IsNew fresh
fresh-IsNew = record {
  kernel = kernel;
  processes = commander.processes;
  id = 1;
  calls = working;
  bound = true;
  faulty = 0;
  behavior = 0;
  made = fresh_made;
}

at_end-Reach : Reach 2 platforms senders lieutenants at_end
unfolding ℕ_discrete
at_end-Reach =
    later
      (later start (
        handles 1 fresh order_arrives (told, continue) (omega arith) (omega arith) refl
          (by_commander (record { client = client_of b'b'; msg = first_message }) (Memᴰ.head refl)
            refl)
          message_handled))
      (handles 1 told (timed_out readings) (told, stop) (omega arith) (omega arith) refl tt
        timeout_handled)

network_decides_example :
    (decide_order told ≡ Order.attack)
    × (decide platform commander ≡ (
        join_endings (sender_endings platform commander.general 0 senders) >>= λ _.
        ok Order.attack))
unfolding ℕ_discrete
network_decides_example =
    network_decides 2 platforms platform commander Order.attack senders lieutenants at_end 1 told
      (inl refl) not_wrong commander_launches (λ j. fresh-IsNew) at_end-Reach refl
