-- ===== src/Generals/Network/LateTests.antt =====
-- One lieutenant of three processes as it runs on its own, at concrete inputs.
use byzantine_agreement.Common.{◌≡◌, refl, arith, true, List, [], ◌∷◌, ok}
use byzantine_agreement.Msg.{Order, Message}
use byzantine_agreement.Wire.{ack_buf}
use byzantine_agreement.Udp.{
  Client, Datagram, Listening, listen, Arrival, received, serve, ServerAction, continue, stop,
  bufsize, client_of_sockaddr, remote_address,
}
use byzantine_agreement.Generals.Base.{Platform, ProcessList}
use byzantine_agreement.Generals.Lieutenant.{
  Lieutenant, Readings, accept, decide_order, round_complete, on_receive, handle_round_timeout,
}
use byzantine_agreement.Generals.Lieutenant.Rounds.{Inv}
use byzantine_agreement.Generals.Lieutenant.Steps.{listen-Inv}
use byzantine_agreement.Generals.Network.Late.{late_order_decides}
use byzantine_agreement.OrderedSet.{member}
use byzantine_agreement.OrderedSet.Vectors.{list_order}
use byzantine_agreement.Generals.Scenario.{kernel, platform, client_on, working, readings}
use byzantine_agreement.Generals.Network.Example.{
  processes, first, relay, fresh, told, done, datagram, fresh_made, first-Serves, last-Serves,
}

abbrev done_1 : Lieutenant
done_1 = done 1 2 Order.attack b'c' Order.retreat

-- What process 1 receives until it stops.
abbrev two_messages : List (Arrival Readings)
two_messages =
    received (datagram b'a' (first Order.attack)) readings
    ∷ received (datagram b'c' (relay 2 Order.retreat)) readings
    ∷ []

one_listens :
    listen (on_receive platform) (handle_round_timeout platform) (fresh 1) two_messages
    ≡ ok (Listening.stopped done_1)
unfolding listen byzantine_agreement.Udp.after_action
one_listens = rw (first-Serves.0, last-Serves.0) refl

listen-Inv_example : Inv done_1
listen-Inv_example =
    listen-Inv platform kernel processes 1 working true 0 0 (fresh 1) two_messages (omega arith)
      (fresh_made 1) one_listens

-- Process 1 once the commander has sent it another order, after its round.
abbrev turned : Lieutenant
turned = record (told 1 2 Order.attack) {
  orders_seen = Order.retreat ∷ Order.attack ∷ [];
  msgs_this_round = first Order.retreat ∷ [];
  ids_this_round = (0 ∷ []) ∷ [];
  sender_threads = [];
  acks =
      record { to = (client_on b'a').remote; bytes = ack_buf 1 }
      ∷ record { to = (client_on b'a').remote; bytes = ack_buf 0 }
      ∷ [];
}

late_accepted :
    accept platform (told 1 2 Order.attack) (client_on b'a') (first Order.retreat) readings
    ≡ ok (turned, stop)
unfolding accept byzantine_agreement.Generals.Base.log_message
    byzantine_agreement.Generals.Lieutenant.send_ack_for_round byzantine_agreement.Udp.send
    byzantine_agreement.Generals.Lieutenant.finish
    byzantine_agreement.Generals.Lieutenant.take_message
    byzantine_agreement.Generals.Base.first_round byzantine_agreement.Generals.Lieutenant.take_later
    byzantine_agreement.OrderedSet.insert byzantine_agreement.OrderedSet.member
    byzantine_agreement.Msg.order_eq byzantine_agreement.Msg.order_less
    byzantine_agreement.Msg.order_code round_complete
    byzantine_agreement.Generals.Count.messages_for_round
    byzantine_agreement.Generals.Lieutenant.move_to_new_round_or_stop
    byzantine_agreement.Generals.Base.last_round
    byzantine_agreement.Generals.Lieutenant.clear_senders
    byzantine_agreement.Generals.Lieutenant.join_senders
    byzantine_agreement.Generals.Lieutenant.without_senders
    byzantine_agreement.Generals.Senders.batch_endings
    byzantine_agreement.Generals.Senders.join_endings byzantine_agreement.Generals.Senders.run_batch
    byzantine_agreement.Generals.Senders.send_each byzantine_agreement.Generals.Senders.after_send
    byzantine_agreement.Generals.Senders.turns_for byzantine_agreement.Generals.Base.client_for_id
    byzantine_agreement.Generals.Base.find_client byzantine_agreement.Net.address_eq
    byzantine_agreement.Generals.Base.maybe_delay_send
    byzantine_agreement.Generals.Base.send_message byzantine_agreement.Udp.send_with_ack
    byzantine_agreement.Udp.send_loop byzantine_agreement.Udp.after_reply
    byzantine_agreement.Udp.is_errno_timeout byzantine_agreement.Wire.message_buf
    byzantine_agreement.Wire.write_words byzantine_agreement.Generals.Base.exhibits_behavior
    byzantine_agreement.Behavior.exhibits byzantine_agreement.Behavior.behavior_and
late_accepted = refl

late_order_decides_example :
    (decide_order (told 1 2 Order.attack) ≡ Order.attack)
    × (decide_order turned ≡ Order.retreat)
    × (turned.started ≡ (told 1 2 Order.attack).started)
unfolding byzantine_agreement.Udp.after_action byzantine_agreement.Generals.Base.first_round
    byzantine_agreement.Generals.Base.last_round byzantine_agreement.OrderedSet.member
late_order_decides_example =
    late_order_decides platform (told 1 2 Order.attack) (client_on b'a') (first Order.retreat)
      readings (turned, stop) [] refl refl refl refl (λ e. cc) (λ e. cc) late_accepted refl
