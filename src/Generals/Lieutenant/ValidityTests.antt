-- ===== src/Generals/Lieutenant/ValidityTests.antt =====
-- A whole run of a lieutenant: the commander's message, then timeouts.
use byzantine_agreement.Common.{◌≡◌, refl, inl, List, [], ◌∷◌, some, ok}
use byzantine_agreement.Msg.{Order, Message}
use byzantine_agreement.Wire.{message_buf, byzantine_msg_from_buf}
use byzantine_agreement.Udp.{Arrival, received, bufsize}
use byzantine_agreement.Generals.Lieutenant.{Lieutenant, Readings, decide}
use byzantine_agreement.Generals.Lieutenant.Timeouts.{timed_out}
use byzantine_agreement.Generals.Lieutenant.Validity.{IsUnanimous, decide-unanimous}
use byzantine_agreement.Generals.Scenario.{
  platform, address, general, client_on, in_round, readings, first_message, working,
}

-- Process 1 at the start.
abbrev fresh : Lieutenant
fresh = record (in_round 0 []) {
  general = record (general 0) {
    clients =
        (address b'a', client_on b'a')
        ∷ (address b'c', client_on b'c')
        ∷ (address b'd', client_on b'd')
        ∷ [];
  };
  orders_seen = [];
}

abbrev order_arrives : Arrival Readings
order_arrives =
    received
      (record {
        from = (client_on b'a').remote;
        calls = working;
        bytes = 0 ∷ 0 ∷ 0 ∷ 1 ∷ 0 ∷ 0 ∷ 0 ∷ 20 ∷ 0 ∷ 0 ∷ 0 ∷ 0 ∷ 0 ∷ 0 ∷ 0 ∷ 1 ∷ 0 ∷ 0 ∷ 0 ∷ 0 ∷ [];
      })
      readings

abbrev arrivals : List (Arrival Readings)
arrivals = order_arrives ∷ timed_out readings ∷ timed_out readings ∷ timed_out readings ∷ []

same_order : (m m' : Message) → some m ≡ some m' → m'.order ≡ m.order
same_order m m' e = cc

order_arrives-IsUnanimous : IsUnanimous Order.attack order_arrives
unfolding byzantine_msg_from_buf byzantine_agreement.Msg.order_of_code
order_arrives-IsUnanimous msg e = inl (same_order first_message msg e)

decides_to_attack : decide platform fresh arrivals ≡ ok (some Order.attack)
unfolding decide byzantine_msg_from_buf byzantine_agreement.Udp.listen
    byzantine_agreement.Generals.Lieutenant.on_receive byzantine_agreement.Udp.remote_address
    byzantine_agreement.Generals.Lieutenant.receive_decoded
    byzantine_agreement.Generals.Validation.valid_message
    byzantine_agreement.Generals.Lieutenant.accept byzantine_agreement.Generals.Base.log_message
    byzantine_agreement.Generals.Lieutenant.send_ack_for_round byzantine_agreement.Udp.send
    byzantine_agreement.Generals.Lieutenant.finish
    byzantine_agreement.Generals.Lieutenant.take_message
    byzantine_agreement.Generals.Base.first_round byzantine_agreement.Generals.Lieutenant.take_first
    byzantine_agreement.Msg.order_eq byzantine_agreement.Msg.order_of_code
    byzantine_agreement.Generals.Lieutenant.move_to_new_round_or_stop
    byzantine_agreement.Behavior.behavior_and byzantine_agreement.Behavior.exhibits
    byzantine_agreement.Generals.Base.exhibits_behavior
    byzantine_agreement.Generals.Base.increment_round byzantine_agreement.Generals.Base.last_round
    byzantine_agreement.Generals.Base.should_send_msg
    byzantine_agreement.Generals.Lieutenant.clear_senders
    byzantine_agreement.Generals.Lieutenant.join_senders
    byzantine_agreement.Generals.Lieutenant.without_senders
    byzantine_agreement.Generals.Senders.batch_endings
    byzantine_agreement.Generals.Senders.join_endings byzantine_agreement.Generals.Senders.run_batch
    byzantine_agreement.Generals.Senders.send_each byzantine_agreement.Generals.Senders.after_send
    byzantine_agreement.Generals.Senders.turns_for
    byzantine_agreement.Generals.Lieutenant.continue_unless_timeout
    byzantine_agreement.Generals.Lieutenant.decide_order
    byzantine_agreement.Generals.Lieutenant.decided byzantine_agreement.Generals.Forward.forward
    byzantine_agreement.Generals.Forward.forward_all byzantine_agreement.Generals.Forward.forward_to
    byzantine_agreement.Generals.Lieutenant.handle_round_timeout
    byzantine_agreement.Generals.Lieutenant.init_new_round
    byzantine_agreement.Generals.Forward.push_to byzantine_agreement.Generals.Forward.relayed
    byzantine_agreement.Generals.Validation.scan_ids
    byzantine_agreement.Generals.Lieutenant.start_round byzantine_agreement.Msg.message_less
    byzantine_agreement.Msg.order_code byzantine_agreement.Msg.order_less
    byzantine_agreement.OrderedSet.insert byzantine_agreement.OrderedSet.member
    byzantine_agreement.Udp.after_action byzantine_agreement.Udp.client_of_sockaddr
    byzantine_agreement.Udp.create_socket byzantine_agreement.Udp.hostname
    byzantine_agreement.Udp.is_errno_timeout byzantine_agreement.Udp.serve
    byzantine_agreement.Wire.ack_buf byzantine_agreement.Wire.read_words
    byzantine_agreement.Wire.word_at byzantine_agreement.Wire.word_bytes
    byzantine_agreement.Generals.Base.client_for_id byzantine_agreement.Generals.Base.find_client
    byzantine_agreement.Net.address_eq byzantine_agreement.Generals.Base.maybe_delay_send
    byzantine_agreement.Generals.Base.send_message byzantine_agreement.Udp.send_with_ack
    byzantine_agreement.Udp.send_loop byzantine_agreement.Udp.after_reply
    byzantine_agreement.Wire.message_buf byzantine_agreement.Wire.write_words
decides_to_attack = refl

decide-unanimous_example : Order.attack ≡ Order.attack
decide-unanimous_example =
    decide-unanimous platform Order.attack Order.attack fresh arrivals (inl refl) refl refl
      (order_arrives-IsUnanimous, (tt, (tt, (tt, tt)))) decides_to_attack
