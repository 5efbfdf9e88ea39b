-- ===== src/Generals/Lieutenant/Tests.antt =====
-- The theorems on lieutenants at concrete inputs, and runs of the code.
use byzantine_agreement.Common.{
  ℕ, ◌≡◌, ◌≢◌, refl, arith, true, List, [], ◌∷◌, some, length, ok, if◌then◌else◌, ltb, ◌⊎◌,
}
use byzantine_agreement.OrderedSet.{insert, member}
use byzantine_agreement.OrderedSet.Vectors.{list_order}
use byzantine_agreement.Msg.{Order, order_eq, order_less, order_of_code, order_code, message_less}
use byzantine_agreement.Wire.{
  ack_buf, message_buf, byzantine_msg_from_buf, read_words, word_at, word_bytes, write_words,
}
use byzantine_agreement.Udp.{continue, send, Arrival, received, remote_address, hostname}
use byzantine_agreement.Generals.Base.{
  first_round, last_round, increment_round, exhibits_behavior, log_message,
}
use byzantine_agreement.Generals.Count.{messages_for_round}
use byzantine_agreement.Generals.Validation.{valid_message, scan_ids}
use byzantine_agreement.Generals.Lieutenant.{
  join_senders, Lieutenant, Readings, accept, take_message, take_later, finish,
  continue_unless_timeout, send_ack_for_round, round_complete, decide, decide_order, on_receive,
  init_new_round, receive_decoded,
}
use byzantine_agreement.Generals.Lieutenant.Valid.{IsValid, Answers, valid_message-IsValid}
use byzantine_agreement.Generals.Lieutenant.Choice.{decide_order-choice}
use byzantine_agreement.Generals.Lieutenant.Stale.{decide_never_after_stale}
use byzantine_agreement.Generals.Lieutenant.Endless.{decide_never}
use byzantine_agreement.Generals.Lieutenant.Timeouts.{timed_out}
use byzantine_agreement.Generals.Lieutenant.Relay.{IsOpen, share, batch_of, init_new_round-share}
use byzantine_agreement.Generals.Scenario.{
  address, platform, client_on, general, in_round, readings, first_message, second_message, working,
  processes,
}

-- The commander's message is still valid in round 1.
late_message_valid : valid_message (general 1) first_message (address b'a') ≡ ok true
unfolding valid_message
late_message_valid = refl

valid_message-IsValid_example :
    Answers
      (valid_message (general 1) second_message (address b'c'))
      (IsValid (general 1) second_message (address b'c'))
valid_message-IsValid_example =
    valid_message-IsValid (general 1) second_message (address b'c') (omega arith)

decide_order-choice_example :
    ((Order.attack ∷ [] ≡ Order.attack ∷ []) × (decide_order (in_round 1 []) ≡ Order.attack))
    ⊎ ((Order.attack ∷ [] ≢ Order.attack ∷ []) × (decide_order (in_round 1 []) ≡ Order.retreat))
decide_order-choice_example = decide_order-choice (in_round 1 [])

-- Process 1 after the commander's message has come once more in round 1.
abbrev after_late : Lieutenant
after_late = record (in_round 1 []) {
  ids_this_round = (0 ∷ []) ∷ [];
  msgs_this_round = record first_message { order = Order.no_order } ∷ [];
  acks = record { to = (client_on b'a').remote; bytes = ack_buf 1 } ∷ [];
}

late_handled :
    accept platform (in_round 1 []) (client_on b'a') first_message readings
    ≡ ok (after_late, continue)
unfolding accept log_message send_ack_for_round take_message take_later first_round finish
    continue_unless_timeout member insert order_eq round_complete send order_less messages_for_round
late_handled = refl

decide_never_after_stale_example :
    (continue ≡ continue)
    × (decide platform after_late (timed_out readings ∷ []) ≢ ok (some Order.attack))
unfolding first_round last_round member
decide_never_after_stale_example =
    decide_never_after_stale platform (in_round 1 []) (client_on b'a') first_message readings
      (after_late, continue) (timed_out readings ∷ []) Order.attack refl refl (omega arith)
      (omega arith) refl late_handled

-- A datagram of four bytes, while the clock is far past the end of the round.
abbrev junk : Arrival Readings
junk =
    received
      (record { from = (client_on b'd').remote; calls = working; bytes = 0 ∷ 0 ∷ 0 ∷ 1 ∷ [] })
      (record { now = 9_000_000_000; reset = 9_000_000_001; ack_sent = true })

decide_never_example : decide platform (in_round 3 []) (junk ∷ junk ∷ []) ≢ ok (some Order.attack)
decide_never_example =
    decide_never platform (in_round 3 []) (junk ∷ junk ∷ []) Order.attack (omega arith)

in_round-IsOpen : IsOpen platform (general 1)
unfolding exhibits_behavior
in_round-IsOpen = record { not_silent = refl; not_partial = refl; not_verbose = refl }

none_to_join : join_senders platform (in_round 1 (second_message ∷ [])) ≡ ok tt
unfolding join_senders byzantine_agreement.Generals.Senders.batch_endings
    byzantine_agreement.Generals.Senders.join_endings
none_to_join = refl

init_new_round-share_example :
    (l' : Lieutenant) × (init_new_round platform (in_round 1 (second_message ∷ [])) readings
      ≡ ok l')
    × (batch_of 3 l'.sender_threads ≡ (
        if ltb 3 (length processes)
        then share (increment_round (general 1)) 3 (second_message ∷ [])
        else []))
unfolding increment_round
init_new_round-share_example =
    init_new_round-share platform (in_round 1 (second_message ∷ [])) readings 3 none_to_join
      in_round-IsOpen (refl, tt)

second_buf : List ℕ
second_buf = message_buf second_message

-- Process 1 after the message of process 2.
abbrev after_second : Lieutenant
after_second = record (in_round 1 []) {
  ids_this_round = (0 ∷ 2 ∷ []) ∷ [];
  msgs_this_round = record second_message { order = Order.no_order } ∷ [];
  acks = record { to = (client_on b'c').remote; bytes = ack_buf 1 } ∷ [];
}

second_handled :
    on_receive platform (in_round 1 []) (client_on b'c') second_buf readings
    ≡ ok (after_second, continue)
unfolding second_buf on_receive remote_address hostname receive_decoded byzantine_msg_from_buf
    order_of_code read_words word_at word_bytes write_words order_code message_buf valid_message
    scan_ids accept log_message send_ack_for_round send finish take_message first_round take_later
    member insert order_less round_complete order_eq messages_for_round continue_unless_timeout
    message_less
second_handled = refl
