-- ===== src/Wire/Tests.antt =====
-- The theorems on the wire format at concrete inputs.
use byzantine_agreement.Common.{
  ℕ, ◌-◌, ◌%◌, take, drop, ◌≡◌, refl, arith, List, [], ◌∷◌, ◌++◌, none, some, length,
}
use byzantine_agreement.Msg.{Order, Message, order_code, order_of_code}
use byzantine_agreement.Wire.{
  byzantine_msg_from_buf, message_buf, round_of_ack, ack_buf, word_bytes,
}
use byzantine_agreement.Wire.RoundTrip.{IsWide, byzantine_msg_from_buf-message_buf}
use byzantine_agreement.Wire.Reencoded.{message_buf-byzantine_msg_from_buf}
use byzantine_agreement.Wire.Sizes.{byzantine_msg_from_buf-ignores_header, round_of_ack-ack_buf}

abbrev sample : Message
sample = record { round = 1; order = Order.attack; ids = 0 ∷ 70_000 ∷ [] }

sample_buf :
    message_buf sample
    ≡ 0 ∷ 0 ∷ 0 ∷ 1 ∷ 0 ∷ 0 ∷ 0 ∷ 24 ∷ 0 ∷ 0 ∷ 0 ∷ 1 ∷ 0 ∷ 0 ∷ 0 ∷ 1 ∷ 0 ∷ 0 ∷ 0 ∷ 0 ∷ 0 ∷ 1 ∷ 17
      ∷ 112 ∷ []
unfolding message_buf order_code
sample_buf = refl

sample-IsWide : IsWide sample
unfolding order_code
sample-IsWide = record { round_fits = omega arith; order_fits = omega arith; ids_fit = omega arith }

byzantine_msg_from_buf-message_buf_example :
    byzantine_msg_from_buf (message_buf sample) ≡ some sample
byzantine_msg_from_buf-message_buf_example = byzantine_msg_from_buf-message_buf sample sample-IsWide

abbrev bytes : List ℕ
bytes = 0 ∷ 0 ∷ 0 ∷ 9 ∷ []

abbrev eight : List ℕ
eight = bytes ++ bytes

byzantine_msg_from_buf-ignores_header_example :
    byzantine_msg_from_buf (eight ++ eight)
    ≡ byzantine_msg_from_buf ((word_bytes 1 ++ word_bytes 16) ++ eight)
unfolding word_bytes
byzantine_msg_from_buf-ignores_header_example =
    byzantine_msg_from_buf-ignores_header eight (word_bytes 1 ++ word_bytes 16) eight refl refl

round_of_ack-ack_buf_example :
    (round_of_ack (ack_buf 300) ≡ some 300)
    × (round_of_ack (message_buf sample) ≡ none)
    × (byzantine_msg_from_buf (ack_buf 300) ≡ none)
round_of_ack-ack_buf_example = round_of_ack-ack_buf 300 sample (omega arith)

-- Another header, one id and two bytes more.
abbrev foreign : List ℕ
foreign = eight ++ 0 ∷ 0 ∷ 0 ∷ 1 ∷ 0 ∷ 0 ∷ 0 ∷ 1 ∷ 0 ∷ 0 ∷ 0 ∷ 0 ∷ 5 ∷ 6 ∷ []

abbrev read_from_foreign : Message
read_from_foreign = record { round = 1; order = Order.attack; ids = 0 ∷ [] }

foreign_decodes : byzantine_msg_from_buf foreign ≡ some read_from_foreign
unfolding byzantine_msg_from_buf order_of_code
foreign_decodes = refl

message_buf-byzantine_msg_from_buf_example :
    IsWide read_from_foreign
    × (length (message_buf read_from_foreign) ≡ length foreign - length foreign % 4)
    × (drop 8 (message_buf read_from_foreign)
        ≡ take (length foreign - length foreign % 4 - 8) (drop 8 foreign))
message_buf-byzantine_msg_from_buf_example =
    message_buf-byzantine_msg_from_buf foreign read_from_foreign (omega arith) foreign_decodes
