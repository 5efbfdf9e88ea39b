-- ===== src/Wire.antt =====
-- The wire format, src/message.h, and its encoding and decoding in src/general.cc. A buffer is the
-- list of its bytes, with the numbers in network order.
pub mod RoundTrip
pub mod Sizes
pub mod Order
pub mod Reencoded
mod Tests
use byzantine_agreement.Common.{
  ℕ, zero, suc, ◌+◌, ◌-◌, ◌*◌, ◌/◌, ◌%◌, ◌^◌, ◌≡◌, refl, arith, Bool, true, false, List, [], ◌∷◌,
  ◌++◌, Option, none, some, ltb, ◌==◌, if◌then◌else◌, length, drop,
}
use byzantine_agreement.Msg.{Message, order_code, order_of_code}

abbrev pub byzantine_message_type : ℕ
byzantine_message_type = 1

abbrev pub ack_type : ℕ
ack_type = 2

-- `sizeof(msg::ByzantineMessage)`, four words and the flexible array, and `sizeof(msg::Ack)`
abbrev pub byzantine_message_size : ℕ
byzantine_message_size = 16

abbrev pub ack_size : ℕ
ack_size = 12

-- The bytes of `htonl(w)`, for the uint32_t that `w` is converted to.
unfoldable pub word_bytes : ℕ → List ℕ
word_bytes w = w / 2 ^ 24 % 256 ∷ w / 2 ^ 16 % 256 ∷ w / 2 ^ 8 % 256 ∷ w % 256 ∷ []

-- `ntohl` of the word at the head of a buffer. Every caller has checked that the word is there.
unfoldable pub word_at : List ℕ → ℕ
word_at (a ∷ b ∷ c ∷ d ∷ rest) = a * 2 ^ 24 + b * 2 ^ 16 + c * 2 ^ 8 + d
word_at _ = 0

-- The loop that copies the ids out of the buffer.
unfoldable pub read_words : ℕ → List ℕ → List ℕ
unfolding word_at
read_words zero buf = []
read_words (suc k) buf = word_at buf ∷ read_words k (drop 4 buf)

-- The loop that copies the ids into the buffer.
unfoldable pub write_words : List ℕ → List ℕ
unfolding word_bytes
write_words [] = []
write_words (id ∷ ids) = word_bytes id ++ write_words ids

unfoldable pub byzantine_msg_from_buf : List ℕ → Option Message
unfolding read_words
byzantine_msg_from_buf buf =
    if ltb (length buf) byzantine_message_size
    then none
    else some (record {
      round = word_at (drop 8 buf);
      order = order_of_code (word_at (drop 12 buf));
      ids = read_words ((length buf - byzantine_message_size) / 4) (drop 16 buf);
    })

unfoldable pub round_of_ack : List ℕ → Option ℕ
unfolding word_at
round_of_ack buf = if length buf == ack_size then some (word_at (drop 8 buf)) else none

-- The buffer that `SendMessage` fills.
unfoldable pub message_buf : Message → List ℕ
unfolding write_words
message_buf msg =
    word_bytes byzantine_message_type
    ++ (word_bytes (byzantine_message_size + 4 * length msg.ids)
        ++ (word_bytes msg.round ++ (word_bytes (order_code msg.order) ++ write_words msg.ids)))

-- The buffer that `SendAckForRound` sends.
unfoldable pub ack_buf : ℕ → List ℕ
unfolding word_bytes
ack_buf round = word_bytes ack_type ++ (word_bytes ack_size ++ word_bytes round)
