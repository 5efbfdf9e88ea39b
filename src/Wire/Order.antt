-- ===== src/Wire/Order.antt =====
-- The order in a buffer that `SendMessage` fills, as `ByzantineMsgFromBuf` of src/general.cc reads it
-- from what the server's buffer holds of it.
use byzantine_agreement.Common.{ℕ, ◌^◌, ◌<◌, ◌≡◌, ap, ◌∙◌, arith, List, some, take, drop}
use byzantine_agreement.Msg.{Message, order_code, order_of_code}
use byzantine_agreement.Msg.Less.{order_of_code-order_code}
use byzantine_agreement.Wire.{word_bytes, word_at, byzantine_msg_from_buf, message_buf, write_words}
use byzantine_agreement.Wire.RoundTrip.{word_at-word_bytes}

order_at_12 :
    (buf : List ℕ) (m : Message)
    → byzantine_msg_from_buf buf ≡ some m
    → m.order ≡ order_of_code (word_at (drop 12 buf))
unfolding byzantine_msg_from_buf
order_at_12 buf m e = ground arith

-- A message that is decoded from the first 1024 bytes of an encoding has the order that was encoded,
-- however long the encoding is.
pub byzantine_msg_from_buf-order :
    (m m' : Message)
    → order_code m.order < 2 ^ 32
    → byzantine_msg_from_buf (take 1024 (message_buf m)) ≡ some m'
    → m'.order ≡ m.order
unfolding message_buf word_bytes
byzantine_msg_from_buf-order m m' w e =
    order_at_12 (take 1024 (message_buf m)) m' e
    ∙ (ap order_of_code (word_at-word_bytes (order_code m.order) (take 1008 (write_words m.ids)) w)
        ∙ order_of_code-order_code m.order)
