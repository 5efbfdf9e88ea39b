-- ===== src/Wire/RoundTrip.antt =====
-- `ByzantineMsgFromBuf` of src/general.cc on the buffers that `SendMessage` fills.
use byzantine_agreement.Common.{
  ℕ, ◌*◌, ◌^◌, ◌<◌, ◌≡◌, refl, arith, List, [], ◌∷◌, ◌++◌, some, length, All,
}
use byzantine_agreement.Msg.{Message, order_code}
use byzantine_agreement.Msg.Less.{order_of_code-order_code}
use byzantine_agreement.Wire.{
  word_bytes, word_at, read_words, write_words, byzantine_msg_from_buf, message_buf,
}

-- The numbers of the message are 32-bit words, as the program's types make them.
pub record IsWide (m : Message) : Type 0 where
  pub round_fits : m.round < 2 ^ 32
  pub order_fits : order_code m.order < 2 ^ 32
  pub ids_fit : All (λ i. i < 2 ^ 32) m.ids

pub word_at-word_bytes : (w : ℕ) (rest : List ℕ) → w < 2 ^ 32 → word_at (word_bytes w ++ rest) ≡ w
unfolding word_at word_bytes
word_at-word_bytes w rest h = omega arith

read_words-write_words :
    (ids : List ℕ) → All (λ i. i < 2 ^ 32) ids → read_words (length ids) (write_words ids) ≡ ids
unfolding read_words write_words word_bytes
read_words-write_words [] h = refl
read_words-write_words (id ∷ ids) h = ground (arith, read_words-write_words ids h.1)

pub length-write_words : (ids : List ℕ) → length (write_words ids) ≡ 4 * length ids
unfolding write_words word_bytes
length-write_words [] = refl
length-write_words (id ∷ ids) = omega (arith, length-write_words ids)

-- A message whose round, order and ids are 32-bit words is decoded from its own encoding.
pub byzantine_msg_from_buf-message_buf :
    (m : Message) → IsWide m → byzantine_msg_from_buf (message_buf m) ≡ some m
unfolding byzantine_msg_from_buf message_buf
byzantine_msg_from_buf-message_buf m w = ground (
  arith,
  length-write_words m.ids,
  read_words-write_words m.ids w.ids_fit,
  order_of_code-order_code m.order,
  word_at-word_bytes m.round [] w.round_fits,
)
