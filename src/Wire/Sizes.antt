-- ===== src/Wire/Sizes.antt =====
-- `ByzantineMsgFromBuf` and `RoundOfAck` of src/general.cc, by the size of the buffer.
use byzantine_agreement.Common.{
  ℕ, zero, suc, ◌+◌, ◌-◌, ◌/◌, ◌^◌, ◌<◌, ◌≤◌, ◌≡◌, ◌⊎◌, inl, inr, refl, arith, List, [], ◌∷◌, ◌++◌,
  none, some, length, drop, length-append, dec_lt,
}
use byzantine_agreement.Msg.{Message, order_of_code}
use byzantine_agreement.Wire.{
  word_at, read_words, byzantine_msg_from_buf, round_of_ack, message_buf, ack_buf,
}
use byzantine_agreement.Wire.RoundTrip.{length-write_words}

pub length-read_words : (k : ℕ) (buf : List ℕ) → length (read_words k buf) ≡ k
unfolding read_words
length-read_words zero buf = refl
length-read_words (suc k) buf = omega (arith, length-read_words k (drop 4 buf))

-- A buffer is decoded exactly when it holds the four fixed words, and the message then has one id
-- for each whole word after them.
pub byzantine_msg_from_buf-size :
    (buf : List ℕ)
    → ((byzantine_msg_from_buf buf ≡ none) × (length buf < 16))
      ⊎ ((m : Message) × (byzantine_msg_from_buf buf ≡ some m)
          × (16 ≤ length buf)
          × (length m.ids ≡ (length buf - 16) / 4))
unfolding byzantine_msg_from_buf
byzantine_msg_from_buf-size buf = elim (dec_lt (length buf) 16) [
  | yes short ↦ inl (ground arith, short)
  | no long ↦ inr (
    record {
      round = word_at (drop 8 buf);
      order = order_of_code (word_at (drop 12 buf));
      ids = read_words ((length buf - 16) / 4) (drop 16 buf);
    },
    ground arith,
    omega arith,
    length-read_words _ _,
  )
]

drop-append : (h rest : List ℕ) (k n : ℕ) → length h + k ≡ n → drop n (h ++ rest) ≡ drop k rest
drop-append [] rest k n e = ground arith
drop-append (x ∷ h) rest k zero e = absurd (omega arith)
drop-append (x ∷ h) rest k (suc n) e = drop-append h rest k n (omega arith)

-- Decoding looks at neither the type nor the size field: the first eight bytes can be any.
pub byzantine_msg_from_buf-ignores_header :
    (h h' rest : List ℕ)
    → length h ≡ 8
    → length h' ≡ 8
    → byzantine_msg_from_buf (h ++ rest) ≡ byzantine_msg_from_buf (h' ++ rest)
unfolding byzantine_msg_from_buf
byzantine_msg_from_buf-ignores_header h h' rest e e' = ground (
  arith,
  length-append h rest,
  length-append h' rest,
  drop-append h rest 0 8 (omega arith),
  drop-append h' rest 0 8 (omega arith),
  drop-append h rest 4 12 (omega arith),
  drop-append h' rest 4 12 (omega arith),
  drop-append h rest 8 16 (omega arith),
  drop-append h' rest 8 16 (omega arith),
)

-- An acknowledgement of a 32-bit round is read back with its round and is not taken for a
-- message, and no encoded message is taken for an acknowledgement.
pub round_of_ack-ack_buf :
    (r : ℕ) (m : Message)
    → r < 2 ^ 32
    → (round_of_ack (ack_buf r) ≡ some r)
      × (round_of_ack (message_buf m) ≡ none)
      × (byzantine_msg_from_buf (ack_buf r) ≡ none)
unfolding round_of_ack ack_buf message_buf byzantine_msg_from_buf
round_of_ack-ack_buf r m h = ground (arith, length-write_words m.ids)
