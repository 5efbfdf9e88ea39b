-- ===== src/Generals/Acks.antt =====
-- `SendMessage` of src/general.cc, by the rounds of the acknowledgements that come back.
use byzantine_agreement.Common.{
  ℕ, ◌^◌, ◌<◌, ◌≡◌, refl, sym, ap, ◌∙◌, arith, Bool, true, false, ◌||◌, List, [], ◌∷◌, All, Option,
  none, some, length, map, ◌==◌, if◌then◌else◌, take,
}
use byzantine_agreement.Msg.{Message}
use byzantine_agreement.Wire.{ack_buf}
use byzantine_agreement.Wire.Sizes.{round_of_ack-ack_buf}
use byzantine_agreement.Udp.{
  continue, stop, Errno, is_errno_timeout, got, failed, Attempt, acked, exhausted, bufsize,
}
use byzantine_agreement.Udp.Send.{verdict_of, send_with_ack-verdict_of}
use byzantine_agreement.Generals.Base.{is_valid_ack, send_message, send_attempts}

-- What comes back after one attempt: nothing before the timeout, or the acknowledgement of a round.
abbrev pub answered : Option ℕ → Attempt
answered none = record { sent = true; reply = failed Errno.eagain }
answered (some r) = record { sent = true; reply = got (ack_buf r) }

-- A round that an acknowledgement can carry.
abbrev pub IsWord : Option ℕ → Type 0
IsWord none = Unit
IsWord (some r) = r < 2 ^ 32

-- Whether some answer acknowledges the round.
abbrev pub acknowledges : ℕ → List (Option ℕ) → Bool
acknowledges round [] = false
acknowledges round (none ∷ answers) = acknowledges round answers
acknowledges round (some r ∷ answers) = r == round || acknowledges round answers

take-ack_buf : (r : ℕ) → take bufsize (ack_buf r) ≡ ack_buf r
unfolding ack_buf
take-ack_buf r = refl

is_valid_ack-ack_buf :
    (msg : Message) (r : ℕ)
    → r < 2 ^ 32
    → is_valid_ack msg (take bufsize (ack_buf r)) ≡ (if r == msg.round then stop else continue)
unfolding is_valid_ack
is_valid_ack-ack_buf msg r h = ground (arith, take-ack_buf r, (round_of_ack-ack_buf r msg h).0)

verdict_of-answered :
    (msg : Message) (answers : List (Option ℕ))
    → All IsWord answers
    → verdict_of (length answers) (is_valid_ack msg) (map answered answers)
      ≡ (if acknowledges msg.round answers then acked else exhausted)
unfolding is_errno_timeout
verdict_of-answered msg [] h = refl
verdict_of-answered msg (none ∷ answers) h = ground (arith, verdict_of-answered msg answers h.1)
verdict_of-answered msg (some r ∷ answers) h =
    ground (arith, verdict_of-answered msg answers h.1, is_valid_ack-ack_buf msg r h.0)

-- When each of the three attempts of `SendMessage` is met by a timeout or by the acknowledgement of
-- a 32-bit round, the message counts as acknowledged exactly if some acknowledgement carries the
-- round of the message itself; otherwise the attempts are used up.
pub send_message-acknowledges :
    (msg : Message) (answers : List (Option ℕ))
    → length answers ≡ send_attempts
    → All IsWord answers
    → (send_message msg (map answered answers)).1
      ≡ (if acknowledges msg.round answers then acked else exhausted)
unfolding send_message
send_message-acknowledges msg answers three h =
    send_with_ack-verdict_of send_attempts (is_valid_ack msg) (map answered answers) (omega arith)
      (omega arith)
    ∙ (ap (λ k. verdict_of k (is_valid_ack msg) (map answered answers)) (sym three)
        ∙ verdict_of-answered msg answers h)
