-- ===== src/Udp/Tests.antt =====
-- The theorems on sending at concrete inputs.
use byzantine_agreement.Common.{ℕ, ◌≡◌, arith, true, List, [], ◌∷◌}
use byzantine_agreement.Udp.{
  Socket, ServerAction, continue, stop, Errno, got, failed, Attempt, acked, exhausted,
  send_with_ack,
}
use byzantine_agreement.Udp.Send.{send_with_ack-verdict_of}

-- An acknowledgement is valid if it is not empty.
abbrev not_empty : List ℕ → ServerAction
not_empty [] = continue
not_empty (b ∷ bs) = stop

abbrev lost : Attempt
lost = record { sent = true; reply = failed Errno.eagain }

abbrev answered : Attempt
answered = record { sent = true; reply = got (1 ∷ []) }

send_with_ack-verdict_of_example : send_with_ack 3 not_empty (lost ∷ lost ∷ answered ∷ []) ≡ acked
unfolding byzantine_agreement.Udp.is_errno_timeout
send_with_ack-verdict_of_example =
    send_with_ack-verdict_of 3 not_empty (lost ∷ lost ∷ answered ∷ []) (omega arith) (omega arith)
