-- ===== src/Generals/Senders/Sent.antt =====
-- What a thread sends of its batch: the bodies in `InitNewRound` of src/general.cc.
use byzantine_agreement.Common.{
  ℕ, ◌≡◌, refl, ap, ◌∙◌, arith, Bool, true, false, ◌+◌, List, [], ◌∷◌, All, Option, ok, length, map,
  if◌then◌else◌,
}
use byzantine_agreement.Msg.{Message}
use byzantine_agreement.Wire.{message_buf}
use byzantine_agreement.Udp.{Client, SendOutcome, acked, exhausted}
use byzantine_agreement.Generals.Base.{
  General, Turn, client_for_id, maybe_delay_send, send_message, send_attempts,
}
use byzantine_agreement.Generals.Forward.{Batch}
use byzantine_agreement.Generals.Acks.{answered, IsWord, acknowledges, send_message-acknowledges}
use byzantine_agreement.Generals.Senders.{finished, Ran, after_send, send_each, run_batch}

-- Every attempt is met by a timeout or by an acknowledgement.
pub record IsAnswered (t : Turn) : Type 0 where
  pub answers : List (Option ℕ)
  pub three : length answers ≡ send_attempts
  pub words : All IsWord answers
  pub are : t.attempts ≡ map answered answers

acknowledged_or_given_up :
    (b : Bool) (buf : List ℕ) (delay : ℕ) (next : Ran)
    → after_send delay (buf, if b then acked else exhausted) next
      ≡ record next { slept = delay + next.slept; sent = buf ∷ next.sent }
unfolding after_send
acknowledged_or_given_up true buf delay next = refl
acknowledged_or_given_up false buf delay next = refl

after_answered :
    (g : General) (msg : Message) (t : Turn) (next : Ran)
    → IsAnswered t
    → after_send (maybe_delay_send g t.draw) (send_message msg t.attempts) next ≡ record next {
      slept = maybe_delay_send g t.draw + next.slept;
      sent = message_buf msg ∷ next.sent;
    }
unfolding send_message
after_answered g msg t next h =
    let sent : send_message msg t.attempts
        ≡ (message_buf msg, if acknowledges msg.round h.answers then acked else exhausted) =
      ap (send_message msg) h.are
      ∙ ap (λ (o : SendOutcome). (message_buf msg, o))
          (send_message-acknowledges msg h.answers h.three h.words) in
    ap (λ (k : List ℕ × SendOutcome). after_send (maybe_delay_send g t.draw) k next) sent
    ∙ acknowledged_or_given_up (acknowledges msg.round h.answers) (message_buf msg)
        (maybe_delay_send g t.draw) next

pub send_each-answered :
    (g : General) (msgs : List Message) (turns : List Turn)
    → length turns ≡ length msgs
    → All IsAnswered turns
    → ((send_each g msgs turns).sent ≡ map message_buf msgs)
      × ((send_each g msgs turns).ending ≡ finished)
unfolding send_each
send_each-answered g [] turns n h = (refl, refl)
send_each-answered g (msg ∷ msgs) [] n h = absurd (omega arith)
send_each-answered g (msg ∷ msgs) (t ∷ turns) n h =
    let ih = send_each-answered g msgs turns (omega arith) h.1 in
    rw (after_answered g msg t (send_each g msgs turns) h.0)
      (ap (λ k. message_buf msg ∷ k) ih.0, ih.1)

-- When each attempt for each message of a batch is met by a timeout or by the acknowledgement of a
-- 32-bit round, the thread of the batch sends every message, in order, and finishes, also when none
-- is ever acknowledged; provided that the process it sends to has a client.
pub run_batch-answered :
    (g : General) (b : Batch) (turns : List Turn) (client : Client)
    → client_for_id g b.pid ≡ ok client
    → length turns ≡ length b.msgs
    → All IsAnswered turns
    → ((run_batch g b turns).sent ≡ map message_buf b.msgs)
      × ((run_batch g b turns).ending ≡ finished)
unfolding run_batch
run_batch-answered g b turns client c n h =
    rw (c, run_batch) (send_each-answered g b.msgs turns n h)
