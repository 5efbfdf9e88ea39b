-- ===== src/Generals/Senders/Tests.antt =====
-- The thread of a batch at a concrete input.
use byzantine_agreement.Common.{◌≡◌, refl, arith, [], ◌∷◌, none, some, map, ok}
use byzantine_agreement.Common.Int.{pos}
use byzantine_agreement.Net.{address_eq}
use byzantine_agreement.Wire.{message_buf}
use byzantine_agreement.Generals.Base.{General, Turn, client_for_id, find_client}
use byzantine_agreement.Generals.Forward.{Batch}
use byzantine_agreement.Generals.Acks.{answered}
use byzantine_agreement.Generals.Senders.{run_batch, finished}
use byzantine_agreement.Generals.Senders.Sent.{IsAnswered, run_batch-answered}
use byzantine_agreement.Generals.Scenario.{
  general, address, client_on, first_message, second_message,
}

abbrev sender : General
sender = record (general 1) { clients = (address b'd', client_on b'd') ∷ [] }

abbrev batch : Batch
batch = record { pid = 3; msgs = second_message ∷ first_message ∷ [] }

-- Nothing comes back for the first message, and the second is acknowledged at once.
abbrev unheard : Turn
unheard = record { draw = pos 3; attempts = map answered (none ∷ none ∷ none ∷ []) }

abbrev heard : Turn
heard = record { draw = pos 3; attempts = map answered (some 0 ∷ none ∷ none ∷ []) }

sender_client : client_for_id sender 3 ≡ ok (client_on b'd')
unfolding client_for_id find_client address_eq
sender_client = refl

unheard-IsAnswered : IsAnswered unheard
unheard-IsAnswered = record {
  answers = none ∷ none ∷ none ∷ [];
  three = refl;
  words = (tt, (tt, (tt, tt)));
  are = refl;
}

heard-IsAnswered : IsAnswered heard
heard-IsAnswered = record {
  answers = some 0 ∷ none ∷ none ∷ [];
  three = refl;
  words = (omega arith, (tt, (tt, tt)));
  are = refl;
}

run_batch-answered_example :
    ((run_batch sender batch (unheard ∷ heard ∷ [])).sent ≡ map message_buf batch.msgs)
    × ((run_batch sender batch (unheard ∷ heard ∷ [])).ending ≡ finished)
run_batch-answered_example =
    run_batch-answered sender batch (unheard ∷ heard ∷ []) (client_on b'd') sender_client refl
      (unheard-IsAnswered, (heard-IsAnswered, tt))
