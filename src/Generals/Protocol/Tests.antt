-- ===== src/Generals/Protocol/Tests.antt =====
-- The theorems on the protocol at concrete inputs.
use byzantine_agreement.Common.{◌≡◌, refl, arith, true, [], ◌∷◌, ok}
use byzantine_agreement.Msg.{Order}
use byzantine_agreement.Generals.Base.{General}
use byzantine_agreement.Generals.Forward.{relayed}
use byzantine_agreement.Generals.Validation.{valid_message}
use byzantine_agreement.Generals.Lieutenant.Valid.{IsValid}
use byzantine_agreement.Generals.Scenario.{address, general, second_message}
use byzantine_agreement.Generals.Protocol.{relayed-accepted, commander-accepted}

abbrev process_three : General
process_three = record (general 2) { id = 3 }

second-IsValid : IsValid (general 2) second_message (address b'c')
second-IsValid = record {
  not_later = omega arith;
  one_id_each = refl;
  commander_first = refl;
  others = omega arith;
  no_id_twice = refl;
  last_id = 2;
  last_is = refl;
  sender = address b'c';
  sender_is = refl;
  from_sender = refl;
}

relayed-accepted_example :
    valid_message process_three (relayed (general 2) second_message) (address b'b') ≡ ok true
relayed-accepted_example =
    relayed-accepted (general 2) process_three second_message (address b'c') (address b'b')
      (address b'b') second-IsValid refl refl refl
      (record { same_list = refl; not_behind = omega arith; few = omega arith }) refl

commander-accepted_example :
    valid_message
      (general 0)
      (record { round = 0; order = Order.retreat; ids = 0 ∷ [] })
      (address b'a')
    ≡ ok true
commander-accepted_example =
    commander-accepted (general 0) Order.retreat (address b'a') (address b'a') (omega arith)
      (omega arith) refl refl
