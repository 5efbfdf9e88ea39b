-- ===== src/Generals/AcksTests.antt =====
-- Acknowledgements of a message at a concrete input.
use byzantine_agreement.Common.{ℕ, ◌≡◌, refl, arith, List, [], ◌∷◌, Option, none, some, map}
use byzantine_agreement.Udp.{exhausted}
use byzantine_agreement.Generals.Base.{send_message}
use byzantine_agreement.Generals.Acks.{answered, send_message-acknowledges}
use byzantine_agreement.Generals.Scenario.{first_message}

-- A receiver that is in round 1 when the commander's message comes: its acknowledgements do not
-- count.
abbrev late_answers : List (Option ℕ)
late_answers = none ∷ some 1 ∷ some 1 ∷ []

send_message-acknowledges_example :
    (send_message first_message (map answered late_answers)).1 ≡ exhausted
send_message-acknowledges_example =
    send_message-acknowledges first_message late_answers refl (tt, (omega arith, (omega arith, tt)))
