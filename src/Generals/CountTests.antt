-- ===== src/Generals/CountTests.antt =====
-- The number of messages for a round, at concrete inputs.
use byzantine_agreement.Common.{◌≡◌, arith}
use byzantine_agreement.Generals.Count.{messages_for_round, messages_for_round-falling}

messages_for_round-falling_example : messages_for_round 7 3 ≡ 60
messages_for_round-falling_example =
    messages_for_round-falling 7 3 (omega arith) (omega arith) (omega arith)
