-- ===== src/Msg/Tests.antt =====
-- The theorems on orders and messages at concrete inputs.
use byzantine_agreement.Common.{
  ℕ, ◌≡◌, ◌≢◌, ◌⊎◌, ◌↔◌, refl, true, false, [], ◌∷◌, ok, throw, Exception, codes,
}
use byzantine_agreement.Msg.{Order, Message, message_less, show_message}
use byzantine_agreement.Msg.Less.{message_less-trichotomy}
use byzantine_agreement.Msg.Texts.{show_message-throws}

abbrev short : Message
short = record { round = 1; order = Order.attack; ids = 0 ∷ [] }

abbrev long : Message
long = record { round = 1; order = Order.retreat; ids = 0 ∷ 2 ∷ [] }

abbrev later : Message
later = record { round = 2; order = Order.other 4; ids = [] }

shown : show_message long ≡ ok (codes "{round: 1, order: retreat, ids: <0 2>}")
unfolding show_message
shown = refl

message_less-trichotomy_example :
    ((message_less short long ≡ true) × (message_less long short ≡ false) × (short ≢ long))
    ⊎ ((message_less short long ≡ false) × (message_less long short ≡ false) × (short ≡ long))
    ⊎ ((message_less short long ≡ false) × (message_less long short ≡ true) × (short ≢ long))
message_less-trichotomy_example = message_less-trichotomy short long

show_message-throws_example :
    (show_message later ≡ throw Exception.invalid_argument)
    ↔ ((n : ℕ) × (Order.other 4 ≡ Order.other n))
show_message-throws_example = show_message-throws later
