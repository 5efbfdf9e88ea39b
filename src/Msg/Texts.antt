-- ===== src/Msg/Texts.antt =====
-- The texts of orders and messages: src/message.cc.
use byzantine_agreement.Common.{
  ℕ, ◌≡◌, ◌≢◌, ◌↔◌, arith, list_eq→eq, Text, codes, ok, throw, Exception,
}
use byzantine_agreement.Msg.{Order, Message, string_to_order, order_string, show_message}

-- A text is read as an order exactly when that order is printed as the text and is not
-- `NO_ORDER`.
pub string_to_order-order_string :
    (s : Text) (o : Order)
    → (string_to_order s ≡ ok o) ↔ ((order_string o ≡ ok s) × (o ≢ Order.no_order))
unfolding string_to_order order_string
string_to_order-order_string s o =
    ground (arith, list_eq→eq s (codes "retreat"), list_eq→eq s (codes "attack"))

-- A message cannot be printed exactly when its order is none of the three that have a name.
pub show_message-throws :
    (m : Message)
    → (show_message m ≡ throw Exception.invalid_argument) ↔ ((n : ℕ) × (m.order ≡ Order.other n))
unfolding show_message order_string
show_message-throws m = ground arith
