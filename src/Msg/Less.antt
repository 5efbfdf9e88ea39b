-- ===== src/Msg/Less.antt =====
-- The order of messages, `operator<` of src/message.cc, on which `std::set<Message>` relies.
use byzantine_agreement.Common.{
  ℕ, ◌≡◌, ◌≢◌, ◌⊎◌, refl, arith, true, false, list_eq_self, list_eq→eq, ◌↔◌, Bool-cases, inl, inr,
  List,
}
use byzantine_agreement.OrderedSet.{StrictOrder}
use byzantine_agreement.OrderedSet.Vectors.{
  list_ltb, list_ltb_irrefl, list_ltb_trans, list_ltb-total,
}
use byzantine_agreement.Msg.{
  Order, Message, order_code, order_of_code, order_eq, order_less, message_less,
}

-- Casting to a number and back gives the order.
pub order_of_code-order_code : (a : Order) → order_of_code (order_code a) ≡ a
unfolding order_of_code order_code
order_of_code-order_code Order.retreat = refl
order_of_code-order_code a = ground arith

pub order_code-injective : (a b : Order) → order_code a ≡ order_code b → a ≡ b
unfolding order_code
order_code-injective a b h = ground arith

pub order_eq_iff : (a b : Order) → (order_eq a b ≡ true) ↔ (a ≡ b)
unfolding order_eq order_code
order_eq_iff a b = ground arith

pub order_less_irrefl : (a : Order) → order_less a a ≡ false
unfolding order_less
order_less_irrefl a = ground arith

pub order_less_trans :
    (a b c : Order) → order_less a b ≡ true → order_less b c ≡ true → order_less a c ≡ true
unfolding order_less
order_less_trans a b c p q = ground arith

pub order_less-total : (a b : Order) → order_less a b ≡ false → order_less b a ≡ false → a ≡ b
unfolding order_less
order_less-total a b p q = ground (arith, order_code-injective a b)

instance abbrev pub order_order : StrictOrder Order
order_order = record {
  less = order_less;
  less-irrefl = order_less_irrefl;
  less-trans = order_less_trans;
  less-total = order_less-total;
}

list_ltb-asymm : (a b : List ℕ) → list_ltb a b ≡ true → list_ltb b a ≡ false
list_ltb-asymm a b p = elim (Bool-cases (list_ltb b a)) [
  | inl q ↦ cc (list_ltb_trans a b a p q, list_ltb_irrefl a)
  | inr q ↦ q
]

pub message_less_irrefl : (a : Message) → message_less a a ≡ false
unfolding message_less
message_less_irrefl a = ground (arith, list_eq_self a.ids, order_less_irrefl a.order)

-- The order of messages is transitive.
pub message_less_trans :
    (a b c : Message) → message_less a b ≡ true → message_less b c ≡ true → message_less a c ≡ true
unfolding message_less
message_less_trans a b c p q = ground (
  arith,
  list_ltb_trans a.ids b.ids c.ids,
  order_less_trans a.order b.order c.order,
  list_eq→eq a.ids b.ids,
  list_eq→eq b.ids c.ids,
  list_eq→eq a.ids c.ids,
  list_eq_self a.ids,
  list_ltb-asymm a.ids b.ids,
)

pub message_less-total :
    (a b : Message) → message_less a b ≡ false → message_less b a ≡ false → a ≡ b
unfolding message_less
message_less-total a b p q = ground (
  arith,
  list_ltb-total a.ids b.ids,
  list_eq→eq a.ids b.ids,
  list_eq→eq b.ids a.ids,
  list_eq_self a.ids,
  order_less-total a.order b.order,
)

instance abbrev pub message_order : StrictOrder Message
message_order = record {
  less = message_less;
  less-irrefl = message_less_irrefl;
  less-trans = message_less_trans;
  less-total = message_less-total;
}

-- Of two messages exactly one of three holds: the first is less, they are equal, or the second is
-- less.
pub message_less-trichotomy :
    (a b : Message)
    → ((message_less a b ≡ true) × (message_less b a ≡ false) × (a ≢ b))
      ⊎ ((message_less a b ≡ false) × (message_less b a ≡ false) × (a ≡ b))
      ⊎ ((message_less a b ≡ false) × (message_less b a ≡ true) × (a ≢ b))
message_less-trichotomy a b =
    grind (arith, message_less_irrefl a, message_less_trans a b a, message_less-total a b)
