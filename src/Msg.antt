-- ===== src/Msg.antt =====
-- src/message.h and src/message.cc: orders, messages, their texts and the order of messages.
pub mod Less
pub mod Texts
mod Tests
use byzantine_agreement.Common.{
  ℕ, zero, suc, ◌+◌, ◌-◌, ◌/◌, ◌%◌, ◌^◌, ◌≡◌, refl, arith, Bool, true, false, not, ◌&&◌, ◌||◌, List,
  [], ◌∷◌, ◌++◌, ltb, leb, ◌==◌, if◌then◌else◌, list_eq, Text, codes, Result, ok, throw, Exception,
  ◌>>=◌,
}
use byzantine_agreement.OrderedSet.Vectors.{list_ltb}

-- `enum class Order`. A cast from the wire lets any other 32-bit value in: `other n` is n + 3.
pub data Order : Type 0 where
  retreat : Order
  attack : Order
  no_order : Order
  other : ℕ → Order

-- `static_cast` to the number of an order, as a 32-bit pattern, and back.
unfoldable pub order_code : Order → ℕ
order_code retreat = 0
order_code attack = 1
order_code no_order = 2
order_code (other n) = n + 3

unfoldable pub order_of_code : ℕ → Order
order_of_code zero = retreat
order_of_code (suc zero) = attack
order_of_code (suc (suc zero)) = no_order
order_of_code (suc (suc (suc n))) = other n

unfoldable pub order_eq : Order → Order → Bool
unfolding order_code
order_eq a b = order_code a == order_code b

-- `<` of two orders: of two `int`s, whose patterns from 2 ^ 31 on are negative.
unfoldable pub order_less : Order → Order → Bool
unfolding order_code
order_less a b =
    let negative = λ (c : ℕ). leb (2 ^ 31) c in
    if negative (order_code a)
    then not (negative (order_code b)) || ltb (order_code a) (order_code b)
    else not (negative (order_code b)) && ltb (order_code a) (order_code b)

unfoldable pub string_to_order : Text → Result Order
string_to_order str =
    if list_eq str (codes "retreat")
    then ok retreat
    else if list_eq str (codes "attack")
    then ok attack
    else throw Exception.invalid_argument

unfoldable pub order_string : Order → Result Text
order_string retreat = ok (codes "retreat")
order_string attack = ok (codes "attack")
order_string no_order = ok (codes "no order")
order_string (other n) = throw Exception.invalid_argument

pub record Message : Type 0 where
  pub round : ℕ
  pub order : Order
  pub ids : List ℕ

-- `operator<`
unfoldable pub message_less : Message → Message → Bool
message_less lhs rhs =
    if not (lhs.round == rhs.round)
    then ltb lhs.round rhs.round
    else if not (list_eq lhs.ids rhs.ids)
    then list_ltb lhs.ids rhs.ids
    else order_less lhs.order rhs.order

-- The decimal digits of a number, as a stream prints it, before those in `tail`. Each round drops
-- a digit, so that fuel above the number is enough.
unfoldable pub decimal_loop : ℕ → ℕ → Text → Text
decimal_loop zero n tail = tail
decimal_loop (suc fuel) n tail =
    let digit = 48 + n % 10 in
    let rest = decimal_loop fuel (n / 10) (digit ∷ tail) in
    if n / 10 == 0 then digit ∷ tail else rest

unfoldable pub decimal : ℕ → Text
unfolding decimal_loop
decimal n = decimal_loop (n + 1) n []

-- The loop over the ids: a space before each but the first.
unfoldable pub show_ids : Bool → List ℕ → Text
unfolding decimal
show_ids first [] = []
show_ids first (id ∷ ids) = (if first then [] else codes " ") ++ decimal id ++ show_ids false ids

-- `operator<<`
unfoldable pub show_message : Message → Result Text
unfolding order_string show_ids
show_message m = do
  order ← order_string m.order
  ok (
      codes "{round: "
      ++ decimal m.round
      ++ codes ", order: "
      ++ order
      ++ codes ", ids: <"
      ++ show_ids true m.ids
      ++ codes ">}")
