-- ===== src/Generals/Lieutenant/Choice.antt =====
-- `DecideOrder` of src/general.cc, against the choice that src/general.h describes.
use byzantine_agreement.Common.{
  ◌≡◌, ◌≢◌, ◌⊎◌, inl, inr, arith, true, List, [], ◌∷◌, ◌&&◌, length, ◌==◌, Bool-cases,
}
use byzantine_agreement.OrderedSet.{member}
use byzantine_agreement.OrderedSet.Laws.{same→eq, same_self}
use byzantine_agreement.Msg.{Order}
use byzantine_agreement.Msg.Less.{order_order}
use byzantine_agreement.Generals.Lieutenant.{Lieutenant, decide_order}

one_member : (o : Order) (s : List Order) → (length s == 1 && member o s) ≡ true → s ≡ o ∷ []
unfolding member
one_member o [] h = cc
one_member o (x ∷ []) h = ground (arith, same→eq o x)
one_member o (x ∷ y ∷ s) h = ground arith

attack_alone : (length (Order.attack ∷ []) == 1 && member Order.attack (Order.attack ∷ [])) ≡ true
unfolding member
attack_alone = ground (arith, same_self Order.attack)

-- A lieutenant decides to attack exactly when attack is the one order that it has seen, and decides
-- to retreat otherwise.
pub decide_order-choice :
    (l : Lieutenant)
    → ((l.orders_seen ≡ Order.attack ∷ []) × (decide_order l ≡ Order.attack))
      ⊎ ((l.orders_seen ≢ Order.attack ∷ []) × (decide_order l ≡ Order.retreat))
unfolding decide_order
decide_order-choice l =
    elim (Bool-cases (length l.orders_seen == 1 && member Order.attack l.orders_seen)) [
      | inl e ↦ inl (one_member Order.attack l.orders_seen e, rw e)
      | inr e ↦ inr (λ q. cc (rw q at e, attack_alone), rw e)
    ]
