-- ===== src/Generals/Network/Listing.antt =====
-- What a lieutenant lists of a message in `Lieutenant::Decide` of src/general.cc, by its ids.
use byzantine_agreement.Common.{
  ◌≡◌, ◌≢◌, refl, inl, inr, arith, Bool, true, false, not, ◌&&◌, ◌==◌, List, [], ◌∷◌, Bool-cases,
}
use byzantine_agreement.OrderedSet.{insert, member, size}
use byzantine_agreement.OrderedSet.Laws.{member-insert_self}
use byzantine_agreement.OrderedSet.Members.{member-insert_old}
use byzantine_agreement.OrderedSet.Vectors.{list_order}
use byzantine_agreement.Msg.{Order, Message, order_eq}
use byzantine_agreement.Msg.Less.{order_order, message_order, order_eq_iff}
use byzantine_agreement.Generals.Base.{first_round}
use byzantine_agreement.Generals.Lieutenant.{Lieutenant, take_first, take_later, take_message}
use byzantine_agreement.Generals.Network.Spread.{Sees}

-- What is done with a message, by its ids: nothing, or it is the first order at all, or its ids are
-- new in the round.
pub data Listed (l : Lieutenant) (m : Message) (l' : Lieutenant) : Type 0 where
  nothing :
      (l.round ≢ 0 → member m.ids l.ids_this_round ≡ true)
      → l'.orders_seen ≡ l.orders_seen
      → l'.msgs_this_round ≡ l.msgs_this_round
      → l'.ids_this_round ≡ l.ids_this_round
      → Listed l m l'
  initial :
      l.round ≡ 0
      → l.orders_seen ≡ []
      → l'.orders_seen ≡ insert m.order l.orders_seen
      → l'.msgs_this_round ≡ insert m l.msgs_this_round
      → l'.ids_this_round ≡ l.ids_this_round
      → Listed l m l'
  fresh :
      (k : Message)
      → l.round ≢ 0
      → member m.ids l.ids_this_round ≡ false
      → k.ids ≡ m.ids
      → l'.msgs_this_round ≡ insert k l.msgs_this_round
      → l'.ids_this_round ≡ insert m.ids l.ids_this_round
      → (m.order ≢ Order.no_order → Sees l' m.order)
      → ((v : Order) → Sees l v → Sees l' v)
      → Listed l m l'

known_order :
    (o : Order) (s : List Order)
    → (not (order_eq o Order.no_order) && not (member o s)) ≡ false
    → o ≢ Order.no_order
    → member o s ≡ true
known_order o s h e = ground (arith, (order_eq_iff o Order.no_order).0)

none_seen : (s : List Order) (b : Bool) → (b && size s == 0) ≡ true → s ≡ []
none_seen [] b h = refl
none_seen (x ∷ s) b h = absurd (ground (arith, h))

pub take_message-Listed : (l : Lieutenant) (m : Message) → Listed l m (take_message l m).0
unfolding take_message take_first take_later first_round
take_message-Listed l m = elim (Bool-cases (l.round == 0)) [
  | inl f ↦ elim (Bool-cases (not (order_eq m.order Order.no_order) && size l.orders_seen == 0)) [
    | inl h ↦ rw (f, h) (initial (ground (arith, f)) (none_seen l.orders_seen _ h) refl refl refl)
    | inr h ↦ rw (f, h) (nothing (λ z. absurd (z (ground (arith, f)))) refl refl refl)
  ]
  | inr f ↦ elim (Bool-cases (member m.ids l.ids_this_round)) [
    | inl h ↦ rw (f, h) (nothing (λ _. h) refl refl refl)
    | inr h ↦
        elim (Bool-cases
          (not (order_eq m.order Order.no_order) && not (member m.order l.orders_seen))) [
            | inl k ↦
                rw (f, h, k)
                  (fresh m (ground (arith, f)) h refl refl refl
                    (λ _. member-insert_self m.order l.orders_seen)
                    (λ v q. member-insert_old v m.order l.orders_seen q))
            | inr k ↦
                rw (f, h, k)
                  (fresh (record m { order = Order.no_order }) (ground (arith, f)) h refl refl refl
                    (λ z. known_order m.order l.orders_seen k z) (λ v q. q))
          ]
  ]
]
