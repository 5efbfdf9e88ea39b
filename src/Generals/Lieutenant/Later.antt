-- ===== src/Generals/Lieutenant/Later.antt =====
-- What the handler of `Lieutenant::Decide` in src/general.cc does with a message in a later round.
use byzantine_agreement.Common.{
  ℕ, ◌≡◌, ◌≢◌, ◌⊎◌, refl, sym, inl, inr, arith, true, false, not, ◌&&◌, ◌==◌, List, Bool-cases,
}
use byzantine_agreement.OrderedSet.{insert, member}
use byzantine_agreement.OrderedSet.Laws.{IsOrdered, insert-IsOrdered, member-insert_self}
use byzantine_agreement.OrderedSet.Members.{member-insert_cases, member-insert_old}
use byzantine_agreement.OrderedSet.Vectors.{list_order}
use byzantine_agreement.Msg.{Order, Message, order_eq}
use byzantine_agreement.Msg.Less.{order_order, message_order, order_eq_iff}
use byzantine_agreement.Generals.Base.{first_round}
use byzantine_agreement.Generals.Lieutenant.{Lieutenant, take_later, take_message}

-- What one message does in a later round.
pub record Step (l : Lieutenant) (m : Message) (l' : Lieutenant) : Type 0 where
  pub same_round : l'.round ≡ l.round
  pub orders_ordered : IsOrdered l'.orders_seen
  pub ids_ordered : IsOrdered l'.ids_this_round
  pub orders_kept : (v : Order) → member v l.orders_seen ≡ true → member v l'.orders_seen ≡ true
  pub ids_kept :
      (ids : List ℕ) → member ids l.ids_this_round ≡ true → member ids l'.ids_this_round ≡ true
  pub listed : member m.ids l'.ids_this_round ≡ true
  pub ids_from :
      (ids : List ℕ)
      → member ids l'.ids_this_round ≡ true
      → (ids ≡ m.ids) ⊎ (member ids l.ids_this_round ≡ true)
  pub seen :
      member m.ids l.ids_this_round ≡ false
      → m.order ≢ Order.no_order
      → member m.order l'.orders_seen ≡ true
  pub orders_from :
      (v : Order)
      → member v l'.orders_seen ≡ true
      → (member v l.orders_seen ≡ true)
        ⊎ ((member m.ids l.ids_this_round ≡ false) × (m.order ≡ v) × (v ≢ Order.no_order))

nothing-Step :
    (l : Lieutenant) (m : Message)
    → IsOrdered l.orders_seen
    → IsOrdered l.ids_this_round
    → member m.ids l.ids_this_round ≡ true
    → Step l m l
nothing-Step l m o i h = record {
  same_round = refl;
  orders_ordered = o;
  ids_ordered = i;
  orders_kept = λ v y. y;
  ids_kept = λ ids y. y;
  listed = h;
  ids_from = λ ids y. inr y;
  seen = λ n z. cc (h, n);
  orders_from = λ v y. inl y;
}

new_order-Step :
    (l : Lieutenant) (m : Message) {ms : List Message}
    → IsOrdered l.orders_seen
    → IsOrdered l.ids_this_round
    → member m.ids l.ids_this_round ≡ false
    → m.order ≢ Order.no_order
    → Step l m (record l {
      orders_seen = insert m.order l.orders_seen;
      ids_this_round = insert m.ids l.ids_this_round;
      msgs_this_round = ms;
    })
new_order-Step l m o i h real = record {
  same_round = refl;
  orders_ordered = insert-IsOrdered m.order l.orders_seen o;
  ids_ordered = insert-IsOrdered m.ids l.ids_this_round i;
  orders_kept = λ v y. member-insert_old v m.order l.orders_seen y;
  ids_kept = λ ids y. member-insert_old ids m.ids l.ids_this_round y;
  listed = member-insert_self m.ids l.ids_this_round;
  ids_from = λ ids y. member-insert_cases ids m.ids l.ids_this_round y;
  seen = λ n z. member-insert_self m.order l.orders_seen;
  orders_from = λ v y. elim (member-insert_cases v m.order l.orders_seen y) [
    | inl e ↦ inr (h, sym e, rw e real)
    | inr y' ↦ inl y'
  ];
}

old_order-Step :
    (l : Lieutenant) (m : Message) {ms : List Message}
    → IsOrdered l.orders_seen
    → IsOrdered l.ids_this_round
    → (m.order ≢ Order.no_order → member m.order l.orders_seen ≡ true)
    → Step l m (record l { ids_this_round = insert m.ids l.ids_this_round; msgs_this_round = ms })
old_order-Step l m o i known = record {
  same_round = refl;
  orders_ordered = o;
  ids_ordered = insert-IsOrdered m.ids l.ids_this_round i;
  orders_kept = λ v y. y;
  ids_kept = λ ids y. member-insert_old ids m.ids l.ids_this_round y;
  listed = member-insert_self m.ids l.ids_this_round;
  ids_from = λ ids y. member-insert_cases ids m.ids l.ids_this_round y;
  seen = λ n z. known z;
  orders_from = λ v y. inl y;
}

take_later-Step :
    (l : Lieutenant) (m : Message)
    → IsOrdered l.orders_seen
    → IsOrdered l.ids_this_round
    → Step l m (take_later l m).0
unfolding take_later
take_later-Step l m o i = elim (Bool-cases (member m.ids l.ids_this_round)) [
  | inl h ↦ rw h (nothing-Step l m o i h)
  | inr h ↦
      elim (Bool-cases
        (not (order_eq m.order Order.no_order) && not (member m.order l.orders_seen))) [
          | inl k ↦
              rw (h, k)
                (new_order-Step l m o i h
                  (λ z. ground (arith, k, z, (order_eq_iff m.order Order.no_order).1)))
          | inr k ↦
              rw (h, k)
                (old_order-Step l m o i
                  (λ z. ground (arith, k, z, (order_eq_iff m.order Order.no_order).0)))
        ]
]

-- A later round, with both sets in order.
pub record IsLater (l : Lieutenant) : Type 0 where
  pub not_first : l.round ≢ 0
  pub orders : IsOrdered l.orders_seen
  pub ids : IsOrdered l.ids_this_round

pub take_message-Step : (l : Lieutenant) (m : Message) → IsLater l → Step l m (take_message l m).0
unfolding take_message first_round
take_message-Step l m h = elim (Bool-cases (l.round == 0)) [
  | inl z ↦ absurd (h.not_first (ground (arith, z)))
  | inr z ↦ rw z (take_later-Step l m h.orders h.ids)
]

pub Step-IsLater : (l l' : Lieutenant) (m : Message) → Step l m l' → IsLater l → IsLater l'
Step-IsLater l l' m st h = record {
  not_first = rw st.same_round h.not_first;
  orders = st.orders_ordered;
  ids = st.ids_ordered;
}
