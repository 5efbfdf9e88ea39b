-- ===== src/Generals/Network/Taking.antt =====
-- The invariant of a lieutenant in a network over a message: `Lieutenant::Decide` of
-- src/general.cc.
use byzantine_agreement.Common.{
  ℕ, ◌^◌, ◌<◌, ◌≡◌, ◌≢◌, ◌⊎◌, refl, sym, inl, inr, arith, Bool, true, not, ◌&&◌, ◌==◌, Bool-cases,
}
use mathlib.Core.List.{Memᴰ}
use byzantine_agreement.OrderedSet.{insert, member, size}
use byzantine_agreement.OrderedSet.Laws.{IsOrdered, insert-IsOrdered, member-insert_self}
use byzantine_agreement.OrderedSet.Members.{
  Memᴰ-insert, Memᴰ-insert_old, Memᴰ-insert_self, member-insert_cases, member-insert_old,
}
use byzantine_agreement.OrderedSet.Vectors.{list_order}
use byzantine_agreement.Msg.{Order, Message, order_eq, order_code}
use byzantine_agreement.Msg.Less.{order_order, message_order, order_eq_iff}
use byzantine_agreement.Udp.{Client}
use byzantine_agreement.Generals.Base.{Platform, first_round}
use byzantine_agreement.Generals.Lieutenant.{Lieutenant, take_first, take_later, take_message}
use byzantine_agreement.Generals.Lieutenant.Changes.{acked}
use byzantine_agreement.Generals.Network.{Node}
use byzantine_agreement.Generals.Network.Spread.{
  Sees, Relayed, IsSound, IsFull, Local, IsKept, Grows,
}

-- The message without its order.
abbrev pub emptied : Message → Message
emptied m = record m { order = Order.no_order }

-- What is done with the orders and the messages: nothing, or the message's order is new, or the
-- message is kept without its order.
pub data Taken (l : Lieutenant) (m : Message) (l' : Lieutenant) : Type 0 where
  ignored : l'.orders_seen ≡ l.orders_seen → l'.msgs_this_round ≡ l.msgs_this_round → Taken l m l'
  noted :
      m.order ≢ Order.no_order
      → l'.orders_seen ≡ insert m.order l.orders_seen
      → l'.msgs_this_round ≡ insert m l.msgs_this_round
      → Taken l m l'
  known :
      l'.orders_seen ≡ l.orders_seen
      → l'.msgs_this_round ≡ insert (emptied m) l.msgs_this_round
      → Taken l m l'

pub real_order :
    (o : Order) (b : Bool) → (not (order_eq o Order.no_order) && b) ≡ true → o ≢ Order.no_order
real_order o b h e = ground (arith, h, (order_eq_iff o Order.no_order).1 e)

pub take_message-Taken : (l : Lieutenant) (m : Message) → Taken l m (take_message l m).0
unfolding take_message take_first take_later
take_message-Taken l m = elim (Bool-cases (first_round l.general)) [
  | inl f ↦ elim (Bool-cases (not (order_eq m.order Order.no_order) && size l.orders_seen == 0)) [
    | inl h ↦ rw (f, h) (noted (real_order m.order _ h) refl refl)
    | inr h ↦ rw (f, h) (ignored refl refl)
  ]
  | inr f ↦ elim (Bool-cases (member m.ids l.ids_this_round)) [
    | inl h ↦ rw (f, h) (ignored refl refl)
    | inr h ↦
        elim (Bool-cases
          (not (order_eq m.order Order.no_order) && not (member m.order l.orders_seen))) [
            | inl k ↦ rw (f, h, k) (noted (real_order m.order _ k) refl refl)
            | inr k ↦ rw (f, h, k) (known refl refl)
          ]
  ]
]

-- Taking a message starts nothing and leaves the general as it is.
pub take_message-general :
    (l : Lieutenant) (m : Message)
    → ((take_message l m).0.general ≡ l.general) × ((take_message l m).0.started ≡ l.started)
unfolding take_message take_first take_later
take_message-general l m = ground arith

no_order_fits : order_code Order.no_order < 2 ^ 32
unfolding order_code
no_order_fits = omega arith

module _ (n : ℕ) (loyal : ℕ → Bool) (s : ℕ → Node) (p : ℕ → Platform) (faulty a : ℕ)
    (l l' : Lieutenant) (m : Message) (same_general : l'.general ≡ l.general)
    (same_started : l'.started ≡ l.started) (full : IsFull n loyal l.general m)
    (sound : IsSound n loyal s m) (h : Local n loyal s p faulty a l) where
  -- The invariant, given what depends on the orders and the messages.
  with_sets :
      IsOrdered l'.orders_seen
      → ((v : Order) → Sees l' v → v ≢ Order.no_order)
      → ((k : Message)
          → Memᴰ k l'.msgs_this_round
          → IsFull n loyal l.general k
            × IsSound n loyal s k
            × (k.order ≢ Order.no_order → Sees l' k.order))
      → ((v : Order)
          → Sees l' v
          → ((v ≢ Order.no_order) × IsKept l' v) ⊎ Relayed n loyal s a l.started v)
      → Local n loyal s p faulty a l'
  with_sets o c k d = record {
    placed = rw same_general h.placed;
    within = rw same_general h.within;
    ordered = o;
    real = c;
    kept_full = λ m q. rw same_general (k m q).0;
    kept_sound = λ m q. (k m q).1;
    kept_seen = λ m q. (k m q).2;
    sent_sound = λ q m z. h.sent_sound q m (rw same_started at z);
    sent_wide = λ q m z. h.sent_wide q m (rw same_started at z);
    spread = λ v q. rw same_started (d v q);
  }

  kept_before :
      ((v : Order) → Sees l v → Sees l' v)
      → (k : Message) → Memᴰ k l.msgs_this_round
      → IsFull n loyal l.general k
        × IsSound n loyal s k
        × (k.order ≢ Order.no_order → Sees l' k.order)
  kept_before g k q = (h.kept_full k q, h.kept_sound k q, λ z. g k.order (h.kept_seen k q z))

  spread_before :
      ((k : Message) → Memᴰ k l.msgs_this_round → Memᴰ k l'.msgs_this_round)
      → (v : Order) → Sees l v
      → ((v ≢ Order.no_order) × IsKept l' v) ⊎ Relayed n loyal s a l.started v
  spread_before g v q = elim (h.spread v q) [
    | inl (z, (k, i, e)) ↦ inl (z, (k, g k i, e))
    | inr r ↦ inr r
  ]

  Taken-Local : Taken l m l' → Local n loyal s p faulty a l'
  Taken-Local (ignored o k) =
      with_sets (rw o h.ordered) (rw o h.real) (λ m' q. kept_before (λ v z. rw o z) m' (rw k at q))
        (λ v q. spread_before (λ m' z. rw k z) v (rw o at q))
  Taken-Local (noted real o k) =
      with_sets (rw o (insert-IsOrdered m.order l.orders_seen h.ordered)) all_real all_kept
        all_spread
    where
      grown : (v : Order) → Sees l v → Sees l' v
      grown v q = rw o (member-insert_old v m.order l.orders_seen q)

      all_real : (v : Order) → Sees l' v → v ≢ Order.no_order
      all_real v q = elim (member-insert_cases v m.order l.orders_seen (rw o at q)) [
        | inl e ↦ rw e real
        | inr i ↦ h.real v i
      ]

      all_kept :
          (m' : Message)
          → Memᴰ m' l'.msgs_this_round
          → IsFull n loyal l.general m'
            × IsSound n loyal s m'
            × (m'.order ≢ Order.no_order → Sees l' m'.order)
      all_kept m' q = elim (Memᴰ-insert m l.msgs_this_round (rw k at q)) [
        | inl e ↦ rw e (full, sound, λ z. rw o (member-insert_self m.order l.orders_seen))
        | inr i ↦ kept_before grown m' i
      ]

      all_spread :
          (v : Order)
          → Sees l' v
          → ((v ≢ Order.no_order) × IsKept l' v) ⊎ Relayed n loyal s a l.started v
      all_spread v q = elim (member-insert_cases v m.order l.orders_seen (rw o at q)) [
        | inl e ↦ inl (rw e real, (m, rw k (Memᴰ-insert_self m l.msgs_this_round), sym e))
        | inr i ↦ spread_before (λ m' z. rw k (Memᴰ-insert_old m l.msgs_this_round z)) v i
      ]
  Taken-Local (known o k) =
      with_sets (rw o h.ordered) (rw o h.real)
        (λ m' q. elim (Memᴰ-insert (emptied m) l.msgs_this_round (rw k at q)) [
          | inl e ↦ rw e (emptied_full, emptied_sound, λ z. absurd (z refl))
          | inr i ↦ kept_before (λ v z. rw o z) m' i
        ])
        (λ v q.
          spread_before (λ m' z. rw k (Memᴰ-insert_old (emptied m) l.msgs_this_round z)) v
            (rw o at q))
    where
      emptied_full : IsFull n loyal l.general (emptied m)
      emptied_full = record {
        not_later = full.not_later;
        one_id_each = full.one_id_each;
        commander_first = full.commander_first;
        others = full.others;
        no_id_twice = full.no_id_twice;
      }

      emptied_sound : IsSound n loyal s (emptied m)
      emptied_sound = record { fits = no_order_fits; honest = λ z. absurd (z refl) }

acked-Local :
    (n : ℕ) (loyal : ℕ → Bool) (s : ℕ → Node) (p : ℕ → Platform) (faulty a : ℕ) (l : Lieutenant)
    (client : Client)
    → Local n loyal s p faulty a l
    → Local n loyal s p faulty a (acked l client)
unfolding acked
acked-Local n loyal s p faulty a l client h = record {
  placed = h.placed;
  within = h.within;
  ordered = h.ordered;
  real = h.real;
  kept_full = h.kept_full;
  kept_sound = h.kept_sound;
  kept_seen = h.kept_seen;
  sent_sound = h.sent_sound;
  sent_wide = h.sent_wide;
  spread = h.spread;
}

-- Taking a message keeps the invariant.
pub take_message-Local :
    (n : ℕ) (loyal : ℕ → Bool) (s : ℕ → Node) (p : ℕ → Platform) (faulty a : ℕ) (l : Lieutenant)
    (client : Client) (m : Message)
    → IsFull n loyal l.general m
    → IsSound n loyal s m
    → Local n loyal s p faulty a l
    → Local n loyal s p faulty a (take_message (acked l client) m).0
unfolding acked
take_message-Local n loyal s p faulty a l client m full sound h =
    let (g, b) = take_message-general (acked l client) m in
    Taken-Local n loyal s p faulty a (acked l client) (take_message (acked l client) m).0 m g b full
      sound (acked-Local n loyal s p faulty a l client h) (take_message-Taken (acked l client) m)

-- A lieutenant that takes a message forgets nothing.
pub take_message-Grows :
    (l : Lieutenant) (client : Client) (m : Message) → Grows l (take_message (acked l client) m).0
unfolding acked
take_message-Grows l client m =
    let (g, b) = take_message-general (acked l client) m in
    (orders (take_message-Taken (acked l client) m), λ c q. rw b q)
  where
    orders : {l' : Lieutenant} → Taken (acked l client) m l' → (v : Order) → Sees l v → Sees l' v
    orders (ignored o k) v q = rw o q
    orders (noted real o k) v q = rw o (member-insert_old v m.order l.orders_seen q)
    orders (known o k) v q = rw o q
