-- ===== src/Generals/Network/Late.antt =====
-- Messages of an earlier round that reach a lieutenant in its last round, in `Lieutenant::Decide` of
-- src/general.cc.
use byzantine_agreement.Common.{
  ◌≡◌, ◌≢◌, ◌∙◌, inl, inr, arith, true, false, List, [], ◌∷◌, ok, ok-injective, subst,
}
use byzantine_agreement.OrderedSet.{member}
use byzantine_agreement.OrderedSet.Same.{member_cases}
use byzantine_agreement.OrderedSet.Vectors.{list_order}
use byzantine_agreement.Msg.{Order, Message}
use byzantine_agreement.Msg.Less.{order_order}
use byzantine_agreement.Udp.{
  Client, ServerAction, continue, stop, Arrival, Listening, after_action, listen,
}
use byzantine_agreement.Udp.Listen.{state, listen_inv}
use byzantine_agreement.Generals.Base.{Platform, first_round, last_round}
use byzantine_agreement.Generals.Forward.{Batch}
use byzantine_agreement.Generals.Lieutenant.{
  Lieutenant, Readings, accept, without_senders, decide_order, handle_round_timeout, on_receive,
  take_message,
}
use byzantine_agreement.Generals.Lieutenant.Changes.{
  Change, stays, ends, renews, acked, accept-Accepted,
}
use byzantine_agreement.Generals.Lieutenant.Choice.{decide_order-choice}
use byzantine_agreement.Generals.Lieutenant.Served.{Served, only_changes, takes, serve-Served}
use byzantine_agreement.Generals.Network.Listing.{
  Listed, nothing, initial, fresh, take_message-Listed,
}
use byzantine_agreement.Generals.Network.Spread.{Sees}
use byzantine_agreement.Generals.Network.Taking.{take_message-Grows, take_message-general}

module _ (v : Order) (started : List Batch) where
  -- In the last round, with an order seen and some batches started.
  record HasLate (l : Lieutenant) : Type 0 where
    at_last : last_round l.general ≡ true
    sees : Sees l v
    no_more : l.started ≡ started

  Change-HasLate :
      (p : Platform) (l : Lieutenant) (x : Readings) {r : Lieutenant × ServerAction}
      → HasLate l
      → Change p l x r
      → HasLate r.0
  unfolding without_senders
  Change-HasLate p l x h (stays e) = rw e h
  Change-HasLate p l x h (ends a last e) =
      rw e (record { at_last = h.at_last; sees = h.sees; no_more = h.no_more })
  Change-HasLate p l x h (renews l' last e₁ e) = cc (h.at_last)

  take_message-HasLate :
      (l : Lieutenant) (client : Client) (m : Message)
      → HasLate l
      → HasLate (take_message (acked l client) m).0
  unfolding acked
  take_message-HasLate l client m h =
      let grows = take_message-Grows l client m in
      let (g, b) = take_message-general (acked l client) m in
      record { at_last = rw g h.at_last; sees = grows.0 v h.sees; no_more = b ∙ h.no_more }

  Served-HasLate :
      (p : Platform) (l : Lieutenant) (a : Arrival Readings) {r : Lieutenant × ServerAction}
      → Served p l a r
      → HasLate l
      → HasLate r.0
  Served-HasLate p l a (only_changes x c) h = Change-HasLate p l x h c
  Served-HasLate p l a (takes d x client m from same q f c) h =
      Change-HasLate p (take_message (acked l client) m).0 x (take_message-HasLate l client m h)
        c.changed

  goes_on-HasLate :
      (p : Platform) (l : Lieutenant) (b : ServerAction) (arrivals : List (Arrival Readings))
      {out : Listening Lieutenant}
      → HasLate l
      → after_action
          (on_receive p)
          (handle_round_timeout p)
          (l, b)
          (λ l'. listen (on_receive p) (handle_round_timeout p) l' arrivals)
        ≡ ok out
      → HasLate (state out)
  unfolding after_action
  goes_on-HasLate p l stop arrivals h e = subst (λ o. HasLate (state o)) (ok-injective e) h
  goes_on-HasLate p l continue arrivals h e =
      listen_inv (on_receive p) (handle_round_timeout p) HasLate
        (λ s a r q w. Served-HasLate p s a (serve-Served p s a r q) w) l arrivals e h

member_one : (o v : Order) → member o (v ∷ []) ≡ true → o ≡ v
unfolding member
member_one o v h = elim (member_cases o v [] h) [ inl e ↦ e | inr i ↦ cc (i) ]

-- With an order seen that is not attack, the choice is to retreat.
other_seen-retreat :
    (l : Lieutenant) (o : Order) → o ≢ Order.attack → Sees l o → decide_order l ≡ Order.retreat
other_seen-retreat l o h y = elim (decide_order-choice l) [
  | inl (e, _) ↦ absurd (h (member_one o Order.attack (rw e at y)))
  | inr (_, e) ↦ e
]

-- What a message that is new in the last round does.
listed_late :
    (l : Lieutenant) (m : Message) {l' : Lieutenant}
    → first_round l.general ≡ false
    → member m.ids l.ids_this_round ≡ false
    → m.order ≢ Order.no_order
    → Listed l m l'
    → Sees l' m.order
unfolding first_round
listed_late l m nf new real (nothing d o k i) = cc (d (λ z. ground (arith, nf, z)), new)
listed_late l m nf new real (initial z d o k i) = ground (arith, nf, z)
listed_late l m nf new real (fresh m' z d e k i v w) = v real

accept-HasLate :
    (p : Platform) (l : Lieutenant) (client : Client) (m : Message) (x : Readings)
    {r : Lieutenant × ServerAction}
    → first_round l.general ≡ false
    → last_round l.general ≡ true
    → member m.ids l.ids_this_round ≡ false
    → m.order ≢ Order.no_order
    → accept p l client m x ≡ ok r
    → HasLate m.order l.started r.0
unfolding acked
accept-HasLate p l client m x nf last new real e =
    let a = accept-Accepted p l client m x e in
    let (g, b) = take_message-general (acked l client) m in
    Change-HasLate m.order l.started p (take_message (acked l client) m).0 x
      (record {
        at_last = rw g last;
        sees = listed_late (acked l client) m nf new real (take_message-Listed (acked l client) m);
        no_more = b;
      })
      a.changed

attack_alone : (l : Lieutenant) → l.orders_seen ≡ Order.attack ∷ [] → decide_order l ≡ Order.attack
attack_alone l h = elim (decide_order-choice l) [ inl (_, e) ↦ e | inr (n, _) ↦ absurd (n h) ]

-- A lieutenant in its last round that has seen attack alone, and would decide to attack, accepts a
-- message, of whatever round, with ids that it has not listed in this round and with an order other
-- than attack. Then it decides to retreat, if it decides, whatever else arrives, and has started no
-- more senders until then, so that it has passed the order on to nobody.
pub late_order_decides :
    (p : Platform) (l : Lieutenant) (client : Client) (msg : Message) (x : Readings)
    (r : Lieutenant × ServerAction) (arrivals : List (Arrival Readings))
    {out : Listening Lieutenant}
    → first_round l.general ≡ false
    → last_round l.general ≡ true
    → l.orders_seen ≡ Order.attack ∷ []
    → member msg.ids l.ids_this_round ≡ false
    → msg.order ≢ Order.no_order
    → msg.order ≢ Order.attack
    → accept p l client msg x ≡ ok r
    → after_action
        (on_receive p)
        (handle_round_timeout p)
        r
        (λ l'. listen (on_receive p) (handle_round_timeout p) l' arrivals)
      ≡ ok out
    → (decide_order l ≡ Order.attack)
      × (decide_order (state out) ≡ Order.retreat)
      × ((state out).started ≡ l.started)
late_order_decides p l client msg x r arrivals nf last one new real other e q =
    let h =
      goes_on-HasLate msg.order l.started p r.0 r.1 arrivals
        (accept-HasLate p l client msg x nf last new real e) q in
    (attack_alone l one, other_seen-retreat _ msg.order other h.sees, h.no_more)
