-- ===== src/Generals/Lieutenant/Validity.antt =====
-- `Lieutenant::Decide` of src/general.cc where every message carries the same order.
use byzantine_agreement.Common.{
  ℕ, ◌≡◌, ◌⊎◌, refl, sym, ◌∙◌, inl, inr, arith, Bool, true, false, List, [], ◌∷◌, All, some, take,
  ok, Bool-cases, ok-injective,
}
use byzantine_agreement.OrderedSet.{insert, member}
use byzantine_agreement.OrderedSet.Laws.{same_self}
use byzantine_agreement.Msg.{Order, Message, order_eq}
use byzantine_agreement.Msg.Less.{order_order, order_eq_iff}
use byzantine_agreement.Wire.{byzantine_msg_from_buf}
use byzantine_agreement.Udp.{
  Client, ServerAction, continue, stop, Arrival, received, refused, bufsize, serve,
}
use byzantine_agreement.Udp.Listen.{listen_stopped, serve-received, serve-refused}
use byzantine_agreement.Generals.Base.{Platform, first_round}
use byzantine_agreement.Generals.Lieutenant.{
  Lieutenant, Readings, without_senders, handle_round_timeout, continue_unless_timeout, take_first,
  take_later, take_message, finish, on_receive, decide_order, decide,
}
use byzantine_agreement.Generals.Lieutenant.Rounds.{init_new_round-Renewed}
use byzantine_agreement.Generals.Lieutenant.Changes.{
  Change, stays, ends, renews, acked, move_to_new_round_or_stop-Change, handle_round_timeout-Change,
  continue_unless_timeout-Change, Handled, passed, taken, on_receive-Handled,
}
use byzantine_agreement.Generals.Lieutenant.Choice.{decide_order-choice}
use byzantine_agreement.Generals.Lieutenant.Outcome.{decide-stopped}

-- A lieutenant that still waits for its first order, or has seen one order alone.
pub data Holds (o : Order) (l : Lieutenant) : Type 0 where
  waits : l.round ≡ 0 → l.orders_seen ≡ [] → Holds o l
  holds : l.orders_seen ≡ o ∷ [] → Holds o l

-- How a callback that keeps this ends: it stops the server only when the order was seen.
abbrev pub IsGood : Order → Lieutenant × ServerAction → Type 0
IsGood o r = Holds o r.0 × ((r.1 ≡ stop) → (r.0.orders_seen ≡ o ∷ []))

module _ (p : Platform) (o : Order) (l : Lieutenant) (x : Readings)
    {r : Lieutenant × ServerAction} where
  Change-IsGood : Change p l x r → l.orders_seen ≡ o ∷ [] → IsGood o r
  unfolding without_senders
  Change-IsGood (stays e) q = let k : r.0.orders_seen ≡ o ∷ [] = rw e q in (holds k, λ _. k)
  Change-IsGood (ends a h e) q = let k : r.0.orders_seen ≡ o ∷ [] = rw e q in (holds k, λ _. k)
  Change-IsGood (renews l' h e₁ e) q =
      let n = init_new_round-Renewed p l l' x e₁ in
      let k : r.0.orders_seen ≡ o ∷ [] = rw e (n.orders ∙ q) in (holds k, λ _. k)

  stays-IsGood : r ≡ (l, continue) → Holds o l → IsGood o r
  stays-IsGood e v = (rw e v, λ s. cc)

  handle_round_timeout-IsGood : Holds o l → handle_round_timeout p l x ≡ ok r → IsGood o r
  unfolding handle_round_timeout first_round
  handle_round_timeout-IsGood (waits z q) e =
      let z' : first_round l.general ≡ true = ground (arith, z) in
      stays-IsGood (sym (ok-injective (rw (z', handle_round_timeout) at e))) (waits z q)
  handle_round_timeout-IsGood (holds q) e = Change-IsGood (handle_round_timeout-Change p l x e) q

continue_unless_timeout-IsGood :
    (p : Platform) (o : Order) (l : Lieutenant) (x : Readings) {r : Lieutenant × ServerAction}
    → Holds o l
    → continue_unless_timeout p l x ≡ ok r
    → IsGood o r
unfolding continue_unless_timeout handle_round_timeout first_round
continue_unless_timeout-IsGood p o l x (waits z q) e =
    let z' : first_round l.general ≡ true = ground (arith, z) in
    let unchanged : continue_unless_timeout p l x ≡ ok (l, continue) = ground (arith, z') in
    stays-IsGood p o l x (sym (ok-injective (sym unchanged ∙ e))) (waits z q)
continue_unless_timeout-IsGood p o l x (holds q) e =
    Change-IsGood p o l x (continue_unless_timeout-Change p l x e) q

-- A message that carries the order, or none.
abbrev pub Carries : Order → Message → Type 0
Carries o msg = (msg.order ≡ o) ⊎ (msg.order ≡ Order.no_order)

waiting_stays :
    (l : Lieutenant) (msg : Message)
    → l.round ≡ 0
    → order_eq msg.order Order.no_order ≡ true
    → take_message l msg ≡ (l, false)
unfolding take_message take_first first_round
waiting_stays l msg z t = ground (arith, z, t)

waiting_sees :
    (o : Order) (l : Lieutenant) (msg : Message)
    → l.round ≡ 0
    → l.orders_seen ≡ []
    → msg.order ≡ o
    → order_eq msg.order Order.no_order ≡ false
    → (take_message l msg).0.orders_seen ≡ o ∷ []
unfolding take_message take_first first_round insert
waiting_sees o l msg z q c f = ground (arith, z, q, c, f)

-- The order that was seen alone stays alone.
alone :
    (o : Order) (l : Lieutenant) (msg : Message)
    → Carries o msg
    → l.orders_seen ≡ o ∷ []
    → (take_message l msg).0.orders_seen ≡ o ∷ []
unfolding take_message take_first take_later member
alone o l msg (inl c) q = ground (arith, q, c, same_self o)
alone o l msg (inr c) q = ground (arith, q, c, order_eq_iff Order.no_order Order.no_order)

-- Taking a message begins a new round only once the order was seen.
take_message-Holds :
    (o : Order) (l : Lieutenant) (msg : Message)
    → Carries o msg
    → Holds o l
    → Holds o (take_message l msg).0
      × (((take_message l msg).1 ≡ true) → ((take_message l msg).0.orders_seen ≡ o ∷ []))
take_message-Holds o l msg c (waits z q) = elim (Bool-cases (order_eq msg.order Order.no_order)) [
  | inl t ↦ let u = waiting_stays l msg z t in (rw u (waits z q), λ b. cc)
  | inr f ↦
      let u : (take_message l msg).0.orders_seen ≡ o ∷ [] = elim c [
        | inl same ↦ waiting_sees o l msg z q same f
        | inr empty ↦ absurd (ground (arith, f, empty, order_eq_iff msg.order Order.no_order))
      ] in
      (holds u, λ _. u)
]
take_message-Holds o l msg c (holds q) = let u = alone o l msg c q in (holds u, λ _. u)

acked-Holds : (o : Order) (l : Lieutenant) (client : Client) → Holds o l → Holds o (acked l client)
unfolding acked
acked-Holds o l client (waits z q) = waits z q
acked-Holds o l client (holds q) = holds q

finish-IsGood :
    (p : Platform) (o : Order) (x : Readings) (s : Lieutenant × Bool)
    {r : Lieutenant × ServerAction}
    → Holds o s.0
    → ((s.1 ≡ true) → (s.0.orders_seen ≡ o ∷ []))
    → finish p x s ≡ ok r
    → IsGood o r
unfolding finish
finish-IsGood p o x (l, true) v done e =
    Change-IsGood p o l x (move_to_new_round_or_stop-Change p l x e) (done refl)
finish-IsGood p o x (l, false) v done e = continue_unless_timeout-IsGood p o l x v e

-- Every message that a datagram holds carries the order, or none.
abbrev pub IsUnanimous : Order → Arrival Readings → Type 0
IsUnanimous o (received d x) =
    (msg : Message) → byzantine_msg_from_buf (take bufsize d.bytes) ≡ some msg → Carries o msg
IsUnanimous o (refused e x) = Unit

Handled-IsGood :
    (p : Platform) (o : Order) (l : Lieutenant) (client : Client) (buf : List ℕ) (x : Readings)
    {r : Lieutenant × ServerAction}
    → ((msg : Message) → byzantine_msg_from_buf buf ≡ some msg → Carries o msg)
    → Holds o l
    → Handled p l client buf x r
    → IsGood o r
Handled-IsGood p o l client buf x c v (passed e) = continue_unless_timeout-IsGood p o l x v e
Handled-IsGood p o l client buf x c v (taken msg from q f y a) =
    let (w, done) =
      take_message-Holds o (acked l client) msg (c msg q) (acked-Holds o l client v) in
    finish-IsGood p o x (take_message (acked l client) msg) w done a.finished

pub serve-IsGood :
    (p : Platform) (o : Order) (l : Lieutenant) (a : Arrival Readings)
    (r : Lieutenant × ServerAction)
    → Holds o l
    → IsUnanimous o a
    → serve (on_receive p) (handle_round_timeout p) l a ≡ ok r
    → IsGood o r
serve-IsGood p o l (received d x) r v c e =
    let (client, e₁, e₂) = serve-received (on_receive p) (handle_round_timeout p) l d x e in
    Handled-IsGood p o l client (take bufsize d.bytes) x c v
      (on_receive-Handled p l client (take bufsize d.bytes) x e₂)
serve-IsGood p o l (refused b x) r v c e =
    handle_round_timeout-IsGood p o l x v
      (serve-refused (on_receive p) (handle_round_timeout p) l b x e)

pub choice_of_one :
    (o : Order) (l : Lieutenant)
    → (o ≡ Order.attack) ⊎ (o ≡ Order.retreat)
    → l.orders_seen ≡ o ∷ []
    → decide_order l ≡ o
choice_of_one o l c q = ground (arith, c, q, decide_order-choice l)

-- A lieutenant in the first round that has seen no order decides, if it decides, by the order to
-- attack or to retreat that all messages carry: when every datagram that decodes to a message
-- carries this order or `NO_ORDER`, whatever else arrives and whichever timeouts occur.
pub decide-unanimous :
    (p : Platform) (o decision : Order) (l : Lieutenant) (arrivals : List (Arrival Readings))
    → (o ≡ Order.attack) ⊎ (o ≡ Order.retreat)
    → l.round ≡ 0
    → l.orders_seen ≡ []
    → All (IsUnanimous o) arrivals
    → decide p l arrivals ≡ ok (some decision)
    → decision ≡ o
decide-unanimous p o decision l arrivals c z q h e =
    let (l', e₁, e₂) = decide-stopped p l arrivals decision e in
    let seen : l'.orders_seen ≡ o ∷ [] =
      listen_stopped (on_receive p) (handle_round_timeout p) (Holds o) (λ s. s.orders_seen ≡ o ∷ [])
        (IsUnanimous o) (serve-IsGood p o) l arrivals l' (waits z q) h e₁ in
    e₂ ∙ choice_of_one o l' c seen
