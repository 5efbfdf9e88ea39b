-- ===== src/Generals/Lieutenant/Steps.antt =====
-- The invariant of a lieutenant over the two callbacks of `Lieutenant::Decide` (src/general.cc).
use byzantine_agreement.Common.{ℕ, ◌+◌, ◌-◌, ◌^◌, ◌<◌, ◌≡◌, arith, refl, Bool, false, List, ok}
use byzantine_agreement.OrderedSet.{insert, member}
use byzantine_agreement.OrderedSet.Laws.{IsOrdered, insert-IsOrdered, member-insert, same→eq}
use byzantine_agreement.OrderedSet.Vectors.{list_order}
use byzantine_agreement.Msg.{Order, Message, order_eq}
use byzantine_agreement.Msg.Less.{order_order, message_order, order_eq_iff}
use byzantine_agreement.Behavior.{MaliciousBehavior}
use byzantine_agreement.Udp.{Client, ServerAction, Kernel, SocketCalls, Arrival, Listening, listen}
use byzantine_agreement.Udp.Listen.{state, listen_inv}
use byzantine_agreement.Generals.Base.{Platform, ProcessList}
use byzantine_agreement.Generals.Made.{new_lieutenant-HasFields}
use byzantine_agreement.Generals.Lieutenant.Served.{Served, only_changes, takes, serve-Served}
use byzantine_agreement.Generals.Lieutenant.{
  Lieutenant, Readings, without_senders, handle_round_timeout, take_first, take_later, take_message,
  on_receive, new_lieutenant,
}
use byzantine_agreement.Generals.Lieutenant.Rounds.{Inv, Renewed-Inv, init_new_round-Renewed}
use byzantine_agreement.Generals.Lieutenant.Changes.{Change, stays, ends, renews, acked}

-- Adding an order that is not `no_order` keeps the orders an ordered set without `no_order`.
insert_order :
    (o : Order) (s : List Order)
    → order_eq o Order.no_order ≡ false
    → IsOrdered s
    → member Order.no_order s ≡ false
    → IsOrdered (insert o s) × (member Order.no_order (insert o s) ≡ false)
insert_order o s h k m = (
  insert-IsOrdered o s k,
  ground (
    arith,
    member-insert Order.no_order o s,
    same→eq Order.no_order o,
    order_eq_iff o Order.no_order,
  ),
)

take_message-Inv : (l : Lieutenant) (msg : Message) → Inv l → Inv (take_message l msg).0
unfolding take_message take_first take_later
take_message-Inv l msg v =
    ground (arith, insert_order msg.order l.orders_seen, insert-IsOrdered msg.ids l.ids_this_round)

pub Change-Inv :
    (p : Platform) (l : Lieutenant) (x : Readings) {r : Lieutenant × ServerAction}
    → Change p l x r
    → Inv l
    → Inv r.0
unfolding without_senders
Change-Inv p l x (stays e) v = ground (arith, v)
Change-Inv p l x (ends a h e) v = ground (arith, v)
Change-Inv p l x (renews l' h e₁ e) v =
    rw e (Renewed-Inv l l' x (init_new_round-Renewed p l l' x e₁) v h)

acked-Inv : (l : Lieutenant) (client : Client) → Inv l → Inv (acked l client)
unfolding acked
acked-Inv l client v = ground (arith, v)

Served-Inv :
    (p : Platform) (l : Lieutenant) (a : Arrival Readings) {r : Lieutenant × ServerAction}
    → Served p l a r
    → Inv l
    → Inv r.0
Served-Inv p l a (only_changes x c) v = Change-Inv p l x c v
Served-Inv p l a (takes d x client msg from same q f c) v =
    Change-Inv p (take_message (acked l client) msg).0 x c.changed
      (take_message-Inv (acked l client) msg (acked-Inv l client v))

new_lieutenant-Inv :
    (k : Kernel) (ps : ProcessList) (id : ℕ) (calls : SocketCalls) (bound : Bool) (faulty : ℕ)
    (b : MaliciousBehavior) (l : Lieutenant)
    → faulty + 1 < 2 ^ 32 - 1
    → new_lieutenant k ps id calls bound faulty b ≡ ok l
    → Inv l
unfolding member
new_lieutenant-Inv k ps id calls bound faulty b l few e =
    let (g, z) = new_lieutenant-HasFields k ps id calls bound faulty b l e in
    record {
      few = omega (arith, g.same_faulty, few);
      within = omega (arith, g.begins);
      orders_ordered = rw z.no_orders tt;
      ids_ordered = rw z.no_ids tt;
      no_no_order = rw z.no_orders refl;
    }

-- A lieutenant that was constructed and has listened for a while, and perhaps stopped, has reached a
-- round that is at most faulty + 1 (below 2 ^ 32 - 1), whatever arrived in whatever order and
-- whenever it timed out, as long as no exception left it; its sets of orders and of ids are in
-- strict order, and `NO_ORDER` is no order that it has seen.
pub listen-Inv :
    (p : Platform) (k : Kernel) (ps : ProcessList) (id : ℕ) (calls : SocketCalls) (bound : Bool)
    (faulty : ℕ) (b : MaliciousBehavior) (l : Lieutenant) (arrivals : List (Arrival Readings))
    {out : Listening Lieutenant}
    → faulty + 1 < 2 ^ 32 - 1
    → new_lieutenant k ps id calls bound faulty b ≡ ok l
    → listen (on_receive p) (handle_round_timeout p) l arrivals ≡ ok out
    → Inv (state out)
listen-Inv p k ps id calls bound faulty b l arrivals few made e =
    listen_inv (on_receive p) (handle_round_timeout p) Inv
      (λ s a r q v. Served-Inv p s a (serve-Served p s a r q) v) l arrivals e
      (new_lieutenant-Inv k ps id calls bound faulty b l few made)
