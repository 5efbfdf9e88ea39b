-- ===== src/Generals/Lieutenant/Started.antt =====
-- A lieutenant of src/general.cc from the order that it gets in its first round to its decision.
use byzantine_agreement.Common.{
  bind_ok, ◌+◌, ◌-◌, ◌^◌, ◌<◌, ◌≡◌, ◌≢◌, ◌⊎◌, refl, ap, ◌∙◌, arith, true, false, List, [], ◌∷◌,
  ◌++◌, some, length, map, Result, ok, Bool, take, All,
}
use byzantine_agreement.OrderedSet.{insert}
use byzantine_agreement.Msg.{Order, Message, order_eq}
use byzantine_agreement.Msg.Less.{order_order, message_order, order_eq_iff}
use byzantine_agreement.Wire.{byzantine_msg_from_buf}
use byzantine_agreement.Net.{Address}
use byzantine_agreement.Udp.{
  Client, Datagram, ServerAction, continue, Arrival, received, after_action, bufsize,
  client_of_sockaddr, listen, remote_address, send, serve,
}
use byzantine_agreement.Generals.Base.{
  Platform, first_round, last_round, increment_round, log_message,
}
use byzantine_agreement.Generals.Validation.{valid_message}
use byzantine_agreement.Generals.Lieutenant.{
  Lieutenant, Readings, accept, decide, finish, handle_round_timeout, init_new_round,
  move_to_new_round_or_stop, on_receive, receive_decoded, send_ack_for_round, start_round,
  without_senders, take_first, take_message,
}
use byzantine_agreement.Generals.Lieutenant.Changes.{acked}
use byzantine_agreement.Generals.Lieutenant.Rounds.{
  Renewed, init_new_round-Renewed, init_new_round-ok,
}
use byzantine_agreement.Generals.Senders.Joined.{AllAnswered}
use byzantine_agreement.Generals.Lieutenant.Joining.{
  CanJoin, same-CanJoin, join_senders-CanJoin, init_new_round-CanJoin,
}
use byzantine_agreement.Generals.Lieutenant.Timeouts.{
  IsReady, forward_all_total, All-eq, timed_out, decide_timeouts,
}
use byzantine_agreement.Generals.Lieutenant.Valid.{valid_message-IsValid}
use byzantine_agreement.Generals.Lieutenant.Validity.{choice_of_one}

-- The lieutenant in its first round with the order.
abbrev ordered : Lieutenant → Message → Lieutenant
ordered l m = record l { orders_seen = m.order ∷ []; msgs_this_round = m ∷ [] }

take_message-ordered :
    (l : Lieutenant) (m : Message)
    → l.round ≡ 0
    → l.orders_seen ≡ []
    → l.msgs_this_round ≡ []
    → m.order ≢ Order.no_order
    → take_message l m ≡ (ordered l m, true)
unfolding take_message take_first first_round insert
take_message-ordered l m z q k real =
    let test : order_eq m.order Order.no_order ≡ false =
      ground (arith, real, (order_eq_iff m.order Order.no_order).0) in
    rw (z, q, k, test) refl

-- From the first round into the next.
init_new_round-first :
    (p : Platform) (l : Lieutenant) (x : Readings)
    → p.verbose ≡ false
    → AllAnswered p
    → CanJoin l
    → l.round ≡ 0
    → All (λ (m : Message). m.round ≡ 0) l.msgs_this_round
    → (l' : Lieutenant) × (init_new_round p l x ≡ ok l')
unfolding increment_round
init_new_round-first p l x v t j z c =
    let (st, e) =
      forward_all_total p l.msgs_this_round (increment_round l.general, []) v
        (All-eq l.msgs_this_round (omega (arith, z)) c) in
    (
      start_round (without_senders l) x st,
      init_new_round-ok p l x st (join_senders-CanJoin p l t j) e,
    )

-- What a server that goes on does next.
decide-goes_on :
    (p : Platform) (l l' : Lieutenant) (a : Arrival Readings) (rest : List (Arrival Readings))
    → serve (on_receive p) (handle_round_timeout p) l a ≡ ok (l', continue)
    → decide p l (a ∷ rest) ≡ decide p l' rest
unfolding decide listen after_action
decide-goes_on p l l' a rest e = rw e refl

logs_nothing : (p : Platform) (m : Message) → p.verbose ≡ false → log_message p m ≡ ok tt
unfolding log_message
logs_nothing p m v = ground (arith, v)

acknowledges :
    (l : Lieutenant) (client : Client) (b : Bool)
    → b ≡ true
    → send_ack_for_round l client b ≡ ok (acked l client)
unfolding send_ack_for_round send acked
acknowledges l client b a = rw a refl

begins_round :
    (p : Platform) (l l' : Lieutenant) (x : Readings)
    → last_round l.general ≡ false
    → init_new_round p l x ≡ ok l'
    → finish p x (l, true) ≡ ok (l', continue)
unfolding finish move_to_new_round_or_stop
begins_round p l l' x last e = rw (last, e) refl

-- What the callback does with the first order.
accept-ordered :
    (p : Platform) (l l' : Lieutenant) (client : Client) (m : Message) (x : Readings)
    → p.verbose ≡ false
    → x.ack_sent ≡ true
    → take_message (acked l client) m ≡ (ordered (acked l client) m, true)
    → last_round (ordered (acked l client) m).general ≡ false
    → init_new_round p (ordered (acked l client) m) x ≡ ok l'
    → accept p l client m x ≡ ok (l', continue)
unfolding accept
accept-ordered p l l' client m x v a t last e =
    bind_ok _ (logs_nothing p m v)
    ∙ (bind_ok _ (acknowledges l client x.ack_sent a)
        ∙ (ap (finish p x) t ∙ begins_round p (ordered (acked l client) m) l' x last e))

serve-accept :
    (p : Platform) (l : Lieutenant) (d : Datagram) (x : Readings) (client : Client) (from : Address)
    (m : Message) {r : Result (Lieutenant × ServerAction)}
    → client_of_sockaddr d.calls d.from ≡ ok client
    → remote_address p.kernel client ≡ ok from
    → byzantine_msg_from_buf (take bufsize d.bytes) ≡ some m
    → valid_message l.general m from ≡ ok true
    → accept p l client m x ≡ r
    → serve (on_receive p) (handle_round_timeout p) l (received d x) ≡ r
unfolding serve on_receive receive_decoded
serve-accept p l d x client from m c f b valid e =
    bind_ok _ c ∙ (bind_ok _ f ∙ (rw b (bind_ok _ valid) ∙ e))

acked_taken :
    (l : Lieutenant) (client : Client) (m : Message)
    → l.round ≡ 0
    → l.orders_seen ≡ []
    → l.msgs_this_round ≡ []
    → m.order ≢ Order.no_order
    → take_message (acked l client) m ≡ (ordered (acked l client) m, true)
unfolding acked
acked_taken l client m z q k real = take_message-ordered (acked l client) m z q k real

-- The lieutenant as it enters the round after the first.
record Enters (l : Lieutenant) (m : Message) (l' : Lieutenant) : Type 0 where
  ready : IsReady l'
  second : l'.round ≡ 1
  same_faulty : l'.faulty ≡ l.faulty
  knows : l'.orders_seen ≡ m.order ∷ []

Renewed-Enters :
    (l l' : Lieutenant) (client : Client) (m : Message) (x : Readings)
    → l.faulty + 1 < 2 ^ 32 - 1
    → l.round ≡ 0
    → Renewed (ordered (acked l client) m) l' x
    → CanJoin l'
    → Enters l m l'
unfolding acked increment_round
Renewed-Enters l l' client m x few z n j =
    let second : l'.round ≡ 1 = omega (arith, n.general.round, z) in
    record {
      ready = record {
        few = omega (arith, n.general.faulty, few);
        started_rounds = omega (arith, second);
        within = omega (arith, n.general.faulty, second);
        current = rw n.no_msgs tt;
        joinable = j;
      };
      second = second;
      same_faulty = n.general.faulty;
      knows = n.orders;
    }

not_last :
    (l : Lieutenant) (client : Client) (m : Message)
    → l.faulty + 1 < 2 ^ 32 - 1
    → l.round ≡ 0
    → last_round (ordered (acked l client) m).general ≡ false
unfolding acked last_round
not_last l client m few z = ground (arith, few, z)

ordered-CanJoin :
    (l : Lieutenant) (client : Client) (m : Message)
    → CanJoin l
    → CanJoin (ordered (acked l client) m)
unfolding acked
ordered-CanJoin l client m h = same-CanJoin l (ordered (acked l client) m) refl refl h

entered :
    (p : Platform) (l : Lieutenant) (client : Client) (m : Message) (x : Readings)
    → p.verbose ≡ false
    → AllAnswered p
    → CanJoin l
    → l.round ≡ 0
    → m.round ≡ 0
    → (l' : Lieutenant) × (init_new_round p (ordered (acked l client) m) x ≡ ok l')
unfolding acked
entered p l client m x v t j z k =
    init_new_round-first p (ordered (acked l client) m) x v t (ordered-CanJoin l client m j) z
      (k, tt)

-- A lieutenant in the first round that has seen nothing and does not log gets a valid message with
-- the order to attack or to retreat, and can acknowledge it: then it decides by this order after one
-- socket timeout for each of the faulty + 1 further rounds (faulty + 1 is below 2 ^ 32 - 1), if
-- nothing else comes in between, whatever its behaviour and whatever comes later; provided that it
-- has a client for every process, and that the sends of its threads all succeed and are each met by
-- a timeout or the acknowledgement of a 32-bit round.
pub decide_from_start :
    (p : Platform) (l : Lieutenant) (d : Datagram) (x : Readings) (client : Client) (from : Address)
    (m : Message) (xs : List Readings) (rest : List (Arrival Readings))
    → p.verbose ≡ false
    → AllAnswered p
    → CanJoin l
    → l.faulty + 1 < 2 ^ 32 - 1
    → l.round ≡ 0
    → l.orders_seen ≡ []
    → l.msgs_this_round ≡ []
    → client_of_sockaddr d.calls d.from ≡ ok client
    → remote_address p.kernel client ≡ ok from
    → byzantine_msg_from_buf (take bufsize d.bytes) ≡ some m
    → valid_message l.general m from ≡ ok true
    → (m.order ≡ Order.attack) ⊎ (m.order ≡ Order.retreat)
    → x.ack_sent ≡ true
    → length xs ≡ l.faulty + 1
    → decide p l (received d x ∷ (map timed_out xs ++ rest)) ≡ ok (some m.order)
decide_from_start p l d x client from m xs rest v t j few z q k c f b valid command a n =
    let (w, ew, to) = valid_message-IsValid l.general m from (omega (arith, z)) in
    let now : m.round ≡ 0 = omega (arith, (to.0 (cc)).not_later, z) in
    let real : m.order ≢ Order.no_order = λ e. ground (arith, command, e) in
    let (l', e) = entered p l client m x v t j z now in
    let h =
      Renewed-Enters l l' client m x few z
        (init_new_round-Renewed p (ordered (acked l client) m) l' x e)
        (init_new_round-CanJoin p (ordered (acked l client) m) l' x e
          (ordered-CanJoin l client m j)) in
    let served = serve-accept p l d x client from m c f b valid (
      accept-ordered p l l' client m x v a (acked_taken l client m z q k real)
        (not_last l client m few z) e) in
    decide-goes_on p l l' (received d x) (map timed_out xs ++ rest) served
    ∙ (decide_timeouts p l' xs rest v t h.ready (omega (arith, h.second, h.same_faulty, n))
        ∙ ap (λ o. ok (some o)) (choice_of_one m.order l' command h.knows))
