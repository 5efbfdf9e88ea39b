-- ===== src/Generals/Lieutenant/Stale.antt =====
-- Messages of an earlier round in `Lieutenant::Decide` and `InitNewRound` of src/general.cc.
use byzantine_agreement.Common.{
  All-any, ℕ, ◌+◌, ◌-◌, ◌%◌, ◌^◌, ◌<◌, ◌≡◌, ◌≢◌, ◌⊎◌, refl, inl, inr, arith, false, List, [], ◌∷◌,
  length, ok, ==_ne, some,
}
use byzantine_agreement.OrderedSet.{insert, member}
use byzantine_agreement.OrderedSet.Vectors.{list_order}
use byzantine_agreement.Msg.{Message, Order}
use byzantine_agreement.Msg.Less.{message_order, order_order, message_less-total}
use byzantine_agreement.Udp.{Client, ServerAction, Arrival}
use byzantine_agreement.Udp.Listen.{listen_goes_on}
use byzantine_agreement.Generals.Base.{Platform, first_round, last_round, increment_round}
use byzantine_agreement.Generals.Forward.{Sending, relayed, forward_all}
use byzantine_agreement.Generals.Lieutenant.{
  Lieutenant, Readings, init_new_round, handle_round_timeout, take_message, take_later, accept,
  on_receive, decide,
}
use byzantine_agreement.Generals.Lieutenant.Served.{Served, only_changes, takes, serve-Served}
use byzantine_agreement.Generals.Lieutenant.Rounds.{
  init_new_round_inv, forward_all_inv, forward-Kept,
}
use byzantine_agreement.Generals.Lieutenant.Changes.{
  acked, accept-Accepted, Change, stays, ends, renews,
}
use byzantine_agreement.Generals.Lieutenant.Outcome.{decide-stopped}

-- Some message of the set is not of the round.
abbrev pub HasOther : ℕ → List Message → Type 0
HasOther r [] = ⊥
HasOther r (m ∷ ms) = (m.round ≢ r) ⊎ HasOther r ms

HasOther-insert : (r : ℕ) (m : Message) (s : List Message) → m.round ≢ r → HasOther r (insert m s)
unfolding insert
HasOther-insert r m [] h = inl h
HasOther-insert r m (x ∷ xs) h = ground (arith, HasOther-insert r m xs h, message_less-total m x)

HasOther-insert_old :
    (r : ℕ) (m : Message) (s : List Message) → HasOther r s → HasOther r (insert m s)
unfolding insert
HasOther-insert_old r m [] h = absurd h
HasOther-insert_old r m (x ∷ xs) h = ground (arith, HasOther-insert_old r m xs)

-- The loop over the messages cannot get past one of another round.
forward_all_other :
    (p : Platform) (msgs : List Message) (st st' : Sending)
    → HasOther ((st.0.round + 2 ^ 32 - 1) % 2 ^ 32) msgs
    → forward_all p msgs st ≢ ok st'
unfolding forward_all
forward_all_other p [] st st' h e = h
forward_all_other p (m ∷ ms) st st' (inl h) e = cc (rw (==_ne h, forward_all) at e)
forward_all_other p (m ∷ ms) st st' (inr h) e =
    let (st₁, e₁, e₂) = forward_all_inv p m ms st st' e in
    let kept = forward-Kept p (relayed st.0 m) (length st.0.processes) 0 st st₁ e₁ in
    forward_all_other p ms st₁ st' (rw kept.round h) e₂

-- In a round that is neither the first nor the last, with a message of another round to forward.
pub record IsPoisoned (l : Lieutenant) : Type 0 where
  pub not_first : first_round l.general ≡ false
  pub not_last : last_round l.general ≡ false
  pub round_fits : l.round < 2 ^ 32
  pub other : HasOther l.round l.msgs_this_round

init_new_round-poisoned :
    (p : Platform) (l l' : Lieutenant) (x : Readings) → IsPoisoned l → init_new_round p l x ≢ ok l'
unfolding increment_round
init_new_round-poisoned p l l' x h e =
    let (st, e₁, e₂) = init_new_round_inv p l l' x e in
    let before : ((l.round + 1) % 2 ^ 32 + 2 ^ 32 - 1) % 2 ^ 32 ≡ l.round =
      omega (arith, h.round_fits) in
    forward_all_other p l.msgs_this_round _ st (rw before h.other) e₁

-- Nothing that is not an exception changes that, and the server goes on.
Change-IsPoisoned :
    (p : Platform) (l : Lieutenant) (x : Readings) {r : Lieutenant × ServerAction}
    → IsPoisoned l
    → Change p l x r
    → IsPoisoned r.0 × (r.1 ≡ ServerAction.continue)
Change-IsPoisoned p l x h (stays e) = rw e (h, refl)
Change-IsPoisoned p l x h (ends a last e) = cc (h.not_last)
Change-IsPoisoned p l x h (renews l' last e₁ e) = absurd (init_new_round-poisoned p l l' x h e₁)

take_message-IsPoisoned :
    (l : Lieutenant) (client : Client) (msg : Message)
    → IsPoisoned l
    → IsPoisoned (take_message (acked l client) msg).0
unfolding take_message take_later acked first_round last_round
take_message-IsPoisoned l client msg h = record {
  not_first = ground (arith, h.not_first);
  not_last = ground (arith, h.not_first, h.not_last);
  round_fits = ground (arith, h.not_first, h.round_fits);
  other = ground (
    arith,
    h.not_first,
    h.other,
    HasOther-insert_old l.round msg l.msgs_this_round h.other,
    HasOther-insert_old l.round (record msg { order = Order.no_order }) l.msgs_this_round h.other,
  );
}

Served-IsPoisoned :
    (p : Platform) (l : Lieutenant) (a : Arrival Readings) {r : Lieutenant × ServerAction}
    → IsPoisoned l
    → Served p l a r
    → IsPoisoned r.0 × (r.1 ≡ ServerAction.continue)
Served-IsPoisoned p l a h (only_changes x c) = Change-IsPoisoned p l x h c
Served-IsPoisoned p l a h (takes d x client m from same q v c) =
    Change-IsPoisoned p _ x (take_message-IsPoisoned l client m h) c.changed

poisoned_undecided :
    (p : Platform) (l : Lieutenant) (arrivals : List (Arrival Readings)) (o : Order)
    → IsPoisoned l
    → decide p l arrivals ≢ ok (some o)
poisoned_undecided p l arrivals o h e =
    let (l', e₁, _) = decide-stopped p l arrivals o e in
    listen_goes_on (on_receive p) (handle_round_timeout p) IsPoisoned (λ _. Unit {0})
      (λ k a r v _ q. Served-IsPoisoned p k a v (serve-Served p k a r q)) l arrivals l' h
      (All-any arrivals) e₁

-- A message of another round that is new by its ids poisons a round in the middle.
take_message-poisons :
    (l : Lieutenant) (client : Client) (msg : Message)
    → first_round l.general ≡ false
    → last_round l.general ≡ false
    → l.round < 2 ^ 32
    → msg.round ≢ l.round
    → member msg.ids l.ids_this_round ≡ false
    → IsPoisoned (take_message (acked l client) msg).0
unfolding take_message take_later acked first_round last_round
take_message-poisons l client msg nf nl fits ne new = record {
  not_first = ground arith;
  not_last = ground arith;
  round_fits = ground arith;
  other = ground (
    arith,
    HasOther-insert l.round msg l.msgs_this_round ne,
    HasOther-insert l.round (record msg { order = Order.no_order }) l.msgs_this_round ne,
  );
}

-- A lieutenant that is in neither the first nor the last round, and accepts without an exception
-- a message of another round whose ids it has not seen in this round, goes on listening and
-- never decides afterwards, whatever arrives.
pub decide_never_after_stale :
    (p : Platform) (l : Lieutenant) (client : Client) (msg : Message) (x : Readings)
    (r : Lieutenant × ServerAction) (arrivals : List (Arrival Readings)) (o : Order)
    → first_round l.general ≡ false
    → last_round l.general ≡ false
    → l.round < 2 ^ 32
    → msg.round ≢ l.round
    → member msg.ids l.ids_this_round ≡ false
    → accept p l client msg x ≡ ok r
    → (r.1 ≡ ServerAction.continue) × (decide p r.0 arrivals ≢ ok (some o))
decide_never_after_stale p l client msg x r arrivals o nf nl fits ne new e =
    let a = accept-Accepted p l client msg x e in
    let (h, go) =
      Change-IsPoisoned p _ x (take_message-poisons l client msg nf nl fits ne new) a.changed in
    (go, poisoned_undecided p r.0 arrivals o h)
