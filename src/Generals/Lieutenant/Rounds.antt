-- ===== src/Generals/Lieutenant/Rounds.antt =====
-- `InitNewRound` of src/general.cc: the fields before and after a change of rounds.
use byzantine_agreement.Common.{
  ◌>>=◌, sym, ℕ, zero, suc, ◌+◌, ◌-◌, ◌%◌, ◌^◌, ◌<◌, ◌≤◌, ◌≡◌, refl, ◌∙◌, inl, inr, arith, false,
  List, [], ◌∷◌, ◌==◌, length, ok, >>=-eq-ok, ok-injective, subst, Bool-cases,
}
use byzantine_agreement.OrderedSet.{member}
use byzantine_agreement.OrderedSet.Laws.{IsOrdered}
use byzantine_agreement.OrderedSet.Vectors.{list_order}
use byzantine_agreement.Msg.{Order, Message}
use byzantine_agreement.Msg.Less.{order_order, message_order}
use byzantine_agreement.Generals.Base.{
  General, Platform, should_send_msg, last_round, increment_round,
}
use byzantine_agreement.Generals.Forward.{Sending, forward_to, forward, forward_all, relayed}
use byzantine_agreement.Generals.Lieutenant.{
  clear_senders, join_senders, Lieutenant, Readings, init_new_round, start_round, without_senders,
}

-- The general is the same but for its engine.
pub record Kept (g g' : General) : Type 0 where
  pub processes : g'.processes ≡ g.processes
  pub clients : g'.clients ≡ g.clients
  pub id : g'.id ≡ g.id
  pub faulty : g'.faulty ≡ g.faulty
  pub behavior : g'.behavior ≡ g.behavior
  pub round : g'.round ≡ g.round

pub Kept-refl : (g : General) → Kept g g
Kept-refl g = record {
  processes = refl;
  clients = refl;
  id = refl;
  faulty = refl;
  behavior = refl;
  round = refl;
}

pub Kept-trans : {g h k : General} → Kept g h → Kept h k → Kept g k
Kept-trans a b = record {
  processes = b.processes ∙ a.processes;
  clients = b.clients ∙ a.clients;
  id = b.id ∙ a.id;
  faulty = b.faulty ∙ a.faulty;
  behavior = b.behavior ∙ a.behavior;
  round = b.round ∙ a.round;
}

pub should_send_msg-Kept : (p : Platform) (g : General) → Kept g (should_send_msg p g).1
unfolding should_send_msg
should_send_msg-Kept p g = ground arith

forward_to-Kept :
    (p : Platform) (msg : Message) (pid : ℕ) (st st' : Sending)
    → forward_to p msg pid st ≡ ok st'
    → Kept st.0 st'.0
unfolding forward_to
forward_to-Kept p msg pid st st' e = ground (arith, Kept-refl st.0, should_send_msg-Kept p st.0)

pub forward-Kept :
    (p : Platform) (msg : Message) (count pid : ℕ) (st st' : Sending)
    → forward p msg count pid st ≡ ok st'
    → Kept st.0 st'.0
unfolding forward
forward-Kept p msg zero pid st st' e = ground (arith, Kept-refl st.0)
forward-Kept p msg (suc count) pid st st' e =
    let (st₁, e₁, e₂) = >>=-eq-ok (forward_to p msg pid st) _ e in
    Kept-trans (forward_to-Kept p msg pid st st₁ e₁) (forward-Kept p msg count (pid + 1) st₁ st' e₂)

-- The loop got past its first message.
pub forward_all_inv :
    (p : Platform) (msg : Message) (msgs : List Message) (st st' : Sending)
    → forward_all p (msg ∷ msgs) st ≡ ok st'
    → (st₁ : Sending) × (forward p (relayed st.0 msg) (length st.0.processes) 0 st ≡ ok st₁)
      × (forward_all p msgs st₁ ≡ ok st')
unfolding forward_all
forward_all_inv p msg msgs st st' e =
    elim (Bool-cases (msg.round == (st.0.round + 2 ^ 32 - 1) % 2 ^ 32)) [
      | inl h ↦ >>=-eq-ok _ _ (rw (h, forward_all) at e)
      | inr h ↦ cc (rw (h, forward_all) at e)
    ]

pub forward_all-Kept :
    (p : Platform) (msgs : List Message) (st st' : Sending)
    → forward_all p msgs st ≡ ok st'
    → Kept st.0 st'.0
unfolding forward_all
forward_all-Kept p [] st st' e = ground (arith, Kept-refl st.0)
forward_all-Kept p (msg ∷ msgs) st st' e =
    let (st₁, e₁, e₂) = forward_all_inv p msg msgs st st' e in
    Kept-trans (forward-Kept p (relayed st.0 msg) (length st.0.processes) 0 st st₁ e₁)
      (forward_all-Kept p msgs st₁ st' e₂)

-- What a new round changes: the round number, the sets of the round, and the senders.
pub record Renewed (l l' : Lieutenant) (x : Readings) : Type 0 where
  pub general : Kept (increment_round l.general) l'.general
  pub orders : l'.orders_seen ≡ l.orders_seen
  pub no_ids : l'.ids_this_round ≡ []
  pub no_msgs : l'.msgs_this_round ≡ []
  pub restarted : l'.round_start_ts ≡ x.reset

-- `ClearSenders` that succeeds joins every thread, and leaves none.
pub clear_senders_inv :
    (p : Platform) (l l' : Lieutenant)
    → clear_senders p l ≡ ok l'
    → (join_senders p l ≡ ok tt) × (without_senders l ≡ l')
unfolding clear_senders
clear_senders_inv p l l' e =
    let (u, e₁, e₂) = >>=-eq-ok (join_senders p l) _ e in (e₁, ok-injective e₂)

-- `InitNewRound` that succeeds: what it forwarded, and the lieutenant then.
pub init_new_round_inv :
    (p : Platform) (l l' : Lieutenant) (x : Readings)
    → init_new_round p l x ≡ ok l'
    → (st : Sending) × (forward_all p l.msgs_this_round (increment_round l.general, []) ≡ ok st)
      × (start_round (without_senders l) x st ≡ l')
unfolding init_new_round without_senders
init_new_round_inv p l l' x e =
    let (l₁, e₁, e₂) = >>=-eq-ok (clear_senders p l) _ e in
    let same = (clear_senders_inv p l l₁ e₁).1 in
    let e₃ =
      subst
        (λ k.
          (forward_all p k.msgs_this_round (increment_round k.general, []) >>= λ st.
          ok (start_round k x st))
          ≡ ok l')
        (sym same) e₂ in
    let (st, e₄, e₅) =
      >>=-eq-ok (forward_all p l.msgs_this_round (increment_round l.general, [])) _ e₃ in
    (st, e₄, ok-injective e₅)

-- The threads of the round before can all be joined then.
pub init_new_round-joined :
    (p : Platform) (l l' : Lieutenant) (x : Readings)
    → init_new_round p l x ≡ ok l'
    → join_senders p l ≡ ok tt
unfolding init_new_round
init_new_round-joined p l l' x e =
    let (l₁, e₁, e₂) = >>=-eq-ok (clear_senders p l) _ e in (clear_senders_inv p l l₁ e₁).0

-- It succeeds when the threads of the round can be joined and the messages forwarded.
pub init_new_round-ok :
    (p : Platform) (l : Lieutenant) (x : Readings) (st : Sending)
    → join_senders p l ≡ ok tt
    → forward_all p l.msgs_this_round (increment_round l.general, []) ≡ ok st
    → init_new_round p l x ≡ ok (start_round (without_senders l) x st)
unfolding init_new_round clear_senders without_senders
init_new_round-ok p l x st j e = rw (j, e) refl

pub init_new_round-Renewed :
    (p : Platform) (l l' : Lieutenant) (x : Readings)
    → init_new_round p l x ≡ ok l'
    → Renewed l l' x
unfolding start_round without_senders
init_new_round-Renewed p l l' x e =
    let (st, e₁, e₂) = init_new_round_inv p l l' x e in
    let k : Kept (increment_round l.general) st.0 = forward_all-Kept p l.msgs_this_round _ st e₁ in
    subst (λ m. Renewed l m x) e₂
      (record { general = k; orders = refl; no_ids = refl; no_msgs = refl; restarted = refl })

-- What holds of a lieutenant between two callbacks: the round is at most the last, both sets are
-- ordered, and `no_order` is never an order seen.
pub record Inv (l : Lieutenant) : Type 0 where
  pub few : l.faulty + 1 < 2 ^ 32 - 1
  pub within : l.round ≤ l.faulty + 1
  pub orders_ordered : IsOrdered l.orders_seen
  pub ids_ordered : IsOrdered l.ids_this_round
  pub no_no_order : member Order.no_order l.orders_seen ≡ false

pub Renewed-Inv :
    (l l' : Lieutenant) (x : Readings)
    → Renewed l l' x
    → Inv l
    → last_round l.general ≡ false
    → Inv l'
unfolding last_round increment_round
Renewed-Inv l l' x n v h = record {
  few = omega (arith, n.general.faulty, v.few);
  within = ground (arith, n.general.faulty, n.general.round, v.few, v.within);
  orders_ordered = rw n.orders v.orders_ordered;
  ids_ordered = rw n.no_ids tt;
  no_no_order = rw n.orders v.no_no_order;
}
