-- ===== src/Generals/Commander/Orders.antt =====
-- The messages that `Commander::Decide` of src/general.cc hands to its threads.
use byzantine_agreement.Common.{
  ℕ, zero, suc, ◌+◌, ◌-◌, ◌≡◌, ◌⊎◌, refl, sym, inl, inr, arith, false, List, [], ◌∷◌, All,
  All-append, length, ok, >>=-eq-ok, ok-injective, subst, Bool-cases,
}
use byzantine_agreement.Msg.{Order, Message, order_eq}
use byzantine_agreement.Behavior.{wrong_order}
use byzantine_agreement.Generals.Base.{
  Platform, exhibits_behavior, should_send_msg, log_message, client_for_id,
}
use byzantine_agreement.Generals.Lieutenant.Rounds.{should_send_msg-Kept}
use byzantine_agreement.Generals.Commander.{
  Commander, Started, order_for_msg, send_to, send_from, launch,
}
use byzantine_agreement.Generals.Senders.{Sender}

-- The commander once it has drawn whether to send, and the message that it then makes.
abbrev drawn : Platform → Commander → Commander
drawn p c = record c { general = (should_send_msg p c.general).1 }

abbrev made : Platform → Commander → Message
made p c = record { round = c.round; order = (order_for_msg p (drawn p c)).0; ids = 0 ∷ [] }

abbrev pub AllHanded : (Message → Type 0) → List Sender → Type 0
AllHanded Q = All (λ (x : Sender). Q x.msg)

-- What holds of the commander whatever it draws, and so of all its messages.
module _ (p : Platform) (P : Commander → Type 0) (Q : Message → Type 0)
    (keeps : (c : Commander) → P c → P (drawn p c) × P (order_for_msg p (drawn p c)).1)
    (makes : (c : Commander) → P c → Q (made p c)) where
  send_to-AllHanded :
      (pid : ℕ) (st st' : Started)
      → P st.0 × AllHanded Q st.1
      → send_to p pid st ≡ ok st'
      → P st'.0 × AllHanded Q st'.1
  unfolding send_to
  send_to-AllHanded pid (c, ss) st' v e = elim (Bool-cases (should_send_msg p c.general).0) [
    | inr h ↦
        subst (λ (r : Started). P r.0 × AllHanded Q r.1) (ok-injective (rw (h, send_to) at e))
          ((keeps c v.0).0, v.1)
    | inl h ↦
        let (u, e₁, e₂) = >>=-eq-ok (log_message p _) _ (rw (h, send_to) at e) in
        let (client, e₃, e₄) = >>=-eq-ok (client_for_id _ pid) _ e₂ in
        subst (λ (r : Started). P r.0 × AllHanded Q r.1) (ok-injective e₄)
          ((keeps c v.0).1, All-append (λ (x : Sender). Q x.msg) ss _ v.1 (makes c v.0, tt))
  ]

  send_from-AllHanded :
      (count pid : ℕ) (st st' : Started)
      → P st.0 × AllHanded Q st.1
      → send_from p count pid st ≡ ok st'
      → AllHanded Q st'.1
  unfolding send_from
  send_from-AllHanded zero pid st st' v e =
      subst (λ (r : Started). AllHanded Q r.1) (ok-injective e) v.1
  send_from-AllHanded (suc count) pid st st' v e =
      let (st₁, e₁, e₂) = >>=-eq-ok (send_to p pid st) _ e in
      send_from-AllHanded count (pid + 1) st₁ st' (send_to-AllHanded pid st st₁ v e₁) e₂

  launch-AllHanded :
      (c : Commander) (o : Order) (senders : List Sender)
      → P c
      → launch p c ≡ ok (o, senders)
      → (o ≡ c.order) × AllHanded Q senders
  unfolding launch
  launch-AllHanded c o senders v e =
      let (st, e₁, e₂) = >>=-eq-ok (send_from p (length c.processes - 1) 1 (c, [])) _ e in
      subst (λ (r : Order × List Sender). (r.0 ≡ c.order) × AllHanded Q r.1) (ok-injective e₂)
        (refl, send_from-AllHanded (length c.processes - 1) 1 (c, []) st (v, tt) e₁)

-- A commander with an order that it does not falsify.
abbrev GivesOnly : Order → Commander → Type 0
GivesOnly o c = (c.order ≡ o) × (exhibits_behavior c.general wrong_order ≡ false)

GivesOnly-keeps :
    (p : Platform) (o : Order) (c : Commander)
    → GivesOnly o c
    → GivesOnly o (drawn p c) × GivesOnly o (order_for_msg p (drawn p c)).1
unfolding order_for_msg exhibits_behavior
GivesOnly-keeps p o c h = ground (arith, h.0, h.1, (should_send_msg-Kept p c.general).behavior)

GivesOnly-makes : (p : Platform) (o : Order) (c : Commander) → GivesOnly o c → (made p c).order ≡ o
unfolding order_for_msg exhibits_behavior
GivesOnly-makes p o c h = ground (arith, h.0, h.1, (should_send_msg-Kept p c.general).behavior)

-- A commander that does not falsify orders decides by its own, and so reads every message that it
-- hands to a thread.
pub launch-honest :
    (p : Platform) (c : Commander) (o : Order) (senders : List Sender)
    → exhibits_behavior c.general wrong_order ≡ false
    → launch p c ≡ ok (o, senders)
    → (o ≡ c.order) × All (λ (x : Sender). x.msg.order ≡ o) senders
launch-honest p c o senders h e =
    let (same, sent) =
      launch-AllHanded p (GivesOnly c.order) (λ m. m.order ≡ c.order)
        (λ c' v. GivesOnly-keeps p c.order c' v) (λ c' v. GivesOnly-makes p c.order c' v) c o
        senders (refl, h) e in
    (same, subst (λ k. AllHanded (λ m. m.order ≡ k) senders) (sym same) sent)

-- An order that a commander can be given.
abbrev pub IsCommand : Order → Type 0
IsCommand o = (o ≡ Order.attack) ⊎ (o ≡ Order.retreat)

-- A message of the first round, from the commander.
pub record IsFirst (m : Message) : Type 0 where
  pub first : m.round ≡ 0
  pub command : IsCommand m.order
  pub from_commander : m.ids ≡ 0 ∷ []

-- A commander before its first round is over.
abbrev Begins : Commander → Type 0
Begins c = IsCommand c.order × (c.round ≡ 0)

Begins-keeps :
    (p : Platform) (c : Commander)
    → Begins c
    → Begins (drawn p c) × Begins (order_for_msg p (drawn p c)).1
unfolding order_for_msg
Begins-keeps p c h = ground (arith, h.0, h.1, (should_send_msg-Kept p c.general).round)

Begins-makes : (p : Platform) (c : Commander) → Begins c → IsFirst (made p c)
unfolding order_for_msg order_eq
Begins-makes p c h = record { first = h.1; command = ground (arith, h.0); from_commander = refl }

-- What a commander hands to its threads in the first round, also if it falsifies orders.
pub launch-IsFirst :
    (p : Platform) (c : Commander) (o : Order) (senders : List Sender)
    → IsCommand c.order
    → c.round ≡ 0
    → launch p c ≡ ok (o, senders)
    → AllHanded IsFirst senders
launch-IsFirst p c o senders h r e =
    (launch-AllHanded p Begins IsFirst (λ c' v. Begins-keeps p c' v) (λ c' v. Begins-makes p c' v) c
      o senders (h, r) e).1
