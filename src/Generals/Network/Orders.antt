-- ===== src/Generals/Network/Orders.antt =====
-- Which orders the messages carry that a lieutenant keeps and forwards: `Lieutenant::Decide` and
-- `InitNewRound` of src/general.cc.
use byzantine_agreement.Common.{All-append, ◌≡◌, refl, inr, arith, List, All, ok, subst}
use byzantine_agreement.OrderedSet.Laws.{All-insert}
use byzantine_agreement.Generals.Forward.Content.{AllSent, forward_all-AllSent}
use byzantine_agreement.Msg.{Order, Message}
use byzantine_agreement.Msg.Less.{message_order}
use byzantine_agreement.Udp.{Client, ServerAction}
use byzantine_agreement.Generals.Base.{Platform}
use byzantine_agreement.Generals.Forward.{Batch}
use byzantine_agreement.Generals.Lieutenant.Rounds.{init_new_round_inv}
use byzantine_agreement.Generals.Lieutenant.{
  Lieutenant, Readings, init_new_round, start_round, without_senders, take_message, take_first,
  take_later,
}
use byzantine_agreement.Generals.Lieutenant.Changes.{Change, stays, ends, renews, acked}
use byzantine_agreement.Generals.Lieutenant.Validity.{Carries}

abbrev pub MessagesCarry : Order → List Message → Type 0
MessagesCarry o = All (Carries o)

abbrev pub BatchesCarry : Order → List Batch → Type 0
BatchesCarry o = AllSent (Carries o)

-- What a lieutenant holds back for the next round, and all that it has started to send.
pub record IsTrue (o : Order) (l : Lieutenant) : Type 0 where
  pub kept : MessagesCarry o l.msgs_this_round
  pub sent : BatchesCarry o l.started

init_new_round-IsTrue :
    (p : Platform) (o : Order) (l l' : Lieutenant) (x : Readings)
    → init_new_round p l x ≡ ok l'
    → IsTrue o l
    → IsTrue o l'
unfolding start_round without_senders
init_new_round-IsTrue p o l l' x e v =
    let (st, e₁, e₂) = init_new_round_inv p l l' x e in
    let sent : BatchesCarry o st.1 =
      forward_all-AllSent (Carries o) p _ _ l.msgs_this_round _ st refl refl v.kept tt e₁ in
    subst (IsTrue o) e₂ (record { kept = tt; sent = All-append _ st.1 l.started sent v.sent })

pub Change-IsTrue :
    (p : Platform) (o : Order) (l : Lieutenant) (x : Readings) {r : Lieutenant × ServerAction}
    → Change p l x r
    → IsTrue o l
    → IsTrue o r.0
unfolding without_senders
Change-IsTrue p o l x (stays e) v = rw e v
Change-IsTrue p o l x (ends a h e) v = rw e (record { kept = v.kept; sent = v.sent })
Change-IsTrue p o l x (renews l' h e₁ e) v = rw e (init_new_round-IsTrue p o l l' x e₁ v)

pub take_message-IsTrue :
    (o : Order) (l : Lieutenant) (m : Message)
    → Carries o m
    → IsTrue o l
    → IsTrue o (take_message l m).0
unfolding take_message take_first take_later
take_message-IsTrue o l m c v = ground (
  arith,
  All-insert (Carries o) m l.msgs_this_round c v.kept,
  All-insert (Carries o) (record m { order = Order.no_order }) l.msgs_this_round (inr refl) v.kept,
)

pub acked-IsTrue :
    (o : Order) (l : Lieutenant) (client : Client) → IsTrue o l → IsTrue o (acked l client)
unfolding acked
acked-IsTrue o l client v = record { kept = v.kept; sent = v.sent }
