-- ===== src/Generals/Commander.antt =====
-- `class Commander` of src/general.h and src/general.cc: it sends its order to every lieutenant,
-- each in a thread of its own, and returns it.
pub mod Sends
pub mod Orders
pub mod Decides
pub mod Aborts
mod Tests
use byzantine_agreement.Common.{
  ℕ, zero, suc, ◌+◌, ◌-◌, ◌≡◌, Bool, true, false, not, List, [], ◌∷◌, ◌++◌, if◌then◌else◌, length,
  Result, ok, throw, Exception, ◌>>=◌,
}
use byzantine_agreement.Msg.{Order, Message, order_eq}
use byzantine_agreement.Behavior.{MaliciousBehavior, wrong_order}
use byzantine_agreement.Udp.{Client, Kernel}
use byzantine_agreement.Generals.Senders.{Sender, sender_endings, join_endings}
use byzantine_agreement.Generals.Base.{
  General, Platform, ProcessList, new_general, client_for_id, exhibits_behavior, should_send_msg,
  log_message,
}

-- `wrong_draws` is where the engine of `OrderForMsg` stands.
pub record Commander : Type 0 where
  pub general : General
  pub open general use *
  pub order : Order
  pub wrong_draws : ℕ

unfoldable pub new_commander :
    Kernel → ProcessList → ℕ → Order → MaliciousBehavior → Result Commander
new_commander k processes faulty order behavior = do
  g ← new_general k processes 0 faulty behavior
  ok (record { general = g; order = order; wrong_draws = 0 })

-- The order for one message, and the commander after the draw.
unfoldable pub order_for_msg : Platform → Commander → Order × Commander
order_for_msg p c =
    if exhibits_behavior c.general wrong_order
    then (
      if p.wrong_draw c.wrong_draws
          then (if order_eq c.order Order.attack then Order.retreat else Order.attack)
          else c.order,
      record c { wrong_draws = c.wrong_draws + 1 },
    )
    else (c.order, c)

abbrev pub Started : Type 0
Started = Commander × List Sender

-- One round of the loop over the lieutenants.
unfoldable pub send_to : Platform → ℕ → Started → Result Started
send_to p pid (c, senders) =
    let (send_it, g) = should_send_msg p c.general in
    let c₁ = record c { general = g } in
    if not send_it
    then ok (c₁, senders)
    else let (o, c₂) = order_for_msg p c₁ in
      let msg : Message = record { round = c.round; order = o; ids = 0 ∷ [] } in
      (log_message p msg >>= λ _. client_for_id c₂.general pid >>= λ client.
      ok (c₂, senders ++ record { client = client; msg = msg } ∷ []))

-- The loop over the `count` processes from `pid` on.
unfoldable pub send_from : Platform → ℕ → ℕ → Started → Result Started
send_from p zero pid st = ok st
send_from p (suc count) pid st = do st' ← send_to p pid st; send_from p count (pid + 1) st'

-- `Commander::Decide` up to `JoinAll`: the order that it is to return, and the threads that run.
unfoldable pub launch : Platform → Commander → Result (Order × List Sender)
launch p c = do
  (c', senders) ← send_from p (length c.processes - 1) 1 (c, [])
  ok (c.order, senders)

-- `Commander::Decide`: the order, once the threads were joined.
unfoldable pub decide : Platform → Commander → Result Order
unfolding launch sender_endings join_endings
decide p c = do
  (o, senders) ← launch p c
  _ ← join_endings (sender_endings p c.general 0 senders)
  ok o
