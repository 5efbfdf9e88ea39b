-- ===== src/Generals/Commander/Decides.antt =====
-- `Commander::Decide` of src/general.cc, for commanders of every behaviour.
use byzantine_agreement.Common.{
  ℕ, zero, suc, ◌+◌, ◌-◌, ◌<◌, ◌≤◌, ◌≡◌, refl, inl, inr, arith, List, [], ◌∷◌, ◌++◌, length, ok,
  >>=-eq-ok, ok-injective, subst, Bool-cases, get_elem?-lt,
}
use byzantine_agreement.Msg.{Order, Message, show_message, order_string}
use byzantine_agreement.Behavior.{MaliciousBehavior}
use byzantine_agreement.Udp.{Client, Kernel}
use byzantine_agreement.Generals.Base.{
  Platform, ProcessList, should_send_msg, log_message, client_for_id, new_general,
}
use byzantine_agreement.Generals.Clients.{new_general_inv, new_general-client_for_id}
use byzantine_agreement.Generals.Lieutenant.Rounds.{should_send_msg-Kept}
use byzantine_agreement.Generals.Commander.{
  Commander, Started, new_commander, order_for_msg, send_to, send_from, launch, decide,
}
use byzantine_agreement.Generals.Senders.{Sender}
use byzantine_agreement.Generals.Senders.Joined.{AllAnswered, sender_endings-joined}
use byzantine_agreement.Generals.Commander.Orders.{IsCommand}

-- A commander with an order to give and a client for each process.
record CanSend (n : ℕ) (c : Commander) : Type 0 where
  command : IsCommand c.order
  clients : (q : ℕ) → q < n → (client : Client) × (client_for_id c.general q ≡ ok client)

log_message-ok : (p : Platform) (m : Message) → IsCommand m.order → log_message p m ≡ ok tt
unfolding log_message show_message order_string
log_message-ok p m (inl e) = ground (arith, e)
log_message-ok p m (inr e) = ground (arith, e)

drawn-CanSend :
    (n : ℕ) (p : Platform) (c : Commander)
    → CanSend n c
    → CanSend n (record c { general = (should_send_msg p c.general).1 })
unfolding client_for_id
drawn-CanSend n p c h =
    let k = should_send_msg-Kept p c.general in
    record { command = h.command; clients = λ q lt. rw (k.processes, k.clients) (h.clients q lt) }

order_for_msg-general : (p : Platform) (c : Commander) → (order_for_msg p c).1.general ≡ c.general
unfolding order_for_msg
order_for_msg-general p c = ground arith

order_for_msg-CanSend :
    (n : ℕ) (p : Platform) (c : Commander)
    → CanSend n c
    → IsCommand (order_for_msg p c).0 × CanSend n (order_for_msg p c).1
unfolding order_for_msg
order_for_msg-CanSend n p c h = (
  ground (arith, h.command),
  record {
    command = ground (arith, h.command);
    clients = λ q lt. rw (order_for_msg-general p c) (h.clients q lt);
  },
)

send_to-CanSend :
    (n : ℕ) (p : Platform) (pid : ℕ) (c : Commander) (senders : List Sender)
    → pid < n
    → CanSend n c
    → (st : Started) × (send_to p pid (c, senders) ≡ ok st) × CanSend n st.0
unfolding send_to
send_to-CanSend n p pid c senders lt h =
    let c₁ : Commander = record c { general = (should_send_msg p c.general).1 } in
    let h₁ = drawn-CanSend n p c h in
    elim (Bool-cases (should_send_msg p c.general).0) [
      | inr not_sent ↦ ((c₁, senders), rw not_sent refl, h₁)
      | inl is_sent ↦
          let (o, c₂) = order_for_msg p c₁ in
          let (command, h₂) = order_for_msg-CanSend n p c₁ h₁ in
          let (client, e) = h₂.clients pid lt in
          let m : Message = record { round = c.round; order = o; ids = 0 ∷ [] } in
          (
            (c₂, senders ++ record { client = client; msg = m } ∷ []),
            rw (is_sent, log_message-ok p m command, e) refl,
            h₂,
          )
    ]

send_from-CanSend :
    (n : ℕ) (p : Platform) (count pid : ℕ) (c : Commander) (senders : List Sender)
    → count ≤ n - pid
    → CanSend n c
    → (st : Started) × (send_from p count pid (c, senders) ≡ ok st)
unfolding send_from
send_from-CanSend n p zero pid c senders lt h = ((c, senders), refl)
send_from-CanSend n p (suc count) pid c senders lt h =
    let (st, e, h') = send_to-CanSend n p pid c senders (omega arith) h in
    let (st', e') = send_from-CanSend n p count (pid + 1) st.0 st.1 (omega arith) h' in
    (st', rw e e')

new_commander-CanSend :
    (k : Kernel) (ps : ProcessList) (faulty : ℕ) (order : Order) (b : MaliciousBehavior)
    (c : Commander)
    → new_commander k ps faulty order b ≡ ok c
    → IsCommand order
    → CanSend (length c.processes) c × (c.order ≡ order)
unfolding new_commander
new_commander-CanSend k ps faulty order b c e h =
    let (g, e₁, e₂) = >>=-eq-ok (new_general k ps 0 faulty b) _ e in
    let (same, first) = new_general_inv k ps 0 faulty b g e₁ in
    subst (λ (d : Commander). CanSend (length d.processes) d × (d.order ≡ order)) (ok-injective e₂)
      (
        record {
          command = h;
          clients = λ q lt.
              let (a, i) = get_elem?-lt ps q (rw same at lt) in
              let (client, e', _) = new_general-client_for_id k ps 0 faulty b g q a e₁ i in
              (client, e');
        },
        refl,
      )

-- A commander that was made with an order launches its threads, whatever its behaviour.
launch-always :
    (p : Platform) (ps : ProcessList) (faulty : ℕ) (order : Order) (b : MaliciousBehavior)
    (c : Commander)
    → new_commander p.kernel ps faulty order b ≡ ok c
    → IsCommand order
    → (senders : List Sender) × (launch p c ≡ ok (order, senders))
unfolding launch
launch-always p ps faulty order b c e h =
    let (v, o) = new_commander-CanSend p.kernel ps faulty order b c e h in
    let (st, e') =
      send_from-CanSend (length c.processes) p (length c.processes - 1) 1 c [] (omega arith) v in
    (st.1, rw e' (rw o refl))

-- It decides by its order when every send of its threads succeeds and is met by a timeout or an
-- acknowledgement.
pub decide-always :
    (p : Platform) (ps : ProcessList) (faulty : ℕ) (order : Order) (b : MaliciousBehavior)
    (c : Commander)
    → new_commander p.kernel ps faulty order b ≡ ok c
    → IsCommand order
    → AllAnswered p
    → decide p c ≡ ok order
unfolding decide
decide-always p ps faulty order b c e h answered =
    let (ss, e') = launch-always p ps faulty order b c e h in
    rw (e', sender_endings-joined p c.general 0 ss answered) refl
