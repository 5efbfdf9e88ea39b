-- ===== src/Generals/Network/Validity.antt =====
-- Networks of a commander that does not falsify orders, and of lieutenants: what they decide by.
use byzantine_agreement.Common.{
  ap, ◌>>=◌, ℕ, ℕ_discrete, ◌^◌, ◌<◌, ◌≡◌, refl, sym, ◌∙◌, inl, inr, arith, List, [], ◌∷◌, All,
  All-Memᴰ, ok, take, some, subst, false, Bool,
}
use mathlib.Core.Logic.{ite}
use byzantine_agreement.Msg.{Order, Message, order_code}
use byzantine_agreement.Behavior.{MaliciousBehavior, wrong_order}
use byzantine_agreement.Wire.{byzantine_msg_from_buf, message_buf}
use byzantine_agreement.Wire.Order.{byzantine_msg_from_buf-order}
use byzantine_agreement.Udp.{
  Kernel, SocketCalls, Arrival, received, refused, ServerAction, continue, stop, bufsize,
}
use byzantine_agreement.Generals.Base.{Platform, ProcessList, exhibits_behavior}
use byzantine_agreement.Generals.Commander.{Commander, launch, decide}
use byzantine_agreement.Generals.Senders.{Sender, sender_endings, join_endings}
use byzantine_agreement.Generals.Commander.Sends.{decide-launch}
use byzantine_agreement.Generals.Commander.Orders.{launch-honest, IsCommand}
use byzantine_agreement.Generals.Forward.{Batch}
use byzantine_agreement.Generals.Lieutenant.{
  Lieutenant, Readings, new_lieutenant, take_message, decide_order,
}
use byzantine_agreement.Generals.Lieutenant.Changes.{acked}
use byzantine_agreement.Generals.Lieutenant.Validity.{
  Carries, Holds, waits, IsGood, IsUnanimous, serve-IsGood, choice_of_one,
}
use byzantine_agreement.Generals.Lieutenant.Served.{Served, only_changes, takes, serve-Served}
use byzantine_agreement.Generals.Made.{new_lieutenant-HasFields}
use byzantine_agreement.Generals.Network.{
  Node, listening, stopped, failed, state, after, update, IsSent, by_commander, by_lieutenant,
  by_stranger, MayArrive, Step, handles, throws, Reach, start, later,
}
use byzantine_agreement.Generals.Network.Orders.{
  MessagesCarry, IsTrue, Change-IsTrue, take_message-IsTrue, acked-IsTrue,
}

pub command_fits : (o : Order) → IsCommand o → order_code o < 2 ^ 32
unfolding order_code
command_fits o c = ground arith

no_order_fits : order_code Order.no_order < 2 ^ 32
unfolding order_code
no_order_fits = omega arith

-- The buffer of a message that carries the order, or none, decodes to such a message.
decoded-Carries :
    (o : Order) (m m' : Message)
    → IsCommand o
    → Carries o m
    → byzantine_msg_from_buf (take bufsize (message_buf m)) ≡ some m'
    → Carries o m'
decoded-Carries o m m' c (inl e) d = inl (
    byzantine_msg_from_buf-order m m'
      (subst (λ q. order_code q < 2 ^ 32) (sym e) (command_fits o c)) d
    ∙ e)
decoded-Carries o m m' c (inr e) d = inr (
    byzantine_msg_from_buf-order m m' (subst (λ q. order_code q < 2 ^ 32) (sym e) no_order_fits) d
    ∙ e)

-- What holds of a process at any time: it has not decided before it saw the order, it saw no other,
-- and it sends no other.
abbrev NodeHolds : Order → Node → Type 0
NodeHolds o (listening l) = Holds o l × IsTrue o l
NodeHolds o (stopped l) = (l.orders_seen ≡ o ∷ []) × IsTrue o l
NodeHolds o (failed l) = IsTrue o l

NodeHolds-IsTrue : (o : Order) (n : Node) → NodeHolds o n → IsTrue o (state n)
NodeHolds-IsTrue o (listening l) v = v.1
NodeHolds-IsTrue o (stopped l) v = v.1
NodeHolds-IsTrue o (failed l) v = v

after-NodeHolds :
    (o : Order) (r : Lieutenant × ServerAction) → IsGood o r → IsTrue o r.0 → NodeHolds o (after r)
after-NodeHolds o (l, continue) g t = (g.0, t)
after-NodeHolds o (l, stop) g t = (g.1 refl, t)

Served-IsTrue :
    (p : Platform) (o : Order) (l : Lieutenant) (a : Arrival Readings)
    {r : Lieutenant × ServerAction}
    → IsTrue o l
    → IsUnanimous o a
    → Served p l a r
    → IsTrue o r.0
Served-IsTrue p o l a v c (only_changes x k) = Change-IsTrue p o l x k v
Served-IsTrue p o l a v c (takes d x client m from same q y k) =
    let true_order : IsUnanimous o (received d x) = subst (IsUnanimous o) same c in
    Change-IsTrue p o (take_message (acked l client) m).0 x k.changed
      (take_message-IsTrue o (acked l client) m (true_order m q) (acked-IsTrue o l client v))

pub update-All :
    (P : Node → Type 0) (s : ℕ → Node) (i : ℕ) (n : Node)
    → ((j : ℕ) → P (s j))
    → P n
    → (j : ℕ) → P (update s i n j)
update-All P s i n h v j = elim (ℕ_discrete i j) as (λ d. P (ite d n (s j))) [
  | yes e ↦ v
  | no e ↦ h j
]

module _ (n : ℕ) (p : ℕ → Platform) (senders : List Sender) (o : Order) (command : IsCommand o)
    (honest : All (λ (x : Sender). x.msg.order ≡ o) senders) where
  sent-Carries :
      (s : ℕ → Node) (bytes : List ℕ) (m' : Message)
      → ((j : ℕ) → NodeHolds o (s j))
      → IsSent n p senders s bytes
      → byzantine_msg_from_buf (take bufsize bytes) ≡ some m'
      → Carries o m'
  sent-Carries s bytes m' h (by_commander x q b) d =
      decoded-Carries o x.msg m' command (inl (All-Memᴰ _ senders honest q))
        (subst (λ t. byzantine_msg_from_buf (take bufsize t) ≡ some m') b d)
  sent-Carries s bytes m' h (by_lieutenant j b m lt q r e) d =
      let t = NodeHolds-IsTrue o (s j) (h j) in
      let batch : MessagesCarry o b.msgs =
        All-Memᴰ (λ (b : Batch). MessagesCarry o b.msgs) (state (s j)).started t.sent q in
      decoded-Carries o m m' command (All-Memᴰ (Carries o) b.msgs batch r)
        (subst (λ t. byzantine_msg_from_buf (take bufsize t) ≡ some m') e d)
  sent-Carries s bytes m' h (by_stranger e) d = cc

  MayArrive-IsUnanimous :
      (s : ℕ → Node) (a : Arrival Readings)
      → ((j : ℕ) → NodeHolds o (s j))
      → MayArrive n p senders s a
      → IsUnanimous o a
  MayArrive-IsUnanimous s (received d x) h v = λ m' e. sent-Carries s d.bytes m' h v e
  MayArrive-IsUnanimous s (refused e x) h v = tt

  Step-NodeHolds :
      {s t : ℕ → Node}
      → Step n p senders s t
      → ((j : ℕ) → NodeHolds o (s j))
      → (j : ℕ) → NodeHolds o (t j)
  Step-NodeHolds {s} (handles i l a r pos lt q m e) h =
      let v : NodeHolds o (listening l) = subst (NodeHolds o) q (h i) in
      let c = MayArrive-IsUnanimous s a h m in
      update-All (NodeHolds o) s i (after r) h (
        after-NodeHolds o r (serve-IsGood (p i) o l a r v.0 c e)
          (Served-IsTrue (p i) o l a v.1 c (serve-Served (p i) l a r e)))
  Step-NodeHolds {s} (throws i l a b pos lt q m e) h =
      let v : NodeHolds o (listening l) = subst (NodeHolds o) q (h i) in
      update-All (NodeHolds o) s i (failed l) h v.1

  Reach-NodeHolds :
      {ls : ℕ → Lieutenant} {s : ℕ → Node}
      → ((j : ℕ) → NodeHolds o (listening (ls j)))
      → Reach n p senders ls s
      → (j : ℕ) → NodeHolds o (s j)
  Reach-NodeHolds h start = h
  Reach-NodeHolds h (later r st) = Step-NodeHolds st (Reach-NodeHolds h r)

-- A lieutenant that was constructed without an exception.
pub record IsNew (l : Lieutenant) : Type 0 where
  pub kernel : Kernel
  pub processes : ProcessList
  pub id : ℕ
  pub calls : SocketCalls
  pub bound : Bool
  pub faulty : ℕ
  pub behavior : MaliciousBehavior
  pub made : new_lieutenant kernel processes id calls bound faulty behavior ≡ ok l

IsNew-NodeHolds : (o : Order) (l : Lieutenant) → IsNew l → NodeHolds o (listening l)
IsNew-NodeHolds o l n =
    let (g, z) =
      new_lieutenant-HasFields n.kernel n.processes n.id n.calls n.bound n.faulty n.behavior l
        n.made in
    (waits g.begins z.no_orders, record { kept = rw z.no_msgs tt; sent = rw z.none_started tt })

-- A commander that was given attack or retreat and does not falsify orders, and any number of
-- lieutenants, over a network that may lose, repeat, delay, reorder and misdirect what they send:
-- every lieutenant that decides, decides by the commander's order, and so does the commander, which
-- decides once it has joined the threads that it started. The lieutenants may be silent, drop or
-- delay messages, and any socket call of theirs may fail.
pub network_decides :
    (n : ℕ) (p : ℕ → Platform) (q : Platform) (c : Commander) (o : Order) (senders : List Sender)
    (ls : ℕ → Lieutenant) (s : ℕ → Node) (i : ℕ) (l : Lieutenant)
    → IsCommand c.order
    → exhibits_behavior c.general wrong_order ≡ false
    → launch q c ≡ ok (o, senders)
    → ((j : ℕ) → IsNew (ls j))
    → Reach n p senders ls s
    → s i ≡ stopped l
    → (decide_order l ≡ c.order)
      × (decide q c ≡ (join_endings (sender_endings q c.general 0 senders) >>= λ _. ok c.order))
network_decides n p q c o senders ls s i l k w e made r at =
    let (same, sent) = launch-honest q c o senders w e in
    let command : IsCommand o = subst IsCommand (sym same) k in
    let v : NodeHolds o (stopped l) =
      subst (NodeHolds o) at
        (Reach-NodeHolds n p senders o command sent (λ j. IsNew-NodeHolds o (ls j) (made j)) r i) in
    (
      choice_of_one o l command v.0 ∙ same,
      decide-launch q c c.order senders (e ∙ ap (λ k. ok (k, senders)) same),
    )
