-- ===== src/Generals/Network/Accepting.antt =====
-- What a lieutenant knows of a message that it has taken: `Lieutenant::Decide` of src/general.cc.
use byzantine_agreement.Common.{
  ℕ, ◌+◌, ◌<◌, ◌≤◌, ◌≡◌, ◌≢◌, refl, sym, ap, ◌∙◌, arith, Bool, true, List, length, subst, get_last?,
  some, ok, All-Memᴰ, take, ok-injective,
}
use byzantine_agreement.OrderedSet.Laws.{member-insert_self}
use byzantine_agreement.OrderedSet.Vectors.{list_order}
use byzantine_agreement.Msg.{Order, Message}
use byzantine_agreement.Msg.Less.{order_order}
use byzantine_agreement.Wire.{byzantine_msg_from_buf}
use byzantine_agreement.Net.{Address}
use byzantine_agreement.Udp.{
  Client, Datagram, received, serve, ServerAction, bufsize, client_of_sockaddr, remote_address,
}
use byzantine_agreement.Udp.Listen.{serve-received}
use byzantine_agreement.Generals.Base.{Platform}
use byzantine_agreement.Generals.Senders.{Sender}
use byzantine_agreement.Generals.Commander.Orders.{IsFirst, AllHanded}
use byzantine_agreement.Generals.Validation.{valid_message}
use byzantine_agreement.Generals.Lieutenant.{
  Lieutenant, Readings, accept, on_receive, receive_decoded, handle_round_timeout, take_message,
}
use byzantine_agreement.Generals.Lieutenant.Changes.{acked, accept-Accepted}
use byzantine_agreement.Generals.Network.{
  Node, listening, state, after, update, IsSent, Step, Reach,
}
use byzantine_agreement.Generals.Network.Spread.{Sees, SentTo, Local}
use byzantine_agreement.Generals.Network.Growth.{
  Step-AllGrow, Change-Grows, update_self, state-after,
}
use byzantine_agreement.Generals.Network.Arriving.{
  Origin, of_commander, of_lieutenant, IsSent-Origin, valid-IsFull,
}
use byzantine_agreement.Generals.Network.Listing.{
  Listed, nothing, initial, fresh, take_message-Listed,
}
use byzantine_agreement.Generals.Network.Single.{Single, acked-Single}

module _ (n : ℕ) (p : ℕ → Platform) (senders : List Sender) (ls : ℕ → Lieutenant) where
  -- On the way to a state, lieutenant `j` was served a message of the network that it takes: it is
  -- listening, and finds the message valid.
  pub data Took (j : ℕ) (m : Message) : (ℕ → Node) → Type 0 where
    now :
        {s : ℕ → Node} (l : Lieutenant) (d : Datagram) (x : Readings) (client : Client)
        (from : Address) (r : Lieutenant × ServerAction)
        → Reach n p senders ls s
        → j < n
        → s j ≡ listening l
        → IsSent n p senders s d.bytes
        → client_of_sockaddr d.calls d.from ≡ ok client
        → remote_address (p j).kernel client ≡ ok from
        → byzantine_msg_from_buf (take bufsize d.bytes) ≡ some m
        → valid_message l.general m from ≡ ok true
        → serve (on_receive (p j)) (handle_round_timeout (p j)) l (received d x) ≡ ok r
        → Took j m (update s j (after r))
    before : {s t : ℕ → Node} → Took j m s → Step n p senders s t → Took j m t

  -- Lieutenant `j` took all that the loyal lieutenants have started to send to it, but for messages
  -- without an order.
  abbrev pub IsTold : (ℕ → Bool) → (ℕ → Node) → ℕ → Type 0
  IsTold loyal s j =
      (a : ℕ) (m : Message)
      → a < n
      → loyal a ≡ true
      → SentTo (state (s a)).started j m
      → m.order ≢ Order.no_order
      → Took j m s

-- The callback on a valid message.
on_receive-valid :
    (p : Platform) (l : Lieutenant) (client : Client) (buf : List ℕ) (x : Readings) (from : Address)
    (m : Message)
    → remote_address p.kernel client ≡ ok from
    → byzantine_msg_from_buf buf ≡ some m
    → valid_message l.general m from ≡ ok true
    → on_receive p l client buf x ≡ accept p l client m x
unfolding on_receive receive_decoded
on_receive-valid p l client buf x from m e f v = rw (e, f, v) refl

module _ (n : ℕ) (p : ℕ → Platform) (senders : List Sender) (loyal : ℕ → Bool) (faulty : ℕ)
    (small : faulty + 2 ≤ 252) (firsts : AllHanded IsFirst senders) where
  -- The invariant of a lieutenant, with one order per path.
  abbrev pub IsLocal : (ℕ → Node) → ℕ → Lieutenant → Type 0
  IsLocal s a l = Local n loyal s p faulty a l × Single n p senders loyal faulty small firsts s a l

  abbrev pub AllLocal : (ℕ → Node) → Type 0
  AllLocal s = (a : ℕ) → a < n → IsLocal s a (state (s a))

  -- Two messages of lieutenants with the same ids have the same order.
  same_path :
      (s : ℕ → Node) (m k : Message)
      → AllLocal s
      → Origin n p senders loyal faulty small firsts s m
      → Origin n p senders loyal faulty small firsts s k
      → m.ids ≡ k.ids
      → 2 ≤ length m.ids
      → m.order ≡ k.order
  same_path s m k all (of_commander x i e) o d long = absurd (
      omega (
        arith,
        long,
        ap (λ (z : Message). length z.ids) (sym e),
        ap length (All-Memᴰ _ senders firsts i).from_commander,
      ))
  same_path s m k all (of_lieutenant j q lt w) (of_commander x i e) d long = absurd (
      omega (
        arith,
        long,
        ap length d,
        ap (λ (z : Message). length z.ids) (sym e),
        ap length (All-Memᴰ _ senders firsts i).from_commander,
      ))
  same_path s m k all (of_lieutenant j q lt w) (of_lieutenant i r lt' z) d long =
      let h = (all j lt).1 in
      let by : get_last? m.ids ≡ some j = h.sent_by q m w in
      let by' : get_last? k.ids ≡ some i = (all i lt').1.sent_by r k z in
      let same : i ≡ j = ground (arith, by, by', d) in
      h.sent_single q r m k w (subst (λ b. SentTo (state (s b)).started r k) same z) d

  taken-Sees :
      (s : ℕ → Node) (j : ℕ) (l l' : Lieutenant) (m : Message)
      → AllLocal s
      → Single n p senders loyal faulty small firsts s j l
      → Origin n p senders loyal faulty small firsts s m
      → l.round ≢ 0
      → 2 ≤ length m.ids
      → m.order ≢ Order.no_order
      → Listed l m l'
      → Sees l' m.order
  taken-Sees s j l l' m all h o later long real (nothing replay eo em ei) =
      let (k, w, e, y) = h.listed m.ids (replay later) in
      let same : k.order ≡ m.order = sym (same_path s m k all o w (sym e) long) in
      rw (eo, ← same) (y (rw same real))
  taken-Sees s j l l' m all h o later long real (initial r none eo em ei) =
      rw eo (member-insert_self m.order l.orders_seen)
  taken-Sees s j l l' m all h o later long real (fresh k r new ec em ei y grow) = y real

  taken_known :
      (s : ℕ → Node) (j : ℕ) (l : Lieutenant) (client : Client) (m : Message)
      → AllLocal s
      → IsLocal s j l
      → Origin n p senders loyal faulty small firsts s m
      → l.round ≢ 0
      → 2 ≤ length m.ids
      → m.order ≢ Order.no_order
      → Sees (take_message (acked l client) m).0 m.order
  unfolding acked
  taken_known s j l client m all h o later long real =
      taken-Sees s j (acked l client) (take_message (acked l client) m).0 m all
        (acked-Single n p senders loyal faulty small firsts l client h.1) o later long real
        (take_message-Listed (acked l client) m)

  -- An order that a lieutenant was told by a lieutenant is known to it ever after.
  pub Took-Sees :
      (ls : ℕ → Lieutenant) (j : ℕ) (m : Message) {t : ℕ → Node}
      → ((s : ℕ → Node) → Reach n p senders ls s → AllLocal s)
      → 2 ≤ length m.ids
      → m.order ≢ Order.no_order
      → Took n p senders ls j m t
      → Sees (state (t j)) m.order
  Took-Sees ls j m inv long real (before {s} {t} k st) =
      (Step-AllGrow n p senders st j).0 m.order (Took-Sees ls j m inv long real k)
  Took-Sees ls j m inv long real (now {s} l d x client from r reach lt at sent c f e v served) =
      let all = inv s reach in
      let h : IsLocal s j l = subst (λ (k : Node). IsLocal s j (state k)) at (all j lt) in
      let o =
        IsSent-Origin n p senders loyal faulty small firsts s d.bytes m (λ a q. (all a q).0) sent
          e in
      let full =
        valid-IsFull n loyal l.general m from h.0.placed.all_listed
          (omega (arith, h.0.within, small)) v in
      let (client', c', e') =
        serve-received (on_receive (p j)) (handle_round_timeout (p j)) l d x served in
      let same : client' ≡ client = ok-injective (sym c' ∙ c) in
      let accepted : accept (p j) l client m x ≡ ok r =
        sym (on_receive-valid (p j) l client (take bufsize d.bytes) x from m f e v)
        ∙ subst (λ k. on_receive (p j) l k (take bufsize d.bytes) x ≡ ok r) same e' in
      let a = accept-Accepted (p j) l client m x accepted in
      let later : l.round ≢ 0 = λ z. omega (arith, full.not_later, full.one_id_each, long, z) in
      rw (update_self s j (after r), state-after r)
        ((Change-Grows (p j) (take_message (acked l client) m).0 x a.changed).0 m.order
          (taken_known s j l client m all h o later long real))
