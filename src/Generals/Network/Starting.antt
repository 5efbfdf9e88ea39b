-- ===== src/Generals/Network/Starting.antt =====
-- What `InitNewRound` of src/general.cc starts, message by message.
use byzantine_agreement.Common.{
  ℕ, ◌+◌, ◌-◌, ◌%◌, ◌^◌, ◌<◌, ◌≡◌, refl, sym, ◌∙◌, inl, inr, arith, false, List, [], ◌∷◌, ◌++◌,
  ◌==◌, Bool-cases, All, All-append, length, contains, ok, >>=-eq-ok, ok-injective, subst, ap,
}
use mathlib.Core.List.{Memᴰ}
use mathlib.Core.List.Memᴰ.{append_left}
use byzantine_agreement.Msg.{Message}
use byzantine_agreement.Generals.Base.{General, Platform, increment_round}
use byzantine_agreement.Generals.Forward.{Batch, Sending, forward_all, relayed}
use byzantine_agreement.Generals.Forward.Content.{AllSent, extended, forward_all-AllSent}
use byzantine_agreement.Generals.Lieutenant.{
  Lieutenant, Readings, init_new_round, start_round, without_senders,
}
use byzantine_agreement.Generals.Lieutenant.Rounds.{
  init_new_round_inv, init_new_round-joined, forward-Kept,
}
use byzantine_agreement.Generals.Lieutenant.Relay.{
  IsOpen, AreCurrent, batch_of, share, init_new_round-share,
}
use byzantine_agreement.Generals.Network.Spread.{SentTo}

-- The loop only ends if every message is of the round before.
forward_all-AreCurrent :
    (p : Platform) (ms : List Message) (st st' : Sending)
    → forward_all p ms st ≡ ok st'
    → AreCurrent st.0 ms
unfolding forward_all
forward_all-AreCurrent p [] st st' e = tt
forward_all-AreCurrent p (m ∷ ms) st st' e =
    elim (Bool-cases (m.round == (st.0.round + 2 ^ 32 - 1) % 2 ^ 32)) [
      | inl h ↦
          let (st₁, e₁, e₂) = >>=-eq-ok _ _ (rw (h, forward_all) at e) in
          let kept = forward-Kept p (relayed st.0 m) (length st.0.processes) 0 st st₁ e₁ in
          (ground arith, rw kept.round at (forward_all-AreCurrent p ms st₁ st' e₂))
      | inr h ↦ cc (rw (h, forward_all) at e)
    ]

-- The batches of a new round, which all its senders get.
pub record Started (p : Platform) (l l' : Lieutenant) : Type 0 where
  pub sending : Sending
  pub forwarded : forward_all p l.msgs_this_round (increment_round l.general, []) ≡ ok sending
  pub now_running : l'.sender_threads ≡ sending.1
  pub all_started : l'.started ≡ sending.1 ++ l.started

pub init_new_round-Started :
    (p : Platform) (l l' : Lieutenant) (x : Readings)
    → init_new_round p l x ≡ ok l'
    → Started p l l'
unfolding start_round without_senders
init_new_round-Started p l l' x e =
    let (st, e₁, e₂) = init_new_round_inv p l l' x e in
    subst (λ k. Started p l k) e₂
      (record { sending = st; forwarded = e₁; now_running = refl; all_started = refl })

pub Started-AreCurrent :
    (p : Platform) (l l' : Lieutenant)
    → Started p l l'
    → AreCurrent (increment_round l.general) l.msgs_this_round
Started-AreCurrent p l l' s = forward_all-AreCurrent p l.msgs_this_round _ s.sending s.forwarded

batch_of-Memᴰ : (q : ℕ) (bs : List Batch) {m : Message} → Memᴰ m (batch_of q bs) → SentTo bs q m
batch_of-Memᴰ q [] i = elim i [ ]
batch_of-Memᴰ q (b ∷ bs) {m} i = elim (Bool-cases (b.pid == q)) [
  | inl e ↦ record {
    batch = b;
    is_started = Memᴰ.head refl;
    is_for = ground arith;
    is_in = rw e at i;
  }
  | inr e ↦
      let s = batch_of-Memᴰ q bs {m = m} (rw e at i) in
      record {
        batch = s.batch;
        is_started = Memᴰ.tail s.is_started;
        is_for = s.is_for;
        is_in = s.is_in;
      }
]

share-Memᴰ :
    (g : General) (q : ℕ) (ms : List Message) {m : Message}
    → Memᴰ m ms
    → contains (m.ids ++ g.id ∷ []) q ≡ false
    → Memᴰ (relayed g m) (share g q ms)
share-Memᴰ g q [] i c = elim i [ ]
share-Memᴰ g q (k ∷ ms) (Memᴰ.head e) c =
    let c' : contains (k.ids ++ g.id ∷ []) q ≡ false =
      subst (λ (z : Message). contains (z.ids ++ g.id ∷ []) q ≡ false) e c in
    rw c' (Memᴰ.head (ap (relayed g) e))
share-Memᴰ g q (k ∷ ms) {m} (Memᴰ.tail i) c = elim (Bool-cases (contains (k.ids ++ g.id ∷ []) q)) [
  | inl e ↦ rw e (share-Memᴰ g q ms {m = m} i c)
  | inr e ↦ rw e (Memᴰ.tail (share-Memᴰ g q ms {m = m} i c))
]

-- A loyal lieutenant that starts a round sends each message it holds back to every process that the
-- message does not name.
pub init_new_round-SentTo :
    (p : Platform) (l l' : Lieutenant) (x : Readings) (q : ℕ) (m : Message)
    → IsOpen p l.general
    → init_new_round p l x ≡ ok l'
    → Memᴰ m l.msgs_this_round
    → q < length l.processes
    → contains (m.ids ++ l.id ∷ []) q ≡ false
    → SentTo l'.started q (relayed (increment_round l.general) m)
unfolding increment_round
init_new_round-SentTo p l l' x q m o e i lt c =
    let s = init_new_round-Started p l l' x e in
    let (k, e', b) =
      init_new_round-share p l x q (init_new_round-joined p l l' x e) o
        (Started-AreCurrent p l l' s) in
    let same : k ≡ l' = ok-injective (sym e' ∙ e) in
    let sent : Memᴰ (relayed (increment_round l.general) m) (batch_of q s.sending.1) = ground (
      arith,
      share-Memᴰ (increment_round l.general) q l.msgs_this_round i c,
      b,
      s.now_running,
      same,
    ) in
    let w = batch_of-Memᴰ q s.sending.1 {m = relayed (increment_round l.general) m} sent in
    record {
      batch = w.batch;
      is_started = rw s.all_started (append_left l.started w.is_started);
      is_for = w.is_for;
      is_in = w.is_in;
    }

-- What a lieutenant has sent once it has started a round: what it had sent before, or a message it
-- held back, with the new round and its id.
pub Started-AllSent {κ} :
    (P : Message → Type κ) (p : Platform) (l l' : Lieutenant)
    → Started p l l'
    → All (λ m. P (extended ((l.round + 1) % 2 ^ 32) l.id m)) l.msgs_this_round
    → AllSent P l.started
    → AllSent P l'.started
unfolding increment_round
Started-AllSent P p l l' s c h =
    let now : AllSent P s.sending.1 =
      forward_all-AllSent P p _ _ l.msgs_this_round _ s.sending refl refl c tt s.forwarded in
    rw s.all_started (All-append _ s.sending.1 l.started now h)
