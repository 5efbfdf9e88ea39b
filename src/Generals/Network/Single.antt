-- ===== src/Generals/Network/Single.antt =====
-- One order per path: what `ids_this_round_` is for in `Lieutenant::Decide` of src/general.cc.
pub mod Rounds
use byzantine_agreement.Common.{
  ℕ, zero, suc, ◌+◌, ◌-◌, ◌%◌, ◌^◌, ◌<◌, ◌≤◌, ◌≡◌, ◌≢◌, ◌⊎◌, refl, sym, ap, ◌∙◌, inl, inr, arith,
  Bool, true, false, not, ◌&&◌, ◌||◌, ◌==◌, List, [], ◌∷◌, ◌++◌, Bool-cases, length, length-append,
  subst, get_last?, get_last?-append, some, ok, All-Memᴰ, All-intro,
}
use mathlib.Core.List.{Memᴰ}
use byzantine_agreement.OrderedSet.{insert, member, same, size}
use byzantine_agreement.OrderedSet.Laws.{member-insert, member-insert_self, same→eq}
use byzantine_agreement.OrderedSet.Members.{Memᴰ-insert, member-insert_cases, member-insert_old}
use byzantine_agreement.OrderedSet.Vectors.{list_order}
use byzantine_agreement.Msg.{Order, Message, order_eq}
use byzantine_agreement.Msg.Less.{order_order, message_order, order_eq_iff}
use byzantine_agreement.Udp.{Client, ServerAction}
use byzantine_agreement.Generals.Base.{General, Platform, first_round, increment_round}
use byzantine_agreement.Generals.Senders.{Sender}
use byzantine_agreement.Generals.Commander.Orders.{IsFirst, AllHanded}
use byzantine_agreement.Generals.Forward.Content.{extended}
use byzantine_agreement.Generals.Lieutenant.{
  Lieutenant, Readings, take_first, take_later, take_message, without_senders, init_new_round,
}
use byzantine_agreement.Generals.Lieutenant.Rounds.{Renewed, init_new_round-Renewed}
use byzantine_agreement.Generals.Lieutenant.Changes.{Change, stays, ends, renews, acked}
use byzantine_agreement.Generals.Network.{Node, state}
use byzantine_agreement.Generals.Network.Spread.{Sees, SentTo, Local, AllGrow, SentTo-Grows, IsFull}
use byzantine_agreement.Generals.Network.Starting.{
  Started, init_new_round-Started, Started-AreCurrent, Started-AllSent,
}
use byzantine_agreement.Generals.Network.Renewing.{AllSent-SentTo, SentTo-AllSent}
use byzantine_agreement.Generals.Network.Arriving.{Origin, of_commander, of_lieutenant}
use byzantine_agreement.Generals.Network.Listing.{
  Listed, nothing, initial, fresh, take_message-Listed,
}
use byzantine_agreement.Generals.Network.Taking.{real_order, take_message-general}

insert_some : (o : Order) (s : List Order) → insert o s ≢ []
unfolding member
insert_some o s e = cc (rw e at (member-insert_self o s))

pub snoc_injective {ℓ} :
    {A : Type ℓ} → (xs ys : List A) (a : A) → xs ++ a ∷ [] ≡ ys ++ a ∷ [] → xs ≡ ys
snoc_injective [] [] a e = refl
snoc_injective [] (y ∷ ys) a e = absurd (omega (arith, ap length e, length-append ys (a ∷ [])))
snoc_injective (x ∷ xs) [] a e = absurd (omega (arith, ap length e, length-append xs (a ∷ [])))
snoc_injective (x ∷ xs) (y ∷ ys) a e = ground (arith, snoc_injective xs ys a, e)

-- Each path that a lieutenant names in a message has one order: among the messages that it holds back,
-- and among those that it has started to send. And for every path that it has listed in the round, it
-- has seen the order of a message that was sent to it over that path.
module _ (n : ℕ) (p : ℕ → Platform) (senders : List Sender) (loyal : ℕ → Bool) (faulty : ℕ)
    (small : faulty + 2 ≤ 252) (firsts : AllHanded IsFirst senders) where
  pub record Single (s : ℕ → Node) (a : ℕ) (l : Lieutenant) : Type 0 where
    pub kept_listed :
        l.round ≢ 0
        → (m : Message) → Memᴰ m l.msgs_this_round
        → member m.ids l.ids_this_round ≡ true
    pub none_kept : l.round ≡ 0 → l.orders_seen ≡ [] → l.msgs_this_round ≡ []
    pub kept_single :
        (m k : Message)
        → Memᴰ m l.msgs_this_round
        → Memᴰ k l.msgs_this_round
        → m.ids ≡ k.ids
        → m.order ≡ k.order
    pub sent_short : (q : ℕ) (m : Message) → SentTo l.started q m → length m.ids ≤ l.round + 1
    pub sent_long : (q : ℕ) (m : Message) → SentTo l.started q m → 2 ≤ length m.ids
    pub sent_by : (q : ℕ) (m : Message) → SentTo l.started q m → get_last? m.ids ≡ some a
    pub sent_single :
        (q r : ℕ) (m k : Message)
        → SentTo l.started q m
        → SentTo l.started r k
        → m.ids ≡ k.ids
        → m.order ≡ k.order
    pub listed :
        (ids : List ℕ)
        → member ids l.ids_this_round ≡ true
        → (m : Message) × Origin n p senders loyal faulty small firsts s m
          × (m.ids ≡ ids)
          × (m.order ≢ Order.no_order → Sees l m.order)

  pub Origin-Grows :
      {s t : ℕ → Node} {m : Message}
      → AllGrow s t
      → Origin n p senders loyal faulty small firsts s m
      → Origin n p senders loyal faulty small firsts t m
  Origin-Grows g (of_commander x i e) = of_commander x i e
  Origin-Grows g (of_lieutenant j q lt w) = of_lieutenant j q lt (SentTo-Grows n loyal (g j).1 w)

  pub Single-Grows :
      {s t : ℕ → Node} {a : ℕ} {l : Lieutenant} → AllGrow s t → Single s a l → Single t a l
  Single-Grows g h = record {
    kept_listed = h.kept_listed;
    none_kept = h.none_kept;
    kept_single = h.kept_single;
    sent_short = h.sent_short;
    sent_long = h.sent_long;
    sent_by = h.sent_by;
    sent_single = h.sent_single;
    listed = λ ids i. let (m, o, e, y) = h.listed ids i in (m, Origin-Grows g o, e, y);
  }

  -- The part that only depends on what was sent.
  pub with_kept :
      {s : ℕ → Node} {a : ℕ} (l l' : Lieutenant)
      → Single s a l
      → l'.general ≡ l.general
      → l'.started ≡ l.started
      → (l.round ≢ 0
          → (m : Message) → Memᴰ m l'.msgs_this_round
          → member m.ids l'.ids_this_round ≡ true)
      → (l.round ≡ 0 → l'.orders_seen ≡ [] → l'.msgs_this_round ≡ [])
      → ((m k : Message)
          → Memᴰ m l'.msgs_this_round
          → Memᴰ k l'.msgs_this_round
          → m.ids ≡ k.ids
          → m.order ≡ k.order)
      → ((ids : List ℕ)
          → member ids l'.ids_this_round ≡ true
          → (m : Message) × Origin n p senders loyal faulty small firsts s m
            × (m.ids ≡ ids)
            × (m.order ≢ Order.no_order → Sees l' m.order))
      → Single s a l'
  with_kept l l' h g b kept_listed none_kept kept_single listed = record {
    kept_listed = rw g kept_listed;
    none_kept = rw g none_kept;
    kept_single = kept_single;
    sent_short = λ q m w. rw g (h.sent_short q m (rw b at w));
    sent_long = λ q m w. h.sent_long q m (rw b at w);
    sent_by = λ q m w. h.sent_by q m (rw b at w);
    sent_single = λ q r m k w z. h.sent_single q r m k (rw b at w) (rw b at z);
    listed = listed;
  }

  Listed-Single :
      {s : ℕ → Node} {a : ℕ} (l l' : Lieutenant) (m : Message)
      → Single s a l
      → l'.general ≡ l.general
      → l'.started ≡ l.started
      → Origin n p senders loyal faulty small firsts s m
      → Listed l m l'
      → Single s a l'
  Listed-Single l l' m h g b o (nothing replay eo em ei) =
      with_kept l l' h g b (rw (em, ei) h.kept_listed) (rw (eo, em) h.none_kept)
        (rw em h.kept_single)
        (λ ids i. let (k, w, e, y) = h.listed ids (rw ei at i) in (k, w, e, λ z. rw eo (y z)))
  Listed-Single l l' m h g b o (initial r none eo em ei) =
      with_kept l l' h g b (λ z. absurd (z r))
        (λ _ z. absurd (insert_some m.order l.orders_seen (sym eo ∙ z)))
        (λ j k x y e.
          ap (λ (c : Message). c.order) (only_one (rw em at x) ∙ sym (only_one (rw em at y))))
        (λ ids i.
          let (k, w, e, y) = h.listed ids (rw ei at i) in
          (k, w, e, λ z. rw eo (member-insert_old k.order m.order l.orders_seen (y z))))
    where
      only_one : {k : Message} → Memᴰ k (insert m l.msgs_this_round) → k ≡ m
      only_one {k} i = elim (Memᴰ-insert m l.msgs_this_round i) [
        | inl e ↦ e
        | inr j ↦ elim (rw (h.none_kept r none) at j) [ ]
      ]
  Listed-Single l l' m h g b o (fresh c r new ec em ei y grow) =
      with_kept l l' h g b
        (λ z k i. elim (Memᴰ-insert c l.msgs_this_round (rw em at i)) [
          | inl e ↦ rw (ei, e, ec) (member-insert_self m.ids l.ids_this_round)
          | inr j ↦ rw ei (member-insert_old k.ids m.ids l.ids_this_round (h.kept_listed r k j))
        ])
        (λ z. absurd (r z))
        (λ j k x z e. elim (Memᴰ-insert c l.msgs_this_round (rw em at x)) [
          | inl e₁ ↦ elim (Memᴰ-insert c l.msgs_this_round (rw em at z)) [
            | inl e₂ ↦ cc
            | inr i₂ ↦ absurd (not_old k i₂ (cc))
          ]
          | inr i₁ ↦ elim (Memᴰ-insert c l.msgs_this_round (rw em at z)) [
            | inl e₂ ↦ absurd (not_old j i₁ (cc))
            | inr i₂ ↦ h.kept_single j k i₁ i₂ e
          ]
        ])
        (λ ids i. elim (member-insert_cases ids m.ids l.ids_this_round (rw ei at i)) [
          | inl e ↦ (m, o, sym e, y)
          | inr j ↦ let (k, w, e, z) = h.listed ids j in (k, w, e, λ q. grow k.order (z q))
        ])
    where
      not_old : (k : Message) → Memᴰ k l.msgs_this_round → k.ids ≢ m.ids
      not_old k i e = cc (h.kept_listed r k i)

  pub acked-Single :
      {s : ℕ → Node} {a : ℕ} (l : Lieutenant) (client : Client)
      → Single s a l
      → Single s a (acked l client)
  unfolding acked
  acked-Single l client h =
      with_kept l (acked l client) h refl refl h.kept_listed h.none_kept h.kept_single h.listed

  pub take_message-Single :
      {s : ℕ → Node} {a : ℕ} (l : Lieutenant) (client : Client) (m : Message)
      → Origin n p senders loyal faulty small firsts s m
      → Single s a l
      → Single s a (take_message (acked l client) m).0
  take_message-Single l client m o h =
      let (g, b) = take_message-general (acked l client) m in
      Listed-Single (acked l client) (take_message (acked l client) m).0 m (acked-Single l client h)
        g b o (take_message-Listed (acked l client) m)
