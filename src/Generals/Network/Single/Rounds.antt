-- ===== src/Generals/Network/Single/Rounds.antt =====
-- One order per path, over the changes of rounds of `InitNewRound` in src/general.cc.
use byzantine_agreement.Common.{
  ℕ, ◌+◌, ◌%◌, ◌^◌, ◌≤◌, ◌≡◌, refl, ap, arith, Bool, List, [], ◌∷◌, length, length-append,
  get_last?, get_last?-append, some, ok, All-Memᴰ, All-intro,
}
use mathlib.Core.List.{Memᴰ}
use byzantine_agreement.OrderedSet.{member}
use byzantine_agreement.OrderedSet.Vectors.{list_order}
use byzantine_agreement.Msg.{Message}
use byzantine_agreement.Msg.Less.{order_order, message_order}
use byzantine_agreement.Udp.{ServerAction}
use byzantine_agreement.Generals.Base.{Platform, increment_round}
use byzantine_agreement.Generals.Senders.{Sender}
use byzantine_agreement.Generals.Commander.Orders.{IsFirst, AllHanded}
use byzantine_agreement.Generals.Forward.Content.{extended}
use byzantine_agreement.Generals.Lieutenant.{Lieutenant, Readings, without_senders, init_new_round}
use byzantine_agreement.Generals.Lieutenant.Rounds.{Renewed, init_new_round-Renewed}
use byzantine_agreement.Generals.Lieutenant.Changes.{Change, stays, ends, renews}
use byzantine_agreement.Generals.Network.{Node}
use byzantine_agreement.Generals.Network.Spread.{SentTo, Local}
use byzantine_agreement.Generals.Network.Starting.{
  init_new_round-Started, Started-AreCurrent, Started-AllSent,
}
use byzantine_agreement.Generals.Network.Renewing.{AllSent-SentTo, SentTo-AllSent}
use byzantine_agreement.Generals.Network.Single.{Single, with_kept, snoc_injective}

module _ (n : ℕ) (p : ℕ → Platform) (senders : List Sender) (loyal : ℕ → Bool) (faulty : ℕ)
    (small : faulty + 2 ≤ 252) (firsts : AllHanded IsFirst senders) (s : ℕ → Node) (a : ℕ)
    (l : Lieutenant) (x : Readings) (h : Local n loyal s p faulty a l)
    (w : Single n p senders loyal faulty small firsts s a l) where
  -- What a lieutenant has started in a new round is what it had started before, or a message that it
  -- held back.
  data IsOf (m : Message) : Type 0 where
    old : (q : ℕ) → SentTo l.started q m → IsOf m
    new :
        (k : Message)
        → Memᴰ k l.msgs_this_round
        → length k.ids ≡ l.round + 1
        → m ≡ extended ((l.round + 1) % 2 ^ 32) l.id k
        → IsOf m

  module _ (l' : Lieutenant) (e : init_new_round (p a) l x ≡ ok l') where
    all-IsOf : (q : ℕ) (m : Message) → SentTo l'.started q m → IsOf m
    unfolding increment_round
    all-IsOf q m =
        let started = init_new_round-Started (p a) l l' x e in
        let current = Started-AreCurrent (p a) l l' started in
        AllSent-SentTo IsOf l'.started (
          Started-AllSent IsOf (p a) l l' started
            (All-intro _ l.msgs_this_round (λ k i.
              new k i
                (omega (
                  arith,
                  (h.kept_full k i).one_id_each,
                  All-Memᴰ _ l.msgs_this_round current i,
                  h.within,
                  small,
                ))
                refl))
            (SentTo-AllSent IsOf l.started (λ r k z. old r z)))

    renewed : Renewed l l' x
    renewed = init_new_round-Renewed (p a) l l' x e

    next_round : l'.round ≡ l.round + 1
    unfolding increment_round
    next_round = omega (arith, renewed.general.round, h.within, small)

    length-extended : (r i : ℕ) (k : Message) → length (extended r i k).ids ≡ length k.ids + 1
    length-extended r i k = length-append k.ids (i ∷ [])

    short : {m : Message} → IsOf m → length m.ids ≤ l'.round + 1
    short {m} (old q z) = omega (arith, w.sent_short q m z, next_round)
    short (new k i c e) = rw e (omega (arith, length-extended 0 l.id k, c, next_round))

    long : {m : Message} → IsOf m → 2 ≤ length m.ids
    long {m} (old q z) = w.sent_long q m z
    long (new k i c e) = rw e (omega (arith, length-extended 0 l.id k, c))

    by : {m : Message} → IsOf m → get_last? m.ids ≡ some a
    by {m} (old q z) = w.sent_by q m z
    by (new k i c e) = rw (e, ← h.placed.own_id) (get_last?-append k.ids l.id)

    single : {m k : Message} → IsOf m → IsOf k → m.ids ≡ k.ids → m.order ≡ k.order
    single {m} {k} (old q y) (old r z) d = w.sent_single q r m k y z d
    single {m} (old q y) (new k i c e) d = absurd (
        omega (
          arith,
          w.sent_short q m y,
          ap length d,
          ap (λ (z : Message). length z.ids) e,
          length-extended 0 l.id k,
          c,
        ))
    single {k = m} (new k i c e) (old q y) d = absurd (
        omega (
          arith,
          w.sent_short q m y,
          ap length d,
          ap (λ (z : Message). length z.ids) e,
          length-extended 0 l.id k,
          c,
        ))
    single (new k i c e) (new k' i' c' e') d =
        rw (e, e') (w.kept_single k k' i i' (snoc_injective k.ids k'.ids l.id (rw (e, e') at d)))

    init_new_round-Single : Single n p senders loyal faulty small firsts s a l'
    unfolding member
    init_new_round-Single = record {
      kept_listed = λ _ m i. elim (rw renewed.no_msgs at i) [ ];
      none_kept = λ _ _. renewed.no_msgs;
      kept_single = λ m k i j d. elim (rw renewed.no_msgs at i) [ ];
      sent_short = λ q m z. short (all-IsOf q m z);
      sent_long = λ q m z. long (all-IsOf q m z);
      sent_by = λ q m z. by (all-IsOf q m z);
      sent_single = λ q r m k y z d. single (all-IsOf q m y) (all-IsOf r k z) d;
      listed = λ ids i. cc (rw renewed.no_ids at i);
    }

  -- A change of rounds keeps one order per path.
  pub Change-Single :
      {r : Lieutenant × ServerAction}
      → Change (p a) l x r
      → Single n p senders loyal faulty small firsts s a r.0
  unfolding without_senders
  Change-Single (stays e) = rw e w
  Change-Single (ends b last e) = rw e (
      with_kept n p senders loyal faulty small firsts l (without_senders l) w refl refl
        w.kept_listed w.none_kept w.kept_single w.listed)
  Change-Single (renews l' last e₁ e) = rw e (init_new_round-Single l' e₁)
