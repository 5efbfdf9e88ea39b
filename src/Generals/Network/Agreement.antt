-- ===== src/Generals/Network/Agreement.antt =====
-- Interactive consistency of the lieutenants of src/general.cc, under a commander that may falsify
-- its orders.
use byzantine_agreement.Common.{
  ℕ, ◌+◌, ◌<◌, ◌≤◌, ◌≡◌, ◌≢◌, refl, sym, ◌∙◌, inl, inr, arith, Bool, true, List, [], ◌∷◌, ◌++◌,
  Bool-cases, All-map, length, contains, contains-append, subst,
}
use mathlib.Core.List.{Memᴰ}
use byzantine_agreement.OrderedSet.Same.{same_elements}
use byzantine_agreement.Msg.{Order, Message}
use byzantine_agreement.Msg.Less.{order_order}
use byzantine_agreement.Generals.Base.{Platform, last_round}
use byzantine_agreement.Generals.Senders.{Sender}
use byzantine_agreement.Generals.Commander.Orders.{IsFirst, AllHanded, launch-IsFirst}
use byzantine_agreement.Generals.Lieutenant.{Lieutenant, decide_order}
use byzantine_agreement.Generals.Network.{Node, listening, stopped, state, Reach}
use byzantine_agreement.Generals.Network.Spread.{Sees, Relayed, Local-Grows}
use byzantine_agreement.Generals.Network.Arriving.{Origin-IsSound}
use byzantine_agreement.Generals.Network.Taking.{take_message-Local}
use byzantine_agreement.Generals.Network.Induction.{IsInvariant, Reach-AllHold}
use byzantine_agreement.Generals.Network.Relaying.{Change-Local}
use byzantine_agreement.Generals.Network.Members.{
  IsNetwork, IsMember-Local, IsMember-Single, IsMember-IsCurrent,
}
use byzantine_agreement.Generals.Network.Single.{Single-Grows, take_message-Single}
use byzantine_agreement.Generals.Network.Single.Rounds.{Change-Single}
use byzantine_agreement.Generals.Network.Accepting.{IsLocal, IsTold, Took-Sees}
use byzantine_agreement.Generals.Network.Paths.{count, is_traitor, loyal_on_path}
use byzantine_agreement.Generals.Network.Timely.{Timely, Timely-Reach, Timely-IsCurrent, IsCurrent}
use byzantine_agreement.Generals.Network.Stopping.{StopsLast, Reach-StopsLast}

same_decision : (l k : Lieutenant) → l.orders_seen ≡ k.orders_seen → decide_order l ≡ decide_order k
unfolding decide_order
same_decision l k e = rw e refl

module _ (n : ℕ) (p : ℕ → Platform) (senders : List Sender) (loyal : ℕ → Bool) (faulty : ℕ)
    (ls : ℕ → Lieutenant) (w : IsNetwork n p senders loyal faulty ls) where
  firsts : AllHanded IsFirst senders
  firsts = launch-IsFirst w.platform w.commander w.order senders w.command w.first w.launches

  IsLocal-IsInvariant :
      IsInvariant n p senders loyal faulty w.small firsts
        (IsLocal n p senders loyal faulty w.small firsts)
  IsLocal-IsInvariant = record {
    is_local = λ h. h.0;
    grows = λ g h.
        (Local-Grows n loyal g h.0, Single-Grows n p senders loyal faulty w.small firsts g h.1);
    takes = λ {s} {a} {l} client m all h o full. (
      take_message-Local n loyal s p faulty a l client m full
          (Origin-IsSound n p senders loyal faulty w.small firsts s m (λ b lt. (all b lt).0) o) h.0,
      take_message-Single n p senders loyal faulty w.small firsts l client m o h.1,
    );
    changes = λ {t} {a} {l} x h at c. (
      Change-Local n p senders loyal faulty w.few w.small firsts t a l x h.0 at c,
      Change-Single n p senders loyal faulty w.small firsts t a l x h.0 h.1 c,
    );
  }

  all-IsLocal :
      (s : ℕ → Node)
      → Reach n p senders ls s
      → (a : ℕ) → a < n
      → IsLocal n p senders loyal faulty w.small firsts s a (state (s a))
  all-IsLocal s =
      Reach-AllHold n p senders loyal faulty w.small firsts _ IsLocal-IsInvariant (λ a lt. (
        IsMember-Local n loyal (λ j. listening (ls j)) p faulty a (ls a) lt (w.members a lt),
        IsMember-Single n p senders loyal faulty w.small firsts (λ j. listening (ls j)) a (ls a)
            (w.members a lt),
      ))

  module _ (s : ℕ → Node) (r : Reach n p senders ls s) (j : ℕ) (lt_j : j < n) (lieutenant : 0 < j)
      (told : IsTold n p senders ls loyal s j) where
    -- What a loyal lieutenant has passed on is known.
    passed_on :
        (a : ℕ) (v : Order)
        → a < n
        → loyal a ≡ true
        → Sees (state (s a)) v
        → Relayed n loyal s a (state (s a)).started v
        → Sees (state (s j)) v
    passed_on a v lt is_loyal y d = elim (Bool-cases (contains (d.path ++ a ∷ []) j)) [
      | inl i ↦ elim (Bool-cases (contains d.path j)) [
        | inl k ↦ d.heard j k (omega arith)
        | inr k ↦
            let own : a ≡ j = ground (arith, contains-append d.path (a ∷ []) j) in
            subst (λ b. Sees (state (s b)) v) own y
      ]
      | inr i ↦
          let (m, e, sent) = d.passed_on is_loyal j lt_j i in
          let h = all-IsLocal s r a lt in
          let real : m.order ≢ Order.no_order = λ z. h.0.real v y (sym e ∙ z) in
          subst (Sees (state (s j))) e (
            Took-Sees n p senders loyal faulty w.small firsts ls j m all-IsLocal
              (h.1.sent_long j m sent) real (told a m lt is_loyal sent real))
    ]

    -- What a loyal lieutenant has seen that has come to the end of its last round is known.
    seen_too :
        (few : count (is_traitor loyal) n ≤ faulty) (i : ℕ) (v : Order)
        → i < n
        → loyal i ≡ true
        → last_round (state (s i)).general ≡ true
        → ((m : Message) → Memᴰ m (state (s i)).msgs_this_round → m.round ≡ (state (s i)).round)
        → Sees (state (s i)) v
        → Sees (state (s j)) v
    unfolding last_round
    seen_too few i v lt is_loyal last current y =
        let h = (all-IsLocal s r i lt).0 in
        elim (h.spread v y) [
          | inr d ↦ passed_on i v lt is_loyal y d
          | inl (real, (m, k, e)) ↦
              let full = h.kept_full m k in
              let at_end : (state (s i)).round ≡ faulty + 1 =
                ground (arith, last, h.placed.same_faulty, w.small) in
              let long : length m.ids ≡ faulty + 2 =
                omega (arith, full.one_id_each, current m k, at_end) in
              let (b, c, lt_b, z, is_loyal_b) =
                loyal_on_path loyal n faulty m.ids few long full.commander_first
                  (All-map (λ b q. q.0) m.ids full.others) full.no_id_twice in
              let (seen, passed) = (h.kept_sound m k).honest (rw e real) b c z in
              subst (Sees (state (s j))) e (passed_on b m.order lt_b is_loyal_b seen passed)
        ]

  pub at_all_times-IsCurrent :
      (s : ℕ → Node) → Timely n p senders ls s → (i : ℕ) → i < n → IsCurrent (state (s i))
  at_all_times-IsCurrent s t =
      Timely-IsCurrent n p senders ls
        (λ s a q reach. omega (arith, (all-IsLocal s reach a q).0.within, w.small))
        (λ a q. IsMember-IsCurrent n (p a) (loyal a) faulty a (ls a) (w.members a q)) t

  -- What is known of a lieutenant that has stopped in a timely network.
  at_end :
      (s : ℕ → Node) (i : ℕ) (l : Lieutenant)
      → Timely n p senders ls s
      → i < n
      → s i ≡ stopped l
      → (last_round (state (s i)).general ≡ true)
        × ((m : Message) → Memᴰ m (state (s i)).msgs_this_round → m.round ≡ (state (s i)).round)
  at_end s i l t lt e =
      let r = Timely-Reach n p senders t in
      let last : StopsLast (stopped l) = subst StopsLast e (Reach-StopsLast n p senders r i) in
      let current = at_all_times-IsCurrent s t i lt in (rw e last, current.kept)

-- A network of a commander, which may falsify its order to each lieutenant anew, and of lieutenants,
-- of which at most `faulty` (at most 250) are silent or drop messages; the loyal ones do not log. No
-- message arrives after its round. If two loyal lieutenants have decided, and each has taken every
-- message with an order that a loyal one has started to send to it, then both have seen the same
-- orders, and they decide by the same order.
pub network_agrees :
    (n : ℕ) (p : ℕ → Platform) (senders : List Sender) (loyal : ℕ → Bool) (faulty : ℕ)
    (ls : ℕ → Lieutenant) (s : ℕ → Node) (i j : ℕ) (l k : Lieutenant)
    (w : IsNetwork n p senders loyal faulty ls)
    → count (is_traitor loyal) n ≤ faulty
    → Timely n p senders ls s
    → 0 < i
    → i < n
    → 0 < j
    → j < n
    → loyal i ≡ true
    → loyal j ≡ true
    → s i ≡ stopped l
    → s j ≡ stopped k
    → IsTold n p senders ls loyal s i
    → IsTold n p senders ls loyal s j
    → (l.orders_seen ≡ k.orders_seen) × (decide_order l ≡ decide_order k)
network_agrees n p senders loyal faulty ls s i j l k w few t pos_i lt_i pos_j lt_j loyal_i loyal_j
      ei ej told_i told_j =
    let r = Timely-Reach n p senders t in
    let (last_i, current_i) = at_end n p senders loyal faulty ls w s i l t lt_i ei in
    let (last_j, current_j) = at_end n p senders loyal faulty ls w s j k t lt_j ej in
    let same : (state (s i)).orders_seen ≡ (state (s j)).orders_seen =
      same_elements (state (s i)).orders_seen (state (s j)).orders_seen
        (all-IsLocal n p senders loyal faulty ls w s r i lt_i).0.ordered
        (all-IsLocal n p senders loyal faulty ls w s r j lt_j).0.ordered
        (λ v y.
          seen_too n p senders loyal faulty ls w s r j lt_j pos_j told_j few i v lt_i loyal_i last_i
            current_i y)
        (λ v y.
          seen_too n p senders loyal faulty ls w s r i lt_i pos_i told_i few j v lt_j loyal_j last_j
            current_j y) in
    let seen : l.orders_seen ≡ k.orders_seen = rw (ei, ej) at same in (seen, same_decision l k seen)
