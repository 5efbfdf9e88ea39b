-- ===== src/Generals/Network/Members.antt =====
-- The lieutenants of a network when it starts, by their constructor (src/general.cc).
use byzantine_agreement.Common.{ℕ, ◌+◌, ◌^◌, ◌<◌, ◌≤◌, ◌≡◌, arith, Bool, true, List, length, ok}
use byzantine_agreement.OrderedSet.{member}
use byzantine_agreement.Msg.{Order}
use byzantine_agreement.Msg.Less.{order_order}
use byzantine_agreement.Behavior.{MaliciousBehavior}
use byzantine_agreement.Udp.{Kernel, SocketCalls}
use byzantine_agreement.Generals.Base.{Platform, ProcessList}
use byzantine_agreement.Generals.Commander.{Commander, launch}
use byzantine_agreement.Generals.Senders.{Sender}
use byzantine_agreement.Generals.Commander.Orders.{IsFirst, AllHanded, IsCommand, launch-IsFirst}
use byzantine_agreement.Generals.Lieutenant.{Lieutenant, new_lieutenant}
use byzantine_agreement.Generals.Lieutenant.Relay.{IsOpen}
use byzantine_agreement.Generals.Made.{new_lieutenant-HasFields}
use byzantine_agreement.Generals.Lieutenant.Complete.{none-ListsPaths}
use byzantine_agreement.Generals.Network.{Node, listening, state, Reach}
use byzantine_agreement.Generals.Network.Spread.{Local}
use byzantine_agreement.Generals.Network.Single.{Single}
use byzantine_agreement.Generals.Network.Timely.{IsCurrent}
use byzantine_agreement.OrderedSet.Vectors.{list_order}
use byzantine_agreement.Generals.Network.Relaying.{Reach-AllLocal}

-- Process `a` of a network of `n`, as its constructor made it; a loyal one neither is silent nor drops
-- messages, and does not log.
pub record IsMember (n : ℕ) (p : Platform) (is_loyal : Bool) (faulty a : ℕ) (l : Lieutenant)
    : Type 0 where
  pub kernel : Kernel
  pub processes : ProcessList
  pub calls : SocketCalls
  pub bound : Bool
  pub behavior : MaliciousBehavior
  pub all_listed : length processes ≡ n
  pub made : new_lieutenant kernel processes a calls bound faulty behavior ≡ ok l
  pub opened : is_loyal ≡ true → IsOpen p l.general

pub IsMember-Local :
    (n : ℕ) (loyal : ℕ → Bool) (s : ℕ → Node) (p : ℕ → Platform) (faulty a : ℕ) (l : Lieutenant)
    → a < n
    → IsMember n (p a) (loyal a) faulty a l
    → Local n loyal s p faulty a l
unfolding member
IsMember-Local n loyal s p faulty a l lt m =
    let (g, z) =
      new_lieutenant-HasFields m.kernel m.processes a m.calls m.bound faulty m.behavior l m.made in
    record {
      placed = record {
        own_id = g.same_id;
        below = lt;
        all_listed = rw g.same_processes m.all_listed;
        same_faulty = g.same_faulty;
        opened = m.opened;
      };
      within = omega (arith, g.begins);
      ordered = rw z.no_orders tt;
      real = λ v y. cc (rw z.no_orders at y);
      kept_full = λ k i. elim (rw z.no_msgs at i) [ ];
      kept_sound = λ k i. elim (rw z.no_msgs at i) [ ];
      kept_seen = λ k i. elim (rw z.no_msgs at i) [ ];
      sent_sound = λ q k w. elim (rw z.none_started at w.is_started) [ ];
      sent_wide = λ q k w. elim (rw z.none_started at w.is_started) [ ];
      spread = λ v y. cc (rw z.no_orders at y);
    }

pub IsMember-Single :
    (n : ℕ) (p : ℕ → Platform) (senders : List Sender) (loyal : ℕ → Bool) (faulty : ℕ)
    (small : faulty + 2 ≤ 252) (firsts : AllHanded IsFirst senders) (s : ℕ → Node) (a : ℕ)
    (l : Lieutenant)
    → IsMember n (p a) (loyal a) faulty a l
    → Single n p senders loyal faulty small firsts s a l
unfolding member
IsMember-Single n p senders loyal faulty small firsts s a l m =
    let (g, z) =
      new_lieutenant-HasFields m.kernel m.processes a m.calls m.bound faulty m.behavior l m.made in
    record {
      kept_listed = λ q k i. elim (rw z.no_msgs at i) [ ];
      none_kept = λ q d. z.no_msgs;
      kept_single = λ m k i j e. elim (rw z.no_msgs at i) [ ];
      sent_short = λ q k w. elim (rw z.none_started at w.is_started) [ ];
      sent_long = λ q k w. elim (rw z.none_started at w.is_started) [ ];
      sent_by = λ q k w. elim (rw z.none_started at w.is_started) [ ];
      sent_single = λ q r m k y z' e. elim (rw z.none_started at y.is_started) [ ];
      listed = λ ids i. cc (rw z.no_ids at i);
    }

pub IsMember-IsCurrent :
    (n : ℕ) (p : Platform) (is_loyal : Bool) (faulty a : ℕ) (l : Lieutenant)
    → IsMember n p is_loyal faulty a l
    → IsCurrent l
IsMember-IsCurrent n p is_loyal faulty a l m =
    let (g, z) =
      new_lieutenant-HasFields m.kernel m.processes a m.calls m.bound faulty m.behavior l m.made in
    record { kept = λ k i. elim (rw z.no_msgs at i) [ ]; listed = none-ListsPaths l z.no_ids }

-- A network of a commander, which may falsify orders, and of `n - 1` lieutenants, of which those that
-- are loyal send and forward as they should, while the others may be silent, drop or delay messages.
pub record IsNetwork (n : ℕ) (p : ℕ → Platform) (senders : List Sender) (loyal : ℕ → Bool)
    (faulty : ℕ) (ls : ℕ → Lieutenant) : Type 0 where
  pub few : n < 2 ^ 32
  pub small : faulty + 2 ≤ 252
  pub platform : Platform
  pub commander : Commander
  pub command : IsCommand commander.order
  pub first : commander.round ≡ 0
  pub order : Order
  pub launches : launch platform commander ≡ ok (order, senders)
  pub members : (a : ℕ) → a < n → IsMember n (p a) (loyal a) faulty a (ls a)

pub network-AllLocal :
    (n : ℕ) (p : ℕ → Platform) (senders : List Sender) (loyal : ℕ → Bool) (faulty : ℕ)
    (ls : ℕ → Lieutenant) (s : ℕ → Node) (w : IsNetwork n p senders loyal faulty ls)
    → Reach n p senders ls s
    → (a : ℕ) → a < n
    → Local n loyal s p faulty a (state (s a))
network-AllLocal n p senders loyal faulty ls s w r =
    Reach-AllLocal n p senders loyal faulty w.few w.small
      (launch-IsFirst w.platform w.commander w.order senders w.command w.first w.launches)
      (λ a lt. IsMember-Local n loyal (λ j. listening (ls j)) p faulty a (ls a) lt (w.members a lt))
      r
