-- ===== src/Generals/Network/Completing.antt =====
-- When a lieutenant of a network has all messages of its round, in `Lieutenant::Decide` of
-- src/general.cc.
use byzantine_agreement.Common.{ℕ, ◌+◌, ◌^◌, ◌<◌, ◌≤◌, ◌≡◌, ◌↔◌, arith, Bool, true, List, length}
use byzantine_agreement.OrderedSet.{member}
use byzantine_agreement.OrderedSet.Vectors.{list_order}
use byzantine_agreement.Generals.Base.{Platform}
use byzantine_agreement.Generals.Senders.{Sender}
use byzantine_agreement.Generals.Count.{falling}
use byzantine_agreement.Generals.Lieutenant.{Lieutenant, round_complete}
use byzantine_agreement.Generals.Lieutenant.Complete.{round_complete-paths}
use byzantine_agreement.Generals.Paths.{IsPath}
use byzantine_agreement.Generals.Network.{Node, state}
use byzantine_agreement.Generals.Network.Agreement.{at_all_times-IsCurrent}
use byzantine_agreement.Generals.Network.Members.{IsNetwork, network-AllLocal}
use byzantine_agreement.Generals.Network.Timely.{Timely, Timely-Reach}

-- In a network in which no message arrives after its round, with at least `faulty + 2` processes
-- (`faulty` at most 250), a lieutenant takes its round for complete exactly when it has got a message
-- for each list of ids that a message of the round can have: one id for each round so far, the
-- commander's first, all of the network's processes, none twice and not its own; provided that the
-- number of these lists fits 64 bits.
pub network_completes :
    (n : ℕ) (p : ℕ → Platform) (senders : List Sender) (loyal : ℕ → Bool) (faulty : ℕ)
    (ls : ℕ → Lieutenant) (s : ℕ → Node) (a : ℕ)
    → IsNetwork n p senders loyal faulty ls
    → faulty + 2 ≤ n
    → Timely n p senders ls s
    → 0 < a
    → a < n
    → falling n (state (s a)).round < 2 ^ 64
    → (round_complete (state (s a)) ≡ true) ↔ (
        (ids : List ℕ)
        → IsPath n a (state (s a)).round ids
        → member ids (state (s a)).ids_this_round ≡ true)
network_completes n p senders loyal faulty ls s a w enough t pos lt f =
    let l = state (s a) in
    let h = network-AllLocal n p senders loyal faulty ls s w (Timely-Reach n p senders t) a lt in
    let all : length l.processes ≡ n = h.placed.all_listed in
    let own : l.id ≡ a = h.placed.own_id in
    let current = at_all_times-IsCurrent n p senders loyal faulty ls w s t a lt in
    let here =
      round_complete-paths l current.listed (omega (arith, own, pos)) (omega (arith, own, all, lt))
        (omega (arith, all, h.within, enough)) (omega (arith, all, w.few)) (rw all f) in
    (
      λ e ids v. here.0 e ids (rw (all, own) v),
      λ every. here.1 (λ ids v. every ids (rw (all, own) at v)),
    )
