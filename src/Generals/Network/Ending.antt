-- ===== src/Generals/Network/Ending.antt =====
-- How a lieutenant of a network comes to the end of `Lieutenant::Decide` in src/general.cc.
use byzantine_agreement.Common.{
  ℕ, ◌+◌, ◌<◌, ◌≤◌, ◌≡◌, refl, sym, subst, arith, Bool, false, List, [], ◌∷◌, ◌++◌, All, length,
  map, some, ok,
}
use mathlib.Core.List.{Memᴰ}
use byzantine_agreement.Udp.{Arrival}
use byzantine_agreement.Generals.Base.{Platform}
use byzantine_agreement.Generals.Senders.{Sender}
use byzantine_agreement.Generals.Lieutenant.{Lieutenant, Readings, decide, decide_order}
use byzantine_agreement.Generals.Lieutenant.Timeouts.{timed_out, decide_timeouts}
use byzantine_agreement.Generals.Network.{
  Node, listening, failed, after, state, Step, handles, throws, Reach, start, later,
}
use byzantine_agreement.Generals.Network.Growth.{state-after}
use byzantine_agreement.Generals.Network.Validity.{update-All}
use byzantine_agreement.Generals.Lieutenant.Joining.{CanJoin, Served-CanJoin}
use byzantine_agreement.Generals.Lieutenant.Served.{serve-Served}
use byzantine_agreement.Generals.Senders.Joined.{AllAnswered}
use byzantine_agreement.Generals.Network.Agreement.{at_all_times-IsCurrent}
use byzantine_agreement.Generals.Network.Members.{IsNetwork, network-AllLocal}
use byzantine_agreement.Generals.Network.Timely.{Timely, Timely-Reach, IsCurrent}

All-each : {A : Type 0} (P : A → Type 0) (xs : List A) → ((x : A) → Memᴰ x xs → P x) → All P xs
All-each P [] h = tt
All-each P (x ∷ xs) h = (h x (Memᴰ.head refl), All-each P xs (λ y i. h y (Memᴰ.tail i)))

module _ (n : ℕ) (p : ℕ → Platform) (senders : List Sender) where
  Step-CanJoin :
      {s t : ℕ → Node}
      → Step n p senders s t
      → ((a : ℕ) → CanJoin (state (s a)))
      → (a : ℕ) → CanJoin (state (t a))
  Step-CanJoin {s} (handles i l y r pos lt q m e) h =
      update-All (λ k. CanJoin (state k)) s i (after r) h
        (subst CanJoin (sym (state-after r)) (
          Served-CanJoin (p i) l y (serve-Served (p i) l y r e)
            (subst (λ k. CanJoin (state k)) q (h i))))
  Step-CanJoin {s} (throws i l y b pos lt q m e) h =
      update-All (λ k. CanJoin (state k)) s i (failed l) h (subst (λ k. CanJoin (state k)) q (h i))

  Reach-CanJoin :
      {ls : ℕ → Lieutenant} {s : ℕ → Node}
      → Reach n p senders ls s
      → ((a : ℕ) → CanJoin (ls a))
      → (a : ℕ) → CanJoin (state (s a))
  Reach-CanJoin start h = h
  Reach-CanJoin (later r st) h = Step-CanJoin st (Reach-CanJoin r h)

-- In a network in which no message arrives after its round, a lieutenant that still listens and has
-- left the first round is never stuck: from whatever state it has reached, one socket timeout for
-- each remaining round makes it decide, by the orders that it has seen so far, whatever comes after
-- them. It does not log, it has a client for every process, as all processes had at the start, and
-- the sends of its threads all succeed and are each met by a timeout or the acknowledgement of a
-- 32-bit round. Of the lieutenants any number may be silent or drop messages; `faulty` is at most
-- 250.
pub network_ends :
    (n : ℕ) (p : ℕ → Platform) (senders : List Sender) (loyal : ℕ → Bool) (faulty : ℕ)
    (ls : ℕ → Lieutenant) (s : ℕ → Node) (a : ℕ) (l : Lieutenant) (xs : List Readings)
    (rest : List (Arrival Readings))
    → IsNetwork n p senders loyal faulty ls
    → ((b : ℕ) → CanJoin (ls b))
    → Timely n p senders ls s
    → a < n
    → s a ≡ listening l
    → (p a).verbose ≡ false
    → AllAnswered (p a)
    → 0 < l.round
    → length xs + l.round ≡ faulty + 2
    → decide (p a) l (map timed_out xs ++ rest) ≡ ok (some (decide_order l))
network_ends n p senders loyal faulty ls s a l xs rest w j t lt at v answered begun enough =
    let reached = Timely-Reach n p senders t in
    let h = network-AllLocal n p senders loyal faulty ls s w reached a lt in
    let current : IsCurrent l =
      subst (λ k. IsCurrent (state k)) at
        (at_all_times-IsCurrent n p senders loyal faulty ls w s t a lt) in
    let same : l.faulty ≡ faulty = subst (λ k. (state k).faulty ≡ faulty) at h.placed.same_faulty in
    let within : l.round ≤ faulty + 1 = subst (λ k. (state k).round ≤ faulty + 1) at h.within in
    decide_timeouts (p a) l xs rest v answered
      (record {
        few = omega (arith, same, w.small);
        started_rounds = begun;
        within = omega (arith, same, within);
        current = All-each (λ m. m.round ≡ l.round) l.msgs_this_round current.kept;
        joinable = subst (λ k. CanJoin (state k)) at (Reach-CanJoin n p senders reached j a);
      })
      (omega (arith, same, enough))
