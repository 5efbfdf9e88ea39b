-- ===== src/Generals/Network/Stopping.antt =====
-- The round in which a lieutenant stops: `MoveToNewRoundOrStop` of src/general.cc in a network.
use byzantine_agreement.Common.{ℕ, ◌≡◌, refl, true, List}
use byzantine_agreement.Msg.Less.{message_order}
use byzantine_agreement.Udp.{Arrival, ServerAction, continue, stop}
use byzantine_agreement.Generals.Base.{Platform, last_round}
use byzantine_agreement.Generals.Senders.{Sender}
use byzantine_agreement.Generals.Lieutenant.{Lieutenant, Readings, without_senders}
use byzantine_agreement.Generals.Lieutenant.Changes.{Change, stays, ends, renews}
use byzantine_agreement.Generals.Lieutenant.Served.{Served, only_changes, takes, serve-Served}
use byzantine_agreement.Generals.Network.{
  Node, listening, stopped, failed, after, Step, handles, throws, Reach, start, later,
}
use byzantine_agreement.Generals.Network.Validity.{update-All}

-- A lieutenant only stops in its last round.
abbrev pub StopsLast : Node → Type 0
StopsLast (listening l) = Unit
StopsLast (stopped l) = last_round l.general ≡ true
StopsLast (failed l) = Unit

after-StopsLast :
    (r : Lieutenant × ServerAction)
    → (r.1 ≡ ServerAction.stop → last_round r.0.general ≡ true)
    → StopsLast (after r)
after-StopsLast (l, continue) h = tt
after-StopsLast (l, stop) h = h refl

Change-stops :
    (p : Platform) (l : Lieutenant) (x : Readings) {r : Lieutenant × ServerAction}
    → Change p l x r
    → r.1 ≡ ServerAction.stop
    → last_round r.0.general ≡ true
unfolding without_senders
Change-stops p l x (stays e) q = cc
Change-stops p l x (ends b last e) q = rw e last
Change-stops p l x (renews l' last e₁ e) q = cc

Served-stops :
    (p : Platform) (l : Lieutenant) (y : Arrival Readings) {r : Lieutenant × ServerAction}
    → Served p l y r
    → r.1 ≡ ServerAction.stop
    → last_round r.0.general ≡ true
Served-stops p l y (only_changes x c) = Change-stops p l x c
Served-stops p l y (takes d x client m from same q v a) = Change-stops p _ x a.changed

module _ (n : ℕ) (p : ℕ → Platform) (senders : List Sender) where
  Step-StopsLast :
      {s t : ℕ → Node}
      → Step n p senders s t
      → ((a : ℕ) → StopsLast (s a))
      → (a : ℕ) → StopsLast (t a)
  Step-StopsLast {s} (handles i l y r pos lt q m e) h =
      update-All StopsLast s i (after r) h
        (after-StopsLast r (Served-stops (p i) l y (serve-Served (p i) l y r e)))
  Step-StopsLast {s} (throws i l y b pos lt q m e) h = update-All StopsLast s i (failed l) h tt

  pub Reach-StopsLast :
      {ls : ℕ → Lieutenant} {s : ℕ → Node} → Reach n p senders ls s → (a : ℕ) → StopsLast (s a)
  Reach-StopsLast start = λ a. tt
  Reach-StopsLast (later r st) = Step-StopsLast st (Reach-StopsLast r)
