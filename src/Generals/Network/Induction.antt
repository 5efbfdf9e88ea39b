-- ===== src/Generals/Network/Induction.antt =====
-- Induction over what a network of generals (src/general.cc) does.
use byzantine_agreement.Common.{
  ℕ, ℕ_discrete, ◌+◌, ◌<◌, ◌≤◌, ◌≡◌, ◌∙◌, arith, Bool, List, subst, ap,
}
use mathlib.Core.Logic.{ite}
use byzantine_agreement.Msg.{Message}
use byzantine_agreement.Udp.{Client, Arrival, received, ServerAction}
use byzantine_agreement.Generals.Base.{Platform}
use byzantine_agreement.Generals.Senders.{Sender}
use byzantine_agreement.Generals.Commander.Orders.{IsFirst, AllHanded}
use byzantine_agreement.Generals.Lieutenant.{Lieutenant, Readings, take_message}
use byzantine_agreement.Generals.Lieutenant.Changes.{Change, acked}
use byzantine_agreement.Generals.Lieutenant.Served.{Served, only_changes, takes, serve-Served}
use byzantine_agreement.Generals.Network.{
  Node, listening, failed, state, after, update, MayArrive, Step, handles, throws, Reach, start,
  later,
}
use byzantine_agreement.Generals.Network.Spread.{Local, IsFull, Grows, AllGrow, update-AllGrow}
use byzantine_agreement.Generals.Network.Growth.{served-Grows, update_self, state-after}
use byzantine_agreement.Generals.Network.Arriving.{Origin, IsSent-Origin, valid-IsFull}

-- What holds of a lieutenant at any time, if it does at first: it gives the lieutenant's own invariant,
-- and is kept by others that move, by taking a message that was sent, and by a change of rounds.
module _ (n : ℕ) (p : ℕ → Platform) (senders : List Sender) (loyal : ℕ → Bool) (faulty : ℕ)
    (small : faulty + 2 ≤ 252) (firsts : AllHanded IsFirst senders) where
  pub record IsInvariant (Q : (ℕ → Node) → ℕ → Lieutenant → Type 0) : Type 0 where
    pub is_local : {s : ℕ → Node} {a : ℕ} {l : Lieutenant} → Q s a l → Local n loyal s p faulty a l
    pub grows : {s t : ℕ → Node} {a : ℕ} {l : Lieutenant} → AllGrow s t → Q s a l → Q t a l
    pub takes :
        {s : ℕ → Node} {a : ℕ} {l : Lieutenant} (client : Client) (m : Message)
        → ((b : ℕ) → b < n → Q s b (state (s b)))
        → Q s a l
        → Origin n p senders loyal faulty small firsts s m
        → IsFull n loyal l.general m
        → Q s a (take_message (acked l client) m).0
    pub changes :
        {t : ℕ → Node} {a : ℕ} {l : Lieutenant} (x : Readings) {r : Lieutenant × ServerAction}
        → Q t a l
        → state (t a) ≡ r.0
        → Change (p a) l x r
        → Q t a r.0

module _ (n : ℕ) (p : ℕ → Platform) (senders : List Sender) (loyal : ℕ → Bool) (faulty : ℕ)
    (small : faulty + 2 ≤ 252) (firsts : AllHanded IsFirst senders)
    (Q : (ℕ → Node) → ℕ → Lieutenant → Type 0)
    (inv : IsInvariant n p senders loyal faulty small firsts Q) where
  abbrev pub AllHold : (ℕ → Node) → Type 0
  AllHold s = (a : ℕ) → a < n → Q s a (state (s a))

  -- A callback takes a message, or none, and a change of rounds may follow.
  record Settled (s : ℕ → Node) (a : ℕ) (l : Lieutenant) (r : Lieutenant × ServerAction)
      : Type 0 where
    between : Lieutenant
    readings : Readings
    holds : Q s a between
    changed : Change (p a) between readings r

  only-Change :
      {s : ℕ → Node} {a : ℕ} {l : Lieutenant} (x : Readings) {r : Lieutenant × ServerAction}
      → Q s a l
      → Change (p a) l x r
      → Settled s a l r
  only-Change {l} x h c = record { between = l; readings = x; holds = h; changed = c }

  Served-Settled :
      (s : ℕ → Node) (a : ℕ) (l : Lieutenant) (y : Arrival Readings) {r : Lieutenant × ServerAction}
      → AllHold s
      → Q s a l
      → MayArrive n p senders s y
      → Served (p a) l y r
      → Settled s a l r
  Served-Settled s a l y all h may (only_changes x c) = only-Change x h c
  Served-Settled s a l y all h may (takes d x client m from same e v c) =
      let sent : MayArrive n p senders s (received d x) =
        subst (MayArrive n p senders s) same may in
      let origin =
        IsSent-Origin n p senders loyal faulty small firsts s d.bytes m
          (λ b lt. inv.is_local (all b lt)) sent e in
      record {
        between = (take_message (acked l client) m).0;
        readings = x;
        holds = inv.takes client m all h origin (
            valid-IsFull n loyal l.general m from (inv.is_local h).placed.all_listed
              (omega (arith, (inv.is_local h).within, small)) v);
        changed = c.changed;
      }

  -- A process that moves keeps what holds of the others, and it holds of the process again.
  moved :
      (s : ℕ → Node) (i : ℕ) (new : Node)
      → AllHold s
      → Grows (state (s i)) (state new)
      → Q (update s i new) i (state new)
      → AllHold (update s i new)
  moved s i new all g own a lt =
      elim (ℕ_discrete i a) as (λ d. Q (update s i new) a (state (ite d new (s a)))) [
        | yes e ↦ subst (λ k. Q (update s i new) k (state new)) e own
        | no e ↦ inv.grows (update-AllGrow s i new g) (all a lt)
      ]

  Step-AllHold : {s t : ℕ → Node} → Step n p senders s t → AllHold s → AllHold t
  Step-AllHold {s} (handles i l y r pos lt q m e) all =
      let own : Q s i l = subst (λ (k : Node). Q s i (state k)) q (all i lt) in
      let v = Served-Settled s i l y all own m (serve-Served (p i) l y r e) in
      let g = served-Grows (p i) s i l y r q e in
      let before = inv.grows (update-AllGrow s i (after r) g) v.holds in
      let at : state (update s i (after r) i) ≡ r.0 =
        ap state (update_self s i (after r)) ∙ state-after r in
      moved s i (after r) all g (rw (state-after r) (inv.changes v.readings before at v.changed))
  Step-AllHold {s} (throws i l y b pos lt q m e) all =
      let g : Grows (state (s i)) l = rw q (λ v z. z, λ c z. z) in
      let own : Q s i l = subst (λ (k : Node). Q s i (state k)) q (all i lt) in
      moved s i (failed l) all g (inv.grows (update-AllGrow s i (failed l) g) own)

  pub Reach-AllHold :
      {ls : ℕ → Lieutenant} {s : ℕ → Node}
      → AllHold (λ j. listening (ls j))
      → Reach n p senders ls s
      → AllHold s
  Reach-AllHold h start = h
  Reach-AllHold h (later r st) = Step-AllHold st (Reach-AllHold h r)
