-- ===== src/Generals/Network/Relaying.antt =====
-- The invariant of one lieutenant over the steps of a network (src/general.cc).
use byzantine_agreement.Common.{ℕ, ◌+◌, ◌^◌, ◌<◌, ◌≤◌, ◌≡◌, Bool, List}
use byzantine_agreement.Udp.{ServerAction}
use byzantine_agreement.Generals.Base.{Platform}
use byzantine_agreement.Generals.Senders.{Sender}
use byzantine_agreement.Generals.Commander.Orders.{IsFirst, AllHanded}
use byzantine_agreement.Generals.Lieutenant.{Lieutenant, Readings, without_senders}
use byzantine_agreement.Generals.Lieutenant.Changes.{Change, stays, ends, renews}
use byzantine_agreement.Generals.Network.{Node, listening, state, Reach}
use byzantine_agreement.Generals.Network.Spread.{Local, Local-Grows}
use byzantine_agreement.Generals.Network.Taking.{take_message-Local}
use byzantine_agreement.Generals.Network.Renewing.{init_new_round-Local}
use byzantine_agreement.Generals.Network.Arriving.{Origin-IsSound}
use byzantine_agreement.Generals.Network.Induction.{IsInvariant, Reach-AllHold}

module _ (n : ℕ) (p : ℕ → Platform) (senders : List Sender) (loyal : ℕ → Bool) (faulty : ℕ)
    (few : n < 2 ^ 32) (small : faulty + 2 ≤ 252) (firsts : AllHanded IsFirst senders) where
  -- Every lieutenant's invariant.
  abbrev pub AllLocal : (ℕ → Node) → Type 0
  AllLocal s = (a : ℕ) → a < n → Local n loyal s p faulty a (state (s a))

  pub Change-Local :
      (t : ℕ → Node) (a : ℕ) (l : Lieutenant) (x : Readings) {r : Lieutenant × ServerAction}
      → Local n loyal t p faulty a l
      → state (t a) ≡ r.0
      → Change (p a) l x r
      → Local n loyal t p faulty a r.0
  unfolding without_senders
  Change-Local t a l x h at (stays e) = rw e h
  Change-Local t a l x h at (ends b last e) = rw e (record {
    placed = h.placed;
    within = h.within;
    ordered = h.ordered;
    real = h.real;
    kept_full = h.kept_full;
    kept_sound = h.kept_sound;
    kept_seen = h.kept_seen;
    sent_sound = h.sent_sound;
    sent_wide = h.sent_wide;
    spread = h.spread;
  })
  Change-Local t a l x h at (renews l' last e₁ e) =
      rw e (init_new_round-Local n loyal t p faulty a l l' x few small h last e₁ (rw e at at))

  Local-IsInvariant :
      IsInvariant n p senders loyal faulty small firsts (λ s a l. Local n loyal s p faulty a l)
  Local-IsInvariant = record {
    is_local = λ h. h;
    grows = λ g h. Local-Grows n loyal g h;
    takes = λ {s} {a} {l} client m all h o full.
        take_message-Local n loyal s p faulty a l client m full
          (Origin-IsSound n p senders loyal faulty small firsts s m all o) h;
    changes = λ {t} {a} {l} x h at c. Change-Local t a l x h at c;
  }

  pub Reach-AllLocal :
      {ls : ℕ → Lieutenant} {s : ℕ → Node}
      → AllLocal (λ j. listening (ls j))
      → Reach n p senders ls s
      → AllLocal s
  Reach-AllLocal h r =
      Reach-AllHold n p senders loyal faulty small firsts (λ s a l. Local n loyal s p faulty a l)
        Local-IsInvariant h r
