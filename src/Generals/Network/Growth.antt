-- ===== src/Generals/Network/Growth.antt =====
-- What the lieutenants of a network (src/general.cc) keep for good: the orders seen, and what was
-- started.
use byzantine_agreement.Common.{ℕ, ℕ_discrete, ◌≡◌, refl, List, ok}
use mathlib.Core.Logic.{ite}
use mathlib.Core.List.Memᴰ.{append_right}
use byzantine_agreement.Udp.{Arrival, serve, ServerAction, continue, stop}
use byzantine_agreement.Generals.Base.{Platform}
use byzantine_agreement.Generals.Senders.{Sender}
use byzantine_agreement.Generals.Lieutenant.{
  Lieutenant, Readings, on_receive, handle_round_timeout, take_message, without_senders,
}
use byzantine_agreement.Generals.Lieutenant.Rounds.{init_new_round-Renewed}
use byzantine_agreement.Generals.Lieutenant.Changes.{Change, stays, ends, renews, acked}
use byzantine_agreement.Generals.Lieutenant.Served.{Served, only_changes, takes, serve-Served}
use byzantine_agreement.Generals.Network.{
  Node, listening, failed, state, after, update, Step, handles, throws,
}
use byzantine_agreement.Generals.Network.Spread.{Grows, AllGrow, update-AllGrow}
use byzantine_agreement.Generals.Network.Taking.{take_message-Grows}
use byzantine_agreement.Generals.Network.Starting.{init_new_round-Started}

pub Change-Grows :
    (p : Platform) (l : Lieutenant) (x : Readings) {r : Lieutenant × ServerAction}
    → Change p l x r
    → Grows l r.0
unfolding without_senders
Change-Grows p l x (stays e) = rw e (λ v q. q, λ b q. q)
Change-Grows p l x (ends a h e) = rw e (λ v q. q, λ b q. q)
Change-Grows p l x (renews l' h e₁ e) =
    let renewed = init_new_round-Renewed p l l' x e₁ in
    let s = init_new_round-Started p l l' x e₁ in
    rw e (λ v q. rw renewed.orders q, λ b q. rw s.all_started (append_right s.sending.1 q))

pub Grows-trans : (l₁ l₂ l₃ : Lieutenant) → Grows l₁ l₂ → Grows l₂ l₃ → Grows l₁ l₃
Grows-trans l₁ l₂ l₃ g h = (λ v q. h.0 v (g.0 v q), λ b q. h.1 b (g.1 b q))

pub update_self : (s : ℕ → Node) (i : ℕ) (new : Node) → update s i new i ≡ new
update_self s i new = elim (ℕ_discrete i i) as (λ d. ite d new (s i) ≡ new) [
  | yes e ↦ refl
  | no e ↦ absurd (e refl)
]

pub state-after : (r : Lieutenant × ServerAction) → state (after r) ≡ r.0
state-after (l, continue) = refl
state-after (l, stop) = refl

Served-Grows :
    (p : Platform) (l : Lieutenant) (y : Arrival Readings) {r : Lieutenant × ServerAction}
    → Served p l y r
    → Grows l r.0
Served-Grows p l y (only_changes x c) = Change-Grows p l x c
Served-Grows p l y {r} (takes d x client m from same e v c) =
    Grows-trans l (take_message (acked l client) m).0 r.0 (take_message-Grows l client m)
      (Change-Grows p _ x c.changed)

-- A lieutenant that is served.
pub served-Grows :
    (p : Platform) (s : ℕ → Node) (i : ℕ) (l : Lieutenant) (y : Arrival Readings)
    (r : Lieutenant × ServerAction)
    → s i ≡ listening l
    → serve (on_receive p) (handle_round_timeout p) l y ≡ ok r
    → Grows (state (s i)) (state (after r))
served-Grows p s i l y r q e = rw (q, state-after r) (Served-Grows p l y (serve-Served p l y r e))

pub Step-AllGrow :
    (n : ℕ) (p : ℕ → Platform) (senders : List Sender) {s t : ℕ → Node}
    → Step n p senders s t
    → AllGrow s t
Step-AllGrow n p senders {s} (handles i l y r pos lt q m e) =
    update-AllGrow s i (after r) (served-Grows (p i) s i l y r q e)
Step-AllGrow n p senders {s} (throws i l y b pos lt q m e) =
    update-AllGrow s i (failed l) (rw q (λ v z. z, λ c z. z))
