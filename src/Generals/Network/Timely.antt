-- ===== src/Generals/Network/Timely.antt =====
-- Networks in which no message arrives after its round, and what `Lieutenant::Decide` of
-- src/general.cc holds back in them.
use byzantine_agreement.Common.{
  ℕ, ℕ_discrete, ◌+◌, ◌∙◌, refl, ap, length, ◌-◌, ◌^◌, ◌<◌, ◌≤◌, ◌≡◌, inl, inr, arith, List, subst,
  some, take,
}
use mathlib.Core.Logic.{ite}
use mathlib.Core.List.{Memᴰ}
use byzantine_agreement.OrderedSet.Members.{Memᴰ-insert}
use byzantine_agreement.Msg.{Message}
use byzantine_agreement.Msg.Less.{message_order}
use byzantine_agreement.Wire.{byzantine_msg_from_buf}
use byzantine_agreement.Udp.{Client, Arrival, received, refused, ServerAction, bufsize}
use byzantine_agreement.Generals.Base.{Platform}
use byzantine_agreement.Generals.Senders.{Sender}
use byzantine_agreement.Generals.Lieutenant.{Lieutenant, Readings, take_message, without_senders}
use byzantine_agreement.Generals.Lieutenant.Valid.{valid_message-IsValid}
use byzantine_agreement.Generals.Lieutenant.Rounds.{init_new_round-Renewed}
use byzantine_agreement.Generals.Lieutenant.Changes.{Change, stays, ends, renews, acked}
use byzantine_agreement.Generals.Lieutenant.Served.{Served, only_changes, takes, serve-Served}
use byzantine_agreement.Generals.Network.{
  Node, listening, failed, state, after, update, Step, handles, throws, Reach, start, later,
}
use byzantine_agreement.Generals.Network.Growth.{state-after}
use byzantine_agreement.Generals.Lieutenant.Complete.{
  ListsPaths, same-ListsPaths, insert-ListsPaths, none-ListsPaths,
}
use byzantine_agreement.Generals.Paths.{IsPath}
use byzantine_agreement.Generals.Network.Listing.{
  Listed, nothing, initial, fresh, take_message-Listed,
}
use byzantine_agreement.Generals.Network.Taking.{
  Taken, ignored, noted, known, take_message-Taken, take_message-general,
}

-- What a server gets holds no message of a round before the lieutenant's.
abbrev pub IsInTime : Lieutenant → Arrival Readings → Type 0
IsInTime l (received d x) =
    (m : Message) → byzantine_msg_from_buf (take bufsize d.bytes) ≡ some m → l.round ≤ m.round
IsInTime l (refused e x) = Unit

module _ (n : ℕ) (p : ℕ → Platform) (senders : List Sender) where
  abbrev pub StepInTime : {s t : ℕ → Node} → Step n p senders s t → Type 0
  StepInTime (handles i l a r pos lt q m e) = IsInTime l a
  StepInTime (throws i l a b pos lt q m e) = IsInTime l a

  -- All that was handled came in time.
  pub data Timely (ls : ℕ → Lieutenant) : (ℕ → Node) → Type 0 where
    at_first : Timely ls (λ j. listening (ls j))
    next :
        {s t : ℕ → Node} → Timely ls s → (st : Step n p senders s t) → StepInTime st → Timely ls t

  pub Timely-Reach : {ls : ℕ → Lieutenant} {s : ℕ → Node} → Timely ls s → Reach n p senders ls s
  Timely-Reach at_first = start
  Timely-Reach (next r st c) = later (Timely-Reach r) st

-- All messages that are held back, and all lists of ids, are of the lieutenant's round.
pub record IsCurrent (l : Lieutenant) : Type 0 where
  pub kept : (m : Message) → Memᴰ m l.msgs_this_round → m.round ≡ l.round
  pub listed : ListsPaths l

kept_current :
    (l l' : Lieutenant) (m : Message)
    → m.round ≡ l.round
    → l'.general ≡ l.general
    → IsCurrent l
    → Taken l m l'
    → (m' : Message) → Memᴰ m' l'.msgs_this_round
    → m'.round ≡ l'.round
kept_current l l' m c g h (ignored o k) = rw (g, k) h.kept
kept_current l l' m c g h (noted real o k) = λ m' i.
    elim (Memᴰ-insert m l.msgs_this_round (rw k at i)) [
      | inl e ↦ rw (e, g) c
      | inr j ↦ rw g (h.kept m' j)
    ]
kept_current l l' m c g h (known o k) = λ m' i. elim (Memᴰ-insert _ l.msgs_this_round (rw k at i)) [
  | inl e ↦ rw (e, g) c
  | inr j ↦ rw g (h.kept m' j)
]

Listed-ListsPaths :
    (l l' : Lieutenant) (m : Message)
    → IsPath (length l.processes) l.id l.round m.ids
    → l'.general ≡ l.general
    → ListsPaths l
    → Listed l m l'
    → ListsPaths l'
Listed-ListsPaths l l' m c g h (nothing d o k i) = same-ListsPaths l l' g i h
Listed-ListsPaths l l' m c g h (initial z d o k i) = same-ListsPaths l l' g i h
Listed-ListsPaths l l' m c g h (fresh m' z d e k i v w) = insert-ListsPaths l l' m.ids g i c h

acked-IsCurrent : (l : Lieutenant) (client : Client) → IsCurrent l → IsCurrent (acked l client)
unfolding acked
acked-IsCurrent l client h = record {
  kept = h.kept;
  listed = same-ListsPaths l (acked l client) refl refl h.listed;
}

take_message-IsCurrent :
    (l : Lieutenant) (m : Message)
    → m.round ≡ l.round
    → IsPath (length l.processes) l.id l.round m.ids
    → IsCurrent l
    → IsCurrent (take_message l m).0
take_message-IsCurrent l m c v h =
    let g = (take_message-general l m).0 in
    record {
      kept = kept_current l (take_message l m).0 m c g h (take_message-Taken l m);
      listed = Listed-ListsPaths l (take_message l m).0 m v g h.listed (take_message-Listed l m);
    }

take_acked-IsCurrent :
    (l : Lieutenant) (client : Client) (m : Message)
    → m.round ≡ l.round
    → IsPath (length l.processes) l.id l.round m.ids
    → IsCurrent l
    → IsCurrent (take_message (acked l client) m).0
unfolding acked
take_acked-IsCurrent l client m c v h =
    take_message-IsCurrent (acked l client) m c v (acked-IsCurrent l client h)

Change-IsCurrent :
    (p : Platform) (l : Lieutenant) (x : Readings) {r : Lieutenant × ServerAction}
    → IsCurrent l
    → Change p l x r
    → IsCurrent r.0
unfolding without_senders
Change-IsCurrent p l x h (stays e) = rw e h
Change-IsCurrent p l x h (ends b last e) =
    rw e
      (record { kept = h.kept; listed = same-ListsPaths l (without_senders l) refl refl h.listed })
Change-IsCurrent p l x h (renews l' last e₁ e) =
    let new = init_new_round-Renewed p l l' x e₁ in
    rw e (record {
      kept = λ m i. elim (rw new.no_msgs at i) [ ];
      listed = none-ListsPaths l' new.no_ids;
    })

Served-IsCurrent :
    (p : Platform) (l : Lieutenant) (y : Arrival Readings) {r : Lieutenant × ServerAction}
    → l.round < 2 ^ 32 - 1
    → IsInTime l y
    → IsCurrent l
    → Served p l y r
    → IsCurrent r.0
Served-IsCurrent p l y small c h (only_changes x k) = Change-IsCurrent p l x h k
Served-IsCurrent p l y small c h (takes d x client m from same q v a) =
    let (b, eb, to) = valid_message-IsValid l.general m from small in
    let valid = to.0 (cc) in
    let in_time : IsInTime l (received d x) = subst (IsInTime l) same c in
    let same_round : m.round ≡ l.round = omega (arith, valid.not_later, in_time m q) in
    let path : IsPath (length l.processes) l.id l.round m.ids = record {
      one_id_each = valid.one_id_each ∙ ap (λ r. r + 1) same_round;
      commander_first = valid.commander_first;
      all_others = valid.others;
      no_id_twice = valid.no_id_twice;
    } in
    Change-IsCurrent p (take_message (acked l client) m).0 x
      (take_acked-IsCurrent l client m same_round path h) a.changed

module _ (n : ℕ) (p : ℕ → Platform) (senders : List Sender) where
  update_below :
      (P : Node → Type 0) (s : ℕ → Node) (i : ℕ) (new : Node)
      → ((a : ℕ) → a < n → P (s a))
      → P new
      → (a : ℕ) → a < n
      → P (update s i new a)
  update_below P s i new h v a lt = elim (ℕ_discrete i a) as (λ d. P (ite d new (s a))) [
    | yes e ↦ v
    | no e ↦ h a lt
  ]

  -- In a network in which the rounds stay small, nothing of an earlier round is ever held back, and
  -- only ids of the round are listed.
  module _ (ls : ℕ → Lieutenant)
      (small : (s : ℕ → Node) (a : ℕ)
        → a < n
        → Reach n p senders ls s
        → (state (s a)).round < 2 ^ 32 - 1) where
    Step-IsCurrent :
        {s t : ℕ → Node} (st : Step n p senders s t)
        → StepInTime n p senders st
        → Reach n p senders ls s
        → ((a : ℕ) → a < n → IsCurrent (state (s a)))
        → (a : ℕ) → a < n
        → IsCurrent (state (t a))
    Step-IsCurrent {s} (handles i l y r pos lt q m e) c reach h =
        let few : l.round < 2 ^ 32 - 1 =
          subst (λ (k : Node). (state k).round < 2 ^ 32 - 1) q (small s i lt reach) in
        let own : IsCurrent l = subst (λ (k : Node). IsCurrent (state k)) q (h i lt) in
        update_below (λ k. IsCurrent (state k)) s i (after r) h
          (rw (state-after r) (Served-IsCurrent (p i) l y few c own (serve-Served (p i) l y r e)))
    Step-IsCurrent {s} (throws i l y b pos lt q m e) c reach h =
        let own : IsCurrent l = subst (λ (k : Node). IsCurrent (state k)) q (h i lt) in
        update_below (λ k. IsCurrent (state k)) s i (failed l) h own

    pub Timely-IsCurrent :
        {s : ℕ → Node}
        → ((a : ℕ) → a < n → IsCurrent (ls a))
        → Timely n p senders ls s
        → (a : ℕ) → a < n
        → IsCurrent (state (s a))
    Timely-IsCurrent h at_first = h
    Timely-IsCurrent h (next r st c) =
        Step-IsCurrent st c (Timely-Reach n p senders r) (Timely-IsCurrent h r)
