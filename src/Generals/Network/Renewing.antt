-- ===== src/Generals/Network/Renewing.antt =====
-- The invariant of a lieutenant in a network over a new round: `InitNewRound` of src/general.cc.
use byzantine_agreement.Common.{
  ℕ, ◌+◌, ◌%◌, ◌^◌, ◌<◌, ◌≤◌, ◌≡◌, ◌≢◌, refl, ◌∙◌, inl, inr, arith, Bool, false, List, [], ◌∷◌,
  Bool-cases, All-append, All-Memᴰ, All-intro, All-map, length, length-append, contains,
  contains-append, ok, subst,
}
use mathlib.Core.List.{Memᴰ}
use mathlib.Core.List.Memᴰ.{append_right}
use byzantine_agreement.Msg.{Order, Message}
use byzantine_agreement.Msg.Less.{order_order}
use byzantine_agreement.Wire.RoundTrip.{IsWide}
use byzantine_agreement.Generals.Base.{
  General, Platform, increment_round, last_round, exhibits_behavior,
}
use byzantine_agreement.Generals.Forward.{Batch, relayed}
use byzantine_agreement.Generals.Forward.Content.{AllSent, extended}
use byzantine_agreement.Generals.Lieutenant.{Lieutenant, Readings, init_new_round}
use byzantine_agreement.Generals.Lieutenant.Rounds.{Kept, Renewed, init_new_round-Renewed}
use byzantine_agreement.Generals.Network.{Node, state}
use byzantine_agreement.Generals.Network.Spread.{
  Sees, SentTo, Relayed, IsSound, IsPlaced, Local, Relayed-Grows,
}
use byzantine_agreement.Generals.Network.Starting.{
  init_new_round-Started, init_new_round-SentTo, Started-AllSent,
}

pub AllSent-SentTo {κ} :
    (P : Message → Type κ) (bs : List Batch) {q : ℕ} {m : Message}
    → AllSent P bs
    → SentTo bs q m
    → P m
AllSent-SentTo P bs h s = All-Memᴰ P s.batch.msgs (All-Memᴰ _ bs h s.is_started) s.is_in

pub SentTo-AllSent {κ} :
    (P : Message → Type κ) (bs : List Batch)
    → ((q : ℕ) (m : Message) → SentTo bs q m → P m)
    → AllSent P bs
SentTo-AllSent P bs h = All-intro _ bs (λ b i.
    All-intro P b.msgs
      (λ m j. h b.pid m (record { batch = b; is_started = i; is_for = refl; is_in = j })))

Kept-IsPlaced :
    (n : ℕ) (loyal : ℕ → Bool) (p : ℕ → Platform) (faulty a : ℕ) (g g' : General)
    → Kept (increment_round g) g'
    → IsPlaced n loyal p faulty a g
    → IsPlaced n loyal p faulty a g'
unfolding increment_round exhibits_behavior
Kept-IsPlaced n loyal p faulty a g g' k h = record {
  own_id = k.id ∙ h.own_id;
  below = h.below;
  all_listed = rw k.processes h.all_listed;
  same_faulty = k.faulty ∙ h.same_faulty;
  opened = λ is_loyal.
      let o = h.opened is_loyal in
      record {
        not_silent = rw k.behavior o.not_silent;
        not_partial = rw k.behavior o.not_partial;
        not_verbose = o.not_verbose;
      };
}

-- What is shown of a message that was sent.
abbrev IsFine : ℕ → (ℕ → Bool) → (ℕ → Node) → ℕ → Message → Type 0
IsFine n loyal t faulty m = IsSound n loyal t m × IsWide m × (length m.ids ≤ faulty + 2)

module _ (n : ℕ) (loyal : ℕ → Bool) (t : ℕ → Node) (p : ℕ → Platform) (faulty a : ℕ)
    (l l' : Lieutenant) (x : Readings) (few : n < 2 ^ 32) (small : faulty + 2 ≤ 252)
    (h : Local n loyal t p faulty a l) (not_last : last_round l.general ≡ false)
    (e : init_new_round (p a) l x ≡ ok l') (now : state (t a) ≡ l') where
  room : l.round ≤ faulty
  unfolding last_round
  room = ground (arith, h.within, h.placed.same_faulty, not_last)

  renewed : Renewed l l' x
  renewed = init_new_round-Renewed (p a) l l' x e

  relays :
      (m : Message)
      → Memᴰ m l.msgs_this_round
      → m.order ≢ Order.no_order
      → Relayed n loyal t a l'.started m.order
  unfolding relayed
  relays m i real = record {
    path = m.ids;
    heard = λ b c z. ((h.kept_sound m i).honest real b c z).0;
    passed_on = λ is_loyal q lt c. (
      relayed (increment_round l.general) m,
      refl,
      init_new_round-SentTo (p a) l l' x q m (h.placed.opened is_loyal) e i
          (rw h.placed.all_listed lt) (rw h.placed.own_id c),
    );
  }

  own_honest :
      (m : Message)
      → Memᴰ m l.msgs_this_round
      → m.order ≢ Order.no_order
      → Sees (state (t a)) m.order × Relayed n loyal t a (state (t a)).started m.order
  own_honest m i real = rw now (rw renewed.orders (h.kept_seen m i real), relays m i real)

  sound :
      (m : Message)
      → Memᴰ m l.msgs_this_round
      → IsFine n loyal t faulty (extended ((l.round + 1) % 2 ^ 32) l.id m)
  sound m i = (
    record {
      fits = (h.kept_sound m i).fits;
      honest = λ real b c z. elim (Bool-cases (contains m.ids b)) [
        | inl y ↦ (h.kept_sound m i).honest real b y z
        | inr y ↦
            let own : a ≡ b =
              ground (arith, contains-append m.ids (l.id ∷ []) b, h.placed.own_id) in
            subst
              (λ k. Sees (state (t k)) m.order × Relayed n loyal t k (state (t k)).started m.order)
              own (own_honest m i real)
      ];
    },
    record {
      round_fits = omega (arith, room, small);
      order_fits = (h.kept_sound m i).fits;
      ids_fit =
          All-append _ m.ids (l.id ∷ [])
            (All-map (λ k lt. omega (arith, lt.0, few)) m.ids (h.kept_full m i).others)
            (omega (arith, h.placed.own_id, h.placed.below, few), tt);
    },
    omega (
      arith,
      length-append m.ids (l.id ∷ []),
      (h.kept_full m i).one_id_each,
      (h.kept_full m i).not_later,
      room,
    ),
  )

  all_sent : AllSent (IsFine n loyal t faulty) l'.started
  all_sent =
      Started-AllSent _ (p a) l l' (init_new_round-Started (p a) l l' x e)
        (All-intro _ l.msgs_this_round sound)
        (SentTo-AllSent _ l.started
          (λ q m s. (h.sent_sound q m s, (h.sent_wide q m s).0, (h.sent_wide q m s).1)))

  none_kept : {m : Message} → Memᴰ m l'.msgs_this_round → ⊥
  none_kept i = elim (rw renewed.no_msgs at i) [ ]

  -- A new round keeps the invariant.
  pub init_new_round-Local : Local n loyal t p faulty a l'
  unfolding increment_round
  init_new_round-Local =
      let s = init_new_round-Started (p a) l l' x e in
      record {
        placed = Kept-IsPlaced n loyal p faulty a l.general l'.general renewed.general h.placed;
        within = omega (arith, renewed.general.round, room);
        ordered = rw renewed.orders h.ordered;
        real = rw renewed.orders h.real;
        kept_full = λ m i. absurd (none_kept i);
        kept_sound = λ m i. absurd (none_kept i);
        kept_seen = λ m i. absurd (none_kept i);
        sent_sound = λ q m w. (AllSent-SentTo _ l'.started all_sent w).0;
        sent_wide =
            λ q m w. let (_, wide, short) = AllSent-SentTo _ l'.started all_sent w in (wide, short);
        spread = λ v y. elim (h.spread v (rw renewed.orders at y)) [
          | inl (real, (m, i, same)) ↦
              inr (subst (Relayed n loyal t a l'.started) same (relays m i (rw same real)))
          | inr r ↦ inr (
              Relayed-Grows n loyal (λ b. (λ v q. q, λ b q. q))
                (λ b q. rw s.all_started (append_right s.sending.1 q)) r)
        ];
      }
