-- ===== src/Generals/Network/Spread.antt =====
-- How an order spreads through a network: who has seen it, who relays it, and the invariant of one
-- lieutenant (`Lieutenant::Decide` and `InitNewRound` of src/general.cc).
use byzantine_agreement.Common.{
  ℕ, ℕ_discrete, ◌+◌, ◌^◌, ◌<◌, ◌≤◌, ◌≡◌, ◌≢◌, ◌⊎◌, inl, inr, Bool, true, false, List, [], ◌∷◌,
  ◌++◌, All, length, contains, get_elem?, some, subst,
}
use mathlib.Core.Logic.{ite}
use mathlib.Core.List.{Memᴰ}
use byzantine_agreement.OrderedSet.{member}
use byzantine_agreement.OrderedSet.Laws.{IsOrdered}
use byzantine_agreement.Msg.{Order, Message, order_code}
use byzantine_agreement.Msg.Less.{order_order}
use byzantine_agreement.Wire.RoundTrip.{IsWide}
use byzantine_agreement.Generals.Base.{General, Platform}
use byzantine_agreement.Generals.Forward.{Batch}
use byzantine_agreement.Generals.Lieutenant.{Lieutenant}
use byzantine_agreement.Generals.Lieutenant.Valid.{distinct}
use byzantine_agreement.Generals.Lieutenant.Relay.{IsOpen}
use byzantine_agreement.Generals.Network.{Node, state, update}

abbrev pub Sees : Lieutenant → Order → Type 0
Sees l v = member v l.orders_seen ≡ true

-- The lieutenant holds back a message with the order for the next round.
abbrev pub IsKept : Lieutenant → Order → Type 0
IsKept l v = (m : Message) × Memᴰ m l.msgs_this_round × (m.order ≡ v)

-- A message to a process among the batches that were started.
pub record SentTo (sent : List Batch) (q : ℕ) (m : Message) : Type 0 where
  pub batch : Batch
  pub is_started : Memᴰ batch sent
  pub is_for : batch.pid ≡ q
  pub is_in : Memᴰ m batch.msgs

-- No lieutenant forgets an order or what it has sent.
abbrev pub Grows : Lieutenant → Lieutenant → Type 0
Grows l l' =
    ((v : Order) → Sees l v → Sees l' v) × ((b : Batch) → Memᴰ b l.started → Memᴰ b l'.started)

abbrev pub AllGrow : (ℕ → Node) → (ℕ → Node) → Type 0
AllGrow s t = (a : ℕ) → Grows (state (s a)) (state (t a))

pub update-AllGrow :
    (s : ℕ → Node) (i : ℕ) (new : Node)
    → Grows (state (s i)) (state new)
    → AllGrow s (update s i new)
update-AllGrow s i new g a =
    elim (ℕ_discrete i a) as (λ d. Grows (state (s a)) (state (ite d new (s a)))) [
      | yes e ↦ subst (λ k. Grows (state (s k)) (state new)) e g
      | no e ↦ (λ v q. q, λ b q. q)
    ]

-- The network's parameters: the number of processes, and which lieutenants are loyal.
module _ (n : ℕ) (loyal : ℕ → Bool) where
  -- Lieutenant `a`, which has started the batches, has passed an order on that came over a path of
  -- lieutenants who have all seen it: to every process that is not on the path, if it is loyal.
  pub record Relayed (s : ℕ → Node) (a : ℕ) (sent : List Batch) (v : Order) : Type 0 where
    pub path : List ℕ
    pub heard : (b : ℕ) → contains path b ≡ true → b ≢ 0 → Sees (state (s b)) v
    pub passed_on :
        loyal a ≡ true
        → (q : ℕ) → q < n
        → contains (path ++ a ∷ []) q ≡ false
        → (m : Message) × (m.order ≡ v) × SentTo sent q m

  -- All lieutenants whose ids a message names have seen its order and passed it on.
  abbrev pub IsHonest : (ℕ → Node) → Message → Type 0
  IsHonest s m =
      (b : ℕ)
      → contains m.ids b ≡ true
      → b ≢ 0
      → Sees (state (s b)) m.order × Relayed s b (state (s b)).started m.order

  -- A message as it is sent over the network.
  pub record IsSound (s : ℕ → Node) (m : Message) : Type 0 where
    pub fits : order_code m.order < 2 ^ 32
    pub honest : m.order ≢ Order.no_order → IsHonest s m

  -- What `ValidMessage` asks of a message, but for its sender.
  pub record IsFull (g : General) (m : Message) : Type 0 where
    pub not_later : m.round ≤ g.round
    pub one_id_each : length m.ids ≡ m.round + 1
    pub commander_first : get_elem? m.ids 0 ≡ some 0
    pub others : All (λ (i : ℕ). (i < n) × (i ≢ g.id)) m.ids
    pub no_id_twice : distinct m.ids ≡ true

  -- What stays the same for a lieutenant.
  pub record IsPlaced (p : ℕ → Platform) (faulty a : ℕ) (g : General) : Type 0 where
    pub own_id : g.id ≡ a
    pub below : a < n
    pub all_listed : length g.processes ≡ n
    pub same_faulty : g.faulty ≡ faulty
    pub opened : loyal a ≡ true → IsOpen (p a) g

  -- The invariant of lieutenant `a` in a network.
  pub record Local (s : ℕ → Node) (p : ℕ → Platform) (faulty a : ℕ) (l : Lieutenant) : Type 0 where
    pub placed : IsPlaced p faulty a l.general
    pub within : l.round ≤ faulty + 1
    pub ordered : IsOrdered l.orders_seen
    pub real : (v : Order) → Sees l v → v ≢ Order.no_order
    pub kept_full : (m : Message) → Memᴰ m l.msgs_this_round → IsFull l.general m
    pub kept_sound : (m : Message) → Memᴰ m l.msgs_this_round → IsSound s m
    pub kept_seen :
        (m : Message) → Memᴰ m l.msgs_this_round → m.order ≢ Order.no_order → Sees l m.order
    pub sent_sound : (q : ℕ) (m : Message) → SentTo l.started q m → IsSound s m
    pub sent_wide :
        (q : ℕ) (m : Message) → SentTo l.started q m → IsWide m × (length m.ids ≤ faulty + 2)
    pub spread :
        (v : Order) → Sees l v → ((v ≢ Order.no_order) × IsKept l v) ⊎ Relayed s a l.started v

  pub SentTo-Grows :
      {bs bs' : List Batch} {q : ℕ} {m : Message}
      → ((b : Batch) → Memᴰ b bs → Memᴰ b bs')
      → SentTo bs q m
      → SentTo bs' q m
  SentTo-Grows g h = record {
    batch = h.batch;
    is_started = g h.batch h.is_started;
    is_for = h.is_for;
    is_in = h.is_in;
  }

  pub Relayed-Grows :
      {s t : ℕ → Node} {a : ℕ} {bs bs' : List Batch} {v : Order}
      → AllGrow s t
      → ((b : Batch) → Memᴰ b bs → Memᴰ b bs')
      → Relayed s a bs v
      → Relayed t a bs' v
  Relayed-Grows {v} g h r = record {
    path = r.path;
    heard = λ b c z. (g b).0 v (r.heard b c z);
    passed_on =
        λ is_loyal q lt c. let (m, e, w) = r.passed_on is_loyal q lt c in (m, e, SentTo-Grows h w);
  }

  pub IsSound-Grows : {s t : ℕ → Node} {m : Message} → AllGrow s t → IsSound s m → IsSound t m
  IsSound-Grows {m} g h = record {
    fits = h.fits;
    honest = λ o b c z.
        let (seen, passed) = h.honest o b c z in
        ((g b).0 m.order seen, Relayed-Grows g (g b).1 passed);
  }

  pub Local-Grows :
      {s t : ℕ → Node} {p : ℕ → Platform} {faulty a : ℕ} {l : Lieutenant}
      → AllGrow s t
      → Local s p faulty a l
      → Local t p faulty a l
  Local-Grows {l} g h = record {
    placed = h.placed;
    within = h.within;
    ordered = h.ordered;
    real = h.real;
    kept_full = h.kept_full;
    kept_sound = λ m k. IsSound-Grows g (h.kept_sound m k);
    kept_seen = h.kept_seen;
    sent_sound = λ q m k. IsSound-Grows g (h.sent_sound q m k);
    sent_wide = h.sent_wide;
    spread =
        λ v k. elim (h.spread v k) [ inl w ↦ inl w | inr w ↦ inr (Relayed-Grows g (λ b q. q) w) ];
  }
