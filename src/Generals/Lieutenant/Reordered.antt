-- ===== src/Generals/Lieutenant/Reordered.antt =====
-- The messages that `Lieutenant::Decide` of src/general.cc takes in one round, in different orders
-- and numbers.
use byzantine_agreement.Common.{ℕ, ◌≡◌, ◌≢◌, refl, inl, inr, true, List, []}
use mathlib.Core.List.{Memᴰ}
use byzantine_agreement.OrderedSet.{member}
use byzantine_agreement.OrderedSet.Laws.{IsOrdered}
use byzantine_agreement.OrderedSet.Same.{same_elements}
use byzantine_agreement.OrderedSet.Vectors.{list_order}
use byzantine_agreement.Msg.{Order, Message}
use byzantine_agreement.Msg.Less.{order_order, message_order}
use byzantine_agreement.Generals.Lieutenant.Later.{IsLater}
use byzantine_agreement.Generals.Lieutenant.{Lieutenant, decide_order}
use byzantine_agreement.Generals.Lieutenant.TakeAll.{
  take_all, take_all-IsLater, take_all-Adds, IsConsistent, adds, has,
}

-- The messages of the one list are all in the other.
abbrev pub AreIn : List Message → List Message → Type 0
AreIn ms ms' = (m : Message) → Memᴰ m ms → Memᴰ m ms'

module _ (l : Lieutenant) (ms ms' : List Message) (h : IsLater l) (c : IsConsistent ms)
    (c' : IsConsistent ms') (within : AreIn ms ms') where
  seen_too :
      (v : Order)
      → member v (take_all l ms).orders_seen ≡ true
      → member v (take_all l ms').orders_seen ≡ true
  seen_too v y =
      let there = (take_all-Adds l ms' v [] h.not_first h.orders h.ids c').0.1 in
      elim ((take_all-Adds l ms v [] h.not_first h.orders h.ids c).0.0 y) [
        | inl w ↦ there (inl w)
        | inr (adds m i n e real) ↦ there (inr (adds m (within m i) n e real))
      ]

  listed_too :
      (ids : List ℕ)
      → member ids (take_all l ms).ids_this_round ≡ true
      → member ids (take_all l ms').ids_this_round ≡ true
  listed_too ids y =
      let there = (take_all-Adds l ms' Order.no_order ids h.not_first h.orders h.ids c').1.1 in
      elim ((take_all-Adds l ms Order.no_order ids h.not_first h.orders h.ids c).1.0 y) [
        | inl w ↦ there (inl w)
        | inr (has m i e) ↦ there (inr (has m (within m i) e))
      ]

-- In a round after the first, as long as it goes on, it makes no difference to the orders seen and the
-- ids listed in which order messages are taken, or how often: two lists of the same messages, of which
-- those with the same ids have the same order, lead to the same sets, and so to the same choice.
pub take_all-reordered :
    (l : Lieutenant) (ms ms' : List Message)
    → l.round ≢ 0
    → IsOrdered l.orders_seen
    → IsOrdered l.ids_this_round
    → IsConsistent ms
    → AreIn ms ms'
    → AreIn ms' ms
    → ((take_all l ms).orders_seen ≡ (take_all l ms').orders_seen)
      × ((take_all l ms).ids_this_round ≡ (take_all l ms').ids_this_round)
      × (decide_order (take_all l ms) ≡ decide_order (take_all l ms'))
unfolding decide_order
take_all-reordered l ms ms' later o i c f g =
    let h : IsLater l = record { not_first = later; orders = o; ids = i } in
    let c' : IsConsistent ms' = λ m k a b e. c m k (g m a) (g k b) e in
    let e = take_all-IsLater l ms h in
    let e' = take_all-IsLater l ms' h in
    let orders : (take_all l ms).orders_seen ≡ (take_all l ms').orders_seen =
      same_elements (take_all l ms).orders_seen (take_all l ms').orders_seen e.orders e'.orders
        (seen_too l ms ms' h c c' f) (seen_too l ms' ms h c' c g) in
    (
      orders,
      same_elements (take_all l ms).ids_this_round (take_all l ms').ids_this_round e.ids e'.ids
          (listed_too l ms ms' h c c' f) (listed_too l ms' ms h c' c g),
      rw orders refl,
    )
