-- ===== src/Generals/Lieutenant/ReorderedTests.antt =====
-- Messages of one round in two orders.
use byzantine_agreement.OrderedSet.{member}
use byzantine_agreement.OrderedSet.Vectors.{list_order}
use byzantine_agreement.Msg.Less.{order_order}
use byzantine_agreement.Common.{true, ◌↔◌, ◌⊎◌, ◌≡◌, arith, List, [], ◌∷◌}
use mathlib.Core.List.{Memᴰ}
use byzantine_agreement.Msg.{Order, Message}
use byzantine_agreement.Generals.Lieutenant.{decide_order}
use byzantine_agreement.Generals.Lieutenant.TakeAll.{
  take_all, IsConsistent, Adds, Has, take_all-Adds,
}
use byzantine_agreement.Generals.Lieutenant.Reordered.{AreIn, take_all-reordered}
use byzantine_agreement.Generals.Scenario.{in_round}

abbrev from_2 : Message
from_2 = record { round = 1; order = Order.retreat; ids = 0 ∷ 2 ∷ [] }

abbrev from_3 : Message
from_3 = record { round = 1; order = Order.attack; ids = 0 ∷ 3 ∷ [] }

abbrev once : List Message
once = from_2 ∷ from_3 ∷ []

abbrev again : List Message
again = from_3 ∷ from_2 ∷ from_3 ∷ []

once-IsConsistent : IsConsistent once
once-IsConsistent m m' (Memᴰ.head e) (Memᴰ.head e') q = cc (e, e')
once-IsConsistent m m' (Memᴰ.head e) (Memᴰ.tail (Memᴰ.head e')) q = cc (e, e', q)
once-IsConsistent m m' (Memᴰ.tail (Memᴰ.head e)) (Memᴰ.head e') q = cc (e, e', q)
once-IsConsistent m m' (Memᴰ.tail (Memᴰ.head e)) (Memᴰ.tail (Memᴰ.head e')) q = cc (e, e')
once-IsConsistent m m' (Memᴰ.tail (Memᴰ.tail i)) j q = elim i [ ]
once-IsConsistent m m' i (Memᴰ.tail (Memᴰ.tail j)) q = elim j [ ]

once-AreIn : AreIn once again
once-AreIn m (Memᴰ.head e) = Memᴰ.tail (Memᴰ.head e)
once-AreIn m (Memᴰ.tail (Memᴰ.head e)) = Memᴰ.head e
once-AreIn m (Memᴰ.tail (Memᴰ.tail i)) = elim i [ ]

again-AreIn : AreIn again once
again-AreIn m (Memᴰ.head e) = Memᴰ.tail (Memᴰ.head e)
again-AreIn m (Memᴰ.tail i) = i

take_all-reordered_example :
    ((take_all (in_round 1 []) once).orders_seen ≡ (take_all (in_round 1 []) again).orders_seen)
    × ((take_all (in_round 1 []) once).ids_this_round
        ≡ (take_all (in_round 1 []) again).ids_this_round)
    × (decide_order (take_all (in_round 1 []) once) ≡ decide_order (take_all (in_round 1 []) again))
take_all-reordered_example =
    take_all-reordered (in_round 1 []) once again (omega arith) (tt, tt) tt once-IsConsistent
      once-AreIn again-AreIn

take_all-Adds_example :
    ((member Order.retreat (take_all (in_round 1 []) once).orders_seen ≡ true) ↔ (
      (member Order.retreat (in_round 1 []).orders_seen ≡ true)
      ⊎ Adds (in_round 1 []) once Order.retreat))
    × ((member (0 ∷ 4 ∷ []) (take_all (in_round 1 []) once).ids_this_round ≡ true)
        ↔ ((member (0 ∷ 4 ∷ []) (in_round 1 []).ids_this_round ≡ true) ⊎ Has once (0 ∷ 4 ∷ [])))
take_all-Adds_example =
    take_all-Adds (in_round 1 []) once Order.retreat (0 ∷ 4 ∷ []) (omega arith) (tt, tt) tt
      once-IsConsistent
