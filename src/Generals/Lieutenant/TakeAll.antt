-- ===== src/Generals/Lieutenant/TakeAll.antt =====
-- The messages that `Lieutenant::Decide` of src/general.cc takes in one round, one after the other.
use byzantine_agreement.Common.{
  ℕ, ◌≡◌, ◌≢◌, ◌⊎◌, ◌↔◌, ◌∙◌, refl, sym, ap, inl, inr, true, false, List, [], ◌∷◌, Bool-cases,
  subst,
}
use mathlib.Core.List.{Memᴰ}
use byzantine_agreement.OrderedSet.{member}
use byzantine_agreement.OrderedSet.Laws.{IsOrdered}
use byzantine_agreement.OrderedSet.Vectors.{list_order}
use byzantine_agreement.Msg.{Order, Message}
use byzantine_agreement.Msg.Less.{order_order, message_order}
use byzantine_agreement.Generals.Lieutenant.Later.{IsLater, Step, take_message-Step, Step-IsLater}
use byzantine_agreement.Generals.Lieutenant.{Lieutenant, take_message}

-- The handler takes the messages one after the other, and the round goes on.
abbrev pub take_all : Lieutenant → List Message → Lieutenant
take_all l [] = l
take_all l (m ∷ ms) = take_all (take_message l m).0 ms

-- What the messages add to the orders seen, of a lieutenant that has listed some ids.
pub data Adds (l : Lieutenant) (ms : List Message) (v : Order) : Type 0 where
  adds :
      (m : Message)
      → Memᴰ m ms
      → member m.ids l.ids_this_round ≡ false
      → m.order ≡ v
      → v ≢ Order.no_order
      → Adds l ms v

-- Messages with the same ids have the same order.
abbrev pub IsConsistent : List Message → Type 0
IsConsistent ms = (m m' : Message) → Memᴰ m ms → Memᴰ m' ms → m.ids ≡ m'.ids → m.order ≡ m'.order

pub take_all-IsLater : (l : Lieutenant) (ms : List Message) → IsLater l → IsLater (take_all l ms)
take_all-IsLater l [] h = h
take_all-IsLater l (m ∷ ms) h =
    take_all-IsLater (take_message l m).0 ms
      (Step-IsLater l (take_message l m).0 m (take_message-Step l m h) h)

IsConsistent-rest : (m : Message) (ms : List Message) → IsConsistent (m ∷ ms) → IsConsistent ms
IsConsistent-rest m ms c a b i j e = c a b (Memᴰ.tail i) (Memᴰ.tail j) e

not_listed_before :
    (l l' : Lieutenant) (m : Message) (ids : List ℕ)
    → Step l m l'
    → member ids l'.ids_this_round ≡ false
    → member ids l.ids_this_round ≡ false
not_listed_before l l' m ids st n = elim (Bool-cases (member ids l.ids_this_round)) [
  | inl y ↦ cc (st.ids_kept ids y, n)
  | inr y ↦ y
]

-- What is seen in the end was seen at first, or some message added it.
seen_from :
    (l : Lieutenant) (ms : List Message) (v : Order)
    → IsLater l
    → member v (take_all l ms).orders_seen ≡ true
    → (member v l.orders_seen ≡ true) ⊎ Adds l ms v
seen_from l [] v h y = inl y
seen_from l (m ∷ ms) v h y =
    let st = take_message-Step l m h in
    let l' = (take_message l m).0 in
    elim (seen_from l' ms v (Step-IsLater l l' m st h) y) [
      | inl w ↦ elim (st.orders_from v w) [
        | inl w' ↦ inl w'
        | inr (n, e, real) ↦ inr (adds m (Memᴰ.head refl) n e real)
      ]
      | inr (adds m' i n e real) ↦
          inr (adds m' (Memᴰ.tail i) (not_listed_before l l' m m'.ids st n) e real)
    ]

-- What was seen is seen in the end.
still_seen :
    (l : Lieutenant) (ms : List Message) (v : Order)
    → IsLater l
    → member v l.orders_seen ≡ true
    → member v (take_all l ms).orders_seen ≡ true
still_seen l [] v h y = y
still_seen l (m ∷ ms) v h y =
    let st = take_message-Step l m h in
    still_seen (take_message l m).0 ms v (Step-IsLater l (take_message l m).0 m st h)
      (st.orders_kept v y)

-- What some message adds is seen in the end.
added_seen :
    (l : Lieutenant) (ms : List Message) (v : Order)
    → IsLater l
    → IsConsistent ms
    → Adds l ms v
    → member v (take_all l ms).orders_seen ≡ true
added_seen l [] v h c (adds m i n e real) = elim i [ ]
added_seen l (m ∷ ms) v h c (adds m' i n e real) =
    let st = take_message-Step l m h in
    let l' = (take_message l m).0 in
    let h' = Step-IsLater l l' m st h in
    let same_ids : m'.ids ≡ m.ids → member v (take_all l' ms).orders_seen ≡ true = λ q.
      let o : m.order ≡ v = c m m' (Memᴰ.head refl) i (sym q) ∙ e in
      still_seen l' ms v h'
        (subst (λ w. member w l'.orders_seen ≡ true) o (st.seen (rw (sym q) n) (rw o real))) in
    elim (Bool-cases (member m'.ids l'.ids_this_round)) [
      | inl y ↦ elim (st.ids_from m'.ids y) [ inl q ↦ same_ids q | inr w ↦ cc (w, n) ]
      | inr y ↦ elim i [
        | Memᴰ.head q ↦ cc (st.listed, y, ap (λ (k : Message). k.ids) q)
        | Memᴰ.tail j ↦ added_seen l' ms v h' (IsConsistent-rest m ms c) (adds m' j y e real)
      ]
    ]

-- The ids of a message.
pub data Has (ms : List Message) (ids : List ℕ) : Type 0 where
  has : (m : Message) → Memᴰ m ms → m.ids ≡ ids → Has ms ids

-- The ids listed in the end are those listed at first and those of the messages.
listed_from :
    (l : Lieutenant) (ms : List Message) (ids : List ℕ)
    → IsLater l
    → member ids (take_all l ms).ids_this_round ≡ true
    → (member ids l.ids_this_round ≡ true) ⊎ Has ms ids
listed_from l [] ids h y = inl y
listed_from l (m ∷ ms) ids h y =
    let st = take_message-Step l m h in
    let l' = (take_message l m).0 in
    elim (listed_from l' ms ids (Step-IsLater l l' m st h) y) [
      | inl w ↦ elim (st.ids_from ids w) [
        | inl e ↦ inr (has m (Memᴰ.head refl) (sym e))
        | inr w' ↦ inl w'
      ]
      | inr (has m' i e) ↦ inr (has m' (Memᴰ.tail i) e)
    ]

still_listed :
    (l : Lieutenant) (ms : List Message) (ids : List ℕ)
    → IsLater l
    → member ids l.ids_this_round ≡ true
    → member ids (take_all l ms).ids_this_round ≡ true
still_listed l [] ids h y = y
still_listed l (m ∷ ms) ids h y =
    let st = take_message-Step l m h in
    still_listed (take_message l m).0 ms ids (Step-IsLater l (take_message l m).0 m st h)
      (st.ids_kept ids y)

message_listed :
    (l : Lieutenant) (ms : List Message) (ids : List ℕ)
    → IsLater l
    → Has ms ids
    → member ids (take_all l ms).ids_this_round ≡ true
message_listed l [] ids h (has m i e) = elim i [ ]
message_listed l (m ∷ ms) ids h (has m' (Memᴰ.head q) e) =
    let st = take_message-Step l m h in
    still_listed (take_message l m).0 ms ids (Step-IsLater l (take_message l m).0 m st h) (
      subst (λ k. member k (take_message l m).0.ids_this_round ≡ true)
        (ap (λ (k : Message). k.ids) (sym q) ∙ e) st.listed)
message_listed l (m ∷ ms) ids h (has m' (Memᴰ.tail i) e) =
    let st = take_message-Step l m h in
    message_listed (take_message l m).0 ms ids (Step-IsLater l (take_message l m).0 m st h)
      (has m' i e)

-- In a round after the first, as long as it goes on, the orders seen are exactly those seen before and
-- the real ones of messages whose ids had not been listed, if messages with the same ids have the same
-- order; and the ids listed are exactly those listed before and those of the messages.
pub take_all-Adds :
    (l : Lieutenant) (ms : List Message) (v : Order) (ids : List ℕ)
    → l.round ≢ 0
    → IsOrdered l.orders_seen
    → IsOrdered l.ids_this_round
    → IsConsistent ms
    → ((member v (take_all l ms).orders_seen ≡ true)
        ↔ ((member v l.orders_seen ≡ true) ⊎ Adds l ms v))
      × ((member ids (take_all l ms).ids_this_round ≡ true)
          ↔ ((member ids l.ids_this_round ≡ true) ⊎ Has ms ids))
take_all-Adds l ms v ids later o i c =
    let h : IsLater l = record { not_first = later; orders = o; ids = i } in
    (
      (
        λ y. seen_from l ms v h y,
        λ y. elim y [ inl w ↦ still_seen l ms v h w | inr w ↦ added_seen l ms v h c w ],
      ),
      (
        λ y. listed_from l ms ids h y,
        λ y. elim y [ inl w ↦ still_listed l ms ids h w | inr w ↦ message_listed l ms ids h w ],
      ),
    )
