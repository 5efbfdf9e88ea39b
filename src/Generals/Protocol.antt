-- ===== src/Generals/Protocol.antt =====
-- Messages between generals: what a lieutenant relays (`InitNewRound` of src/general.cc), and
-- whether the receiver takes it (`ValidMessage`).
mod Tests
use byzantine_agreement.Common.{
  ℕ, zero, suc, ◌+◌, ◌-◌, ◌^◌, ◌<◌, ◌≤◌, ◌≡◌, ◌≢◌, refl, sym, ap, ◌∙◌, inl, inr, arith, Bool, true,
  false, not, ◌&&◌, ◌||◌, List, [], ◌∷◌, ◌++◌, Option, none, some, length, length-append, get_elem?,
  get_last?, get_last?-append, contains, contains-append, All, ok, get_elem?-below,
}
use byzantine_agreement.Msg.{Message, Order}
use byzantine_agreement.Net.{Address}
use byzantine_agreement.Generals.Base.{General}
use byzantine_agreement.Generals.Forward.{relayed}
use byzantine_agreement.Generals.Validation.{valid_message}
use byzantine_agreement.Generals.Lieutenant.Valid.{IsValid, distinct, valid_message-IsValid}

-- The receiver of a message: a process of the same list, not behind the sender.
pub record Hears (g h : General) : Type 0 where
  pub same_list : h.processes ≡ g.processes
  pub not_behind : g.round ≤ h.round
  pub few : h.round < 2 ^ 32 - 1

others-append :
    (ids : List ℕ) (n me you : ℕ)
    → All (λ i. (i < n) × (i ≢ me)) ids
    → me < n
    → contains (ids ++ me ∷ []) you ≡ false
    → All (λ i. (i < n) × (i ≢ you)) (ids ++ me ∷ [])
others-append [] n me you h lt c = ((lt, ground arith), tt)
others-append (i ∷ is) n me you h lt c =
    ((h.0.0, ground arith), others-append is n me you h.1 lt (ground arith))

not-contains :
    (ids : List ℕ) (n me : ℕ) → All (λ i. (i < n) × (i ≢ me)) ids → contains ids me ≡ false
not-contains [] n me h = refl
not-contains (i ∷ is) n me h = ground (arith, not-contains is n me h.1)

distinct-append :
    (ids : List ℕ) (me : ℕ)
    → distinct ids ≡ true
    → contains ids me ≡ false
    → distinct (ids ++ me ∷ []) ≡ true
distinct-append [] me d c = refl
distinct-append (i ∷ is) me d c =
    ground (arith, distinct-append is me, contains-append is (me ∷ []) i)

first-append :
    (ids : List ℕ) (me : ℕ) → get_elem? ids 0 ≡ some 0 → get_elem? (ids ++ me ∷ []) 0 ≡ some 0
first-append [] me h = cc
first-append (i ∷ is) me h = h

accepted :
    (h : General) (m : Message) (from : Address)
    → h.round < 2 ^ 32 - 1
    → IsValid h m from
    → valid_message h m from ≡ ok true
accepted h m from few v = let (b, e, q) = valid_message-IsValid h m from few in e ∙ ap ok (q.1 v)

-- A message that is valid for a lieutenant that has just left the message's round is, as the
-- lieutenant relays it from its host, valid for every process of the same list that is in the
-- same round as the lieutenant or a later one (below 2 ^ 32 - 1) and whose id is not among the
-- new ids.
pub relayed-accepted :
    (g h : General) (m : Message) (from from' me : Address)
    → IsValid g m from
    → g.round ≡ m.round + 1
    → get_elem? g.processes g.id ≡ some me
    → me.hostname ≡ from'.hostname
    → Hears g h
    → contains (m.ids ++ g.id ∷ []) h.id ≡ false
    → valid_message h (relayed g m) from' ≡ ok true
unfolding relayed
relayed-accepted g h m from from' me v next is_me host hears c =
    accepted h (relayed g m) from' hears.few (record {
      not_later = hears.not_behind;
      one_id_each = omega (arith, length-append m.ids (g.id ∷ []), v.one_id_each, next);
      commander_first = first-append m.ids g.id v.commander_first;
      others = rw hears.same_list (
          others-append m.ids (length g.processes) g.id h.id v.others
            (get_elem?-below g.processes g.id is_me) c);
      no_id_twice =
          distinct-append m.ids g.id v.no_id_twice
            (not-contains m.ids (length g.processes) g.id v.others);
      last_id = g.id;
      last_is = get_last?-append m.ids g.id;
      sender = me;
      sender_is = rw hears.same_list is_me;
      from_sender = host;
    })

-- The commander's message of round 0 is valid, in any round below 2 ^ 32 - 1, for every process
-- whose own id is not 0 and which it reaches from the host of the first process.
pub commander-accepted :
    (h : General) (order : Order) (from cmdr : Address)
    → h.id ≢ 0
    → h.round < 2 ^ 32 - 1
    → get_elem? h.processes 0 ≡ some cmdr
    → cmdr.hostname ≡ from.hostname
    → valid_message h (record { round = 0; order = order; ids = 0 ∷ [] }) from ≡ ok true
commander-accepted h order from cmdr other few is_cmdr host =
    accepted h (record { round = 0; order = order; ids = 0 ∷ [] }) from few
      (record {
        not_later = omega arith;
        one_id_each = refl;
        commander_first = refl;
        others = ((get_elem?-below h.processes 0 is_cmdr, λ e. other (sym e)), tt);
        no_id_twice = refl;
        last_id = 0;
        last_is = refl;
        sender = cmdr;
        sender_is = is_cmdr;
        from_sender = host;
      })

-- A lieutenant whose id is 0, the commander's, finds no message valid, in any round below 2 ^ 32
-- - 1.
pub id_zero-rejects :
    (g : General) (m : Message) (from : Address)
    → g.round < 2 ^ 32 - 1
    → g.id ≡ 0
    → valid_message g m from ≡ ok false
id_zero-rejects g m from few z =
    let (b, e, q) = valid_message-IsValid g m from few in e ∙ ap ok (none_valid b q)
  where
    first_other :
        (ids : List ℕ)
        → get_elem? ids 0 ≡ some 0
        → All (λ i. (i < length g.processes) × (i ≢ g.id)) ids
        → ⊥
    first_other [] f o = cc
    first_other (i ∷ is) f o = ground arith

    none_valid :
        (b : Bool) → ((b ≡ true) → IsValid g m from) × (IsValid g m from → (b ≡ true)) → b ≡ false
    none_valid false q = refl
    none_valid true q = let v = q.0 refl in absurd (first_other m.ids v.commander_first v.others)
