-- ===== src/Generals/Network/AgreementTests.antt =====
-- The agreement of the two lieutenants of three processes, whose commander falsifies an order.
use byzantine_agreement.Common.{
  ℕ, ℕ_discrete, zero, suc, ◌≡◌, ◌↔◌, refl, sym, ap, ◌∙◌, inl, arith, Bool, true, List, [], ◌∷◌,
  none, some, ok, take, subst,
}
use mathlib.Core.List.{Memᴰ}
use mathlib.Core.Option.{some-injective}
use byzantine_agreement.Msg.{Order, Message}
use byzantine_agreement.Wire.{message_buf, ack_buf, byzantine_msg_from_buf}
use byzantine_agreement.Udp.{
  Client, Datagram, Listening, listen, Arrival, received, serve, ServerAction, continue, stop,
  bufsize, client_of_sockaddr, remote_address,
}
use byzantine_agreement.Generals.Base.{Platform, ProcessList}
use byzantine_agreement.Generals.Forward.{Batch}
use byzantine_agreement.Generals.Validation.{valid_message}
use byzantine_agreement.Generals.Lieutenant.{Lieutenant, decide, decide_order, round_complete}
use byzantine_agreement.Generals.Lieutenant.Relay.{IsOpen}
use byzantine_agreement.Generals.Network.{
  Node, listening, stopped, update, by_commander, by_lieutenant, handles, Step,
}
use byzantine_agreement.Generals.Network.Spread.{SentTo}
use byzantine_agreement.Generals.Network.Members.{IsMember, IsNetwork}
use byzantine_agreement.Generals.Network.Accepting.{Took, now, before, IsTold}
use byzantine_agreement.Generals.Network.Timely.{Timely, at_first, next, Timely-Reach}
use byzantine_agreement.Generals.Network.Agreement.{network_agrees}
use byzantine_agreement.Generals.Network.Ending.{network_ends}
use byzantine_agreement.Generals.Lieutenant.Timeouts.{timed_out}
use byzantine_agreement.Generals.Lieutenant.Joining.{CanJoin, new_lieutenant-CanJoin}
use byzantine_agreement.Generals.Lieutenant.Started.{decide_from_start}
use byzantine_agreement.Generals.Senders.Joined.{AllAnswered}
use byzantine_agreement.Generals.Network.Completing.{network_completes}
use byzantine_agreement.Generals.Paths.{IsPath}
use byzantine_agreement.OrderedSet.{member}
use byzantine_agreement.OrderedSet.Vectors.{list_order}
use byzantine_agreement.Generals.Scenario.{kernel, platform, client_on, working, readings}
use byzantine_agreement.Generals.Network.Example.{
  processes, client_of, falsifying, commander, first, relay, senders, fresh, batch, told, done,
  datagram, commander_launches, fresh_made, first-Serves, last-Serves,
}

abbrev loyals : ℕ → Bool
loyals a = true

abbrev platforms : ℕ → Platform
platforms a = platform

abbrev s₁ : ℕ → Node
s₁ = update (λ j. listening (fresh j)) 1 (listening (told 1 2 Order.attack))

abbrev s₂ : ℕ → Node
s₂ = update s₁ 2 (listening (told 2 1 Order.retreat))

abbrev done_1 : Lieutenant
done_1 = done 1 2 Order.attack b'c' Order.retreat

abbrev done_2 : Lieutenant
done_2 = done 2 1 Order.retreat b'b' Order.attack

abbrev s₃ : ℕ → Node
s₃ = update s₂ 1 (stopped done_1)

abbrev s₄ : ℕ → Node
s₄ = update s₃ 2 (stopped done_2)

abbrev Move : (ℕ → Node) → (ℕ → Node) → Type 0
Move = Step 3 platforms senders

step_1 : Move (λ j. listening (fresh j)) s₁
step_1 =
    handles 1 (fresh 1) (received (datagram b'a' (first Order.attack)) readings) _ (omega arith)
      (omega arith) refl
      (by_commander (record { client = client_of b'b'; msg = first Order.attack }) (Memᴰ.head refl)
        refl)
      first-Serves.0

step_2 : Move s₁ s₂
unfolding ℕ_discrete
step_2 =
    handles 2 (fresh 2) (received (datagram b'a' (first Order.retreat)) readings) _ (omega arith)
      (omega arith) refl
      (by_commander (record { client = client_of b'c'; msg = first Order.retreat })
        (Memᴰ.tail (Memᴰ.head refl)) refl)
      first-Serves.1

step_3 : Move s₂ s₃
unfolding ℕ_discrete
step_3 =
    handles 1 (told 1 2 Order.attack) (received (datagram b'c' (relay 2 Order.retreat)) readings) _
      (omega arith) (omega arith) refl
      (by_lieutenant 2 (batch 2 1 Order.retreat) (relay 2 Order.retreat) (omega arith)
        (Memᴰ.head refl) (Memᴰ.head refl) refl)
      last-Serves.0

step_4 : Move s₃ s₄
unfolding ℕ_discrete
step_4 =
    handles 2 (told 2 1 Order.retreat) (received (datagram b'b' (relay 1 Order.attack)) readings) _
      (omega arith) (omega arith) refl
      (by_lieutenant 1 (batch 1 2 Order.attack) (relay 1 Order.attack) (omega arith)
        (Memᴰ.head refl) (Memᴰ.head refl) refl)
      last-Serves.1

fresh-IsOpen : (a : ℕ) → IsOpen platform (fresh a).general
unfolding byzantine_agreement.Generals.Base.exhibits_behavior byzantine_agreement.Behavior.exhibits
    byzantine_agreement.Behavior.behavior_and
fresh-IsOpen a = record { not_silent = refl; not_partial = refl; not_verbose = refl }

fresh-IsMember : (a : ℕ) → IsMember 3 platform true 0 a (fresh a)
fresh-IsMember a = record {
  kernel = kernel;
  processes = processes;
  calls = working;
  bound = true;
  behavior = 0;
  all_listed = refl;
  made = fresh_made a;
  opened = λ _. fresh-IsOpen a;
}

network : IsNetwork 3 platforms senders loyals 0 fresh
network = record {
  few = omega arith;
  small = omega arith;
  platform = falsifying;
  commander = commander;
  command = inl refl;
  first = refl;
  order = Order.attack;
  launches = commander_launches;
  members = λ a lt. fresh-IsMember a;
}

-- How the buffers of the last round decode.
decodes :
    (byzantine_msg_from_buf (take bufsize (message_buf (relay 2 Order.retreat)))
      ≡ some (relay 2 Order.retreat))
    × (byzantine_msg_from_buf (take bufsize (message_buf (relay 1 Order.attack)))
        ≡ some (relay 1 Order.attack))
unfolding byzantine_msg_from_buf message_buf byzantine_agreement.Wire.write_words
    byzantine_agreement.Wire.read_words byzantine_agreement.Wire.word_at
    byzantine_agreement.Wire.word_bytes byzantine_agreement.Msg.order_of_code
    byzantine_agreement.Msg.order_code
decodes = (refl, refl)

s₂-Timely : Timely 3 platforms senders fresh s₂
unfolding step_1 step_2
s₂-Timely = next (next at_first step_1 (λ m e. omega arith)) step_2 (λ m e. omega arith)

s₃-Timely : Timely 3 platforms senders fresh s₃
unfolding step_3
s₃-Timely =
    next s₂-Timely step_3
      (λ m e. omega (arith, ap (λ (k : Message). k.round) (some-injective _ _ (sym decodes.0 ∙ e))))

s₄-Timely : Timely 3 platforms senders fresh s₄
unfolding step_4
s₄-Timely =
    next s₃-Timely step_4
      (λ m e. omega (arith, ap (λ (k : Message). k.round) (some-injective _ _ (sym decodes.1 ∙ e))))

valid_last :
    (valid_message
        (told 1 2 Order.attack).general
        (relay 2 Order.retreat)
        (record { hostname = b'c' ∷ []; port = 5000 })
      ≡ ok true)
    × (valid_message
          (told 2 1 Order.retreat).general
          (relay 1 Order.attack)
          (record { hostname = b'b' ∷ []; port = 5000 })
        ≡ ok true)
unfolding valid_message byzantine_agreement.Generals.Validation.scan_ids
    byzantine_agreement.OrderedSet.insert
valid_last = (refl, refl)

one-Took : Took 3 platforms senders fresh 1 (relay 2 Order.retreat) s₄
unfolding ℕ_discrete client_of_sockaddr remote_address byzantine_agreement.Udp.hostname
    byzantine_agreement.Udp.create_socket
one-Took =
    before
      (now (told 1 2 Order.attack) (datagram b'c' (relay 2 Order.retreat)) readings (client_on b'c')
        (record { hostname = b'c' ∷ []; port = 5000 }) (done_1, stop)
        (Timely-Reach 3 platforms senders s₂-Timely) (omega arith) refl
        (by_lieutenant 2 (batch 2 1 Order.retreat) (relay 2 Order.retreat) (omega arith)
          (Memᴰ.head refl) (Memᴰ.head refl) refl)
        refl refl decodes.0 valid_last.0 last-Serves.0)
      step_4

two-Took : Took 3 platforms senders fresh 2 (relay 1 Order.attack) s₄
unfolding ℕ_discrete client_of_sockaddr remote_address byzantine_agreement.Udp.hostname
    byzantine_agreement.Udp.create_socket
two-Took =
    now (told 2 1 Order.retreat) (datagram b'b' (relay 1 Order.attack)) readings (client_on b'b')
      (record { hostname = b'b' ∷ []; port = 5000 }) (done_2, stop)
      (Timely-Reach 3 platforms senders s₃-Timely) (omega arith) refl
      (by_lieutenant 1 (batch 1 2 Order.attack) (relay 1 Order.attack) (omega arith)
        (Memᴰ.head refl) (Memᴰ.head refl) refl)
      refl refl decodes.1 valid_last.1 last-Serves.1

the_one {ℓ} : {A : Type ℓ} {x y : A} → Memᴰ x (y ∷ []) → x ≡ y
the_one (Memᴰ.head e) = e
the_one (Memᴰ.tail m) = elim m [ ]

sent_one :
    (a q r : ℕ) (o : Order) (m : Message)
    → SentTo (batch a q o ∷ []) r m
    → (r ≡ q) × (m ≡ relay a o)
sent_one a q r o m h =
    let b : h.batch ≡ batch a q o = the_one h.is_started in
    (
      sym h.is_for ∙ ap (λ (c : Batch). c.pid) b,
      the_one (subst (λ (c : Batch). Memᴰ m c.msgs) b h.is_in),
    )

one-IsTold : IsTold 3 platforms senders fresh loyals s₄ 1
unfolding ℕ_discrete
one-IsTold zero m lt y h real = elim h.is_started [ ]
one-IsTold (suc zero) m lt y h real = absurd (omega (arith, (sent_one 1 2 1 Order.attack m h).0))
one-IsTold (suc (suc zero)) m lt y h real =
    subst (λ k. Took 3 platforms senders fresh 1 k s₄) (sym (sent_one 2 1 1 Order.retreat m h).1)
      one-Took
one-IsTold (suc (suc (suc a))) m lt y h real = absurd (omega (arith, lt))

two-IsTold : IsTold 3 platforms senders fresh loyals s₄ 2
unfolding ℕ_discrete
two-IsTold zero m lt y h real = elim h.is_started [ ]
two-IsTold (suc zero) m lt y h real =
    subst (λ k. Took 3 platforms senders fresh 2 k s₄) (sym (sent_one 1 2 2 Order.attack m h).1)
      two-Took
two-IsTold (suc (suc zero)) m lt y h real =
    absurd (omega (arith, (sent_one 2 1 2 Order.retreat m h).0))
two-IsTold (suc (suc (suc a))) m lt y h real = absurd (omega (arith, lt))

network_agrees_example :
    (done_1.orders_seen ≡ done_2.orders_seen) × (decide_order done_1 ≡ decide_order done_2)
unfolding ℕ_discrete
network_agrees_example =
    network_agrees 3 platforms senders loyals 0 fresh s₄ 1 2 done_1 done_2 network (omega arith)
      s₄-Timely (omega arith) (omega arith) (omega arith) (omega arith) refl refl refl refl
      one-IsTold two-IsTold

network_completes_example :
    (round_complete done_1 ≡ true)
    ↔ ((ids : List ℕ) → IsPath 3 1 1 ids → member ids done_1.ids_this_round ≡ true)
unfolding ℕ_discrete
network_completes_example =
    network_completes 3 platforms senders loyals 0 fresh s₄ 1 network (omega arith) s₄-Timely
      (omega arith) (omega arith) (omega arith)

platform-AllAnswered : AllAnswered platform
platform-AllAnswered r i j = record {
  answers = none ∷ none ∷ none ∷ [];
  three = refl;
  words = (tt, (tt, (tt, tt)));
  are = refl;
}

fresh-CanJoin : (a : ℕ) → CanJoin (fresh a)
fresh-CanJoin a =
    new_lieutenant-CanJoin kernel processes a working true 0 0 (fresh a) (fresh_made a)

network_ends_example :
    decide platform (told 1 2 Order.attack) (timed_out readings ∷ []) ≡ ok (some Order.attack)
unfolding ℕ_discrete decide_order byzantine_agreement.OrderedSet.member
    byzantine_agreement.Msg.order_less
network_ends_example =
    network_ends 3 platforms senders loyals 0 fresh s₂ 1 (told 1 2 Order.attack) (readings ∷ []) []
      network fresh-CanJoin s₂-Timely (omega arith) refl refl platform-AllAnswered (omega arith)
      refl

first_valid :
    (byzantine_msg_from_buf (take bufsize (message_buf (first Order.attack)))
      ≡ some (first Order.attack))
    × (valid_message
          (fresh 1).general
          (first Order.attack)
          (record { hostname = b'a' ∷ []; port = 5000 })
        ≡ ok true)
unfolding byzantine_msg_from_buf message_buf byzantine_agreement.Wire.write_words
    byzantine_agreement.Wire.read_words byzantine_agreement.Wire.word_at
    byzantine_agreement.Wire.word_bytes byzantine_agreement.Msg.order_of_code
    byzantine_agreement.Msg.order_code valid_message
    byzantine_agreement.Generals.Validation.scan_ids byzantine_agreement.OrderedSet.insert
first_valid = (refl, refl)

decide_from_start_example :
    decide platform
      (fresh 1)
      (received (datagram b'a' (first Order.attack)) readings ∷ timed_out readings ∷ [])
    ≡ ok (some Order.attack)
unfolding client_of_sockaddr remote_address byzantine_agreement.Udp.hostname
    byzantine_agreement.Udp.create_socket
decide_from_start_example =
    decide_from_start platform (fresh 1) (datagram b'a' (first Order.attack)) readings
      (client_on b'a') (record { hostname = b'a' ∷ []; port = 5000 }) (first Order.attack)
      (readings ∷ []) [] refl platform-AllAnswered (fresh-CanJoin 1) (omega arith) refl refl refl
      refl refl first_valid.0 first_valid.1 (inl refl) refl refl
