-- ===== src/Generals/Lieutenant/Relay.antt =====
-- What a lieutenant sends at the start of a round: `InitNewRound` of src/general.cc.
use byzantine_agreement.Common.{
  ℕ, zero, suc, ◌+◌, ◌-◌, ◌%◌, ◌^◌, ◌≡◌, refl, ◌∙◌, arith, true, false, not, ◌&&◌, List, [], ◌∷◌,
  ◌++◌, All, length, contains, ltb, leb, ◌==◌, if◌then◌else◌, ok, subst,
}
use mathlib.Core.List.{append-nil, append_assoc}
use byzantine_agreement.Msg.{Message}
use byzantine_agreement.Behavior.{silent, partial_send}
use byzantine_agreement.Generals.Base.{
  General, Platform, exhibits_behavior, should_send_msg, log_message, increment_round,
}
use byzantine_agreement.Generals.Forward.{
  Batch, Sending, push_to, forward_to, forward, relayed, forward_all,
}
use byzantine_agreement.Generals.Lieutenant.Rounds.{init_new_round_inv, init_new_round-ok}
use byzantine_agreement.Generals.Lieutenant.{
  Lieutenant, Readings, start_round, without_senders, init_new_round, join_senders,
}

-- The messages for one process.
abbrev pub batch_of : ℕ → List Batch → List Message
batch_of q [] = []
batch_of q (b ∷ rest) = if b.pid == q then b.msgs else batch_of q rest

-- What a process is to be sent: each message, with the sender's id at the end of its ids, unless
-- the process is among them.
abbrev pub share : General → ℕ → List Message → List Message
share g q [] = []
share g q (m ∷ ms) =
    if contains (m.ids ++ g.id ∷ []) q then share g q ms else relayed g m ∷ share g q ms

batch_of-push_to :
    (q pid : ℕ) (msg : Message) (ts : List Batch)
    → batch_of q (push_to pid msg ts)
      ≡ (if pid == q then batch_of q ts ++ msg ∷ [] else batch_of q ts)
unfolding push_to
batch_of-push_to q pid msg [] = refl
batch_of-push_to q pid msg (b ∷ rest) = ground (arith, batch_of-push_to q pid msg rest)

-- A general that sends every message, and logs none.
pub record IsOpen (p : Platform) (g : General) : Type 0 where
  pub not_silent : exhibits_behavior g silent ≡ false
  pub not_partial : exhibits_behavior g partial_send ≡ false
  pub not_verbose : p.verbose ≡ false

should_send_msg-open : (p : Platform) (g : General) → IsOpen p g → should_send_msg p g ≡ (true, g)
unfolding should_send_msg
should_send_msg-open p g h = ground arith

forward_to-open :
    (p : Platform) (msg : Message) (pid : ℕ) (g : General) (ts : List Batch)
    → IsOpen p g
    → forward_to p msg pid (g, ts)
      ≡ ok (g, (if contains msg.ids pid then ts else push_to pid msg ts))
unfolding forward_to log_message
forward_to-open p msg pid g ts h = ground (arith, should_send_msg-open p g h)

forward-open :
    (p : Platform) (msg : Message) (count pid : ℕ) (g : General) (ts : List Batch)
    → IsOpen p g
    → (ts' : List Batch) × (forward p msg count pid (g, ts) ≡ ok (g, ts'))
      × ((q : ℕ)
          → batch_of q ts' ≡ (
              if leb pid q && (ltb q (pid + count) && not (contains msg.ids q))
              then batch_of q ts ++ msg ∷ []
              else batch_of q ts))
unfolding forward
forward-open p msg zero pid g ts h = (ts, refl, λ q. ground arith)
forward-open p msg (suc count) pid g ts h =
    let ts₁ : List Batch = if contains msg.ids pid then ts else push_to pid msg ts in
    let (ts', e, b) = forward-open p msg count (pid + 1) g ts₁ h in
    (
      ts',
      rw (forward_to-open p msg pid g ts h) e,
      λ q. ground (arith, b q, batch_of-push_to q pid msg ts),
    )

-- All messages are of the round before.
abbrev pub AreCurrent : General → List Message → Type 0
AreCurrent g = All (λ m. m.round ≡ (g.round + 2 ^ 32 - 1) % 2 ^ 32)

-- The batch of one process, before and after a message.
share-step :
    (g : General) (q : ℕ) (m : Message) (ms : List Message) (ts ts₁ : List Batch)
    → batch_of q ts₁ ≡ (
        if leb 0 q && (ltb q (0 + length g.processes) && not (contains (relayed g m).ids q))
        then batch_of q ts ++ relayed g m ∷ []
        else batch_of q ts)
    → batch_of q ts₁ ++ (if ltb q (length g.processes) then share g q ms else [])
      ≡ batch_of q ts ++ (if ltb q (length g.processes) then share g q (m ∷ ms) else [])
unfolding relayed
share-step g q m ms ts ts₁ e =
    ground (arith, e, append_assoc (batch_of q ts) (relayed g m ∷ []) (share g q ms))

forward_all-open :
    (p : Platform) (msgs : List Message) (g : General) (ts : List Batch)
    → IsOpen p g
    → AreCurrent g msgs
    → (ts' : List Batch) × (forward_all p msgs (g, ts) ≡ ok (g, ts'))
      × ((q : ℕ)
          → batch_of q ts'
            ≡ batch_of q ts ++ (if ltb q (length g.processes) then share g q msgs else []))
unfolding forward_all
forward_all-open p [] g ts h c = (ts, refl, λ q. ground (arith, append-nil (batch_of q ts)))
forward_all-open p (m ∷ ms) g ts h c =
    let (ts₁, e₁, b₁) = forward-open p (relayed g m) (length g.processes) 0 g ts h in
    let (ts', e, b) = forward_all-open p ms g ts₁ h c.1 in
    (ts', ground (arith, c.0, e₁, e), λ q. b q ∙ share-step g q m ms ts ts₁ (b₁ q))

-- A lieutenant that is neither silent nor dropping messages, that does not log, whose messages are
-- all of the round that ends, and whose threads of that round can be joined without one having
-- ended the process, starts the new round without an exception. For each process of the list it
-- then sends those messages that do not name the process yet, nor the lieutenant itself, in their
-- order, each with the new round and with the lieutenant at the end of its ids; and for a number
-- that is no process it sends nothing.
pub init_new_round-share :
    (p : Platform) (l : Lieutenant) (x : Readings) (q : ℕ)
    → join_senders p l ≡ ok tt
    → IsOpen p l.general
    → AreCurrent (increment_round l.general) l.msgs_this_round
    → (l' : Lieutenant) × (init_new_round p l x ≡ ok l')
      × (batch_of q l'.sender_threads ≡ (
          if ltb q (length l.processes)
          then share (increment_round l.general) q l.msgs_this_round
          else []))
unfolding init_new_round start_round without_senders increment_round exhibits_behavior
init_new_round-share p l x q j h c =
    let g = increment_round l.general in
    let (ts, e, b) =
      forward_all-open p l.msgs_this_round g []
        (record {
          not_silent = h.not_silent;
          not_partial = h.not_partial;
          not_verbose = h.not_verbose;
        })
        c in
    (start_round (without_senders l) x (g, ts), init_new_round-ok p l x (g, ts) j e, b q)

-- A silent lieutenant starts no sender.
silent-forward_to :
    (p : Platform) (msg : Message) (pid : ℕ) (g : General) (ts : List Batch)
    → exhibits_behavior g silent ≡ true
    → forward_to p msg pid (g, ts) ≡ ok (g, ts)
unfolding forward_to should_send_msg
silent-forward_to p msg pid g ts h = ground arith

silent-forward :
    (p : Platform) (msg : Message) (count pid : ℕ) (g : General) (ts : List Batch)
    → exhibits_behavior g silent ≡ true
    → forward p msg count pid (g, ts) ≡ ok (g, ts)
unfolding forward
silent-forward p msg zero pid g ts h = refl
silent-forward p msg (suc count) pid g ts h =
    rw (silent-forward_to p msg pid g ts h) (silent-forward p msg count (pid + 1) g ts h)

silent-forward_all :
    (p : Platform) (msgs : List Message) (g : General) (ts : List Batch) (st : Sending)
    → exhibits_behavior g silent ≡ true
    → forward_all p msgs (g, ts) ≡ ok st
    → st.1 ≡ ts
unfolding forward_all
silent-forward_all p [] g ts st h e = ground arith
silent-forward_all p (m ∷ ms) g ts st h e =
    silent-forward_all p ms g ts st h
      (ground (arith, e, silent-forward p (relayed g m) (length g.processes) 0 g ts h))

-- When a silent lieutenant starts a new round without an exception, no sender runs and none was
-- started, whatever messages it has.
pub init_new_round-silent :
    (p : Platform) (l l' : Lieutenant) (x : Readings)
    → exhibits_behavior l.general silent ≡ true
    → init_new_round p l x ≡ ok l'
    → (l'.sender_threads ≡ []) × (l'.started ≡ l.started)
unfolding init_new_round start_round without_senders increment_round exhibits_behavior
init_new_round-silent p l l' x h e =
    let (st, e₁, e₂) = init_new_round_inv p l l' x e in
    let nothing : st.1 ≡ [] =
      silent-forward_all p l.msgs_this_round (increment_round l.general) [] st h e₁ in
    subst (λ m. (m.sender_threads ≡ []) × (m.started ≡ l.started)) e₂ (nothing, rw nothing)
