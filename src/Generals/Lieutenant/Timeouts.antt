-- ===== src/Generals/Lieutenant/Timeouts.antt =====
-- `HandleRoundTimeout` of src/general.cc, as the socket timeouts call it round after round.
use byzantine_agreement.Common.{
  ℕ, zero, suc, ◌+◌, ◌-◌, ◌%◌, ◌^◌, ◌<◌, ◌≤◌, ◌≡◌, ◌≢◌, refl, inl, inr, arith, true, false, List,
  [], ◌∷◌, ◌++◌, map, All, length, contains, some, ok, Bool-cases, ℕ_discrete, ap, ◌∙◌, subst,
}
use byzantine_agreement.Msg.{Message}
use byzantine_agreement.Udp.{
  Errno, is_errno_timeout, continue, stop, Arrival, refused, stopped, serve, after_action, listen,
}
use byzantine_agreement.Generals.Base.{
  Platform, should_send_msg, log_message, first_round, last_round, increment_round,
}
use byzantine_agreement.Generals.Forward.{
  Sending, push_to, forward_to, forward, relayed, forward_all,
}
use byzantine_agreement.Generals.Lieutenant.{
  Lieutenant, Readings, start_round, clear_senders, without_senders, init_new_round,
  move_to_new_round_or_stop, handle_round_timeout, on_receive, decide_order, decide,
}
use byzantine_agreement.Generals.Lieutenant.Rounds.{
  forward-Kept, init_new_round-Renewed, init_new_round-ok, Renewed,
}
use byzantine_agreement.Generals.Senders.Joined.{AllAnswered}
use byzantine_agreement.Generals.Lieutenant.Joining.{
  CanJoin, join_senders-CanJoin, init_new_round-CanJoin,
}
use byzantine_agreement.Generals.Lieutenant.Relay.{AreCurrent}
use byzantine_agreement.Generals.Lieutenant.Outcome.{stopped-decide}

-- With the log off, no message is refused but one of another round.
forward_to_total :
    (p : Platform) (msg : Message) (pid : ℕ) (st : Sending)
    → p.verbose ≡ false
    → (st' : Sending) × (forward_to p msg pid st ≡ ok st')
unfolding forward_to log_message
forward_to_total p msg pid (g, ts) v = elim (Bool-cases (contains msg.ids pid)) [
  | inl h ↦ ((g, ts), rw h)
  | inr h ↦ elim (Bool-cases (should_send_msg p g).0) [
    | inl s ↦ (((should_send_msg p g).1, push_to pid msg ts), ground arith)
    | inr s ↦ (((should_send_msg p g).1, ts), ground arith)
  ]
]

forward_total :
    (p : Platform) (msg : Message) (count pid : ℕ) (st : Sending)
    → p.verbose ≡ false
    → (st' : Sending) × (forward p msg count pid st ≡ ok st')
unfolding forward
forward_total p msg zero pid st v = (st, refl)
forward_total p msg (suc count) pid st v =
    let (st₁, e) = forward_to_total p msg pid st v in
    let (st', e') = forward_total p msg count (pid + 1) st₁ v in (st', rw e e')

pub forward_all_total :
    (p : Platform) (msgs : List Message) (st : Sending)
    → p.verbose ≡ false
    → AreCurrent st.0 msgs
    → (st' : Sending) × (forward_all p msgs st ≡ ok st')
unfolding forward_all
forward_all_total p [] st v c = (st, refl)
forward_all_total p (m ∷ ms) st v c =
    let (st₁, e) = forward_total p (relayed st.0 m) (length st.0.processes) 0 st v in
    let k = forward-Kept p (relayed st.0 m) (length st.0.processes) 0 st st₁ e in
    let (st', e') = forward_all_total p ms st₁ v (rw k.round c.1) in
    (st', ground (arith, c.0, e, e'))

-- Between the first and the last round, with nothing but messages of the round to forward, and with
-- a client for every thread.
pub record IsReady (l : Lieutenant) : Type 0 where
  pub few : l.faulty + 1 < 2 ^ 32 - 1
  pub started_rounds : 0 < l.round
  pub within : l.round ≤ l.faulty + 1
  pub current : All (λ m. m.round ≡ l.round) l.msgs_this_round
  pub joinable : CanJoin l

pub All-eq :
    {r r' : ℕ} (ms : List Message) → r ≡ r' → All (λ m. m.round ≡ r) ms → All (λ m. m.round ≡ r') ms
All-eq ms e h = subst (λ k. All (λ m. m.round ≡ k) ms) e h

init_new_round_total :
    (p : Platform) (l : Lieutenant) (x : Readings)
    → p.verbose ≡ false
    → AllAnswered p
    → IsReady l
    → (l' : Lieutenant) × (init_new_round p l x ≡ ok l')
unfolding increment_round
init_new_round_total p l x v t h =
    let before : l.round ≡ ((l.round + 1) % 2 ^ 32 + 2 ^ 32 - 1) % 2 ^ 32 =
      omega (arith, h.few, h.within) in
    let (st, e) =
      forward_all_total p l.msgs_this_round (increment_round l.general, []) v
        (All-eq l.msgs_this_round before h.current) in
    (
      start_round (without_senders l) x st,
      init_new_round-ok p l x st (join_senders-CanJoin p l t h.joinable) e,
    )

-- After a timeout in a round before the last, the lieutenant is ready in the next round.
Renewed-IsReady :
    (l l' : Lieutenant) (x : Readings)
    → Renewed l l' x
    → CanJoin l'
    → IsReady l
    → last_round l.general ≡ false
    → IsReady l'
      × (l'.round ≡ l.round + 1)
      × (l'.faulty ≡ l.faulty)
      × (l'.orders_seen ≡ l.orders_seen)
unfolding last_round increment_round
Renewed-IsReady l l' x n j h last =
    let next : l'.round ≡ l.round + 1 = omega (arith, n.general.round, h.few, h.within) in
    (
      record {
        few = omega (arith, n.general.faulty, h.few);
        started_rounds = omega (arith, next);
        within = ground (arith, n.general.faulty, next, h.within, h.few);
        current = rw n.no_msgs tt;
        joinable = j;
      },
      next,
      n.general.faulty,
      n.orders,
    )

-- A `recvfrom` that timed out, with what its callback reads.
abbrev pub timed_out : Readings → Arrival Readings
timed_out x = refused Errno.eagain x

serve-last :
    (p : Platform) (l : Lieutenant) (x : Readings)
    → AllAnswered p
    → IsReady l
    → l.round ≡ l.faulty + 1
    → serve (on_receive p) (handle_round_timeout p) l (timed_out x) ≡ ok (without_senders l, stop)
unfolding serve is_errno_timeout handle_round_timeout move_to_new_round_or_stop clear_senders
    first_round last_round
serve-last p l x t h e =
    let first : first_round l.general ≡ false = ground (arith, h.started_rounds) in
    let last : last_round l.general ≡ true = ground (arith, h.few, e) in
    rw (first, last, join_senders-CanJoin p l t h.joinable) refl

serve-next :
    (p : Platform) (l : Lieutenant) (x : Readings) {l' : Lieutenant}
    → IsReady l
    → last_round l.general ≡ false
    → init_new_round p l x ≡ ok l'
    → serve (on_receive p) (handle_round_timeout p) l (timed_out x) ≡ ok (l', continue)
unfolding serve is_errno_timeout handle_round_timeout move_to_new_round_or_stop first_round
serve-next p l x h last e = ground (arith, h.started_rounds)

kept : (l : Lieutenant) → (without_senders l).orders_seen ≡ l.orders_seen
unfolding without_senders
kept l = refl

before_last : (l : Lieutenant) → l.round ≢ l.faulty + 1 → IsReady l → last_round l.general ≡ false
unfolding last_round
before_last l e h = ground (arith, h.few)

same_orders :
    (l' l : Lieutenant) → l'.orders_seen ≡ l.orders_seen → decide_order l' ≡ decide_order l
unfolding decide_order
same_orders l' l e = rw e

listen_timeouts :
    (p : Platform) (l : Lieutenant) (xs : List Readings) (rest : List (Arrival Readings))
    → p.verbose ≡ false
    → AllAnswered p
    → IsReady l
    → length xs + l.round ≡ l.faulty + 2
    → (l' : Lieutenant) × (listen
          (on_receive p)
          (handle_round_timeout p)
          l
          (map timed_out xs ++ rest)
        ≡ ok (stopped l'))
      × (l'.orders_seen ≡ l.orders_seen)
unfolding listen after_action
listen_timeouts p l [] rest v t h n = absurd (omega (arith, h.within))
listen_timeouts p l (x ∷ xs) rest v t h n = elim (ℕ_discrete l.round (l.faulty + 1)) [
  | yes e ↦ (without_senders l, rw (serve-last p l x t h e), kept l)
  | no e ↦
      let last : last_round l.general ≡ false = before_last l e h in
      let (l₁, e₁) = init_new_round_total p l x v t h in
      let (h₁, next, same, orders) =
        Renewed-IsReady l l₁ x (init_new_round-Renewed p l l₁ x e₁)
          (init_new_round-CanJoin p l l₁ x e₁ h.joinable) h last in
      let (l', e', o') = listen_timeouts p l₁ xs rest v t h₁ (omega arith) in
      (l', rw (serve-next p l x h last e₁) e', o' ∙ orders)
]

-- A lieutenant that has left the first round, is at most in round faulty + 1 (below 2 ^ 32 - 1),
-- holds messages of its round only and does not log, and whose threads all have a client, send
-- without an error and are met by a timeout or an acknowledgement each time, decides once one
-- socket timeout for each remaining round has come, whatever comes after them, and it decides by
-- the orders that it had seen before.
pub decide_timeouts :
    (p : Platform) (l : Lieutenant) (xs : List Readings) (rest : List (Arrival Readings))
    → p.verbose ≡ false
    → AllAnswered p
    → IsReady l
    → length xs + l.round ≡ l.faulty + 2
    → decide p l (map timed_out xs ++ rest) ≡ ok (some (decide_order l))
decide_timeouts p l xs rest v t h n =
    let (l', e, o) = listen_timeouts p l xs rest v t h n in
    stopped-decide p l (map timed_out xs ++ rest) e ∙ ap (λ s. ok (some s)) (same_orders l' l o)
