-- ===== src/Generals/Lieutenant/Changes.antt =====
-- The ways in which the callbacks of `Lieutenant::Decide` (src/general.cc) end without an exception:
-- one relation for all of them.
use byzantine_agreement.Common.{
  ℕ, ◌-◌, ◌/◌, ◌≡◌, refl, sym, ap, ◌∙◌, inl, inr, arith, Bool, true, false, List, ◌∷◌, Option, none,
  some, ltb, ok, >>=-eq-ok, Bool-cases, ok-injective, subst,
}
use byzantine_agreement.Msg.{Message}
use byzantine_agreement.Wire.{byzantine_msg_from_buf, ack_buf}
use byzantine_agreement.Net.{Address}
use byzantine_agreement.Udp.{Client, ServerAction, send, remote_address}
use byzantine_agreement.Generals.Base.{
  Platform, log_message, first_round, last_round, round_timeout,
}
use byzantine_agreement.Generals.Validation.{valid_message}
use byzantine_agreement.Generals.Lieutenant.Rounds.{clear_senders_inv}
use byzantine_agreement.Generals.Lieutenant.{
  Lieutenant, Readings, clear_senders, init_new_round, without_senders, move_to_new_round_or_stop,
  handle_round_timeout, continue_unless_timeout, take_message, finish, accept, receive_decoded,
  on_receive, send_ack_for_round,
}

-- Nothing happens; or the last round ends, after which the server stops or goes on; or a new round
-- begins.
pub data Change (p : Platform) (l : Lieutenant) (x : Readings) (r : Lieutenant × ServerAction)
    : Type 0 where
  stays : r ≡ (l, ServerAction.continue) → Change p l x r
  ends :
      (a : ServerAction) → last_round l.general ≡ true → r ≡ (without_senders l, a) → Change p l x r
  renews :
      (l' : Lieutenant)
      → last_round l.general ≡ false
      → init_new_round p l x ≡ ok l'
      → r ≡ (l', ServerAction.continue)
      → Change p l x r

module _ (p : Platform) (l : Lieutenant) (x : Readings) {r : Lieutenant × ServerAction} where
  pub move_to_new_round_or_stop-Change : move_to_new_round_or_stop p l x ≡ ok r → Change p l x r
  unfolding move_to_new_round_or_stop
  move_to_new_round_or_stop-Change e = elim (Bool-cases (last_round l.general)) [
    | inl h ↦
        let (l₁, e₁, e₂) =
          >>=-eq-ok (clear_senders p l) _ (rw (h, move_to_new_round_or_stop) at e) in
        let (joined, same) = clear_senders_inv p l l₁ e₁ in
        ends ServerAction.stop h
          (sym (ok-injective e₂) ∙ ap (λ k. (k, ServerAction.stop)) (sym same))
    | inr h ↦
        let (l', e₁, e₂) =
          >>=-eq-ok (init_new_round p l x) _ (rw (h, move_to_new_round_or_stop) at e) in
        renews l' h e₁ (sym (ok-injective e₂))
  ]

  pub handle_round_timeout-Change : handle_round_timeout p l x ≡ ok r → Change p l x r
  unfolding handle_round_timeout
  handle_round_timeout-Change e = elim (Bool-cases (first_round l.general)) [
    | inl h ↦ stays (sym (ok-injective (rw (h, handle_round_timeout) at e)))
    | inr h ↦ move_to_new_round_or_stop-Change (rw (h, handle_round_timeout) at e)
  ]

module _ (p : Platform) (l : Lieutenant) (x : Readings) where
  pub go_on :
      {r r' : Lieutenant × ServerAction}
      → Change p l x r
      → r' ≡ (r.0, ServerAction.continue)
      → Change p l x r'
  go_on (stays e) e' = stays (ground arith)
  go_on (ends a h e) e' = ends ServerAction.continue h (ground arith)
  go_on (renews l' h e₁ e) e' = renews l' h e₁ (ground arith)

  pub continue_unless_timeout-Change :
      {r : Lieutenant × ServerAction} → continue_unless_timeout p l x ≡ ok r → Change p l x r
  unfolding continue_unless_timeout
  continue_unless_timeout-Change {r} e =
      elim (Bool-cases (ltb round_timeout ((x.now - l.round_start_ts) / 1000))) [
        | inl h ↦
            let (s, e₁, e₂) =
              >>=-eq-ok (handle_round_timeout p l x) _ (rw (h, continue_unless_timeout) at e) in
            go_on (handle_round_timeout-Change p l x e₁) (sym (ok-injective e₂))
        | inr h ↦ stays (sym (ok-injective (rw (h, continue_unless_timeout) at e)))
      ]

-- The lieutenant once it has acknowledged a message.
unfoldable pub acked : Lieutenant → Client → Lieutenant
acked l client = record l { acks = record { to = client.remote; bytes = ack_buf l.round } ∷ l.acks }

-- A message was taken, and how the callback ended after that.
pub record Accepted (p : Platform) (l : Lieutenant) (client : Client) (x : Readings) (msg : Message)
    (r : Lieutenant × ServerAction) : Type 0 where
  pub logged : log_message p msg ≡ ok tt
  pub was_acked : x.ack_sent ≡ true
  pub finished : finish p x (take_message (acked l client) msg) ≡ ok r
  pub changed : Change p (take_message (acked l client) msg).0 x r

finish-Change :
    (p : Platform) (x : Readings) (s : Lieutenant × Bool) {r : Lieutenant × ServerAction}
    → finish p x s ≡ ok r
    → Change p s.0 x r
unfolding finish
finish-Change p x (l, true) e = move_to_new_round_or_stop-Change p l x e
finish-Change p x (l, false) e = continue_unless_timeout-Change p l x e

send_ack_for_round-acked :
    (l : Lieutenant) (client : Client) (sent : Bool) {l' : Lieutenant}
    → send_ack_for_round l client sent ≡ ok l'
    → (sent ≡ true) × (l' ≡ acked l client)
unfolding send_ack_for_round send acked
send_ack_for_round-acked l client true e = (refl, sym (ok-injective e))
send_ack_for_round-acked l client false e = cc

pub accept-Accepted :
    (p : Platform) (l : Lieutenant) (client : Client) (msg : Message) (x : Readings)
    {r : Lieutenant × ServerAction}
    → accept p l client msg x ≡ ok r
    → Accepted p l client x msg r
unfolding accept
accept-Accepted p l client msg x {r} e =
    let (u, e₁, e₂) = >>=-eq-ok (log_message p msg) _ e in
    let (l₁, e₃, e₄) = >>=-eq-ok (send_ack_for_round l client x.ack_sent) _ e₂ in
    let (sent, same) = send_ack_for_round-acked l client x.ack_sent e₃ in
    record {
      logged = e₁;
      was_acked = sent;
      finished = subst (λ m. finish p x (take_message m msg) ≡ ok r) same e₄;
      changed =
          subst (λ m. Change p (take_message m msg).0 x r) same
            (finish-Change p x (take_message l₁ msg) e₄);
    }

-- A datagram is passed over, unless it holds a valid message.
pub data Handled (p : Platform) (l : Lieutenant) (client : Client) (buf : List ℕ) (x : Readings)
    (r : Lieutenant × ServerAction) : Type 0 where
  passed : continue_unless_timeout p l x ≡ ok r → Handled p l client buf x r
  taken :
      (msg : Message) (from : Address)
      → byzantine_msg_from_buf buf ≡ some msg
      → remote_address p.kernel client ≡ ok from
      → valid_message l.general msg from ≡ ok true
      → Accepted p l client x msg r
      → Handled p l client buf x r

receive_decoded-Handled :
    (p : Platform) (l : Lieutenant) (client : Client) (from : Address) (buf : List ℕ) (x : Readings)
    (o : Option Message) {r : Lieutenant × ServerAction}
    → byzantine_msg_from_buf buf ≡ o
    → remote_address p.kernel client ≡ ok from
    → receive_decoded p l client from x o ≡ ok r
    → Handled p l client buf x r
unfolding receive_decoded
receive_decoded-Handled p l client from buf x none q f e = passed e
receive_decoded-Handled p l client from buf x (some msg) q f e =
    let (valid, e₁, e₂) = >>=-eq-ok (valid_message l.general msg from) _ e in
    elim (Bool-cases valid) [
      | inl y ↦ taken msg from q f (rw y at e₁) (accept-Accepted p l client msg x (rw y at e₂))
      | inr n ↦ passed (rw n at e₂)
    ]

pub on_receive-Handled :
    (p : Platform) (l : Lieutenant) (client : Client) (buf : List ℕ) (x : Readings)
    {r : Lieutenant × ServerAction}
    → on_receive p l client buf x ≡ ok r
    → Handled p l client buf x r
unfolding on_receive
on_receive-Handled p l client buf x {r} e =
    let (from, e₁, e₂) = >>=-eq-ok (remote_address p.kernel client) _ e in
    receive_decoded-Handled p l client from buf x (byzantine_msg_from_buf buf) refl e₁ e₂
