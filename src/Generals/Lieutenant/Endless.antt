-- ===== src/Generals/Lieutenant/Endless.antt =====
-- `ContinueUnlessTimeout` of src/general.cc under a stream of datagrams.
use byzantine_agreement.Common.{
  ℕ, zero, suc, ◌<◌, ◌≤◌, ◌≡◌, ◌≢◌, arith, List, [], ◌∷◌, All, none, some, length, take, ok,
  >>=-eq-ok,
}
use byzantine_agreement.Msg.{Order}
use byzantine_agreement.Wire.{byzantine_msg_from_buf}
use byzantine_agreement.Udp.{
  Client, ServerAction, continue, Arrival, received, refused, serve, remote_address, bufsize,
}
use byzantine_agreement.Udp.Listen.{listen_goes_on, serve-received}
use byzantine_agreement.Generals.Base.{Platform}
use byzantine_agreement.Generals.Lieutenant.{
  Lieutenant, Readings, handle_round_timeout, continue_unless_timeout, receive_decoded, on_receive,
  decide,
}
use byzantine_agreement.Generals.Lieutenant.Outcome.{decide-stopped}

-- A datagram too short for a message.
abbrev pub IsJunk : Arrival Readings → Type 0
IsJunk (received d x) = length d.bytes < 16
IsJunk (refused e x) = ⊥

continue_unless_timeout-continue :
    (p : Platform) (l : Lieutenant) (x : Readings) {r : Lieutenant × ServerAction}
    → continue_unless_timeout p l x ≡ ok r
    → r.1 ≡ continue
unfolding continue_unless_timeout
continue_unless_timeout-continue p l x e = ground arith

length-take_le : (n : ℕ) (xs : List ℕ) → length (take n xs) ≤ length xs
length-take_le zero xs = omega arith
length-take_le (suc n) [] = omega arith
length-take_le (suc n) (x ∷ xs) = omega (arith, length-take_le n xs)

on_receive-junk :
    (p : Platform) (l : Lieutenant) (client : Client) (buf : List ℕ) (x : Readings)
    {r : Lieutenant × ServerAction}
    → length buf < 16
    → on_receive p l client buf x ≡ ok r
    → r.1 ≡ continue
unfolding on_receive receive_decoded byzantine_msg_from_buf
on_receive-junk p l client buf x short e =
    let (from, e₁, e₂) = >>=-eq-ok (remote_address p.kernel client) _ e in
    let none_read : byzantine_msg_from_buf buf ≡ none = ground arith in
    continue_unless_timeout-continue p l x (rw none_read at e₂)

serve-junk :
    (p : Platform) (l : Lieutenant) (a : Arrival Readings) (r : Lieutenant × ServerAction)
    → Unit {0}
    → IsJunk a
    → serve (on_receive p) (handle_round_timeout p) l a ≡ ok r
    → Unit {0} × (r.1 ≡ continue)
serve-junk p l (received d x) r _ q e =
    let (client, e₁, e₂) = serve-received (on_receive p) (handle_round_timeout p) l d x e in
    (
      tt,
      on_receive-junk p l client (take bufsize d.bytes) x
          (omega (arith, length-take_le bufsize d.bytes)) e₂,
    )
serve-junk p l (refused e' x) r _ q e = absurd q

-- While nothing but datagrams of less than 16 bytes arrives, and no socket timeout, a lieutenant
-- does not decide, in whatever round it is and whatever the clock reads.
pub decide_never :
    (p : Platform) (l : Lieutenant) (arrivals : List (Arrival Readings)) (o : Order)
    → All IsJunk arrivals
    → decide p l arrivals ≢ ok (some o)
decide_never p l arrivals o q e =
    let (l', e₁, _) = decide-stopped p l arrivals o e in
    listen_goes_on (on_receive p) (handle_round_timeout p) (λ _. Unit {0}) IsJunk (serve-junk p) l
      arrivals l' tt q e₁
