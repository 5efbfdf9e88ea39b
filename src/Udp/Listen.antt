-- ===== src/Udp/Listen.antt =====
-- Rules for `Server::Listen` of src/udp_conn.cc, whatever the callbacks are.
use byzantine_agreement.Common.{
  ℕ, All-any, ◌≡◌, ◌≢◌, arith, List, [], ◌∷◌, ◌++◌, All, refl, Result, ok, >>=-eq-ok, inl, inr,
  ok-injective, subst, take, Bool-cases,
}
use byzantine_agreement.Udp.{
  Client, Datagram, Errno, client_of_sockaddr, is_errno_timeout, bufsize, received, refused,
  ServerAction, continue, stop, Arrival, Listening, stopped, running, serve, after_action, listen,
}

-- The callbacks' state when listening ends.
abbrev pub state {ℓ} : {S : Type ℓ} → Listening S → S
state (stopped s) = s
state (running s) = s

module _ {ℓ κ} {S : Type ℓ} {X : Type κ} (rcv : S → Client → List ℕ → X → Result (S × ServerAction))
    (timeout : S → X → Result (S × ServerAction)) where
  pub serve-received :
      (s : S) (d : Datagram) (x : X) {r : S × ServerAction}
      → serve rcv timeout s (received d x) ≡ ok r
      → (client : Client) × (client_of_sockaddr d.calls d.from ≡ ok client)
        × (rcv s client (take bufsize d.bytes) x ≡ ok r)
  unfolding serve
  serve-received s d x e = >>=-eq-ok (client_of_sockaddr d.calls d.from) _ e

  pub serve-refused :
      (s : S) (e : Errno) (x : X) {r : S × ServerAction}
      → serve rcv timeout s (refused e x) ≡ ok r
      → timeout s x ≡ ok r
  unfolding serve
  serve-refused s e x q = elim (Bool-cases (is_errno_timeout e)) [
    | inl h ↦ rw (h, serve) at q
    | inr h ↦ cc (rw (h, serve) at q)
  ]

  -- What both callbacks keep, given what arrives, listening keeps.
  pub listen_keeps {μ ν} :
      (P : S → Type μ) (Q : Arrival X → Type ν)
      → ((s : S) (a : Arrival X) (r : S × ServerAction)
          → Q a
          → serve rcv timeout s a ≡ ok r
          → P s
          → P r.0)
      → (s : S) (arrivals : List (Arrival X)) {out : Listening S} → All Q arrivals
      → listen rcv timeout s arrivals ≡ ok out
      → P s
      → P (state out)
  unfolding listen after_action
  listen_keeps P Q keep s [] c e h = subst (λ o. P (state o)) (ok-injective e) h
  listen_keeps P Q keep s (a ∷ rest) {out} c e h =
      let (r, e₁, e₂) = >>=-eq-ok (serve rcv timeout s a) _ e in
      go r.0 r.1 e₂ (keep s a r c.0 e₁ h)
        (λ o e' h'. listen_keeps P Q keep r.0 rest {out = o} c.1 e' h')
    where
      go :
          (s' : S) (b : ServerAction)
          → after_action rcv timeout (s', b) (λ t. listen rcv timeout t rest) ≡ ok out
          → P s'
          → ((o : Listening S) → listen rcv timeout s' rest ≡ ok o → P s' → P (state o))
          → P (state out)
      go s' continue e' h' ih = ih out e' h'
      go s' stop e' h' ih = subst (λ o. P (state o)) (ok-injective e') h'

  -- What both callbacks keep whatever arrives, listening keeps.
  pub listen_inv {μ} :
      (P : S → Type μ)
      → ((s : S) (a : Arrival X) (r : S × ServerAction)
          → serve rcv timeout s a ≡ ok r
          → P s
          → P r.0)
      → (s : S) (arrivals : List (Arrival X)) {out : Listening S}
      → listen rcv timeout s arrivals ≡ ok out
      → P s
      → P (state out)
  listen_inv P keep s arrivals e h =
      listen_keeps P (λ _. Unit {0}) (λ t a r _ q v. keep t a r q v) s arrivals (All-any arrivals) e
        h

  -- While every arrival is answered with `continue`, the server does not stop.
  pub listen_goes_on {μ ν} :
      (P : S → Type μ) (Q : Arrival X → Type ν)
      → ((s : S) (a : Arrival X) (r : S × ServerAction)
          → P s
          → Q a
          → serve rcv timeout s a ≡ ok r
          → P r.0 × (r.1 ≡ continue))
      → (s : S) (arrivals : List (Arrival X)) (s' : S) → P s
      → All Q arrivals
      → listen rcv timeout s arrivals ≢ ok (stopped s')
  unfolding listen after_action
  listen_goes_on P Q on s [] s' h q e = cc
  listen_goes_on P Q on s (a ∷ rest) s' h q e =
      let (r, e₁, e₂) = >>=-eq-ok (serve rcv timeout s a) _ e in
      let (h', go) = on s a r h q.0 e₁ in
      listen_goes_on P Q on r.0 rest s' h' q.1 (ground (arith, e₂, go))

  -- What both callbacks keep, and what they give when they stop the server, holds once it stopped.
  pub listen_stopped {μ ν ρ} :
      (P : S → Type μ) (Q : S → Type ν) (R : Arrival X → Type ρ)
      → ((s : S) (a : Arrival X) (r : S × ServerAction)
          → P s
          → R a
          → serve rcv timeout s a ≡ ok r
          → P r.0 × ((r.1 ≡ stop) → Q r.0))
      → (s : S) (arrivals : List (Arrival X)) (s' : S) → P s
      → All R arrivals
      → listen rcv timeout s arrivals ≡ ok (stopped s')
      → Q s'
  unfolding listen after_action
  listen_stopped P Q R step s [] s' h q e = cc
  listen_stopped P Q R step s (a ∷ rest) s' h q e =
      let (r, e₁, e₂) = >>=-eq-ok (serve rcv timeout s a) _ e in
      let (h', done) = step s a r h q.0 e₁ in
      go r.0 r.1 e₂ done (λ e'. listen_stopped P Q R step r.0 rest s' h' q.1 e')
    where
      go :
          (t : S) (b : ServerAction)
          → after_action rcv timeout (t, b) (λ u. listen rcv timeout u rest) ≡ ok (stopped s')
          → ((b ≡ stop) → Q t)
          → (listen rcv timeout t rest ≡ ok (stopped s') → Q s')
          → Q s'
      go t continue e' done ih = ih e'
      go t stop e' done ih = let same : t ≡ s' = cc in subst Q same (done refl)

  -- While the server runs, what arrives next is all that matters.
  pub listen-append :
      (s : S) (arrivals more : List (Arrival X)) {t : S}
      → listen rcv timeout s arrivals ≡ ok (running t)
      → listen rcv timeout s (arrivals ++ more) ≡ listen rcv timeout t more
  unfolding listen after_action
  listen-append s [] more {t} e = let same : s ≡ t = cc in rw same
  listen-append s (a ∷ rest) more {t} e =
      let (r, e₁, e₂) = >>=-eq-ok (serve rcv timeout s a) _ e in
      rw e₁ (go r.0 r.1 e₂ (listen-append r.0 rest more {t = t}))
    where
      go :
          (s' : S) (b : ServerAction)
          → after_action rcv timeout (s', b) (λ u. listen rcv timeout u rest) ≡ ok (running t)
          → (listen rcv timeout s' rest ≡ ok (running t)
              → listen rcv timeout s' (rest ++ more) ≡ listen rcv timeout t more)
          → after_action rcv timeout (s', b) (λ u. listen rcv timeout u (rest ++ more))
            ≡ listen rcv timeout t more
      go s' continue e' ih = ih e'
      go s' stop e' ih = cc
