-- ===== src/Generals/Forward/Content.antt =====
-- What the batches hold that `InitNewRound` of src/general.cc fills: a property of every message
-- that is forwarded.
use byzantine_agreement.Common.{
  ℕ, zero, suc, ◌+◌, ◌≡◌, sym, ◌∙◌, arith, List, [], ◌∷◌, ◌++◌, All, All-append, ok, >>=-eq-ok,
  ok-injective, subst, length,
}
use byzantine_agreement.Msg.{Message}
use byzantine_agreement.Generals.Base.{Platform}
use byzantine_agreement.Generals.Forward.{
  Batch, Sending, push_to, forward_to, forward, relayed, forward_all,
}
use byzantine_agreement.Generals.Lieutenant.Rounds.{forward-Kept, forward_all_inv}

-- The message with a round and an id at the end.
abbrev pub extended : ℕ → ℕ → Message → Message
extended r k m = record m { round = r; ids = m.ids ++ k ∷ [] }

abbrev pub AllSent {κ} : (Message → Type κ) → List Batch → Type κ
AllSent P = All (λ (b : Batch). All P b.msgs)

module _ {κ} (P : Message → Type κ) where
  push_to-AllSent :
      (pid : ℕ) (m : Message) (bs : List Batch) → P m → AllSent P bs → AllSent P (push_to pid m bs)
  unfolding push_to
  push_to-AllSent pid m [] c h = ((c, tt), tt)
  push_to-AllSent pid m (b ∷ bs) c h =
      ground (arith, All-append P b.msgs (m ∷ []) h.0 (c, tt), push_to-AllSent pid m bs c h.1)

  forward_to-AllSent :
      (p : Platform) (m : Message) (pid : ℕ) (st st' : Sending)
      → P m
      → AllSent P st.1
      → forward_to p m pid st ≡ ok st'
      → AllSent P st'.1
  unfolding forward_to
  forward_to-AllSent p m pid st st' c h e = ground (arith, push_to-AllSent pid m st.1 c h)

  forward-AllSent :
      (p : Platform) (m : Message) (count pid : ℕ) (st st' : Sending)
      → P m
      → AllSent P st.1
      → forward p m count pid st ≡ ok st'
      → AllSent P st'.1
  unfolding forward
  forward-AllSent p m zero pid st st' c h e =
      subst (λ (t : Sending). AllSent P t.1) (ok-injective e) h
  forward-AllSent p m (suc count) pid st st' c h e =
      let (st₁, e₁, e₂) = >>=-eq-ok (forward_to p m pid st) _ e in
      forward-AllSent p m count (pid + 1) st₁ st' c (forward_to-AllSent p m pid st st₁ c h e₁) e₂

  pub forward_all-AllSent :
      (p : Platform) (r k : ℕ) (ms : List Message) (st st' : Sending)
      → st.0.round ≡ r
      → st.0.id ≡ k
      → All (λ m. P (extended r k m)) ms
      → AllSent P st.1
      → forward_all p ms st ≡ ok st'
      → AllSent P st'.1
  unfolding forward_all relayed
  forward_all-AllSent p r k [] st st' er ek c h e =
      subst (λ (t : Sending). AllSent P t.1) (ok-injective e) h
  forward_all-AllSent p r k (m ∷ ms) st st' er ek c h e =
      let (st₁, e₁, e₂) = forward_all_inv p m ms st st' e in
      let kept = forward-Kept p (relayed st.0 m) (length st.0.processes) 0 st st₁ e₁ in
      let now : P (relayed st.0 m) = subst P (λ i. extended (sym er i) (sym ek i) m) c.0 in
      forward_all-AllSent p r k ms st₁ st' (kept.round ∙ er) (kept.id ∙ ek) c.1
        (forward-AllSent p (relayed st.0 m) (length st.0.processes) 0 st st₁ now h e₁) e₂
