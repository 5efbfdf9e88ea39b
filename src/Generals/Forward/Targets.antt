-- ===== src/Generals/Forward/Targets.antt =====
-- The processes for which `InitNewRound` of src/general.cc fills batches.
use byzantine_agreement.Common.{
  ℕ, zero, suc, ◌+◌, ◌<◌, ◌≡◌, arith, List, [], ◌∷◌, All, length, ok, >>=-eq-ok, ok-injective,
  subst,
}
use byzantine_agreement.Msg.{Message}
use byzantine_agreement.Generals.Base.{Platform}
use byzantine_agreement.Generals.Forward.{
  Batch, Sending, push_to, forward_to, forward, relayed, forward_all,
}
use byzantine_agreement.Generals.Lieutenant.Rounds.{forward-Kept, forward_all_inv}

-- Every batch is for a process of which `T` holds.
abbrev pub AllFor {κ} : (ℕ → Type κ) → List Batch → Type κ
AllFor T = All (λ (b : Batch). T b.pid)

module _ {κ} (T : ℕ → Type κ) where
  push_to-AllFor :
      (pid : ℕ) (m : Message) (bs : List Batch) → T pid → AllFor T bs → AllFor T (push_to pid m bs)
  unfolding push_to
  push_to-AllFor pid m [] c h = (c, tt)
  push_to-AllFor pid m (b ∷ bs) c h = ground (arith, push_to-AllFor pid m bs c h.1, h.0)

  forward_to-AllFor :
      (p : Platform) (m : Message) (pid : ℕ) (st st' : Sending)
      → T pid
      → AllFor T st.1
      → forward_to p m pid st ≡ ok st'
      → AllFor T st'.1
  unfolding forward_to
  forward_to-AllFor p m pid st st' c h e = ground (arith, push_to-AllFor pid m st.1 c h)

  forward-AllFor :
      (p : Platform) (m : Message) (count pid : ℕ) (st st' : Sending)
      → ((q : ℕ) → q < pid + count → T q)
      → AllFor T st.1
      → forward p m count pid st ≡ ok st'
      → AllFor T st'.1
  unfolding forward
  forward-AllFor p m zero pid st st' c h e =
      subst (λ (t : Sending). AllFor T t.1) (ok-injective e) h
  forward-AllFor p m (suc count) pid st st' c h e =
      let (st₁, e₁, e₂) = >>=-eq-ok (forward_to p m pid st) _ e in
      forward-AllFor p m count (pid + 1) st₁ st' (λ q lt. c q (omega arith))
        (forward_to-AllFor p m pid st st₁ (c pid (omega arith)) h e₁) e₂

  -- What holds of every process holds of the targets of all batches.
  pub forward_all-AllFor :
      (p : Platform) (n : ℕ) (ms : List Message) (st st' : Sending)
      → length st.0.processes ≡ n
      → ((q : ℕ) → q < n → T q)
      → AllFor T st.1
      → forward_all p ms st ≡ ok st'
      → AllFor T st'.1
  unfolding forward_all
  forward_all-AllFor p n [] st st' en c h e =
      subst (λ (t : Sending). AllFor T t.1) (ok-injective e) h
  forward_all-AllFor p n (m ∷ ms) st st' en c h e =
      let (st₁, e₁, e₂) = forward_all_inv p m ms st st' e in
      let k = forward-Kept p (relayed st.0 m) (length st.0.processes) 0 st st₁ e₁ in
      forward_all-AllFor p n ms st₁ st' (rw k.processes en) c
        (forward-AllFor p (relayed st.0 m) (length st.0.processes) 0 st st₁
          (λ q lt. c q (omega (arith, en))) h e₁)
        e₂
