-- ===== src/Generals/Lieutenant/Outcome.antt =====
-- `Lieutenant::Decide` of src/general.cc, by how listening ends.
use byzantine_agreement.Common.{◌≡◌, List, some, ok, >>=-eq-ok}
use byzantine_agreement.Msg.{Order}
use byzantine_agreement.Udp.{Arrival, Listening, stopped, running, listen}
use byzantine_agreement.Generals.Base.{Platform}
use byzantine_agreement.Generals.Lieutenant.{
  Lieutenant, Readings, handle_round_timeout, on_receive, decide_order, decided, decide,
}

module _ (p : Platform) (l : Lieutenant) (arrivals : List (Arrival Readings)) where
  pub decide-stopped :
      (o : Order)
      → decide p l arrivals ≡ ok (some o)
      → (l' : Lieutenant) × (listen (on_receive p) (handle_round_timeout p) l arrivals
          ≡ ok (stopped l'))
        × (o ≡ decide_order l')
  unfolding decide decided
  decide-stopped o e =
      let (out, e₁, e₂) =
        >>=-eq-ok (listen (on_receive p) (handle_round_timeout p) l arrivals) _ e in
      by_outcome out e₁ e₂
    where
      by_outcome :
          (out : Listening Lieutenant)
          → listen (on_receive p) (handle_round_timeout p) l arrivals ≡ ok out
          → decided out ≡ ok (some o)
          → (l' : Lieutenant) × (listen (on_receive p) (handle_round_timeout p) l arrivals
              ≡ ok (stopped l'))
            × (o ≡ decide_order l')
      by_outcome (stopped l') e₁ e₂ = (l', e₁, cc)
      by_outcome (running l') e₁ e₂ = cc

  pub stopped-decide :
      {l' : Lieutenant}
      → listen (on_receive p) (handle_round_timeout p) l arrivals ≡ ok (stopped l')
      → decide p l arrivals ≡ ok (some (decide_order l'))
  unfolding decide decided
  stopped-decide e = rw e
