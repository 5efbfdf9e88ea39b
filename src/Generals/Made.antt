-- ===== src/Generals/Made.antt =====
-- What the constructors of src/general.cc fill the fields of a general with.
use byzantine_agreement.Common.{ℕ, ◌≡◌, refl, Bool, [], ok, ok-injective, >>=-eq-ok, subst}
use byzantine_agreement.Msg.{Order}
use byzantine_agreement.Behavior.{MaliciousBehavior}
use byzantine_agreement.Udp.{Kernel, SocketCalls, new_server}
use byzantine_agreement.Generals.Base.{
  General, ProcessList, new_general, clients_for_process_list, round_timeout,
}
use byzantine_agreement.Generals.Commander.{Commander, new_commander}
use byzantine_agreement.Generals.Lieutenant.{Lieutenant, new_lieutenant}

-- A lieutenant that has not seen anything.
pub record SawNothing (l : Lieutenant) : Type 0 where
  pub no_orders : l.orders_seen ≡ []
  pub no_ids : l.ids_this_round ≡ []
  pub no_msgs : l.msgs_this_round ≡ []
  pub none_started : l.started ≡ []

-- What a general starts with.
pub record HasFields (ps : ProcessList) (id faulty : ℕ) (b : MaliciousBehavior) (g : General)
    : Type 0 where
  pub same_processes : g.processes ≡ ps
  pub same_id : g.id ≡ id
  pub same_faulty : g.faulty ≡ faulty
  pub same_behavior : g.behavior ≡ b
  pub begins : g.round ≡ 0

pub new_general-HasFields :
    (k : Kernel) (ps : ProcessList) (id faulty : ℕ) (b : MaliciousBehavior) (g : General)
    → new_general k ps id faulty b ≡ ok g
    → HasFields ps id faulty b g
unfolding new_general
new_general-HasFields k ps id faulty b g e =
    let (m, e₁, e₂) = >>=-eq-ok (clients_for_process_list k ps) _ e in
    subst (HasFields ps id faulty b) (ok-injective e₂) (record {
      same_processes = refl;
      same_id = refl;
      same_faulty = refl;
      same_behavior = refl;
      begins = refl;
    })

pub new_commander-HasFields :
    (k : Kernel) (ps : ProcessList) (faulty : ℕ) (o : Order) (b : MaliciousBehavior) (c : Commander)
    → new_commander k ps faulty o b ≡ ok c
    → HasFields ps 0 faulty b c.general × (c.order ≡ o)
unfolding new_commander
new_commander-HasFields k ps faulty o b c e =
    let (g, e₁, e₂) = >>=-eq-ok (new_general k ps 0 faulty b) _ e in
    subst (λ (d : Commander). HasFields ps 0 faulty b d.general × (d.order ≡ o)) (ok-injective e₂)
      (new_general-HasFields k ps 0 faulty b g e₁, refl)

pub new_lieutenant-HasFields :
    (k : Kernel) (ps : ProcessList) (id : ℕ) (calls : SocketCalls) (bound : Bool) (faulty : ℕ)
    (b : MaliciousBehavior) (l : Lieutenant)
    → new_lieutenant k ps id calls bound faulty b ≡ ok l
    → HasFields ps id faulty b l.general × SawNothing l
unfolding new_lieutenant
new_lieutenant-HasFields k ps id calls bound faulty b l e =
    let (g, e₁, e₂) = >>=-eq-ok (new_general k ps id faulty b) _ e in
    let (s, e₃, e₄) = >>=-eq-ok (new_server calls bound round_timeout) _ e₂ in
    subst (λ (m : Lieutenant). HasFields ps id faulty b m.general × SawNothing m) (ok-injective e₄)
      (
        new_general-HasFields k ps id faulty b g e₁,
        record { no_orders = refl; no_ids = refl; no_msgs = refl; none_started = refl },
      )
