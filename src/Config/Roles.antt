-- ===== src/Config/Roles.antt =====
-- The general that `main` of src/main.cc creates, as it is before its first round.
use byzantine_agreement.Common.{
  ℕ, ◌≡◌, ◌≢◌, ◌↔◌, refl, sym, ◌∙◌, inl, inr, Bool, true, false, ◌&&◌, List, Option, none, some,
  get_elem?, Text, ok, ok-injective, >>=-eq-ok, subst,
}
use byzantine_agreement.Msg.{Order, order_string}
use byzantine_agreement.Msg.Texts.{string_to_order-order_string}
use byzantine_agreement.Behavior.{MaliciousBehavior, exhibits, get_malicious_behavior}
use byzantine_agreement.Behavior.Flags.{
  Flag, bit, named, all_known, permitted, get_malicious_behavior_lem,
}
use byzantine_agreement.Udp.{Kernel}
use byzantine_agreement.Generals.Base.{General, ProcessList}
use byzantine_agreement.Generals.Made.{
  HasFields, SawNothing, new_commander-HasFields, new_lieutenant-HasFields,
}
use byzantine_agreement.Generals.Commander.{Commander, new_commander}
use byzantine_agreement.Generals.Lieutenant.{Lieutenant, new_lieutenant}
use byzantine_agreement.Config.{Flags, Host, Process, commander, lieutenant, create_general}
use byzantine_agreement.Config.Places.{swapped}
use byzantine_agreement.Config.Checks.{Given, given, not_given}

-- A general before its first round, with the commander's process in front.
pub record IsReady (listed : ProcessList) (commander_id faulty : ℕ) (malicious : List Text)
    (is_commander : Bool) (id : ℕ) (g : General) : Type 0 where
  pub commander_in_front :
      (j : ℕ) → get_elem? g.processes j ≡ get_elem? listed (swapped commander_id j)
  pub own_id : g.id ≡ id
  pub same_faulty : g.faulty ≡ faulty
  pub first : g.round ≡ 0
  pub may_behave : all_known malicious && permitted is_commander malicious ≡ true
  pub behaves : (f : Flag) → exhibits g.behavior (bit f) ≡ named f malicious

-- The commander has the order of the flag, and a lieutenant has none.
pub data Role (kernel : Kernel) (listed : ProcessList) (commander_id faulty my_id : ℕ)
    (flags : Flags) : Process → Type 0 where
  commands :
      (c : Commander) (text : Text)
      → my_id ≡ commander_id
      → flags.order ≡ some text
      → order_string c.order ≡ ok text
      → c.order ≢ Order.no_order
      → (processes : ProcessList) (b : MaliciousBehavior)
      → new_commander kernel processes faulty c.order b ≡ ok c
      → IsReady listed commander_id faulty flags.malicious true 0 c.general
      → Role kernel listed commander_id faulty my_id flags (commander c)
  obeys :
      (l : Lieutenant)
      → my_id ≢ commander_id
      → flags.order ≡ none
      → SawNothing l
      → IsReady listed commander_id faulty flags.malicious false my_id l.general
      → Role kernel listed commander_id faulty my_id flags (lieutenant l)

module _ (listed processes : ProcessList) (commander_id faulty : ℕ) (flags : Flags)
    (b : MaliciousBehavior)
    (swap : (j : ℕ) → get_elem? processes j ≡ get_elem? listed (swapped commander_id j)) where
  HasFields-IsReady :
      (is_commander : Bool) (id : ℕ) (g : General)
      → HasFields processes id faulty b g
      → get_malicious_behavior flags.malicious is_commander ≡ ok b
      → IsReady listed commander_id faulty flags.malicious is_commander id g
  HasFields-IsReady is_commander id g h e =
      elim (get_malicious_behavior_lem flags.malicious is_commander) [
        | inl (may, (b', e', x)) ↦
            let same : g.behavior ≡ b' = h.same_behavior ∙ ok-injective (sym e ∙ e') in
            record {
              commander_in_front = rw h.same_processes swap;
              own_id = h.same_id;
              same_faulty = h.same_faulty;
              first = h.begins;
              may_behave = may;
              behaves = rw same x;
            }
        | inr (may, e') ↦ cc (sym e ∙ e')
      ]

  pub create_general-Role :
      (host : Host) (my_id port : ℕ) (is_commander : Bool) (order : Option Order) (p : Process)
      → (is_commander ≡ true) ↔ (my_id ≡ commander_id)
      → Given flags.order is_commander order
      → get_malicious_behavior flags.malicious is_commander ≡ ok b
      → create_general host processes my_id port faulty order b ≡ ok p
      → Role host.platform.kernel listed commander_id faulty my_id flags p
  unfolding create_general
  create_general-Role host my_id port true (some o) p z (given text _ q t) h e =
      let (c, e₁, e₂) = >>=-eq-ok (new_commander host.platform.kernel processes faulty o b) _ e in
      let (fields, same) = new_commander-HasFields host.platform.kernel processes faulty o b c e₁ in
      let (printed, real) = (string_to_order-order_string text o).0 t in
      subst (Role host.platform.kernel listed commander_id faulty my_id flags) (ok-injective e₂) (
        commands c text (z.0 refl) q (rw same printed) (rw same real) processes b (rw same e₁)
          (HasFields-IsReady true 0 c.general fields h))
  create_general-Role host my_id port false (some o) p z x h e = elim x [ ]
  create_general-Role host my_id port true none p z x h e = elim x [ ]
  create_general-Role host my_id port false none p z (not_given q) h e =
      let (l, e₁, e₂) =
        >>=-eq-ok
          (new_lieutenant host.platform.kernel processes my_id host.server_calls
            (host.server_bound port) faulty b)
          _ e in
      let (fields, nothing) =
        new_lieutenant-HasFields host.platform.kernel processes my_id host.server_calls
          (host.server_bound port) faulty b l e₁ in
      subst (Role host.platform.kernel listed commander_id faulty my_id flags) (ok-injective e₂)
        (obeys l (λ y. cc (z.1 y)) q nothing (HasFields-IsReady false my_id l.general fields h))
