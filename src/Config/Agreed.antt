-- ===== src/Config/Agreed.antt =====
-- The run of `main` of src/main.cc on the commander's process.
use byzantine_agreement.Common.{
  ℕ, ◌^◌, ◌≤◌, ◌≡◌, ◌≢◌, inl, inr, refl, ap, ◌∙◌, List, ◌++◌, some, length, Text, codes, ok,
}
use byzantine_agreement.Msg.{Order, order_string, decimal}
use byzantine_agreement.Udp.{Arrival}
use byzantine_agreement.Generals.Base.{Platform, ProcessList}
use byzantine_agreement.Generals.Commander.{Commander, decide}
use byzantine_agreement.Generals.Commander.Decides.{decide-always}
use byzantine_agreement.Generals.Commander.Orders.{IsCommand}
use byzantine_agreement.Generals.Lieutenant.{Readings}
use byzantine_agreement.Generals.Senders.Joined.{AllAnswered}
use byzantine_agreement.Config.{
  Flags, Host, Process, commander, parsed, exits, configure, run, outcome, print_order, main,
}
use byzantine_agreement.Config.Configured.{read_processes, configure-IsConfigured}
use byzantine_agreement.Config.Roles.{Role, commands}

-- What is printed for an order.
abbrev pub agreed_line : ℕ → Text → Text
agreed_line my_id text = decimal my_id ++ (codes ": Agreed on " ++ (text ++ codes "\n"))

printed-IsCommand :
    (o : Order) (text : Text) → order_string o ≡ ok text → o ≢ Order.no_order → IsCommand o
unfolding order_string
printed-IsCommand Order.attack text e h = inl refl
printed-IsCommand Order.retreat text e h = inr refl
printed-IsCommand Order.no_order text e h = absurd (h refl)
printed-IsCommand (Order.other n) text e h = cc

run-ok :
    (p : Platform) (arrivals : List (Arrival Readings)) (c : Commander)
    → decide p c ≡ ok c.order
    → run p arrivals (commander c) ≡ ok (some c.order)
unfolding run
run-ok p arrivals c d = rw d refl

outcome-ok :
    (my_id : ℕ) (o : Order) {text : Text}
    → order_string o ≡ ok text
    → outcome my_id (ok (some o)) ≡ exits 0 (agreed_line my_id text)
unfolding outcome print_order
outcome-ok my_id o {text} t = rw (outcome, print_order, t) refl

main-outcome :
    (host : Host) (usage : Text) (arrivals : List (Arrival Readings)) (flags : Flags) (my_id : ℕ)
    (p : Process)
    → configure host flags ≡ ok (my_id, p)
    → main host usage arrivals (parsed flags) ≡ outcome my_id (run host.platform arrivals p)
unfolding main
main-outcome host usage arrivals flags my_id p e = rw (main, e) refl

run-commander :
    (host : Host) (usage : Text) (arrivals : List (Arrival Readings)) (flags : Flags) (my_id : ℕ)
    (c : Commander) {text : Text}
    → configure host flags ≡ ok (my_id, commander c)
    → decide host.platform c ≡ ok c.order
    → order_string c.order ≡ ok text
    → main host usage arrivals (parsed flags) ≡ exits 0 (agreed_line my_id text)
run-commander host usage arrivals flags my_id c e d t =
    main-outcome host usage arrivals flags my_id (commander c) e
    ∙ (ap (outcome my_id) (run-ok host.platform arrivals c d) ∙ outcome-ok my_id c.order t)

-- A process that is created as a commander prints that it agreed on the order that its flag spells,
-- and exits with 0, whatever its behaviour; provided that the sends of its threads all succeed and
-- are each met by a timeout or the acknowledgement of a 32-bit round, and that the hostfile lists no
-- more processes than an int can number.
pub main-commander :
    (host : Host) (usage : Text) (arrivals : List (Arrival Readings)) (flags : Flags) (my_id : ℕ)
    (c : Commander)
    → ((file : Text) (ps : ProcessList)
        → flags.hostfile ≡ some file
        → read_processes host flags file ≡ ok ps
        → length ps ≤ 2 ^ 31)
    → AllAnswered host.platform
    → configure host flags ≡ ok (my_id, commander c)
    → (text : Text) × (flags.order ≡ some text)
      × (main host usage arrivals (parsed flags) ≡ exits 0 (agreed_line my_id text))
main-commander host usage arrivals flags my_id c small answered e =
    let v = configure-IsConfigured host flags my_id (commander c) small e in by_role v.role
  where
    by_role :
        {listed : ProcessList} {commander_id faulty : ℕ}
        → Role host.platform.kernel listed commander_id faulty my_id flags (commander c)
        → (text : Text) × (flags.order ≡ some text)
          × (main host usage arrivals (parsed flags) ≡ exits 0 (agreed_line my_id text))
    by_role {faulty} (commands _ text own given spelt real ps b made ready) =
        let d =
          decide-always host.platform ps faulty c.order b c made
            (printed-IsCommand c.order text spelt real) answered in
        (text, given, run-commander host usage arrivals flags my_id c e d spelt)
