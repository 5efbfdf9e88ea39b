-- ===== src/Config/FirstProcess.antt =====
-- The process that the hostfile of src/main.cc lists first, when another one is the commander.
use byzantine_agreement.Common.{
  All-any, ℕ, ◌^◌, ◌≤◌, ◌≡◌, ◌≢◌, sym, ap, ◌∙◌, arith, List, some, length, Text, ok, ok-injective,
  take,
}
use byzantine_agreement.Msg.{Order}
use byzantine_agreement.Udp.{Client, Arrival, received, refused, ServerAction, serve, bufsize}
use byzantine_agreement.Udp.Listen.{listen_goes_on, serve-received, serve-refused}
use byzantine_agreement.Generals.Base.{Platform, ProcessList, first_round}
use byzantine_agreement.Generals.Protocol.{id_zero-rejects}
use byzantine_agreement.Generals.Lieutenant.{
  Lieutenant, Readings, continue_unless_timeout, decide, handle_round_timeout, on_receive,
}
use byzantine_agreement.Generals.Lieutenant.Changes.{Handled, passed, taken, on_receive-Handled}
use byzantine_agreement.Generals.Lieutenant.Outcome.{decide-stopped}
use byzantine_agreement.Config.{Flags, Host, lieutenant, configure, run}
use byzantine_agreement.Config.Configured.{read_processes, configure-IsConfigured}
use byzantine_agreement.Config.Roles.{Role, obeys}

-- In the first round, with the commander's id.
record IsStuck (l : Lieutenant) : Type 0 where
  no_id : l.id ≡ 0
  first : l.round ≡ 0

module _ (p : Platform) (l : Lieutenant) (h : IsStuck l) (x : Readings) where
  handle_round_timeout-stuck : handle_round_timeout p l x ≡ ok (l, ServerAction.continue)
  unfolding handle_round_timeout first_round
  handle_round_timeout-stuck = ground (arith, h.first)

  continue_unless_timeout-stuck : continue_unless_timeout p l x ≡ ok (l, ServerAction.continue)
  unfolding continue_unless_timeout
  continue_unless_timeout-stuck = ground (arith, handle_round_timeout-stuck)

  Handled-stuck :
      (client : Client) (buf : List ℕ) {r : Lieutenant × ServerAction}
      → Handled p l client buf x r
      → r ≡ (l, ServerAction.continue)
  Handled-stuck client buf (passed e) = ok-injective (sym e ∙ continue_unless_timeout-stuck)
  Handled-stuck client buf (taken m from q f v a) =
      cc (v, id_zero-rejects l.general m from (omega (arith, h.first)) h.no_id)

serve-stuck :
    (p : Platform) (l : Lieutenant) (a : Arrival Readings) (r : Lieutenant × ServerAction)
    → IsStuck l
    → serve (on_receive p) (handle_round_timeout p) l a ≡ ok r
    → r ≡ (l, ServerAction.continue)
serve-stuck p l (refused b x) r h e = ok-injective (
    sym (serve-refused (on_receive p) (handle_round_timeout p) l b x e)
    ∙ handle_round_timeout-stuck p l h x)
serve-stuck p l (received d x) r h e =
    let (client, e₁, e₂) = serve-received (on_receive p) (handle_round_timeout p) l d x e in
    Handled-stuck p l h x client (take bufsize d.bytes)
      (on_receive-Handled p l client (take bufsize d.bytes) x e₂)

stuck_undecided :
    (p : Platform) (l : Lieutenant) (arrivals : List (Arrival Readings)) (o : Order)
    → IsStuck l
    → decide p l arrivals ≢ ok (some o)
stuck_undecided p l arrivals o h e =
    let (l', e₁, _) = decide-stopped p l arrivals o e in
    listen_goes_on (on_receive p) (handle_round_timeout p) IsStuck (λ _. Unit {0})
      (λ k a r v _ q.
        let same = serve-stuck p k a r v q in
        (rw same v, ap (λ (t : Lieutenant × ServerAction). t.1) same))
      l arrivals l' h (All-any arrivals) e₁

-- The process that the hostfile lists first never decides, whatever arrives, if another one is the
-- commander, in a hostfile that lists no more processes than an int can number.
pub first_process-undecided :
    (host : Host) (flags : Flags) (l : Lieutenant) (arrivals : List (Arrival Readings)) (o : Order)
    → ((file : Text) (ps : ProcessList)
        → flags.hostfile ≡ some file
        → read_processes host flags file ≡ ok ps
        → length ps ≤ 2 ^ 31)
    → configure host flags ≡ ok (0, lieutenant l)
    → run host.platform arrivals (lieutenant l) ≢ ok (some o)
unfolding run
first_process-undecided host flags l arrivals o small e =
    stuck_undecided host.platform l arrivals o
      (by_role (configure-IsConfigured host flags 0 (lieutenant l) small e).role)
  where
    by_role :
        {listed : ProcessList} {commander_id faulty : ℕ}
        → Role host.platform.kernel listed commander_id faulty 0 flags (lieutenant l)
        → IsStuck l
    by_role (obeys _ other none_given nothing ready) = record {
      no_id = ready.own_id;
      first = ready.first;
    }
