-- ===== src/Generals/Base.antt =====
-- `class General` of src/general.h and src/general.cc: the constants, the round counter, and what a
-- malicious general does to its messages.
use byzantine_agreement.Common.{
  ℕ, ◌+◌, ◌%◌, ◌^◌, Bool, true, false, not, List, [], ◌∷◌, Option, none, some, ◌==◌, if◌then◌else◌,
  get_elem?, Result, ok, throw, Exception, ◌>>=◌,
}
use byzantine_agreement.Common.Int.{ℤ, pos, negsuc}
use byzantine_agreement.Net.{Address, address_eq}
use byzantine_agreement.Udp.{
  Kernel, Client, new_client, ServerAction, send_with_ack, Attempt, SendOutcome,
}
use byzantine_agreement.Msg.{Message, show_message}
use byzantine_agreement.Wire.{message_buf, round_of_ack}
use byzantine_agreement.Behavior.{MaliciousBehavior, exhibits, silent, delay_send, partial_send}

-- Microseconds, except for the delays of `MaybeDelaySend`.
abbrev pub ack_timeout : ℕ
ack_timeout = 250_000

abbrev pub round_timeout : ℕ
round_timeout = 1_000_000

abbrev pub send_attempts : ℕ
send_attempts = 3

-- What a thread meets for one message: the draw of `MaybeDelaySend`, and what each attempt gives.
pub record Turn : Type 0 where
  pub draw : ℤ
  pub attempts : List Attempt

-- What the process meets: its kernel, whether `logging::out` is enabled, and the random engines.
-- `partial_draw n` says whether draw n of `ShouldSendMsg` lies below 0.75, `wrong_draw n` whether
-- draw n of `OrderForMsg` lies below 0.30. `turns r i j` is what the thread i that is started in round r
-- meets for its message j.
pub record Platform : Type 0 where
  pub kernel : Kernel
  pub verbose : Bool
  pub partial_draw : ℕ → Bool
  pub wrong_draw : ℕ → Bool
  pub turns : ℕ → ℕ → ℕ → Turn

abbrev pub ProcessList : Type 0
ProcessList = List Address

-- `UdpClientMap`, without an order of its own.
abbrev pub UdpClientMap : Type 0
UdpClientMap = List (Address × Client)

unfoldable pub find_client : Address → UdpClientMap → Option Client
find_client a [] = none
find_client a ((b, c) ∷ m) = if address_eq b a then some c else find_client a m

-- `emplace`: an address that is there keeps its client.
unfoldable pub emplace : Address → Client → UdpClientMap → UdpClientMap
emplace a c m = elim (find_client a m) [ none ↦ (a, c) ∷ m | some old ↦ m ]

-- The loop of `ClientsForProcessList`. A client is made for every address, also for one that is
-- there already.
unfoldable pub add_clients : Kernel → ProcessList → UdpClientMap → Result UdpClientMap
add_clients k [] clients = ok clients
add_clients k (addr ∷ rest) clients = do
  c ← new_client k addr ack_timeout
  add_clients k rest (emplace addr c clients)

unfoldable pub clients_for_process_list : Kernel → ProcessList → Result UdpClientMap
clients_for_process_list k processes = add_clients k processes []

-- `class General`; `partial_draws` is where the engine of `ShouldSendMsg` stands.
pub record General : Type 0 where
  pub processes : ProcessList
  pub clients : UdpClientMap
  pub id : ℕ
  pub faulty : ℕ
  pub behavior : MaliciousBehavior
  pub round : ℕ
  pub partial_draws : ℕ

-- The constructor.
unfoldable pub new_general : Kernel → ProcessList → ℕ → ℕ → MaliciousBehavior → Result General
new_general k processes id faulty behavior = do
  clients ← clients_for_process_list k processes
  ok (record {
    processes = processes;
    clients = clients;
    id = id;
    faulty = faulty;
    behavior = behavior;
    round = 0;
    partial_draws = 0;
  })

-- `at`: an index or a key that is not there throws.
abbrev pub at_or_throw {ℓ} : {A : Type ℓ} → Option A → Result A
at_or_throw none = throw Exception.out_of_range
at_or_throw (some a) = ok a

unfoldable pub client_for_id : General → ℕ → Result Client
client_for_id g pid = do
  addr ← at_or_throw (get_elem? g.processes pid)
  at_or_throw (find_client addr g.clients)

unfoldable pub exhibits_behavior : General → MaliciousBehavior → Bool
unfolding exhibits
exhibits_behavior g test = exhibits g.behavior test

unfoldable pub first_round : General → Bool
first_round g = g.round == 0

unfoldable pub last_round : General → Bool
last_round g = g.round == (g.faulty + 1) % 2 ^ 32

unfoldable pub increment_round : General → General
increment_round g = record g { round = (g.round + 1) % 2 ^ 32 }

-- Whether to send, and the general after the draw.
unfoldable pub should_send_msg : Platform → General → Bool × General
unfolding exhibits_behavior
should_send_msg p g =
    if exhibits_behavior g silent
    then (false, g)
    else if exhibits_behavior g partial_send
    then (p.partial_draw g.partial_draws, record g { partial_draws = g.partial_draws + 1 })
    else (true, g)

-- How long to sleep, in tenths of a second, given the draw of the Poisson distribution.
unfoldable pub maybe_delay_send : General → ℤ → ℕ
unfolding exhibits_behavior
maybe_delay_send g (pos delay) = if not (exhibits_behavior g delay_send) then 0 else delay
maybe_delay_send g (negsuc n) = 0

-- `logging::out << "…" << msg << …`: printing the message may throw, if it is printed.
unfoldable pub log_message : Platform → Message → Result (Unit {0})
unfolding show_message
log_message p m = if p.verbose then (show_message m >>= λ _. ok tt) else ok tt

-- The `isValidAck` of `SendMessage`.
unfoldable pub is_valid_ack : Message → List ℕ → ServerAction
unfolding round_of_ack
is_valid_ack msg buf = elim (round_of_ack buf) [
  | none ↦ ServerAction.continue
  | some r ↦ if r == msg.round then ServerAction.stop else ServerAction.continue
]

-- `SendMessage`: the buffer, and how sending it ends.
unfoldable pub send_message : Message → List Attempt → List ℕ × SendOutcome
unfolding message_buf send_with_ack is_valid_ack
send_message msg env = (message_buf msg, send_with_ack send_attempts (is_valid_ack msg) env)
