-- ===== src/Generals/Scenario.antt =====
-- Data for tests: four processes on the hosts "a" to "d", the first of them the commander, and the
-- second as it runs.
use byzantine_agreement.Common.{ℕ, true, false, List, [], ◌∷◌, Option, none, some, Text, codes}
use byzantine_agreement.Msg.{Order, Message}
use byzantine_agreement.Net.{Address}
use byzantine_agreement.Common.Int.{pos}
use byzantine_agreement.Udp.{Kernel, SocketCalls, Socket, Client, Attempt, failed, Errno}
use byzantine_agreement.Generals.Base.{General, Platform, ProcessList}
use byzantine_agreement.Generals.Lieutenant.{Lieutenant, Readings}

abbrev pub address : ℕ → Address
address c = record { hostname = c ∷ []; port = 4000 }

abbrev pub processes : ProcessList
processes = address b'a' ∷ address b'b' ∷ address b'c' ∷ address b'd' ∷ []

-- The address of a host is its letter.
abbrev pub resolve : Text → Option ℕ
resolve [] = none
resolve (c ∷ s) = some c

abbrev pub working : SocketCalls
working = record { fd = some 3; reuse_set = true; timeout_set = true }

abbrev pub kernel : Kernel
kernel = record {
  gethostbyname = resolve;
  gethostbyaddr = λ ip. some (ip ∷ []);
  this_host = codes "b";
  client_calls = λ _. working;
}

-- An attempt that nobody answers.
abbrev unheard : Attempt
unheard = record { sent = true; reply = failed Errno.eagain }

abbrev pub platform : Platform
platform = record {
  kernel = kernel;
  verbose = false;
  partial_draw = λ _. true;
  wrong_draw = λ _. false;
  turns = λ r i j. record { draw = pos 0; attempts = unheard ∷ unheard ∷ unheard ∷ [] };
}

abbrev pub socket : Socket
socket = record { fd = 3; receive_timeout = some (record { tv_sec = 1; tv_usec = 0 }) }

-- The client of a sender on a host.
abbrev pub client_on : ℕ → Client
client_on c = record {
  socket = record { fd = 3; receive_timeout = none };
  remote = record { ip = c; port = 5000 };
}

abbrev pub general : ℕ → General
general r = record {
  processes = processes;
  clients = [];
  id = 1;
  faulty = 2;
  behavior = 0;
  round = r;
  partial_draws = 0;
}

-- Process 1 in a round, when it has seen the order to attack.
abbrev pub in_round : ℕ → List Message → Lieutenant
in_round r msgs = record {
  general = general r;
  server = socket;
  orders_seen = Order.attack ∷ [];
  round_start_ts = 0;
  msgs_this_round = msgs;
  ids_this_round = [];
  sender_threads = [];
  started = [];
  acks = [];
}

abbrev pub readings : Readings
readings = record { now = 5000; reset = 6000; ack_sent = true }

-- The commander's message, and what process 2 makes of it.
abbrev pub first_message : Message
first_message = record { round = 0; order = Order.attack; ids = 0 ∷ [] }

abbrev pub second_message : Message
second_message = record { round = 1; order = Order.attack; ids = 0 ∷ 2 ∷ [] }
