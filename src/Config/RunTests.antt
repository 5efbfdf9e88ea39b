-- ===== src/Config/RunTests.antt =====
-- The run of `main` at concrete inputs.
use byzantine_agreement.Common.{
  ℕ, ◌^◌, ◌≤◌, ◌≡◌, ◌≢◌, refl, arith, true, [], ◌∷◌, subst, length, ok-injective, Option, none,
  some, get_elem?, Text, codes, ok,
}
use byzantine_agreement.Common.Int.{pos}
use byzantine_agreement.Msg.{Order}
use byzantine_agreement.Udp.{Client}
use byzantine_agreement.Generals.Lieutenant.{Lieutenant}
use byzantine_agreement.Generals.Base.{General, ProcessList}
use byzantine_agreement.Generals.Scenario.{platform, kernel, socket, working}
use byzantine_agreement.Config.{
  validate_commander_id, get_process_id, determine_id, Flags, Host, Parsed, exits, main, Process,
  commander, lieutenant, configure, run,
}
use byzantine_agreement.Generals.Senders.Joined.{AllAnswered}
use byzantine_agreement.Config.Agreed.{agreed_line, main-commander}
use byzantine_agreement.Config.Configured.{read_processes, IsConfigured, configure-IsConfigured}
use byzantine_agreement.Config.FirstProcess.{first_process-undecided}

-- A hostfile of three processes, and its second one as the commander.
abbrev host : Host
host = record {
  platform = platform;
  read_file = λ _. some (codes "a:4000 b:4000\nc\n");
  server_calls = working;
  server_bound = λ _. true;
}

abbrev flags : Option Text → Flags
flags order = record {
  port = some (pos 4000);
  hostfile = some (codes "hosts");
  faulty = some (pos 1);
  commander_id = some (pos 1);
  order = order;
  malicious = [];
  id = none;
}

commander_agrees :
    main host [] [] (Parsed.parsed (flags (some (codes "attack"))))
    ≡ exits 0 (codes "1: Agreed on attack\n")
unfolding main byzantine_agreement.Net.address_with_default_port byzantine_agreement.Net.find_colon
    byzantine_agreement.Net.stoi byzantine_agreement.Net.address_eq
    byzantine_agreement.Behavior.get_malicious_behavior
    byzantine_agreement.Generals.Commander.new_commander
    byzantine_agreement.Generals.Base.new_general
    byzantine_agreement.Generals.Base.clients_for_process_list
    byzantine_agreement.Generals.Base.add_clients byzantine_agreement.Udp.new_client
    byzantine_agreement.Generals.Commander.decide byzantine_agreement.Generals.Commander.send_from
    byzantine_agreement.Generals.Commander.send_to byzantine_agreement.Generals.Base.should_send_msg
    byzantine_agreement.Generals.Base.log_message byzantine_agreement.Generals.Base.client_for_id
    byzantine_agreement.Generals.Commander.order_for_msg
    byzantine_agreement.Generals.Base.find_client byzantine_agreement.Generals.Base.emplace
    byzantine_agreement.Msg.order_string byzantine_agreement.Msg.decimal
    byzantine_agreement.Generals.Base.exhibits_behavior byzantine_agreement.Udp.create_socket
    byzantine_agreement.Udp.socket_address
commander_agrees = refl

order_is_missing : main host [] [] (Parsed.parsed (flags none)) ≡ exits 1 []
unfolding main byzantine_agreement.Net.address_with_default_port byzantine_agreement.Net.find_colon
    byzantine_agreement.Net.stoi
order_is_missing = refl

abbrev client_of : ℕ → Client
client_of c = record {
  socket = record { fd = 3; receive_timeout = some (record { tv_sec = 0; tv_usec = 250_000 }) };
  remote = record { ip = c; port = 4000 };
}

-- The general of the second process, which has the commander in front.
abbrev general : ℕ → General
general id = record {
  processes =
      record { hostname = codes "b"; port = 4000 }
      ∷ record { hostname = codes "a"; port = 4000 }
      ∷ record { hostname = codes "c"; port = 4000 }
      ∷ [];
  clients =
      (record { hostname = codes "c"; port = 4000 }, client_of b'c')
      ∷ (record { hostname = codes "a"; port = 4000 }, client_of b'a')
      ∷ (record { hostname = codes "b"; port = 4000 }, client_of b'b')
      ∷ [];
  id = id;
  faulty = 1;
  behavior = 0;
  round = 0;
  partial_draws = 0;
}

abbrev attacker : Process
attacker = commander (record { general = general 0; order = Order.attack; wrong_draws = 0 })

reads :
    (order : Option Text) (file : Text) (ps : ProcessList)
    → read_processes host (flags order) file ≡ ok ps
    → length ps ≤ 2 ^ 31
unfolding byzantine_agreement.Net.address_with_default_port byzantine_agreement.Net.find_colon
    byzantine_agreement.Net.stoi byzantine_agreement.Config.get_processes
    byzantine_agreement.Common.Int.to_u16
reads order file ps e =
    subst (λ (t : ProcessList). length t ≤ 2 ^ 31) (ok-injective e) (omega arith)

configures : configure host (flags (some (codes "attack"))) ≡ ok (1, attacker)
unfolding configure byzantine_agreement.Net.address_with_default_port
    byzantine_agreement.Net.find_colon byzantine_agreement.Net.stoi
    byzantine_agreement.Net.address_eq byzantine_agreement.Behavior.get_malicious_behavior
    byzantine_agreement.Generals.Commander.new_commander
    byzantine_agreement.Generals.Base.new_general
    byzantine_agreement.Generals.Base.clients_for_process_list
    byzantine_agreement.Generals.Base.add_clients byzantine_agreement.Udp.new_client
    byzantine_agreement.Generals.Base.find_client byzantine_agreement.Generals.Base.emplace
    byzantine_agreement.Udp.create_socket byzantine_agreement.Udp.socket_address
configures = refl

configure-IsConfigured_example : IsConfigured host (flags (some (codes "attack"))) 1 attacker
configure-IsConfigured_example =
    configure-IsConfigured host (flags (some (codes "attack"))) 1 attacker
      (λ file ps _ e. reads (some (codes "attack")) file ps e) configures

platform-AllAnswered : AllAnswered platform
platform-AllAnswered r i j = record {
  answers = none ∷ none ∷ none ∷ [];
  three = refl;
  words = (tt, (tt, (tt, tt)));
  are = refl;
}

main-commander_example :
    (text : Text) × (some (codes "attack") ≡ some text)
    × (main host [] [] (Parsed.parsed (flags (some (codes "attack"))))
        ≡ exits 0 (agreed_line 1 text))
main-commander_example =
    main-commander host [] [] (flags (some (codes "attack"))) 1
      (record { general = general 0; order = Order.attack; wrong_draws = 0 })
      (λ file ps _ e. reads (some (codes "attack")) file ps e) platform-AllAnswered configures

-- The first process, with the second one as the commander.
abbrev first_host : Host
first_host = record host {
  platform = record platform { kernel = record kernel { this_host = codes "a" } };
}

abbrev stuck : Lieutenant
stuck = record {
  general = general 0;
  server = socket;
  orders_seen = [];
  round_start_ts = 0;
  msgs_this_round = [];
  ids_this_round = [];
  sender_threads = [];
  started = [];
  acks = [];
}

configures_first : configure first_host (flags none) ≡ ok (0, lieutenant stuck)
unfolding configure byzantine_agreement.Net.address_with_default_port
    byzantine_agreement.Net.find_colon byzantine_agreement.Net.stoi
    byzantine_agreement.Net.address_eq byzantine_agreement.Behavior.get_malicious_behavior
    byzantine_agreement.Generals.Lieutenant.new_lieutenant byzantine_agreement.Udp.new_server
    byzantine_agreement.Generals.Base.new_general
    byzantine_agreement.Generals.Base.clients_for_process_list
    byzantine_agreement.Generals.Base.add_clients byzantine_agreement.Udp.new_client
    byzantine_agreement.Generals.Base.find_client byzantine_agreement.Generals.Base.emplace
    byzantine_agreement.Udp.create_socket byzantine_agreement.Udp.socket_address
configures_first = refl

first_process-undecided_example :
    run first_host.platform [] (lieutenant stuck) ≢ ok (some Order.retreat)
first_process-undecided_example =
    first_process-undecided first_host (flags none) stuck [] Order.retreat
      (λ file ps _ e. reads none file ps e) configures_first
