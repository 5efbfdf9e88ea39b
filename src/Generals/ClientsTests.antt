-- ===== src/Generals/ClientsTests.antt =====
-- The theorem on clients at a concrete input.
use byzantine_agreement.Net.{address_eq}
use byzantine_agreement.Common.{ℕ, ◌≡◌, refl, [], ◌∷◌, some, ok}
use byzantine_agreement.Udp.{Client, new_client}
use byzantine_agreement.Generals.Base.{
  General, ack_timeout, client_for_id, new_general, clients_for_process_list, add_clients, emplace,
  find_client,
}
use byzantine_agreement.Generals.Clients.{new_general-client_for_id}
use byzantine_agreement.Generals.Scenario.{address, kernel}

abbrev client_of : ℕ → Client
client_of c = record {
  socket = record { fd = 3; receive_timeout = some (record { tv_sec = 0; tv_usec = 250_000 }) };
  remote = record { ip = c; port = 4000 };
}

-- Two processes on one address share a client.
abbrev built : General
built = record {
  processes = address b'a' ∷ address b'b' ∷ address b'a' ∷ [];
  clients = (address b'b', client_of b'b') ∷ (address b'a', client_of b'a') ∷ [];
  id = 1;
  faulty = 1;
  behavior = 0;
  round = 0;
  partial_draws = 0;
}

built_runs : new_general kernel built.processes 1 1 0 ≡ ok built
unfolding new_general clients_for_process_list add_clients new_client emplace find_client address_eq
built_runs = refl

new_general-client_for_id_example :
    (c : Client) × (client_for_id built 2 ≡ ok c)
    × (new_client kernel (address b'a') ack_timeout ≡ ok c)
new_general-client_for_id_example =
    new_general-client_for_id kernel built.processes 1 1 0 built 2 (address b'a') built_runs refl
