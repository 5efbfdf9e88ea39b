-- ===== src/Generals/Commander/Tests.antt =====
-- The theorem on commanders at a concrete input.
use byzantine_agreement.Net.{address_eq}
use byzantine_agreement.Common.{ℕ, ◌≡◌, refl, List, [], ◌∷◌, some, ok, false, throw, Exception}
use byzantine_agreement.Common.Int.{pos}
use byzantine_agreement.Msg.{Order}
use byzantine_agreement.Generals.Base.{
  Platform, client_for_id, should_send_msg, log_message, exhibits_behavior, find_client,
}
use byzantine_agreement.Udp.{Client, failed, Errno}
use byzantine_agreement.Generals.Commander.{
  Commander, decide, launch, send_from, send_to, order_for_msg,
}
use byzantine_agreement.Generals.Commander.Aborts.{decide_send_fails}
use byzantine_agreement.Generals.Senders.{Sender}
use byzantine_agreement.Generals.Scenario.{address, platform}

abbrev client_of : ℕ → Client
client_of c = record {
  socket = record { fd = 3; receive_timeout = some (record { tv_sec = 0; tv_usec = 250_000 }) };
  remote = record { ip = c; port = 4000 };
}

abbrev commander : Commander
commander = record {
  general = record {
    processes = address b'a' ∷ address b'b' ∷ address b'c' ∷ [];
    clients =
        (address b'c', client_of b'c')
        ∷ (address b'b', client_of b'b')
        ∷ (address b'a', client_of b'a')
        ∷ [];
    id = 0;
    faulty = 1;
    behavior = 0;
    round = 0;
    partial_draws = 0;
  };
  order = Order.attack;
  wrong_draws = 0;
}

-- A platform on which nothing can be sent.
abbrev unplugged : Platform
unplugged = record platform {
  turns = λ r i j. record {
    draw = pos 0;
    attempts = record { sent = false; reply = failed Errno.eagain } ∷ [];
  };
}

abbrev handed : List Sender
handed =
    record {
      client = client_of b'b';
      msg = record { round = 0; order = Order.attack; ids = 0 ∷ [] };
    }
    ∷ record {
      client = client_of b'c';
      msg = record { round = 0; order = Order.attack; ids = 0 ∷ [] };
    }
    ∷ []

launches : launch unplugged commander ≡ ok (Order.attack, handed)
unfolding launch send_from send_to order_for_msg exhibits_behavior find_client address_eq
    client_for_id should_send_msg log_message
launches = refl

decide_send_fails_example : decide unplugged commander ≡ throw Exception.process_terminated
decide_send_fails_example =
    decide_send_fails unplugged commander Order.attack handed 1
      (record {
        client = client_of b'c';
        msg = record { round = 0; order = Order.attack; ids = 0 ∷ [] };
      })
      launches refl
      (record {
        first = record { sent = false; reply = failed Errno.eagain };
        others = [];
        are = refl;
        not_sent = refl;
      })
