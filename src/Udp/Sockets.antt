-- ===== src/Udp/Sockets.antt =====
-- `CreateSocket` of src/udp_conn.cc: the receive timeout.
use byzantine_agreement.Common.{ℕ, ◌+◌, ◌*◌, ◌≡◌, arith, Option, none, some, ok}
use byzantine_agreement.Udp.{TimeVal, Socket, SocketCalls, create_socket}

-- The microseconds that a socket waits; 0 where it waits forever.
abbrev pub microseconds : Option TimeVal → ℕ
microseconds none = 0
microseconds (some t) = t.tv_sec * 1_000_000 + t.tv_usec

-- A socket that `CreateSocket` opened waits exactly as long as the timeout that was asked for, a
-- timeout of 0 standing for no timeout: the seconds and the microseconds of the timeval add up.
create_socket-microseconds :
    (calls : SocketCalls) (timeout : ℕ) (s : Socket)
    → create_socket calls timeout ≡ ok s
    → microseconds s.receive_timeout ≡ timeout
unfolding create_socket
create_socket-microseconds calls timeout s h = grind arith
