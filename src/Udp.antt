-- ===== src/Udp.antt =====
-- src/udp_conn.h and src/udp_conn.cc: sockets, clients and the server. What the operating system
-- answers is an argument: `Kernel` and `SocketCalls` for names and socket calls, and a list of what
-- each `sendto` and `recvfrom` gave for the loops. A list that ends is a call that still blocks.
pub mod Send
pub mod Listen
pub mod Sockets
mod Tests
use byzantine_agreement.Common.{
  ℕ, zero, suc, ◌+◌, ◌-◌, ◌/◌, ◌%◌, ◌^◌, ◌≡◌, refl, arith, Bool, true, false, not, ◌&&◌, ◌||◌, List,
  [], ◌∷◌, Option, none, some, ltb, ◌==◌, if◌then◌else◌, list_eq, Text, codes, Result, ok, throw,
  Exception, ◌>>=◌, take,
}
use byzantine_agreement.Net.{Address}

abbrev pub bufsize : ℕ
bufsize = 1024

-- Microseconds; 0 is `kNoTimeout`.
abbrev pub no_timeout : ℕ
no_timeout = 0

-- `struct timeval`
pub record TimeVal : Type 0 where
  pub tv_sec : ℕ
  pub tv_usec : ℕ

-- A socket that was opened, with the receive timeout that was set on it.
pub record Socket : Type 0 where
  pub fd : ℕ
  pub receive_timeout : Option TimeVal

-- The results of `socket` and of the two `setsockopt` calls.
pub record SocketCalls : Type 0 where
  pub fd : Option ℕ
  pub reuse_set : Bool
  pub timeout_set : Bool

unfoldable pub create_socket : SocketCalls → ℕ → Result Socket
create_socket calls timeout = elim calls.fd [
  | none ↦ throw Exception.socket_exception
  | some fd ↦
      if not calls.reuse_set
      then throw Exception.socket_exception
      else if ltb 0 timeout
      then (if calls.timeout_set
          then ok (record {
            fd = fd;
            receive_timeout =
                some (record { tv_sec = timeout / 1_000_000; tv_usec = timeout % 1_000_000 });
          })
          else throw Exception.socket_exception)
      else ok (record { fd = fd; receive_timeout = none })
]

-- The error of a call that failed.
pub data Errno : Type 0 where
  eagain ewouldblock econnrefused : Errno
  another : ℕ → Errno

unfoldable pub is_errno_timeout : Errno → Bool
is_errno_timeout Errno.eagain = true
is_errno_timeout Errno.ewouldblock = true
is_errno_timeout Errno.econnrefused = true
is_errno_timeout (Errno.another n) = false

-- `class SocketAddress`: the IPv4 address and the port of a sockaddr_in.
pub record SocketAddress : Type 0 where
  pub ip : ℕ
  pub port : ℕ

-- The resolver, the name of this host, and the socket calls made for the client of an address.
pub record Kernel : Type 0 where
  pub gethostbyname : Text → Option ℕ
  pub gethostbyaddr : ℕ → Option Text
  pub this_host : Text
  pub client_calls : Address → SocketCalls

-- `SocketAddress(net::Address)`
unfoldable pub socket_address : Kernel → Address → Result SocketAddress
socket_address k addr = elim (k.gethostbyname addr.hostname) [
  | none ↦ throw Exception.host_not_found_exception
  | some ip ↦ ok (record { ip = ip; port = addr.port % 2 ^ 16 })
]

-- `SocketAddress::Hostname`
unfoldable pub hostname : Kernel → SocketAddress → Result Text
hostname k a = elim (k.gethostbyaddr a.ip) [
  | none ↦ throw Exception.host_not_found_exception
  | some name ↦ ok (if list_eq name (codes "localhost") then k.this_host else name)
]

-- `class Client`
pub record Client : Type 0 where
  pub socket : Socket
  pub remote : SocketAddress

-- `Client(net::Address, timeout)`
unfoldable pub new_client : Kernel → Address → ℕ → Result Client
unfolding create_socket socket_address
new_client k addr timeout = do
  s ← create_socket (k.client_calls addr) timeout
  a ← socket_address k addr
  ok (record { socket = s; remote = a })

-- `Client(struct sockaddr_in)`
unfoldable pub client_of_sockaddr : SocketCalls → SocketAddress → Result Client
unfolding create_socket
client_of_sockaddr calls a = do
  s ← create_socket calls no_timeout
  ok (record { socket = s; remote = a })

unfoldable pub remote_address : Kernel → Client → Result Address
unfolding hostname
remote_address k c = do
  name ← hostname k c.remote
  ok (record { hostname = name; port = c.remote.port })

-- `Client::Send`, given whether `sendto` took the datagram.
unfoldable pub send : Bool → Result (Unit {0})
send sent = if sent then ok tt else throw Exception.send_exception

pub data ServerAction : Type 0 where
  continue stop : ServerAction

-- What `recvfrom` gave.
pub data Reply : Type 0 where
  got : List ℕ → Reply
  failed : Errno → Reply

-- One round of `SendWithAck`: whether the datagram was taken, and what came back.
pub record Attempt : Type 0 where
  pub sent : Bool
  pub reply : Reply

-- How `SendWithAck` ends: `blocked` where it still waits.
pub data SendOutcome : Type 0 where
  acked exhausted blocked : SendOutcome
  raised : Exception → SendOutcome

-- `IsErrnoTimeout` and `validAck`: whether the loop goes on after this reply.
unfoldable pub after_reply : (List ℕ → ServerAction) → Reply → SendOutcome → SendOutcome
unfolding is_errno_timeout
after_reply valid_ack (failed e) next =
    if is_errno_timeout e then next else raised Exception.receive_exception
after_reply valid_ack (got ackbuf) next = elim (valid_ack (take bufsize ackbuf)) [
  | continue ↦ next
  | stop ↦ acked
]

-- The loop of `SendWithAck`. The unsigned counter wraps where there is no limit.
unfoldable pub send_loop : Bool → ℕ → (List ℕ → ServerAction) → List Attempt → SendOutcome
unfolding after_reply
send_loop no_limit attempts valid_ack [] = if no_limit || ltb 0 attempts then blocked else exhausted
send_loop no_limit attempts valid_ack (a ∷ rest) =
    let next = send_loop no_limit ((attempts + 2 ^ 32 - 1) % 2 ^ 32) valid_ack rest in
    if no_limit || ltb 0 attempts
    then (if a.sent then after_reply valid_ack a.reply next else raised Exception.send_exception)
    else exhausted

unfoldable pub send_with_ack : ℕ → (List ℕ → ServerAction) → List Attempt → SendOutcome
unfolding send_loop
send_with_ack attempts valid_ack env = send_loop (attempts == 0) attempts valid_ack env

-- The constructor of `Server`, given whether `bind` succeeded.
unfoldable pub new_server : SocketCalls → Bool → ℕ → Result Socket
unfolding create_socket
new_server calls bound timeout = do
  s ← create_socket calls timeout
  if bound then ok s else throw Exception.bind_exception

-- A datagram that the server receives, with the results of the calls for its client.
pub record Datagram : Type 0 where
  pub from : SocketAddress
  pub calls : SocketCalls
  pub bytes : List ℕ

-- What one `recvfrom` of the server gave. `X` is what the callbacks read besides.
pub data Arrival {ℓ} (X : Type ℓ) : Type ℓ where
  received : Datagram → X → Arrival X
  refused : Errno → X → Arrival X

-- How listening ends: `running` where it still waits for the next datagram.
pub data Listening {ℓ} (S : Type ℓ) : Type ℓ where
  stopped running : S → Listening S

module _ {ℓ κ} {S : Type ℓ} {X : Type κ} (rcv : S → Client → List ℕ → X → Result (S × ServerAction))
    (timeout : S → X → Result (S × ServerAction)) where
  -- One round of `Server::Listen`.
  unfoldable pub serve : S → Arrival X → Result (S × ServerAction)
  unfolding client_of_sockaddr is_errno_timeout
  serve s (received d x) = do
    client ← client_of_sockaddr d.calls d.from
    rcv s client (take bufsize d.bytes) x
  serve s (refused e x) =
      if is_errno_timeout e then timeout s x else throw Exception.receive_exception

  unfoldable pub after_action : S × ServerAction → (S → Result (Listening S)) → Result (Listening S)
  after_action (s, stop) rest = ok (stopped s)
  after_action (s, continue) rest = rest s

  -- `Server::Listen`
  unfoldable pub listen : S → List (Arrival X) → Result (Listening S)
  unfolding serve after_action
  listen s [] = ok (running s)
  listen s (a ∷ rest) = do r ← serve s a; after_action r (λ s'. listen s' rest)
