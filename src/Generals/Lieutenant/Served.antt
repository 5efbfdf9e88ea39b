-- ===== src/Generals/Lieutenant/Served.antt =====
-- What `Server::Listen` (src/udp_conn.cc) has a lieutenant of src/general.cc do with what it got, when
-- that ends without an exception: to take a message that came, or none, and then perhaps to change
-- rounds.
use byzantine_agreement.Common.{◌≡◌, refl, some, ok, true, take}
use byzantine_agreement.Msg.{Message}
use byzantine_agreement.Wire.{byzantine_msg_from_buf}
use byzantine_agreement.Net.{Address}
use byzantine_agreement.Udp.{
  Client, Datagram, Arrival, received, refused, serve, ServerAction, bufsize,
}
use byzantine_agreement.Udp.Listen.{serve-received, serve-refused}
use byzantine_agreement.Generals.Base.{Platform}
use byzantine_agreement.Generals.Validation.{valid_message}
use byzantine_agreement.Generals.Lieutenant.{Lieutenant, Readings, on_receive, handle_round_timeout}
use byzantine_agreement.Generals.Lieutenant.Changes.{
  Change, Handled, passed, taken, Accepted, on_receive-Handled, handle_round_timeout-Change,
  continue_unless_timeout-Change,
}

pub data Served (p : Platform) (l : Lieutenant) (a : Arrival Readings)
    (r : Lieutenant × ServerAction) : Type 0 where
  only_changes : (x : Readings) → Change p l x r → Served p l a r
  takes :
      (d : Datagram) (x : Readings) (client : Client) (m : Message) (from : Address)
      → a ≡ received d x
      → byzantine_msg_from_buf (take bufsize d.bytes) ≡ some m
      → valid_message l.general m from ≡ ok true
      → Accepted p l client x m r
      → Served p l a r

Handled-Served :
    (p : Platform) (l : Lieutenant) (d : Datagram) (client : Client) (x : Readings)
    {r : Lieutenant × ServerAction}
    → Handled p l client (take bufsize d.bytes) x r
    → Served p l (received d x) r
Handled-Served p l d client x (passed e) = only_changes x (continue_unless_timeout-Change p l x e)
Handled-Served p l d client x (taken m from q f v a) = takes d x client m from refl q v a

pub serve-Served :
    (p : Platform) (l : Lieutenant) (a : Arrival Readings) (r : Lieutenant × ServerAction)
    → serve (on_receive p) (handle_round_timeout p) l a ≡ ok r
    → Served p l a r
serve-Served p l (refused b x) r e = only_changes x (
    handle_round_timeout-Change p l x
      (serve-refused (on_receive p) (handle_round_timeout p) l b x e))
serve-Served p l (received d x) r e =
    let (client, e₁, e₂) = serve-received (on_receive p) (handle_round_timeout p) l d x e in
    Handled-Served p l d client x (on_receive-Handled p l client (take bufsize d.bytes) x e₂)
