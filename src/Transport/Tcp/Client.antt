-- ===== src/Transport/Tcp/Client.antt =====
-- eventforge/transports/tcp.py, `TCPClientTransport`. `subscribe`, `unsubscribe`, `_dispatch` and
-- `receive` are those of its `Peer`.
use observer_pattern.Prelude.{ℕ, Bool, true, false, Option, none, some, List, if◌then◌else◌, Text}
use observer_pattern.Types.{Message, Result, ok, err, connection_error, application}
use observer_pattern.Transport.Tcp.Framing.{Bytes, Socket, send_msg}
use observer_pattern.Transport.Tcp.Peer

-- `connected` says that `_socket` is set; it stays set when the client is closed.
pub record Client (C : Type 0) : Type 0 where
  pub running : Bool
  pub connected : Bool
  pub peer : Peer.Peer C

module _ {C : Type 0} where
  -- `connect`, by whether the server was reached; the socket is set before.
  unfoldable pub connect : Bool → Client C → Result (Unit {0}) × Client C
  connect true c = (ok tt, record c { running = true; connected = true })
  connect false c = (err connection_error, record c { connected = true })

  unfoldable pub close : Client C → Client C
  close c = record c { running = false; peer = Peer.clear c.peer }

  unfoldable pub subscribe : Text → C → Client C → ℕ × Client C
  subscribe topic callback c =
      let (sub_id, p) = Peer.subscribe topic callback c.peer in (sub_id, record c { peer = p })

  unfoldable pub unsubscribe : ℕ → Client C → Bool × Client C
  unsubscribe sub_id c =
      let (found, p) = Peer.unsubscribe sub_id c.peer in (found, record c { peer = p })

  unfoldable pub receive : Text → Client C → Option Message × Client C
  receive topic c = let (r, p) = Peer.receive topic c.peer in (r, record c { peer = p })

  -- `send`: what is written; `broken` says that writing raises. A frame that is too long is the
  -- `struct.error` of number 0, a failed write the `OSError` of number 1.
  unfoldable pub send : (Message → Bytes) → Bool → Message → Client C → Result Bytes
  send serialize broken message c =
      if c.connected
      then (elim (send_msg (serialize message)) [
        | none ↦ err (application 0)
        | some frame ↦ if broken then err (application 1) else ok frame
      ])
      else err connection_error

module _ {C E : Type 0} where
  -- `_recv_loop`; it reads the socket only while there is one.
  unfoldable pub recv_loop :
      (C → Message → Peer.Peer C × E → Bool × (Peer.Peer C × E))
      → (Bytes → Option Message)
      → List Bool
      → Socket
      → Client C × E
      → Option (Client C × E)
  recv_loop invoke deserialize running bytes (c, env) =
      if c.connected
      then (elim (Peer.read_loop invoke deserialize running bytes (c.peer, env)) [
        | none ↦ none
        | some (p, env₁) ↦ some (record c { peer = p }, env₁)
      ])
      else some (c, env)
