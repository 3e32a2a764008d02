-- ===== src/Transport/Tcp/Server.antt =====
-- eventforge/transports/tcp.py, `TCPServerTransport`. A connection is a number; `fails` says of a
-- connection that writing to it raises.
pub mod Broadcast
use observer_pattern.Prelude.{
  ℕ, zero, suc, ◌+◌, Bool, true, false, Option, none, some, List, [], ◌∷◌, ◌++◌, if◌then◌else◌,
  ◌==◌, Text, nat_eq,
}
use observer_pattern.Types.{Message}
use observer_pattern.Transport.Memory.{remove_first}
use observer_pattern.Transport.Tcp.Framing.{Bytes, Socket, send_msg}
use observer_pattern.Transport.Tcp.Peer.{Peer, clear, read_loop, elem}

pub record Server (C : Type 0) : Type 0 where
  pub running : Bool
  pub listening : Bool
  pub clients : List ℕ
  pub peer : Peer C

-- The loop of `send`, over a copy of the connections: what is written, and what remains.
unfoldable pub write_all : (ℕ → Bool) → Option Bytes → List ℕ → List ℕ → List (ℕ × Bytes) × List ℕ
write_all fails frame [] clients = ([], clients)
write_all fails none (sock ∷ socks) clients = write_all fails none socks (remove_first sock clients)
write_all fails (some bytes) (sock ∷ socks) clients =
    let (lost, left) = write_all fails (some bytes) socks (remove_first sock clients) in
    let (written, kept) = write_all fails (some bytes) socks clients in
    if fails sock then (lost, left) else ((sock, bytes) ∷ written, kept)

-- What a run of the accept loop's `accept` gives: a connection, a time-out, or an OSError.
pub data Accepted : Type 0 where
  client : ℕ → Accepted
  timed_out failed : Accepted

module _ {C : Type 0} where
  unfoldable pub start : Server C → Server C
  start s = record s { running = true; listening = true }

  unfoldable pub close : Server C → Server C
  close s = record s { running = false; clients = []; peer = clear s.peer; listening = false }

  -- `_accept_loop`, by what each `accept` gives; it ends once the server has stopped running.
  unfoldable pub accept_loop : List Accepted → Server C → Server C
  accept_loop [] s = s
  accept_loop (timed_out ∷ rest) s = if s.running then accept_loop rest s else s
  accept_loop (failed ∷ rest) s = s
  accept_loop (client sock ∷ rest) s =
      let more = accept_loop rest (record s { clients = s.clients ++ sock ∷ [] }) in
      if s.running then more else s

  module _ (serialize : Message → Bytes) where
    unfoldable pub send : (ℕ → Bool) → Message → Server C → List (ℕ × Bytes) × Server C
    send fails message s =
        let (written, left) = write_all fails (send_msg (serialize message)) s.clients s.clients in
        (written, record s { clients = left })

module _ {C : Type 0} where
  -- `finally` of `_client_loop`
  unfoldable pub drop_client : ℕ → Server C → Server C
  drop_client sock s =
      if elem sock s.clients then record s { clients = remove_first sock s.clients } else s

module _ {C E : Type 0} where
  -- `_client_loop` of the connection `sock`, over the bytes that it brings.
  unfoldable pub client_loop :
      (C → Message → Peer C × E → Bool × (Peer C × E))
      → (Bytes → Option Message)
      → List Bool
      → ℕ
      → Socket
      → Server C × E
      → Option (Server C × E)
  client_loop invoke deserialize running sock bytes (s, env) =
      elim (read_loop invoke deserialize running bytes (s.peer, env)) [
        | none ↦ none
        | some (peer, env₁) ↦ some (drop_client sock (record s { peer = peer }), env₁)
      ]
