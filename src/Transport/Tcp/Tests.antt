-- ===== src/Transport/Tcp/Tests.antt =====
-- eventforge/transports/tcp.py: runs at concrete inputs, and the theorems at inputs that meet their
-- hypotheses.
use observer_pattern.Prelude.{
  ℕ, ◌+◌, ◌≡◌, ◌≤◌, ◌<◌, refl, Bool, true, false, none, some, Option, List, [], ◌∷◌, take, drop,
  length, filter, ◌==◌, nat_eq, text_eq, codes,
}
use observer_pattern.Types.{Message, num}
use observer_pattern.Transport.Tcp.Framing.{
  Bytes, Socket, pack, unpack, send_msg, put_back, recv, recv_loop, recv_exact, recv_msg,
}
use observer_pattern.Transport.Tcp.Framing.RoundTrip.{flat, recv_exact_reads, recv_msg-send_msg}
use observer_pattern.Transport.Tcp.Peer.{Peer, read_loop}
use observer_pattern.Transport.Tcp.Peer.Routing.{turns, wire_of, dispatch_each, read_loop-wire_of}
use observer_pattern.Transport.Tcp.Server.{Server, send}
use observer_pattern.Transport.Tcp.Server.Broadcast.{frames, works, send_broadcasts}

framing : Unit {0}
unfolding pack unpack send_msg put_back recv recv_loop recv_exact recv_msg
framing = tt

-- Three bytes, framed, arrive in two pieces with the first byte of the next frame.
abbrev body : Bytes
body = 7 ∷ 8 ∷ 9 ∷ []

abbrev wire : Bytes
wire = 0 ∷ 0 ∷ 0 ∷ 3 ∷ 7 ∷ 8 ∷ 9 ∷ []

abbrev pieces : Socket
pieces = (0, 0 ∷ 0 ∷ []) ∷ (3, 7 ∷ 8 ∷ 9 ∷ 0 ∷ []) ∷ []

read_back : recv_msg pieces ≡ (some (some body), (0, []) ∷ [])
unfolding framing
read_back = refl

recv_exact_reads_example :
    let (answer, after) = recv_exact 5 pieces in
    (5 ≤ length (flat pieces)
      → (answer ≡ some (some (take 5 (flat pieces)))) × (flat after ≡ drop 5 (flat pieces)))
    × (length (flat pieces) < 5 → answer ≡ some none)
recv_exact_reads_example = recv_exact_reads 5 pieces

written : send_msg body ≡ some wire
unfolding framing
written = refl

recv_msg-send_msg_example :
    ((recv_msg pieces).0 ≡ some (some body))
    × (flat (recv_msg pieces).1 ≡ 0 ∷ [])
    × (length body < 4294967296)
recv_msg-send_msg_example = recv_msg-send_msg body wire (0 ∷ []) pieces refl written

-- A connection that carries numbered messages, one byte each.
abbrev numbered : ℕ → Message
numbered n = record {
  id = n;
  topic = codes "t";
  payload = num n;
  headers = [];
  timestamp = 0;
  reply_to = none;
  correlation_id = none;
}

abbrev sent : List Message
sent = numbered 1 ∷ numbered 2 ∷ []

-- The number stands for the message.
abbrev serialize : Message → Bytes
serialize m = m.id ∷ []

abbrev deserialize : Bytes → Option Message
deserialize [] = none
deserialize (n ∷ rest) = some (numbered n)

abbrev frames_sent : Bytes
frames_sent = 0 ∷ 0 ∷ 0 ∷ 1 ∷ 1 ∷ 0 ∷ 0 ∷ 0 ∷ 1 ∷ 2 ∷ []

abbrev connection : Socket
connection = (0, 0 ∷ 0 ∷ 1 ∷ 1 ∷ 0 ∷ []) ∷ (0, []) ∷ (0, 1 ∷ 2 ∷ []) ∷ []

abbrev fresh : Peer ℕ
fresh = record { subscribers = []; topic_subs = []; queues = []; uuids = 0 }

-- A callback that counts its calls.
abbrev counting : ℕ → Message → Peer ℕ × ℕ → Bool × (Peer ℕ × ℕ)
counting callback message (p, n) = (false, (p, n + 1))

frames_wire : wire_of serialize sent ≡ some frames_sent
unfolding framing
frames_wire = refl

read_loop-wire_of_example :
    read_loop counting deserialize (turns 2) connection (fresh, 0)
    ≡ some (dispatch_each counting sent (fresh, 0))
read_loop-wire_of_example =
    read_loop-wire_of counting serialize deserialize sent frames_sent connection (fresh, 0)
      (refl, (refl, tt)) frames_wire refl

-- Two connections, of which the first fails.
abbrev serving : Server ℕ
serving = record { running = true; listening = true; clients = 4 ∷ 5 ∷ []; peer = fresh }

abbrev failing : ℕ → Bool
failing sock = sock == 4

send_broadcasts_example :
    let frame = send_msg (serialize (numbered 1)) in
    let (out, after) = send serialize failing (numbered 1) serving in
    (out ≡ frames frame (filter (works failing frame) serving.clients))
    × (after.clients ≡ filter (works failing frame) serving.clients)
    × (after.peer ≡ serving.peer)
send_broadcasts_example = send_broadcasts serialize failing (numbered 1) serving
