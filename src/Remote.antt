-- ===== src/Remote.antt =====
-- eventforge/remote.py, `RemoteQueue`. The TCP links that `connect` makes are objects that
-- `_transports` and the queues of `_peers` share: they stand in `links` by number, and both dicts
-- hold the number. A peer's queue only publishes, so that it is its link; its message ids are
-- draws of one counter. Each block under `_lock` is one function; a link is closed after it. `C`
-- names the callbacks of the links, `H` the handlers of the local queue, here one over the
-- in-memory transport.
pub mod Board
pub mod Links
pub mod Owned
mod Tests
use observer_pattern.Prelude.{
  ℕ, suc, Bool, true, false, Option, none, some, List, [], ◌∷◌, if◌then◌else◌, Text, nat_eq,
  text_eq,
}
use observer_pattern.Prelude.Dict
use observer_pattern.Prelude.Dict.{Dict}
use observer_pattern.Types.{Value, Headers, Message, Result, ok, err, key_error, runtime_error}
use observer_pattern.Transport.Tcp.Framing.{Bytes}
use observer_pattern.Transport.Tcp.Peer
use observer_pattern.Transport.Tcp.Client
use observer_pattern.Transport.Tcp.Client.{Client}
use observer_pattern.Queue
use observer_pattern.Queue.{MessageQueue, message_of}

pub record RemoteQueue (C H : Type 0) : Type 0 where
  pub node_id : Text
  pub local_queue : Option (MessageQueue H)
  pub peers : Dict Text ℕ
  pub transports : Dict Text ℕ
  pub links : Dict ℕ (Client C)
  pub next_link : ℕ
  pub uuids : ℕ

-- `TCPClientTransport(host, port)`
abbrev pub new_client : {C : Type 0} → Client C
new_client = record { running = false; connected = false; peer = Peer.init }

abbrev pub close_local : {H : Type 0} → Option (MessageQueue H) → Option (MessageQueue H)
close_local none = none
close_local (some l) = some (Queue.close l)

module _ {C H : Type 0} where
  unfoldable pub init : Text → Option (MessageQueue H) → RemoteQueue C H
  init node_id local_queue = record {
    node_id = node_id;
    local_queue = local_queue;
    peers = [];
    transports = [];
    links = [];
    next_link = 0;
    uuids = 0;
  }

  unfoldable pub peer_ids : RemoteQueue C H → List Text
  peer_ids q = Dict.keys q.peers

  -- The block of `connect`: the new link takes the place of the old one, which is handed out.
  unfoldable pub link_peer : Text → Client C → RemoteQueue C H → Option ℕ × RemoteQueue C H
  link_peer node_id transport q = (
    Dict.get node_id q.transports,
    record q {
      links = Dict.set q.next_link transport q.links;
      next_link = suc q.next_link;
      transports = Dict.set node_id q.next_link (Dict.erase node_id q.transports);
      peers = Dict.set node_id q.next_link q.peers;
    },
  )

  -- The block of `disconnect`
  unfoldable pub unlink_peer : Text → RemoteQueue C H → Option ℕ × RemoteQueue C H
  unlink_peer node_id q = (
    Dict.get node_id q.transports,
    record q { peers = Dict.erase node_id q.peers; transports = Dict.erase node_id q.transports },
  )

  -- `transport.close()`
  unfoldable pub close_link : ℕ → RemoteQueue C H → RemoteQueue C H
  close_link n q = elim (Dict.get n q.links) [
    | none ↦ q
    | some transport ↦ record q { links = Dict.set n (Client.close transport) q.links }
  ]

  abbrev close_old : Option ℕ → RemoteQueue C H → RemoteQueue C H
  close_old none q = q
  close_old (some n) q = close_link n q

  -- `connect`, by whether the server is reached
  unfoldable pub connect : Bool → Text → RemoteQueue C H → Result (Unit {0}) × RemoteQueue C H
  connect reached node_id q =
      let (r, transport) = Client.connect reached new_client in
      elim r [
        | err e ↦ (err e, q)
        | ok u ↦ let (old, q₁) = link_peer node_id transport q in (ok u, close_old old q₁)
      ]

  unfoldable pub disconnect : Text → RemoteQueue C H → Bool × RemoteQueue C H
  disconnect node_id q =
      let (transport, q₁) = unlink_peer node_id q in
      elim transport [ none ↦ (false, q₁) | some n ↦ (true, close_link n q₁) ]

  -- The block of `close`
  unfoldable pub unlink_all : RemoteQueue C H → List ℕ × RemoteQueue C H
  unlink_all q = (Dict.values q.transports, record q { transports = []; peers = [] })

  unfoldable pub close_links : List ℕ → RemoteQueue C H → RemoteQueue C H
  close_links [] q = q
  close_links (n ∷ ns) q = close_links ns (close_link n q)

  unfoldable pub close : RemoteQueue C H → RemoteQueue C H
  close q =
      let (ns, q₁) = unlink_all q in
      let q₂ = close_links ns q₁ in record q₂ { local_queue = close_local q₂.local_queue }

  -- `subscribe`, with `_require_local`
  unfoldable pub subscribe : Text → H → RemoteQueue C H → Result ℕ × RemoteQueue C H
  subscribe topic handler q = elim q.local_queue [
    | none ↦ (err runtime_error, q)
    | some l ↦
        let (r, l₁) = Queue.subscribe topic handler l in (r, record q { local_queue = some l₁ })
  ]

  -- Publishing goes through the links, whose writes may fail: `broken` says for which.
  module _ (serialize : Message → Bytes) (broken : ℕ → Bool) (now : ℕ) where
    -- `peer.publish(topic, payload, **headers)`: the id of the message, and what is written.
    unfoldable pub publish_to :
        ℕ → Text → Value → Headers → RemoteQueue C H → Result (ℕ × Bytes) × RemoteQueue C H
    publish_to n topic payload headers q =
        let message = message_of now q.uuids topic payload headers none none in
        let q₁ : RemoteQueue C H = record q { uuids = suc q.uuids } in
        let r : Result Bytes = elim (Dict.get n q.links) [
          | none ↦ err key_error
          | some transport ↦ Client.send serialize (broken n) message transport
        ] in
        (elim r [ err e ↦ err e | ok frame ↦ ok (q.uuids, frame) ], q₁)

    unfoldable pub send :
        Text → Text → Value → Headers → RemoteQueue C H → Result (ℕ × Bytes) × RemoteQueue C H
    send node_id topic payload headers q = elim (Dict.get node_id q.peers) [
      | none ↦ (err key_error, q)
      | some n ↦ publish_to n topic payload headers q
    ]

    -- The comprehension of `broadcast`: the ids so far, and what has been written to which link.
    -- The first failure ends it.
    unfoldable pub publish_all :
        Text
        → Value
        → Headers
        → Dict Text ℕ
        → RemoteQueue C H
        → Result (Dict Text ℕ) × List (ℕ × Bytes) × RemoteQueue C H
    publish_all topic payload headers [] q = (ok [], [], q)
    publish_all topic payload headers ((node_id, n) ∷ peers) q =
        let (r, q₁) = publish_to n topic payload headers q in
        let (ids, written, q₂) = publish_all topic payload headers peers q₁ in
        elim r [
          | err e ↦ (err e, [], q₁)
          | ok sent ↦ (
            elim ids [ err e ↦ err e | ok l ↦ ok ((node_id, sent.0) ∷ l) ],
            (n, sent.1) ∷ written,
            q₂,
          )
        ]

    unfoldable pub broadcast :
        Text
        → Value
        → Headers
        → RemoteQueue C H
        → Result (Dict Text ℕ) × List (ℕ × Bytes) × RemoteQueue C H
    broadcast topic payload headers q = publish_all topic payload headers q.peers q
