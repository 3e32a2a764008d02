-- ===== src/Remote/Tests.antt =====
-- eventforge/remote.py: a run at a concrete input, and the theorem at an input that meets its
-- hypotheses.
use observer_pattern.Prelude.{
  ℕ, ◌≡◌, ◌⊎◌, refl, true, none, some, [], ◌∷◌, Text, codes, nat_eq, text_eq,
}
use observer_pattern.Prelude.Keys.{text_beq}
use observer_pattern.Prelude.Dict
use observer_pattern.Transport.Tcp.Client
use observer_pattern.Transport.Tcp.Client.{Client}
use observer_pattern.Transport.Tcp.Peer.{elem}
use observer_pattern.Remote.{RemoteQueue, init, link_peer, new_client}
use observer_pattern.Remote.Board.{Board, Run, here, next, connects}
use observer_pattern.Remote.Owned.{Run-Owned}

abbrev empty : RemoteQueue ℕ ℕ
empty = init (codes "node-1") none

abbrev client : Client ℕ
client = (Client.connect true new_client).1

client_up : client.running ≡ true
unfolding Client.connect
client_up = refl

-- Two connections to one node, of which the first has still to be closed.
abbrev twice : Board ℕ ℕ
twice =
    let q = (link_peer (codes "b") client empty).1 in ((link_peer (codes "b") client q).1, 0 ∷ [])

abbrev once : Board ℕ ℕ
once = ((link_peer (codes "b") client empty).1, [])

first_link : Run (empty, []) once
unfolding link_peer init Dict.get
first_link = next here (connects (codes "b") client client_up)

second_link : Run (empty, []) twice
unfolding text_beq link_peer init Dict.get Dict.set Dict.erase
second_link = next first_link (connects (codes "b") client client_up)

Run-Owned_example :
    let (q, todo) = twice in
    ((node : Text) → Dict.get node q.peers ≡ Dict.get node q.transports)
    × ((node : Text) (n : ℕ)
        → Dict.get node q.transports ≡ some n
        → (c : Client ℕ) × (Dict.get n q.links ≡ some c) × (c.running ≡ true))
    × ((node other : Text) (n : ℕ)
        → Dict.get node q.transports ≡ some n
        → Dict.get other q.transports ≡ some n
        → node ≡ other)
    × ((n : ℕ) (c : Client ℕ)
        → Dict.get n q.links ≡ some c
        → c.running ≡ true
        → ((node : Text) × (Dict.get node q.transports ≡ some n)) ⊎ (elem n todo ≡ true))
Run-Owned_example = Run-Owned (codes "node-1") none second_link
