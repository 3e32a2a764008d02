-- ===== src/Remote/Owned.antt =====
-- eventforge/remote.py: who owns a TCP link while threads connect, disconnect and close.
use observer_pattern.Prelude.{
  ℕ, ◌≡◌, ◌⊎◌, refl, ◌∙◌, inl, inr, true, Option, some, [], if◌then◌else◌, ◌==◌, arith, Text,
  nat_eq, text_eq, nat_beq, nat_beq_iff, Bool-cases, Option-cases,
}
use observer_pattern.Prelude.Dict
use observer_pattern.Prelude.Dict.{Dict}
use observer_pattern.Transport.Memory.{remove_first}
use observer_pattern.Transport.Tcp.Peer.{elem}
use observer_pattern.Transport.Tcp.Client
use observer_pattern.Transport.Tcp.Client.{Client}
use observer_pattern.Queue.{MessageQueue}
use observer_pattern.Remote.{init, close_link}
use observer_pattern.Remote.Board.{
  elem-remove_first, elem_of_remove_first, Board, Section, connects, disconnects, unlinks, closes,
  serves, Run, here, next, IsOwned,
}
use observer_pattern.Remote.Links.{connects-IsOwned, disconnects-IsOwned, unlinks-IsOwned}

module _ {C H : Type 0} where
  closes-IsOwned :
      (n : ℕ) (b : Board C H)
      → elem n b.1 ≡ true
      → IsOwned b
      → IsOwned (close_link n b.0, remove_first n b.1)
  unfolding close_link Client.close
  closes-IsOwned n b due_now i = elim (Option-cases (Dict.get n b.0.links)) [
    | inl absent ↦
        rw (absent, close_link)
          (record {
            same = i.same;
            distinct = i.distinct;
            fresh = i.fresh;
            held_open = i.held_open;
            unique = i.unique;
            due_made = λ m h. i.due_made m (elem_of_remove_first m n b.1 h);
            due_free = λ node m h. i.due_free node m (elem_of_remove_first m n b.1 h);
            owned = λ m client l r. elim (i.owned m client l r) [
              | inl h ↦ inl h
              | inr e ↦ inr (elem-remove_first m n b.1 (λ (q : m ≡ n). cc (q, l, absent)) ∙ e)
            ];
          })
    | inr (c, there) ↦
        let (q, todo) = b in
        let link : (m : ℕ)
            → Dict.get m (Dict.set n (Client.close c) q.links)
              ≡ (if n == m then some (Client.close c) else Dict.get m q.links) =
          λ m. Dict.get-set n m (Client.close c) q.links in
        rw (there, close_link)
          (record {
            same = i.same;
            distinct = i.distinct;
            fresh = λ m h. ground (arith, link m, i.fresh m h, there, nat_beq_iff n m);
            held_open = λ node m g.
                let (client, l, r) = i.held_open node m g in
                (client, ground (arith, link m, i.due_free node n due_now, nat_beq_iff n m), r);
            unique = i.unique;
            due_made = λ m h. i.due_made m (elem_of_remove_first m n todo h);
            due_free = λ node m h. i.due_free node m (elem_of_remove_first m n todo h);
            owned = λ m client l r. elim (Bool-cases (nat_beq n m)) [
              | inl d ↦ absurd (ground (arith, link m))
              | inr d ↦ elim (i.owned m client (ground (arith, link m)) r) [
                | inl h ↦ inl h
                | inr e ↦ inr (elem-remove_first m n todo (λ (p : m ≡ n). ground arith) ∙ e)
              ]
            ];
          })
  ]

  Section-IsOwned : {b c : Board C H} → Section b c → IsOwned b → IsOwned c
  Section-IsOwned (connects node_id transport up) i = connects-IsOwned node_id transport _ up i
  Section-IsOwned (disconnects node_id) i = disconnects-IsOwned node_id _ i
  Section-IsOwned unlinks i = unlinks-IsOwned _ i
  Section-IsOwned (closes n h) i = closes-IsOwned n _ h i
  Section-IsOwned (serves uuids local_queue) i = record {
    same = i.same;
    distinct = i.distinct;
    fresh = i.fresh;
    held_open = i.held_open;
    unique = i.unique;
    due_made = i.due_made;
    due_free = i.due_free;
    owned = i.owned;
  }

  init-IsOwned :
      (node_id : Text) (l : Option (MessageQueue H)) → IsOwned {C = C} (init node_id l, [])
  unfolding init Dict.get elem
  init-IsOwned node_id l = record {
    same = λ node. refl;
    distinct = tt;
    fresh = λ n h. refl;
    held_open = λ node n g. absurd (cc g);
    unique = λ node other n g h. absurd (cc g);
    due_made = λ n h. absurd (cc h);
    due_free = λ node n h. absurd (cc h);
    owned = λ n c l r. absurd (cc l);
  }

  Run-IsOwned : {b c : Board C H} → Run b c → IsOwned b → IsOwned c
  Run-IsOwned here i = i
  Run-IsOwned (next r s) i = Section-IsOwned s (Run-IsOwned r i)

  -- However the blocks of `connect`, `disconnect` and `close` interleave with the closing of the
  -- links that they hand out: a node has a peer queue exactly if it has a transport, over the same
  -- link; that link is open and no other node's; and a link that is still open belongs to a node
  -- or will be closed by the thread that took it out.
  pub Run-Owned :
      (node_id : Text) (l : Option (MessageQueue H)) {b : Board C H}
      → Run (init node_id l, []) b
      → let (q, todo) = b in
        ((node : Text) → Dict.get node q.peers ≡ Dict.get node q.transports)
        × ((node : Text) (n : ℕ)
            → Dict.get node q.transports ≡ some n
            → (c : Client C) × (Dict.get n q.links ≡ some c) × (c.running ≡ true))
        × ((node other : Text) (n : ℕ)
            → Dict.get node q.transports ≡ some n
            → Dict.get other q.transports ≡ some n
            → node ≡ other)
        × ((n : ℕ) (c : Client C)
            → Dict.get n q.links ≡ some c
            → c.running ≡ true
            → ((node : Text) × (Dict.get node q.transports ≡ some n)) ⊎ (elem n todo ≡ true))
  Run-Owned node_id l r =
      let i = Run-IsOwned r (init-IsOwned node_id l) in (i.same, i.held_open, i.unique, i.owned)
