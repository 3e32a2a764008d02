-- ===== src/Remote/Links.antt =====
-- eventforge/remote.py: each block under the lock keeps every open link owned.
use observer_pattern.Prelude.{
  ℕ, ◌<◌, ◌≡◌, refl, inl, inr, true, none, some, ◌++◌, if◌then◌else◌, ltb, ◌==◌, arith, Text,
  nat_eq, text_eq, nat_beq, Bool-cases,
}
use observer_pattern.Prelude.Keys.{text_beq, text_beq_iff}
use observer_pattern.Prelude.Dict
use observer_pattern.Prelude.Dict.{Dict}
use observer_pattern.Transport.Tcp.Peer.{elem}
use observer_pattern.Transport.Tcp.Client.{Client}
use observer_pattern.Remote.{link_peer, unlink_peer, unlink_all}
use observer_pattern.Remote.Board.{
  elem-append, elem-values, key_of_value, Board, due, due_split, due_first, due_later, IsOwned,
}

module _ {C H : Type 0} where
  pub held_lt :
      (b : Board C H)
      → IsOwned b
      → (node : Text) (n : ℕ) → Dict.get node b.0.transports ≡ some n
      → n < b.0.next_link
  held_lt b i node n g =
      let (c, l, r) = i.held_open node n g in
      elim (Bool-cases (ltb n b.0.next_link)) [
        | inl h ↦ ground arith
        | inr h ↦ absurd (cc (l, i.fresh n (ground arith)))
      ]

  pub connects-IsOwned :
      (node_id : Text) (transport : Client C) (b : Board C H)
      → transport.running ≡ true
      → IsOwned b
      → IsOwned
          ((link_peer node_id transport b.0).1, due (link_peer node_id transport b.0).0 ++ b.1)
  unfolding link_peer
  connects-IsOwned node_id transport b up i =
      let (q, todo) = b in
      let at : (node : Text)
          → Dict.get node (Dict.set node_id q.next_link (Dict.erase node_id q.transports))
            ≡ (if node_id == node then some q.next_link else Dict.get node q.transports) =
        λ node. ground (
          arith,
          Dict.get-set node_id node q.next_link (Dict.erase node_id q.transports),
          Dict.get-erase node_id node q.transports,
        ) in
      let link : (n : ℕ)
          → Dict.get n (Dict.set q.next_link transport q.links)
            ≡ (if q.next_link == n then some transport else Dict.get n q.links) =
        λ n. Dict.get-set q.next_link n transport q.links in
      let old = Dict.get node_id q.transports in
      record {
        same = λ node.
            ground (arith, at node, Dict.get-set node_id node q.next_link q.peers, i.same node);
        distinct =
            Dict.set-IsDict node_id q.next_link _
              (Dict.erase-IsDict node_id q.transports i.distinct);
        fresh = λ n h. ground (arith, link n, i.fresh n);
        held_open = λ node n g. elim (Bool-cases (text_beq node_id node)) [
          | inl c ↦ (transport, ground (arith, at node, link n), up)
          | inr c ↦
              let g' : Dict.get node q.transports ≡ some n = ground (arith, at node) in
              let (client, l, r) = i.held_open node n g' in
              (client, ground (arith, link n, held_lt b i node n g'), r)
        ];
        unique = λ node other n g h. ground (
          arith,
          at node,
          at other,
          text_beq_iff node_id node,
          text_beq_iff node_id other,
          i.unique node other n,
          held_lt b i node n,
          held_lt b i other n,
        );
        due_made = λ n h. elim (due_split n old todo h) [
          | inl g ↦ omega (arith, held_lt b i node_id n g)
          | inr e ↦ omega (arith, i.due_made n e)
        ];
        due_free = λ node n h g. elim (due_split n old todo h) [
          | inl k ↦ ground (
            arith,
            at node,
            held_lt b i node_id n k,
            i.unique node_id node n k,
            text_beq_iff node_id node,
          )
          | inr e ↦ ground (arith, at node, i.due_made n e, i.due_free node n e)
        ];
        owned = λ n client l r. elim (Bool-cases (nat_beq q.next_link n)) [
          | inl c ↦ inl (node_id, ground (arith, at node_id, text_beq_iff node_id node_id))
          | inr c ↦ elim (i.owned n client (ground (arith, link n)) r) [
            | inl (node, g) ↦ elim (Bool-cases (text_beq node_id node)) [
              | inl d ↦ inr (due_first n old todo (cc ((text_beq_iff node_id node).0 d, g)))
              | inr d ↦ inl (node, ground (arith, at node))
            ]
            | inr e ↦ inr (due_later n old todo e)
          ]
        ];
      }

  pub disconnects-IsOwned :
      (node_id : Text) (b : Board C H)
      → IsOwned b
      → IsOwned ((unlink_peer node_id b.0).1, due (unlink_peer node_id b.0).0 ++ b.1)
  unfolding unlink_peer
  disconnects-IsOwned node_id b i =
      let (q, todo) = b in
      let at : (node : Text)
          → Dict.get node (Dict.erase node_id q.transports)
            ≡ (if node_id == node then none else Dict.get node q.transports) =
        λ node. Dict.get-erase node_id node q.transports in
      let old = Dict.get node_id q.transports in
      record {
        same = λ node. ground (arith, at node, Dict.get-erase node_id node q.peers, i.same node);
        distinct = Dict.erase-IsDict node_id q.transports i.distinct;
        fresh = i.fresh;
        held_open = λ node n g. i.held_open node n (ground (arith, at node));
        unique = λ node other n g h.
            i.unique node other n (ground (arith, at node)) (ground (arith, at other));
        due_made = λ n h. elim (due_split n old todo h) [
          | inl g ↦ held_lt b i node_id n g
          | inr e ↦ i.due_made n e
        ];
        due_free = λ node n h g. elim (due_split n old todo h) [
          | inl k ↦ ground (arith, at node, i.unique node_id node n k, text_beq_iff node_id node)
          | inr e ↦ ground (arith, at node, i.due_free node n e)
        ];
        owned = λ n client l r. elim (i.owned n client l r) [
          | inl (node, g) ↦ elim (Bool-cases (text_beq node_id node)) [
            | inl d ↦ inr (due_first n old todo (cc ((text_beq_iff node_id node).0 d, g)))
            | inr d ↦ inl (node, ground (arith, at node))
          ]
          | inr e ↦ inr (due_later n old todo e)
        ];
      }

  pub unlinks-IsOwned :
      (b : Board C H) → IsOwned b → IsOwned ((unlink_all b.0).1, (unlink_all b.0).0 ++ b.1)
  unfolding unlink_all Dict.get
  unlinks-IsOwned b i =
      let (q, todo) = b in
      let all = Dict.values q.transports in
      record {
        same = λ node. refl;
        distinct = tt;
        fresh = i.fresh;
        held_open = λ node n g. absurd (cc g);
        unique = λ node other n g h. absurd (cc g);
        due_made = λ n h. elim (Bool-cases (elem n all)) [
          | inl e ↦ let (node, g) = key_of_value n q.transports i.distinct e in held_lt b i node n g
          | inr e ↦ i.due_made n (ground (arith, elem-append n all todo))
        ];
        due_free = λ node n h g. cc g;
        owned = λ n client l r. elim (i.owned n client l r) [
          | inl (node, g) ↦
              inr (ground (arith, elem-append n all todo, elem-values node n q.transports g))
          | inr e ↦ inr (ground (arith, elem-append n all todo))
        ];
      }
