-- ===== src/Remote/Board.antt =====
-- eventforge/remote.py: how threads share the TCP links, block by block under the lock.
use observer_pattern.Prelude.{
  ℕ, ◌≤◌, ◌<◌, ◌≡◌, ◌≢◌, ◌⊎◌, refl, ap, inl, inr, Eq, true, ◌||◌, Option, none, some, List, [], ◌∷◌,
  ◌++◌, ◌==◌, ==_refl, arith, Text, nat_eq, text_eq, nat_beq, nat_beq_iff, Bool-cases,
}
use observer_pattern.Prelude.Dict
use observer_pattern.Prelude.Dict.{Dict}
use observer_pattern.Transport.Memory.{remove_first}
use observer_pattern.Transport.Tcp.Peer.{elem}
use observer_pattern.Transport.Tcp.Client.{Client}
use observer_pattern.Queue.{MessageQueue}
use observer_pattern.Remote.{RemoteQueue, link_peer, unlink_peer, unlink_all, close_link}

pub elem-append : (x : ℕ) (k l : List ℕ) → elem x (k ++ l) ≡ (elem x k || elem x l)
unfolding elem
elem-append x [] l = refl
elem-append x (y ∷ k) l = ground (arith, elem-append x k l)

pub elem-remove_first : (x y : ℕ) (l : List ℕ) → x ≢ y → elem x (remove_first y l) ≡ elem x l
unfolding elem remove_first
elem-remove_first x y [] n = refl
elem-remove_first x y (z ∷ l) n = ground (arith, elem-remove_first x y l n)

pub elem_of_remove_first :
    (x y : ℕ) (l : List ℕ) → elem x (remove_first y l) ≡ true → elem x l ≡ true
unfolding elem remove_first
elem_of_remove_first x y [] h = h
elem_of_remove_first x y (z ∷ l) h = ground (arith, elem_of_remove_first x y l)

module _ {K : Type 0} ⦃e : Eq K⦄ where
  pub elem-values :
      (k : K) (x : ℕ) (d : Dict K ℕ) → Dict.get k d ≡ some x → elem x (Dict.values d) ≡ true
  unfolding elem Dict.get
  elem-values k x [] h = absurd (cc h)
  elem-values k x ((j, y) ∷ d) h = ground (arith, elem-values k x d)

  pub key_of_value :
      (x : ℕ) (d : Dict K ℕ)
      → Dict.IsDict d
      → elem x (Dict.values d) ≡ true
      → (k : K) × (Dict.get k d ≡ some x)
  unfolding elem Dict.get
  key_of_value x [] i h = absurd (cc h)
  key_of_value x ((j, y) ∷ d) i h = elim (Bool-cases (nat_beq y x)) [
    | inl b ↦ (j, ground (arith, ==_refl j))
    | inr b ↦
        let (k, g) = key_of_value x d i.1 (ground arith) in
        elim (Bool-cases (j == k)) [
          | inl c ↦ absurd (ground (arith, e.beq_iff j k))
          | inr c ↦ (k, rw c g)
        ]
  ]

-- A switchboard, and the links that some thread has taken out of it and has still to close.
abbrev pub Board : Type 0 → Type 0 → Type 0
Board C H = RemoteQueue C H × List ℕ

abbrev pub due : Option ℕ → List ℕ
due none = []
due (some n) = n ∷ []

pub due_split :
    (x : ℕ) (o : Option ℕ) (l : List ℕ)
    → elem x (due o ++ l) ≡ true
    → (o ≡ some x) ⊎ (elem x l ≡ true)
unfolding elem
due_split x none l h = inr h
due_split x (some n) l h = elim (Bool-cases (nat_beq n x)) [
  | inl b ↦ inl (ap some ((nat_beq_iff n x).0 b))
  | inr b ↦ inr (ground arith)
]

pub due_first : (x : ℕ) (o : Option ℕ) (l : List ℕ) → o ≡ some x → elem x (due o ++ l) ≡ true
unfolding elem
due_first x none l h = absurd (cc h)
due_first x (some n) l h = ground arith

pub due_later : (x : ℕ) (o : Option ℕ) (l : List ℕ) → elem x l ≡ true → elem x (due o ++ l) ≡ true
unfolding elem
due_later x none l h = h
due_later x (some n) l h = ground arith

module _ {C H : Type 0} where
  -- One block of one thread: those of `connect` (once its link is up), `disconnect` and `close`,
  -- and the closing of a link outside the lock. What publishes or subscribes leaves the links
  -- alone.
  pub data Section (b : Board C H) : Board C H → Type 0 where
    connects :
        (node_id : Text) (transport : Client C)
        → transport.running ≡ true
        → Section b
            ((link_peer node_id transport b.0).1, due (link_peer node_id transport b.0).0 ++ b.1)
    disconnects :
        (node_id : Text)
        → Section b ((unlink_peer node_id b.0).1, due (unlink_peer node_id b.0).0 ++ b.1)
    unlinks : Section b ((unlink_all b.0).1, (unlink_all b.0).0 ++ b.1)
    closes : (n : ℕ) → elem n b.1 ≡ true → Section b (close_link n b.0, remove_first n b.1)
    serves :
        (uuids : ℕ) (local_queue : Option (MessageQueue H))
        → Section b (record b.0 { uuids = uuids; local_queue = local_queue }, b.1)

  pub data Run (b : Board C H) : Board C H → Type 0 where
    here : Run b b
    next : {c d : Board C H} → Run b c → Section c d → Run b d

  pub record IsOwned (b : Board C H) : Type 0 where
    pub same : (node : Text) → Dict.get node b.0.peers ≡ Dict.get node b.0.transports
    pub distinct : Dict.IsDict b.0.transports
    pub fresh : (n : ℕ) → b.0.next_link ≤ n → Dict.get n b.0.links ≡ none
    pub held_open :
        (node : Text) (n : ℕ)
        → Dict.get node b.0.transports ≡ some n
        → (c : Client C) × (Dict.get n b.0.links ≡ some c) × (c.running ≡ true)
    pub unique :
        (node other : Text) (n : ℕ)
        → Dict.get node b.0.transports ≡ some n
        → Dict.get other b.0.transports ≡ some n
        → node ≡ other
    pub due_made : (n : ℕ) → elem n b.1 ≡ true → n < b.0.next_link
    pub due_free : (node : Text) (n : ℕ) → elem n b.1 ≡ true → Dict.get node b.0.transports ≢ some n
    pub owned :
        (n : ℕ) (c : Client C)
        → Dict.get n b.0.links ≡ some c
        → c.running ≡ true
        → ((node : Text) × (Dict.get node b.0.transports ≡ some n)) ⊎ (elem n b.1 ≡ true)
