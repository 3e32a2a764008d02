-- ===== src/Rpc/Exchange/Ends.antt =====
-- eventforge/rpc.py over eventforge/transports/memory.py: the end of a call whose reply is queued.
use observer_pattern.Prelude.{
  ◌<◌, ◌≤◌, ◌≢◌, List, ◌∷◌, length, sym, subst, false, ◌≡◌, refl, ap, ◌∙◌, inl, inr, Option, some,
  [], ◌++◌, Text, nat_eq, text_eq,
}
use mathlib.Core.Option
use observer_pattern.Prelude.Dict.{Dict}
use observer_pattern.Types.{Value, Message, Result, ok, err, transport_full}
use observer_pattern.Transport.Memory.{MemoryTransport, queue_of}
use observer_pattern.Transport.Memory.Delivery.{
  enqueued, HasRoom, put_nowait-Stored, queue_of-set, queue_of-set_ne, receive_first,
}
use observer_pattern.Observers.Channel.{Eventful}
use observer_pattern.Rpc.Server.{RpcResponse, RpcServer}
use observer_pattern.Rpc.Client.{Answer, finish_call, reply_topic}
use observer_pattern.Rpc.Exchange.{Handler, Site, await_reply}
use observer_pattern.Rpc.Exchange.Served.{stored}

-- How a call ends, `rest` being the channels and the server: with the reply read and the request
-- left in its queue, or, where that is full, with the reply left in the queue that nobody reads.
pub data CallEnds (C : Type 0) (msg : Message) (reply : Text) (answer : Answer)
    (t : MemoryTransport C) : Result Answer → MemoryTransport C → Type 0 where
  read :
      {t₁ : MemoryTransport C}
      → HasRoom msg.topic t
      → queue_of msg.topic t₁ ≡ queue_of msg.topic t ++ msg ∷ []
      → queue_of reply t₁ ≡ []
      → CallEnds C msg reply answer t (ok answer) t₁
  left :
      {t₁ : MemoryTransport C}
      → 0 < t.max_queue_size
      → t.max_queue_size ≤ length (queue_of msg.topic t)
      → queue_of msg.topic t₁ ≡ queue_of msg.topic t
      → length (queue_of reply t₁) ≡ 1
      → CallEnds C msg reply answer t (err transport_full) t₁

module _ {E : Type 0} (validate : Value → Option RpcResponse) (id_text : Text)
    (waits : List (Site E → Site E)) (msg m : Message) (t : MemoryTransport Text)
    (rest : Dict Text (Eventful Handler) × (RpcServer E × E))
    (addressed : m.topic ≡ reply_topic id_text) (apart : msg.topic ≢ reply_topic id_text)
    (is_open : t.closed ≡ false) (empty : queue_of (reply_topic id_text) t ≡ []) where
  reply_waits : queue_of (reply_topic id_text) (enqueued m t) ≡ m ∷ []
  reply_waits =
      subst (λ topic. queue_of topic (enqueued m t) ≡ m ∷ []) addressed
        (queue_of-set m.topic (queue_of m.topic t ++ m ∷ []) t
          ∙ ap (λ q. q ++ m ∷ []) (subst (λ topic. queue_of topic t ≡ []) (sym addressed) empty))

  request_waits : queue_of msg.topic (enqueued m t) ≡ queue_of msg.topic t
  request_waits =
      queue_of-set_ne m.topic msg.topic (queue_of m.topic t ++ m ∷ []) t
        (λ e. apart (sym e ∙ addressed))

  abbrev pub Ends : Result Answer × Site E → Type 0
  Ends (r, (t₁, rest₁)) =
      CallEnds Text msg (reply_topic id_text) (finish_call validate (some m.payload)) t r t₁
      × (rest₁ ≡ rest)

  room_before : HasRoom msg.topic (enqueued m t) → HasRoom msg.topic t
  room_before (inl unbounded) = inl unbounded
  room_before (inr below) = inr (subst (λ q. length q < t.max_queue_size) request_waits below)

  read_reply :
      HasRoom msg.topic t
      → Ends (await_reply validate id_text waits (ok tt, (enqueued msg (enqueued m t), rest)))
  read_reply room =
      let reply : Text = reply_topic id_text in
      let t₁ : MemoryTransport Text = enqueued m t in
      let q : List Message = queue_of msg.topic t₁ ++ msg ∷ [] in
      let t₂ : MemoryTransport Text = enqueued msg t₁ in
      subst {A = Option Message × Site E}
        (λ x. Ends (ok (finish_call validate (Option.map (λ m. m.payload) x.0)), x.1))
        (sym (
          receive_first reply waits m [] t₂ rest is_open
            (queue_of-set_ne msg.topic reply q t₁ apart ∙ reply_waits)))
        (
          read room
              (queue_of-set_ne reply msg.topic [] t₂ (λ e. apart (sym e))
                ∙ queue_of-set msg.topic q t₁
                ∙ ap (λ l. l ++ msg ∷ []) request_waits)
              (queue_of-set reply [] t₂),
          refl,
        )

  pub ends : Ends (await_reply validate id_text waits (stored msg (enqueued m t, rest)))
  ends = elim (put_nowait-Stored msg (enqueued m t)) [
    | inl (room, q) ↦
        subst {A = Result (Unit {0}) × MemoryTransport Text}
          (λ x. Ends (await_reply validate id_text waits (x.0, (x.1, rest)))) (sym q)
          (read_reply (room_before room))
    | inr (pos, full, q) ↦
        subst {A = Result (Unit {0}) × MemoryTransport Text}
          (λ x. Ends (await_reply validate id_text waits (x.0, (x.1, rest)))) (sym q)
          (
            left pos (subst (λ q. t.max_queue_size ≤ length q) request_waits full) request_waits
                (ap length reply_waits),
            refl,
          )
  ]
