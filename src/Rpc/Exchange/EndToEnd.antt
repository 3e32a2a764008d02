-- ===== src/Rpc/Exchange/EndToEnd.antt =====
-- eventforge/rpc.py and eventforge/queue.py: a call, from the client to the method and back.
use observer_pattern.Prelude.{
  List, sym, subst, Bool, ℕ, suc, ◌≡◌, refl, ap, ◌∙◌, inl, inr, Option, none, some, [], ◌++◌, Text,
  codes, nat_eq, text_eq, Option-cases,
}
use observer_pattern.Prelude.Dict
use observer_pattern.Prelude.Dict.{Dict}
use observer_pattern.Types.{Value, Message, Result, ok}
use observer_pattern.Transport.Patterns.Wildcards.{
  IsPlain, memory_matches_plain, memory_matches_self,
}
use observer_pattern.Transport.Memory
use observer_pattern.Transport.Memory.{put_nowait, MemoryTransport, queue_of}
use observer_pattern.Transport.Memory.Delivery.{enqueued}
use observer_pattern.Observers.Channel.{Eventful}
use observer_pattern.Queue.{relay, message_of}
use observer_pattern.Rpc.Server.{
  RpcRequest, RpcResponse, RpcServer, reply_with, respond, drawn, handle_request,
}
use observer_pattern.Rpc.Client.{Answer, finish_call, reply_topic, request_topic}
use observer_pattern.Rpc.Client.Call.{seen, performed, finish_call-reply}
use observer_pattern.Rpc.Exchange.{
  Handler, handles_request, publish_reply, handle, Site, request_message, call, await_reply,
}
use observer_pattern.Rpc.Exchange.Served.{
  Serves, request_topic-IsPlain, reply_topic_ne, HasRoom-empty, send_unheard, stored, send_served,
  relay_one,
}
use observer_pattern.Rpc.Exchange.Ends.{CallEnds, ends}

module _ {E : Type 0} (decode : Value → Option RpcRequest) (invalid : Text)
    (dump : RpcResponse → Value) (validate : Value → Option RpcResponse)
    (validates : (r : RpcResponse) → validate (dump r) ≡ some r) (now : ℕ) (service id_text : Text)
    (msg : Message) (request : RpcRequest) (decodes : decode msg.payload ≡ some request)
    (asked : msg.reply_to ≡ some (reply_topic id_text)) where
  handled :
      (s : RpcServer E) (env : E)
      → let (outcome, env₁) = performed (Dict.get request.method s.methods) request env in
        (s₁ : RpcServer E) × (n : ℕ) × (handle_request decode invalid msg (s, env)
          ≡ (some (reply_topic id_text, respond n request.request_id outcome), (s₁, env₁)))
  unfolding handle_request reply_with reply_topic drawn
  handled s env = elim (Option-cases (Dict.get request.method s.methods)) [
    | inl q ↦
        rw (q, performed)
          (record s { uuids = suc s.uuids }, s.uuids, rw (decodes, handle_request, q, asked) refl)
    | inr (method, q) ↦
        rw (q, performed)
          (record s { uuids = suc s.uuids }, s.uuids, rw (decodes, handle_request, q, asked) refl)
  ]

  answered :
      (depth : ℕ) (t : MemoryTransport Text) (topics : Dict Text (Eventful Handler))
      (s : RpcServer E) (env : E)
      → IsPlain service
      → Serves service t topics
      → queue_of (reply_topic id_text) t ≡ []
      → let (outcome, env₁) = performed (Dict.get request.method s.methods) request env in
        (m : Message) × (s₁ : RpcServer E) × (m.topic ≡ reply_topic id_text)
        × (finish_call validate (some m.payload) ≡ seen outcome)
        × (handle decode invalid dump now (suc depth) handles_request msg (t, (topics, (s, env)))
            ≡ (ok tt, (enqueued m t, (topics, (s₁, env₁)))))
  unfolding handle reply_topic reply_with
  answered depth t topics s env plain v empty =
      let (s₁, n, e) = handled s env in
      let (outcome, env₁) = performed (Dict.get request.method s.methods) request env in
      let m : Message =
        message_of now s₁.uuids (reply_topic id_text) (dump (respond n request.request_id outcome))
          [] none none in
      let s₂ : RpcServer E = record s₁ { uuids = suc s₁.uuids } in
      (
        m,
        s₂,
        refl,
        finish_call-reply dump validate validates b'_' (codes "rpc_reply." ++ id_text) n
            request.request_id outcome,
        ap
              (λ x.
                publish_reply decode invalid dump now (handle decode invalid dump now depth) x.0
                  (t, (topics, x.1)))
              e
            ∙ send_unheard service (relay (handle decode invalid dump now depth)) m t topics
                (s₂, env₁) v
                (memory_matches_plain (reply_topic id_text) (request_topic service)
                  (request_topic-IsPlain service plain) (reply_topic_ne service id_text plain))
                (HasRoom-empty (reply_topic id_text) t empty),
      )

module _ {E : Type 0} (decode : Value → Option RpcRequest) (invalid : Text)
    (dump : RpcResponse → Value) (validate : Value → Option RpcResponse)
    (validates : (r : RpcResponse) → validate (dump r) ≡ some r) (now : ℕ) where
  -- If only the server listens on the queue and its service's name has none of *?[_, then on an
  -- open transport a call whose reply topic is empty runs the registered method once, within its
  -- `send`, and leaves the channels as they are. If the request's own queue has room, the call
  -- answers what the method did, whatever others do meanwhile, and the request stays in that
  -- queue, which nobody reads; if it is full, the call raises "transport full" though the method
  -- ran, and the reply stays in its queue.
  pub call_served :
      (service id_text : Text) (message_id id : ℕ) (payload : Value) (request : RpcRequest)
      (depth : ℕ) (waits : List (Site E → Site E)) (t : MemoryTransport Text)
      (topics : Dict Text (Eventful Handler)) (s : RpcServer E) (env : E)
      → IsPlain service
      → Serves service t topics
      → queue_of (reply_topic id_text) t ≡ []
      → decode payload ≡ some request
      → let (outcome, env₁) = performed (Dict.get request.method s.methods) request env in
        let msg = request_message now service message_id id id_text payload in
        let (r, (t₁, (topics₁, (_, env₂)))) =
          call decode invalid dump now validate
            (suc depth)
            msg
            id_text
            waits
            (t, (topics, (s, env))) in
        CallEnds Text msg (reply_topic id_text) (seen outcome) t r t₁
        × (topics₁ ≡ topics)
        × (env₂ ≡ env₁)
  unfolding call
  call_served service id_text message_id id payload request depth waits t topics s env plain v empty
        decodes =
      let msg : Message = request_message now service message_id id id_text payload in
      let invoke : Text → Message → Site E → Bool × Site E =
        relay (handle decode invalid dump now (suc depth)) in
      let env₁ : E = (performed (Dict.get request.method s.methods) request env).1 in
      let (m, s₁, addressed, answers, e) =
        answered decode invalid dump validate validates now service id_text msg request decodes refl
          depth t topics s env plain v empty in
      let rest : Dict Text (Eventful Handler) × (RpcServer E × E) = (topics, (s₁, env₁)) in
      let sent : Memory.send invoke msg (t, (topics, (s, env))) ≡ stored msg (enqueued m t, rest) =
        send_served service invoke msg t topics (s, env) v
        ∙ rw (memory_matches_self (request_topic service)) (
            ap (λ x. stored msg x.1)
              (relay_one (handle decode invalid dump now (suc depth)) service msg t topics (s, env)
                (enqueued m t, rest) v e)) in
      let (over, same) =
        ends validate id_text waits msg m t rest addressed (reply_topic_ne service id_text plain)
          v.is_open empty in
      let done : Result Answer × Site E =
        await_reply validate id_text waits (stored msg (enqueued m t, rest)) in
      subst {A = Result (Unit {0}) × Site E}
        (λ x.
          let (r, (t₁, (topics₁, (_, env₂)))) = await_reply validate id_text waits x in
          CallEnds Text msg (reply_topic id_text)
            (seen (performed (Dict.get request.method s.methods) request env).0) t r t₁
          × (topics₁ ≡ topics)
          × (env₂ ≡ env₁))
        (sym sent)
        (
          subst (λ answer. CallEnds Text msg (reply_topic id_text) answer t done.0 done.1.0) answers
              over,
          ap (λ r. r.0) same,
          ap (λ r. r.1.1) same,
        )
