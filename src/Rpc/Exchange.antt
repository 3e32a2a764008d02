-- ===== src/Rpc/Exchange.antt =====
-- eventforge/rpc.py over eventforge/queue.py: a client and a server on one queue over the
-- in-memory transport. The server's `_handle_request` subscribes to the request topic and
-- publishes its answer from within the call; the number says how deep handlers may nest. `decode`,
-- `validate` and `dump` are pydantic's, `invalid` the text of its validation error, `now` the
-- clock's reading.
pub mod Served
pub mod Ends
pub mod EndToEnd
use observer_pattern.Prelude.{ℕ, zero, suc, Bool, Option, none, some, List, [], ◌∷◌, Text, text_eq}
use mathlib.Core.Option
use observer_pattern.Prelude.Dict.{Dict}
use observer_pattern.Types.{Value, Message, Result, ok, err}
use observer_pattern.Transport.Memory
use observer_pattern.Transport.Memory.{World}
use observer_pattern.Observers.Channel.{Eventful}
use observer_pattern.Queue.{relay, message_of}
use observer_pattern.Rpc.Server.{RpcRequest, RpcResponse, RpcServer, Reply, handle_request}
use observer_pattern.Rpc.Client.{Answer, finish_call, reply_topic, request_topic}

-- The handlers of the queue: a server's `_handle_request`.
pub data Handler : Type 0 where
  handles_request : Handler

-- The transport, the channels, the server and what its methods change.
abbrev pub Site : Type 0 → Type 0
Site E = World Text (Dict Text (Eventful Handler) × (RpcServer E × E))

-- The message that `call` sends; `id` and `id_text` are the request's id.
abbrev pub request_message : ℕ → Text → ℕ → ℕ → Text → Value → Message
request_message now service message_id id id_text payload = record {
  id = message_id;
  topic = request_topic service;
  payload = payload;
  headers = [];
  timestamp = now;
  reply_to = some (reply_topic id_text);
  correlation_id = some id;
}

-- `RPCClient.call` from its `send` on, by what that answered.
abbrev pub await_reply :
    {E : Type 0}
    → (Value → Option RpcResponse)
    → Text
    → List (Site E → Site E)
    → Result (Unit {0}) × Site E
    → Result Answer × Site E
await_reply validate id_text waits (err e, site) = (err e, site)
await_reply validate id_text waits (ok u, site) =
    let (found, site₁) = Memory.receive (reply_topic id_text) waits site in
    (ok (finish_call validate (Option.map (λ m. m.payload) found)), site₁)

module _ {E : Type 0} (decode : Value → Option RpcRequest) (invalid : Text)
    (dump : RpcResponse → Value) (now : ℕ) where
  -- The server publishes a reply, with an id of its own.
  abbrev pub publish_reply :
      (Handler → Message → Site E → Result (Unit {0}) × Site E)
      → Reply
      → Site E
      → Result (Unit {0}) × Site E
  publish_reply handle none site = (ok tt, site)
  publish_reply handle (some (topic, response)) (t, (topics, (s, env))) =
      Memory.send (relay handle) (message_of now s.uuids topic (dump response) [] none none)
        (t, (topics, (record s { uuids = suc s.uuids }, env)))

  -- `_handle_request`, as a handler of the queue
  unfoldable pub handle : ℕ → Handler → Message → Site E → Result (Unit {0}) × Site E
  handle zero h msg site = (ok tt, site)
  handle (suc depth) h msg (t, (topics, server)) =
      let (reply, server₁) = handle_request decode invalid msg server in
      publish_reply (handle depth) reply (t, (topics, server₁))

  -- `RPCClient.call`, from its message on; `waits` is what other threads do while it waits for the
  -- reply.
  unfoldable pub call :
      (Value → Option RpcResponse)
      → ℕ
      → Message
      → Text
      → List (Site E → Site E)
      → Site E
      → Result Answer × Site E
  call validate depth msg id_text waits site =
      await_reply validate id_text waits (Memory.send (relay (handle depth)) msg site)
