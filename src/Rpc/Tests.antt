-- ===== src/Rpc/Tests.antt =====
-- eventforge/rpc.py: the theorems at inputs that meet their hypotheses.
use observer_pattern.Prelude.{
  ℕ, suc, ◌+◌, ◌≤◌, ◌≡◌, refl, ◌⊎◌, Bool, true, if◌then◌else◌, ltb, Option, none, some, [], ◌∷◌,
  arith, Text, codes, text_eq,
}
use observer_pattern.Prelude.Dict
use observer_pattern.Types.{
  Value, num, str, end, null, nil, list, cons, Message, Error, application, Result, ok, err,
}
use observer_pattern.Prelude.Dict.{Dict}
use observer_pattern.Prelude.Keys.{text_beq}
use observer_pattern.Transport.Patterns.Wildcards.{IsPlain}
use observer_pattern.Transport.Memory
use observer_pattern.Transport.Memory.{MemoryTransport, queue_of}
use observer_pattern.Observers.Channel.{Eventful}
use observer_pattern.Rpc.Client.{request_topic, reply_topic}
use observer_pattern.Rpc.Exchange.{Handler, handles_request, request_message, call}
use observer_pattern.Rpc.Exchange.Served.{Serves}
use observer_pattern.Rpc.Exchange.Ends.{CallEnds}
use observer_pattern.Rpc.Exchange.EndToEnd.{call_served}
use observer_pattern.Rpc.Server.{RpcRequest, RpcResponse, raised, RpcServer, init, add_method}
use observer_pattern.Rpc.Client.{retrying}
use observer_pattern.Rpc.Client.Retry.{attempt, AllRetried, IsFinal, delays, retrying_ends}
use observer_pattern.Rpc.Client.Call.{seen, performed}

-- The third attempt succeeds.
abbrev flaky : ℕ → Result Value
flaky n = if ltb n 2 then err (application 1) else ok (num n)

abbrev always : Error → Bool
always e = true

retrying_ends_example :
    (k last : ℕ) × (last ≡ 0 + k)
    × (k ≤ 3)
    × AllRetried flaky always 2 0 k
    × ((k ≡ 3) ⊎ IsFinal flaky always 2 (flaky last))
    × (retrying (attempt flaky always 2) always 2 3 10 0
        ≡ (delays flaky always 2 k 10, (flaky last, suc last)))
retrying_ends_example = retrying_ends flaky always 2 3 10 0

abbrev optional : Option Text → Value
optional none = null
optional (some t) = str t

abbrev text : Value → Option Text
text (str t) = some t
text _ = none

abbrev dump : RpcResponse → Value
dump r = list (
    cons (num r.id)
      (cons r.answers (cons r.result (cons (optional r.error) (cons (optional r.error_type) nil)))))

abbrev validate : Value → Option RpcResponse
validate (list (cons (num id) (cons answers (cons result (cons error (cons error_type nil)))))) =
    some (record {
      id = id;
      answers = answers;
      result = result;
      error = text error;
      error_type = text error_type;
    })
validate _ = none

text-optional : (t : Option Text) → text (optional t) ≡ t
text-optional none = refl
text-optional (some t) = refl

validates : (r : RpcResponse) → validate (dump r) ≡ some r
validates r = rw (text-optional r.error, text-optional r.error_type) refl

abbrev request : RpcRequest
request = record { request_id = num 1; method = codes "div"; args = nil; kwargs = end }

abbrev decode : Value → Option RpcRequest
decode v = some request

abbrev message : Message
message = record {
  id = 1;
  topic = codes "rpc.request";
  payload = num 1;
  headers = [];
  timestamp = 0;
  reply_to = some (codes "_rpc_reply.1");
  correlation_id = some 1;
}

-- A method that raises an exception without a text.
abbrev server : RpcServer ℕ
server =
    add_method (codes "div") (λ r n. (raised [] (codes "ValueError"), n + 1)) (init (codes "rpc"))

-- A server that serves "rpc" on a fresh queue, whose topics hold one message each.
abbrev rpc_topic : Text
rpc_topic = request_topic (codes "rpc")

abbrev transport : MemoryTransport Text
transport = (Memory.subscribe rpc_topic rpc_topic (Memory.init 1)).1

abbrev channels : Dict Text (Eventful Handler)
channels =
    (rpc_topic, record { subscribers = handles_request ∷ []; owner = none; name = none }) ∷ []

transport-Serves : Serves (codes "rpc") transport channels
unfolding Memory.init Memory.subscribe Dict.set Dict.get Dict.get_or request_topic text_beq
transport-Serves = record {
  is_open = refl;
  sub_id = 0;
  subscribed = refl;
  pattern = refl;
  channel = refl;
}

empty_queue : queue_of (reply_topic (codes "1")) transport ≡ []
unfolding Memory.init Memory.subscribe queue_of Dict.get Dict.get_or
empty_queue = refl

rpc-IsPlain : IsPlain (codes "rpc")
rpc-IsPlain = ground arith

call_served_example :
    let (outcome, env₁) = performed (Dict.get request.method server.methods) request 0 in
    let msg = request_message 7 (codes "rpc") 1 1 (codes "1") (num 1) in
    let (r, (t₁, (topics₁, (_, env₂)))) =
      call decode [] dump 7 validate 1 msg (codes "1") [] (transport, (channels, (server, 0))) in
    CallEnds Text msg (reply_topic (codes "1")) (seen outcome) transport r t₁
    × (topics₁ ≡ channels)
    × (env₂ ≡ env₁)
call_served_example =
    call_served decode [] dump validate validates 7 (codes "rpc") (codes "1") 1 1 (num 1) request 0
      [] transport channels server 0 rpc-IsPlain transport-Serves empty_queue refl
