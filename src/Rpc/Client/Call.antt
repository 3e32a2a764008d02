-- ===== src/Rpc/Client/Call.antt =====
-- eventforge/rpc.py: what a caller sees of what the method did.
use observer_pattern.Prelude.{
  ℕ, ◌≡◌, refl, inl, inr, Option, none, some, [], ◌∷◌, ◌++◌, Text, codes, text_eq, Option-cases,
}
use observer_pattern.Prelude.Dict
use observer_pattern.Types.{Value, null, Message}
use observer_pattern.Rpc.Server.{
  RpcRequest, RpcResponse, Outcome, returned, raised, Method, RpcServer, Reply, reply_with, respond,
  handle_request,
}
use observer_pattern.Rpc.Client.{Answer, value, exception, read_response, finish_call}

-- What the caller should see. An exception without a text is taken for a success.
abbrev pub seen : Outcome → Answer
seen (returned v) = value v
seen (raised [] name) = value null
seen (raised (c ∷ text) name) = exception (name ++ (codes ": " ++ c ∷ text))

-- What the registered method does, or that there is none.
abbrev pub performed : {E : Type 0} → Option (Method E) → RpcRequest → E → Outcome × E
performed none request env =
    (raised (codes "Method not found: " ++ request.method) (codes "MethodNotFound"), env)
performed (some method) request env = method request env

-- The payload that reaches the caller's reply topic, where the transport carries it.
abbrev pub carried : (RpcResponse → Value) → Reply → Option Value
carried dump none = none
carried dump (some (topic, response)) = some (dump response)

read_response-respond :
    (id : ℕ) (request_id : Value) (outcome : Outcome)
    → read_response (respond id request_id outcome) ≡ seen outcome
unfolding read_response respond
read_response-respond id request_id (returned v) = refl
read_response-respond id request_id (raised [] name) = refl
read_response-respond id request_id (raised (c ∷ text) name) = refl

module _ (dump : RpcResponse → Value) (validate : Value → Option RpcResponse)
    (validates : (r : RpcResponse) → validate (dump r) ≡ some r) where
  pub finish_call-reply :
      (c : ℕ) (topic : Text) (id : ℕ) (request_id : Value) (outcome : Outcome)
      → finish_call validate
          (carried dump (reply_with (some (c ∷ topic)) (respond id request_id outcome)))
        ≡ seen outcome
  unfolding finish_call reply_with
  finish_call-reply c topic id request_id outcome =
      rw (finish_call, validates (respond id request_id outcome))
        (read_response-respond id request_id outcome)

  -- If a response survives its encoding, a call whose request reaches the server and whose reply is
  -- carried back ends with what the registered method returned, or with an Exception that names the
  -- type and the text of what it raised or that there is no such method; but where the exception
  -- has no text, the call returns None as if it had succeeded.
  pub call_seen :
      {E : Type 0} (decode : Value → Option RpcRequest) (invalid : Text) (msg : Message)
      (request : RpcRequest) (c : ℕ) (topic : Text) (s : RpcServer E) (env : E)
      → decode msg.payload ≡ some request
      → msg.reply_to ≡ some (c ∷ topic)
      → let (outcome, env₁) = performed (Dict.get request.method s.methods) request env in
        let (reply, (_, env₂)) = handle_request decode invalid msg (s, env) in
        (finish_call validate (carried dump reply) ≡ seen outcome) × (env₂ ≡ env₁)
  unfolding handle_request
  call_seen decode invalid msg request c topic s env d to =
      elim (Option-cases (Dict.get request.method s.methods)) [
        | inl q ↦
            rw (d, handle_request, q, performed, to)
              (finish_call-reply c topic s.uuids request.request_id _, refl)
        | inr (method, q) ↦
            rw (d, handle_request, q, performed, to)
              (finish_call-reply c topic s.uuids request.request_id _, refl)
      ]
