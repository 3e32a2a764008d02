-- ===== src/Rpc/Client.antt =====
-- eventforge/rpc.py: `RPCClient`, `RoundRobinRPCClient`, `with_retry`.
pub mod Retry
pub mod Call
use observer_pattern.Prelude.{
  ℕ, zero, suc, ◌+◌, ◌*◌, ◌%◌, Bool, true, false, Option, none, some, List, [], ◌∷◌, if◌then◌else◌,
  Text, codes, ◌++◌, length, get_elem?,
}
use observer_pattern.Types.{Value, Error, Result, ok, err, value_error, index_error}
use observer_pattern.Rpc.Server.{RpcResponse}

-- What a call ends with: a value, a TimeoutError, an Exception with a text, or the validation error
-- of a response that is none.
pub data Answer : Type 0 where
  value : Value → Answer
  timed_out : Answer
  exception : Text → Answer
  invalid_response : Answer

abbrev pub text_of : Option Text → Text
text_of none = codes "None"
text_of (some t) = t

-- `if response.error:`, which an empty text does not meet
unfoldable pub read_response : RpcResponse → Answer
read_response response = elim response.error [
  | none ↦ value response.result
  | some [] ↦ value response.result
  | some (c ∷ text) ↦ exception (text_of response.error_type ++ (codes ": " ++ c ∷ text))
]

-- The end of `call`, by the payload that `receive` gave; `validate` is pydantic's.
unfoldable pub finish_call : (Value → Option RpcResponse) → Option Value → Answer
finish_call validate none = timed_out
finish_call validate (some payload) = elim (validate payload) [
  | none ↦ invalid_response
  | some response ↦ read_response response
]

-- `_rpc_reply.{id}` and `{service}.request`
unfoldable pub reply_topic : Text → Text
reply_topic id = codes "_rpc_reply." ++ id

unfoldable pub request_topic : Text → Text
request_topic service_name = service_name ++ codes ".request"

-- `RoundRobinRPCClient`
pub record RoundRobinClient (K : Type 0) : Type 0 where
  pub clients : List K
  pub idx : ℕ

module _ {K : Type 0} where
  unfoldable pub round_robin : List K → Result (RoundRobinClient K)
  round_robin [] = err value_error
  round_robin (k ∷ ks) = ok (record { clients = k ∷ ks; idx = 0 })

  -- `_next_client`
  unfoldable pub next_client : RoundRobinClient K → Result K × RoundRobinClient K
  next_client c = elim (get_elem? c.clients c.idx) [
    | none ↦ (err index_error, c)
    | some k ↦ (ok k, record c { idx = (c.idx + 1) % length c.clients })
  ]

module _ {E : Type 0} (call : E → Result Value × E) (retry_on : Error → Bool) (factor : ℕ) where
  -- `with_retry(...).call`, with so many retries left: the delays slept, and how it ends.
  unfoldable pub retrying : ℕ → ℕ → E → List ℕ × (Result Value × E)
  retrying zero delay env = ([], call env)
  retrying (suc retries) delay env =
      let (r, env₁) = call env in
      let (slept, ended) = retrying retries (delay * factor) env₁ in
      elim r [
        | ok v ↦ ([], (ok v, env₁))
        | err e ↦ if retry_on e then (delay ∷ slept, ended) else ([], (err e, env₁))
      ]
