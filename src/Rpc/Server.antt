-- ===== src/Rpc/Server.antt =====
-- eventforge/rpc.py, `RPCServer`. A method is what it does to the rest of the world `E`, and what
-- it returns or raises: the exception's text and its type's name. `validate` is pydantic's; a reply
-- is the topic and the response that the server publishes.
use observer_pattern.Prelude.{
  ℕ, suc, Bool, true, false, Option, none, some, [], ◌∷◌, if◌then◌else◌, Text, codes, ◌++◌, text_eq,
}
use observer_pattern.Prelude.Dict
use observer_pattern.Prelude.Dict.{Dict}
use observer_pattern.Types.{Value, null, str, dict, end, field, Items, Fields, Message}

pub record RpcRequest : Type 0 where
  pub request_id : Value
  pub method : Text
  pub args : Items
  pub kwargs : Fields

pub record RpcResponse : Type 0 where
  pub id : ℕ
  pub answers : Value
  pub result : Value
  pub error : Option Text
  pub error_type : Option Text

pub data Outcome : Type 0 where
  returned : Value → Outcome
  raised : Text → Text → Outcome

abbrev pub Method : Type 0 → Type 0
Method E = RpcRequest → E → Outcome × E

-- `subscribed` is `_sub_id`, the subscription to the request topic; `uuids` counts the draws.
pub record RpcServer (E : Type 0) : Type 0 where
  pub service_name : Text
  pub methods : Dict Text (Method E)
  pub running : Bool
  pub subscribed : Option ℕ
  pub uuids : ℕ

abbrev pub Reply : Type 0
Reply = Option (Text × RpcResponse)

-- `if msg.reply_to:`, an empty topic counts as none
unfoldable pub reply_with : Option Text → RpcResponse → Reply
reply_with none response = none
reply_with (some []) response = none
reply_with (some (c ∷ topic)) response = some (c ∷ topic, response)

-- `msg.payload.get("id", "unknown")` of a dict, else "unknown"
unfoldable pub field_of : Text → Value → Fields → Value
field_of key default end = default
field_of key default (field k v fields) =
    if text_eq.beq k key then v else field_of key default fields

unfoldable pub id_of : Value → Value
id_of (dict fields) = field_of (codes "id") (str (codes "unknown")) fields
id_of _ = str (codes "unknown")

-- The response to what a method did.
unfoldable pub respond : ℕ → Value → Outcome → RpcResponse
respond id request_id (returned v) = record {
  id = id;
  answers = request_id;
  result = v;
  error = none;
  error_type = none;
}
respond id request_id (raised text name) = record {
  id = id;
  answers = request_id;
  result = null;
  error = some text;
  error_type = some name;
}

module _ {E : Type 0} where
  -- The id of a response is drawn where there is someone to reply to.
  unfoldable pub drawn : Reply → RpcServer E → RpcServer E
  drawn none s = s
  drawn (some reply) s = record s { uuids = suc s.uuids }

  unfoldable pub init : Text → RpcServer E
  init service_name = record {
    service_name = service_name;
    methods = [];
    running = false;
    subscribed = none;
    uuids = 0;
  }

  -- `add_method`, and the decorator of `register`
  unfoldable pub add_method : Text → Method E → RpcServer E → RpcServer E
  add_method name func s = record s { methods = Dict.set name func s.methods }

  -- `serve(blocking=False)`; `sub_id` is what `queue.on` returns: whether it was called, too.
  unfoldable pub serve : ℕ → RpcServer E → Bool × RpcServer E
  serve sub_id s =
      if s.running
      then (false, s)
      else (true, record s { running = true; subscribed = some sub_id })

  -- `stop`: the subscription to end, if there is one
  unfoldable pub stop : RpcServer E → Option ℕ × RpcServer E
  stop s = (s.subscribed, record s { running = false; subscribed = none })

  -- `_handle_request`; `invalid` is the text of the validation error.
  unfoldable pub handle_request :
      (Value → Option RpcRequest) → Text → Message → RpcServer E × E → Reply × (RpcServer E × E)
  handle_request validate invalid msg (s, env) = elim (validate msg.payload) [
    | none ↦
        let reply = reply_with msg.reply_to (
          respond s.uuids (id_of msg.payload)
            (raised (codes "Invalid request: " ++ invalid) (codes "ValidationError"))) in
        (reply, (drawn reply s, env))
    | some request ↦ elim (Dict.get request.method s.methods) [
      | none ↦
          let reply = reply_with msg.reply_to (
            respond s.uuids request.request_id
              (raised (codes "Method not found: " ++ request.method) (codes "MethodNotFound"))) in
          (reply, (drawn reply s, env))
      | some method ↦
          let (outcome, env₁) = method request env in
          (
            reply_with msg.reply_to (respond s.uuids request.request_id outcome),
            (record s { uuids = suc s.uuids }, env₁),
          )
    ]
  ]
