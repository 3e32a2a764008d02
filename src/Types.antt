-- ===== src/Types.antt =====
-- eventforge/types.py: the message, and the values that a payload or a header holds.
-- A uuid4 is the number of its draw, so that two draws differ; times are numbers in one unit.
pub mod SharedState
use observer_pattern.Prelude.{
  ℕ, Text, Bool, true, false, Option, none, some, suc, if◌then◌else◌, ◌==◌,
}
use observer_pattern.Prelude.Dict.{Dict}

-- What a payload or a header holds. `num` is an int or a float that is not negative; `uuid` and
-- `time` are the texts of a uuid and of a time.
mutual
  pub data Value : Type 0 where
    null : Value
    bool : Bool → Value
    num : ℕ → Value
    str : Text → Value
    uuid : ℕ → Value
    time : ℕ → Value
    list : Items → Value
    dict : Fields → Value

  pub data Items : Type 0 where
    nil : Items
    cons : Value → Items → Items

  pub data Fields : Type 0 where
    end : Fields
    field : Text → Value → Fields → Fields

abbrev pub Headers : Type 0
Headers = Dict Text Value

pub record Message : Type 0 where
  pub id : ℕ
  pub topic : Text
  pub payload : Value
  pub headers : Headers
  pub timestamp : ℕ
  pub reply_to : Option Text
  pub correlation_id : Option ℕ

-- The exceptions that the modelled code raises.
pub data Error : Type 0 where
  queue_full transport_full runtime_error type_error value_error key_error timeout_error : Error
  connection_error attribute_error index_error : Error
  application : ℕ → Error

pub data Result {ℓ} (A : Type ℓ) : Type ℓ where
  ok : A → Result A
  err : Error → Result A

-- `v + 1` where Python allows it; a bool counts as an int.
unfoldable pub plus_one : Value → Option ℕ
plus_one (num n) = some (suc n)
plus_one (bool b) = some (if b then 2 else 1)
plus_one _ = none

-- `TaskStatus`
pub data TaskStatus : Type 0 where
  pending running completed failed cancelled : TaskStatus

-- `TaskResult`: `error` stands for the exception's text and type; its time and worker are left out.
pub record TaskResult : Type 0 where
  pub task_id : ℕ
  pub status : TaskStatus
  pub value : Value
  pub error : Option Error

unfoldable pub is_success : TaskResult → Bool
is_success r = elim r.status [ completed ↦ true | _ ↦ false ]

unfoldable pub is_failure : TaskResult → Bool
is_failure r = elim r.status [ failed ↦ true | _ ↦ false ]
