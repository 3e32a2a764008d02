-- ===== src/Task/Runner.antt =====
-- eventforge/task.py, `TaskRunner` and the decorator `task`. A function with its arguments is a
-- job of the executor; `invoke` calls a subscriber, `publish` publishes to the queue, each on the
-- rest of the world `E`. The times and the metadata in the context
-- are left out.
pub mod Lifecycle
pub mod Slot
use observer_pattern.Prelude.{
  ℕ, zero, suc, ◌+◌, Bool, true, false, ◌&&◌, Option, none, some, List, [], ◌∷◌, ◌++◌,
  if◌then◌else◌, Text, codes,
}
use observer_pattern.Types.{
  Value, null, list, dict, Items, Fields, Message, Error, timeout_error, Result, ok, err,
  TaskResult,
}
use observer_pattern.Executor.{
  ExecutionMode, sequential, thread, process, Executor, Job, submit, work, result_loop,
}
use observer_pattern.Observers.Dispatch.{broadcast}
use observer_pattern.Observers.Channel.{Eventful, fire}
use observer_pattern.Task.Pool.{TaskPool, acquire, release}

-- `TaskContext`, as far as the runner writes it.
pub record TaskContext : Type 0 where
  pub task_id : ℕ
  pub topic : Text
  pub outcome : Value
  pub error : Option Error

unfoldable pub is_success : TaskContext → Bool
is_success ctx = elim ctx.error [ none ↦ true | some e ↦ false ]

-- `has_queue` says that there is a queue.
pub record TaskRunner (C : Type 0) : Type 0 where
  pub topic : Text
  pub has_queue : Bool
  pub publish_result : Bool
  pub start : Eventful C
  pub success : Eventful C
  pub failure : Eventful C
  pub complete : Eventful C

-- How the queue's handler of `task` calls the runner.
pub data Call : Type 0 where
  keywords : Fields → Call
  positional : Items → Call
  single : Value → Call

-- `queue_handler`
unfoldable pub call_of : Message → Call
call_of message = elim message.payload [
  | dict fields ↦ keywords fields
  | list items ↦ positional items
  | v ↦ single v
]

-- What `result(task_id).value` gives; a wait that never ends cannot be told here from a time-out.
abbrev pub value_of : Option (Result TaskResult) → Result Value
value_of none = err timeout_error
value_of (some (err e)) = err e
value_of (some (ok r)) = ok r.value

module _ {E : Type 0} where
  -- The `try` of `_execute`: in place, or by the executor, whose worker then runs the job.
  unfoldable pub run_body : ExecutionMode → Job E → Executor E × E → Result Value × (Executor E × E)
  run_body sequential func (executor, env) =
      let (outcome, env₁) = func env in (outcome, (executor, env₁))
  run_body _ func world =
      let (task_id, world₁) = submit func world in
      let world₂ = work task_id world₁ in
      (value_of (result_loop task_id none ((0, λ x. x) ∷ []) world₂.0).0, world₂)

module _ {C E : Type 0} where
  module _ (publish : Text → TaskContext → E → Result (Unit {0}) × E) where
    -- `self.queue.publish(...)` under `try ... except Exception: pass`
    unfoldable pub publish_quietly :
        TaskRunner C → Text → TaskContext → Executor E × E → Executor E × E
    publish_quietly runner suffix ctx (executor, env) =
        if runner.publish_result && runner.has_queue
        then (executor, (publish (runner.topic ++ suffix) ctx env).1)
        else (executor, env)

  module _ (invoke : C → TaskContext → E → Result (Unit {0}) × E) where
    -- `self.<event>.fire(ctx)`: these channels have no owner.
    unfoldable pub fire_event :
        Eventful C → TaskContext → Executor E × E → Result (Unit {0}) × (Executor E × E)
    fire_event channel ctx (executor, env) =
        let (r, env₁) = fire invoke (broadcast invoke) [] channel ctx env in (r, (executor, env₁))

    -- `finally: self.complete.fire(ctx)`: its exception takes the place of the answer.
    unfoldable pub finally :
        TaskRunner C
        → TaskContext
        → Result Value × (Executor E × E)
        → Result Value × (Executor E × E)
    finally runner ctx (answer, world) =
        let (r, world₁) = fire_event runner.complete ctx world in
        elim r [ err e ↦ (err e, world₁) | ok u ↦ (answer, world₁) ]

    module _ (publish : Text → TaskContext → E → Result (Unit {0}) × E) where
      -- The branch `except` or `else`: the event, then the queue, then `answer` is raised or
      -- returned.
      unfoldable pub conclude :
          TaskRunner C
          → Eventful C
          → Text
          → TaskContext
          → Result Value
          → Executor E × E
          → Result Value × (Executor E × E)
      conclude runner channel suffix ctx answer world =
          let (r, world₁) = fire_event channel ctx world in
          elim r [
            | err e ↦ (err e, world₁)
            | ok u ↦ (answer, publish_quietly publish runner suffix ctx world₁)
          ]

      unfoldable pub after_body :
          TaskRunner C
          → TaskContext
          → Result Value
          → Executor E × E
          → TaskContext × (Result Value × (Executor E × E))
      after_body runner ctx (ok v) world =
          let ctx₁ : TaskContext = record ctx { outcome = v } in
          (ctx₁, conclude runner runner.success (codes ".success") ctx₁ (ok v) world)
      after_body runner ctx (err e) world =
          let ctx₁ : TaskContext = record ctx { error = some e } in
          (ctx₁, conclude runner runner.failure (codes ".failure") ctx₁ (err e) world)

      -- `_execute`; `start` is fired before the `try`.
      unfoldable pub execute :
          TaskRunner C → ℕ → Job E → Executor E × E → Result Value × (Executor E × E)
      execute runner task_id func world =
          let ctx : TaskContext = record {
            task_id = task_id;
            topic = runner.topic;
            outcome = null;
            error = none;
          } in
          let (r, world₁) = fire_event runner.start ctx world in
          elim r [
            | err e ↦ (err e, world₁)
            | ok u ↦
                let (o, world₂) = run_body world₁.0.mode func world₁ in
                let (ctx₁, ended) = after_body runner ctx o world₂ in finally runner ctx₁ ended
          ]

      -- `run`, with the pool of the runner and what other threads do while it waits for a slot;
      -- `has_timeout` says that there is an `instance_timeout`. `none` is a run that still waits.
      unfoldable pub run :
          TaskRunner C
          → ℕ
          → Job E
          → Bool
          → List (TaskPool × (Executor E × E) → TaskPool × (Executor E × E))
          → Option TaskPool
          → Executor E × E
          → Option (Result Value × (Option TaskPool × (Executor E × E)))
      run runner task_id func has_timeout waits none world =
          let (answer, world₁) = execute runner task_id func world in some (answer, (none, world₁))
      run runner task_id func has_timeout waits (some pool) world =
          elim (acquire has_timeout waits (pool, world)) [
            | none ↦ none
            | some (acquired, (pool₁, world₁)) ↦
                let (answer, world₂) = execute runner task_id func world₁ in
                some (
                  if acquired
                  then (answer, (some (release pool₁), world₂))
                  else (err timeout_error, (some pool₁, world₁)))
          ]
