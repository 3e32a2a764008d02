-- ===== src/Executor.antt =====
-- eventforge/executor.py. A job is what a function does to the rest of the world `E`, and what it
-- returns or raises. Threads interleave by the critical sections of `_lock`; `work` is a worker of
-- the pool that runs a job, `on_complete` the callback of its future. What `max_workers` bounds is
-- the pool's own: it is not under src/.
pub mod Lifecycle
pub mod Outcome
mod Tests
use observer_pattern.Prelude.{
  ℕ, zero, suc, ◌+◌, Bool, true, false, Option, none, some, List, [], ◌∷◌, if◌then◌else◌, leb, ◌==◌,
  Text, codes, nat_eq, text_eq,
}
use observer_pattern.Prelude.Dict
use observer_pattern.Prelude.Dict.{Dict}
use observer_pattern.Types.{
  Value, null, Error, value_error, timeout_error, Result, ok, err, TaskStatus, pending, running,
  completed, failed, cancelled, TaskResult,
}

pub data ExecutionMode : Type 0 where
  sequential thread process : ExecutionMode

-- The dict that a worker process returns.
pub record Report : Type 0 where
  pub report_id : ℕ
  pub report_status : Text
  pub report_value : Value
  pub report_error : Option Error

-- What a future's function returned: a result of a thread, or the dict of a process.
pub data Raw : Type 0 where
  result : TaskResult → Raw
  report : Report → Raw

abbrev pub Job : Type 0 → Type 0
Job E = E → Result Value × E

pub data Future (E : Type 0) : Type 0 where
  waiting : Job E → Future E
  returned : Raw → Future E
  raised : Error → Future E

-- `pool` says that there is a pool.
pub record Executor (E : Type 0) : Type 0 where
  pub mode : ExecutionMode
  pub results : Dict ℕ TaskResult
  pub futures : Dict ℕ (Future E)
  pub pool : Bool
  pub is_running : Bool
  pub uuids : ℕ

-- The result of a task that raised.
abbrev pub failed_with : ℕ → Error → TaskResult
failed_with task_id e = record { task_id = task_id; status = failed; value = null; error = some e }

-- `_execute_sync`, by what the function returned or raised
unfoldable pub execute_sync : ℕ → Result Value → TaskResult
execute_sync task_id (ok v) = record {
  task_id = task_id;
  status = completed;
  value = v;
  error = none;
}
execute_sync task_id (err e) = failed_with task_id e

-- `_run_with_timing`
unfoldable pub run_with_timing : ℕ → Result Value → Report
run_with_timing task_id (ok v) = record {
  report_id = task_id;
  report_status = codes "completed";
  report_value = v;
  report_error = none;
}
run_with_timing task_id (err e) = record {
  report_id = task_id;
  report_status = codes "failed";
  report_value = null;
  report_error = some e;
}

-- `TaskStatus(text)`
unfoldable pub status_of : Text → Option TaskStatus
status_of text = elim (text == codes "pending") [
  | true ↦ some pending
  | false ↦ elim (text == codes "running") [
    | true ↦ some running
    | false ↦ elim (text == codes "completed") [
      | true ↦ some completed
      | false ↦ elim (text == codes "failed") [
        | true ↦ some failed
        | false ↦ if text == codes "cancelled" then some cancelled else none
      ]
    ]
  ]
]

-- A dict that is no valid result raises a ValueError, which both readers turn into a failure.
unfoldable pub of_report : ℕ → Report → TaskResult
of_report task_id d = elim (status_of d.report_status) [
  | none ↦ failed_with task_id value_error
  | some status ↦ record {
    task_id = d.report_id;
    status = status;
    value = d.report_value;
    error = d.report_error;
  }
]

unfoldable pub of_raw : ℕ → Raw → TaskResult
of_raw task_id (result r) = r
of_raw task_id (report d) = of_report task_id d

unfoldable pub raw_of : ExecutionMode → ℕ → Result Value → Raw
raw_of process task_id outcome = report (run_with_timing task_id outcome)
raw_of _ task_id outcome = result (execute_sync task_id outcome)

abbrev pub has_passed : Option ℕ → ℕ → Bool
has_passed none now = false
has_passed (some d) now = leb d now

module _ {E : Type 0} where
  unfoldable pub init : ExecutionMode → Executor E
  init mode = record {
    mode = mode;
    results = [];
    futures = [];
    pool = false;
    is_running = false;
    uuids = 0;
  }

  unfoldable pub start : Executor E → Executor E
  start s =
      if s.is_running
      then s
      else record s { pool = elim s.mode [ sequential ↦ s.pool | _ ↦ true ]; is_running = true }

  unfoldable pub stop : Executor E → Executor E
  stop s = if s.is_running then record s { pool = false; is_running = false } else s

  -- The sections of `submit` that change the executor, besides `start`: a new id, and what is filed
  -- under it, a result in sequential mode and else a future.
  abbrev pub draw : Executor E → Executor E
  draw s = record s { uuids = suc s.uuids }

  abbrev pub file_result : ℕ → TaskResult → Executor E → Executor E
  file_result task_id r s = record s { results = Dict.set task_id r s.results }

  abbrev pub file_future : ℕ → Future E → Executor E → Executor E
  file_future task_id future s = record s { futures = Dict.set task_id future s.futures }

  -- `submit` of a thread that no other one interrupts: in sequential mode the job runs now,
  -- otherwise it waits in a future. If another thread stops the executor in between, the assertion
  -- or the pool raises, and the sections up to there are all that has happened.
  unfoldable pub submit_in : ExecutionMode → Job E → Executor E × E → ℕ × (Executor E × E)
  submit_in sequential job (s, env) =
      let task_id = s.uuids in
      let (outcome, env₁) = job env in
      (task_id, (file_result task_id (execute_sync task_id outcome) (draw s), env₁))
  submit_in _ job (s, env) =
      let task_id = s.uuids in (task_id, (file_future task_id (waiting job) (start (draw s)), env))

  unfoldable pub submit : Job E → Executor E × E → ℕ × (Executor E × E)
  submit job (s, env) = submit_in s.mode job (s, env)

  -- A worker runs the job of a future.
  unfoldable pub work : ℕ → Executor E × E → Executor E × E
  work task_id (s, env) = elim (Dict.get task_id s.futures) [
    | some (waiting job) ↦
        let (outcome, env₁) = job env in
        (
          record s {
            futures = Dict.set task_id (returned (raw_of s.mode task_id outcome)) s.futures;
          },
          env₁,
        )
    | _ ↦ (s, env)
  ]

  -- What a future that is done gives, where its exception becomes a failure.
  unfoldable pub settled : ℕ → Future E → Option TaskResult
  settled task_id (waiting job) = none
  settled task_id (returned raw) = some (of_raw task_id raw)
  settled task_id (raised e) = some (failed_with task_id e)

  -- `_on_complete`, once the future is done
  unfoldable pub on_complete : ℕ → Executor E → Executor E
  on_complete task_id s = elim (Dict.get task_id s.futures) [
    | none ↦ s
    | some future ↦ elim (settled task_id future) [
      | none ↦ s
      | some r ↦ record s {
        results = Dict.set task_id r s.results;
        futures = Dict.erase task_id s.futures;
      }
    ]
  ]

  -- `future.result()` as `result` reads it: a time-out is raised, any other exception is a failure.
  unfoldable pub awaited : ℕ → Future E → Option (Result TaskResult)
  awaited task_id (waiting job) = none
  awaited task_id (returned raw) = some (ok (of_raw task_id raw))
  awaited task_id (raised timeout_error) = some (err timeout_error)
  awaited task_id (raised e) = some (ok (failed_with task_id e))

  -- The loop of `result`: a round reads the clock, and a wait lets other threads work. `none` is a
  -- call that still waits when the list ends.
  unfoldable pub result_loop :
      ℕ
      → Option ℕ
      → List (ℕ × (Executor E → Executor E))
      → Executor E
      → Option (Result TaskResult) × Executor E
  result_loop task_id deadline [] s = (none, s)
  result_loop task_id deadline ((now, others) ∷ rounds) s =
      let waited = result_loop task_id deadline rounds (others s) in
      elim (Dict.get task_id s.results) [
        | some r ↦ (some (ok r), s)
        | none ↦
            if has_passed deadline now
            then (some (err timeout_error), s)
            else (elim (Dict.get task_id s.futures) [
              | none ↦ waited
              | some future ↦ elim (awaited task_id future) [ none ↦ waited | some r ↦ (some r, s) ]
            ])
      ]

  -- `deadline = time.time() + timeout if timeout else None`
  unfoldable pub get_result :
      ℕ
      → ℕ
      → Option ℕ
      → List (ℕ × (Executor E → Executor E))
      → Executor E
      → Option (Result TaskResult) × Executor E
  get_result now task_id timeout rounds s =
      result_loop task_id
        (elim timeout [ none ↦ none | some zero ↦ none | some (suc t) ↦ some (now + suc t) ]) rounds
        s

  -- The first half of `map`: every item is submitted, in order.
  unfoldable pub submit_all : List (Job E) → Executor E × E → List ℕ × (Executor E × E)
  submit_all [] world = ([], world)
  submit_all (job ∷ jobs) world =
      let (task_id, world₁) = submit job world in
      let (task_ids, world₂) = submit_all jobs world₁ in (task_id ∷ task_ids, world₂)
