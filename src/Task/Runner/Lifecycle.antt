-- ===== src/Task/Runner/Lifecycle.antt =====
-- eventforge/task.py, `TaskRunner._execute`: the events of one execution, in their order.
use observer_pattern.Prelude.{
  ℕ, ◌≡◌, refl, ap, sym, ◌∙◌, inl, inr, Option, none, some, List, [], ◌∷◌, ◌++◌, map, Text, codes,
  ◌&&◌, Bool-cases, if◌then◌else◌,
}
use mathlib.Core.List.{append_assoc, append-nil}
use observer_pattern.Types.{Value, null, Result, ok, err}
use observer_pattern.Executor.{
  ExecutionMode, sequential, thread, process, Executor, Job, submit, execute_sync,
}
use observer_pattern.Executor.Lifecycle.{IsSound}
use observer_pattern.Executor.Outcome.{submit-Answers}
use observer_pattern.Observers.Dispatch.{broadcast}
use observer_pattern.Observers.Channel.{Eventful, fire, fire_owner}
use observer_pattern.Task.Runner.{
  TaskContext, TaskRunner, run_body, fire_event, publish_quietly, conclude, after_body, finally,
  execute, value_of,
}

-- What is noted: a subscriber's call or a publication, with the context then, or that the function
-- ran.
pub data Entry (C : Type 0) : Type 0 where
  called : C → TaskContext → Entry C
  published : Text → TaskContext → Entry C
  ran : Entry C

-- What the body of a task gives, by the executor's mode.
abbrev pub seen : ExecutionMode → Result Value → Result Value
seen sequential o = o
seen _ (ok v) = ok v
seen _ (err e) = ok null

value_of-execute_sync :
    (task_id : ℕ) (o : Result Value) → value_of (some (ok (execute_sync task_id o))) ≡ seen thread o
unfolding execute_sync
value_of-execute_sync task_id (ok v) = refl
value_of-execute_sync task_id (err e) = refl

-- The executor, and what has been noted.
abbrev pub Noted : Type 0 → Type 0
Noted C = Executor (List (Entry C)) × List (Entry C)

module _ {C : Type 0} where
  -- Subscribers that note the call and return, and a queue that notes what is published and may
  -- raise.
  abbrev pub noting : C → TaskContext → List (Entry C) → Result (Unit {0}) × List (Entry C)
  noting fn ctx log = (ok tt, log ++ called fn ctx ∷ [])

  abbrev pub recording :
      Result (Unit {0}) → Text → TaskContext → List (Entry C) → Result (Unit {0}) × List (Entry C)
  recording r topic ctx log = (r, log ++ published topic ctx ∷ [])

  abbrev pub calls : Eventful C → TaskContext → List (Entry C)
  calls channel ctx = map (λ fn. called fn ctx) channel.subscribers

  -- A channel of a task runner: no owner.
  abbrev pub IsOwn : Eventful C → Type 0
  IsOwn channel = channel.owner ≡ none

  broadcast_notes :
      (fns : List C) (ctx : TaskContext) (log : List (Entry C))
      → broadcast noting fns ctx log ≡ (ok tt, log ++ map (λ fn. called fn ctx) fns)
  unfolding broadcast
  broadcast_notes [] ctx log =
      ap {B = Result (Unit {0}) × List (Entry C)} (λ l. (ok tt, l)) (sym (append-nil log))
  broadcast_notes (fn ∷ fns) ctx log =
      broadcast_notes fns ctx (log ++ called fn ctx ∷ [])
      ∙ ap {B = Result (Unit {0}) × List (Entry C)} (λ l. (ok tt, l))
          (append_assoc log (called fn ctx ∷ []) (map (λ fn. called fn ctx) fns))

  fire_owner_own :
      (owner : Option (List ℕ)) (name : Option Text) (ctx : TaskContext) (log : List (Entry C))
      → owner ≡ none
      → fire_owner noting [] owner name ctx log ≡ log
  unfolding fire_owner
  fire_owner_own none name ctx log e = refl
  fire_owner_own (some mro) name ctx log e = cc e

  fire_notes :
      (channel : Eventful C) (ctx : TaskContext) (log : List (Entry C))
      → IsOwn channel
      → fire noting (broadcast noting) [] channel ctx log ≡ (ok tt, log ++ calls channel ctx)
  unfolding fire
  fire_notes channel ctx log own =
      ap {A = Result (Unit {0}) × List (Entry C)} {B = Result (Unit {0}) × List (Entry C)}
        (λ b. elim b.0 [
          | err e ↦ (err e, b.1)
          | ok u ↦ (ok u, fire_owner noting [] channel.owner channel.name ctx b.1)
        ])
        (broadcast_notes channel.subscribers ctx log)
      ∙ ap {B = Result (Unit {0}) × List (Entry C)} (λ l. (ok tt, l))
          (fire_owner_own channel.owner channel.name ctx (log ++ calls channel ctx) own)

  fire_event_notes :
      (channel : Eventful C) (ctx : TaskContext) (x : Executor (List (Entry C)))
      (log : List (Entry C))
      → IsOwn channel
      → fire_event noting channel ctx (x, log) ≡ (ok tt, (x, log ++ calls channel ctx))
  unfolding fire_event
  fire_event_notes channel ctx x log own =
      ap {A = Result (Unit {0}) × List (Entry C)} {B = Result (Unit {0}) × Noted C}
        (λ r. (r.0, (x, r.1))) (fire_notes channel ctx log own)

  -- What is published, if anything is.
  abbrev pub publication : TaskRunner C → Text → TaskContext → List (Entry C)
  publication runner suffix ctx =
      if runner.publish_result && runner.has_queue
      then published (runner.topic ++ suffix) ctx ∷ []
      else []

  publish_quietly_notes :
      (r : Result (Unit {0})) (runner : TaskRunner C) (suffix : Text) (ctx : TaskContext)
      (x : Executor (List (Entry C))) (log : List (Entry C))
      → publish_quietly (recording r) runner suffix ctx (x, log)
        ≡ (x, log ++ publication runner suffix ctx)
  unfolding publish_quietly
  publish_quietly_notes r runner suffix ctx x log =
      elim (Bool-cases (runner.publish_result && runner.has_queue)) [
        | inl b ↦ rw (b, publish_quietly, publication) refl
        | inr b ↦ rw (b, publish_quietly, publication, append-nil log) refl
      ]

  conclude_notes :
      (r : Result (Unit {0})) (runner : TaskRunner C) (channel : Eventful C) (suffix : Text)
      (ctx : TaskContext) (answer : Result Value) (x : Executor (List (Entry C)))
      (log : List (Entry C))
      → IsOwn channel
      → conclude noting (recording r) runner channel suffix ctx answer (x, log)
        ≡ (answer, (x, log ++ (calls channel ctx ++ publication runner suffix ctx)))
  unfolding conclude
  conclude_notes r runner channel suffix ctx answer x log own =
      ap {A = Result (Unit {0}) × Noted C} {B = Result Value × Noted C}
        (λ w. elim w.0 [
          | err e ↦ (err e, w.1)
          | ok u ↦ (answer, publish_quietly (recording r) runner suffix ctx w.1)
        ])
        (fire_event_notes channel ctx x log own)
      ∙ ap {B = Result Value × Noted C} (λ w. (answer, w))
          (publish_quietly_notes r runner suffix ctx x (log ++ calls channel ctx)
            ∙ ap {B = Noted C} (λ l. (x, l))
                (append_assoc log (calls channel ctx) (publication runner suffix ctx)))

  finally_notes :
      (runner : TaskRunner C) (ctx : TaskContext) (answer : Result Value)
      (x : Executor (List (Entry C))) (log : List (Entry C))
      → IsOwn runner.complete
      → finally noting runner ctx (answer, (x, log))
        ≡ (answer, (x, log ++ calls runner.complete ctx))
  unfolding finally
  finally_notes runner ctx answer x log own =
      ap {A = Result (Unit {0}) × Noted C} {B = Result Value × Noted C}
        (λ w. elim w.0 [ err e ↦ (err e, w.1) | ok u ↦ (answer, w.1) ])
        (fire_event_notes runner.complete ctx x log own)

  -- The channels of the runner have no owner.
  abbrev pub IsOwnRunner : TaskRunner C → Type 0
  IsOwnRunner r = IsOwn r.start × IsOwn r.success × IsOwn r.failure × IsOwn r.complete

  abbrev pub context_at : TaskRunner C → ℕ → TaskContext
  context_at runner task_id = record {
    task_id = task_id;
    topic = runner.topic;
    outcome = null;
    error = none;
  }

  -- The context after the body, and the entries of its branch.
  abbrev pub context_after : TaskRunner C → ℕ → Result Value → TaskContext
  context_after runner task_id (ok v) = record (context_at runner task_id) { outcome = v }
  context_after runner task_id (err e) = record (context_at runner task_id) { error = some e }

  abbrev pub branch : TaskRunner C → TaskContext → Result Value → List (Entry C)
  branch runner ctx (ok v) = calls runner.success ctx ++ publication runner (codes ".success") ctx
  branch runner ctx (err e) = calls runner.failure ctx ++ publication runner (codes ".failure") ctx

  after_body_notes :
      (r : Result (Unit {0})) (runner : TaskRunner C) (task_id : ℕ) (o : Result Value)
      (x : Executor (List (Entry C))) (log : List (Entry C))
      → IsOwnRunner runner
      → let ctx = context_after runner task_id o in
        after_body noting (recording r) runner (context_at runner task_id) o (x, log)
        ≡ (ctx, (o, (x, log ++ branch runner ctx o)))
  unfolding after_body
  after_body_notes r runner task_id (ok v) x log own =
      ap {B = TaskContext × (Result Value × Noted C)}
        (λ y. (context_after runner task_id (ok v), y))
        (conclude_notes r runner runner.success (codes ".success")
          (context_after runner task_id (ok v)) (ok v) x log own.1)
  after_body_notes r runner task_id (err e) x log own =
      ap {B = TaskContext × (Result Value × Noted C)}
        (λ y. (context_after runner task_id (err e), y))
        (conclude_notes r runner runner.failure (codes ".failure")
          (context_after runner task_id (err e)) (err e) x log own.2)

  -- A function that notes that it has run.
  abbrev pub running : Result Value → Job (List (Entry C))
  running o log = (o, log ++ ran ∷ [])

  run_body-seen :
      (mode : ExecutionMode) (o : Result Value) (x : Executor (List (Entry C)))
      (log : List (Entry C))
      → IsSound x
      → let (r, (y, log₁)) = run_body mode (running o) (x, log) in
        (r ≡ seen mode o) × (log₁ ≡ log ++ ran ∷ [])
  unfolding run_body
  run_body-seen sequential o x log v = (refl, refl)
  run_body-seen thread o x log v =
      let a = submit-Answers (running o) x log 0 (λ y. y) [] v in
      (ap value_of a.0 ∙ value_of-execute_sync (submit (running o) (x, log)).0 o, a.2)
  run_body-seen process o x log v =
      let a = submit-Answers (running o) x log 0 (λ y. y) [] v in
      (ap value_of a.0 ∙ value_of-execute_sync (submit (running o) (x, log)).0 o, a.2)

  -- On a sound executor, if the runner's channels have no owner and the subscribers raise nothing
  -- and, like the function, leave the executor alone: an execution calls the subscribers of
  -- `start`, then runs the function once, then calls those of `success` or of `failure`, publishes
  -- what it should, calls those of `complete`, and answers what the function did. Outside the
  -- sequential mode a function that raises counts as one that succeeds with None: `success` is
  -- fired, and the caller gets None instead of the exception.
  pub execute_notes :
      (r : Result (Unit {0})) (runner : TaskRunner C) (task_id : ℕ) (o : Result Value)
      (x : Executor (List (Entry C))) (log : List (Entry C))
      → IsOwnRunner runner
      → IsSound x
      → let s = seen x.mode o in
        let ctx = context_after runner task_id s in
        let (answer, (_, log₁)) =
          execute noting (recording r) runner task_id (running o) (x, log) in
        (answer ≡ s)
        × (log₁
            ≡ log
              ++ (calls runner.start (context_at runner task_id)
                  ++ ran ∷ (branch runner ctx s ++ calls runner.complete ctx)))
  unfolding execute
  execute_notes r runner task_id o x log own v =
      let s = seen x.mode o in
      let ctx = context_after runner task_id s in
      let begun : List (Entry C) = log ++ calls runner.start (context_at runner task_id) in
      let body : Result Value × Noted C = run_body x.mode (running o) (x, begun) in
      let h = run_body-seen x.mode o x begun v in
      let k : Result Value × Noted C → Result Value × Noted C = λ b.
        finally noting runner
          (after_body noting (recording r) runner (context_at runner task_id) b.0 b.1).0
          (after_body noting (recording r) runner (context_at runner task_id) b.0 b.1).1 in
      let started : execute noting (recording r) runner task_id (running o) (x, log) ≡ k body =
        ap {A = Result (Unit {0}) × Noted C} {B = Result Value × Noted C}
          (λ w. elim w.0 [ err e ↦ (err e, w.1) | ok u ↦ k (run_body w.1.0.mode (running o) w.1) ])
          (fire_event_notes runner.start (context_at runner task_id) x log own.0) in
      let after : List (Entry C) = begun ++ ran ∷ [] in
      let same : body ≡ (s, (body.1.0, after)) =
        ap {B = Result Value × Noted C} (λ q. (q, body.1)) h.0
        ∙ ap {B = Result Value × Noted C} (λ l. (s, (body.1.0, l))) h.1 in
      let all : execute noting (recording r) runner task_id (running o) (x, log)
          ≡ (s, (body.1.0, (after ++ branch runner ctx s) ++ calls runner.complete ctx)) =
        started
        ∙ ap k same
        ∙ ap {A = TaskContext × (Result Value × Noted C)} {B = Result Value × Noted C}
            (λ z. finally noting runner z.0 z.1)
            (after_body_notes r runner task_id s body.1.0 after own)
        ∙ finally_notes runner ctx s body.1.0 (after ++ branch runner ctx s) own.3 in
      (
        ap (λ z. z.0) all,
        ap (λ z. z.1.1) all
            ∙ append_assoc after (branch runner ctx s) (calls runner.complete ctx)
            ∙ append_assoc begun (ran ∷ []) (branch runner ctx s ++ calls runner.complete ctx)
            ∙ append_assoc log (calls runner.start (context_at runner task_id))
                (ran ∷ (branch runner ctx s ++ calls runner.complete ctx)),
      )
