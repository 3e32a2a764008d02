-- ===== src/Executor/Outcome.antt =====
-- eventforge/executor.py: what `result` answers for a task whose function has been run.
use observer_pattern.Prelude.{ℕ, ◌≡◌, refl, ap, ◌∙◌, Option, none, some, List, ◌∷◌, arith, nat_eq}
use observer_pattern.Prelude.Dict
use observer_pattern.Types.{Value, Result, ok, TaskResult}
use observer_pattern.Executor.{
  draw, sequential, thread, process, Executor, Job, waiting, returned, start, submit_in, submit,
  work, on_complete, settled, awaited, result_loop, execute_sync, raw_of,
}
use observer_pattern.Executor.Lifecycle.{IsSound, start_frame, of_raw-raw_of}

module _ {E : Type 0} where
  -- The first round of `result`.
  result_loop_stored :
      (task_id now : ℕ) (others : Executor E → Executor E)
      (rounds : List (ℕ × (Executor E → Executor E))) (deadline : Option ℕ) (s : Executor E)
      (r : TaskResult)
      → Dict.get task_id s.results ≡ some r
      → (result_loop task_id deadline ((now, others) ∷ rounds) s).0 ≡ some (ok r)
  unfolding result_loop
  result_loop_stored task_id now others rounds deadline s r q = rw (q, result_loop)

  result_loop_done :
      (task_id now : ℕ) (others : Executor E → Executor E)
      (rounds : List (ℕ × (Executor E → Executor E))) (outcome : Result Value) (s : Executor E)
      → Dict.get task_id s.results ≡ none
      → Dict.get task_id s.futures ≡ some (returned (raw_of s.mode task_id outcome))
      → ((result_loop task_id none ((now, others) ∷ rounds) s).0
          ≡ some (ok (execute_sync task_id outcome)))
        × (Dict.get task_id (on_complete task_id s).results ≡ some (execute_sync task_id outcome))
  unfolding result_loop awaited on_complete settled
  result_loop_done task_id now others rounds outcome s q p =
      let e = of_raw-raw_of s.mode task_id outcome in
      (
        rw (q, result_loop, p, awaited) (ap (λ r. some (ok r)) e),
        rw (p, on_complete, settled) (Dict.get-set_self task_id _ s.results ∙ ap some e),
      )

  on_complete_unknown :
      (task_id : ℕ) (s : Executor E) → Dict.get task_id s.futures ≡ none → on_complete task_id s ≡ s
  unfolding on_complete
  on_complete_unknown task_id s q = rw (q, on_complete)

  -- After its function has been run, before and after the callback of its future.
  abbrev pub Answers :
      Job E
      → ℕ
      → E
      → ℕ
      → (Executor E → Executor E)
      → List (ℕ × (Executor E → Executor E))
      → Executor E × E
      → Type 0
  Answers job task_id env now others rounds (s, env₁) =
      ((result_loop task_id none ((now, others) ∷ rounds) s).0
        ≡ some (ok (execute_sync task_id (job env).0)))
      × ((result_loop task_id none ((now, others) ∷ rounds) (on_complete task_id s)).0
          ≡ some (ok (execute_sync task_id (job env).0)))
      × (env₁ ≡ (job env).1)

  waiting-Answers :
      (job : Job E) (s : Executor E) (env : E) (task_id now : ℕ) (others : Executor E → Executor E)
      (rounds : List (ℕ × (Executor E → Executor E)))
      → Dict.get task_id s.results ≡ none
      → Dict.get task_id s.futures ≡ some (waiting job)
      → Answers job task_id env now others rounds (work task_id (s, env))
  unfolding work
  waiting-Answers job s env task_id now others rounds q p =
      let t : Executor E = record s {
        futures = Dict.set task_id (returned (raw_of s.mode task_id (job env).0)) s.futures;
      } in
      let d =
        result_loop_done task_id now others rounds (job env).0 t q
          (Dict.get-set_self task_id _ s.futures) in
      rw (p, work)
        (d.0, result_loop_stored task_id now others rounds none (on_complete task_id t) _ d.1, refl)

  settled-Answers :
      (job : Job E) (s : Executor E) (env : E) (task_id now : ℕ) (others : Executor E → Executor E)
      (rounds : List (ℕ × (Executor E → Executor E)))
      → Dict.get task_id s.results ≡ some (execute_sync task_id (job env).0)
      → Dict.get task_id s.futures ≡ none
      → Answers job task_id env now others rounds (work task_id (s, (job env).1))
  unfolding work
  settled-Answers job s env task_id now others rounds q p =
      let a = result_loop_stored task_id now others rounds none s _ q in
      rw (p, work) (a, rw (on_complete_unknown task_id s p) a, refl)

  -- In every mode, once a submitted task's function has been run, `result` answers at once with
  -- what the function returned or raised, whether or not the callback of the future has come; and
  -- the function has been run exactly once.
  pub submit-Answers :
      (job : Job E) (s : Executor E) (env : E) (now : ℕ) (others : Executor E → Executor E)
      (rounds : List (ℕ × (Executor E → Executor E)))
      → IsSound s
      → let (task_id, submitted) = submit job (s, env) in
        Answers job task_id env now others rounds (work task_id submitted)
  unfolding submit submit_in
  submit-Answers job s env now others rounds v =
      elim s.mode
        as (λ m.
          Answers job (submit_in m job (s, env)).0 env now others rounds
            (work (submit_in m job (s, env)).0 (submit_in m job (s, env)).1)) [
              | sequential ↦
                  settled-Answers job _ env s.uuids now others rounds
                    (Dict.get-set_self s.uuids _ s.results) (v.fresh_future s.uuids (omega arith))
              | thread ↦
                  let f = start_frame (draw s) in
                  waiting-Answers job _ env s.uuids now others rounds
                    (ap (Dict.get s.uuids) f.0 ∙ v.fresh_result s.uuids (omega arith))
                    (Dict.get-set_self s.uuids (waiting job) (start (draw s)).futures)
              | process ↦
                  let f = start_frame (draw s) in
                  waiting-Answers job _ env s.uuids now others rounds
                    (ap (Dict.get s.uuids) f.0 ∙ v.fresh_result s.uuids (omega arith))
                    (Dict.get-set_self s.uuids (waiting job) (start (draw s)).futures)
            ]
