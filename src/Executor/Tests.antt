-- ===== src/Executor/Tests.antt =====
-- eventforge/executor.py: the theorems at inputs that meet their hypotheses.
use observer_pattern.Prelude.{ℕ, [], nat_eq, ◌+◌, refl, arith}
use observer_pattern.Prelude.Dict
use observer_pattern.Types.{num, ok, err, application}
use observer_pattern.Executor.{
  Executor, Job, waiting, init, start, stop, draw, file_future, submit, submit_in, work,
  on_complete, thread, process,
}
use observer_pattern.Executor.Lifecycle.{
  Keeps, IsDrawn, draws, starts, stops, files_future, submits, works, completes, here, next,
  Run-Keeps, init-IsSound,
}
use observer_pattern.Executor.Outcome.{Answers, submit-Answers}

-- A job that counts its runs, and one that raises.
abbrev job : Job ℕ
job n = (ok (num 7), n + 1)

abbrev failing : Job ℕ
failing n = (err (application 3), n + 1)

abbrev pool : Executor ℕ × ℕ
pool = (init thread, 0)

-- A thread that has drawn its id and started the executor, another one that submits and stops it.
abbrev interrupted : Executor ℕ × ℕ
interrupted = let (s, env) = (submit job (start (draw pool.0), 0)).1 in (stop s, env)

drawn : IsDrawn 0 interrupted.0
unfolding submit submit_in start stop init Dict.set Dict.get
drawn = (ground arith, refl, refl)

Run-Keeps_example :
    Keeps pool.0
      (on_complete 1 (work 1 (file_future 0 (waiting job) interrupted.0, interrupted.1)).0)
Run-Keeps_example = Run-Keeps (init-IsSound thread) (
    next
      (next
        (next (next (next (next (next here draws) starts) (submits job)) stops)
          (files_future 0 (waiting job) drawn))
        (works 1))
      (completes 1))

submit-Answers_example :
    let (task_id, submitted) = submit failing (init process, 0) in
    Answers failing task_id 0 1 (λ s. s) [] (work task_id submitted)
submit-Answers_example =
    submit-Answers failing (init process) 0 1 (λ s. s) [] (init-IsSound process)
