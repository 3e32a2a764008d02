-- ===== src/Executor/Lifecycle.antt =====
-- eventforge/executor.py: a submitted task stays known, its result is final, and it is what the
-- function did, in every mode.
use observer_pattern.Prelude.{
  ℕ, suc, ◌≤◌, ◌<◌, ◌≡◌, refl, ap, ◌∙◌, ◌⊎◌, inl, inr, Bool, true, ◌||◌, none, some, arith,
  if_cases, if◌then◌else◌, ◌==◌, nat_eq, text_eq, Option-cases,
}
use observer_pattern.Prelude.Keys.{text_beq}
use observer_pattern.Prelude.Dict
use observer_pattern.Prelude.Dict.{Dict}
use observer_pattern.Types.{Value, Result, ok, err, TaskResult}
use observer_pattern.Executor.{
  ExecutionMode, sequential, thread, process, Executor, Job, Future, waiting, returned, raised,
  init, start, stop, draw, file_result, file_future, submit_in, submit, work, on_complete, settled,
  execute_sync, run_with_timing, of_report, of_raw, raw_of, status_of,
}

-- What a worker hands back is read as `_execute_sync` would have put it, in every mode.
pub of_raw-raw_of :
    (mode : ExecutionMode) (task_id : ℕ) (outcome : Result Value)
    → of_raw task_id (raw_of mode task_id outcome) ≡ execute_sync task_id outcome
unfolding of_raw raw_of of_report run_with_timing execute_sync status_of text_beq
of_raw-raw_of sequential task_id outcome = refl
of_raw-raw_of thread task_id outcome = refl
of_raw-raw_of process task_id (ok v) = refl
of_raw-raw_of process task_id (err e) = refl

module _ {E : Type 0} where
  -- No task has an id that is still to be drawn, and none is finished and waited for at once.
  pub record IsSound (s : Executor E) : Type 0 where
    pub fresh_result : (k : ℕ) → s.uuids ≤ k → Dict.get k s.results ≡ none
    pub fresh_future : (k : ℕ) → s.uuids ≤ k → Dict.get k s.futures ≡ none
    pub apart : (k : ℕ) → (Dict.get k s.results ≡ none) ⊎ (Dict.get k s.futures ≡ none)

  abbrev pub known : ℕ → Executor E → Bool
  known k s = Dict.contains k s.results || Dict.contains k s.futures

  -- What no step takes back.
  pub record Keeps (s t : Executor E) : Type 0 where
    pub sound : IsSound t
    pub final :
        (k : ℕ) (r : TaskResult) → Dict.get k s.results ≡ some r → Dict.get k t.results ≡ some r
    pub knows : (k : ℕ) → known k s ≡ true → known k t ≡ true

  pub start_frame :
      (s : Executor E)
      → ((start s).results ≡ s.results)
        × ((start s).futures ≡ s.futures)
        × ((start s).uuids ≡ s.uuids)
  unfolding start
  start_frame s =
      if_cases {A = Executor E}
        (λ t. (t.results ≡ s.results) × (t.futures ≡ s.futures) × (t.uuids ≡ s.uuids)) s.is_running
        _ _ (λ b. (refl, refl, refl)) (λ b. (refl, refl, refl))

  -- A new id is filed among the results, or among the futures.
  add_result-Keeps :
      (r : TaskResult) (s t : Executor E)
      → IsSound s
      → t.results ≡ Dict.set s.uuids r s.results
      → t.futures ≡ s.futures
      → t.uuids ≡ suc s.uuids
      → Keeps s t
  unfolding Dict.contains
  add_result-Keeps r s t v p q n =
      let g : (k : ℕ)
          → Dict.get k t.results ≡ (if s.uuids == k then some r else Dict.get k s.results) =
        λ k. ap (Dict.get k) p ∙ Dict.get-set s.uuids k r s.results in
      record {
        sound = record {
          fresh_result = λ k h. ground (arith, g k, n, v.fresh_result k);
          fresh_future = λ k h. ground (arith, q, n, v.fresh_future k);
          apart = λ k. ground (arith, g k, q, v.apart k, v.fresh_future k);
        };
        final = λ k x h. ground (arith, g k, v.fresh_result k, h);
        knows = λ k h. ground (arith, g k, q, h);
      }

  add_future-Keeps :
      (f : Future E) (s t : Executor E)
      → IsSound s
      → t.results ≡ s.results
      → t.futures ≡ Dict.set s.uuids f s.futures
      → t.uuids ≡ suc s.uuids
      → Keeps s t
  unfolding Dict.contains
  add_future-Keeps f s t v p q n =
      let g : (k : ℕ)
          → Dict.get k t.futures ≡ (if s.uuids == k then some f else Dict.get k s.futures) =
        λ k. ap (Dict.get k) q ∙ Dict.get-set s.uuids k f s.futures in
      record {
        sound = record {
          fresh_result = λ k h. ground (arith, p, n, v.fresh_result k);
          fresh_future = λ k h. ground (arith, g k, n, v.fresh_future k);
          apart = λ k. ground (arith, g k, p, v.apart k, v.fresh_result k);
        };
        final = λ k x h. ground (arith, p, h);
        knows = λ k h. ground (arith, g k, p, h);
      }

  submit-Keeps :
      (job : Job E) (s : Executor E) (env : E) → IsSound s → Keeps s (submit job (s, env)).1.0
  unfolding submit submit_in
  submit-Keeps job s env v = elim s.mode as (λ m. Keeps s (submit_in m job (s, env)).1.0) [
    | sequential ↦ add_result-Keeps (execute_sync s.uuids (job env).0) s _ v refl refl refl
    | thread ↦
        let f = start_frame (draw s) in
        add_future-Keeps (waiting job) s _ v f.0 (ap (Dict.set s.uuids (waiting job)) f.1) f.2
    | process ↦
        let f = start_frame (draw s) in
        add_future-Keeps (waiting job) s _ v f.0 (ap (Dict.set s.uuids (waiting job)) f.1) f.2
  ]

  -- Nothing changes, a future changes, or a future becomes a result.
  same-Keeps : (s : Executor E) → IsSound s → Keeps s s
  same-Keeps s v = record { sound = v; final = λ k r h. h; knows = λ k h. h }

  set_future-Keeps :
      (task_id : ℕ) (f f₀ : Future E) (s : Executor E)
      → IsSound s
      → Dict.get task_id s.futures ≡ some f₀
      → Keeps s (record s { futures = Dict.set task_id f s.futures })
  unfolding Dict.contains
  set_future-Keeps task_id f f₀ s v q = record {
    sound = record {
      fresh_result = v.fresh_result;
      fresh_future = λ k h. ground (arith, Dict.get-set task_id k f s.futures, v.fresh_future k, q);
      apart = λ k. ground (arith, Dict.get-set task_id k f s.futures, v.apart k, q);
    };
    final = λ k r h. h;
    knows = λ k h. ground (arith, Dict.get-set task_id k f s.futures, h);
  }

  settle-Keeps :
      (task_id : ℕ) (r : TaskResult) (f : Future E) (s : Executor E)
      → IsSound s
      → Dict.get task_id s.futures ≡ some f
      → Keeps s (record s {
        results = Dict.set task_id r s.results;
        futures = Dict.erase task_id s.futures;
      })
  unfolding Dict.contains
  settle-Keeps task_id r f s v q =
      let g = λ (k : ℕ). Dict.get-set task_id k r s.results in
      let e = λ (k : ℕ). Dict.get-erase task_id k s.futures in
      record {
        sound = record {
          fresh_result = λ k h. ground (arith, g k, v.fresh_result k, v.fresh_future k, q);
          fresh_future = λ k h. ground (arith, e k, v.fresh_future k);
          apart = λ k. ground (arith, g k, e k, v.apart k);
        };
        final = λ k x h. ground (arith, g k, v.apart k, q, h);
        knows = λ k h. ground (arith, g k, e k, h);
      }

  work-Keeps :
      (task_id : ℕ) (s : Executor E) (env : E) → IsSound s → Keeps s (work task_id (s, env)).0
  unfolding work
  work-Keeps task_id s env v = elim (Option-cases (Dict.get task_id s.futures)) [
    | inl q ↦ rw (q, work) (same-Keeps s v)
    | inr (waiting job, q) ↦
        rw (q, work)
          (set_future-Keeps task_id (returned (raw_of s.mode task_id (job env).0)) (waiting job) s v
            q)
    | inr (returned raw, q) ↦ rw (q, work) (same-Keeps s v)
    | inr (raised e, q) ↦ rw (q, work) (same-Keeps s v)
  ]

  on_complete-Keeps : (task_id : ℕ) (s : Executor E) → IsSound s → Keeps s (on_complete task_id s)
  unfolding on_complete
  on_complete-Keeps task_id s v = elim (Option-cases (Dict.get task_id s.futures)) [
    | inl q ↦ rw (q, on_complete) (same-Keeps s v)
    | inr (f, q) ↦ elim (Option-cases (settled task_id f)) [
      | inl p ↦ rw (q, on_complete) (rw (p, on_complete) (same-Keeps s v))
      | inr (r, p) ↦ rw (q, on_complete) (rw (p, on_complete) (settle-Keeps task_id r f s v q))
    ]
  ]

  -- An id that a thread has drawn, and under which nothing is filed yet.
  abbrev pub IsDrawn : ℕ → Executor E → Type 0
  IsDrawn task_id s =
      (task_id < s.uuids)
      × (Dict.get task_id s.results ≡ none)
      × (Dict.get task_id s.futures ≡ none)

  draw-Keeps : (s : Executor E) → IsSound s → Keeps s (draw s)
  draw-Keeps s v = record {
    sound = record {
      fresh_result = λ k h. v.fresh_result k (omega (arith, h));
      fresh_future = λ k h. v.fresh_future k (omega (arith, h));
      apart = v.apart;
    };
    final = λ k r h. h;
    knows = λ k h. h;
  }

  file_result-Keeps :
      (task_id : ℕ) (r : TaskResult) (s : Executor E)
      → IsDrawn task_id s
      → IsSound s
      → Keeps s (file_result task_id r s)
  unfolding Dict.contains
  file_result-Keeps task_id r s d v =
      let g = λ (k : ℕ). Dict.get-set task_id k r s.results in
      record {
        sound = record {
          fresh_result = λ k h. ground (arith, g k, v.fresh_result k, d.0);
          fresh_future = v.fresh_future;
          apart = λ k. ground (arith, g k, v.apart k, d.2);
        };
        final = λ k x h. ground (arith, g k, d.1, h);
        knows = λ k h. ground (arith, g k, h);
      }

  file_future-Keeps :
      (task_id : ℕ) (f : Future E) (s : Executor E)
      → IsDrawn task_id s
      → IsSound s
      → Keeps s (file_future task_id f s)
  unfolding Dict.contains
  file_future-Keeps task_id f s d v =
      let g = λ (k : ℕ). Dict.get-set task_id k f s.futures in
      record {
        sound = record {
          fresh_result = v.fresh_result;
          fresh_future = λ k h. ground (arith, g k, v.fresh_future k, d.0);
          apart = λ k. ground (arith, g k, v.apart k, d.1);
        };
        final = λ k x h. h;
        knows = λ k h. ground (arith, g k, h);
      }

  -- One section of a thread, the world `E` with it. A `submit` is `submits` where no other thread
  -- runs within it; else it draws an id, runs the job or starts the executor, and files what comes
  -- of it, which is a future that may already be done.
  pub data Step (w : Executor E × E) : Executor E × E → Type 0 where
    draws : Step w (draw w.0, w.1)
    runs : (job : Job E) → Step w (w.0, (job w.1).1)
    files_result :
        (task_id : ℕ) (r : TaskResult)
        → IsDrawn task_id w.0
        → Step w (file_result task_id r w.0, w.1)
    files_future :
        (task_id : ℕ) (f : Future E) → IsDrawn task_id w.0 → Step w (file_future task_id f w.0, w.1)
    submits : (job : Job E) → Step w (submit job w).1
    works : (task_id : ℕ) → Step w (work task_id w)
    completes : (task_id : ℕ) → Step w (on_complete task_id w.0, w.1)
    starts : Step w (start w.0, w.1)
    stops : Step w (stop w.0, w.1)

  pub data Run (w : Executor E × E) : Executor E × E → Type 0 where
    here : Run w w
    next : {u v : Executor E × E} → Run w u → Step u v → Run w v

  start-Keeps : (s : Executor E) → IsSound s → Keeps s (start s)
  unfolding start
  start-Keeps s v =
      if_cases {A = Executor E} (Keeps s) s.is_running _ _ (λ b. same-Keeps s v)
        (λ b. record {
          sound = record {
            fresh_result = v.fresh_result;
            fresh_future = v.fresh_future;
            apart = v.apart;
          };
          final = λ k r h. h;
          knows = λ k h. h;
        })

  stop-Keeps : (s : Executor E) → IsSound s → Keeps s (stop s)
  unfolding stop
  stop-Keeps s v =
      if_cases {A = Executor E} (Keeps s) s.is_running _ _
        (λ b. record {
          sound = record {
            fresh_result = v.fresh_result;
            fresh_future = v.fresh_future;
            apart = v.apart;
          };
          final = λ k r h. h;
          knows = λ k h. h;
        })
        (λ b. same-Keeps s v)

  Step-Keeps : {w u : Executor E × E} → Step w u → IsSound w.0 → Keeps w.0 u.0
  Step-Keeps {w} draws v = draw-Keeps w.0 v
  Step-Keeps {w} (runs job) v = same-Keeps w.0 v
  Step-Keeps {w} (files_result task_id r d) v = file_result-Keeps task_id r w.0 d v
  Step-Keeps {w} (files_future task_id f d) v = file_future-Keeps task_id f w.0 d v
  Step-Keeps {w} (submits job) v = submit-Keeps job w.0 w.1 v
  Step-Keeps {w} (works task_id) v = work-Keeps task_id w.0 w.1 v
  Step-Keeps {w} (completes task_id) v = on_complete-Keeps task_id w.0 v
  Step-Keeps {w} starts v = start-Keeps w.0 v
  Step-Keeps {w} stops v = stop-Keeps w.0 v

  -- However the sections of `submit`, workers, callbacks, starts and stops interleave on a sound executor, it
  -- stays sound, a result never changes once it is there, and a task that is known stays known.
  pub Run-Keeps : {w u : Executor E × E} → IsSound w.0 → Run w u → Keeps w.0 u.0
  Run-Keeps v here = same-Keeps _ v
  Run-Keeps v (next r x) =
      let a = Run-Keeps v r in
      let b = Step-Keeps x a.sound in
      record {
        sound = b.sound;
        final = λ k y h. b.final k y (a.final k y h);
        knows = λ k h. b.knows k (a.knows k h);
      }

  pub init-IsSound : (mode : ExecutionMode) → IsSound (init mode)
  unfolding init Dict.get
  init-IsSound mode = record {
    fresh_result = λ k h. refl;
    fresh_future = λ k h. refl;
    apart = λ k. inl refl;
  }
