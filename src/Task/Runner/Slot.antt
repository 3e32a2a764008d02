-- ===== src/Task/Runner/Slot.antt =====
-- eventforge/task.py, `TaskRunner.run`: the slot of the pool is always given back.
use observer_pattern.Prelude.{
  ℕ, suc, ◌-◌, ◌<◌, ◌≡◌, refl, ◌∙◌, inl, inr, ◌⊎◌, Bool, true, false, Option, none, some, List, [],
  ◌∷◌, if◌then◌else◌, Bool-cases, ltb, arith, Text,
}
use observer_pattern.Types.{timeout_error, Result, err}
use observer_pattern.Executor.{Executor, Job}
use observer_pattern.Task.Pool.{
  TaskPool, enter, take_permit, settle, leave, give_permit, await_permit, acquire, release,
}
use observer_pattern.Task.Runner.{TaskContext, TaskRunner, execute, run}

-- A wait, by what other threads do meanwhile: whether it finds a permit, and what it sees last. It
-- goes on only as long as there is no permit.
pub data Waits {W : Type 0}
    : List (TaskPool × W → TaskPool × W) → TaskPool × W → Bool → TaskPool × W → Type 0 where
  finds :
      {waits : List (TaskPool × W → TaskPool × W)} {x : TaskPool × W}
      → 0 < x.0.permits
      → Waits waits x true x
  ends : {x : TaskPool × W} → x.0.permits ≡ 0 → Waits [] x false x
  goes_on :
      {others : TaskPool × W → TaskPool × W} {waits : List (TaskPool × W → TaskPool × W)}
      {x y : TaskPool × W} {found : Bool}
      → x.0.permits ≡ 0
      → Waits waits (others x) found y
      → Waits (others ∷ waits) x found y

-- A thread has left the pool again, with or without having run its task.
abbrev pub served : TaskPool → TaskPool
served p = record p { queued = p.queued - 1; total_processed = suc p.total_processed }

abbrev pub refused : TaskPool → TaskPool
refused p = record p { queued = p.queued - 1 }

permit_cases : (p : TaskPool) → (p.permits ≡ 0) ⊎ (0 < p.permits)
permit_cases p = elim (Bool-cases (ltb 0 p.permits)) [
  | inl b ↦ inr (ground (arith, b))
  | inr b ↦ inl (ground (arith, b))
]

take_permit_lem : (p : TaskPool) → 0 < p.permits → (take_permit p).0 ≡ true
unfolding take_permit
take_permit_lem p h = ground (arith, h)

take_permit_none : (p : TaskPool) → p.permits ≡ 0 → (take_permit p).0 ≡ false
unfolding take_permit
take_permit_none p h = ground (arith, h)

served_lem : (p : TaskPool) → 0 < p.permits → release (settle true (take_permit p).1) ≡ served p
unfolding release settle leave give_permit take_permit
served_lem p h = ground (arith, h)

refused_lem : (p : TaskPool) → settle false p ≡ refused p
unfolding settle
refused_lem p = refl

module _ {W : Type 0} where
  -- What `await_permit` answers of such a wait.
  abbrev pub Awaited :
      Bool
      → List (TaskPool × W → TaskPool × W)
      → TaskPool × W
      → Option (Bool × (TaskPool × W))
      → Type 0
  Awaited has_timeout waits x answer =
      (y : TaskPool × W) × ((Waits waits x true y
          × (0 < y.0.permits)
          × (answer ≡ some (true, ((take_permit y.0).1, y.1))))
        ⊎ (Waits waits x false y × (answer ≡ (if has_timeout then some (false, y) else none))))

  await_permit-Awaited :
      (has_timeout : Bool) (waits : List (TaskPool × W → TaskPool × W)) (x : TaskPool × W)
      → Awaited has_timeout waits x (await_permit has_timeout waits x)
  unfolding await_permit
  await_permit-Awaited has_timeout [] x = elim (permit_cases x.0) [
    | inl z ↦ (x, inr (ends z, rw (take_permit_none x.0 z, await_permit) refl))
    | inr h ↦ (x, inl (finds h, h, rw (take_permit_lem x.0 h, await_permit) refl))
  ]
  await_permit-Awaited has_timeout (others ∷ waits) x = elim (permit_cases x.0) [
    | inr h ↦ (x, inl (finds h, h, rw (take_permit_lem x.0 h, await_permit) refl))
    | inl z ↦
        let (y, c) = await_permit-Awaited has_timeout waits (others x) in
        elim c [
          | inl (w, h, e) ↦ (y, inl (goes_on z w, h, rw (take_permit_none x.0 z, await_permit) e))
          | inr (w, e) ↦ (y, inr (goes_on z w, rw (take_permit_none x.0 z, await_permit) e))
        ]
  ]

module _ {C E : Type 0} (invoke : C → TaskContext → E → Result (Unit {0}) × E)
    (publish : Text → TaskContext → E → Result (Unit {0}) × E) where
  -- A `run` waits as long as the pool has no free permit. Once it sees one, and if no other thread
  -- uses the pool while it executes, it answers what the execution answers, whatever raises in it,
  -- and leaves the pool as it found it then, but for itself, which waits no more and counts as
  -- processed. If the wait ends without one, it runs nothing and takes no slot, and raises a
  -- time-out if it has one; else it goes on waiting.
  pub run_returns_slot :
      (runner : TaskRunner C) (task_id : ℕ) (func : Job E) (has_timeout : Bool)
      (waits : List (TaskPool × (Executor E × E) → TaskPool × (Executor E × E))) (pool : TaskPool)
      (world : Executor E × E)
      → let answer = run invoke publish runner task_id func has_timeout waits (some pool) world in
        (y : TaskPool × (Executor E × E)) × ((Waits waits (enter pool, world) true y
            × (answer
                ≡ some (
                  (execute invoke publish runner task_id func y.1).0,
                  (some (served y.0), (execute invoke publish runner task_id func y.1).1),
                )))
          ⊎ (Waits waits (enter pool, world) false y
              × (answer ≡ (
                  if has_timeout
                  then some (err timeout_error, (some (refused y.0), y.1))
                  else none))))
  unfolding run acquire
  run_returns_slot runner task_id func has_timeout waits pool world =
      let (y, c) = await_permit-Awaited has_timeout waits (enter pool, world) in
      elim c [
        | inl (w, h, e) ↦ (y, inl (w, rw (e, run, acquire) (rw (served_lem y.0 h) refl)))
        | inr (w, e) ↦ elim (Bool-cases has_timeout) [
          | inl b ↦
              let e₁ : await_permit has_timeout waits (enter pool, world) ≡ some (false, y) =
                e ∙ rw b refl in
              (y, inr (w, rw (e₁, run, acquire) (rw (refused_lem y.0, b) refl)))
          | inr b ↦
              let e₁ : await_permit has_timeout waits (enter pool, world) ≡ none = e ∙ rw b refl in
              (y, inr (w, rw (e₁, run, acquire) (rw b refl)))
        ]
      ]
