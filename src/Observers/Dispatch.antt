-- ===== src/Observers/Dispatch.antt =====
-- eventforge/observers.py: `BroadcastDispatcher`, `RoundRobinDispatcher` and
-- `ConcurrentDispatcher`. `C` names the subscribers, `A` is what is fired; `invoke` calls one on
-- the rest of the world `E`, and answers with its exception if it raised.
pub mod Broadcast
pub mod Rotation
use observer_pattern.Prelude.{
  ℕ, suc, ◌+◌, ◌%◌, Option, none, some, List, [], ◌∷◌, length, get_elem?,
}
use observer_pattern.Types.{Result, ok, err}
use observer_pattern.Executor.{Executor, Job, submit}

-- The subscriber that a `RoundRobinDispatcher` picks.
unfoldable pub pick : {C : Type 0} → ℕ → List C → Option C
pick idx [] = none
pick idx (fn ∷ subscribers) = get_elem? (fn ∷ subscribers) (idx % length (fn ∷ subscribers))

module _ {C A E : Type 0} where
  module _ (invoke : C → A → E → Result (Unit {0}) × E) where
    -- `BroadcastDispatcher.dispatch`: the first exception ends it.
    unfoldable pub broadcast : List C → A → E → Result (Unit {0}) × E
    broadcast [] args env = (ok tt, env)
    broadcast (fn ∷ subscribers) args env =
        let (r, env₁) = invoke fn args env in
        let rest = broadcast subscribers args env₁ in elim r [ err e ↦ (err e, env₁) | ok u ↦ rest ]

    -- `RoundRobinDispatcher.dispatch`: the new `_idx`; an exception is logged.
    unfoldable pub round_robin : ℕ → List C → A → E → ℕ × E
    round_robin idx subscribers args env = elim (pick idx subscribers) [
      | none ↦ (idx, env)
      | some fn ↦ (suc idx, (invoke fn args env).1)
    ]

  -- `ConcurrentDispatcher.dispatch`: every call is a job for the executor.
  unfoldable pub concurrent : (C → A → Job E) → List C → A → Executor E × E → Executor E × E
  concurrent call [] args world = world
  concurrent call (fn ∷ subscribers) args world =
      concurrent call subscribers args (submit (call fn args) world).1
