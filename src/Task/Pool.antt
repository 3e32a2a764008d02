-- ===== src/Task/Pool.antt =====
-- eventforge/task.py, `TaskPool`. `acquire` and `release` are chains of sections: those of `_lock`
-- and those of the semaphore, between which other threads run.
pub mod Bounds
use observer_pattern.Prelude.{
  ℕ, zero, suc, ◌+◌, ◌-◌, Bool, true, false, Option, none, some, List, [], ◌∷◌, if◌then◌else◌, ltb,
}
use observer_pattern.Types.{Result, ok, err, value_error}

-- `permits` is the semaphore's counter. Python's `_active` and `_queued` are ints; a thread takes
-- from them only what it has added before.
pub record TaskPool : Type 0 where
  pub max_instances : ℕ
  pub permits : ℕ
  pub active : ℕ
  pub total_processed : ℕ
  pub queued : ℕ

-- `TaskPool.__init__`
unfoldable pub init : ℕ → Result TaskPool
init zero = err value_error
init (suc n) =
    ok (record {
      max_instances = suc n;
      permits = suc n;
      active = 0;
      total_processed = 0;
      queued = 0;
    })

-- `acquire`: the first section counts the thread as waiting.
unfoldable pub enter : TaskPool → TaskPool
enter p = record p { queued = suc p.queued }

-- `self._semaphore.acquire(...)`: no permit is taken where there is none; a blocking call waits
-- and tries again, or gives up.
unfoldable pub take_permit : TaskPool → Bool × TaskPool
take_permit p = elim p.permits [ zero ↦ (false, p) | suc n ↦ (true, record p { permits = n }) ]

-- The last section of `acquire`, by what the semaphore answered.
unfoldable pub settle : Bool → TaskPool → TaskPool
settle acquired p = record p {
  queued = p.queued - 1;
  active = if acquired then suc p.active else p.active;
}

-- `release`: the section of the lock, then the semaphore.
unfoldable pub leave : TaskPool → TaskPool
leave p = record p { active = p.active - 1; total_processed = suc p.total_processed }

unfoldable pub give_permit : TaskPool → TaskPool
give_permit p = record p { permits = suc p.permits }

module _ {W : Type 0} where
  -- The wait for the semaphore, of a thread that sees the pool and the rest of the world `W`: what
  -- other threads do meanwhile comes from the list. Where that ends, a call with a timeout has
  -- reached it; a call without one still waits, which is `none`. A call that does not block has
  -- an empty list and a timeout.
  unfoldable pub await_permit :
      Bool → List (TaskPool × W → TaskPool × W) → TaskPool × W → Option (Bool × (TaskPool × W))
  await_permit has_timeout [] (p, world) =
      let (taken, p₁) = take_permit p in
      if taken
      then some (true, (p₁, world))
      else (if has_timeout then some (false, (p, world)) else none)
  await_permit has_timeout (others ∷ waits) (p, world) =
      let (taken, p₁) = take_permit p in
      let waited = await_permit has_timeout waits (others (p, world)) in
      if taken then some (true, (p₁, world)) else waited

  -- A whole `acquire`
  unfoldable pub acquire :
      Bool → List (TaskPool × W → TaskPool × W) → TaskPool × W → Option (Bool × (TaskPool × W))
  acquire has_timeout waits (p, world) = elim (await_permit has_timeout waits (enter p, world)) [
    | none ↦ none
    | some (acquired, (p₁, world₁)) ↦ some (acquired, (settle acquired p₁, world₁))
  ]

-- A whole `release`
unfoldable pub release : TaskPool → TaskPool
release p = give_permit (leave p)

-- `available`
unfoldable pub available : TaskPool → ℕ
available p = p.max_instances - p.active

pub record Stats : Type 0 where
  pub stat_active : ℕ
  pub stat_queued : ℕ
  pub stat_available : ℕ
  pub stat_max : ℕ
  pub stat_total_processed : ℕ

unfoldable pub stats : TaskPool → Stats
stats p = record {
  stat_active = p.active;
  stat_queued = p.queued;
  stat_available = available p;
  stat_max = p.max_instances;
  stat_total_processed = p.total_processed;
}
