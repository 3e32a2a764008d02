-- ===== src/Task/Pool/Bounds.antt =====
-- eventforge/task.py, `TaskPool`: the threads at each point of `acquire` and `release`, and what
-- the counters come to.
use observer_pattern.Prelude.{ℕ, zero, suc, ◌+◌, ◌≤◌, ◌≡◌, refl, ◌∙◌, subst, true, false, arith}
use observer_pattern.Types.{ok}
use observer_pattern.Task.Pool.{TaskPool, init, enter, take_permit, settle, leave, give_permit}

-- How many threads wait for a permit, hold one that is not counted yet, gave up and are still
-- counted as waiting, run their task, and have been counted out but hold their permit.
pub record Threads : Type 0 where
  pub waiting : ℕ
  pub entering : ℕ
  pub refused : ℕ
  pub busy : ℕ
  pub leaving : ℕ

abbrev pub idle : Threads
idle = record { waiting = 0; entering = 0; refused = 0; busy = 0; leaving = 0 }

-- One section of one thread, which is at the point that the section is for.
pub data Step : TaskPool × Threads → TaskPool × Threads → Type 0 where
  enters :
      {p : TaskPool} {t : Threads} → Step (p, t) (enter p, record t { waiting = suc t.waiting })
  takes :
      {p : TaskPool} {t : Threads} (n : ℕ)
      → t.waiting ≡ suc n
      → (take_permit p).0 ≡ true
      → Step (p, t) ((take_permit p).1, record t { waiting = n; entering = suc t.entering })
  gives_up :
      {p : TaskPool} {t : Threads} (n : ℕ)
      → t.waiting ≡ suc n
      → Step (p, t) (p, record t { waiting = n; refused = suc t.refused })
  counts_in :
      {p : TaskPool} {t : Threads} (n : ℕ)
      → t.entering ≡ suc n
      → Step (p, t) (settle true p, record t { entering = n; busy = suc t.busy })
  counts_refusal :
      {p : TaskPool} {t : Threads} (n : ℕ)
      → t.refused ≡ suc n
      → Step (p, t) (settle false p, record t { refused = n })
  leaves :
      {p : TaskPool} {t : Threads} (n : ℕ)
      → t.busy ≡ suc n
      → Step (p, t) (leave p, record t { busy = n; leaving = suc t.leaving })
  gives_back :
      {p : TaskPool} {t : Threads} (n : ℕ)
      → t.leaving ≡ suc n
      → Step (p, t) (give_permit p, record t { leaving = n })

pub data Run (s : TaskPool × Threads) : TaskPool × Threads → Type 0 where
  here : Run s s
  next : {u v : TaskPool × Threads} → Run s u → Step u v → Run s v

-- The counters count the threads.
abbrev pub IsCounted : TaskPool × Threads → Type 0
IsCounted (p, t) =
    (p.permits + t.entering + t.busy + t.leaving ≡ p.max_instances)
    × (p.active ≡ t.busy)
    × (p.queued ≡ t.waiting + t.entering + t.refused)

take_permit_takes :
    (p : TaskPool)
    → (take_permit p).0 ≡ true
    → ((take_permit p).1.permits + 1 ≡ p.permits)
      × ((take_permit p).1.max_instances ≡ p.max_instances)
      × ((take_permit p).1.active ≡ p.active)
      × ((take_permit p).1.queued ≡ p.queued)
unfolding take_permit
take_permit_takes p q = ground (arith, q)

Step-IsCounted : {s u : TaskPool × Threads} → Step s u → IsCounted s → IsCounted u
unfolding enter take_permit settle leave give_permit
Step-IsCounted {s = s} enters v = (v.0, v.1, omega (arith, v.2))
Step-IsCounted {s = s} (takes n e q) v =
    let k = take_permit_takes s.0 q in
    (omega (arith, v.0, e, k.0, k.1), omega (arith, v.1, k.2), omega (arith, v.2, e, k.3))
Step-IsCounted {s = s} (gives_up n e) v = (v.0, v.1, omega (arith, v.2, e))
Step-IsCounted {s = s} (counts_in n e) v =
    (omega (arith, v.0, e), omega (arith, v.1), omega (arith, v.2, e))
Step-IsCounted {s = s} (counts_refusal n e) v = (v.0, v.1, omega (arith, v.2, e))
Step-IsCounted {s = s} (leaves n e) v = (omega (arith, v.0, e), omega (arith, v.1, e), v.2)
Step-IsCounted {s = s} (gives_back n e) v = (omega (arith, v.0, e), v.1, v.2)

Run-IsCounted : {s u : TaskPool × Threads} → IsCounted s → Run s u → IsCounted u
Run-IsCounted v here = v
Run-IsCounted v (next r x) = Step-IsCounted x (Run-IsCounted v r)

Step-max_instances : {s u : TaskPool × Threads} → Step s u → u.0.max_instances ≡ s.0.max_instances
unfolding enter take_permit settle leave give_permit
Step-max_instances enters = refl
Step-max_instances {s = s} (takes n e q) = (take_permit_takes s.0 q).1
Step-max_instances (gives_up n e) = refl
Step-max_instances (counts_in n e) = refl
Step-max_instances (counts_refusal n e) = refl
Step-max_instances (leaves n e) = refl
Step-max_instances (gives_back n e) = refl

Run-max_instances : {s u : TaskPool × Threads} → Run s u → u.0.max_instances ≡ s.0.max_instances
Run-max_instances here = refl
Run-max_instances (next r x) = Step-max_instances x ∙ Run-max_instances r

init_lem :
    (n : ℕ) (p : TaskPool)
    → init n ≡ ok p
    → (p.max_instances ≡ n) × (p.permits ≡ n) × (p.active ≡ 0) × (p.queued ≡ 0)
unfolding init
init_lem zero p made = cc made
init_lem (suc n) p made =
    let fresh : TaskPool = record {
      max_instances = suc n;
      permits = suc n;
      active = 0;
      total_processed = 0;
      queued = 0;
    } in
    let same : fresh ≡ p = cc made in
    subst (λ x. (x.max_instances ≡ suc n) × (x.permits ≡ suc n) × (x.active ≡ 0) × (x.queued ≡ 0))
      same (refl, refl, refl, refl)

-- However the sections of `acquire` and `release` interleave on a new pool, at most `max_instances`
-- instances are counted active, every permit is either free or held by one of the threads, and the
-- threads counted as queued are those in `acquire`.
pub Run-bounded :
    (n : ℕ) (p q : TaskPool) (t : Threads)
    → init n ≡ ok p
    → Run (p, idle) (q, t)
    → (q.active + q.permits ≤ n)
      × (t.entering + t.busy + t.leaving + q.permits ≡ n)
      × (q.queued ≡ t.waiting + t.entering + t.refused)
Run-bounded n p q t made r =
    let i = init_lem n p made in
    let v = Run-IsCounted (omega (arith, i.0, i.1), i.2, i.3) r in
    let m = Run-max_instances r in
    (omega (arith, v.0, v.1, m, i.0), omega (arith, v.0, m, i.0), v.2)
