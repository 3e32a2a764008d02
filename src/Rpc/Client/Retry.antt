-- ===== src/Rpc/Client/Retry.antt =====
-- eventforge/rpc.py: how often `with_retry` calls, and how long it sleeps; the turns of the pool.
use observer_pattern.Prelude.{
  ℕ, zero, suc, ◌+◌, ◌*◌, ◌%◌, ◌<◌, ◌≤◌, ◌≡◌, refl, ap, sym, ◌∙◌, ◌⊎◌, inl, inr, Bool, true, false,
  some, List, [], ◌∷◌, arith, Bool-cases, length, get_elem?, get_elem?_lt,
}
use native.Mathlib.Nat.{mod-add-mod, mod-eq_of_lt, mod-lt}
use observer_pattern.Types.{Value, Error, Result, ok, err}
use observer_pattern.Rpc.Client.{RoundRobinClient, next_client, retrying}

Result-cases : (r : Result Value) → ((v : Value) × (r ≡ ok v)) ⊎ ((e : Error) × (r ≡ err e))
Result-cases (ok v) = inl (v, refl)
Result-cases (err e) = inr (e, refl)

module _ (outcome : ℕ → Result Value) (retry_on : Error → Bool) (factor : ℕ) where
  -- A call whose attempts are counted, and whose outcome goes by the attempt.
  abbrev pub attempt : ℕ → Result Value × ℕ
  attempt n = (outcome n, suc n)

  -- An attempt that is tried again.
  abbrev pub IsRetried : Result Value → Type 0
  IsRetried (ok v) = ⊥
  IsRetried (err e) = retry_on e ≡ true

  -- One that ends the call.
  abbrev pub IsFinal : Result Value → Type 0
  IsFinal (ok v) = Unit
  IsFinal (err e) = retry_on e ≡ false

  -- The delays of so many retries, each `factor` times the one before.
  abbrev pub delays : ℕ → ℕ → List ℕ
  delays zero delay = []
  delays (suc k) delay = delay ∷ delays k (delay * factor)

  -- `n` retried attempts from attempt `start` on.
  abbrev pub AllRetried : ℕ → ℕ → Type 0
  AllRetried start zero = Unit
  AllRetried start (suc n) = IsRetried (outcome start) × AllRetried (suc start) n

  -- Of at most `retries` + 1 attempts, all but the last are retried, after delays that grow by the
  -- factor; the call ends as the last attempt does, which ends it by itself or is the last allowed.
  pub retrying_ends :
      (retries delay start : ℕ)
      → (k last : ℕ) × (last ≡ start + k)
        × (k ≤ retries)
        × AllRetried start k
        × ((k ≡ retries) ⊎ IsFinal (outcome last))
        × (retrying attempt retry_on factor retries delay start
            ≡ (delays k delay, (outcome last, suc last)))
  unfolding retrying
  retrying_ends zero delay start = (0, start, omega arith, omega arith, tt, inl refl, refl)
  retrying_ends (suc retries) delay start = elim (Result-cases (outcome start)) [
    | inl (v, q) ↦ (0, start, omega arith, omega arith, tt, inr (rw q tt), rw (q, retrying) refl)
    | inr (e, q) ↦ elim (Bool-cases (retry_on e)) [
      | inr b ↦ (0, start, omega arith, omega arith, tt, inr (rw q b), rw (q, retrying, b) refl)
      | inl b ↦
          let (k, last, n, m, all, end, same) =
            retrying_ends retries (delay * factor) (suc start) in
          (
            suc k,
            last,
            omega arith,
            omega arith,
            (rw q b, all),
            elim end [ inl z ↦ inl (omega arith) | inr z ↦ inr z ],
            rw (q, retrying, b)
                (ap {A = List ℕ × (Result Value × ℕ)} {B = List ℕ × (Result Value × ℕ)}
                  (λ x. (delay ∷ x.0, x.1)) same),
          )
    ]
  ]

module _ {K : Type 0} where
  -- So many calls of `_next_client`: the clients, in order.
  abbrev pub turns : ℕ → RoundRobinClient K → List (Result K) × RoundRobinClient K
  turns zero c = ([], c)
  turns (suc n) c = let (k, c₁) = next_client c in let (ks, c₂) = turns n c₁ in (k ∷ ks, c₂)

  next_client_turn :
      (c : RoundRobinClient K)
      → c.idx < length c.clients
      → (k : K) × (get_elem? c.clients c.idx ≡ some k)
        × (next_client c ≡ (ok k, record c { idx = (c.idx + 1) % length c.clients }))
  unfolding next_client
  next_client_turn c h =
      let (k, q) = get_elem?_lt c.clients c.idx h in (k, q, rw (q, next_client) refl)

  -- Where the pool stands after so many calls.
  turns_index :
      (n : ℕ) (c : RoundRobinClient K)
      → c.idx < length c.clients
      → let after = (turns n c).1 in
        (after.clients ≡ c.clients)
        × (after.idx ≡ (c.idx + n) % length c.clients)
        × (after.idx < length c.clients)
  turns_index zero c h =
      (refl, sym (mod-eq_of_lt h) ∙ ap (λ x. x % length c.clients) (omega arith), h)
  turns_index (suc n) c h =
      let (k, q, e) = next_client_turn c h in
      let m = length c.clients in
      let c₁ : RoundRobinClient K = record c { idx = (c.idx + 1) % m } in
      let same : (next_client c).1 ≡ c₁ = ap (λ r. r.1) e in
      let ih = turns_index n c₁ (mod-lt (c.idx + 1) (omega arith)) in
      let i : (turns n (next_client c).1).1 ≡ (turns n c₁).1 = ap (λ x. (turns n x).1) same in
      rw i (ih.0, ih.1 ∙ mod-add-mod (c.idx + 1) m n ∙ ap (λ x. x % m) (omega arith), ih.2)

  -- Whatever the pool's turn is, after `n` more calls the next one goes to the client `n` places
  -- further round the list: the pool never runs past its end, and each client has its turn.
  pub turns_rotate :
      (n : ℕ) (c : RoundRobinClient K)
      → c.idx < length c.clients
      → (k : K) × (get_elem? c.clients ((c.idx + n) % length c.clients) ≡ some k)
        × ((next_client (turns n c).1).0 ≡ ok k)
  turns_rotate n c h =
      let t = turns_index n c h in
      let after = (turns n c).1 in
      let (k, q, e) = next_client_turn after (omega (arith, t.2, ap length t.0)) in
      (
        k,
        sym (ap (λ l. get_elem? l after.idx) t.0 ∙ ap (get_elem? c.clients) t.1) ∙ q,
        ap (λ r. r.0) e,
      )
