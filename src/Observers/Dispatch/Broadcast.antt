-- ===== src/Observers/Dispatch/Broadcast.antt =====
-- eventforge/observers.py, `BroadcastDispatcher`: whom a fire reaches.
use observer_pattern.Prelude.{
  ◌≡◌, refl, ap, sym, ◌∙◌, inl, inr, Option, none, some, List, [], ◌∷◌, ◌++◌, Option-cases,
}
use mathlib.Core.List.{append_assoc, append-nil}
use observer_pattern.Types.{Error, Result, ok, err}
use observer_pattern.Observers.Dispatch.{broadcast}

module _ {C A : Type 0} (raises : C → A → Option Error) where
  -- A subscriber that notes the call, and raises or returns.
  abbrev pub outcome : Option Error → Result (Unit {0})
  outcome none = ok tt
  outcome (some e) = err e

  abbrev pub noting : C → A → List C → Result (Unit {0}) × List C
  noting fn args log = (outcome (raises fn args), log ++ fn ∷ [])

  -- The subscribers up to the first that raises, and what it raises.
  abbrev pub reached : A → List C → List C × Result (Unit {0})
  reached args [] = ([], ok tt)
  reached args (fn ∷ fns) = elim (raises fn args) [
    | none ↦ (fn ∷ (reached args fns).0, (reached args fns).1)
    | some e ↦ (fn ∷ [], err e)
  ]

  -- A fire calls the subscribers in order up to the first that raises, whose exception it raises;
  -- if none does, it calls them all and returns.
  pub broadcast_reaches :
      (subscribers : List C) (args : A) (log : List C)
      → broadcast noting subscribers args log
        ≡ ((reached args subscribers).1, log ++ (reached args subscribers).0)
  unfolding broadcast
  broadcast_reaches [] args log =
      ap {B = Result (Unit {0}) × List C} (λ l. (ok tt, l)) (sym (append-nil log))
  broadcast_reaches (fn ∷ fns) args log = elim (Option-cases (raises fn args)) [
    | inl q ↦
        rw (q, broadcast, reached)
          (broadcast_reaches fns args (log ++ fn ∷ [])
            ∙ ap (λ l. ((reached args fns).1, l)) (append_assoc log (fn ∷ []) (reached args fns).0))
    | inr (e, q) ↦ rw (q, broadcast, reached) refl
  ]
