-- ===== src/Types/SharedState/Tests.antt =====
-- eventforge/types.py, `SharedState`: two threads that count, and a function that raises.
use observer_pattern.Prelude.{ℕ, suc, ◌≡◌, refl, Option, none, some, List, [], ◌∷◌, codes, text_eq}
use observer_pattern.Prelude.Dict
use observer_pattern.Types.{Result, ok, err, value_error}
use observer_pattern.Types.SharedState.{SharedState}
use observer_pattern.Types.SharedState.Calls.{
  Call, update_key, delete_key, get_key, Holds, answers, answers_of_map, answers-Holds,
}

abbrev counted : Option ℕ → Result ℕ
counted none = ok 1
counted (some n) = ok (suc n)

abbrev failing : Option ℕ → Result ℕ
failing found = err value_error

abbrev calls : List (Call ℕ)
calls =
    update_key (codes "count") counted
    ∷ update_key (codes "count") counted
    ∷ update_key (codes "count") failing
    ∷ delete_key (codes "other")
    ∷ get_key (codes "count") 0
    ∷ []

abbrev fresh : SharedState ℕ
fresh = record { contents = [] }

fresh-Holds : Holds fresh (λ k. none)
unfolding Dict.get
fresh-Holds k = refl

answers-Holds_example :
    ((answers calls fresh).0 ≡ (answers_of_map calls (λ k. none)).0)
    × Holds (answers calls fresh).1 (answers_of_map calls (λ k. none)).1
answers-Holds_example = answers-Holds calls fresh (λ k. none) fresh-Holds
