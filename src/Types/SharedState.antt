-- ===== src/Types/SharedState.antt =====
-- eventforge/types.py, `SharedState`: each method is one critical section of its lock.
pub mod Calls
mod Tests
use observer_pattern.Prelude.{Text, Bool, true, false, Option, if◌then◌else◌}
use observer_pattern.Prelude.{[], text_eq}
use observer_pattern.Types.{Result, ok, err}
use observer_pattern.Prelude.Dict
use observer_pattern.Prelude.Dict.{Dict}

pub record SharedState (V : Type 0) : Type 0 where
  pub contents : Dict Text V

module _ {V : Type 0} where
  pub empty : SharedState V
  empty = record { contents = [] }

  -- `get(key, default)`
  pub get : Text → V → SharedState V → V
  get key default s = Dict.get_or key default s.contents

  pub set : Text → V → SharedState V → SharedState V
  set key value s = record s { contents = Dict.set key value s.contents }

  -- `update(key, func)`: `func` is handed the old value or `None`; the new one is returned. Where
  -- `func` raises, nothing is stored.
  pub update : Text → (Option V → Result V) → SharedState V → Result V × SharedState V
  update key func s = elim (func (Dict.get key s.contents)) [
    | err e ↦ (err e, s)
    | ok new ↦ (ok new, record s { contents = Dict.set key new s.contents })
  ]

  pub delete : Text → SharedState V → Bool × SharedState V
  delete key s =
      if Dict.contains key s.contents
      then (true, record s { contents = Dict.erase key s.contents })
      else (false, s)

  pub clear : SharedState V → SharedState V
  clear s = record s { contents = [] }

  -- The copy that `items` returns.
  pub items : SharedState V → Dict Text V
  items s = s.contents

  pub contains : Text → SharedState V → Bool
  contains key s = Dict.contains key s.contents
