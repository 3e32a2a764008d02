-- ===== src/Types/SharedState/Calls.antt =====
-- eventforge/types.py, `SharedState`: any calls of any threads, in the order in which they get the
-- lock, against a map from keys to values.
use observer_pattern.Prelude.{
  ◌⊎◌, ◌≡◌, refl, ap, sym, subst, ◌∙◌, Bool, true, false, Option, none, some, List, [], ◌∷◌, Text,
  text_eq, if◌then◌else◌, ◌==◌, inl, inr, Bool-cases, Option-cases,
}
use observer_pattern.Types.{Error, Result, ok, err}
use observer_pattern.Prelude.Dict
use observer_pattern.Prelude.Dict.{Dict}
use observer_pattern.Types.SharedState.{SharedState, get, set, update, delete, clear, contains}

-- A call of a method.
pub data Call (V : Type 0) : Type 0 where
  get_key : Text → V → Call V
  set_key : Text → V → Call V
  update_key : Text → (Option V → Result V) → Call V
  delete_key contains_key : Text → Call V
  clear_all : Call V

pub data Answer (V : Type 0) : Type 0 where
  value : V → Answer V
  flag : Bool → Answer V
  raised : Error → Answer V
  nothing : Answer V

-- An exception or a value.
Result-cases : {V : Type 0} (r : Result V) → ((e : Error) × (r ≡ err e)) ⊎ ((v : V) × (r ≡ ok v))
Result-cases (err e) = inl (e, refl)
Result-cases (ok v) = inr (v, refl)

module _ {V : Type 0} where
  unfoldable pub answer : Call V → SharedState V → Answer V × SharedState V
  answer (get_key key default) s = (value (get key default s), s)
  answer (set_key key v) s = (nothing, set key v s)
  answer (update_key key func) s =
      let (r, s₁) = update key func s in (elim r [ err e ↦ raised e | ok v ↦ value v ], s₁)
  answer (delete_key key) s = let (found, s₁) = delete key s in (flag found, s₁)
  answer (contains_key key) s = (flag (contains key s), s)
  answer clear_all s = (nothing, clear s)

  unfoldable pub answers : List (Call V) → SharedState V → List (Answer V) × SharedState V
  answers [] s = ([], s)
  answers (call ∷ calls) s =
      let (a, s₁) = answer call s in let (rest, s₂) = answers calls s₁ in (a ∷ rest, s₂)

  -- A map from keys to values, with one of them changed.
  abbrev pub with_key : Text → Option V → (Text → Option V) → Text → Option V
  with_key key v m k = if key == k then v else m k

  abbrev pub value_or : V → Option V → V
  value_or default none = default
  value_or default (some v) = v

  abbrev pub is_some : Option V → Bool
  is_some none = false
  is_some (some v) = true

  -- What the map would answer.
  abbrev pub answer_of_map : Call V → (Text → Option V) → Answer V × (Text → Option V)
  answer_of_map (get_key key default) m = (value (value_or default (m key)), m)
  answer_of_map (set_key key v) m = (nothing, with_key key (some v) m)
  answer_of_map (update_key key func) m = elim (func (m key)) [
    | err e ↦ (raised e, m)
    | ok v ↦ (value v, with_key key (some v) m)
  ]
  answer_of_map (delete_key key) m = (flag (is_some (m key)), with_key key none m)
  answer_of_map (contains_key key) m = (flag (is_some (m key)), m)
  answer_of_map clear_all m = (nothing, λ k. none)

  abbrev pub answers_of_map :
      List (Call V) → (Text → Option V) → List (Answer V) × (Text → Option V)
  answers_of_map [] m = ([], m)
  answers_of_map (call ∷ calls) m =
      let (a, m₁) = answer_of_map call m in
      let (rest, m₂) = answers_of_map calls m₁ in (a ∷ rest, m₂)

  -- The state holds the map.
  abbrev pub Holds : SharedState V → (Text → Option V) → Type 0
  Holds s m = (k : Text) → Dict.get k s.contents ≡ m k

  Holds-set :
      (key : Text) (v : V) (s : SharedState V) (m : Text → Option V)
      → Holds s m
      → Holds (record s { contents = Dict.set key v s.contents }) (with_key key (some v) m)
  Holds-set key v s m h k =
      Dict.get-set key k v s.contents ∙ ap (λ x. if key == k then some v else x) (h k)

  absent_key :
      (key k : Text) (s : SharedState V) (m : Text → Option V)
      → Holds s m
      → Dict.get key s.contents ≡ none
      → Dict.get k s.contents ≡ with_key key none m k
  absent_key key k s m h q = elim (Bool-cases (key == k)) [
    | inl b ↦ rw (b) (subst (λ x. Dict.get x s.contents ≡ none) ((text_eq.beq_iff key k).0 b) q)
    | inr b ↦ rw (b) (h k)
  ]

  answer-Holds :
      (call : Call V) (s : SharedState V) (m : Text → Option V)
      → Holds s m
      → ((answer call s).0 ≡ (answer_of_map call m).0)
        × Holds (answer call s).1 (answer_of_map call m).1
  unfolding answer get set update delete clear contains Dict.get_or Dict.contains Dict.get
  answer-Holds (get_key key default) s m h = (ap (λ x. value (value_or default x)) (h key), h)
  answer-Holds (set_key key v) s m h = (refl, Holds-set key v s m h)
  answer-Holds (update_key key func) s m h =
      let same : func (Dict.get key s.contents) ≡ func (m key) = ap func (h key) in
      elim (Result-cases (func (m key))) [
        | inl (e, q) ↦ rw (same ∙ q, answer, update) (rw (q, answer_of_map) (refl, h))
        | inr (v, q) ↦
            rw (same ∙ q, answer, update) (rw (q, answer_of_map) (refl, Holds-set key v s m h))
      ]
  answer-Holds (delete_key key) s m h = elim (Option-cases (Dict.get key s.contents)) [
    | inl q ↦
        rw (q, delete, Dict.contains)
          (ap (λ x. flag (is_some x)) (sym q ∙ h key), λ k. absent_key key k s m h q)
    | inr (v, q) ↦
        rw (q, delete, Dict.contains)
          (
            ap (λ x. flag (is_some x)) (sym q ∙ h key),
            λ k. Dict.get-erase key k s.contents ∙ ap (λ x. if key == k then none else x) (h k),
          )
  ]
  answer-Holds (contains_key key) s m h = (ap (λ x. flag (is_some x)) (h key), h)
  answer-Holds clear_all s m h = (refl, λ k. refl)

  -- Whatever calls threads make, in whatever order they get the lock, if the state holds a map at
  -- first, every call answers what the same calls on the map answer, and the state holds the map
  -- that they leave.
  pub answers-Holds :
      (calls : List (Call V)) (s : SharedState V) (m : Text → Option V)
      → Holds s m
      → ((answers calls s).0 ≡ (answers_of_map calls m).0)
        × Holds (answers calls s).1 (answers_of_map calls m).1
  unfolding answers
  answers-Holds [] s m h = (refl, h)
  answers-Holds (call ∷ calls) s m h =
      let (same, held) = answer-Holds call s m h in
      let (rest, left) = answers-Holds calls (answer call s).1 (answer_of_map call m).1 held in
      (
        ap (λ a. a ∷ (answers calls (answer call s).1).0) same
            ∙ ap (◌∷◌ (answer_of_map call m).0) rest,
        left,
      )
