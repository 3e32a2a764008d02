-- ===== src/Observers/Dispatch/Rotation.antt =====
-- eventforge/observers.py, `RoundRobinDispatcher`: the rotation is fair.
use observer_pattern.Prelude.{
  ℕ, zero, suc, ◌+◌, ◌-◌, ◌%◌, ◌<◌, ◌≤◌, ◌≡◌, refl, ap, sym, ◌∙◌, some, List, [], ◌∷◌, ◌++◌, arith,
  length, get_elem?, take, drop,
}
use mathlib.Core.List.{append_assoc, append-nil}
use native.Mathlib.Nat.{mod-add-mod, mod-eq_of_lt, mod_self, mod-lt}
use observer_pattern.Types.{Result}
use observer_pattern.Observers.Dispatch.{pick, round_robin}

pub drop-get_elem? :
    {C : Type 0} (subs : List C) (j : ℕ)
    → j < length subs
    → (x : C) × (get_elem? subs j ≡ some x) × (drop j subs ≡ x ∷ drop (suc j) subs)
drop-get_elem? [] j h = absurd (omega arith)
drop-get_elem? (x ∷ subs) zero h = (x, refl, refl)
drop-get_elem? (x ∷ subs) (suc j) h = drop-get_elem? subs j (omega arith)

pairs : {A B : Type 0} {a c : A} {b d : B} → a ≡ c → b ≡ d → ◌≡◌ {A = A × B} (a, b) (c, d)
pairs {A = A} {B = B} {a = a} {d = d} p q =
    ap {B = A × B} (λ y. (a, y)) q ∙ ap {B = A × B} (λ x. (x, d)) p

take_all : {C : Type 0} (m : ℕ) (xs : List C) → length xs ≤ m → take m xs ≡ xs
take_all zero [] h = refl
take_all zero (x ∷ xs) h = absurd (omega arith)
take_all (suc m) [] h = refl
take_all (suc m) (x ∷ xs) h = ap (◌∷◌ x) (take_all m xs (omega arith))

length-drop :
    {C : Type 0} (k : ℕ) (xs : List C) → k ≤ length xs → length (drop k xs) + k ≡ length xs
length-drop zero xs h = omega arith
length-drop (suc k) [] h = absurd (omega arith)
length-drop (suc k) (x ∷ xs) h = omega (arith, length-drop k xs (omega arith))

pub suc-mod : (n idx j : ℕ) → idx % n ≡ j → suc j < n → suc idx % n ≡ suc j
suc-mod n idx j e h =
    ap (λ x. x % n) (omega arith)
    ∙ sym (mod-add-mod idx n 1)
    ∙ ap (λ x. (x + 1) % n) e
    ∙ ap (λ x. x % n) (omega arith)
    ∙ mod-eq_of_lt h

module _ {C A : Type 0} (raises : C → A → Result (Unit {0})) where
  -- Subscribers that note the call, and may raise.
  abbrev pub noting : C → A → List C → Result (Unit {0}) × List C
  noting fn args log = (raises fn args, log ++ fn ∷ [])

  -- So many fires, one after the other.
  abbrev pub fires : ℕ → List C → A → ℕ × List C → ℕ × List C
  fires zero subs args (idx, log) = (idx, log)
  fires (suc n) subs args (idx, log) = fires n subs args (round_robin noting idx subs args log)

  fire_one :
      (subs : List C) (args : A) (idx j : ℕ) (x : C) (log : List C)
      → idx % length subs ≡ j
      → get_elem? subs j ≡ some x
      → round_robin noting idx subs args log ≡ (suc idx, log ++ x ∷ [])
  unfolding round_robin pick
  fire_one [] args idx j x log e q = cc q
  fire_one (y ∷ subs) args idx j x log e q = rw (round_robin, pick, e, q)

  fires_run :
      (m : ℕ) (subs : List C) (args : A) (idx j : ℕ) (log : List C)
      → idx % length subs ≡ j
      → j + m ≤ length subs
      → fires m subs args (idx, log) ≡ (idx + m, log ++ take m (drop j subs))
  fires_run zero subs args idx j log e h = pairs (omega arith) (sym (append-nil log))
  fires_run (suc zero) subs args idx j log e h =
      let (x, g, d) = drop-get_elem? subs j (omega arith) in
      rw (fires, fire_one subs args idx j x log e g)
        (pairs (omega arith) (ap (λ l. log ++ take 1 l) (sym d)))
  fires_run (suc (suc m)) subs args idx j log e h =
      let (x, g, d) = drop-get_elem? subs j (omega arith) in
      let e₁ : suc idx % length subs ≡ suc j = suc-mod (length subs) idx j e (omega arith) in
      let ih = fires_run (suc m) subs args (suc idx) (suc j) (log ++ x ∷ []) e₁ (omega arith) in
      ap (fires (suc m) subs args) (fire_one subs args idx j x log e g)
      ∙ ih
      ∙ pairs (omega arith) (
          append_assoc log (x ∷ []) (take (suc m) (drop (suc j) subs))
          ∙ ap (λ l. log ++ take (suc (suc m)) l) (sym d))

  fires_split :
      (a b n : ℕ) (subs : List C) (args : A) (s : ℕ × List C)
      → n ≡ a + b
      → fires n subs args s ≡ fires b subs args (fires a subs args s)
  fires_split zero b n subs args s h =
      let same : n ≡ b = omega arith in ap (λ k. fires k subs args s) same
  fires_split (suc a) b zero subs args s h = absurd (omega arith)
  fires_split (suc a) b (suc n) subs args (idx, log) h =
      fires_split a b n subs args (round_robin noting idx subs args log) (omega arith)

  -- As many fires in a row as there are subscribers call each of them once: in order, from the one
  -- that is next, and round the end of the list; whichever of them raise.
  pub round_robin_fair :
      (subs : List C) (args : A) (idx : ℕ) (log : List C)
      → 0 < length subs
      → let k = idx % length subs in
        fires (length subs) subs args (idx, log)
        ≡ (idx + length subs, log ++ (drop k subs ++ take k subs))
  round_robin_fair subs args idx log h =
      let n = length subs in
      let k = idx % n in
      let small : k < n = mod-lt idx h in
      let r = fires_run (n - k) subs args idx k log refl (omega arith) in
      let log₁ : List C = log ++ take (n - k) (drop k subs) in
      let whole : k + (n - k) ≡ n = omega arith in
      let z : (idx + (n - k)) % n ≡ 0 =
        sym (mod-add-mod idx n (n - k)) ∙ ap (λ x. x % n) whole ∙ mod_self n in
      let r₁ = fires_run k subs args (idx + (n - k)) 0 log₁ z (omega arith) in
      let all : take (n - k) (drop k subs) ≡ drop k subs =
        take_all (n - k) (drop k subs) (omega (arith, length-drop k subs (omega arith))) in
      fires_split (n - k) k n subs args (idx, log) (omega arith)
      ∙ ap (fires k subs args) r
      ∙ r₁
      ∙ pairs (omega arith) (
          append_assoc log (take (n - k) (drop k subs)) (take k subs)
          ∙ ap (λ l. log ++ (l ++ take k subs)) all)
