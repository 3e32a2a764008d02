-- ===== src/Observers/Meter.antt =====
-- eventforge/observers.py: the aggregator of `Meter` and its reductions. What Python's floats do
-- is an interface, which leaves NaN aside: any numbers with a total order.
pub mod Aggregate
pub mod Emission
use observer_pattern.Prelude.{
  ◌≡◌, ◌⊎◌, ℕ, zero, suc, ◌+◌, ◌*◌, Bool, true, false, Option, none, some, List, [], ◌∷◌,
  if◌then◌else◌, leb, ◌==◌, Text, codes, text_eq,
}
use observer_pattern.Types.{Result, ok, err, value_error}

pub data Reduction : Type 0 where
  mean sum max min last count : Reduction

-- `REDUCTIONS`, by name
unfoldable pub reduction_of : Text → Option Reduction
reduction_of name = elim (name == codes "mean") [
  | true ↦ some mean
  | false ↦ elim (name == codes "sum") [
    | true ↦ some sum
    | false ↦ elim (name == codes "max") [
      | true ↦ some max
      | false ↦ elim (name == codes "min") [
        | true ↦ some min
        | false ↦ elim (name == codes "last") [
          | true ↦ some last
          | false ↦ if name == codes "count" then some count else none
        ]
      ]
    ]
  ]
]

pub record Numbers (V : Type 0) : Type 0 where
  pub zero_value : V
  pub plus : V → V → V
  pub times : V → ℕ → V
  -- `a <= b`
  pub at_most : V → V → Bool
  pub total : (a b : V) → (at_most a b ≡ true) ⊎ (at_most b a ≡ true)
  pub trans : (a b c : V) → at_most a b ≡ true → at_most b c ≡ true → at_most a c ≡ true

pub record Meter (V : Type 0) : Type 0 where
  pub reduction : Reduction
  pub last_val : V
  pub sum_val : V
  pub number : ℕ
  pub max_val : V
  pub min_val : V

-- What a reduction gives: a value, a quotient, or the count.
pub data Reading (V : Type 0) : Type 0 where
  single : V → Reading V
  quotient : V → ℕ → Reading V
  counted : ℕ → Reading V

module _ {V : Type 0} ⦃N : Numbers V⦄ where
  unfoldable pub reset : Meter V → Meter V
  reset m = record m {
    last_val = N.zero_value;
    sum_val = N.zero_value;
    number = 0;
    max_val = N.zero_value;
    min_val = N.zero_value;
  }

  -- `Meter.__init__`
  unfoldable pub init : Text → Result (Meter V)
  init name = elim (reduction_of name) [
    | none ↦ err value_error
    | some r ↦ ok (record {
      reduction = r;
      last_val = N.zero_value;
      sum_val = N.zero_value;
      number = 0;
      max_val = N.zero_value;
      min_val = N.zero_value;
    })
  ]

  -- `max(a, b)`, which is the first of two that are equal
  unfoldable pub larger : V → V → V
  larger a b = if N.at_most b a then a else b

  -- `min(a, b)`
  unfoldable pub smaller : V → V → V
  smaller a b = if N.at_most a b then a else b

  -- `update(val, n)`
  unfoldable pub update : V → ℕ → Meter V → Meter V
  update val n m = record m {
    max_val = elim m.number [ zero ↦ val | suc k ↦ larger m.max_val val ];
    min_val = elim m.number [ zero ↦ val | suc k ↦ smaller m.min_val val ];
    last_val = val;
    sum_val = N.plus m.sum_val (N.times val n);
    number = m.number + n;
  }

  -- `value`
  unfoldable pub value : Meter V → Reading V
  value m = elim m.reduction [
    | mean ↦ elim m.number [ zero ↦ single N.zero_value | suc k ↦ quotient m.sum_val (suc k) ]
    | sum ↦ single m.sum_val
    | max ↦ elim m.number [ zero ↦ single N.zero_value | suc k ↦ single m.max_val ]
    | min ↦ elim m.number [ zero ↦ single N.zero_value | suc k ↦ single m.min_val ]
    | last ↦ single m.last_val
    | count ↦ counted m.number
  ]
