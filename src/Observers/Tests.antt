-- ===== src/Observers/Tests.antt =====
-- eventforge/observers.py: the theorems at inputs that meet their hypotheses.
use observer_pattern.Prelude.{
  List, suc, ◌-◌, ◌*◌, leb, Text, text_eq, ℕ, ◌+◌, ◌≡◌, subst, if_cases, Option, none, some, [],
  ◌∷◌, ◌++◌, arith, take, drop, All, if◌then◌else◌, ◌==◌, nat_eq, codes,
}
use observer_pattern.Prelude.Dict
use observer_pattern.Prelude.Dict.{Dict}
use observer_pattern.Types.{Error, application, Result, ok}
use observer_pattern.Observers.Dispatch.{broadcast}
use observer_pattern.Observers.Dispatch.Broadcast.{reached, broadcast_reaches}
use observer_pattern.Observers.Dispatch.Broadcast
use observer_pattern.Observers.Dispatch.Rotation.{fires, round_robin_fair}
use observer_pattern.Observers.Channel.{Eventful, Registry, class_subscribers, fire}
use observer_pattern.Observers.Channel.Fire.{afterwards, fire_reaches}
use observer_pattern.Observers.Node.{
  Node, capacity, Subscriber, node, other, load_of, load, select, route,
}
use observer_pattern.Observers.Node.Least.{IsLoad}
use observer_pattern.Observers.Node.Routed.{seeing, Settles, route-Settles}
use observer_pattern.Observers.Node.Slots.{IsWithin, AreWithin, Picks, select-Picks}
use observer_pattern.Observers.Reporter
use observer_pattern.Observers.Reporter.{Attributes}
use observer_pattern.Observers.Reporter.Wired.{IsScanned, observers, init-observers}
use observer_pattern.Observers.Meter.{Numbers, Meter, max, reset, update}
use observer_pattern.Observers.Meter.Emission.{Signal, updated, Emitter, on_success}
use observer_pattern.Observers.Meter.Emission.Measured.{
  watching, calls, after_update, on_success_emits,
}
use observer_pattern.Observers.Meter.Aggregate.{
  observe, added, count_of, IsAmong, AtMost, observe_aggregates,
}

-- Subscriber 2 raises.
abbrev raising : ℕ → ℕ → Option Error
raising fn args = if fn == 2 then some (application fn) else none

-- No subscriber raises.
abbrev returning : ℕ → ℕ → Result (Unit {0})
returning fn args = ok tt

round_robin_fair_example :
    fires returning 3 (1 ∷ 2 ∷ 3 ∷ []) 9 (4, [])
    ≡ (4 + 3, [] ++ (drop 1 (1 ∷ 2 ∷ 3 ∷ []) ++ take 1 (1 ∷ 2 ∷ 3 ∷ [])))
round_robin_fair_example = round_robin_fair returning (1 ∷ 2 ∷ 3 ∷ []) 9 4 [] (omega arith)

abbrev measurement : Eventful ℕ
measurement = record {
  subscribers = 1 ∷ 3 ∷ [];
  owner = some (10 ∷ 11 ∷ []);
  name = some (codes "measurement");
}

abbrev registry : Registry ℕ
registry = (11, (codes "measurement", 2 ∷ []) ∷ []) ∷ []

fire_reaches_example :
    let (called, r) = reached raising 9 measurement.subscribers in
    fire (Broadcast.noting raising) (broadcast (Broadcast.noting raising)) registry measurement 9 []
    ≡ (r, [] ++ (called ++ afterwards registry measurement r))
fire_reaches_example = fire_reaches raising registry measurement 9 []

abbrev idle : Node
idle = record { cpus = 8; gpus = []; in_flight = 0 }

abbrev nodes : Dict ℕ Node
nodes = (0, idle) ∷ []

nodes-AreWithin : AreWithin nodes
unfolding Dict.get capacity
nodes-AreWithin k n h =
    if_cases (λ x. x ≡ some n → IsWithin n) (0 == k) (some idle) none
      (λ b e. let same : idle ≡ n = cc e in subst IsWithin same (omega arith)) (λ b e. cc e) h

select-Picks_example :
    Picks nodes (other (1, 2) ∷ node 0 ∷ []) (select nodes (other (1, 2) ∷ node 0 ∷ []))
    × AreWithin (select nodes (other (1, 2) ∷ node 0 ∷ [])).1
select-Picks_example = select-Picks nodes (other (1, 2) ∷ node 0 ∷ []) nodes-AreWithin

loads : All (IsLoad nodes) (other (1, 2) ∷ node 0 ∷ [])
unfolding load_of load capacity Dict.get
loads = (omega arith, (omega arith, tt))

-- A handler that notes how often it is called.
abbrev counting : Subscriber → Dict ℕ Node → ℕ → Result ℕ × ℕ
counting s store n = (ok 7, n + 1)

route-Settles_example :
    Settles counting nodes
      (other (1, 2) ∷ node 0 ∷ [])
      0
      (route (seeing counting) (other (1, 2) ∷ node 0 ∷ []) (nodes, 0))
route-Settles_example = route-Settles counting nodes (other (1, 2) ∷ node 0 ∷ []) 0 loads

-- Integers; `negsuc n` is -(n + 1).
data ℤ : Type 0 where
  pos negsuc : ℕ → ℤ

abbrev above : ℤ → ℕ
above (pos n) = n
above (negsuc n) = 0

abbrev below : ℤ → ℕ
below (pos n) = 0
below (negsuc n) = suc n

abbrev difference : ℕ → ℕ → ℤ
difference a b = if leb b a then pos (a - b) else negsuc (b - a - 1)

instance integers : Numbers ℤ
integers = record {
  zero_value = pos 0;
  plus = λ a b. difference (above a + above b) (below a + below b);
  times = λ a n. difference (above a * n) (below a * n);
  at_most = λ a b. leb (above a + below b) (above b + below a);
  total = λ a b. ground arith;
  trans = λ a b c h k. ground (arith, h, k);
}

-- One observation so far, of -4.
abbrev meter : Meter ℤ
meter = record {
  reduction = max;
  last_val = negsuc 3;
  sum_val = negsuc 3;
  number = 1;
  max_val = negsuc 3;
  min_val = negsuc 3;
}

abbrev observations : List (ℤ × ℕ)
observations = (negsuc 1, 2) ∷ []

observe_aggregates_example :
    let u = observe ((negsuc 4, 1) ∷ observations) (reset meter) in
    (u.sum_val ≡ added (pos 0) ((negsuc 4, 1) ∷ observations))
    × (u.number ≡ count_of ((negsuc 4, 1) ∷ observations))
    × All {A = ℤ × ℕ}
        (λ o. AtMost u.min_val o.0 × AtMost o.0 u.max_val)
        ((negsuc 4, 1) ∷ observations)
    × IsAmong u.min_val ((negsuc 4, 1) ∷ observations)
    × IsAmong u.max_val ((negsuc 4, 1) ∷ observations)
unfolding integers
observe_aggregates_example =
    observe_aggregates (negsuc 4) 1 observations meter (omega arith, (omega arith, tt))

-- A reporter whose "log" observes the measurements of class 11 and whose "help" observes nothing.
abbrev attributes : ℕ → Attributes
attributes cls = (codes "help", []) ∷ (codes "log", (11, codes "measurement") ∷ []) ∷ []

abbrev bound : Text → ℕ
bound attr = if attr == codes "log" then 5 else 6

no_scans : IsScanned attributes []
unfolding Dict.get
no_scans cls pairs e = cc e

init-observers_example :
    let (cache₁, registry₁) = Reporter.init attributes bound 12 ([], registry) in
    ((klass : ℕ) (name : Text)
      → class_subscribers klass name registry₁
        ≡ class_subscribers klass name registry ++ observers klass name bound (attributes 12))
    × IsScanned attributes cache₁
init-observers_example = init-observers attributes bound 12 [] registry no_scans

-- A meter whose update reaches subscriber 2, which raises, and whose measurement reaches 1 and 3.
abbrev emitter : Emitter ℤ ℕ
emitter = record {
  name = codes "timing";
  aggregate = meter;
  measurement = measurement;
  update_event = record { subscribers = 1 ∷ 2 ∷ []; owner = none; name = none };
  reset_event = record { subscribers = []; owner = none; name = none };
}

abbrev raising_signal : ℕ → Signal ℤ → Option Error
raising_signal fn signal = if fn == 2 then some (application fn) else none

on_success_emits_example :
    on_success
      (watching raising_signal registry)
      (broadcast (watching raising_signal registry))
      registry
      (some (pos 6))
      (emitter, ([], []))
    ≡ (let (called, r) = calls raising_signal registry (updated (pos 6) 1) emitter.update_event in
        after_update raising_signal registry
          (pos 6)
          (record emitter { aggregate = update (pos 6) 1 emitter.aggregate })
          []
          ([] ++ called)
          r)
on_success_emits_example = on_success_emits raising_signal registry (some (pos 6)) emitter [] []
