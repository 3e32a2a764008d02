-- ===== src/Queue/Tests.antt =====
-- eventforge/queue.py: the theorem at an input that meets its hypotheses.
use observer_pattern.Prelude.{ℕ, ◌≡◌, refl, false, Option, none, codes, text_eq}
use observer_pattern.Prelude.Dict
use observer_pattern.Transport.Memory
use observer_pattern.Types.{Message, Error}
use observer_pattern.Queue.{MessageQueue, init, subscribe}
use observer_pattern.Queue.Wiring.{AreWired, Subscribes, subscribe-Subscribes}

-- A queue with one handler.
abbrev empty : MessageQueue ℕ
empty = init (Memory.init 5)

empty_open : empty.transport.closed ≡ false
unfolding init Memory.init
empty_open = refl

empty-AreWired : AreWired empty
unfolding init Memory.init Dict.contains Dict.get
empty-AreWired name h = absurd (cc h)

subscribe-Subscribes_example : Subscribes (codes "jobs") 7 empty (subscribe (codes "jobs") 7 empty)
subscribe-Subscribes_example = subscribe-Subscribes (codes "jobs") 7 empty empty_open empty-AreWired

abbrev never_raises : ℕ → Message → Option Error
never_raises handler message = none

-- The queue with handler 7 on its topic.
abbrev listening : MessageQueue ℕ
listening = (subscribe (codes "jobs") 7 empty).1
