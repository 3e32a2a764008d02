-- ===== src/Worker/Tests.antt =====
-- eventforge/worker.py: the theorem at a module with one handler.
use observer_pattern.Prelude.{refl, none, some, [], ◌∷◌, Text, codes, ℕ, false, text_eq}
use observer_pattern.Prelude.Dict
use observer_pattern.Prelude.Dict.{Dict, IsDict}
use observer_pattern.Types.{num}
use observer_pattern.Rpc.Server.{returned}
use observer_pattern.Transport.Tcp.Server.{Server}
use observer_pattern.Worker.{Entry, callable, Module, launch}
use observer_pattern.Worker.Launch.{Launches, launch-Launches}

abbrev entries : Dict Text (Entry ℕ)
entries = (codes "train_step", callable (λ request n. (returned (num n), n))) ∷ []

abbrev learner : Module ℕ
learner = record { handlers = some entries; service_name = some (codes "learner") }

abbrev transport : Server Text
transport = record {
  running = false;
  listening = false;
  clients = [];
  peer = record { subscribers = []; topic_subs = []; queues = []; uuids = 0 };
}

entries-IsDict : IsDict entries
unfolding Dict.get
entries-IsDict = (refl, tt)

launch-Launches_example :
    Launches learner entries none 3 transport (launch (some learner) none 3 transport)
launch-Launches_example = launch-Launches learner entries none 3 transport refl entries-IsDict
