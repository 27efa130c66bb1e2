-- ===== src/Cli/Examples.antt =====
-- The arguments of a worker on the second queue.
use nfqttl.Base.{List, [], ◌∷◌, Post}
use nfqttl.Base.Text.{Text, codes}
use nfqttl.Cli.{worker_args}
use nfqttl.Cli.Arguments.{IsStarted, worker_args-IsStarted}

abbrev second_worker : List Text
second_worker =
    codes "nfqttl"
    ∷ codes "worker"
    ∷ codes "--queue"
    ∷ codes "6465"
    ∷ codes "--ttl"
    ∷ codes "65"
    ∷ []

worker_args-IsStarted_example : Post (IsStarted second_worker) (worker_args second_worker)
worker_args-IsStarted_example = worker_args-IsStarted second_worker
