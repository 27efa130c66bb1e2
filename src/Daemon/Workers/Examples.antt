-- ===== src/Daemon/Workers/Examples.antt =====
-- A system whose state is the list of its children, and the start of one worker on it.
use nfqttl.Base.{
  ℕ, ◌+◌, ◌≡◌, refl, arith, ap, ◌⊎◌, inl, inr, Bool, true, false, not, ◌==◌, ==_iff, Bool-cases,
  List, [], ◌∷◌, length, some, ok,
}
use nfqttl.Base.Text.{
  Text, codes, some_of, keep_if, every, starts_with, parse_uint, parse_digits, digits_from,
  parse_i32, lines_from, words_from,
}
use nfqttl.Cli.{worker_args}
use nfqttl.Daemon.Workers.{
  Settings, Processes, spawn_args, owner_in, contains_text, await, spawn_from, terminate_all,
  reap_all, some_owned, stop, start,
}
use nfqttl.Daemon.Workers.Started.{IsOutcome, start-IsOutcome}
use nfqttl.Daemon.Workers.Orphans.{Children}
use nfqttl.Daemon.Workers.Handover.{IsFit, worker_args-spawn_args}

abbrev is_one : ℕ → ℕ → Bool
is_one q n = n == q

abbrev rows : List ℕ → Text
rows [] = []
rows (n ∷ ns) = codes " 6464   100     0 2 65531     0     0        0  1"

abbrev pub children : Processes (List ℕ)
children = record {
  queues = λ s. some (rows s);
  has_exited = λ pid s. false;
  log_text = λ q s. some (codes "READY queue");
  is_stopping = λ s. false;
  terminate = λ pid s. s;
  kill = λ pid s. s;
  wait = λ pid s. keep_if (λ n. not (n == pid)) s;
  pause = λ s. s;
  open_log = λ q s. (true, s);
  spawn = λ exe args s. (some (100 + length s), (100 + length s) ∷ s);
  write_state = λ name value s. s;
  remove_state = λ name s. s;
}

abbrev pub Lives : ℕ → List ℕ → Type 0
Lives q s = some_of (is_one q) s ≡ true

waited_for :
    (q pid : ℕ) (s : List ℕ)
    → Lives q (keep_if (λ n. not (n == pid)) s)
    → ((pid == q) ≡ false) × Lives q s
unfolding some_of keep_if
waited_for q pid [] h = ground arith
waited_for q pid (n ∷ s) h = ground (arith, waited_for q pid s)

newborn : (q n : ℕ) (s : List ℕ) → Lives q (n ∷ s) → (some n ≡ some q) ⊎ Lives q s
unfolding some_of
newborn q n s h = elim (Bool-cases (n == q)) [
  | inl same ↦ inl (ap some ((==_iff n q).0 same))
  | inr other ↦ inr (ground arith)
]

pub children_law : Children children Lives
children_law = record {
  terminated = λ q pid s h. h;
  killed = λ q pid s h. h;
  waited = waited_for;
  paused = λ q s h. h;
  logged = λ q queue s h. h;
  born = λ q exe args s h. newborn q (100 + length s) s h;
  written = λ q name value s h. h;
  removed = λ q name s h. h;
}

abbrev pub settings : Settings
settings = record {
  exe = codes "/data/adb/modules/nfqttl/nfqttl";
  module_dir = codes "/data/adb/modules/nfqttl";
  ttl = 64;
  queue_maxlen = 4096;
  rcvbuf_mb = 8;
  gso = false;
}

one_started :
    start children settings 1 [] [] ≡ (true, record { queue = 6464; pid = 100 } ∷ [], 100 ∷ [])
unfolding start stop terminate_all reap_all some_owned spawn_from await owner_in contains_text
    starts_with every lines_from words_from parse_uint parse_digits digits_from parse_i32
one_started = refl

start-IsOutcome_example : IsOutcome children settings 1 (start children settings 1 [] [])
start-IsOutcome_example = start-IsOutcome children settings 1 [] []

settings-IsFit : IsFit settings
settings-IsFit = record {
  ttl_range = omega arith;
  maxlen_range = omega arith;
  rcvbuf_range = omega arith;
}

worker_args-spawn_args_example :
    worker_args (settings.exe ∷ spawn_args settings 6465)
    ≡ ok (record { queue = 6465; ttl = 64; queue_maxlen = 4096; rcvbuf_mb = 8; gso = false })
unfolding starts_with
worker_args-spawn_args_example =
    worker_args-spawn_args settings 6465 settings-IsFit refl (omega arith) (omega arith)
