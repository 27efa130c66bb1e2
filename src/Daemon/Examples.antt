-- ===== src/Daemon/Examples.antt =====
-- A stalled queue, a start with two workers, and recoveries that shed workers.
use nfqttl.Base.{
  ◌+◌, ◌-◌, ◌≤◌, ◌≡◌, ◌↔◌, refl, arith, inl, min, true, false, List, [], ◌∷◌, ◌++◌, none, some,
  Post, length,
}
use nfqttl.Base.Text.{Text, codes}
use nfqttl.Config.{Config, default}
use nfqttl.Firewall.{queue_base}
use nfqttl.Daemon.{Entry, Guard, Probes, get, no_stats, queue_stats, choose, recover}
use nfqttl.Daemon.Tracked.{Sampled}
use nfqttl.Daemon.Stalls.{
  stood, IsCounted, Distinct, highest, last_of, stall_samples, stall_samples_detects,
}
use nfqttl.Daemon.Tally.{rows_of, IsTally, queue_stats-IsTally}
use nfqttl.Daemon.Startup.{Suits, Meets, is_ok, choose-Suits}
use nfqttl.Daemon.Recovery.{IsRecovered, recover-IsRecovered, recover_times, recover_times-single}

abbrev first_sample : List Entry
first_sample = (6464, 20, 100) ∷ (6465, 5, 200) ∷ []

abbrev second_sample : List Entry
second_sample = (6464, 20, 100) ∷ (6465, 5, 201) ∷ []

stall_samples_detects_example :
    IsCounted 6464 20 100
      (min 255 (stood (get 6464 []) 20 100 + length (second_sample ∷ [])))
      (stall_samples (first_sample ∷ second_sample ∷ []) ([], 0))
    × ((stall_samples (first_sample ∷ second_sample ∷ []) ([], 0)).1
        ≡ highest
            (stall_samples (first_sample ∷ second_sample ∷ []) ([], 0)).0
            (last_of first_sample (second_sample ∷ [])))
unfolding Sampled Distinct
stall_samples_detects_example =
    stall_samples_detects 6464 20 100 first_sample (second_sample ∷ []) ([], 0) (omega arith)
      (
        inl (refl, refl, refl, ((λ e. absurd (omega arith)), tt)),
        (inl (refl, refl, refl, ((λ e. absurd (omega arith)), tt)), tt),
      )
      (
        (((λ e. absurd (omega arith)), tt), (tt, tt)),
        ((((λ e. absurd (omega arith)), tt), (tt, tt)), tt),
      )

abbrev statistics : Text
statistics =
    codes " 6464  1234    20 2 65531     0     0      100  1"
    ++ (10 ∷ codes " 9999  1234    7 2 65531     0     0      5  1")

queue_stats-IsTally_example :
    IsTally no_stats
      (rows_of (some statistics) (queue_base + 2 - 1))
      (queue_stats (some statistics) 2)
queue_stats-IsTally_example = queue_stats-IsTally (some statistics) 2

abbrev plain_system : Probes
plain_system = record { ip6t = true; ttl_target = false; hl_target = true; balance = true }

abbrev two_workers : Config
two_workers = record default { workers = 2 }

choose-Suits_example :
    Post (Suits plain_system two_workers) (choose plain_system two_workers)
    × ((is_ok (choose plain_system two_workers) ≡ true) ↔ Meets plain_system two_workers)
choose-Suits_example = choose-Suits plain_system two_workers (omega arith)

abbrev running : Guard
running = record {
  active4 = some (codes "nfqttl_a");
  active6 = none;
  failures = 0;
  active_workers = 8;
  actions = [];
}

recover-IsRecovered_example : IsRecovered default running (recover default running)
recover-IsRecovered_example =
    recover-IsRecovered default running (omega arith) (omega arith) (omega arith)

recover_times-single_example : (recover_times (6 + (6 + 6)) default running).active_workers ≤ 1
recover_times-single_example =
    recover_times-single default running (omega arith, omega arith) refl (omega arith)
