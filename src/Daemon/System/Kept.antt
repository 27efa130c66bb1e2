-- ===== src/Daemon/System/Kept.antt =====
-- What all calls of the parts keep, the calls of the main loop keep.
use nfqttl.Base.{ℕ, Bool, false, List, [], Option, some}
use nfqttl.Base.Text.{Text}
use nfqttl.Firewall.{Command, Tool, cleanup, install4, install6, target4}
use nfqttl.Firewall.Kept.{cleanup-kept, install-kept, install6-kept}
use nfqttl.Config.{Config}
use nfqttl.Net.{Links}
use nfqttl.Qos.Reconcile.{Shaper, sync}
use nfqttl.Offload.{apply, restore}
use nfqttl.Offload
use nfqttl.Daemon.Workers.{Worker, Settings, Processes, Outcome, start, stop}
use nfqttl.Daemon.Loop.Keeps.{KeptByWorld}
use nfqttl.Daemon.System.{State, system, with_workers, with_chain, started_in}

-- The firewall, the shaping and the offload settings keep it.
pub record KeptByParts {S : Type 0} (t4 t6 : Tool S) (b : Shaper S) (d : Offload.Device S)
    (P : S → Type 0) : Type 0 where
  pub tool4 : (c : Command) (s : S) → P s → P (t4.run c s).1
  pub tool6 : (c : Command) (s : S) → P s → P (t6.run c s).1
  pub synced :
      (ifindex : Text → Option Text) (c : Config) (links : Links) (s : S)
      → P s
      → P (sync b ifindex c links s).1
  pub applied : (on : Bool) (s : S) → P s → P (apply d on s)
  pub restored : (s : S) → P s → P (restore d s)

module _ {S : Type 0} (t4 t6 : Tool S) (p : Processes S) (x : Settings) (b : Shaper S)
    (d : Offload.Device S) (ifindex : S → Text → Option Text) (I : List Worker → S → Type 0)
    (parts : (ws : List Worker) → KeptByParts t4 t6 b d (I ws)) where
  abbrev pub InTable : State S → Type 0
  InTable (ws, s) = I ws s

  abbrev pub Started : Outcome p x → Type 0
  Started (done, ws, s) = I ws s

  with_workers-InTable :
      (ws : List Worker) (m : Bool × S) → I ws m.1 → InTable (with_workers ws m).1
  with_workers-InTable ws (done, s) h = h

  with_chain-InTable :
      (ws : List Worker) (m : Bool × Option Text × S) → I ws m.2 → InTable (with_chain ws m).2
  with_chain-InTable ws (done, a, s) h = h

  started_in-InTable : (m : Outcome p x) → Started m → InTable (started_in m).1
  started_in-InTable (done, ws, s) h = h

  -- With what `stop` and `start` do to the table.
  pub system-kept :
      ((ws : List Worker) (s : S) → I ws s → I [] (stop p x ws s))
      → ((n : ℕ) (ws : List Worker) (s : S) → I ws s → Started (start p x n ws s))
      → KeptByWorld (system t4 (some t6) p x b d ifindex) InTable
  system-kept stops starts = record {
    clean = λ (ws, s) h.
        with_workers-InTable ws (cleanup t4 (some t6) s)
          (cleanup-kept t4 t6 (I ws) (parts ws).tool4 (parts ws).tool6 s h);
    install4 = λ links kernel workers ttl a (ws, s) h.
        with_chain-InTable ws (install4 t4 (some t6) links kernel workers ttl a s)
          (install-kept t4 (I ws) (parts ws).tool4 false (target4 kernel workers ttl) links a s h);
    install6 = λ links mode hl a (ws, s) h.
        with_chain-InTable ws (install6 t4 (some t6) links mode hl a s)
          (install6-kept t4 t6 (I ws) (parts ws).tool4 (parts ws).tool6 links mode hl a s h);
    stop = λ (ws, s) h. stops ws s h;
    start = λ n (ws, s) h. started_in-InTable (start p x n ws s) (starts n ws s h);
    healthy = λ n (ws, s) h. h;
    sync = λ c links (ws, s) h. (parts ws).synced (ifindex s) c links s h;
    apply_offload = λ on (ws, s) h. (parts ws).applied on s h;
    restore_offload = λ (ws, s) h. (parts ws).restored s h;
  }
