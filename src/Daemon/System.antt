-- ===== src/Daemon/System.antt =====
-- The firewall, the table of workers, the shaping and the offload settings as the interface that the
-- main loop of src/daemon.rs calls.

pub mod Kept
pub mod Orphans
pub mod Lasting
mod Examples
use nfqttl.Base.{ℕ, ◌≤◌, ◌≡◌, refl, arith, Bool, true, false, List, [], Option, none, some}
use nfqttl.Base.Text.{Text}
use nfqttl.Config.{Config}
use nfqttl.Net.{Links}
use nfqttl.Firewall.{
  Tool, Ipv6Plan, cleanup, install, installed, install4, install6, rules_ok, other_chain,
}
use nfqttl.Qos.Reconcile.{Shaper, sync}
use nfqttl.Offload.{apply, restore}
use nfqttl.Offload
use nfqttl.Daemon.{EffectiveBackend, Action}
use nfqttl.Daemon.Workers.{Worker, Settings, Processes, healthy, stop, start}
use nfqttl.Daemon.Loop.{World, Loop, is_some}
use nfqttl.Daemon.Loop.Orderly.{Installs}
use nfqttl.Daemon.Loop.Called.{LoggedCourse}

-- The table of workers, and the system.
abbrev pub State : Type 0 → Type 0
State S = List Worker × S

module _ {S : Type 0} where
  abbrev pub with_workers : List Worker → Bool × S → Bool × State S
  with_workers ws (b, s) = (b, (ws, s))

  abbrev pub with_chain : List Worker → Bool × Option Text × S → Bool × Option Text × State S
  with_chain ws (b, a, s) = (b, a, (ws, s))

  abbrev pub started_in : Bool × List Worker × S → Bool × State S
  started_in (b, ws, s) = (b, (ws, s))

  abbrev pub rules_in :
      Tool S → Bool → Option (Tool S) → Option Text → Links → Bool → ℕ → ℕ → Ipv6Plan → S → Bool
  rules_in t false o a links kernel workers value mode s =
      rules_ok t false a links kernel workers value mode s
  rules_in t true none a links kernel workers value mode s = false
  rules_in t true (some u) a links kernel workers value mode s =
      rules_ok u true a links kernel workers value mode s

module _ {S : Type 0} (ipt : Tool S) (ip6t : Option (Tool S)) (p : Processes S) (x : Settings)
    (b : Shaper S) (d : Offload.Device S) (ifindex : S → Text → Option Text) where
  -- `ifindex` is the contents of the files of that name under /sys/class/net.
  abbrev pub system : World (State S)
  system = record {
    clean = λ m. with_workers m.0 (cleanup ipt ip6t m.1);
    install4 = λ links kernel workers ttl a m.
        with_chain m.0 (install4 ipt ip6t links kernel workers ttl a m.1);
    install6 = λ links mode hl a m. with_chain m.0 (install6 ipt ip6t links mode hl a m.1);
    rules_ok = λ v6 a links kernel workers value mode m.
        rules_in ipt v6 ip6t a links kernel workers value mode m.1;
    stop = λ m. ([], stop p x m.0 m.1);
    start = λ n m. started_in (start p x n m.0 m.1);
    healthy = λ n m. (healthy p x n m.0 m.1, m);
    sync = λ c l m. (m.0, (sync b (ifindex m.1) c l m.1).1);
    apply_offload = λ on m. (m.0, apply d on m.1);
    restore_offload = λ m. (m.0, restore d m.1);
  }

  named :
      (ws : List Worker) (c : Text) (a : Option Text) (m : Bool × S)
      → (with_chain ws (installed ipt c a m)).0 ≡ true
      → is_some (with_chain ws (installed ipt c a m)).1 ≡ true
  named ws c a (true, s) h = refl
  named ws c a (false, s) h = ground arith

  pub system-Installs : Installs system
  unfolding install
  system-Installs = record {
    names = λ links kernel workers ttl a m h. named m.0 (other_chain false a) a _ h;
  }

  module _ (c : Config) (backend : EffectiveBackend) (v6 : Ipv6Plan) (most : ℕ)
      (few : most ≤ 255) where
    -- The calls that the loop makes are noted beside the state.
    abbrev pub Runs : Loop (List Action × State S) → Loop (List Action × State S) → Type 0
    Runs = LoggedCourse system c backend v6
