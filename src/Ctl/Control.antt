-- ===== src/Ctl/Control.antt =====
-- src/ctl.rs, `stop`, `start`, `restart` and `toggle`, over the firewall, the shaping, the offload
-- settings and the processes of the program. The files and the signals are a parameter. The clock of
-- the wait in `stop` is its rounds: 45 seconds have at most 450 of a tenth of a second.
use nfqttl.Base.{
  ℕ, zero, suc, Bool, true, false, ◌&&◌, ◌||◌, if◌then◌else◌, List, [], ◌∷◌, Option, none, some,
  Result, ok, err, panic, stuck, Error, other, timed_out,
}
use nfqttl.Base.Text.{Text, codes, starts_with, ends_with, Signed}
use nfqttl.Config.Validate.{ConfigError, validate}
use nfqttl.Firewall.{Tool}
use nfqttl.Firewall
use nfqttl.Qos.Reconcile.{Shaper}
use nfqttl.Qos.Reconcile
use nfqttl.Offload.{restore}
use nfqttl.Offload
use nfqttl.Util.{Processes, owned_pid, pid_in, owned_in}
use nfqttl.Ctl.{Refusal, io_error, refused, bad_config}

-- `state_file` is `read_trim` of a file in the state directory, `has_module_file` whether the module
-- has a file, `usable` whether `Firewall::select` finds iptables, and `pause` a tenth of a second.
pub record Site (S : Type 0) : Type 0 where
  pub ensure_state : S → Bool × S
  pub write_paused : S → Bool × S
  pub remove_paused : S → S
  pub state_names : S → List Text
  pub state_file : Text → S → Option Text
  pub write_state : Text → Text → S → S
  pub remove_state : Text → S → S
  pub terminate : Signed → S → S
  pub pause : S → S
  pub usable : S → Bool
  pub has_module_file : Text → S → Bool
  pub config_text : S → Option Text
  pub spawn_daemon : Text → S → Bool × S

abbrev pub Done : Type 0 → Type 0
Done S = Result Refusal (Unit {0}) × S

module _ {S : Type 0} (site : Site S) (p : Processes S) where
  -- The daemon, if it is the program's own process.
  abbrev pub daemon_of : S → Option Signed
  daemon_of s = owned_in p (pid_in p (site.state_file (codes "lock/pid") s)) (codes "daemon") s

  abbrev pub is_some : Option Signed → Bool
  is_some none = false
  is_some (some pid) = true

  abbrev pub is_running : S → Bool
  is_running s = is_some (daemon_of s)

  abbrev pub is_worker_file : Text → Bool
  is_worker_file name = starts_with (codes "worker.") name && ends_with (codes ".pid") name

  abbrev pub signalled : Option Signed → S → S
  signalled none s = s
  signalled (some pid) s = site.terminate pid s

  unfoldable pub stop_orphan : Text → S → S
  stop_orphan name s =
      if is_worker_file name
      then signalled (owned_in p (pid_in p (site.state_file name s)) (codes "worker") s) s
      else s

  unfoldable pub stop_each : List Text → S → S
  stop_each [] s = s
  stop_each (name ∷ names) s = stop_each names (stop_orphan name s)

  abbrev pub stop_orphans : S → S
  stop_orphans s = stop_each (site.state_names s) s

  -- At most `n` pauses, until the daemon is gone.
  unfoldable pub wait_gone : ℕ → Signed → S → S
  wait_gone zero pid s = s
  wait_gone (suc n) pid s =
      let rest = wait_gone n pid (site.pause s) in
      if owned_pid p pid (codes "daemon") s then rest else s

module _ {S : Type 0} (site : Site S) (p : Processes S) (ipt : Tool S) (ip6t : Option (Tool S))
    (b : Shaper S) (d : Offload.Device S) where
  -- `sqm_result?` comes after `offload::restore`.
  abbrev pub shaped : Result Error (Unit {0}) × S → Done S
  shaped (ok u, s) = (ok tt, site.write_state (codes "phase") (codes "stopped") (restore d s))
  shaped (err e, s) = (err (refused e), restore d s)
  shaped (panic, s) = (panic, s)
  shaped (stuck, s) = (stuck, s)

  abbrev pub finished : S → Done S
  finished s = shaped (Reconcile.cleanup b (stop_orphans site p s))

  abbrev pub cleaned : Bool × S → Done S
  cleaned (false, s) = (err (refused (other "firewall cleanup incomplete")), s)
  cleaned (true, s) = finished s

  abbrev pub removed : S → Done S
  removed s = if site.usable s then cleaned (Firewall.cleanup ipt ip6t s) else finished s

  abbrev pub waited : Signed → S → Done S
  waited pid s =
      if owned_pid p pid (codes "daemon") s
      then (err (refused (timed_out "supervisor still stopping; inspect service.log")), s)
      else removed s

  abbrev pub halted : Option Signed → S → Done S
  halted none s = removed s
  halted (some pid) s = waited pid (wait_gone site p 450 pid (site.terminate pid s))

  abbrev pub paused : Bool × S → Done S
  paused (false, s) = (err io_error, s)
  paused (true, s) = halted (daemon_of site p s) s

  abbrev pub stop_ensured : Bool × S → Done S
  stop_ensured (false, s) = (err io_error, s)
  stop_ensured (true, s) = paused (site.write_paused s)

  unfoldable pub stop : S → Done S
  stop s = stop_ensured (site.ensure_state s)

  abbrev pub spawned : Bool × S → Done S
  spawned (false, s) = (err io_error, s)
  spawned (true, s) = (ok tt, s)

  abbrev pub launched : Option Text → S → Done S
  launched none s = (err io_error, s)
  launched (some exe) s = spawned (site.spawn_daemon exe s)

  abbrev pub fresh : S → S
  fresh s = site.remove_state (codes "last-error") (site.remove_paused s)

  abbrev pub start_ensured : Bool × S → Done S
  start_ensured (false, s) = (err io_error, s)
  start_ensured (true, s) =
      if is_running site p s then (ok tt, s) else launched (p.own_exe (fresh s)) (fresh s)

  abbrev pub valid : Result ConfigError (Unit {0}) → S → (S → Done S) → Done S
  valid (ok u) s rest = rest s
  valid (err e) s rest = (err (bad_config e), s)
  valid panic s rest = (panic, s)
  valid stuck s rest = (stuck, s)

  abbrev pub checked : S → (S → Done S) → Done S
  checked s rest = valid (validate (site.config_text s)) s rest

  unfoldable pub start : S → Done S
  start s =
      if site.has_module_file (codes "disable") s || site.has_module_file (codes "remove") s
      then (err (refused (other "Enable module in Magisk/KernelSU first")), s)
      else checked s (λ t. start_ensured (site.ensure_state t))

  abbrev pub started_again : Done S → Done S
  started_again (ok u, s) = start s
  started_again (err e, s) = (err e, s)
  started_again (panic, s) = (panic, s)
  started_again (stuck, s) = (stuck, s)

  unfoldable pub restart : S → Done S
  restart s = checked s (λ t. started_again (stop t))

  unfoldable pub toggle : S → Done S
  toggle s = if is_running site p s then stop s else start s
