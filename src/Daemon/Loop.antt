-- ===== src/Daemon/Loop.antt =====
-- src/daemon.rs, `run_inner`: the main loop. The firewall, the workers, the shaping and the offload
-- settings are an interface; the clock, the requests to stop, the interfaces that are found and the
-- statistics of the queues are the inputs of a round. The clock is read once per round.
mod Variables
pub mod Trace
pub mod Orderly
pub mod Reach
pub mod Keeps
pub mod Logged
pub mod Called
mod Examples
use nfqttl.Base.{
  ℕ, ◌+◌, ◌-◌, ◌%◌, ◌^◌, min, Bool, true, false, ◌&&◌, ◌||◌, not, leb, ltb, ◌==◌, if◌then◌else◌,
  List, [], ◌∷◌, ◌++◌, Option, none, some, Result, ok, err, Error, other,
}
use nfqttl.Base.Text.{Text, text_eq, to_text}
use nfqttl.Config.{Config}
use nfqttl.Net.{Links, signature, active, is_empty}
use nfqttl.Firewall.{Ipv6Plan}
use nfqttl.Daemon.{
  EffectiveBackend, Choice, QStats, queue_stats, Progress, stall_sample, Action, cleanup,
  stop_workers, checked_workers, started_workers, installed4, installed6, Guard, recover,
}
unfoldable pub use Variables.*

module _ {S : Type 0} where
  abbrev pub did : Action → Loop S → Loop S
  did a l = record l { guard = record l.guard { actions = l.guard.actions ++ (a ∷ []) } }

  unfoldable pub start_loop : S → ℕ → ℕ → Loop S
  start_loop s active_workers now = record {
    world = s;
    guard = record {
      active4 = none;
      active6 = none;
      failures = 0;
      active_workers = active_workers;
      actions = [];
    };
    links = record { down = []; up = [] };
    last = [];
    progress = [];
    last_drops = [];
    warn_backlog = 0;
    stable = now;
    scan = now;
    check = now;
    offload_check = now;
    sqm_check = now;
    monitor = now;
    changed = true;
    first = true;
    phase = starting;
  }

  -- The interfaces are looked for again.
  abbrev pub rescan : Config → Inputs → Loop S → Loop S
  rescan c i l =
      if l.first || (l.changed || is_due i.now l.scan c.rescan_ms)
      then record l { links = i.found; scan = i.now }
      else l

  abbrev pub check_due : Config → Inputs → Loop S → Bool
  check_due c i l = active l.links && (l.first || (l.changed || is_due i.now l.check c.check_ms))

  module _ (w : World S) (c : Config) (backend : EffectiveBackend) (v6 : Ipv6Plan) where
    abbrev pub both_ok : Loop S → Bool
    both_ok l =
        w.rules_ok false l.guard.active4 l.links (not (is_nfqueue backend)) l.guard.active_workers
          c.ttl v6 l.world
        && (not (has_rules6 v6)
            || w.rules_ok true l.guard.active6 l.links true l.guard.active_workers c.ipv6_hl v6
                l.world)

    -- The offload settings come before the loop.
    unfoldable pub begin_loop : S → ℕ → ℕ → Loop S
    begin_loop s active_workers now =
        start_loop (if c.disable_offload then w.apply_offload true s else w.restore_offload s)
          active_workers now

    abbrev pub resync : Inputs → Loop S → Loop S
    resync i l =
        if l.first || (not (text_eq (signature l.links) l.last) || is_due i.now l.sqm_check 30000)
        then record l { world = w.sync c l.links l.world; sqm_check = i.now }
        else l

    -- `first || sig != last || !intact`, and the time of the check.
    unfoldable pub look : Inputs → Loop S → Bool × Loop S
    look i l =
        if check_due c i l
        then (
          l.first || (not (text_eq (signature l.links) l.last) || not (both_ok l)),
          record l { check = i.now },
        )
        else (l.first || not (text_eq (signature l.links) l.last), l)

    -- `recover`, and the `first = true; continue` after it.
    unfoldable pub recovered : Loop S → Flow S
    recovered l = again (record l {
      world = w.stop (w.clean l.world).1;
      guard = recover c l.guard;
      phase = recovering;
      first = true;
    })

    -- No links are active: the rules go, then the workers.
    unfoldable pub idle_part : Loop S → Loop S
    idle_part l =
        if is_some l.guard.active4 || is_some l.guard.active6
        then taken (w.clean l.world)
        else record l { first = false; phase = idle }
      where
        taken : Bool × S → Loop S
        taken (cleaned, s) = record l {
          world = w.stop s;
          guard = record l.guard {
            active4 = none;
            active6 = none;
            actions = l.guard.actions ++ (cleanup ∷ stop_workers ∷ []);
          };
          first = not cleaned;
          phase = idle;
        }

    -- `workers.healthy(…) || workers.start(…)`
    abbrev pub started : Bool × S → Loop S → Bool × Loop S
    started (b, s) l = (b, did (started_workers b) (record l { world = s }))

    abbrev pub kept_or_started : Bool × S → Loop S → Bool × Loop S
    kept_or_started (true, s) l = (true, did (checked_workers true) (record l { world = s }))
    kept_or_started (false, s) l =
        started (w.start l.guard.active_workers s)
          (did (checked_workers false) (record l { world = s }))

    abbrev pub workers_ready : EffectiveBackend → Loop S → Bool × Loop S
    workers_ready EffectiveBackend.kernel l = (true, l)
    workers_ready EffectiveBackend.nfqueue l =
        kept_or_started (w.healthy l.guard.active_workers l.world) l

    abbrev pub after6 : Bool × Option Text × S → Loop S → Flow S
    after6 (false, a, s) l =
        recovered
          (did (installed6 false) (record l { world = s; guard = record l.guard { active6 = a } }))
    after6 (true, a, s) l = next (
        did (installed6 true)
          (record l { world = s; guard = record l.guard { active6 = a }; phase = running }))

    abbrev pub after4 : Bool × Option Text × S → Loop S → Flow S
    after4 (false, a, s) l =
        recovered
          (did (installed4 false) (record l { world = s; guard = record l.guard { active4 = a } }))
    after4 (true, a, s) l =
        let m =
          did (installed4 true) (record l { world = s; guard = record l.guard { active4 = a } }) in
        after6 (w.install6 m.links v6 c.ipv6_hl m.guard.active6 m.world) m

    abbrev pub readied : Bool × Loop S → Flow S
    readied (false, m) = recovered m
    readied (true, m) =
        after4
          (w.install4 m.links (not (is_nfqueue backend)) m.guard.active_workers c.ttl
            m.guard.active4 m.world)
          m

    unfoldable pub install_part : Loop S → Flow S
    install_part l =
        readied (workers_ready backend (record l { first = false; phase = installing }))

    abbrev pub settled : Inputs → Flow S → Flow S
    settled i (again l) = again l
    settled i (next l) =
        next (record l { last = signature l.links; progress = []; last_drops = []; stable = i.now })

    unfoldable pub apply_rules : Inputs → Loop S → Flow S
    apply_rules i l = settled i (if active l.links then install_part l else next (idle_part l))

    -- The watchdog of the queues.
    abbrev pub judged : Inputs → QStats → Progress × ℕ → Loop S → Flow S
    judged i q (progress, stalled) l =
        let m = record l {
          progress = progress;
          warn_backlog = if leb c.max_backlog q.len then (l.warn_backlog + 1) % 2 ^ 64 else 0;
        } in
        if leb c.stall_limit stalled
        then recovered m
        else next (record m { last_drops = drops_of q })

    abbrev pub examined : Inputs → QStats → Bool × S → Loop S → Flow S
    examined i q (alive, s) l =
        let m = did (checked_workers alive) (record l { world = s; monitor = i.now }) in
        if not alive || not (q.rows == l.guard.active_workers)
        then recovered m
        else judged i q (stall_sample m.progress q.entries) m

    unfoldable pub watch_queues : Inputs → Loop S → Flow S
    watch_queues i l =
        if is_nfqueue backend && (is_some l.guard.active4 && is_due i.now l.monitor c.watchdog_ms)
        then examined i (queue_stats i.stats l.guard.active_workers)
            (w.healthy l.guard.active_workers l.world) l
        else next l

    -- A stable minute forgets the failures; the offload settings are applied every 30 seconds.
    abbrev pub refreshed : Inputs → Loop S → Loop S
    refreshed i l = record l {
      world =
          if is_due i.now l.offload_check 30000
          then w.apply_offload c.disable_offload l.world
          else l.world;
      guard = record l.guard {
        failures = if is_due i.now l.stable 60000 then 0 else l.guard.failures;
      };
      offload_check = if is_due i.now l.offload_check 30000 then i.now else l.offload_check;
      changed = i.notified;
    }

    abbrev pub ended : Inputs → Flow S → Loop S
    ended i (again l) = l
    ended i (next l) = refreshed i l

    abbrev pub watched : Inputs → Flow S → Loop S
    watched i (again l) = l
    watched i (next l) = ended i (watch_queues i l)

    abbrev pub looked : Inputs → Bool × Loop S → Loop S
    looked i (true, l) = watched i (apply_rules i l)
    looked i (false, l) = watched i (next l)

    -- One round, none when the loop ends.
    unfoldable pub round : Inputs → Loop S → Option (Loop S)
    round i l =
        if i.stopping || i.disabled
        then none
        else some (looked i (look i (resync i (rescan c i l))))

    -- How long the wait at the end of a round lasts.
    unfoldable pub delay_of : Loop S → ℕ
    delay_of l =
        if active l.links && is_nfqueue backend
        then c.watchdog_ms
        else if active l.links
        then min c.check_ms (2 ^ 31 - 1)
        else c.idle_ms

    -- After the loop.
    abbrev pub stopped : Bool × S → Result Error (Unit {0}) × S
    stopped (true, s) = (ok tt, w.restore_offload (w.stop s))
    stopped (false, s) = (err (other "firewall cleanup incomplete"), w.restore_offload (w.stop s))

    unfoldable pub finish : Loop S → Result Error (Unit {0}) × S
    finish l = stopped (w.clean l.world)
