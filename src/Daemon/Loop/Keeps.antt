-- ===== src/Daemon/Loop/Keeps.antt =====
-- What every call of the main loop keeps, its rounds keep.
use nfqttl.Base.{
  ℕ, ◌≡◌, subst, Bool, true, false, ◌&&◌, ◌||◌, not, leb, if◌then◌else◌, Bool-cases, inl, inr, ◌==◌,
  Option, none, some,
}
use nfqttl.Base.Text.{Text, text_eq}
use nfqttl.Config.{Config}
use nfqttl.Net.{Links, active, signature}
use nfqttl.Firewall.{Ipv6Plan}
use nfqttl.Daemon.{EffectiveBackend, QStats, queue_stats, Progress, stall_sample, checked_workers}
use nfqttl.Daemon.Loop.{begin_loop, start_loop, stopped, finish}
use nfqttl.Daemon.Loop.{
  World, Inputs, Loop, Flow, next, again, is_nfqueue, is_some, is_due, did, rescan, resync, look,
  check_due, settled, apply_rules, judged, examined, watch_queues, ended, watched, looked, round,
  recovered, idle_part, started, kept_or_started, workers_ready, after6, after4, readied,
  install_part,
}

pub record KeptByWorld {S : Type 0} (w : World S) (I : S → Type 0) : Type 0 where
  pub clean : (s : S) → I s → I (w.clean s).1
  pub install4 :
      (links : Links) (kernel : Bool) (workers ttl : ℕ) (a : Option Text) (s : S)
      → I s
      → I (w.install4 links kernel workers ttl a s).2
  pub install6 :
      (links : Links) (mode : Ipv6Plan) (hl : ℕ) (a : Option Text) (s : S)
      → I s
      → I (w.install6 links mode hl a s).2
  pub stop : (s : S) → I s → I (w.stop s)
  pub start : (n : ℕ) (s : S) → I s → I (w.start n s).1
  pub healthy : (n : ℕ) (s : S) → I s → I (w.healthy n s).1
  pub sync : (c : Config) (links : Links) (s : S) → I s → I (w.sync c links s)
  pub apply_offload : (on : Bool) (s : S) → I s → I (w.apply_offload on s)
  pub restore_offload : (s : S) → I s → I (w.restore_offload s)

module _ {S : Type 0} (w : World S) (I : S → Type 0) (kept : KeptByWorld w I) (c : Config)
    (backend : EffectiveBackend) (v6 : Ipv6Plan) where
  abbrev FlowKeeps : Flow S → Type 0
  FlowKeeps (next l) = I l.world
  FlowKeeps (again l) = I l.world

  if-FlowKeeps :
      (b : Bool) (f g : Flow S) → FlowKeeps f → FlowKeeps g → FlowKeeps (if b then f else g)
  if-FlowKeeps true f g h k = h
  if-FlowKeeps false f g h k = k

  recovered-Keeps : (l : Loop S) → I l.world → FlowKeeps (recovered w c backend v6 l)
  unfolding recovered
  recovered-Keeps l h = kept.stop _ (kept.clean l.world h)

  idle_part-Keeps : (l : Loop S) → I l.world → I (idle_part w c backend v6 l).world
  unfolding idle_part
  idle_part-Keeps l h = elim (Bool-cases (is_some l.guard.active4 || is_some l.guard.active6)) [
    | inl rules ↦ rw rules (kept.stop _ (kept.clean l.world h))
    | inr nothing ↦ rw nothing h
  ]

  started-Keeps : (m : Bool × S) (l : Loop S) → I m.1 → I (started w c backend v6 m l).1.world
  started-Keeps (b, s) l h = h

  kept_or_started-Keeps :
      (m : Bool × S) (l : Loop S) → I m.1 → I (kept_or_started w c backend v6 m l).1.world
  kept_or_started-Keeps (true, s) l h = h
  kept_or_started-Keeps (false, s) l h =
      started-Keeps (w.start l.guard.active_workers s)
        (did (checked_workers false) (record l { world = s }))
        (kept.start l.guard.active_workers s h)

  workers_ready-Keeps :
      (e : EffectiveBackend) (l : Loop S) → I l.world → I (workers_ready w c backend v6 e l).1.world
  workers_ready-Keeps EffectiveBackend.kernel l h = h
  workers_ready-Keeps EffectiveBackend.nfqueue l h =
      kept_or_started-Keeps (w.healthy l.guard.active_workers l.world) l
        (kept.healthy l.guard.active_workers l.world h)

  after6-Keeps :
      (m : Bool × Option Text × S) (l : Loop S) → I m.2 → FlowKeeps (after6 w c backend v6 m l)
  after6-Keeps (true, a, s) l h = h
  after6-Keeps (false, a, s) l h = recovered-Keeps _ h

  after4-Keeps :
      (m : Bool × Option Text × S) (l : Loop S) → I m.2 → FlowKeeps (after4 w c backend v6 m l)
  after4-Keeps (true, a, s) l h =
      after6-Keeps (w.install6 l.links v6 c.ipv6_hl l.guard.active6 s) _
        (kept.install6 l.links v6 c.ipv6_hl l.guard.active6 s h)
  after4-Keeps (false, a, s) l h = recovered-Keeps _ h

  readied-Keeps : (m : Bool × Loop S) → I m.1.world → FlowKeeps (readied w c backend v6 m)
  readied-Keeps (true, l) h = after4-Keeps _ l (kept.install4 _ _ _ _ _ l.world h)
  readied-Keeps (false, l) h = recovered-Keeps l h

  install_part-Keeps : (l : Loop S) → I l.world → FlowKeeps (install_part w c backend v6 l)
  unfolding install_part
  install_part-Keeps l h = readied-Keeps _ (workers_ready-Keeps backend _ h)

  settled-Keeps : (i : Inputs) (f : Flow S) → FlowKeeps f → FlowKeeps (settled w c backend v6 i f)
  settled-Keeps i (again l) h = h
  settled-Keeps i (next l) h = h

  apply_rules-Keeps :
      (i : Inputs) (l : Loop S) → I l.world → FlowKeeps (apply_rules w c backend v6 i l)
  unfolding apply_rules
  apply_rules-Keeps i l h =
      settled-Keeps i _
        (if-FlowKeeps (active l.links) _ _ (install_part-Keeps l h) (idle_part-Keeps l h))

  judged-Keeps :
      (i : Inputs) (q : QStats) (p : Progress × ℕ) (l : Loop S)
      → I l.world
      → FlowKeeps (judged w c backend v6 i q p l)
  judged-Keeps i q (progress, stalled) l h =
      if-FlowKeeps (leb c.stall_limit stalled) _ (next _) (recovered-Keeps _ h) h

  examined-Keeps :
      (i : Inputs) (q : QStats) (m : Bool × S) (l : Loop S)
      → I m.1
      → FlowKeeps (examined w c backend v6 i q m l)
  examined-Keeps i q (alive, s) l h =
      let m = did (checked_workers alive) (record l { world = s; monitor = i.now }) in
      if-FlowKeeps (not alive || not (q.rows == l.guard.active_workers)) _ _ (recovered-Keeps m h)
        (judged-Keeps i q (stall_sample m.progress q.entries) m h)

  watch_queues-Keeps :
      (i : Inputs) (l : Loop S) → I l.world → FlowKeeps (watch_queues w c backend v6 i l)
  unfolding watch_queues
  watch_queues-Keeps i l h =
      if-FlowKeeps
        (is_nfqueue backend && (is_some l.guard.active4 && is_due i.now l.monitor c.watchdog_ms)) _
        (next l)
        (examined-Keeps i (queue_stats i.stats l.guard.active_workers) _ l
          (kept.healthy l.guard.active_workers l.world h))
        h

  ended-Keeps : (i : Inputs) (f : Flow S) → FlowKeeps f → I (ended w c backend v6 i f).world
  ended-Keeps i (again l) h = h
  ended-Keeps i (next l) h = at (is_due i.now l.offload_check 30000)
    where
      at : (b : Bool) → I (if b then w.apply_offload c.disable_offload l.world else l.world)
      at true = kept.apply_offload c.disable_offload l.world h
      at false = h

  watched-Keeps : (i : Inputs) (f : Flow S) → FlowKeeps f → I (watched w c backend v6 i f).world
  watched-Keeps i (again l) h = h
  watched-Keeps i (next l) h = ended-Keeps i _ (watch_queues-Keeps i l h)

  looked-Keeps :
      (i : Inputs) (m : Bool × Loop S) → I m.1.world → I (looked w c backend v6 i m).world
  looked-Keeps i (true, l) h = watched-Keeps i _ (apply_rules-Keeps i l h)
  looked-Keeps i (false, l) h = watched-Keeps i (next l) h

  look-Keeps : (i : Inputs) (l : Loop S) → I l.world → I (look w c backend v6 i l).1.world
  unfolding look
  look-Keeps i l h = elim (Bool-cases (check_due c i l)) [
    | inl due ↦ rw due h
    | inr early ↦ rw early h
  ]

  if-Keeps : (b : Bool) (l m : Loop S) → I l.world → I m.world → I (if b then l else m).world
  if-Keeps true l m h k = h
  if-Keeps false l m h k = k

  abbrev OptionKeeps : Option (Loop S) → Type 0
  OptionKeeps none = Unit
  OptionKeeps (some l) = I l.world

  or_none : (b : Bool) (l : Loop S) → I l.world → OptionKeeps (if b then none else some l)
  or_none true l h = tt
  or_none false l h = h

  resync-Keeps : (i : Inputs) (l : Loop S) → I l.world → I (resync w c backend v6 i l).world
  resync-Keeps i l h =
      if-Keeps
        (l.first || (not (text_eq (signature l.links) l.last) || is_due i.now l.sqm_check 30000)) _
        l (kept.sync c l.links l.world h) h

  round-OptionKeeps : (i : Inputs) (l : Loop S) → I l.world → OptionKeeps (round w c backend v6 i l)
  unfolding round
  round-OptionKeeps i l h = or_none (i.stopping || i.disabled) _ (
      looked-Keeps i _ (
        look-Keeps i (resync w c backend v6 i (rescan c i l)) (
          resync-Keeps i (rescan c i l)
            (if-Keeps (l.first || (l.changed || is_due i.now l.scan c.rescan_ms)) _ l h h))))

  pub round-Keeps :
      (i : Inputs) (l m : Loop S) → round w c backend v6 i l ≡ some m → I l.world → I m.world
  round-Keeps i l m e h = subst OptionKeeps e (round-OptionKeeps i l h)

  pub begin_loop-Keeps :
      (s : S) (workers now : ℕ) → I s → I (begin_loop w c backend v6 s workers now).world
  unfolding begin_loop start_loop
  begin_loop-Keeps s workers now h = at c.disable_offload
    where
      at : (b : Bool) → I (if b then w.apply_offload true s else w.restore_offload s)
      at true = kept.apply_offload true s h
      at false = kept.restore_offload s h

  stopped-Keeps : (m : Bool × S) → I m.1 → I (stopped w c backend v6 m).1
  stopped-Keeps (true, s) h = kept.restore_offload _ (kept.stop s h)
  stopped-Keeps (false, s) h = kept.restore_offload _ (kept.stop s h)

  pub finish-Keeps : (l : Loop S) → I l.world → I (finish w c backend v6 l).1
  unfolding finish
  finish-Keeps l h = stopped-Keeps (w.clean l.world) (kept.clean l.world h)

-- Rounds, and changes of the system between them, of which some are allowed.
module _ {S : Type 0} (w : World S) (Allowed : S → S → Type 0) (c : Config)
    (backend : EffectiveBackend) (v6 : Ipv6Plan) where
  pub data Course (l : Loop S) : Loop S → Type 0 where
    here : Course l l
    turn :
        {m n : Loop S} → Course l m → (i : Inputs) → round w c backend v6 i m ≡ some n → Course l n
    outside :
        {m : Loop S} → Course l m → (s : S) → Allowed m.world s → Course l (record m { world = s })

  pub Course-Keeps :
      (I : S → Type 0) (kept : KeptByWorld w I)
      → ((s t : S) → Allowed s t → I s → I t)
      → {l m : Loop S} → Course l m
      → I l.world
      → I m.world
  Course-Keeps I kept allowed here h = h
  Course-Keeps I kept allowed (turn {m} {n} r i e) h =
      round-Keeps w I kept c backend v6 i m n e (Course-Keeps I kept allowed r h)
  Course-Keeps I kept allowed (outside {m} r s a) h =
      allowed m.world s a (Course-Keeps I kept allowed r h)
