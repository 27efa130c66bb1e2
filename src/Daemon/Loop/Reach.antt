-- ===== src/Daemon/Loop/Reach.antt =====
-- The main loop over any rounds, whatever the system does between them.
use nfqttl.Base.{
  ℕ, ◌≤◌, ◌≡◌, refl, subst, Bool, true, false, ◌&&◌, ◌||◌, not, leb, if◌then◌else◌, Bool-cases, inl,
  inr, Option, none, some,
}
use nfqttl.Base.Text.{text_eq}
use nfqttl.Config.{Config}
use nfqttl.Net.{active, signature}
use nfqttl.Firewall.{Ipv6Plan}
use nfqttl.Daemon.{EffectiveBackend, QStats, queue_stats, Progress, checked_workers, stall_sample}
use nfqttl.Daemon.Loop.{
  World, Inputs, Phase, Loop, Flow, next, again, starting, idle, installing, running, recovering,
  is_nfqueue, is_some, is_due, did, start_loop, rescan, resync, look, check_due, settled,
  apply_rules, judged, examined, watch_queues, refreshed, ended, watched, looked, round,
}
use nfqttl.Daemon.Loop.Trace.{observe_calls, unused}
use nfqttl.Daemon.Loop.Orderly.{
  Told, IsSound, Holds, FlowHolds, if-FlowHolds, Installs, recovered-Holds, did-SoundAt,
  idle_part-Holds, install_part-Holds, noted,
}

module _ {S : Type 0} (w : World S) (law : Installs w) (c : Config) (backend : EffectiveBackend)
    (v6 : Ipv6Plan) (most : ℕ) (few : most ≤ 255) where
  abbrev q : Bool
  q = is_nfqueue backend

  settled-Holds :
      (i : Inputs) (f : Flow S) → FlowHolds q most f → FlowHolds q most (settled w c backend v6 i f)
  settled-Holds i (again l) h = h
  settled-Holds i (next l) h = h

  apply_rules-Holds :
      (i : Inputs) (l : Loop S)
      → IsSound q most l.guard
      → FlowHolds q most (apply_rules w c backend v6 i l)
  unfolding apply_rules
  apply_rules-Holds i l h = settled-Holds i _ (
      if-FlowHolds w law c backend v6 most few (active l.links) _ _
        (install_part-Holds w law c backend v6 most few l h)
        (idle_part-Holds w law c backend v6 most few l h))

  judged-Holds :
      (i : Inputs) (qs : QStats) (p : Progress × ℕ) (l : Loop S)
      → Holds q most l
      → FlowHolds q most (judged w c backend v6 i qs p l)
  judged-Holds i qs (progress, stalled) l h =
      if-FlowHolds w law c backend v6 most few (leb c.stall_limit stalled) _ _
        (recovered-Holds w law c backend v6 most few _ h.0) h

  examined-Holds :
      (i : Inputs) (qs : QStats) (m : Bool × S) (l : Loop S)
      → Holds q most l
      → FlowHolds q most (examined w c backend v6 i qs m l)
  unfolding observe_calls
  examined-Holds i qs (alive, s) l ((t, h), told) =
      let m = did (checked_workers alive) (record l { world = s; monitor = i.now }) in
      let sound : IsSound q most m.guard = (
        noted alive,
        did-SoundAt w law c backend v6 most few (checked_workers alive) l.guard t (noted alive) refl
            h,
      ) in
      if-FlowHolds w law c backend v6 most few _ _ _
        (recovered-Holds w law c backend v6 most few m sound)
        (judged-Holds i qs (stall_sample m.progress qs.entries) m (sound, told_still l.phase told))
    where
      told_still : (p : Phase) → Told p l.guard → Told p (did (checked_workers alive) l).guard
      told_still starting h = h
      told_still idle h = h
      told_still running h = h
      told_still recovering h = h
      told_still installing h = h

  watch_queues-Holds :
      (i : Inputs) (l : Loop S)
      → Holds q most l
      → FlowHolds q most (watch_queues w c backend v6 i l)
  unfolding watch_queues
  watch_queues-Holds i l h =
      if-FlowHolds w law c backend v6 most few
        (is_nfqueue backend && (is_some l.guard.active4 && is_due i.now l.monitor c.watchdog_ms)) _
        (next l)
        (examined-Holds i (queue_stats i.stats l.guard.active_workers)
          (w.healthy l.guard.active_workers l.world) l h)
        h

  ended-Holds :
      (i : Inputs) (f : Flow S) → FlowHolds q most f → Holds q most (ended w c backend v6 i f)
  ended-Holds i (again l) h = h
  ended-Holds i (next l) (h, told) = (h, told_still l.phase told)
    where
      told_still : (p : Phase) → Told p l.guard → Told p (refreshed w c backend v6 i l).guard
      told_still starting h = h
      told_still idle h = h
      told_still running h = h
      told_still recovering h = h
      told_still installing h = h

  watched-Holds :
      (i : Inputs) (f : Flow S) → FlowHolds q most f → Holds q most (watched w c backend v6 i f)
  watched-Holds i (again l) h = h
  watched-Holds i (next l) h =
      ended-Holds i (watch_queues w c backend v6 i l) (watch_queues-Holds i l h)

  looked-Holds :
      (i : Inputs) (m : Bool × Loop S) → Holds q most m.1 → Holds q most (looked w c backend v6 i m)
  looked-Holds i (true, l) h =
      watched-Holds i (apply_rules w c backend v6 i l) (apply_rules-Holds i l h.0)
  looked-Holds i (false, l) h = watched-Holds i (next l) h

  -- The steps before that leave the calls and the phase alone.
  if-Holds :
      (b : Bool) (l m : Loop S)
      → Holds q most l
      → Holds q most m
      → Holds q most (if b then l else m)
  if-Holds true l m h k = h
  if-Holds false l m h k = k

  look-Holds : (i : Inputs) (l : Loop S) → Holds q most l → Holds q most (look w c backend v6 i l).1
  unfolding look
  look-Holds i l h = elim (Bool-cases (check_due c i l)) [
    | inl due ↦ rw due h
    | inr early ↦ rw early h
  ]

  -- One round, and whatever the system does after it.
  pub data Step : Loop S → Loop S → Type 0 where
    turn : {l m : Loop S} → (i : Inputs) → round w c backend v6 i l ≡ some m → Step l m
    outside : {l : Loop S} → (s : S) → Step l (record l { world = s })

  pub data Reach (l : Loop S) : Loop S → Type 0 where
    here : Reach l l
    onward : {m n : Loop S} → Reach l m → Step m n → Reach l n

  abbrev OptionHolds : Option (Loop S) → Type 0
  OptionHolds none = Unit
  OptionHolds (some l) = Holds q most l

  or_none : (b : Bool) (l : Loop S) → Holds q most l → OptionHolds (if b then none else some l)
  or_none true l h = tt
  or_none false l h = h

  round-Holds : (i : Inputs) (l : Loop S) → Holds q most l → OptionHolds (round w c backend v6 i l)
  unfolding round
  round-Holds i l h =
      let scanned =
        if-Holds (l.first || (l.changed || is_due i.now l.scan c.rescan_ms))
          (record l { links = i.found; scan = i.now }) l h h in
      let m = rescan c i l in
      let synced =
        if-Holds
          (m.first || (not (text_eq (signature m.links) m.last) || is_due i.now m.sqm_check 30000))
          (record m { world = w.sync c m.links m.world; sqm_check = i.now }) m scanned scanned in
      or_none (i.stopping || i.disabled) _ (
        looked-Holds i (look w c backend v6 i (resync w c backend v6 i m))
          (look-Holds i (resync w c backend v6 i m) synced))

  Step-Holds : {l m : Loop S} → Step l m → Holds q most l → Holds q most m
  Step-Holds {l} (turn i e) h = subst OptionHolds e (round-Holds i l h)
  Step-Holds (outside s) h = h

  Reach-Holds : {l m : Loop S} → Reach l m → Holds q most l → Holds q most m
  Reach-Holds here h = h
  Reach-Holds (onward r st) h = Step-Holds st (Reach-Holds r h)

  -- For an installation that names its chain when it succeeds, and 1 to `most` (at most 255)
  -- workers at the start: after any rounds on any inputs, between which the system may change in
  -- any way, the calls that the loop lists were in order (workers are stopped only right after a
  -- cleanup, and rules that queue packets are installed only while the workers are known to be up),
  -- there are 1 to `most` workers, and the phase that is shown agrees with the chains that the loop
  -- takes as active: one for IPv4 when it is running, and none when it says that the daemon is
  -- starting, idle or recovering.
  pub Reach-start_loop :
      (s : S) (workers now : ℕ) (m : Loop S)
      → 1 ≤ workers
      → workers ≤ most
      → Reach (start_loop s workers now) m
      → Holds q most m
  unfolding start_loop observe_calls
  Reach-start_loop s workers now m lo hi r =
      Reach-Holds r ((unused, (refl, (lo, hi))), (refl, refl))
