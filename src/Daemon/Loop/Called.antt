-- ===== src/Daemon/Loop/Called.antt =====
-- The calls that the main loop really makes are in order, over any rounds.
use nfqttl.Base.{
  ℕ, ◌≤◌, ◌≡◌, refl, ◌∙◌, subst, arith, Bool, true, false, ◌&&◌, ◌||◌, not, leb, ◌==◌,
  if◌then◌else◌, Bool-cases, inl, inr, List, [], ◌∷◌, Option, none, some,
}
use nfqttl.Base.Text.{text_eq}
use nfqttl.Config.{Config}
use nfqttl.Net.{signature}
use nfqttl.Firewall.{Ipv6Plan}
use nfqttl.Daemon.{
  EffectiveBackend, QStats, queue_stats, Progress, stall_sample, Action, cleanup, stop_workers,
  wait_rounds, checked_workers, started_workers, installed4, installed6,
}
use nfqttl.Daemon.Loop.{
  World, Inputs, Loop, Flow, next, again, start_loop, is_nfqueue, is_some, is_due, did, rescan,
  resync, look, check_due, judged, examined, watch_queues, ended, watched, looked, round,
}
use nfqttl.Daemon.Loop.Trace.{Status, observe_calls, unused, Ordered}
use nfqttl.Daemon.Loop.Orderly.{Holds, Installs}
use nfqttl.Daemon.Loop.Reach
use nfqttl.Daemon.Loop.Keeps.{Course, here, turn, outside}
use nfqttl.Daemon.Loop.Logged.{
  logged, calls_of, both_append, Matches, FlowMatches, if-FlowMatches, recovered-Matches,
  apply_rules-Matches,
}

-- The calls are in order.
abbrev pub InOrder : Bool → List Action → Type 0
InOrder queued xs = (t : Status) × Ordered queued xs t

-- Without a wait between, no less is known of a cleanup.
abbrev Follows : Status → Status → Type 0
Follows t u = (u.up ≡ t.up) × (t.cleaned ≡ true → u.cleaned ≡ true)

observe_calls-calls_of :
    (queued : Bool) (xs : List Action) (t u v : Status)
    → Follows t u
    → observe_calls queued t xs ≡ some v
    → (x : Status) × (observe_calls queued u (calls_of xs) ≡ some x)
unfolding observe_calls calls_of
observe_calls-calls_of queued [] t u v f h = (u, refl)
observe_calls-calls_of queued (wait_rounds n ∷ xs) t u v (e, c) h =
    observe_calls-calls_of queued xs _ u v (e, λ k. ground (arith, k)) h
observe_calls-calls_of queued (cleanup ∷ xs) t u v (e, c) h =
    observe_calls-calls_of queued xs _ _ v (e, λ k. refl) h
observe_calls-calls_of queued (checked_workers b ∷ xs) t u v f h =
    observe_calls-calls_of queued xs _ _ v (refl, λ k. k) h
observe_calls-calls_of queued (started_workers b ∷ xs) t u v f h =
    observe_calls-calls_of queued xs _ _ v (refl, λ k. k) h
observe_calls-calls_of queued (installed6 b ∷ xs) t u v (e, c) h =
    observe_calls-calls_of queued xs _ _ v (e, λ k. k) h
observe_calls-calls_of queued (stop_workers ∷ xs) t u v (e, c) h = elim (Bool-cases t.cleaned) [
  | inl k ↦ rw (c k) (observe_calls-calls_of queued xs _ _ v (refl, λ k. k) (rw k at h))
  | inr k ↦ absurd (ground (arith, h, k))
]
observe_calls-calls_of queued (installed4 b ∷ xs) t u v (e, c) h =
    elim (Bool-cases (queued && not t.up)) [
      | inl k ↦ absurd (ground (arith, h, k))
      | inr k ↦ rw (e, k) (observe_calls-calls_of queued xs _ _ v (refl, λ k. k) (rw k at h))
    ]

pub InOrder-calls_of :
    (queued : Bool) (log xs : List Action) (t : Status)
    → log ≡ calls_of xs
    → Ordered queued xs t
    → InOrder queued log
InOrder-calls_of queued log xs t e h =
    let (x, o) = observe_calls-calls_of queued xs unused unused t (refl, λ k. k) h in (x, rw e o)

module _ {S : Type 0} (w : World S) (c : Config) (backend : EffectiveBackend) (v6 : Ipv6Plan) where
  judged-Matches :
      (i : Inputs) (q : QStats) (p : Progress × ℕ) (l : Loop (List Action × S))
      → Matches w c backend v6 l
      → FlowMatches w c backend v6 (judged (logged w) c backend v6 i q p l)
  judged-Matches i q (progress, stalled) l h =
      if-FlowMatches w c backend v6 (leb c.stall_limit stalled) _ (next _)
        (recovered-Matches w c backend v6 _ h) h

  examined-Matches :
      (i : Inputs) (q : QStats) (m : Bool × (List Action × S)) (l : Loop (List Action × S))
      → Matches w c backend v6 (did (checked_workers m.0) (record l { world = m.1 }))
      → FlowMatches w c backend v6 (examined (logged w) c backend v6 i q m l)
  examined-Matches i q (alive, s) l h =
      let m = did (checked_workers alive) (record l { world = s; monitor = i.now }) in
      if-FlowMatches w c backend v6 (not alive || not (q.rows == l.guard.active_workers)) _ _
        (recovered-Matches w c backend v6 m h)
        (judged-Matches i q (stall_sample m.progress q.entries) m h)

  watch_queues-Matches :
      (i : Inputs) (l : Loop (List Action × S))
      → Matches w c backend v6 l
      → FlowMatches w c backend v6 (watch_queues (logged w) c backend v6 i l)
  unfolding watch_queues calls_of
  watch_queues-Matches i l h =
      let r = (logged w).healthy l.guard.active_workers l.world in
      if-FlowMatches w c backend v6
        (is_nfqueue backend && (is_some l.guard.active4 && is_due i.now l.monitor c.watchdog_ms)) _
        (next l)
        (examined-Matches i (queue_stats i.stats l.guard.active_workers) r l
          (both_append l.world.0 l.guard.actions (checked_workers r.0 ∷ []) h))
        h

  ended-Matches :
      (i : Inputs) (f : Flow (List Action × S))
      → FlowMatches w c backend v6 f
      → Matches w c backend v6 (ended (logged w) c backend v6 i f)
  ended-Matches i (again l) h = h
  ended-Matches i (next l) h = at (is_due i.now l.offload_check 30000)
    where
      at :
          (b : Bool)
          → (if b then (logged w).apply_offload c.disable_offload l.world else l.world).0
            ≡ calls_of l.guard.actions
      at true = h
      at false = h

  watched-Matches :
      (i : Inputs) (f : Flow (List Action × S))
      → FlowMatches w c backend v6 f
      → Matches w c backend v6 (watched (logged w) c backend v6 i f)
  watched-Matches i (again l) h = h
  watched-Matches i (next l) h = ended-Matches i _ (watch_queues-Matches i l h)

  looked-Matches :
      (i : Inputs) (m : Bool × Loop (List Action × S))
      → Matches w c backend v6 m.1
      → Matches w c backend v6 (looked (logged w) c backend v6 i m)
  looked-Matches i (true, l) h = watched-Matches i _ (apply_rules-Matches w c backend v6 i l h)
  looked-Matches i (false, l) h = watched-Matches i (next l) h

  look-Matches :
      (i : Inputs) (l : Loop (List Action × S))
      → Matches w c backend v6 l
      → Matches w c backend v6 (look (logged w) c backend v6 i l).1
  unfolding look
  look-Matches i l h = elim (Bool-cases (check_due c i l)) [
    | inl due ↦ rw due h
    | inr early ↦ rw early h
  ]

  if-Matches :
      (b : Bool) (l m : Loop (List Action × S))
      → Matches w c backend v6 l
      → Matches w c backend v6 m
      → Matches w c backend v6 (if b then l else m)
  if-Matches true l m h k = h
  if-Matches false l m h k = k

  abbrev OptionMatches : Option (Loop (List Action × S)) → Type 0
  OptionMatches none = Unit
  OptionMatches (some l) = Matches w c backend v6 l

  or_none :
      (b : Bool) (l : Loop (List Action × S))
      → Matches w c backend v6 l
      → OptionMatches (if b then none else some l)
  or_none true l h = tt
  or_none false l h = h

  round-Matches :
      (i : Inputs) (l : Loop (List Action × S))
      → Matches w c backend v6 l
      → OptionMatches (round (logged w) c backend v6 i l)
  unfolding round
  round-Matches i l h =
      let scanned =
        if-Matches (l.first || (l.changed || is_due i.now l.scan c.rescan_ms))
          (record l { links = i.found; scan = i.now }) l h h in
      let m = rescan c i l in
      let synced =
        if-Matches
          (m.first || (not (text_eq (signature m.links) m.last) || is_due i.now m.sqm_check 30000))
          (record m { world = (logged w).sync c m.links m.world; sqm_check = i.now }) m scanned
          scanned in
      or_none (i.stopping || i.disabled) _ (
        looked-Matches i (look (logged w) c backend v6 i (resync (logged w) c backend v6 i m))
          (look-Matches i (resync (logged w) c backend v6 i m) synced))

  -- What happens between the rounds is no call of the loop.
  abbrev pub Uncalled : List Action × S → List Action × S → Type 0
  Uncalled m n = n.0 ≡ m.0

  abbrev pub LoggedCourse : Loop (List Action × S) → Loop (List Action × S) → Type 0
  LoggedCourse = Course (logged w) Uncalled c backend v6

  Course-Matches :
      {l m : Loop (List Action × S)}
      → LoggedCourse l m
      → Matches w c backend v6 l
      → Matches w c backend v6 m
  Course-Matches here h = h
  Course-Matches (turn {m} r i e) h = subst OptionMatches e (round-Matches i m (Course-Matches r h))
  Course-Matches (outside r s a) h = a ∙ Course-Matches r h

  module _ (law : Installs w) (most : ℕ) (few : most ≤ 255) where
    logged-Installs : Installs (logged w)
    logged-Installs = record {
      names = λ links kernel workers ttl a m h. law.names links kernel workers ttl a m.1 h;
    }

    Course-Reach :
        {l m : Loop (List Action × S)}
        → LoggedCourse l m
        → Reach.Reach (logged w) logged-Installs c backend v6 most few l m
    Course-Reach here = Reach.here
    Course-Reach (turn r i e) = Reach.onward (Course-Reach r) (Reach.turn i e)
    Course-Reach (outside r s a) = Reach.onward (Course-Reach r) (Reach.outside s)

    -- The calls that were made are in order, besides what holds after any rounds.
    pub Course-InOrder :
        (s : S) (workers now : ℕ) (m : Loop (List Action × S))
        → 1 ≤ workers
        → workers ≤ most
        → LoggedCourse (start_loop ([], s) workers now) m
        → InOrder (is_nfqueue backend) m.world.0 × Holds (is_nfqueue backend) most m
    unfolding start_loop calls_of
    Course-InOrder s workers now m lo hi r =
        let h =
          Reach.Reach-start_loop (logged w) logged-Installs c backend v6 most few ([], s) workers
            now m lo hi (Course-Reach r) in
        (
          InOrder-calls_of (is_nfqueue backend) m.world.0 m.guard.actions h.0.0
              (Course-Matches r refl) h.0.1.0,
          h,
        )
