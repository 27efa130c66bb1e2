-- ===== src/Daemon/Loop/Logged.antt =====
-- The calls that the main loop really makes, against the list that it keeps of them.
use nfqttl.Base.{
  ◌≡◌, refl, sym, ap, ◌∙◌, Bool, true, false, ◌||◌, not, if◌then◌else◌, Bool-cases, inl, inr, List,
  [], ◌∷◌, ◌++◌, append_assoc, Option,
}
use nfqttl.Base.Text.{Text}
use nfqttl.Config.{Config}
use nfqttl.Net.{active}
use nfqttl.Firewall.{Ipv6Plan}
use nfqttl.Daemon.{
  EffectiveBackend, Action, cleanup, stop_workers, wait_rounds, checked_workers, started_workers,
  installed4, installed6, recover,
}
use nfqttl.Daemon.Loop.{
  World, Inputs, Loop, Flow, next, again, is_nfqueue, is_some, did, settled, apply_rules, recovered,
  idle_part, started, kept_or_started, workers_ready, after6, after4, readied, install_part,
}

-- A world that notes each call that changes or checks rules and workers.
abbrev pub logged : {S : Type 0} → World S → World (List Action × S)
logged w = record {
  clean = λ m. let r = w.clean m.1 in (r.0, (m.0 ++ (cleanup ∷ []), r.1));
  install4 = λ links kernel workers ttl a m.
      let r = w.install4 links kernel workers ttl a m.1 in
      (r.0, r.1, (m.0 ++ (installed4 r.0 ∷ []), r.2));
  install6 = λ links mode hl a m.
      let r = w.install6 links mode hl a m.1 in (r.0, r.1, (m.0 ++ (installed6 r.0 ∷ []), r.2));
  rules_ok =
      λ v6 a links kernel workers value mode m. w.rules_ok v6 a links kernel workers value mode m.1;
  stop = λ m. (m.0 ++ (stop_workers ∷ []), w.stop m.1);
  start = λ n m. let r = w.start n m.1 in (r.0, (m.0 ++ (started_workers r.0 ∷ []), r.1));
  healthy = λ n m. let r = w.healthy n m.1 in (r.0, (m.0 ++ (checked_workers r.0 ∷ []), r.1));
  sync = λ c links m. (m.0, w.sync c links m.1);
  apply_offload = λ on m. (m.0, w.apply_offload on m.1);
  restore_offload = λ m. (m.0, w.restore_offload m.1);
}

-- Waiting is no call of the world.
unfoldable pub calls_of : List Action → List Action
calls_of [] = []
calls_of (wait_rounds n ∷ xs) = calls_of xs
calls_of (a ∷ xs) = a ∷ calls_of xs

calls_of-append : (xs ys : List Action) → calls_of (xs ++ ys) ≡ calls_of xs ++ calls_of ys
unfolding calls_of
calls_of-append [] ys = refl
calls_of-append (wait_rounds n ∷ xs) ys = calls_of-append xs ys
calls_of-append (cleanup ∷ xs) ys = ap (λ l. cleanup ∷ l) (calls_of-append xs ys)
calls_of-append (stop_workers ∷ xs) ys = ap (λ l. stop_workers ∷ l) (calls_of-append xs ys)
calls_of-append (checked_workers b ∷ xs) ys =
    ap (λ l. checked_workers b ∷ l) (calls_of-append xs ys)
calls_of-append (started_workers b ∷ xs) ys =
    ap (λ l. started_workers b ∷ l) (calls_of-append xs ys)
calls_of-append (installed4 b ∷ xs) ys = ap (λ l. installed4 b ∷ l) (calls_of-append xs ys)
calls_of-append (installed6 b ∷ xs) ys = ap (λ l. installed6 b ∷ l) (calls_of-append xs ys)

-- The calls made and the list of them go on alike.
pub both_append :
    (log xs ys : List Action) → log ≡ calls_of xs → log ++ calls_of ys ≡ calls_of (xs ++ ys)
both_append log xs ys h = ap (λ l. l ++ calls_of ys) h ∙ sym (calls_of-append xs ys)

module _ {S : Type 0} (w : World S) (c : Config) (backend : EffectiveBackend) (v6 : Ipv6Plan) where
  -- The calls made are those of the list.
  abbrev pub Matches : Loop (List Action × S) → Type 0
  Matches l = l.world.0 ≡ calls_of l.guard.actions

  abbrev pub FlowMatches : Flow (List Action × S) → Type 0
  FlowMatches (next l) = Matches l
  FlowMatches (again l) = Matches l

  pub if-FlowMatches :
      (b : Bool) (f g : Flow (List Action × S))
      → FlowMatches f
      → FlowMatches g
      → FlowMatches (if b then f else g)
  if-FlowMatches true f g h k = h
  if-FlowMatches false f g h k = k

  pub recovered-Matches :
      (l : Loop (List Action × S)) → Matches l → FlowMatches (recovered (logged w) c backend v6 l)
  unfolding recovered recover calls_of
  recovered-Matches l h =
      append_assoc l.world.0 (cleanup ∷ []) (stop_workers ∷ [])
      ∙ both_append l.world.0 l.guard.actions (cleanup ∷ stop_workers ∷ wait_rounds _ ∷ []) h

  idle_part-Matches :
      (l : Loop (List Action × S)) → Matches l → Matches (idle_part (logged w) c backend v6 l)
  unfolding idle_part calls_of
  idle_part-Matches l h = elim (Bool-cases (is_some l.guard.active4 || is_some l.guard.active6)) [
    | inl rules ↦ rw rules (
        append_assoc l.world.0 (cleanup ∷ []) (stop_workers ∷ [])
        ∙ both_append l.world.0 l.guard.actions (cleanup ∷ stop_workers ∷ []) h)
    | inr nothing ↦ rw nothing h
  ]

  -- The call of `a` is made, and not yet in the list.
  abbrev Made : Action → (List Action × S) → Loop (List Action × S) → Type 0
  Made a s l = s.0 ≡ calls_of (l.guard.actions ++ (a ∷ []))

  started-Matches :
      (m : Bool × (List Action × S)) (l : Loop (List Action × S))
      → Made (started_workers m.0) m.1 l
      → Matches (started (logged w) c backend v6 m l).1
  started-Matches (b, s) l h = h

  kept_or_started-Matches :
      (m : Bool × (List Action × S)) (l : Loop (List Action × S))
      → Made (checked_workers m.0) m.1 l
      → Matches (kept_or_started (logged w) c backend v6 m l).1
  unfolding calls_of
  kept_or_started-Matches (true, s) l h = h
  kept_or_started-Matches (false, s) l h =
      let m = did (checked_workers false) (record l { world = s }) in
      let r = (logged w).start l.guard.active_workers s in
      started-Matches r m (both_append s.0 m.guard.actions (started_workers r.0 ∷ []) h)

  workers_ready-Matches :
      (e : EffectiveBackend) (l : Loop (List Action × S))
      → Matches l
      → Matches (workers_ready (logged w) c backend v6 e l).1
  unfolding calls_of
  workers_ready-Matches EffectiveBackend.kernel l h = h
  workers_ready-Matches EffectiveBackend.nfqueue l h =
      let r = (logged w).healthy l.guard.active_workers l.world in
      kept_or_started-Matches r l
        (both_append l.world.0 l.guard.actions (checked_workers r.0 ∷ []) h)

  after6-Matches :
      (m : Bool × Option Text × (List Action × S)) (l : Loop (List Action × S))
      → Made (installed6 m.0) m.2 l
      → FlowMatches (after6 (logged w) c backend v6 m l)
  after6-Matches (true, a, s) l h = h
  after6-Matches (false, a, s) l h = recovered-Matches _ h

  after4-Matches :
      (m : Bool × Option Text × (List Action × S)) (l : Loop (List Action × S))
      → Made (installed4 m.0) m.2 l
      → FlowMatches (after4 (logged w) c backend v6 m l)
  unfolding calls_of
  after4-Matches (true, a, s) l h =
      let m =
        did (installed4 true) (record l { world = s; guard = record l.guard { active4 = a } }) in
      let r = (logged w).install6 m.links v6 c.ipv6_hl m.guard.active6 m.world in
      after6-Matches r m (both_append s.0 m.guard.actions (installed6 r.0 ∷ []) h)
  after4-Matches (false, a, s) l h = recovered-Matches _ h

  readied-Matches :
      (m : Bool × Loop (List Action × S))
      → Matches m.1
      → FlowMatches (readied (logged w) c backend v6 m)
  unfolding calls_of
  readied-Matches (true, l) h =
      let r =
        (logged w).install4 l.links (not (is_nfqueue backend)) l.guard.active_workers c.ttl
          l.guard.active4 l.world in
      after4-Matches r l (both_append l.world.0 l.guard.actions (installed4 r.0 ∷ []) h)
  readied-Matches (false, l) h = recovered-Matches l h

  install_part-Matches :
      (l : Loop (List Action × S))
      → Matches l
      → FlowMatches (install_part (logged w) c backend v6 l)
  unfolding install_part
  install_part-Matches l h = readied-Matches _ (workers_ready-Matches backend _ h)

  settled-Matches :
      (i : Inputs) (f : Flow (List Action × S))
      → FlowMatches f
      → FlowMatches (settled (logged w) c backend v6 i f)
  settled-Matches i (again l) h = h
  settled-Matches i (next l) h = h

  pub apply_rules-Matches :
      (i : Inputs) (l : Loop (List Action × S))
      → Matches l
      → FlowMatches (apply_rules (logged w) c backend v6 i l)
  unfolding apply_rules
  apply_rules-Matches i l h =
      settled-Matches i _
        (if-FlowMatches (active l.links) _ _ (install_part-Matches l h) (idle_part-Matches l h))
