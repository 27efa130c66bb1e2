-- ===== src/Daemon/Loop/Orderly.antt =====
-- What holds after every round of the main loop.
use nfqttl.Base.{
  ℕ, ◌≤◌, ◌≡◌, refl, sym, subst, arith, Bool, true, false, ◌||◌, not, if◌then◌else◌, Bool-cases,
  inl, inr, [], ◌∷◌, ◌++◌, Option, none, some,
}
use nfqttl.Base.Text.{Text}
use nfqttl.Config.{Config}
use nfqttl.Net.{Links}
use nfqttl.Firewall.{Ipv6Plan}
use nfqttl.Daemon.{
  EffectiveBackend, Action, cleanup, stop_workers, checked_workers, started_workers, installed4,
  installed6, Guard, recover,
}
use nfqttl.Daemon.Loop.{
  World, Phase, Loop, Flow, next, again, installing, running, is_some, is_nfqueue, did, recovered,
  idle_part, started, kept_or_started, workers_ready, after6, after4, readied, install_part,
}
use nfqttl.Daemon.Loop.Trace.{Status, observe_calls, Ordered, Ordered-append}

-- After a call other than a cleanup.
abbrev pub noted : Bool → Status
noted b = record { up = b; cleaned = false }

-- What the state file says is so.
abbrev pub Told : Phase → Guard → Type 0
Told running g = is_some g.active4 ≡ true
Told installing g = ⊥
Told _ g = (g.active4 ≡ none) × (g.active6 ≡ none)

-- The calls were in order and end in the status, and there are 1 to `most` workers.
abbrev pub SoundAt : Bool → ℕ → Status → Guard → Type 0
SoundAt queued most t g =
    Ordered queued g.actions t × ((1 ≤ g.active_workers) × (g.active_workers ≤ most))

abbrev pub IsSound : Bool → ℕ → Guard → Type 0
IsSound queued most g = (t : Status) × SoundAt queued most t g

abbrev pub Holds : {S : Type 0} → Bool → ℕ → Loop S → Type 0
Holds queued most l = IsSound queued most l.guard × Told l.phase l.guard

abbrev pub FlowHolds : {S : Type 0} → Bool → ℕ → Flow S → Type 0
FlowHolds queued most (next l) = Holds queued most l
FlowHolds queued most (again l) = Holds queued most l

-- An installation that succeeds names the chain that it has filled.
pub record Installs {S : Type 0} (w : World S) : Type 0 where
  pub names :
      (links : Links) (kernel : Bool) (workers ttl : ℕ) (a : Option Text) (s : S)
      → (w.install4 links kernel workers ttl a s).0 ≡ true
      → is_some (w.install4 links kernel workers ttl a s).1 ≡ true

module _ {S : Type 0} (w : World S) (law : Installs w) (c : Config) (backend : EffectiveBackend)
    (v6 : Ipv6Plan) (most : ℕ) (few : most ≤ 255) where
  abbrev queued : Bool
  queued = is_nfqueue backend

  recover-IsSound : (g : Guard) → IsSound queued most g → IsSound queued most (recover c g)
  unfolding recover observe_calls
  recover-IsSound g (t, (o, k)) = (
    record { up = false; cleaned = false },
    (Ordered-append queued g.actions _ t _ o refl, ground (arith, k, few)),
  )

  pub recovered-Holds :
      (l : Loop S)
      → IsSound queued most l.guard
      → FlowHolds queued most (recovered w c backend v6 l)
  unfolding recovered recover
  recovered-Holds l h = (recover-IsSound l.guard h, (refl, refl))

  -- One more call that is in order.
  pub did-SoundAt :
      (a : Action) (g : Guard) (t u : Status)
      → observe_calls queued t (a ∷ []) ≡ some u
      → SoundAt queued most t g
      → SoundAt queued most u (record g { actions = g.actions ++ (a ∷ []) })
  did-SoundAt a g t u e (o, k) = (Ordered-append queued g.actions (a ∷ []) t u o e, k)

  pub idle_part-Holds :
      (l : Loop S) → IsSound queued most l.guard → Holds queued most (idle_part w c backend v6 l)
  unfolding idle_part observe_calls
  idle_part-Holds l (t, (o, k)) =
      elim (Bool-cases (is_some l.guard.active4 || is_some l.guard.active6)) [
        | inr nothing ↦ rw nothing (
          (t, (o, k)),
          (
            none_of l.guard.active4 (ground (arith, nothing)),
            none_of l.guard.active6 (ground (arith, nothing)),
          ),
        )
        | inl rules ↦ rw rules (
          (
            record { up = false; cleaned = false },
            (Ordered-append queued l.guard.actions (cleanup ∷ stop_workers ∷ []) t _ o refl, k),
          ),
          (refl, refl),
        )
      ]
    where
      none_of : (o : Option Text) → is_some o ≡ false → o ≡ none
      none_of none e = refl
      none_of (some t) e = absurd (ground (arith, e))

  pub if-FlowHolds :
      (b : Bool) (f g : Flow S)
      → FlowHolds queued most f
      → FlowHolds queued most g
      → FlowHolds queued most (if b then f else g)
  if-FlowHolds true f g h k = h
  if-FlowHolds false f g h k = k

  -- The workers are known to be up, where the rules queue packets.
  abbrev Ready : Bool × Loop S → Type 0
  Ready (true, l) = (t : Status) × SoundAt queued most t l.guard × (queued ≡ true → t.up ≡ true)
  Ready (false, l) = IsSound queued most l.guard

  started-Ready :
      (m : Bool × S) (l : Loop S) → IsSound queued most l.guard → Ready (started w c backend v6 m l)
  unfolding observe_calls
  started-Ready (true, s) l (t, h) =
      (noted true, did-SoundAt (started_workers true) l.guard t (noted true) refl h, λ _. refl)
  started-Ready (false, s) l (t, h) =
      (noted false, did-SoundAt (started_workers false) l.guard t (noted false) refl h)

  kept_or_started-Ready :
      (m : Bool × S) (l : Loop S)
      → IsSound queued most l.guard
      → Ready (kept_or_started w c backend v6 m l)
  unfolding observe_calls
  kept_or_started-Ready (true, s) l (t, h) =
      (noted true, did-SoundAt (checked_workers true) l.guard t (noted true) refl h, λ _. refl)
  kept_or_started-Ready (false, s) l (t, h) =
      started-Ready (w.start l.guard.active_workers s)
        (did (checked_workers false) (record l { world = s }))
        (noted false, did-SoundAt (checked_workers false) l.guard t (noted false) refl h)

  workers_ready-Ready :
      (b : EffectiveBackend) (l : Loop S)
      → b ≡ backend
      → IsSound queued most l.guard
      → Ready (workers_ready w c backend v6 b l)
  workers_ready-Ready EffectiveBackend.kernel l e (t, h) =
      (t, h, λ q. absurd (kernel_queues (subst (λ b. is_nfqueue b ≡ true) (sym e) q)))
    where
      kernel_queues : false ≡ true → ⊥
      kernel_queues q = ground (arith, q)
  workers_ready-Ready EffectiveBackend.nfqueue l e h =
      kept_or_started-Ready (w.healthy l.guard.active_workers l.world) l h

  after6-Holds :
      (m : Bool × Option Text × S) (l : Loop S)
      → IsSound queued most l.guard
      → is_some l.guard.active4 ≡ true
      → FlowHolds queued most (after6 w c backend v6 m l)
  unfolding observe_calls
  after6-Holds (false, a, s) l (t, h) e =
      recovered-Holds
        (did (installed6 false) (record l { world = s; guard = record l.guard { active6 = a } }))
        (noted t.up, did-SoundAt (installed6 false) l.guard t (noted t.up) refl h)
  after6-Holds (true, a, s) l (t, h) e =
      ((noted t.up, did-SoundAt (installed6 true) l.guard t (noted t.up) refl h), e)

  -- An installation of IPv4 rules is in order.
  installed4-allowed :
      (b : Bool) (t : Status)
      → (queued ≡ true → t.up ≡ true)
      → observe_calls queued t (installed4 b ∷ []) ≡ some (noted t.up)
  unfolding observe_calls
  installed4-allowed b t up = elim (Bool-cases queued) [
    | inr direct ↦ rw direct refl
    | inl queues ↦ rw queues (rw (up queues) refl)
  ]

  after4-Holds :
      (m : Bool × Option Text × S) (l : Loop S) (t : Status)
      → SoundAt queued most t l.guard
      → (queued ≡ true → t.up ≡ true)
      → (m.0 ≡ true → is_some m.1 ≡ true)
      → FlowHolds queued most (after4 w c backend v6 m l)
  after4-Holds (false, a, s) l t h up named =
      recovered-Holds
        (did (installed4 false) (record l { world = s; guard = record l.guard { active4 = a } }))
        (
          noted t.up,
          did-SoundAt (installed4 false) l.guard t (noted t.up) (installed4-allowed false t up) h,
        )
  after4-Holds (true, a, s) l t h up named =
      after6-Holds _
        (did (installed4 true) (record l { world = s; guard = record l.guard { active4 = a } }))
        (
          noted t.up,
          did-SoundAt (installed4 true) l.guard t (noted t.up) (installed4-allowed true t up) h,
        )
        (named refl)

  readied-Holds : (m : Bool × Loop S) → Ready m → FlowHolds queued most (readied w c backend v6 m)
  readied-Holds (false, l) h = recovered-Holds l h
  readied-Holds (true, l) (t, h, up) =
      after4-Holds _ l t h up
        (law.names l.links (not queued) l.guard.active_workers c.ttl l.guard.active4 l.world)

  pub install_part-Holds :
      (l : Loop S)
      → IsSound queued most l.guard
      → FlowHolds queued most (install_part w c backend v6 l)
  unfolding install_part
  install_part-Holds l h =
      let begun = record l { first = false; phase = installing } in
      readied-Holds (workers_ready w c backend v6 backend begun)
        (workers_ready-Ready backend begun refl h)
