-- ===== src/Daemon/Recovery.antt =====
-- How a series of recoveries sheds workers.
use nfqttl.Base.{
  ℕ, zero, suc, ◌+◌, ◌-◌, ◌*◌, ◌/◌, ◌≤◌, ◌<◌, min, ◌≡◌, refl, sym, ap, ◌∙◌, ◌⊎◌, inl, inr, arith,
  leb, Bool-cases, [], ◌∷◌, ◌++◌, none,
}
use nfqttl.Config.{Config}
use nfqttl.Daemon.{Guard, Action, recovery_delay, recover}

-- The failures that are left before the limit.
abbrev pub failures_left : Config → Guard → ℕ
failures_left c g = c.max_failures - g.failures

pub record IsRecovered (c : Config) (g h : Guard) : Type 0 where
  pub inactive4 : h.active4 ≡ none
  pub inactive6 : h.active6 ≡ none
  pub rounds : ℕ
  pub acted :
      h.actions
      ≡ g.actions ++ (Action.cleanup ∷ Action.stop_workers ∷ Action.wait_rounds rounds ∷ [])
  pub bounded : rounds ≤ 600
  pub some_workers : 1 ≤ h.active_workers
  pub halved :
      (1 < g.active_workers) × (c.max_failures ≤ g.failures + 1)
      → (h.failures ≡ 0)
        × (g.active_workers ≤ 2 * h.active_workers)
        × (h.active_workers < g.active_workers)
  pub kept :
      (g.active_workers ≤ 1) ⊎ (g.failures + 1 < c.max_failures)
      → (h.active_workers ≡ g.active_workers) × (h.failures ≡ min 255 (g.failures + 1))

-- For 1 to 255 workers and a limit of at most 255 failures: after a recovery no rule set is active;
-- the rules were removed, the workers stopped, and the daemon waited for at most 600 rounds, in this
-- order. At least one worker is left. At the limit of failures several workers are cut to no less
-- than half of them and the failures are forgotten, else the workers stay and one more failure is
-- counted.
pub recover-IsRecovered :
    (c : Config) (g : Guard)
    → c.max_failures ≤ 255
    → 1 ≤ g.active_workers
    → g.active_workers ≤ 255
    → IsRecovered c g (recover c g)
unfolding recover
recover-IsRecovered c g m w b = record {
  inactive4 = refl;
  inactive6 = refl;
  rounds = min 60 (recovery_delay c g) * 10;
  acted = refl;
  bounded = ground arith;
  some_workers = ground arith;
  halved = λ h. ground (arith, h);
  kept = λ h. ground (arith, h);
}

unfoldable pub recover_times : ℕ → Config → Guard → Guard
recover_times zero c g = g
recover_times (suc n) c g = recover_times n c (recover c g)

recover_times-one :
    (n : ℕ) (c : Config) (g : Guard)
    → g.active_workers ≤ 1
    → (recover_times n c g).active_workers ≤ 1
unfolding recover_times recover
recover_times-one zero c g h = h
recover_times-one (suc n) c g h = recover_times-one n c (recover c g) (ground arith)

-- The recoveries up to the limit of failures.
recover_times-halves :
    (k : ℕ) (c : Config) (g : Guard)
    → suc k + g.failures ≡ c.max_failures
    → c.max_failures ≤ 255
    → 1 < g.active_workers
    → g.active_workers ≤ 255
    → ((recover_times (suc k) c g).failures ≡ 0)
      × ((recover_times (suc k) c g).active_workers ≡ (g.active_workers + 1) / 2)
unfolding recover_times recover
recover_times-halves zero c g e m w b = ground arith
recover_times-halves (suc k) c g e m w b =
    let (still, more) = kept_step in
    let (none_left, half) =
      recover_times-halves k c (recover c g) (omega arith) m (omega arith) (omega arith) in
    (none_left, omega arith)
  where
    kept_step :
        ((recover c g).active_workers ≡ g.active_workers)
        × ((recover c g).failures ≡ suc g.failures)
    kept_step = ground arith

recover_times-add :
    (m n : ℕ) (c : Config) (g : Guard)
    → recover_times (m + n) c g ≡ recover_times n c (recover_times m c g)
unfolding recover_times
recover_times-add zero n c g =
    let same : zero + n ≡ n = omega arith in ap (λ k. recover_times k c g) same
recover_times-add (suc m) n c g =
    let same : suc m + n ≡ suc (m + n) = omega arith in
    ap (λ k. recover_times k c g) same ∙ recover_times-add m n c (recover c g)

-- One series of recoveries up to the limit at least halves the workers, down to one.
halved_once :
    (c : Config) (g : Guard) (m : ℕ)
    → 1 ≤ c.max_failures
    → c.max_failures ≤ 255
    → (g.active_workers ≤ 1) ⊎ ((g.failures ≡ 0) × (g.active_workers ≤ 2 * m) × (m ≤ 127))
    → ((recover_times c.max_failures c g).active_workers ≤ 1)
      ⊎ (((recover_times c.max_failures c g).failures ≡ 0)
          × ((recover_times c.max_failures c g).active_workers ≤ m))
halved_once c g m lo hi (inl one) = inl (recover_times-one c.max_failures c g one)
halved_once c g m lo hi (inr (f, w, b)) = elim (Bool-cases (leb g.active_workers 1)) [
  | inl one ↦ inl (recover_times-one c.max_failures c g (ground arith))
  | inr several ↦
      let full : suc (c.max_failures - 1) ≡ c.max_failures = omega arith in
      let (none_left, half) =
        recover_times-halves (c.max_failures - 1) c g (omega arith) hi (ground arith)
          (omega arith) in
      inr (
        ap (λ k. (recover_times k c g).failures) (sym full) ∙ none_left,
        omega (arith, ap (λ k. (recover_times k c g).active_workers) (sym full), half),
      )
]

-- With 1 to 8 workers, no failure counted yet and a limit of 1 to 20 failures, three times as many
-- recoveries as the limit, without a stable minute between, leave one worker at most.
pub recover_times-single :
    (c : Config) (g : Guard)
    → (1 ≤ c.max_failures) × (c.max_failures ≤ 20)
    → g.failures ≡ 0
    → g.active_workers ≤ 8
    → (recover_times (c.max_failures + (c.max_failures + c.max_failures)) c g).active_workers ≤ 1
recover_times-single c g (lo, hi) f w =
    let n = c.max_failures in
    let g1 = recover_times n c g in
    let g2 = recover_times n c g1 in
    let first = halved_once c g 4 lo (omega arith) (inr (f, w, omega arith)) in
    let second = halved_once c g1 2 lo (omega arith) (again 2 g1 (omega arith) first) in
    let third = halved_once c g2 1 lo (omega arith) (again 1 g2 (omega arith) second) in
    let same = recover_times-add n (n + n) c g ∙ recover_times-add n n c g1 in
    rw same (elim third [ inl one ↦ one | inr (_, one) ↦ one ])
  where
    again :
        (m : ℕ) (h : Guard)
        → m ≤ 127
        → (h.active_workers ≤ 1) ⊎ ((h.failures ≡ 0) × (h.active_workers ≤ 2 * m))
        → (h.active_workers ≤ 1) ⊎ ((h.failures ≡ 0) × (h.active_workers ≤ 2 * m) × (m ≤ 127))
    again m h b (inl one) = inl one
    again m h b (inr (e, l)) = inr (e, l, b)
