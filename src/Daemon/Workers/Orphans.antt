-- ===== src/Daemon/Workers/Orphans.antt =====
-- No worker runs that is not in the table.
use nfqttl.Base.{
  ℕ, zero, suc, ◌+◌, ◌≡◌, refl, ◌∙◌, arith, ◌⊎◌, inl, inr, Bool, true, false, ◌&&◌, ◌||◌, ◌==◌,
  Bool-cases, List, [], ◌∷◌, ◌++◌, Option, none, some,
}
use nfqttl.Base.Text.{Text, some_of}
use nfqttl.Firewall.{queue_base}
use nfqttl.Daemon.Workers.{
  Worker, Settings, Processes, healthy, all_ready, some_owned, Outcome, terminate_all, reap_all,
  rest_after, ended, pid_file, first_pid_file, stop, await, recorded, spawned, opened, spawn_args,
  spawn_from, start,
}

abbrev pub has_pid : List Worker → ℕ → Bool
has_pid ws q = some_of (λ w. w.pid == q) ws

not_both : (b : Bool) → b ≡ false → b ≡ true → ⊥
not_both b f t = ground arith

-- What is relied on in the system: a child that is waited for has ended, a child that starts to
-- live is one that was spawned, and other calls let no child start to live.
pub record Children {S : Type 0} (p : Processes S) (Lives : ℕ → S → Type 0) : Type 0 where
  pub terminated : (q pid : ℕ) (s : S) → Lives q (p.terminate pid s) → Lives q s
  pub killed : (q pid : ℕ) (s : S) → Lives q (p.kill pid s) → Lives q s
  pub waited : (q pid : ℕ) (s : S) → Lives q (p.wait pid s) → ((pid == q) ≡ false) × Lives q s
  pub paused : (q : ℕ) (s : S) → Lives q (p.pause s) → Lives q s
  pub logged : (q queue : ℕ) (s : S) → Lives q (p.open_log queue s).1 → Lives q s
  pub born :
      (q : ℕ) (exe : Text) (args : List Text) (s : S)
      → Lives q (p.spawn exe args s).1
      → ((p.spawn exe args s).0 ≡ some q) ⊎ Lives q s
  pub written :
      (q : ℕ) (name value : Text) (s : S) → Lives q (p.write_state name value s) → Lives q s
  pub removed : (q : ℕ) (name : Text) (s : S) → Lives q (p.remove_state name s) → Lives q s

module _ {S : Type 0} (p : Processes S) (x : Settings) (Lives : ℕ → S → Type 0)
    (law : Children p Lives) where
  terminate_all-Lives :
      (q : ℕ) (ws : List Worker) (s : S) → Lives q (terminate_all p x ws s) → Lives q s
  unfolding terminate_all
  terminate_all-Lives q [] s h = h
  terminate_all-Lives q (w ∷ ws) s h =
      law.terminated q w.pid s (terminate_all-Lives q ws (p.terminate w.pid s) h)

  ended-Lives : (q : ℕ) (w : Worker) (s : S) → Lives q (ended p x w s) → Lives q s
  ended-Lives q w s = elim (Bool-cases (p.has_exited w.pid s)) [
    | inl e ↦ rw e (λ h. h)
    | inr e ↦ rw e (λ h. law.killed q w.pid s h)
  ]

  reap_all-Lives :
      (q : ℕ) (ws : List Worker) (s : S)
      → Lives q (reap_all p x ws s)
      → (has_pid ws q ≡ false) × Lives q s
  unfolding reap_all some_of
  reap_all-Lives q [] s h = (refl, h)
  reap_all-Lives q (w ∷ ws) s h =
      let (others, left) = reap_all-Lives q ws _ h in
      let (differs, before) = law.waited q w.pid _ (law.removed q (pid_file w.queue) _ left) in
      (rw differs others, ended-Lives q w s before)

  rest_after-Lives : (q : ℕ) (ws : List Worker) (s : S) → Lives q (rest_after p x ws s) → Lives q s
  rest_after-Lives q [] s h = h
  rest_after-Lives q (w ∷ ws) s h = law.paused q s h

  -- Every child that lives is in the table.
  abbrev pub Covers : List Worker → S → Type 0
  Covers ws s = (q : ℕ) → Lives q s → has_pid ws q ≡ true

  -- After a stop none lives of the table that covered all.
  pub stop-Covers : (ws : List Worker) (s : S) → Covers ws s → Covers [] (stop p x ws s)
  unfolding stop
  stop-Covers ws s h q l =
      let (gone, left) = reap_all-Lives q ws _ (law.removed q first_pid_file _ l) in
      absurd (
        not_both (has_pid ws q) gone
          (h q (terminate_all-Lives q ws s (rest_after-Lives q ws _ left))))

  abbrev pub IsCovered : Outcome p x → Type 0
  IsCovered (b, ws, s) = Covers ws s

  await-IsCovered :
      (n count : ℕ) (ws : List Worker) (s : S) → Covers ws s → IsCovered (await p x n count ws s)
  unfolding await
  await-IsCovered zero count ws s h = h
  await-IsCovered (suc n) count ws s h = elim (Bool-cases (p.is_stopping s)) [
    | inl stopping ↦ rw stopping (stop-Covers ws s h)
    | inr on ↦ elim (Bool-cases (healthy p x count ws s && all_ready p x ws s)) [
      | inl up ↦ rw (on, up) h
      | inr early ↦
          rw (on, early) (await-IsCovered n count ws (p.pause s) (λ q l. h q (law.paused q s l)))
    ]
  ]

  recorded-Lives : (q queue pid : ℕ) (s : S) → Lives q (recorded p x queue pid s) → Lives q s
  recorded-Lives q queue pid s = elim (Bool-cases (queue == queue_base)) [
    | inl e ↦ rw e (λ h. law.written q _ _ s (law.written q _ _ _ h))
    | inr e ↦ rw e (λ h. law.written q _ _ s h)
  ]

  has_pid-append :
      (ws : List Worker) (w : Worker) (q : ℕ)
      → has_pid (ws ++ (w ∷ [])) q ≡ (has_pid ws q || (w.pid == q))
  unfolding some_of
  has_pid-append [] w q = ground arith
  has_pid-append (v ∷ ws) w q = rw (has_pid-append ws w q) (ground arith)

  -- A child that is spawned goes into the table.
  spawned-Covers :
      (queue pid : ℕ) (ws : List Worker) (s t : S)
      → Covers ws s
      → ((q : ℕ) → Lives q t → (some pid ≡ some q) ⊎ Lives q s)
      → Covers (ws ++ (record { queue = queue; pid = pid } ∷ [])) (recorded p x queue pid t)
  spawned-Covers queue pid ws s t h from q l =
      has_pid-append ws (record { queue = queue; pid = pid }) q
      ∙ either (from q (recorded-Lives q queue pid t l))
    where
      either : (some pid ≡ some q) ⊎ Lives q s → (has_pid ws q || (pid == q)) ≡ true
      either (inl e) = ground arith
      either (inr l) = rw (h q l) refl

  opened-IsCovered :
      (queue : ℕ) (ws : List Worker) (s : S) (k : List Worker → S → Outcome p x)
      → Covers ws s
      → ((vs : List Worker) (t : S) → Covers vs t → IsCovered (k vs t))
      → IsCovered (opened p x queue ws (p.open_log queue s) k)
  opened-IsCovered queue ws s k h goes = at_log (p.open_log queue s) (λ q l. law.logged q queue s l)
    where
      at_child :
          (m : Option ℕ × S) (t : S)
          → Covers ws t
          → ((q : ℕ) → Lives q m.1 → (m.0 ≡ some q) ⊎ Lives q t)
          → IsCovered (spawned p x queue ws m k)
      at_child (none, u) t c from = stop-Covers ws u (λ q l. only q (from q l))
        where
          only : (q : ℕ) → (none ≡ some q) ⊎ Lives q t → has_pid ws q ≡ true
          only q (inl e) = ground arith
          only q (inr l) = c q l
      at_child (some pid, u) t c from =
          goes (ws ++ (record { queue = queue; pid = pid } ∷ [])) (recorded p x queue pid u)
            (spawned-Covers queue pid ws t u c from)

      at_log :
          (m : Bool × S) → ((q : ℕ) → Lives q m.1 → Lives q s) → IsCovered (opened p x queue ws m k)
      at_log (false, t) back = stop-Covers ws t (λ q l. h q (back q l))
      at_log (true, t) back =
          at_child (p.spawn x.exe (spawn_args x queue) t) t (λ q l. h q (back q l))
            (λ q l. law.born q x.exe (spawn_args x queue) t l)

  spawn_from-IsCovered :
      (n q count : ℕ) (ws : List Worker) (s : S)
      → Covers ws s
      → IsCovered (spawn_from p x n q count ws s)
  unfolding spawn_from
  spawn_from-IsCovered zero q count ws s h = await-IsCovered 80 count ws s h
  spawn_from-IsCovered (suc n) q count ws s h =
      opened-IsCovered q ws s _ h (λ vs t c. spawn_from-IsCovered n (q + 1) count vs t c)

  -- For children that live only from their spawning until they are waited for: if the table has
  -- every child that lives, it does so after a start too, on every path, and after a stop, which
  -- empties the table, no child lives.
  pub start-IsCovered :
      (count : ℕ) (ws : List Worker) (s : S)
      → Covers ws s
      → IsCovered (start p x count ws s) × ((q : ℕ) → ¬ Lives q (stop p x ws s))
  unfolding start some_of
  start-IsCovered count ws s h =
      let none_left = stop-Covers ws s h in
      (
        elim (Bool-cases (some_owned p x count queue_base (stop p x ws s))) [
          | inl owned ↦ rw owned none_left
          | inr free ↦
              rw free (spawn_from-IsCovered count queue_base count [] (stop p x ws s) none_left)
        ],
        λ q l. absurd (not_both false refl (none_left q l)),
      )
