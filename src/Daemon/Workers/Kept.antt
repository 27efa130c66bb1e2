-- ===== src/Daemon/Workers/Kept.antt =====
-- What the calls for processes keep, `start` and `stop` keep.
use nfqttl.Base.{
  ℕ, zero, suc, ◌+◌, Bool, true, false, ◌&&◌, ◌==◌, Bool-cases, inl, inr, List, [], ◌∷◌, Option,
  none, some,
}
use nfqttl.Base.Text.{Text, to_text}
use nfqttl.Firewall.{queue_base}
use nfqttl.Daemon.Workers.{
  Worker, Settings, Processes, terminate_all, ended, reap_all, rest_after, stop, healthy, all_ready,
  some_owned, Outcome, await, recorded, spawned, opened, spawn_args, spawn_from, unless_owned,
  start, pid_file, first_pid_file,
}

pub record KeptByProcesses {S : Type 0} (p : Processes S) (P : S → Type 0) : Type 0 where
  pub terminate : (pid : ℕ) (s : S) → P s → P (p.terminate pid s)
  pub kill : (pid : ℕ) (s : S) → P s → P (p.kill pid s)
  pub wait : (pid : ℕ) (s : S) → P s → P (p.wait pid s)
  pub pause : (s : S) → P s → P (p.pause s)
  pub open_log : (queue : ℕ) (s : S) → P s → P (p.open_log queue s).1
  pub spawn : (exe : Text) (args : List Text) (s : S) → P s → P (p.spawn exe args s).1
  pub write_state : (name value : Text) (s : S) → P s → P (p.write_state name value s)
  pub remove_state : (name : Text) (s : S) → P s → P (p.remove_state name s)

module _ {S : Type 0} (p : Processes S) (x : Settings) (P : S → Type 0)
    (kept : KeptByProcesses p P) where
  terminate_all-kept : (ws : List Worker) (s : S) → P s → P (terminate_all p x ws s)
  unfolding terminate_all
  terminate_all-kept [] s h = h
  terminate_all-kept (w ∷ ws) s h = terminate_all-kept ws _ (kept.terminate w.pid s h)

  ended-kept : (w : Worker) (s : S) → P s → P (ended p x w s)
  ended-kept w s h = elim (Bool-cases (p.has_exited w.pid s)) [
    | inl e ↦ rw e h
    | inr e ↦ rw e (kept.kill w.pid s h)
  ]

  reap_all-kept : (ws : List Worker) (s : S) → P s → P (reap_all p x ws s)
  unfolding reap_all
  reap_all-kept [] s h = h
  reap_all-kept (w ∷ ws) s h =
      reap_all-kept ws _
        (kept.remove_state (pid_file w.queue) _ (kept.wait w.pid _ (ended-kept w s h)))

  rest_after-kept : (ws : List Worker) (s : S) → P s → P (rest_after p x ws s)
  rest_after-kept [] s h = h
  rest_after-kept (w ∷ ws) s h = kept.pause s h

  pub stop-kept : (ws : List Worker) (s : S) → P s → P (stop p x ws s)
  unfolding stop
  stop-kept ws s h =
      kept.remove_state first_pid_file _
        (reap_all-kept ws _ (rest_after-kept ws _ (terminate_all-kept ws s h)))

  abbrev Ends : Outcome p x → Type 0
  Ends (b, ws, s) = P s

  await-kept : (n count : ℕ) (ws : List Worker) (s : S) → P s → Ends (await p x n count ws s)
  unfolding await
  await-kept zero count ws s h = h
  await-kept (suc n) count ws s h = elim (Bool-cases (p.is_stopping s)) [
    | inl stopping ↦ rw stopping (stop-kept ws s h)
    | inr on ↦ elim (Bool-cases (healthy p x count ws s && all_ready p x ws s)) [
      | inl up ↦ rw (on, up) h
      | inr early ↦ rw (on, early) (await-kept n count ws (p.pause s) (kept.pause s h))
    ]
  ]

  recorded-kept : (queue pid : ℕ) (s : S) → P s → P (recorded p x queue pid s)
  recorded-kept queue pid s h =
      let t = kept.write_state (pid_file queue) (to_text pid) s h in
      elim (Bool-cases (queue == queue_base)) [
        | inl e ↦ rw e (kept.write_state first_pid_file (to_text pid) _ t)
        | inr e ↦ rw e t
      ]

  spawned-kept :
      (queue : ℕ) (ws : List Worker) (m : Option ℕ × S) (k : List Worker → S → Outcome p x)
      → P m.1
      → ((vs : List Worker) (t : S) → P t → Ends (k vs t))
      → Ends (spawned p x queue ws m k)
  spawned-kept queue ws (none, s) k h goes = stop-kept ws s h
  spawned-kept queue ws (some pid, s) k h goes = goes _ _ (recorded-kept queue pid s h)

  opened-kept :
      (queue : ℕ) (ws : List Worker) (m : Bool × S) (k : List Worker → S → Outcome p x)
      → P m.1
      → ((vs : List Worker) (t : S) → P t → Ends (k vs t))
      → Ends (opened p x queue ws m k)
  opened-kept queue ws (false, s) k h goes = stop-kept ws s h
  opened-kept queue ws (true, s) k h goes =
      spawned-kept queue ws _ k (kept.spawn x.exe (spawn_args x queue) s h) goes

  spawn_from-kept :
      (n q count : ℕ) (ws : List Worker) (s : S) → P s → Ends (spawn_from p x n q count ws s)
  unfolding spawn_from
  spawn_from-kept zero q count ws s h = await-kept 80 count ws s h
  spawn_from-kept (suc n) q count ws s h =
      opened-kept q ws _ _ (kept.open_log q s h) (λ vs t k. spawn_from-kept n (q + 1) count vs t k)

  unless_owned-kept : (b : Bool) (count : ℕ) (s : S) → P s → Ends (unless_owned p x b count s)
  unless_owned-kept true count s h = h
  unless_owned-kept false count s h = spawn_from-kept count queue_base count [] s h

  pub start-kept : (count : ℕ) (ws : List Worker) (s : S) → P s → P (start p x count ws s).2
  unfolding start
  start-kept count ws s h =
      at (unless_owned p x (some_owned p x count queue_base (stop p x ws s)) count (stop p x ws s))
        (unless_owned-kept (some_owned p x count queue_base (stop p x ws s)) count _
          (stop-kept ws s h))
    where
      at : (m : Outcome p x) → Ends m → P m.2
      at (b, vs, t) k = k
