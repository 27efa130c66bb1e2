-- ===== src/Daemon/Workers/Started.antt =====
-- What the table of workers is after a start.
use nfqttl.Base.{
  ℕ, zero, suc, ◌+◌, ◌≡◌, refl, sym, ap, ◌∙◌, arith, ◌⊎◌, inl, inr, Bool, true, false, ◌&&◌,
  Bool-cases, List, [], ◌∷◌, ◌++◌, map, append-nil, append_assoc, All, Option, none, some, ==_iff,
}
use nfqttl.Base.Text.{every, Signed, positive, negative}
use nfqttl.Firewall.{queue_base}
use nfqttl.Daemon.Workers.{
  Worker, Settings, Processes, as_i32, same_i32, is_owner, is_ready, queue_owner, is_up, healthy,
  all_ready, some_owned, Outcome, given_up, stop, await, recorded, spawned, opened, spawn_args,
  spawn_from, start,
}

-- `n` queues from `q` on.
abbrev pub numbered : ℕ → ℕ → List ℕ
numbered q zero = []
numbered q (suc n) = q ∷ numbered (q + 1) n

abbrev pub queues : List Worker → List ℕ
queues ws = map (λ w. w.queue) ws

same_i32_eq : (m n : Signed) → same_i32 m n ≡ true → m ≡ n
same_i32_eq (positive m) (positive n) h = ap positive ((==_iff m n).0 h)
same_i32_eq (negative m) (negative n) h = ap negative ((==_iff m n).0 h)
same_i32_eq (positive m) (negative n) h = ground arith
same_i32_eq (negative m) (positive n) h = ground arith

is_owner_eq : (o : Option Signed) (pid : ℕ) → is_owner o pid ≡ true → o ≡ some (as_i32 pid)
is_owner_eq none pid h = ground arith
is_owner_eq (some o) pid h = ap some (same_i32_eq o (as_i32 pid) h)

queues-append :
    (ws : List Worker) (w : Worker) → queues (ws ++ (w ∷ [])) ≡ queues ws ++ (w.queue ∷ [])
queues-append [] w = refl
queues-append (v ∷ ws) w = ap (λ l. v.queue ∷ l) (queues-append ws w)

module _ {S : Type 0} (p : Processes S) (x : Settings) where
  -- The worker has not ended, it owns its queue, and has said that it is ready.
  pub record IsUp (s : S) (w : Worker) : Type 0 where
    pub lives : p.has_exited w.pid s ≡ false
    pub owns : queue_owner p x w.queue s ≡ some (as_i32 w.pid)
    pub says_ready : is_ready (p.log_text w.queue s) ≡ true

  abbrev pub IsOutcome : ℕ → Outcome p x → Type 0
  IsOutcome count (true, ws, s) = (queues ws ≡ numbered queue_base count) × All (IsUp s) ws
  IsOutcome count (false, ws, s) = (ws ≡ []) ⊎ (queues ws ≡ numbered queue_base count)

  ups :
      (ws : List Worker) (s : S)
      → every (is_up p x s) ws ≡ true
      → all_ready p x ws s ≡ true
      → All (IsUp s) ws
  unfolding every
  ups [] s h k = tt
  ups (w ∷ ws) s h k = (
    record {
      lives = ground arith;
      owns = is_owner_eq (queue_owner p x w.queue s) w.pid (ground arith);
      says_ready = ground arith;
    },
    ups ws s (ground arith) (ground arith),
  )

  await-IsOutcome :
      (n count : ℕ) (ws : List Worker) (s : S)
      → queues ws ≡ numbered queue_base count
      → IsOutcome count (await p x n count ws s)
  unfolding await
  await-IsOutcome zero count ws s h = inr h
  await-IsOutcome (suc n) count ws s h = elim (Bool-cases (p.is_stopping s)) [
    | inl stopping ↦ rw stopping (inl refl)
    | inr on ↦ elim (Bool-cases (healthy p x count ws s && all_ready p x ws s)) [
      | inl up ↦ rw (on, up) (h, ups ws s (ground arith) (ground arith))
      | inr early ↦ rw (on, early) (await-IsOutcome n count ws (p.pause s) h)
    ]
  ]

  -- A step that spawns gives up, or goes on with one more worker.
  pub opened-holds :
      (P : Outcome p x → Type 0) (q : ℕ) (ws : List Worker) (s : S)
      (k : List Worker → S → Outcome p x)
      → ((t : S) → P (given_up p x ws t))
      → ((pid : ℕ) (t : S) → P (k (ws ++ (record { queue = q; pid = pid } ∷ [])) t))
      → P (opened p x q ws (p.open_log q s) k)
  opened-holds P q ws s k stops goes = at_log (p.open_log q s)
    where
      at_child : (m : Option ℕ × S) → P (spawned p x q ws m k)
      at_child (none, t) = stops t
      at_child (some pid, t) = goes pid (recorded p x q pid t)

      at_log : (m : Bool × S) → P (opened p x q ws m k)
      at_log (false, t) = stops t
      at_log (true, t) = at_child (p.spawn x.exe (spawn_args x q) t)

  spawn_from-IsOutcome :
      (n q count : ℕ) (ws : List Worker) (s : S)
      → queues ws ++ numbered q n ≡ numbered queue_base count
      → IsOutcome count (spawn_from p x n q count ws s)
  unfolding spawn_from
  spawn_from-IsOutcome zero q count ws s h =
      await-IsOutcome 80 count ws s (sym (append-nil (queues ws)) ∙ h)
  spawn_from-IsOutcome (suc n) q count ws s h =
      opened-holds (IsOutcome count) q ws s _ (λ t. inl refl)
        (λ pid t.
          spawn_from-IsOutcome n (q + 1) count (ws ++ (record { queue = q; pid = pid } ∷ [])) t (
            ap (λ l. l ++ numbered (q + 1) n) (queues-append ws (record { queue = q; pid = pid }))
            ∙ (append_assoc (queues ws) (q ∷ []) (numbered (q + 1) n) ∙ h)))

  -- A start succeeds only with one worker for each of the `count` queues, in order; each has not
  -- ended, owns its queue and has said that it is ready. Without success, no worker is in the table,
  -- or one for each queue.
  pub start-IsOutcome :
      (count : ℕ) (ws : List Worker) (s : S) → IsOutcome count (start p x count ws s)
  unfolding start
  start-IsOutcome count ws s = elim (Bool-cases (some_owned p x count queue_base (stop p x ws s))) [
    | inl owned ↦ rw owned (inl refl)
    | inr free ↦ rw free (spawn_from-IsOutcome count queue_base count [] (stop p x ws s) refl)
  ]
