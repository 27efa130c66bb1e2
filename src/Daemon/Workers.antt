-- ===== src/Daemon/Workers.antt =====
-- src/daemon.rs, `Workers`: the worker processes and the queues they own. The system is a parameter,
-- which changes while the daemon calls it or waits; its answers in between are functions of its state.

pub mod Started
pub mod Orphans
pub mod Kept
pub mod Handover
pub mod Examples
use nfqttl.Base.{
  ℕ, zero, suc, ◌+◌, ◌-◌, ◌^◌, Bool, true, false, ◌&&◌, ◌||◌, not, leb, ltb, ◌==◌, if◌then◌else◌,
  List, [], ◌∷◌, ◌++◌, length, get_elem?, Option, none, some,
}
use nfqttl.Base.Text.{
  Text, codes, every, some_of, lines, split_whitespace, starts_with, parse_uint, Signed, positive,
  negative, parse_i32, to_text,
}
use nfqttl.Firewall.{queue_base}

-- A child process is known by its number.
pub record Worker : Type 0 where
  pub queue : ℕ
  pub pid : ℕ

-- The fields of `Workers` that stay.
pub record Settings : Type 0 where
  pub exe : Text
  pub module_dir : Text
  pub ttl : ℕ
  pub queue_maxlen : ℕ
  pub rcvbuf_mb : ℕ
  pub gso : Bool

-- `queues` is the text of /proc/net/netfilter/nfnetlink_queue, `has_exited` is `try_wait`, `open_log`
-- keeps the old log, opens a new one and clones its handle, `pause` takes 100 ms.
pub record Processes (S : Type 0) : Type 0 where
  pub queues : S → Option Text
  pub has_exited : ℕ → S → Bool
  pub log_text : ℕ → S → Option Text
  pub is_stopping : S → Bool
  pub terminate : ℕ → S → S
  pub kill : ℕ → S → S
  pub wait : ℕ → S → S
  pub pause : S → S
  pub open_log : ℕ → S → Bool × S
  pub spawn : Text → List Text → S → Option ℕ × S
  pub write_state : Text → Text → S → S
  pub remove_state : Text → S → S

-- `pid as i32`
abbrev pub as_i32 : ℕ → Signed
as_i32 pid = if ltb pid (2 ^ 31) then positive pid else negative (2 ^ 32 - pid)

abbrev pub same_i32 : Signed → Signed → Bool
same_i32 (positive m) (positive n) = m == n
same_i32 (negative m) (negative n) = m == n
same_i32 _ _ = false

abbrev pub is_owner : Option Signed → ℕ → Bool
is_owner none pid = false
is_owner (some o) pid = same_i32 o (as_i32 pid)

abbrev pub is_number : Option ℕ → ℕ → Bool
is_number none q = false
is_number (some n) q = n == q

abbrev pub u16_of : Option Text → Option ℕ
u16_of none = none
u16_of (some t) = parse_uint (2 ^ 16) t

abbrev pub i32_of : Option Text → Option Signed
i32_of none = none
i32_of (some t) = parse_i32 t

-- The owner in the first row of the queue.
unfoldable pub owner_in : ℕ → List Text → Option Signed
owner_in q [] = none
owner_in q (l ∷ ls) =
    let rest = owner_in q ls in
    let w = split_whitespace l in
    if leb 2 (length w) && is_number (u16_of (get_elem? w 0)) q
    then i32_of (get_elem? w 1)
    else rest

abbrev pub owner_of : ℕ → Option Text → Option Signed
owner_of q none = none
owner_of q (some t) = owner_in q (lines t)

-- `contains` of a text.
unfoldable pub contains_text : Text → Text → Bool
contains_text part [] = starts_with part []
contains_text part (c ∷ t) = starts_with part (c ∷ t) || contains_text part t

abbrev pub is_ready : Option Text → Bool
is_ready none = false
is_ready (some t) = contains_text (codes "READY ") t

abbrev pub pid_file : ℕ → Text
pid_file q = codes "worker." ++ (to_text q ++ codes ".pid")

abbrev pub first_pid_file : Text
first_pid_file = codes "worker.pid"

-- The arguments of a worker, after the name of the program.
abbrev pub spawn_args : Settings → ℕ → List Text
spawn_args x q =
    codes "worker"
    ∷ codes "--queue"
    ∷ to_text q
    ∷ codes "--ttl"
    ∷ to_text x.ttl
    ∷ codes "--queue-maxlen"
    ∷ to_text x.queue_maxlen
    ∷ codes "--rcvbuf-mb"
    ∷ to_text x.rcvbuf_mb
    ∷ codes "--gso"
    ∷ codes (if x.gso then "1" else "0")
    ∷ codes "--module-dir"
    ∷ x.module_dir
    ∷ []

module _ {S : Type 0} (p : Processes S) (x : Settings) where
  abbrev pub queue_owner : ℕ → S → Option Signed
  queue_owner q s = owner_of q (p.queues s)

  abbrev pub is_owned : ℕ → S → Bool
  is_owned q s = has_value (queue_owner q s)
    where
      has_value : Option Signed → Bool
      has_value none = false
      has_value (some o) = true

  unfoldable pub terminate_all : List Worker → S → S
  terminate_all [] s = s
  terminate_all (w ∷ ws) s = terminate_all ws (p.terminate w.pid s)

  abbrev pub ended : Worker → S → S
  ended w s = if p.has_exited w.pid s then s else p.kill w.pid s

  unfoldable pub reap_all : List Worker → S → S
  reap_all [] s = s
  reap_all (w ∷ ws) s = reap_all ws (p.remove_state (pid_file w.queue) (p.wait w.pid (ended w s)))

  abbrev pub rest_after : List Worker → S → S
  rest_after [] s = s
  rest_after (w ∷ ws) s = p.pause s

  -- The table is empty after it.
  unfoldable pub stop : List Worker → S → S
  stop ws s = p.remove_state first_pid_file (reap_all ws (rest_after ws (terminate_all ws s)))

  abbrev pub is_up : S → Worker → Bool
  is_up s w = not (p.has_exited w.pid s) && is_owner (queue_owner w.queue s) w.pid

  abbrev pub healthy : ℕ → List Worker → S → Bool
  healthy count ws s = length ws == count && every (is_up s) ws

  abbrev pub all_ready : List Worker → S → Bool
  all_ready ws s = every (λ w. is_ready (p.log_text w.queue s)) ws

  -- Whether one of the queues is owned already.
  unfoldable pub some_owned : ℕ → ℕ → S → Bool
  some_owned zero q s = false
  some_owned (suc n) q s = is_owned q s || some_owned n (q + 1) s

  -- The outcome of a start, with the table of workers.
  abbrev pub Outcome : Type 0
  Outcome = Bool × List Worker × S

  abbrev pub given_up : List Worker → S → Outcome
  given_up ws s = (false, [], stop ws s)

  -- At most `rounds` rounds of 100 ms for the workers to be ready.
  unfoldable pub await : ℕ → ℕ → List Worker → S → Outcome
  await zero count ws s = (false, ws, s)
  await (suc n) count ws s =
      let rest = await n count ws (p.pause s) in
      if p.is_stopping s
      then given_up ws s
      else if healthy count ws s && all_ready ws s
      then (true, ws, s)
      else rest

  -- The files that name the worker.
  abbrev pub recorded : ℕ → ℕ → S → S
  recorded q pid s =
      let t = p.write_state (pid_file q) (to_text pid) s in
      if q == queue_base then p.write_state first_pid_file (to_text pid) t else t

  abbrev pub spawned : ℕ → List Worker → Option ℕ × S → (List Worker → S → Outcome) → Outcome
  spawned q ws (none, s) k = given_up ws s
  spawned q ws (some pid, s) k = k (ws ++ (record { queue = q; pid = pid } ∷ [])) (recorded q pid s)

  abbrev pub opened : ℕ → List Worker → Bool × S → (List Worker → S → Outcome) → Outcome
  opened q ws (false, s) k = given_up ws s
  opened q ws (true, s) k = spawned q ws (p.spawn x.exe (spawn_args x q) s) k

  -- `n` more workers from the queue on, of `count` in all, and the wait for them.
  unfoldable pub spawn_from : ℕ → ℕ → ℕ → List Worker → S → Outcome
  spawn_from zero q count ws s = await 80 count ws s
  spawn_from (suc n) q count ws s =
      opened q ws (p.open_log q s) (λ vs t. spawn_from n (q + 1) count vs t)

  abbrev pub unless_owned : Bool → ℕ → S → Outcome
  unless_owned true count s = (false, [], s)
  unless_owned false count s = spawn_from count queue_base count [] s

  unfoldable pub start : ℕ → List Worker → S → Outcome
  start count ws s = let t = stop ws s in unless_owned (some_owned count queue_base t) count t
