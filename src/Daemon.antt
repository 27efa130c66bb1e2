-- ===== src/Daemon.antt =====
-- src/daemon.rs: the decisions of the daemon. What it starts with, how it reads the queues'
-- statistics, when it takes a queue for stalled, and how it recovers.
pub mod Tracked
pub mod Stalls
pub mod Tally
pub mod Startup
pub mod Recovery
pub mod Loop
pub mod Workers
pub mod System
mod Examples
use nfqttl.Base.{
  ℕ, zero, suc, ◌+◌, ◌-◌, ◌*◌, ◌/◌, ◌%◌, ◌^◌, min, max, Bool, true, false, ◌&&◌, ◌||◌, not, leb,
  ltb, ◌==◌, in_range, if◌then◌else◌, List, [], ◌∷◌, ◌++◌, length, get_elem?, Option, none, some,
  Result, ok, err, ◌>>=◌, Error, other,
}
use nfqttl.Base.Text.{Text, split_whitespace, lines, parse_uint, keep_if, some_of}
use nfqttl.Config.{Config, Backend, Ipv6Mode}
use nfqttl.Firewall.{queue_base, Ipv6Plan}

-- The queue's number, its length and the number of its last packet.
abbrev pub Entry : Type 0
Entry = ℕ × ℕ × ℕ

pub record QStats : Type 0 where
  pub rows : ℕ
  pub len : ℕ
  pub kdrops : ℕ
  pub udrops : ℕ
  pub entries : List Entry

abbrev pub no_stats : QStats
no_stats = record { rows = 0; len = 0; kdrops = 0; udrops = 0; entries = [] }

abbrev pub u64_of : Option Text → ℕ
u64_of none = 0
u64_of (some t) = elim (parse_uint (2 ^ 64) t) [ none ↦ 0 | some n ↦ n ]

-- The queue of a row, if the row has at least 8 words and the queue is one of the program's.
unfoldable pub own_queue : ℕ → Option Text → ℕ → Option ℕ
own_queue last none words = none
own_queue last (some t) words = elim (parse_uint (2 ^ 16) t) [
  | none ↦ none
  | some q ↦
      if not (words == 9) && ltb words 8
      then none
      else if ltb q queue_base || ltb last q
      then none
      else some q
]

abbrev pub count_row : QStats → ℕ → ℕ → ℕ → ℕ → ℕ → QStats
count_row r q len kd ud seq = record {
  rows = (r.rows + 1) % 2 ^ 8;
  len = (r.len + len) % 2 ^ 64;
  kdrops = (r.kdrops + kd) % 2 ^ 64;
  udrops = (r.udrops + ud) % 2 ^ 64;
  entries = r.entries ++ ((q, len, seq) ∷ []);
}

-- The words of a row go into the statistics, if it is of an own queue.
abbrev pub add_entry : QStats → List Text → Option ℕ → QStats
add_entry r w none = r
add_entry r w (some q) =
    count_row r q (u64_of (get_elem? w 2)) (u64_of (get_elem? w 5)) (u64_of (get_elem? w 6))
      (u64_of (get_elem? w 7))

unfoldable pub add_row : ℕ → QStats → Text → QStats
add_row last r line =
    let w = split_whitespace line in add_entry r w (own_queue last (get_elem? w 0) (length w))

unfoldable pub add_rows : ℕ → QStats → List Text → QStats
add_rows last r [] = r
add_rows last r (l ∷ ls) = add_rows last (add_row last r l) ls

-- The text of /proc/net/netfilter/nfnetlink_queue is an argument, none if it cannot be read.
unfoldable pub queue_stats : Option Text → ℕ → QStats
queue_stats none count = no_stats
queue_stats (some text) count = add_rows (queue_base + count - 1) no_stats (lines text)

-- A map from a queue to its length, its last packet and how often these were found unchanged.
abbrev pub Progress : Type 0
Progress = List (ℕ × (ℕ × ℕ × ℕ))

unfoldable pub get : ℕ → Progress → Option (ℕ × ℕ × ℕ)
get q [] = none
get q ((p, v) ∷ m) = if p == q then some v else get q m

unfoldable pub insert : ℕ → ℕ × ℕ × ℕ → Progress → Progress
insert q v [] = (q, v) ∷ []
insert q v ((p, w) ∷ m) = if p == q then (p, v) ∷ m else (p, w) ∷ insert q v m

-- `retain`: the queues of the sample stay.
abbrev pub is_sampled : List Entry → ℕ → Bool
is_sampled entries q = some_of (λ e. e.0 == q) entries

unfoldable pub retain : List Entry → Progress → Progress
retain entries [] = []
retain entries ((q, v) ∷ m) =
    if is_sampled entries q then (q, v) ∷ retain entries m else retain entries m

-- `n.saturating_add(1)` of a `u8`, if the queue is not empty and nothing has changed, else 0.
abbrev pub stall_count : Option (ℕ × ℕ × ℕ) → ℕ → ℕ → ℕ
stall_count none len seq = 0
stall_count (some (old_len, old_seq, n)) len seq =
    if ltb 0 len && (len == old_len && seq == old_seq) then min 255 (n + 1) else 0

-- The loop over the entries, with the worst count so far.
unfoldable pub stall_entries : List Entry → Progress → ℕ → Progress × ℕ
stall_entries [] previous worst = (previous, worst)
stall_entries ((q, len, seq) ∷ es) previous worst =
    let n = stall_count (get q previous) len seq in
    stall_entries es (insert q (len, seq, n) previous) (max worst n)

unfoldable pub stall_sample : Progress → List Entry → Progress × ℕ
stall_sample previous entries = stall_entries entries (retain entries previous) 0

pub data EffectiveBackend : Type 0 where
  kernel nfqueue : EffectiveBackend

-- What the probes of the firewall answer.
pub record Probes : Type 0 where
  pub ip6t : Bool
  pub ttl_target : Bool
  pub hl_target : Bool
  pub balance : Bool

unfoldable pub choose_v6 : Probes → Ipv6Mode → Result Error Ipv6Plan
choose_v6 fw Ipv6Mode.pass = ok Ipv6Plan.pass
choose_v6 fw Ipv6Mode.block = if fw.ip6t then ok Ipv6Plan.block else ok Ipv6Plan.pass_no_ip6tables
choose_v6 fw Ipv6Mode.normalize =
    if not fw.ip6t
    then err (other "IPv6 normalization requested but ip6tables unavailable")
    else if fw.hl_target
    then ok Ipv6Plan.normalize
    else err (other "IPv6 HL target unavailable")
choose_v6 fw Ipv6Mode.auto =
    if not fw.ip6t
    then ok Ipv6Plan.pass_no_ip6tables
    else if fw.hl_target
    then ok Ipv6Plan.normalize
    else ok Ipv6Plan.block

unfoldable pub choose_backend : Probes → Backend → Result Error EffectiveBackend
choose_backend fw Backend.nfqueue = ok EffectiveBackend.nfqueue
choose_backend fw Backend.kernel =
    if fw.ttl_target
    then ok EffectiveBackend.kernel
    else err (other "kernel TTL target unavailable")
choose_backend fw Backend.auto =
    if fw.ttl_target then ok EffectiveBackend.kernel else ok EffectiveBackend.nfqueue

abbrev pub choose_workers : Probes → EffectiveBackend → ℕ → ℕ
choose_workers fw EffectiveBackend.kernel workers = 1
choose_workers fw EffectiveBackend.nfqueue workers = if fw.balance then workers else 1

pub record Choice : Type 0 where
  pub backend : EffectiveBackend
  pub active_workers : ℕ
  pub v6 : Ipv6Plan

-- The choices that `run_inner` makes before its loop, in its order.
unfoldable pub choose : Probes → Config → Result Error Choice
choose fw c = do
  backend ← choose_backend fw c.backend
  v6 ← choose_v6 fw c.ipv6_mode
  ok (record { backend = backend; active_workers = choose_workers fw backend c.workers; v6 = v6 })

-- The calls that the daemon makes, some with their answers.
pub data Action : Type 0 where
  cleanup stop_workers : Action
  wait_rounds : ℕ → Action
  checked_workers started_workers installed4 installed6 : Bool → Action

-- What `recover` changes, with the calls so far in order.
pub record Guard : Type 0 where
  pub active4 : Option Text
  pub active6 : Option Text
  pub failures : ℕ
  pub active_workers : ℕ
  pub actions : List Action

-- `c.cooldown.saturating_mul(1u64 << failures.min(5))`
abbrev pub cooldown_delay : ℕ → ℕ → ℕ
cooldown_delay cooldown failures = min (2 ^ 64 - 1) (cooldown * 2 ^ min 5 failures)

abbrev pub next_failures : ℕ → ℕ
next_failures failures = min 255 (failures + 1)

-- At the limit of failures, half of the workers, rounded up, go on with no failures counted.
abbrev pub is_degraded : Config → Guard → Bool
is_degraded c g = leb c.max_failures (next_failures g.failures) && ltb 1 g.active_workers

abbrev pub recovery_delay : Config → Guard → ℕ
recovery_delay c g =
    if leb c.max_failures (next_failures g.failures)
    then 30
    else cooldown_delay c.cooldown (next_failures g.failures)

-- A wait is given by its number of rounds of 100 ms, if nothing ends it early.
unfoldable pub recover : Config → Guard → Guard
recover c g = record {
  active4 = none;
  active6 = none;
  failures = if is_degraded c g then 0 else next_failures g.failures;
  active_workers = if is_degraded c g then (g.active_workers + 1) / 2 % 2 ^ 8 else g.active_workers;
  actions =
      g.actions ++ (cleanup ∷ stop_workers ∷ wait_rounds (min 60 (recovery_delay c g) * 10) ∷ []);
}
