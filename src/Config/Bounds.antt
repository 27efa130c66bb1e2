-- ===== src/Config/Bounds.antt =====
-- Every configuration that `load` returns is in bounds, whatever the file holds.
use nfqttl.Base.{
  ◌≤◌, ◌<◌, ◌^◌, ◌≡◌, Bool, true, arith, Bool-cases, Option-cases, inl, inr, List, [], ◌∷◌, Option,
  none, some, All,
}
use nfqttl.Base.Text.{
  Text, keep_if, trim, split_once, split_whitespace, lines, parse_uint, parse_uint-lt,
}
use nfqttl.Config.{
  Config, default, valid_iface, Key, key_of, set_key, unquote, is_skipped, load_line, load_lines,
  int, cap_backlog, load,
}

-- The bounds that hold after every line.
pub record IsBounded (c : Config) : Type 0 where
  pub ttl : (1 ≤ c.ttl) × (c.ttl ≤ 255)
  pub workers : (1 ≤ c.workers) × (c.workers ≤ 8)
  pub ipv6_hl : (1 ≤ c.ipv6_hl) × (c.ipv6_hl ≤ 255)
  pub max_failures : (1 ≤ c.max_failures) × (c.max_failures ≤ 20)
  pub cooldown : c.cooldown ≤ 60
  pub queue_maxlen : (256 ≤ c.queue_maxlen) × (c.queue_maxlen ≤ 32768)
  pub rcvbuf_mb : (1 ≤ c.rcvbuf_mb) × (c.rcvbuf_mb ≤ 64)
  pub max_backlog : (32 ≤ c.max_backlog) × (c.max_backlog ≤ 32768)
  pub stall_limit : (2 ≤ c.stall_limit) × (c.stall_limit ≤ 20)
  pub watchdog_ms : (100 ≤ c.watchdog_ms) × (c.watchdog_ms ≤ 5000)
  pub idle_ms : (1000 ≤ c.idle_ms) × (c.idle_ms ≤ 60000)
  pub rescan_ms : (1000 ≤ c.rescan_ms) × (c.rescan_ms ≤ 60000)
  pub check_ms : (1000 ≤ c.check_ms) × (c.check_ms ≤ 60000)
  pub sqm_up_kbit : c.sqm_up_kbit < 2 ^ 32
  pub sqm_down_kbit : c.sqm_down_kbit < 2 ^ 32
  pub downstreams : All (λ s. valid_iface s ≡ true) c.downstreams
  pub upstreams : All (λ s. valid_iface s ≡ true) c.upstreams

-- What holds of the loaded configuration besides: the backlog limit fits the queue.
pub record IsLoaded (c : Config) : Type 0 where
  pub bounded : IsBounded c
  pub backlog : c.max_backlog ≤ c.queue_maxlen

keep_if-All : (p : Text → Bool) (ts : List Text) → All (λ s. p s ≡ true) (keep_if p ts)
unfolding keep_if
keep_if-All p [] = tt
keep_if-All p (t ∷ ts) = elim (Bool-cases (p t)) [
  | inl kept ↦ rw kept (kept, keep_if-All p ts)
  | inr dropped ↦ rw dropped (keep_if-All p ts)
]

int-lt : (v : Text) → int 32 v 0 < 2 ^ 32
int-lt v = elim (Option-cases (parse_uint (2 ^ 32) v)) [
  | inl e ↦ rw e (omega arith)
  | inr (n, e) ↦ rw e (parse_uint-lt (2 ^ 32) n v (omega arith) e)
]

set_key-IsBounded : (k : Key) (v : Text) (c : Config) → IsBounded c → IsBounded (set_key k v c)
unfolding set_key
set_key-IsBounded Key.downstreams v c b =
    ground (arith, keep_if-All valid_iface (split_whitespace v))
set_key-IsBounded Key.upstreams v c b = ground (arith, keep_if-All valid_iface (split_whitespace v))
set_key-IsBounded Key.sqm_up_kbit v c b = ground (arith, int-lt v)
set_key-IsBounded Key.sqm_down_kbit v c b = ground (arith, int-lt v)
set_key-IsBounded _ v c b = ground arith

load_line-IsBounded : (c : Config) (l : Text) → IsBounded c → IsBounded (load_line c l)
unfolding load_line
load_line-IsBounded c l b = elim (Bool-cases (is_skipped (trim l))) [
  | inl skipped ↦ rw skipped b
  | inr kept ↦ elim (Option-cases (split_once b'=' (trim l))) [
    | inl no_value ↦ rw (kept, no_value) b
    | inr ((k, v), pair) ↦ rw (kept, pair) (set_key-IsBounded (key_of (trim k)) (unquote v) c b)
  ]
]

load_lines-IsBounded : (ls : List Text) (c : Config) → IsBounded c → IsBounded (load_lines c ls)
unfolding load_lines
load_lines-IsBounded [] c b = b
load_lines-IsBounded (l ∷ ls) c b =
    load_lines-IsBounded ls (load_line c l) (load_line-IsBounded c l b)

default-IsBounded : IsBounded default
default-IsBounded = ground arith

cap_backlog-IsLoaded : (c : Config) → IsBounded c → IsLoaded (cap_backlog c)
cap_backlog-IsLoaded c b = ground arith

-- Whatever the file holds, or if it cannot be read, each number of the loaded configuration but the
-- SQM rates is in the range of its setting; the SQM rates are `u32`s; the interfaces of DOWNSTREAMS
-- and UPSTREAMS (not those of SQM) are valid names; and the backlog limit is at most the queue's
-- length.
pub load-IsLoaded : (file : Option Text) → IsLoaded (load file)
unfolding load
load-IsLoaded none = ground arith
load-IsLoaded (some text) =
    cap_backlog-IsLoaded (load_lines default (lines text))
      (load_lines-IsBounded (lines text) default default-IsBounded)
