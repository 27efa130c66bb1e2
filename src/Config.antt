-- ===== src/Config.antt =====
-- src/config.rs: the settings, their defaults, and how a configuration file is read.
pub mod Bounds
pub mod Validate
mod Examples
use nfqttl.Base.{
  ℕ, zero, suc, ◌+◌, ◌-◌, ◌^◌, Bool, true, false, ◌&&◌, ◌||◌, not, ltb, leb, ◌==◌, in_range,
  if◌then◌else◌, List, [], ◌∷◌, ◌++◌, length, Option, none, some, min, max,
}
use nfqttl.Base.Text.{
  Text, codes, text_eq, bytes, len, every, keep_if, trim, split_whitespace, lines, split_once,
  starts_with, ends_with, eq_ignore_ascii_case, parse_uint, Signed, positive, negative, parse_i32,
}
use mathlib.Core.List.{reverse, tail}

pub data Backend : Type 0 where
  auto kernel nfqueue : Backend

pub data Ipv6Mode : Type 0 where
  auto normalize block pass : Ipv6Mode

-- The `i32` fields are positive in every configuration, so they are kept as numbers.
pub record Config : Type 0 where
  pub ttl : ℕ
  pub backend : Backend
  pub workers : ℕ
  pub downstreams : List Text
  pub upstreams : List Text
  pub disable_offload : Bool
  pub ipv6_mode : Ipv6Mode
  pub ipv6_hl : ℕ
  pub max_failures : ℕ
  pub cooldown : ℕ
  pub queue_maxlen : ℕ
  pub rcvbuf_mb : ℕ
  pub max_backlog : ℕ
  pub stall_limit : ℕ
  pub watchdog_ms : ℕ
  pub idle_ms : ℕ
  pub rescan_ms : ℕ
  pub check_ms : ℕ
  pub gso : Bool
  pub sqm_up_kbit : ℕ
  pub sqm_down_kbit : ℕ
  pub sqm_up_iface : Text
  pub sqm_down_iface : Text

abbrev pub default : Config
default = record {
  ttl = 64;
  backend = Backend.auto;
  workers = 1;
  downstreams = [];
  upstreams = [];
  disable_offload = true;
  ipv6_mode = Ipv6Mode.auto;
  ipv6_hl = 64;
  max_failures = 6;
  cooldown = 1;
  queue_maxlen = 4096;
  rcvbuf_mb = 8;
  max_backlog = 3072;
  stall_limit = 3;
  watchdog_ms = 500;
  idle_ms = 10000;
  rescan_ms = 10000;
  check_ms = 5000;
  gso = false;
  sqm_up_kbit = 0;
  sqm_down_kbit = 0;
  sqm_up_iface = [];
  sqm_down_iface = [];
}

-- `&s[1..s.len() - 1]` of a text that begins and ends with a quote.
abbrev pub strip_ends : Text → Text
strip_ends s = reverse (tail (reverse (tail s)))

pub unquote : Text → Text
unquote t =
    let s = trim t in
    if leb 2 (len s)
      && ((starts_with (codes "\"") s && ends_with (codes "\"") s)
          || (starts_with (codes "'") s && ends_with (codes "'") s))
    then strip_ends s
    else s

-- `s.parse().ok().unwrap_or(default)`, of an unsigned type of `w` bits and of `i32`.
abbrev pub int_or {ℓ} : {A : Type ℓ} → Option A → A → A
int_or none d = d
int_or (some n) d = n

abbrev pub int : ℕ → Text → ℕ → ℕ
int w s d = int_or (parse_uint (2 ^ w) s) d

-- A value in the range replaces the old one.
abbrev pub update : ℕ → ℕ → ℕ → ℕ → ℕ
update lo hi old n = if in_range lo hi n then n else old

abbrev pub update_i32 : ℕ → ℕ → ℕ → Signed → ℕ
update_i32 lo hi old (positive n) = update lo hi old n
update_i32 lo hi old (negative n) = old

abbrev pub clamp : ℕ → ℕ → ℕ → ℕ
clamp lo hi n = if ltb n lo then lo else if ltb hi n then hi else n

abbrev pub clamp_i32 : ℕ → ℕ → Signed → ℕ
clamp_i32 lo hi (positive n) = clamp lo hi n
clamp_i32 lo hi (negative n) = lo

abbrev pub is_iface_byte : ℕ → Bool
is_iface_byte b =
    in_range b'a' b'z' b
    || in_range b'A' b'Z' b
    || in_range b'0' b'9' b
    || b == b'_'
    || b == b'.'
    || b == b':'
    || b == b'-'

unfoldable pub valid_iface : Text → Bool
valid_iface s = not (len s == 0) && leb (len s) 15 && every is_iface_byte (bytes s)

-- The settings that the `match` on the key tells apart.
pub data Key : Type 0 where
  ttl backend workers downstreams upstreams disable_offload ipv6_mode ipv6_hl : Key
  max_failures cooldown queue_maxlen rcvbuf_mb max_backlog stall_limit watchdog_ms : Key
  idle_ms rescan_ms check_ms sqm_up_kbit sqm_down_kbit sqm_up_iface sqm_down_iface : Key
  gso unknown : Key

abbrev pub keys : List (Text × Key)
keys =
    (codes "TTL", Key.ttl)
    ∷ (codes "BACKEND", Key.backend)
    ∷ (codes "WORKERS", Key.workers)
    ∷ (codes "DOWNSTREAMS", Key.downstreams)
    ∷ (codes "UPSTREAMS", Key.upstreams)
    ∷ (codes "DISABLE_OFFLOAD", Key.disable_offload)
    ∷ (codes "IPV6_MODE", Key.ipv6_mode)
    ∷ (codes "IPV6_HL", Key.ipv6_hl)
    ∷ (codes "MAX_FAILURES", Key.max_failures)
    ∷ (codes "COOLDOWN", Key.cooldown)
    ∷ (codes "QUEUE_MAXLEN", Key.queue_maxlen)
    ∷ (codes "RCVBUF_MB", Key.rcvbuf_mb)
    ∷ (codes "MAX_BACKLOG", Key.max_backlog)
    ∷ (codes "STALL_LIMIT", Key.stall_limit)
    ∷ (codes "WATCHDOG_MS", Key.watchdog_ms)
    ∷ (codes "IDLE_MS", Key.idle_ms)
    ∷ (codes "RESCAN_MS", Key.rescan_ms)
    ∷ (codes "CHECK_MS", Key.check_ms)
    ∷ (codes "SQM_UP_KBIT", Key.sqm_up_kbit)
    ∷ (codes "SQM_DOWN_KBIT", Key.sqm_down_kbit)
    ∷ (codes "SQM_UP_IFACE", Key.sqm_up_iface)
    ∷ (codes "SQM_DOWN_IFACE", Key.sqm_down_iface)
    ∷ (codes "GSO", Key.gso)
    ∷ []

unfoldable pub find_key : List (Text × Key) → Text → Key
find_key [] s = Key.unknown
find_key ((name, k) ∷ rest) s = if text_eq s name then k else find_key rest s

unfoldable pub key_of : Text → Key
unfolding find_key
key_of = find_key keys

abbrev pub backend_of : Text → Backend
backend_of v =
    if text_eq v (codes "kernel")
    then Backend.kernel
    else if text_eq v (codes "nfqueue")
    then Backend.nfqueue
    else Backend.auto

abbrev pub ipv6_mode_of : Text → Ipv6Mode
ipv6_mode_of v =
    if text_eq v (codes "normalize")
    then Ipv6Mode.normalize
    else if text_eq v (codes "block")
    then Ipv6Mode.block
    else if text_eq v (codes "pass")
    then Ipv6Mode.pass
    else Ipv6Mode.auto

abbrev pub is_on : Text → Bool
is_on v = text_eq v (codes "1") || eq_ignore_ascii_case v (codes "true")

abbrev pub ifaces_of : Text → List Text
ifaces_of v = keep_if valid_iface (split_whitespace v)

-- One arm of the `match` on the key.
unfoldable pub set_key : Key → Text → Config → Config
set_key Key.ttl v c = record c { ttl = update 1 255 c.ttl (int 16 v 64) }
set_key Key.backend v c = record c { backend = backend_of v }
set_key Key.workers v c = record c { workers = update 1 8 c.workers (int 16 v 1) }
set_key Key.downstreams v c = record c { downstreams = ifaces_of v }
set_key Key.upstreams v c = record c { upstreams = ifaces_of v }
set_key Key.disable_offload v c = record c { disable_offload = is_on v }
set_key Key.ipv6_mode v c = record c { ipv6_mode = ipv6_mode_of v }
set_key Key.ipv6_hl v c = record c { ipv6_hl = update 1 255 c.ipv6_hl (int 16 v 64) }
set_key Key.max_failures v c = record c { max_failures = update 1 20 c.max_failures (int 16 v 6) }
set_key Key.cooldown v c = record c { cooldown = update 0 60 c.cooldown (int 64 v 1) }
set_key Key.queue_maxlen v c = record c {
  queue_maxlen = update 256 32768 c.queue_maxlen (int 32 v 4096);
}
set_key Key.rcvbuf_mb v c = record c { rcvbuf_mb = update 1 64 c.rcvbuf_mb (int 32 v 8) }
set_key Key.max_backlog v c = record c {
  max_backlog = update 32 32768 c.max_backlog (int 64 v 3072);
}
set_key Key.stall_limit v c = record c { stall_limit = update 2 20 c.stall_limit (int 16 v 3) }
set_key Key.watchdog_ms v c = record c {
  watchdog_ms = update_i32 100 5000 c.watchdog_ms (int_or (parse_i32 v) (positive 500));
}
set_key Key.idle_ms v c = record c {
  idle_ms = clamp_i32 1000 60000 (int_or (parse_i32 v) (positive 10000));
}
set_key Key.rescan_ms v c = record c { rescan_ms = clamp 1000 60000 (int 64 v 10000) }
set_key Key.check_ms v c = record c { check_ms = clamp 1000 60000 (int 64 v 5000) }
set_key Key.sqm_up_kbit v c = record c { sqm_up_kbit = int 32 v 0 }
set_key Key.sqm_down_kbit v c = record c { sqm_down_kbit = int 32 v 0 }
set_key Key.sqm_up_iface v c = record c { sqm_up_iface = v }
set_key Key.sqm_down_iface v c = record c { sqm_down_iface = v }
set_key Key.gso v c = record c { gso = is_on v }
set_key Key.unknown v c = c

-- A trimmed line that is empty or a comment is skipped, and so is one with no `=`.
abbrev pub is_skipped : Text → Bool
is_skipped line = len line == 0 || starts_with (codes "#") line

unfoldable pub load_line : Config → Text → Config
load_line c raw =
    let line = trim raw in
    if is_skipped line then c else elim (split_once b'=' line) [
      | none ↦ c
      | some (k, v) ↦ set_key (key_of (trim k)) (unquote v) c
    ]

unfoldable pub load_lines : Config → List Text → Config
load_lines c [] = c
load_lines c (l ∷ ls) = load_lines (load_line c l) ls

-- A backlog limit above the queue's length is lowered to it.
abbrev pub cap_backlog : Config → Config
cap_backlog c =
    if ltb c.queue_maxlen c.max_backlog then record c { max_backlog = c.queue_maxlen } else c

-- `none` is a file that cannot be read.
unfoldable pub load : Option Text → Config
unfolding load_lines
load none = default
load (some text) = cap_backlog (load_lines default (lines text))
