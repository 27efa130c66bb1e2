-- ===== src/Config/Validate.antt =====
-- src/config.rs, `Config::validate`: the strict reading of a configuration file.
pub mod Accepts
pub mod Exact
use nfqttl.Base.{
  ℕ, suc, ◌+◌, ◌^◌, ◌<◌, Bool, true, false, ◌&&◌, ◌||◌, not, ltb, leb, ◌==◌, in_range,
  if◌then◌else◌, List, [], ◌∷◌, ◌++◌, length, Option, none, some, Result, ok, err, ◌>>=◌, ◌>>◌,
}
use nfqttl.Base.Text.{
  Text, codes, text_eq, len, every, some_of, has_text, trim, split_whitespace, lines, split_once,
  starts_with, parse_uint,
}
use nfqttl.Config.{Config, Key, key_of, valid_iface, is_skipped, unquote, load}

-- The errors, those of a line with its number.
pub data ConfigError : Type 0 where
  unreadable : ConfigError
  expected_value : ℕ → ConfigError
  duplicate_setting : ℕ → ConfigError
  expected_integer : ℕ → ConfigError
  out_of_range : ℕ → ConfigError
  invalid_value : ℕ → ConfigError
  overlap : ConfigError
  sqm_rate : ConfigError
  sqm_offload : ConfigError
  sqm_same_interface : ConfigError
  sqm_clat : ConfigError

unfoldable pub bounds : Key → Option (ℕ × ℕ)
bounds Key.ttl = some (1, 255)
bounds Key.ipv6_hl = some (1, 255)
bounds Key.sqm_up_kbit = some (0, 1000000)
bounds Key.sqm_down_kbit = some (0, 1000000)
bounds Key.workers = some (1, 8)
bounds Key.max_failures = some (1, 20)
bounds Key.cooldown = some (0, 60)
bounds Key.queue_maxlen = some (256, 32768)
bounds Key.rcvbuf_mb = some (1, 64)
bounds Key.max_backlog = some (32, 32768)
bounds Key.stall_limit = some (2, 20)
bounds Key.watchdog_ms = some (100, 5000)
bounds Key.idle_ms = some (1000, 60000)
bounds Key.rescan_ms = some (1000, 60000)
bounds Key.check_ms = some (1000, 60000)
bounds _ = none

-- `matches!(v, …)`
abbrev pub is_one_of : Text → List Text → Bool
is_one_of v names = has_text names v

unfoldable pub is_valid : Key → Text → Bool
is_valid Key.sqm_up_iface v = len v == 0 || valid_iface v
is_valid Key.sqm_down_iface v = len v == 0 || valid_iface v
is_valid Key.backend v = is_one_of v (codes "auto" ∷ codes "kernel" ∷ codes "nfqueue" ∷ [])
is_valid Key.ipv6_mode v =
    is_one_of v (codes "auto" ∷ codes "normalize" ∷ codes "block" ∷ codes "pass" ∷ [])
is_valid Key.disable_offload v =
    is_one_of v (codes "0" ∷ codes "1" ∷ codes "true" ∷ codes "false" ∷ [])
is_valid Key.gso v = is_one_of v (codes "0" ∷ codes "1" ∷ codes "true" ∷ codes "false" ∷ [])
is_valid Key.downstreams v = every valid_iface (split_whitespace v)
is_valid Key.upstreams v = every valid_iface (split_whitespace v)
is_valid _ v = false

-- The settings met so far, and the interfaces named on each side.
pub record Seen : Type 0 where
  pub names : List Text
  pub down : List Text
  pub up : List Text

abbrev pub note_ifaces : Key → Text → Seen → Seen
note_ifaces Key.downstreams v s = record s { down = split_whitespace v }
note_ifaces Key.upstreams v s = record s { up = split_whitespace v }
note_ifaces _ v s = s

-- The value of a setting: a number in its range, or one of the values allowed.
unfoldable pub check_value : ℕ → Key → Text → Seen → Result ConfigError Seen
check_value i k v s = elim (bounds k) [
  | some (lo, hi) ↦ elim (parse_uint (2 ^ 64) v) [
    | none ↦ err (expected_integer i)
    | some n ↦ if in_range lo hi n then ok s else err (out_of_range i)
  ]
  | none ↦ if is_valid k v then ok (note_ifaces k v s) else err (invalid_value i)
]

unfoldable pub check_line : ℕ → Text → Seen → Result ConfigError Seen
check_line i raw s =
    let line = trim raw in
    if is_skipped line then ok s else elim (split_once b'=' line) [
      | none ↦ err (expected_value i)
      | some (k, v) ↦
          if has_text s.names (trim k)
          then err (duplicate_setting i)
          else check_value i (key_of (trim k)) (unquote v) (record s { names = trim k ∷ s.names })
    ]

unfoldable pub check_lines : ℕ → List Text → Seen → Result ConfigError Seen
check_lines i [] s = ok s
check_lines i (l ∷ ls) s = do s ← check_line i l s; check_lines (i + 1) ls s

abbrev pub bad_rate : ℕ → Text → Bool
bad_rate rate iface = ltb 0 rate && (ltb rate 100 || len iface == 0)

-- The conditions on the SQM settings of the loaded configuration.
unfoldable pub check_sqm : Config → Result ConfigError (Unit {0})
check_sqm c =
    if bad_rate c.sqm_up_kbit c.sqm_up_iface || bad_rate c.sqm_down_kbit c.sqm_down_iface
    then err sqm_rate
    else if ltb 0 c.sqm_up_kbit || ltb 0 c.sqm_down_kbit
    then if not c.disable_offload
      then err sqm_offload
      else if text_eq c.sqm_up_iface c.sqm_down_iface
          && (ltb 0 c.sqm_up_kbit && ltb 0 c.sqm_down_kbit)
      then err sqm_same_interface
      else if starts_with (codes "v4-") c.sqm_up_iface || starts_with (codes "clat") c.sqm_up_iface
      then err sqm_clat
      else ok tt
    else ok tt

-- The file is read twice, by `validate` and by the `load` in it; it is taken not to change between.
unfoldable pub validate : Option Text → Result ConfigError (Unit {0})
validate none = err unreadable
validate (some text) = do
  s ← check_lines 1 (lines text) (record { names = []; down = []; up = [] })
  if some_of (has_text s.up) s.down then err overlap else check_sqm (load (some text))
