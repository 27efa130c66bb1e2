-- ===== src/Config/Validate/Exact.antt =====
-- What `validate` accepts of a number `set_key`, the step of `load` for a line, takes as it is.
use nfqttl.Base.{ℕ, ◌^◌, ◌≡◌, true, arith, in_range, some}
use nfqttl.Base.Text.{Text, parse_uint, parse_uint_narrow, parse_i32_of_uint}
use nfqttl.Config.{Config, Key, set_key}
use nfqttl.Config.Validate.{bounds}

-- The number that a setting has in a configuration, 0 for a setting that is none.
abbrev pub number_of : Key → Config → ℕ
number_of Key.ttl c = c.ttl
number_of Key.workers c = c.workers
number_of Key.ipv6_hl c = c.ipv6_hl
number_of Key.max_failures c = c.max_failures
number_of Key.cooldown c = c.cooldown
number_of Key.queue_maxlen c = c.queue_maxlen
number_of Key.rcvbuf_mb c = c.rcvbuf_mb
number_of Key.max_backlog c = c.max_backlog
number_of Key.stall_limit c = c.stall_limit
number_of Key.watchdog_ms c = c.watchdog_ms
number_of Key.idle_ms c = c.idle_ms
number_of Key.rescan_ms c = c.rescan_ms
number_of Key.check_ms c = c.check_ms
number_of Key.sqm_up_kbit c = c.sqm_up_kbit
number_of Key.sqm_down_kbit c = c.sqm_down_kbit
number_of _ c = 0

-- For a value that is a number within the `bounds` that `validate` has for the key: `set_key`, the
-- step of `load` for one line, sets the setting to exactly that number (before `load` at its end caps
-- the backlog limit at the queue's length).
pub set_key_exact :
    (k : Key) (v : Text) (c : Config) (lo hi n : ℕ)
    → bounds k ≡ some (lo, hi)
    → parse_uint (2 ^ 64) v ≡ some n
    → in_range lo hi n ≡ true
    → number_of k (set_key k v c) ≡ n
unfolding bounds set_key
set_key_exact k v c lo hi n b p r = go k b
  where
    go : (k : Key) → bounds k ≡ some (lo, hi) → number_of k (set_key k v c) ≡ n
    go Key.ttl b = ground (arith, parse_uint_narrow (2 ^ 64) (2 ^ 16) n v)
    go Key.watchdog_ms b = ground (arith, parse_i32_of_uint (2 ^ 64) n v)
    go Key.idle_ms b = ground (arith, parse_i32_of_uint (2 ^ 64) n v)
    go _ b =
        ground
          (arith, parse_uint_narrow (2 ^ 64) (2 ^ 16) n v, parse_uint_narrow (2 ^ 64) (2 ^ 32) n v)
